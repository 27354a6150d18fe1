-- ===== src/Registry/Parsed.antt =====
-- What holds of a source that the parser accepts.
use sparqly.Base.{
  ℕ, suc, ◌≡◌, refl, subst, Bool, true, false, ◌&&◌, Option, none, some, List, [], ◌∷◌, JsString,
  codes, is_some, Result, ok, ◌>>=◌, >>=-eq-ok, text_eq, All, All-map, any_by, arith, Option-cases,
  Bool-cases, inl, inr,
}
use sparqly.OrderedMap
use sparqly.OrderedMap.{OrderedMap, keys, get-set}
use sparqly.Sources.{
  ParsedSource, GlobSource, EndpointSource, EmptySource, ReferenceSource, glob, endpoint, empty,
  reference, file, ParsedTransform, StorageTier, memory, disk, SparqlAuth,
}
use sparqly.Target.{bare_endpoint, bare_glob}
use sparqly.Target.Selection.{parse_source_spec-cases}
use sparqly.Json.{Value, Values, no_values, value_then, sequence}
use sparqly.Registry.Fields.{
  not_on_empty, refuse_keys, pick_true, pick_union_default_graph, pick_storage, pick_query_cache,
  legacy_field, only_on_globs, only_on_endpoints, SpecError, SourceSpecObjectInput, refuse_if,
  is_annotation, reject_annotate_source_on_disk_glob, pick_text, git_fields, pick_git_fields,
  pick_auth, pick_endpoint_http, has_authorization, authorization_twice,
}
use sparqly.Registry.{
  empty_forbidden, legacy_fields, endpoint_only_fields, glob_tier_fields, git_keys, is_source_id,
  validate_source_id, TransformDefinition, parse_one, parse_transforms, parse_transform_list,
  SourceSpecInput, bare_text, object_input, parse_empty, parse_endpoint, parse_glob, parse_kind,
  parse_input,
}

abbrev pub HasSourceId : Option JsString → Type 0
HasSourceId none = Unit
HasSourceId (some id) = is_source_id id ≡ true

-- A root of a repository only with a ref.
abbrev pub GitPaired : Option JsString → Option JsString → Type 0
GitPaired none (some root) = ⊥
GitPaired none none = Unit
GitPaired (some ref) root = Unit

abbrev pub OneAuthorization : Option SparqlAuth → Option (OrderedMap JsString JsString) → Type 0
OneAuthorization none headers = Unit
OneAuthorization (some auth) headers = has_authorization headers ≡ false

-- A name that a map does not have after another was added was not there, and is not the other.
fresh-set :
    {V : Type 0} (seen : OrderedMap JsString V) (key other : JsString) (v : V)
    → OrderedMap.get other (OrderedMap.set key v seen) ≡ none
    → (text_eq.beq key other ≡ false) × (OrderedMap.get other seen ≡ none)
fresh-set seen key other v h = ground (arith, h, get-set key other v seen)

refused_if : (e : SpecError) (failed : Bool) {u : Unit} → refuse_if failed e ≡ ok u → failed ≡ false
refused_if e true {u} h = cc
refused_if e false {u} h = refl

HasSourceId-validate :
    (id : Option JsString) {u : Unit} → validate_source_id id ≡ ok u → HasSourceId id
HasSourceId-validate none {u} h = tt
HasSourceId-validate (some id) {u} h = elim (Bool-cases (is_source_id id)) [
  | inl e ↦ e
  | inr e ↦ ground (arith, h, e)
]

git_fields-GitPaired :
    (ref root : Option JsString) {git : Option JsString × Option JsString}
    → git_fields ref root ≡ ok git
    → GitPaired git.0 git.1
git_fields-GitPaired none (some root) {git} h = cc
git_fields-GitPaired none none {git} h =
    let same : (none, none) ≡ git = cc in subst (λ g. GitPaired g.0 g.1) same tt
git_fields-GitPaired (some ref) root {git} h =
    let same : (some ref, root) ≡ git = cc in subst (λ g. GitPaired g.0 g.1) same tt

abbrev pub IsEndpoint : EndpointSource → Type 0
IsEndpoint s = HasSourceId s.id × OneAuthorization s.auth s.headers

abbrev pub IsReference : ReferenceSource → Type 0
IsReference s = (s.id ≡ none) × (s.is_default ≡ false)

module _ {X : Type 0} where
  -- No annotation of quads on a glob that is kept on disk.
  abbrev pub DiskSafe : Option StorageTier → Option (List (ParsedTransform X)) → Type 0
  DiskSafe (some disk) (some transforms) = any_by is_annotation transforms ≡ false
  DiskSafe (some disk) none = Unit
  DiskSafe (some memory) transforms = Unit
  DiskSafe none transforms = Unit

  abbrev pub DistinctKeys : List (ParsedTransform X) → Type 0
  DistinctKeys [] = Unit
  DistinctKeys (t ∷ ts) = All (λ u. text_eq.beq t.key u.key ≡ false) ts × DistinctKeys ts

  abbrev pub TransformsDistinct : Option (List (ParsedTransform X)) → Type 0
  TransformsDistinct none = Unit
  TransformsDistinct (some transforms) = DistinctKeys transforms

  abbrev pub IsGlob : GlobSource X → Type 0
  IsGlob s =
      HasSourceId s.id
      × GitPaired s.git_ref s.git_root
      × DiskSafe s.storage s.transforms
      × TransformsDistinct s.transforms
      × (s.resolved_sha ≡ none)

  -- The parser makes no `file`.
  abbrev pub IsParsed : ParsedSource X → Type 0
  IsParsed (glob s) = IsGlob s
  IsParsed (endpoint s) = IsEndpoint s
  IsParsed (reference s) = IsReference s
  IsParsed (empty s) = is_source_id s.id ≡ true
  IsParsed (file s) = ⊥

  reject-DiskSafe :
      (tier : Option StorageTier) (transforms : Option (List (ParsedTransform X))) {u : Unit}
      → reject_annotate_source_on_disk_glob tier transforms ≡ ok u
      → DiskSafe tier transforms
  reject-DiskSafe (some disk) (some transforms) {u} h =
      refused_if _ (any_by is_annotation transforms) {u = u} h
  reject-DiskSafe (some disk) none {u} h = tt
  reject-DiskSafe (some memory) transforms {u} h = tt
  reject-DiskSafe none transforms {u} h = tt

  parse_transforms-DistinctKeys :
      (registry : List (TransformDefinition X)) (seen : OrderedMap JsString ℕ) (i : ℕ)
      (raw : Values) {ts : List (ParsedTransform X)}
      → parse_transforms registry seen i raw ≡ ok ts
      → All (λ t. OrderedMap.get t.key seen ≡ none) ts × DistinctKeys ts
  unfolding parse_transforms
  parse_transforms-DistinctKeys registry seen i no_values {ts} h =
      let same : [] ≡ ts = cc in
      subst (λ x. All (λ t. OrderedMap.get t.key seen ≡ none) x × DistinctKeys x) same (tt, tt)
  parse_transforms-DistinctKeys registry seen i (value_then raw rest) {ts} h =
      let (t, e, h1) = >>=-eq-ok (parse_one registry i raw) _ h in
      elim (Option-cases (OrderedMap.get t.key seen)) [
        | inr (prev, there) ↦ ground (arith, h1, there)
        | inl gone ↦
            let seen' = OrderedMap.set t.key i seen in
            let h2 : (parse_transforms registry seen' (suc i) rest >>= λ xs. ok (t ∷ xs)) ≡ ok ts =
              ground (arith, h1, gone) in
            let (xs, e', h3) = >>=-eq-ok (parse_transforms registry seen' (suc i) rest) _ h2 in
            let (others, distinct) =
              parse_transforms-DistinctKeys registry seen' (suc i) rest {ts = xs} e' in
            let same : t ∷ xs ≡ ts = cc in
            subst (λ x. All (λ t. OrderedMap.get t.key seen ≡ none) x × DistinctKeys x) same
              (
                (gone, All-map _ _ (λ x k. (fresh-set seen t.key x.key i k).1) xs others),
                (All-map _ _ (λ x k. (fresh-set seen t.key x.key i k).0) xs others, distinct),
              )
      ]

  parse_transform_list-TransformsDistinct :
      (registry : List (TransformDefinition X)) (raw : Option Value)
      {ts : Option (List (ParsedTransform X))}
      → parse_transform_list registry raw ≡ ok ts
      → TransformsDistinct ts
  parse_transform_list-TransformsDistinct registry none {ts} h =
      let same : none ≡ ts = cc in subst TransformsDistinct same tt
  parse_transform_list-TransformsDistinct registry (some (sequence raw)) {ts} h =
      let (xs, e, h1) = >>=-eq-ok (parse_transforms registry [] 0 raw) _ h in
      let same : some xs ≡ ts = cc in
      subst TransformsDistinct same (parse_transforms-DistinctKeys registry [] 0 raw {ts = xs} e).1
  parse_transform_list-TransformsDistinct registry (some other) {ts} h = cc

ok_injective : {A : Type 0} (a b : A) → ◌≡◌ {A = Result SpecError A} (ok a) (ok b) → a ≡ b
ok_injective a b h = cc

pick_git_fields-GitPaired :
    (ref root : Option Value) {git : Option JsString × Option JsString}
    → pick_git_fields ref root ≡ ok git
    → GitPaired git.0 git.1
pick_git_fields-GitPaired ref root {git} h =
    let (r, _, h1) = >>=-eq-ok (pick_text (codes "gitRef") ref) _ h in
    let (t, _, h2) = >>=-eq-ok (pick_text (codes "gitRoot") root) _ h1 in
    git_fields-GitPaired r t {git = git} h2

pick_endpoint_http-OneAuthorization :
    (auth : Option Value) (headers : Option (OrderedMap JsString JsString)) {a : Option SparqlAuth}
    → pick_endpoint_http auth headers ≡ ok a
    → OneAuthorization a headers
pick_endpoint_http-OneAuthorization auth headers {a} h =
    let (b, e, h1) = >>=-eq-ok (pick_auth auth) _ h in
    let (u, e1, h2) =
      >>=-eq-ok (refuse_if (is_some b && has_authorization headers) authorization_twice) _ h1 in
    let same : b ≡ a = cc in
    subst (λ x. OneAuthorization x headers) same
      (one b (refused_if _ (is_some b && has_authorization headers) {u = u} e1))
  where
    one :
        (b : Option SparqlAuth)
        → (is_some b && has_authorization headers) ≡ false
        → OneAuthorization b headers
    one none k = tt
    one (some auth) k = k

parse_empty-id :
    (input : SourceSpecObjectInput) (id : Option JsString) {s : EmptySource}
    → HasSourceId id
    → parse_empty input id ≡ ok s
    → is_source_id s.id ≡ true
parse_empty-id input none {s} valid h = cc
parse_empty-id input (some id) {s} valid h =
    let (_, _, h1) = >>=-eq-ok (refuse_keys not_on_empty (empty_forbidden input)) _ h in
    let (marked, _, h2) = >>=-eq-ok (pick_true (codes "default") input.default_value) _ h1 in
    subst (λ (x : EmptySource). is_source_id x.id ≡ true) (ok_injective _ s h2) valid

module _ (parse_human_byte_size parse_human_duration : JsString → Option ℕ) where
  parse_endpoint-IsEndpoint :
      (url : JsString) (input : SourceSpecObjectInput) {s : EndpointSource}
      → HasSourceId input.id
      → parse_endpoint parse_human_byte_size parse_human_duration url input ≡ ok s
      → IsEndpoint s
  parse_endpoint-IsEndpoint url input {s} id h =
      let (marked, _, h1) = >>=-eq-ok (pick_true (codes "default") input.default_value) _ h in
      let (_, _, h2) = >>=-eq-ok (refuse_keys legacy_field (legacy_fields input)) _ h1 in
      let (_, _, h3) =
        >>=-eq-ok (refuse_if (is_some input.transforms) (only_on_globs (codes "transforms"))) _
          h2 in
      let (_, _, h4) = >>=-eq-ok (refuse_keys only_on_globs (glob_tier_fields input)) _ h3 in
      let (_, _, h5) = >>=-eq-ok (refuse_keys only_on_globs (git_keys input)) _ h4 in
      let (a, e, h6) = >>=-eq-ok (pick_endpoint_http input.auth input.headers) _ h5 in
      let (c, _, h7) =
        >>=-eq-ok (pick_query_cache parse_human_byte_size parse_human_duration input.query_cache) _
          h6 in
      subst IsEndpoint (ok_injective _ s h7)
        (id, pick_endpoint_http-OneAuthorization input.auth input.headers {a = a} e)

  module _ {X : Type 0} (registry : List (TransformDefinition X)) where
    parse_glob-IsGlob :
        (pattern : JsString) (input : SourceSpecObjectInput) {s : GlobSource X}
        → HasSourceId input.id
        → parse_glob parse_human_byte_size parse_human_duration registry pattern input ≡ ok s
        → IsGlob s
    parse_glob-IsGlob pattern input {s} id h =
        let (marked, _, h1) = >>=-eq-ok (pick_true (codes "default") input.default_value) _ h in
        let (_, _, h2) =
          >>=-eq-ok (refuse_keys only_on_endpoints (endpoint_only_fields input)) _ h1 in
        let (_, _, h3) = >>=-eq-ok (refuse_keys legacy_field (legacy_fields input)) _ h2 in
        let (ts, e_ts, h4) = >>=-eq-ok (parse_transform_list registry input.transforms) _ h3 in
        let (split, _, h5) = >>=-eq-ok (pick_true (codes "splitByFile") input.split_by_file) _ h4 in
        let (u, _, h6) = >>=-eq-ok (pick_union_default_graph input.union_default_graph) _ h5 in
        let (tier, _, h7) = >>=-eq-ok (pick_storage input.storage) _ h6 in
        let (v, e_disk, h8) = >>=-eq-ok (reject_annotate_source_on_disk_glob tier ts) _ h7 in
        let (git, e_git, h9) = >>=-eq-ok (pick_git_fields input.git_ref input.git_root) _ h8 in
        let (c, _, h10) =
          >>=-eq-ok (pick_query_cache parse_human_byte_size parse_human_duration input.query_cache)
            _ h9 in
        subst IsGlob (ok_injective _ s h10) (
          id,
          pick_git_fields-GitPaired input.git_ref input.git_root {git = git} e_git,
          reject-DiskSafe tier ts {u = v} e_disk,
          parse_transform_list-TransformsDistinct registry input.transforms {ts = ts} e_ts,
          refl,
        )

    kind-IsParsed :
        (input : SourceSpecObjectInput) (pattern url : Option JsString) (is_empty : Bool)
        {s : ParsedSource X}
        → parse_kind parse_human_byte_size parse_human_duration registry input pattern url is_empty
          ≡ ok s
        → IsParsed s
    kind-IsParsed input (some pattern) none false {s} h =
        let (u, e_id, h1) = >>=-eq-ok (validate_source_id input.id) _ h in
        let id = HasSourceId-validate input.id {u = u} e_id in
        let (g, e, h2) =
          >>=-eq-ok (parse_glob parse_human_byte_size parse_human_duration registry pattern input) _
            h1 in
        subst IsParsed (ok_injective _ s h2) (parse_glob-IsGlob pattern input {s = g} id e)
    kind-IsParsed input none (some url) false {s} h =
        let (u, e_id, h1) = >>=-eq-ok (validate_source_id input.id) _ h in
        let id = HasSourceId-validate input.id {u = u} e_id in
        let (g, e, h2) =
          >>=-eq-ok (parse_endpoint parse_human_byte_size parse_human_duration url input) _ h1 in
        subst IsParsed (ok_injective _ s h2) (parse_endpoint-IsEndpoint url input {s = g} id e)
    kind-IsParsed input none none true {s} h =
        let (u, e_id, h1) = >>=-eq-ok (validate_source_id input.id) _ h in
        let id = HasSourceId-validate input.id {u = u} e_id in
        let (_, _, h2) = >>=-eq-ok (refuse_keys only_on_globs (glob_tier_fields input)) _ h1 in
        let (g, e, h3) = >>=-eq-ok (parse_empty input input.id) _ h2 in
        subst IsParsed (ok_injective _ s h3) (parse_empty-id input input.id {s = g} id e)
    kind-IsParsed input (some pattern) (some url) is_empty {s} h = cc
    kind-IsParsed input (some pattern) none true {s} h = cc
    kind-IsParsed input none (some url) true {s} h = cc
    kind-IsParsed input none none false {s} h = cc

    -- What a single input is parsed to: its id, if it has one, has the form of an id; a root of a
    -- repository comes with a ref; no transform stands twice, and none annotates quads on a glob that
    -- is kept on disk; auth and an `Authorization` header exclude each other.
    pub parse_input-IsParsed :
        (input : SourceSpecInput) (s : ParsedSource X)
        → parse_input parse_human_byte_size parse_human_duration registry input ≡ ok s
        → IsParsed s
    parse_input-IsParsed (bare_text t) s h = elim (parse_source_spec-cases {X = X} t) [
      | inl e ↦ subst IsParsed (ok_injective (endpoint (bare_endpoint t)) s (rw e at h)) (tt, tt)
      | inr (inl e) ↦
          subst IsParsed (ok_injective (glob (bare_glob t)) s (rw e at h)) (tt, tt, tt, tt, refl)
      | inr (inr (r, e)) ↦
          subst IsParsed
            (ok_injective (reference (record { id = none; is_default = false; ref = r })) s
              (rw e at h))
            (refl, refl)
    ]
    parse_input-IsParsed (object_input input) s h =
        kind-IsParsed input input.glob input.endpoint input.is_empty {s = s} h
