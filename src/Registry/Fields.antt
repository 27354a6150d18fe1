-- ===== src/Registry/Fields.antt =====
-- The fields of a source object of libs/core/src/lib/sources: source-spec.ts (the pickers),
-- source-spec-endpoint.ts, source-spec-git.ts, source-spec-query-cache.ts, glob-storage.ts and
-- union-default-graph.ts. A field that the code checks at run time is a `Value`; the parsers of
-- human sizes and spans of libs/common are arguments.
use sparqly.Base.{
  ℕ, ◌+◌, Bool, true, false, ◌||◌, ◌&&◌, Option, none, some, List, [], ◌∷◌, JsString, codes,
  if◌then◌else◌, is_some, leb, ltb, map, Result, ok, err, ◌>>=◌, ◌==◌, text_eq, any_by,
}
use sparqly.OrderedMap.{OrderedMap, keys}
use sparqly.Json.{
  Value, null_value, truth, number, text, object, natural, Members, member, no_members, member_then,
}
use sparqly.Sources.{
  StorageTier, memory, disk, SparqlAuth, bearer, basic, ByteCap, absent, unbounded, capped,
  ParsedQueryCache, bare, knobs, ParsedTransform,
}

pub data SpecError : Type 0 where
  not_one_kind id_required not_boolean bad_storage git_root_alone annotate_on_disk bad_auth :
      SpecError
  authorization_twice bad_query_cache bad_max_bytes bad_ttl transforms_not_list : SpecError
  bad_id only_on_globs only_on_endpoints legacy_field not_on_empty must_be_true empty_text
        unknown_knob :
      JsString → SpecError
  not_an_object not_one_key transform_refused : ℕ → SpecError
  unknown_transform : ℕ → JsString → SpecError
  duplicate_transform duplicate_id : JsString → ℕ → ℕ → SpecError
  default_on_reference : ℕ → SpecError
  several_defaults : List ℕ → SpecError

pub record SourceSpecObjectInput : Type 0 where
  pub id : Option JsString
  pub glob : Option JsString
  pub endpoint : Option JsString
  pub is_empty : Bool
  pub default_value : Option Value
  pub transforms : Option Value
  pub split_by_file : Option Value
  pub union_default_graph : Option Value
  pub storage : Option Value
  pub git_ref : Option Value
  pub git_root : Option Value
  pub query_cache : Option Value
  pub auth : Option Value
  pub headers : Option (OrderedMap JsString JsString)
  pub timeout_ms : Option ℕ
  pub graph_mode : Option Value
  pub graph : Option Value

-- What a check that throws answers.
abbrev pub Check : Type 0
Check = Result {0, 0} SpecError Unit

abbrev pub refuse_if : Bool → SpecError → Check
refuse_if failed e = if failed then err e else ok tt

-- The loops over lists of keys: the first one that is there is refused.
abbrev pub refuse_keys : (JsString → SpecError) → List (JsString × Bool) → Check
refuse_keys e [] = ok tt
refuse_keys e ((key, there) ∷ rest) = if there then err (e key) else refuse_keys e rest

-- `pickDefault` and `pickSplitByFile`
abbrev pub pick_true : JsString → Option Value → Result SpecError Bool
pick_true key none = ok false
pick_true key (some (truth true)) = ok true
pick_true key (some other) = err (must_be_true key)

abbrev pub pick_union_default_graph : Option Value → Result SpecError (Option Bool)
pick_union_default_graph none = ok none
pick_union_default_graph (some (truth b)) = ok (some b)
pick_union_default_graph (some other) = err not_boolean

abbrev pub storage_of : JsString → Result SpecError (Option StorageTier)
storage_of s =
    if s == codes "memory"
    then ok (some memory)
    else if s == codes "disk"
    then ok (some disk)
    else err bad_storage

abbrev pub pick_storage : Option Value → Result SpecError (Option StorageTier)
pick_storage none = ok none
pick_storage (some (text s)) = storage_of s
pick_storage (some other) = err bad_storage

module _ {X : Type 0} where
  abbrev pub is_annotation : ParsedTransform X → Bool
  is_annotation t = t.key == codes "annotateSource"

  abbrev pub reject_annotate_source_on_disk_glob :
      Option StorageTier → Option (List (ParsedTransform X)) → Check
  reject_annotate_source_on_disk_glob (some disk) (some transforms) =
      refuse_if (any_by is_annotation transforms) annotate_on_disk
  reject_annotate_source_on_disk_glob (some disk) none = ok tt
  reject_annotate_source_on_disk_glob (some memory) transforms = ok tt
  reject_annotate_source_on_disk_glob none transforms = ok tt

-- A field that must be a text which is not empty.
abbrev pub pick_text : JsString → Option Value → Result SpecError (Option JsString)
pick_text key none = ok none
pick_text key (some (text (c ∷ s))) = ok (some (c ∷ s))
pick_text key (some other) = err (empty_text key)

abbrev pub git_fields :
    Option JsString → Option JsString → Result SpecError (Option JsString × Option JsString)
git_fields none (some root) = err git_root_alone
git_fields none none = ok (none, none)
git_fields (some ref) root = ok (some ref, root)

abbrev pub pick_git_fields :
    Option Value → Option Value → Result SpecError (Option JsString × Option JsString)
pick_git_fields ref root =
    pick_text (codes "gitRef") ref >>= λ r. pick_text (codes "gitRoot") root >>= λ t. git_fields r t

abbrev pub required_text : Option Value → Result SpecError JsString
required_text (some (text (c ∷ s))) = ok (c ∷ s)
required_text other = err bad_auth

abbrev pub is_type : JsString → Option Value → Bool
is_type name (some (text s)) = s == name
is_type name other = false

abbrev pub validate_auth : Value → Result SpecError SparqlAuth
validate_auth (object fields) =
    let token = required_text (member (codes "token") fields) in
    let username = required_text (member (codes "username") fields) in
    let password = required_text (member (codes "password") fields) in
    let kind = member (codes "type") fields in
    if is_type (codes "bearer") kind
    then (token >>= λ t. ok (bearer t))
    else if is_type (codes "basic") kind
    then (username >>= λ u. password >>= λ p. ok (basic u p))
    else err bad_auth
validate_auth other = err bad_auth

abbrev pub pick_auth : Option Value → Result SpecError (Option SparqlAuth)
pick_auth none = ok none
pick_auth (some v) = validate_auth v >>= λ a. ok (some a)

-- `toLowerCase()`, as far as it tells `authorization`.
abbrev pub lower : ℕ → ℕ
lower c = if leb b'A' c && leb c b'Z' then c + 32 else c

abbrev pub is_authorization : JsString → Bool
is_authorization key = map lower key == codes "authorization"

abbrev pub has_authorization : Option (OrderedMap JsString JsString) → Bool
has_authorization none = false
has_authorization (some headers) = any_by is_authorization (keys headers)

-- `pickEndpointHttp`; what it answers besides are the headers and the timeout, as they came.
abbrev pub pick_endpoint_http :
    Option Value → Option (OrderedMap JsString JsString) → Result SpecError (Option SparqlAuth)
pick_endpoint_http auth headers = pick_auth auth >>= λ a.
    refuse_if (is_some a && has_authorization headers) authorization_twice >>= λ _. ok a

module _ (parse_human_byte_size parse_human_duration : JsString → Option ℕ) where
  abbrev pub positive : SpecError → ℕ → Result SpecError ℕ
  positive e n = if ltb 0 n then ok n else err e

  abbrev pub parsed : SpecError → Option ℕ → Result SpecError ℕ
  parsed e none = err e
  parsed e (some n) = ok n

  abbrev pub resolve_max_bytes : Value → Result SpecError ByteCap
  resolve_max_bytes null_value = ok unbounded
  resolve_max_bytes (number (natural n)) = positive bad_max_bytes n >>= λ b. ok (capped b)
  resolve_max_bytes (text s) = parsed bad_max_bytes (parse_human_byte_size s) >>= λ b. ok (capped b)
  resolve_max_bytes other = err bad_max_bytes

  abbrev pub resolve_ttl_ms : Value → Result SpecError ℕ
  resolve_ttl_ms (number (natural n)) = positive bad_ttl n
  resolve_ttl_ms (text s) = parsed bad_ttl (parse_human_duration s)
  resolve_ttl_ms other = err bad_ttl

  abbrev pub known_knobs : Members → Check
  known_knobs no_members = ok tt
  known_knobs (member_then k v rest) =
      if (k == codes "maxBytes") || (k == codes "ttl")
      then known_knobs rest
      else err (unknown_knob k)

  abbrev pub max_bytes_of : Option Value → Result SpecError ByteCap
  max_bytes_of none = ok absent
  max_bytes_of (some v) = resolve_max_bytes v

  abbrev pub ttl_of : Option Value → Result SpecError (Option ℕ)
  ttl_of none = ok none
  ttl_of (some v) = resolve_ttl_ms v >>= λ ms. ok (some ms)

  -- An object with neither knob is a bare opt-in.
  abbrev pub cache_of : ByteCap → Option ℕ → ParsedQueryCache
  cache_of absent none = bare
  cache_of absent (some ttl) = knobs absent (some ttl)
  cache_of unbounded ttl = knobs unbounded ttl
  cache_of (capped b) ttl = knobs (capped b) ttl

  abbrev pub pick_query_cache : Option Value → Result SpecError (Option ParsedQueryCache)
  pick_query_cache none = ok none
  pick_query_cache (some (truth b)) = ok (if b then some bare else none)
  pick_query_cache (some (object fields)) = known_knobs fields >>= λ _.
      max_bytes_of (member (codes "maxBytes") fields) >>= λ cap.
      ttl_of (member (codes "ttl") fields) >>= λ ttl. ok (some (cache_of cap ttl))
  pick_query_cache (some other) = err bad_query_cache
