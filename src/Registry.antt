-- ===== src/Registry.antt =====
-- libs/core/src/lib/sources/source-spec.ts and transform-spec.ts: the sources of a configuration.
-- `X` is what the parse of a transform answers; the registry of transforms is an argument, as in
-- the source. An error keeps the field or the index that its message names.
pub mod Fields
mod Parsed
mod Unique
mod Targets
mod Tests
use sparqly.Base.{
  ℕ, suc, ◌+◌, Bool, true, false, ◌||◌, ◌&&◌, not, Option, none, some, List, [], ◌∷◌, JsString,
  codes, if◌then◌else◌, is_some, leb, ltb, Result, ok, err, ◌>>=◌, ◌==◌, text_eq, nat_beq, find_by,
  map_result,
}
use sparqly.OrderedMap
use sparqly.OrderedMap.{OrderedMap}
use sparqly.Sources.{
  ParsedSource, GlobSource, EndpointSource, EmptySource, glob, endpoint, empty, ParsedTransform,
  id_of, marked_default, is_reference,
}
use sparqly.Target.{parse_source_spec}
use sparqly.Json.{Value, sequence, object, Values, no_values, value_then, no_members, member_then}
use sparqly.Registry.Fields.{
  SpecError, Check, not_one_kind, id_required, transforms_not_list, bad_id, only_on_globs,
  only_on_endpoints, legacy_field, not_on_empty, not_an_object, not_one_key, transform_refused,
  unknown_transform, duplicate_transform, duplicate_id, default_on_reference, several_defaults,
  SourceSpecObjectInput, refuse_if, refuse_keys, pick_true, pick_union_default_graph, pick_storage,
  reject_annotate_source_on_disk_glob, pick_git_fields, pick_endpoint_http, pick_query_cache,
}

-- `SOURCE_ID_REGEX`
abbrev pub is_word : ℕ → Bool
is_word c =
    (leb b'a' c && leb c b'z')
    || (leb b'A' c && leb c b'Z')
    || (leb b'0' c && leb c b'9')
    || nat_beq c b'_'
    || nat_beq c b'-'

abbrev pub are_id_chars : JsString → Bool
are_id_chars [] = true
are_id_chars (c ∷ s) = (is_word c || nat_beq c b'.') && are_id_chars s

-- An id that starts with `@` fails the expression too.
abbrev pub is_source_id : JsString → Bool
is_source_id [] = false
is_source_id (c ∷ s) = is_word c && are_id_chars s

abbrev pub validate_source_id : Option JsString → Check
validate_source_id none = ok tt
validate_source_id (some id) = refuse_if (not (is_source_id id)) (bad_id id)

pub record TransformDefinition (X : Type 0) : Type 0 where
  pub key : JsString
  pub parse : Value → Option X

module _ {X : Type 0} where
  abbrev pub parsed_transform : ℕ → JsString → Option X → Result SpecError (ParsedTransform X)
  parsed_transform index key none = err (transform_refused index)
  parsed_transform index key (some x) = ok (record { key = key; payload = x })

  abbrev pub apply_definition :
      ℕ → JsString → Value → Option (TransformDefinition X) → Result SpecError (ParsedTransform X)
  apply_definition index key value none = err (unknown_transform index key)
  apply_definition index key value (some d) = parsed_transform index key (d.parse value)

  abbrev pub parse_one :
      List (TransformDefinition X) → ℕ → Value → Result SpecError (ParsedTransform X)
  parse_one registry index (object (member_then key value no_members)) =
      apply_definition index key value (find_by (λ d. d.key == key) registry)
  parse_one registry index (object other) = err (not_one_key index)
  parse_one registry index other = err (not_an_object index)

  -- The loop of `parseTransformList` from an index on; `seen` maps a key to its index.
  pub parse_transforms :
      List (TransformDefinition X)
      → OrderedMap JsString ℕ
      → ℕ
      → Values
      → Result SpecError (List (ParsedTransform X))
  parse_transforms registry seen i no_values = ok []
  parse_transforms registry seen i (value_then raw rest) = parse_one registry i raw >>= λ t.
      elim (OrderedMap.get t.key seen) [
        | some prev ↦ err (duplicate_transform t.key prev i)
        | none ↦ parse_transforms registry (OrderedMap.set t.key i seen) (suc i) rest >>= λ ts.
            ok (t ∷ ts)
      ]

  abbrev pub parse_transform_list :
      List (TransformDefinition X)
      → Option Value
      → Result SpecError (Option (List (ParsedTransform X)))
  parse_transform_list registry none = ok none
  parse_transform_list registry (some (sequence raw)) =
      parse_transforms registry [] 0 raw >>= λ ts. ok (some ts)
  parse_transform_list registry (some other) = err transforms_not_list

pub data SourceSpecInput : Type 0 where
  bare_text : JsString → SourceSpecInput
  object_input : SourceSpecObjectInput → SourceSpecInput

-- The keys that a kind of source refuses, with whether they are there.
abbrev pub legacy_fields : SourceSpecObjectInput → List (JsString × Bool)
legacy_fields input =
    (codes "graphMode", is_some input.graph_mode) ∷ (codes "graph", is_some input.graph) ∷ []

abbrev pub endpoint_only_fields : SourceSpecObjectInput → List (JsString × Bool)
endpoint_only_fields input =
    (codes "auth", is_some input.auth)
    ∷ (codes "headers", is_some input.headers)
    ∷ (codes "timeoutMs", is_some input.timeout_ms)
    ∷ []

abbrev pub glob_tier_fields : SourceSpecObjectInput → List (JsString × Bool)
glob_tier_fields input =
    (codes "splitByFile", is_some input.split_by_file)
    ∷ (codes "unionDefaultGraph", is_some input.union_default_graph)
    ∷ (codes "storage", is_some input.storage)
    ∷ []

abbrev pub git_keys : SourceSpecObjectInput → List (JsString × Bool)
git_keys input =
    (codes "gitRef", is_some input.git_ref) ∷ (codes "gitRoot", is_some input.git_root) ∷ []

abbrev pub empty_forbidden : SourceSpecObjectInput → List (JsString × Bool)
empty_forbidden input =
    (codes "graphMode", is_some input.graph_mode)
    ∷ (codes "graph", is_some input.graph)
    ∷ (codes "auth", is_some input.auth)
    ∷ (codes "headers", is_some input.headers)
    ∷ (codes "timeoutMs", is_some input.timeout_ms)
    ∷ (codes "transforms", is_some input.transforms)
    ∷ git_keys input

abbrev pub parse_empty : SourceSpecObjectInput → Option JsString → Result SpecError EmptySource
parse_empty input none = err id_required
parse_empty input (some id) = refuse_keys not_on_empty (empty_forbidden input) >>= λ _.
    pick_true (codes "default") input.default_value >>= λ marked.
    ok (record { id = id; is_default = marked })

module _ (parse_human_byte_size parse_human_duration : JsString → Option ℕ) where
  abbrev pub parse_endpoint : JsString → SourceSpecObjectInput → Result SpecError EndpointSource
  parse_endpoint url input = pick_true (codes "default") input.default_value >>= λ marked.
      refuse_keys legacy_field (legacy_fields input) >>= λ _.
      refuse_if (is_some input.transforms) (only_on_globs (codes "transforms")) >>= λ _.
      refuse_keys only_on_globs (glob_tier_fields input) >>= λ _.
      refuse_keys only_on_globs (git_keys input) >>= λ _.
      pick_endpoint_http input.auth input.headers >>= λ auth.
      pick_query_cache parse_human_byte_size parse_human_duration input.query_cache >>= λ cache.
      ok (record {
        id = input.id;
        is_default = marked;
        endpoint = url;
        auth = auth;
        headers = input.headers;
        timeout_ms = input.timeout_ms;
        query_cache = cache;
      })

  module _ {X : Type 0} (registry : List (TransformDefinition X)) where
    abbrev pub parse_glob : JsString → SourceSpecObjectInput → Result SpecError (GlobSource X)
    parse_glob pattern input = pick_true (codes "default") input.default_value >>= λ marked.
        refuse_keys only_on_endpoints (endpoint_only_fields input) >>= λ _.
        refuse_keys legacy_field (legacy_fields input) >>= λ _.
        parse_transform_list registry input.transforms >>= λ transforms.
        pick_true (codes "splitByFile") input.split_by_file >>= λ split.
        pick_union_default_graph input.union_default_graph >>= λ union_graph.
        pick_storage input.storage >>= λ tier.
        reject_annotate_source_on_disk_glob tier transforms >>= λ _.
        pick_git_fields input.git_ref input.git_root >>= λ git.
        pick_query_cache parse_human_byte_size parse_human_duration input.query_cache >>= λ cache.
        ok (record {
          id = input.id;
          is_default = marked;
          glob = pattern;
          transforms = transforms;
          split_by_file = split;
          union_default_graph = union_graph;
          storage = tier;
          git_ref = git.0;
          git_root = git.1;
          resolved_sha = none;
          query_cache = cache;
        })

    -- Exactly one of the three keys is there.
    abbrev pub parse_kind :
        SourceSpecObjectInput
        → Option JsString
        → Option JsString
        → Bool
        → Result SpecError (ParsedSource X)
    parse_kind input (some pattern) none false =
        validate_source_id input.id >>= λ _. parse_glob pattern input >>= λ s. ok (glob s)
    parse_kind input none (some url) false =
        validate_source_id input.id >>= λ _. parse_endpoint url input >>= λ s. ok (endpoint s)
    parse_kind input none none true = validate_source_id input.id >>= λ _.
        refuse_keys only_on_globs (glob_tier_fields input) >>= λ _.
        parse_empty input input.id >>= λ s. ok (empty s)
    parse_kind input (some pattern) (some url) marked = err not_one_kind
    parse_kind input (some pattern) none true = err not_one_kind
    parse_kind input none (some url) true = err not_one_kind
    parse_kind input none none false = err not_one_kind

    abbrev pub parse_input : SourceSpecInput → Result SpecError (ParsedSource X)
    parse_input (bare_text s) = ok (parse_source_spec s)
    parse_input (object_input input) = parse_kind input input.glob input.endpoint input.is_empty

abbrev pub at_most_one : List ℕ → Check
at_most_one [] = ok tt
at_most_one (i ∷ []) = ok tt
at_most_one (i ∷ j ∷ is) = err (several_defaults (i ∷ j ∷ is))

module _ {X : Type 0} where
  -- The loop that refuses an id that an earlier source has.
  pub check_ids : OrderedMap JsString ℕ → ℕ → List (ParsedSource X) → Check
  check_ids seen i [] = ok tt
  check_ids seen i (s ∷ rest) = elim (id_of s) [
    | none ↦ check_ids seen (suc i) rest
    | some id ↦ elim (OrderedMap.get id seen) [
      | none ↦ check_ids (OrderedMap.set id i seen) (suc i) rest
      | some prev ↦ err (duplicate_id id prev i)
    ]
  ]

  -- The loop that collects the indices of the sources that carry the default marker.
  pub default_indices : ℕ → List (ParsedSource X) → Result SpecError (List ℕ)
  default_indices i [] = ok []
  default_indices i (s ∷ rest) =
      let others = default_indices (suc i) rest in
      if marked_default s
      then (if is_reference s then err (default_on_reference i) else (others >>= λ is. ok (i ∷ is)))
      else others

  module _ (parse_human_byte_size parse_human_duration : JsString → Option ℕ)
      (registry : List (TransformDefinition X)) where
    pub parse_source_specs : List SourceSpecInput → Result SpecError (List (ParsedSource X))
    parse_source_specs inputs =
        map_result (parse_input parse_human_byte_size parse_human_duration registry) inputs
        >>= λ parsed. check_ids [] 0 parsed >>= λ _.
            default_indices 0 parsed >>= λ is. at_most_one is >>= λ _. ok parsed
