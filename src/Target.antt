-- ===== src/Target.antt =====
-- libs/core/src/lib/target: which source a command works on (select-target-result.ts), and which
-- ones `serve` offers (resolve-serve-scope-result.ts), with the reading of a target given as a
-- text (`parseSourceSpec` of sources/source-spec.ts at a string).
pub mod Selection
mod Scope
mod Tests
use sparqly.Base.{
  ℕ, Bool, true, false, ◌||◌, ◌&&◌, not, Option, none, some, List, [], ◌∷◌, JsString, codes,
  nat_beq, if◌then◌else◌, Result, ok, err, ◌>>=◌, find_by, filter_by, ◌==◌, text_eq,
}
use sparqly.Sources.{
  ParsedSource, GlobSource, EndpointSource, ReferenceSource, glob, endpoint, reference, empty, file,
  id_of, marked_default, is_reference, with_default_id,
}
use sparqly.Sources.Address.{ParsedSourceAddress, Reason, parse_source_address}

pub data TargetError : Type 0 where
  unknown_ref : JsString → List JsString → TargetError
  no_default_multi : List JsString → TargetError
  ref_as_target empty_registry : TargetError

abbrev pub starts_with : JsString → JsString → Bool
starts_with [] s = true
starts_with (c ∷ p) [] = false
starts_with (c ∷ p) (d ∷ s) = if nat_beq c d then starts_with p s else false

-- What `.` matches in a regular expression.
abbrev is_line_char : ℕ → Bool
is_line_char c =
    if nat_beq c 10 || nat_beq c 13 || nat_beq c 0x2028 || nat_beq c 0x2029 then false else true

abbrev is_line : JsString → Bool
is_line [] = true
is_line (c ∷ s) = is_line_char c && is_line s

-- `REFERENCE_PREFIX.exec(input)`
reference_of : JsString → Option JsString
reference_of [] = none
reference_of (c ∷ []) = none
reference_of (c ∷ d ∷ s) = if nat_beq c b'@' && is_line (d ∷ s) then some (d ∷ s) else none

abbrev pub bare_glob : {X : Type 0} → JsString → GlobSource X
bare_glob pattern = record {
  id = none;
  is_default = false;
  glob = pattern;
  transforms = none;
  split_by_file = false;
  union_default_graph = none;
  storage = none;
  git_ref = none;
  git_root = none;
  resolved_sha = none;
  query_cache = none;
}

abbrev pub bare_endpoint : JsString → EndpointSource
bare_endpoint url = record {
  id = none;
  is_default = false;
  endpoint = url;
  auth = none;
  headers = none;
  timeout_ms = none;
  query_cache = none;
}

glob_or_reference : {X : Type 0} → JsString → Option JsString → ParsedSource X
glob_or_reference input none = glob (bare_glob input)
glob_or_reference input (some ref) = reference (record { id = none; is_default = false; ref = ref })

unfoldable pub parse_source_spec : {X : Type 0} → JsString → ParsedSource X
unfolding reference_of glob_or_reference
parse_source_spec input =
    if starts_with (codes "http://") input || starts_with (codes "https://") input
    then endpoint (bare_endpoint input)
    else glob_or_reference input (reference_of input)

-- `@id` and `@id:ref`; what is no address is read as an id.
pub id_and_ref : JsString → Result Reason ParsedSourceAddress → JsString × Option JsString
id_and_ref target (ok a) = (a.id, a.ref)
id_and_ref [] (err e) = ([], none)
id_and_ref (c ∷ rest) (err e) = (rest, none)

abbrev pub is_id : Option JsString → JsString → Bool
is_id none id = false
is_id (some i) id = i == id

module _ {X : Type 0} where
  abbrev pub collect_ids : List (ParsedSource X) → List JsString
  collect_ids [] = []
  collect_ids (s ∷ rest) = elim (id_of s) [
    | none ↦ collect_ids rest
    | some id ↦ id ∷ collect_ids rest
  ]

  unfoldable pub apply_address_pin : ParsedSource X → JsString → ParsedSource X
  apply_address_pin (glob s) ref = glob (record s { git_ref = some ref })
  apply_address_pin other ref = other

  abbrev pub pinned : Option JsString → ParsedSource X → ParsedSource X
  pinned none s = s
  pinned (some ref) s = apply_address_pin s ref

  found :
      List (ParsedSource X)
      → JsString
      → Option JsString
      → Option (ParsedSource X)
      → Result TargetError (ParsedSource X)
  found registry target ref none = err (unknown_ref target (collect_ids registry))
  found registry target ref (some entry) = ok (pinned ref entry)

  -- `resolveRef` of both files.
  pub resolve_ref : List (ParsedSource X) → JsString → Result TargetError (ParsedSource X)
  unfolding id_and_ref found
  resolve_ref registry target =
      let a = id_and_ref target (parse_source_address target) in
      found registry target a.1 (find_by (λ s. is_id (id_of s) a.0) registry)

  alone_or : List (ParsedSource X) → Result TargetError (ParsedSource X)
  alone_or (s ∷ []) = ok s
  alone_or [] = err empty_registry
  alone_or (s ∷ t ∷ rest) = err (no_default_multi (collect_ids (s ∷ t ∷ rest)))

  marked_or_alone :
      List (ParsedSource X) → Option (ParsedSource X) → Result TargetError (ParsedSource X)
  marked_or_alone registry (some s) = ok s
  marked_or_alone registry none = alone_or registry

  pub pick : List (ParsedSource X) → Option JsString → Result TargetError (ParsedSource X)
  unfolding alone_or marked_or_alone
  pick registry (some target) =
      if starts_with (codes "@") target
      then resolve_ref registry target
      else ok (parse_source_spec target)
  pick registry none = marked_or_alone registry (find_by marked_default registry)

  pub select_target : List (ParsedSource X) → Option JsString → Result TargetError (ParsedSource X)
  select_target registry target =
      pick registry target >>= λ s. if is_reference s then err ref_as_target else ok s

pub record ServeScope (X : Type 0) : Type 0 where
  pub served_registry : List (ParsedSource X)
  pub default_id : Option JsString

module _ {X : Type 0} where
  id_if_alone : List (ParsedSource X) → Option JsString
  id_if_alone (s ∷ []) = id_of s
  id_if_alone [] = none
  id_if_alone (s ∷ t ∷ rest) = none

  pub recompute_default : List (ParsedSource X) → Option JsString
  unfolding id_if_alone
  recompute_default served = elim (find_by marked_default served) [
    | some s ↦ id_of s
    | none ↦ id_if_alone served
  ]

  named_if_alone : ParsedSource X → Option JsString → List (ParsedSource X)
  named_if_alone s none = with_default_id s ∷ []
  named_if_alone s (some id) = s ∷ []

  pub normalize_lone_id_less : List (ParsedSource X) → List (ParsedSource X)
  unfolding named_if_alone
  normalize_lone_id_less (s ∷ []) = named_if_alone s (id_of s)
  normalize_lone_id_less [] = []
  normalize_lone_id_less (s ∷ t ∷ rest) = s ∷ t ∷ rest

  abbrev pub candidates : List (ParsedSource X) → List (ParsedSource X)
  candidates = filter_by (λ s. if is_reference s then false else true)

  pub resolve_serve_scope :
      List (ParsedSource X) → Option JsString → Result TargetError (ServeScope X)
  resolve_serve_scope registry (some source) =
      if starts_with (codes "@") source
      then (resolve_ref (candidates registry) source >>= λ entry.
          ok (record { served_registry = entry ∷ []; default_id = recompute_default (entry ∷ []) }))
      else ok (record {
        served_registry = with_default_id (parse_source_spec source) ∷ [];
        default_id = some (codes "default");
      })
  resolve_serve_scope registry none =
      let served = normalize_lone_id_less (candidates registry) in
      ok (record { served_registry = served; default_id = recompute_default served })
