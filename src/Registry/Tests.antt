-- ===== src/Registry/Tests.antt =====
-- Runs of the parser of sources.
use sparqly.Base.{
  ℕ, ◌≡◌, ◌↔◌, refl, true, false, Option, none, some, List, [], ◌∷◌, JsString, codes, ok, err, inl,
  inr, map_result, arith,
}
use sparqly.OrderedMap
use sparqly.Sources.{
  ParsedSource, GlobSource, EndpointSource, glob, endpoint, disk, bearer, knobs, capped,
}
use sparqly.Sources.Address.{ParsedSourceAddress, print_address}
use sparqly.Target.{select_target, pinned, apply_address_pin}
use sparqly.Json.{
  Value, truth, number, text, sequence, object, no_values, value_then, no_members, member_then,
  natural,
}
use sparqly.Registry.Fields.{
  SourceSpecObjectInput, annotate_on_disk, duplicate_id, git_root_alone, authorization_twice,
}
use sparqly.Registry.{
  TransformDefinition, SourceSpecInput, bare_text, object_input, parse_input, parse_transforms,
  parse_source_specs, check_ids, default_indices,
}
use sparqly.Registry.Parsed.{IsParsed, parse_input-IsParsed}
use sparqly.Registry.Unique.{UniqueIds, AtMostOneDefault, parse_source_specs_iff}
use sparqly.Registry.Targets.{select_target_declared, select_target_marked}

-- Parsers of sizes and spans that read one unit each.
abbrev bytes_of : JsString → Option ℕ
bytes_of [] = none
bytes_of (c ∷ s) = some 1024

abbrev span_of : JsString → Option ℕ
span_of [] = none
span_of (c ∷ s) = some 1000

-- A transform that takes any value.
abbrev definitions : List (TransformDefinition ℕ)
definitions =
    record { key = codes "annotateSource"; parse = λ v. some 1 }
    ∷ record { key = codes "graphName"; parse = λ v. some 2 }
    ∷ []

abbrev nothing : SourceSpecObjectInput
nothing = record {
  id = none;
  glob = none;
  endpoint = none;
  is_empty = false;
  default_value = none;
  transforms = none;
  split_by_file = none;
  union_default_graph = none;
  storage = none;
  git_ref = none;
  git_root = none;
  query_cache = none;
  auth = none;
  headers = none;
  timeout_ms = none;
  graph_mode = none;
  graph = none;
}

abbrev one_transform : JsString → Option Value
one_transform key =
    some (sequence (value_then (object (member_then key (truth true) no_members)) no_values))

abbrev docs : SourceSpecObjectInput
docs = record nothing {
  id = some (codes "docs");
  glob = some (codes "docs/*.ttl");
  storage = some (text (codes "disk"));
  transforms = one_transform (codes "graphName");
  query_cache = some (object (member_then (codes "maxBytes") (number (natural 99)) no_members));
}

abbrev remote : SourceSpecObjectInput
remote = record nothing {
  id = some (codes "remote");
  endpoint = some (codes "https://x.org");
  default_value = some (truth true);
  auth = some (
      object (
        member_then (codes "type") (text (codes "bearer"))
          (member_then (codes "token") (text (codes "t")) no_members)));
}

annotated_run :
    parse_input bytes_of span_of definitions
      (object_input (record docs { transforms = one_transform (codes "annotateSource") }))
    ≡ err annotate_on_disk
unfolding parse_transforms OrderedMap.get
annotated_run = refl

root_run :
    parse_input bytes_of span_of definitions
      (object_input (record docs { git_root = some (text (codes "..")) }))
    ≡ err git_root_alone
unfolding parse_transforms OrderedMap.get
root_run = refl

authorization_run :
    parse_input bytes_of span_of definitions
      (object_input (record remote { headers = some ((codes "AUTHORIZATION", codes "x") ∷ []) }))
    ≡ err authorization_twice
authorization_run = refl

twice_run :
    parse_source_specs bytes_of span_of definitions
      (object_input docs ∷ bare_text (codes "@docs") ∷ object_input docs ∷ [])
    ≡ err (duplicate_id (codes "docs") 0 2)
unfolding parse_source_specs parse_transforms check_ids default_indices OrderedMap.get
    OrderedMap.set sparqly.Target.parse_source_spec
twice_run = refl

abbrev docs_source : GlobSource ℕ
docs_source = record {
  id = some (codes "docs");
  is_default = false;
  glob = codes "docs/*.ttl";
  transforms = some (record { key = codes "graphName"; payload = 2 } ∷ []);
  split_by_file = false;
  union_default_graph = none;
  storage = some disk;
  git_ref = none;
  git_root = none;
  resolved_sha = none;
  query_cache = some (knobs (capped 99) none);
}

abbrev remote_source : EndpointSource
remote_source = record {
  id = some (codes "remote");
  is_default = true;
  endpoint = codes "https://x.org";
  auth = some (bearer (codes "t"));
  headers = none;
  timeout_ms = none;
  query_cache = none;
}

abbrev parsed : List (ParsedSource ℕ)
parsed = glob docs_source ∷ endpoint remote_source ∷ []

abbrev inputs : List SourceSpecInput
inputs = object_input docs ∷ object_input remote ∷ []

parse_input-IsParsed_example : IsParsed (glob docs_source)
unfolding parse_transforms OrderedMap.get
parse_input-IsParsed_example =
    parse_input-IsParsed bytes_of span_of definitions (object_input docs) (glob docs_source) refl

parse_source_specs_iff_example :
    (parse_source_specs bytes_of span_of definitions inputs ≡ ok parsed) ↔ (
      (map_result (parse_input bytes_of span_of definitions) inputs ≡ ok parsed)
      × UniqueIds parsed
      × AtMostOneDefault parsed)
parse_source_specs_iff_example = parse_source_specs_iff bytes_of span_of definitions inputs parsed

abbrev docs_at : ParsedSourceAddress
docs_at = record { id = codes "docs"; ref = some (codes "v1") }

select_target_declared_example :
    (t : ParsedSource ℕ) × (select_target parsed (some (codes "@docs:v1")) ≡ ok t)
    × (t ≡ glob (record docs_source { git_ref = some (codes "v1") }))
unfolding parse_source_specs parse_transforms check_ids default_indices OrderedMap.get
    OrderedMap.set print_address
select_target_declared_example =
    select_target_declared bytes_of span_of definitions inputs parsed (glob docs_source) docs_at
      refl (inl refl) refl (λ e. ground (arith, e), (refl, (refl, tt)))

select_target_marked_example : select_target parsed none ≡ ok (endpoint remote_source)
unfolding parse_source_specs parse_transforms check_ids default_indices OrderedMap.get
    OrderedMap.set
select_target_marked_example =
    select_target_marked bytes_of span_of definitions inputs parsed (endpoint remote_source) refl
      (inr (inl refl)) refl
