-- ===== src/Target/Tests.antt =====
-- Runs of the selection of a target.
use sparqly.Base.{ℕ, ◌≡◌, refl, false, none, some, List, [], ◌∷◌, codes, ok, arith, All, text_eq}
use sparqly.Sources.{ParsedSource, GlobSource, ReferenceSource, glob, reference, is_reference}
use sparqly.Sources.Address.{ParsedSourceAddress, parse_source_address, split_last}
use sparqly.Sources.Address.RoundTrip.{IsAddress}
use sparqly.Target.{
  ServeScope, resolve_ref, resolve_serve_scope, recompute_default, id_and_ref, select_target, pick,
  normalize_lone_id_less, found, apply_address_pin, id_if_alone, named_if_alone,
}
use sparqly.Target.Selection.{Origin, select_target-Origin}
use sparqly.Target.Scope.{IsServable, DefaultServed, resolve_serve_scope-served}

abbrev docs : GlobSource ℕ
docs = record {
  id = some (codes "docs");
  is_default = false;
  glob = codes "docs/*.ttl";
  transforms = none;
  split_by_file = false;
  union_default_graph = none;
  storage = none;
  git_ref = none;
  git_root = none;
  resolved_sha = none;
  query_cache = none;
}

abbrev alias : ReferenceSource
alias = record { id = some (codes "alias"); is_default = false; ref = codes "docs" }

abbrev registry : List (ParsedSource ℕ)
registry = reference alias ∷ glob docs ∷ []

abbrev docs_at : ParsedSourceAddress
docs_at = record { id = codes "docs"; ref = some (codes "v1") }

docs_at-IsAddress : IsAddress docs_at
docs_at-IsAddress = (λ h. ground (arith, h), (λ h. ground (arith, h), (refl, (refl, tt))))

select_run :
    select_target registry (some (codes "@docs:v1"))
    ≡ ok (glob (record docs { git_ref = some (codes "v1") }))
unfolding select_target pick resolve_ref found id_and_ref apply_address_pin parse_source_address
    split_last
select_run = refl

select_target-Origin_example :
    (is_reference (glob (record docs { git_ref = some (codes "v1") })) ≡ false)
    × Origin registry (some (codes "@docs:v1")) (glob (record docs { git_ref = some (codes "v1") }))
select_target-Origin_example =
    select_target-Origin registry (some (codes "@docs:v1"))
      (glob (record docs { git_ref = some (codes "v1") })) select_run

abbrev docs_scope : ServeScope ℕ
docs_scope = record { served_registry = glob docs ∷ []; default_id = some (codes "docs") }

scope_run : resolve_serve_scope registry none ≡ ok docs_scope
unfolding resolve_serve_scope normalize_lone_id_less named_if_alone recompute_default id_if_alone
scope_run = refl

resolve_serve_scope-served_example :
    All IsServable docs_scope.served_registry
    × DefaultServed docs_scope.served_registry docs_scope.default_id
resolve_serve_scope-served_example = resolve_serve_scope-served registry none docs_scope scope_run
