-- ===== src/Target/Scope.antt =====
-- What `serve` offers: no reference, and a default that is one of the served sources.
use sparqly.Base.{
  ◌≡◌, refl, inl, inr, Bool, true, false, ◌||◌, Option, none, some, List, [], ◌∷◌, JsString, codes,
  arith, if◌then◌else◌, ok, >>=-eq-ok, find_by, All, In, All-In, All-filter_by, find_by-some,
  Bool-cases, Option-cases, All-map,
}
use sparqly.Sources.{
  ParsedSource, glob, endpoint, reference, empty, file, id_of, marked_default, is_reference,
  with_default_id,
}
use sparqly.Target.{
  ServeScope, starts_with, resolve_ref, resolve_serve_scope, recompute_default, id_if_alone,
  normalize_lone_id_less, named_if_alone, candidates, parse_source_spec, glob_or_reference,
  reference_of, pinned, apply_address_pin,
}
use sparqly.Target.Selection.{found-pinned}

module _ {X : Type 0} where
  abbrev pub IsServable : ParsedSource X → Type 0
  IsServable s = is_reference s ≡ false

  -- The default, where there is one, is the id of a served source.
  abbrev pub DefaultServed : List (ParsedSource X) → Option JsString → Type 0
  DefaultServed served none = Unit
  DefaultServed served (some i) = (s : ParsedSource X) × In s served × (id_of s ≡ some i)

  id_DefaultServed :
      (served : List (ParsedSource X)) (s : ParsedSource X)
      → In s served
      → DefaultServed served (id_of s)
  id_DefaultServed served s i = elim (Option-cases (id_of s)) [
    | inl e ↦ rw e tt
    | inr (id, e) ↦ rw e (s, i, e)
  ]

  id_if_alone-DefaultServed :
      (served : List (ParsedSource X)) → DefaultServed served (id_if_alone served)
  unfolding id_if_alone
  id_if_alone-DefaultServed [] = tt
  id_if_alone-DefaultServed (s ∷ []) = id_DefaultServed (s ∷ []) s (inl refl)
  id_if_alone-DefaultServed (s ∷ t ∷ rest) = tt

  recompute_default-DefaultServed :
      (served : List (ParsedSource X)) → DefaultServed served (recompute_default served)
  unfolding recompute_default
  recompute_default-DefaultServed served = elim (Option-cases (find_by marked_default served)) [
    | inl e ↦ rw (e, recompute_default) (id_if_alone-DefaultServed served)
    | inr (s, e) ↦
        rw (e, recompute_default)
          (id_DefaultServed served s (find_by-some marked_default served {x = s} e).1)
  ]

  with_default_id-IsServable : (s : ParsedSource X) → IsServable s → IsServable (with_default_id s)
  with_default_id-IsServable (glob s) h = refl
  with_default_id-IsServable (endpoint s) h = refl
  with_default_id-IsServable (reference s) h = cc
  with_default_id-IsServable (empty s) h = refl
  with_default_id-IsServable (file s) h = refl

  id_of-with_default_id : (s : ParsedSource X) → id_of (with_default_id s) ≡ some (codes "default")
  id_of-with_default_id (glob s) = refl
  id_of-with_default_id (endpoint s) = refl
  id_of-with_default_id (reference s) = refl
  id_of-with_default_id (empty s) = refl
  id_of-with_default_id (file s) = refl

  pinned-IsServable :
      (ref : Option JsString) (s : ParsedSource X) → IsServable s → IsServable (pinned ref s)
  unfolding apply_address_pin
  pinned-IsServable none s h = h
  pinned-IsServable (some ref) (glob s) h = refl
  pinned-IsServable (some ref) (endpoint s) h = h
  pinned-IsServable (some ref) (reference s) h = h
  pinned-IsServable (some ref) (empty s) h = h
  pinned-IsServable (some ref) (file s) h = h

  candidates-IsServable : (registry : List (ParsedSource X)) → All IsServable (candidates registry)
  candidates-IsServable registry =
      All-map _ IsServable (λ s h. ground arith) (candidates registry)
        (All-filter_by (λ s. if is_reference s then false else true) registry)

  normalize-IsServable :
      (served : List (ParsedSource X))
      → All IsServable served
      → All IsServable (normalize_lone_id_less served)
  unfolding normalize_lone_id_less named_if_alone
  normalize-IsServable [] h = h
  normalize-IsServable (s ∷ t ∷ rest) h = h
  normalize-IsServable (s ∷ []) h = elim (Option-cases (id_of s)) [
    | inl e ↦ rw (e, named_if_alone) (with_default_id-IsServable s h.0, tt)
    | inr (id, e) ↦ rw (e, named_if_alone) h
  ]

reference_of-none :
    (input : JsString) → starts_with (codes "@") input ≡ false → reference_of input ≡ none
unfolding reference_of
reference_of-none [] h = refl
reference_of-none (c ∷ []) h = refl
reference_of-none (c ∷ d ∷ s) h = ground arith

-- A text that does not start with `@` is not read as a reference.
parse_source_spec-IsServable :
    (X : Type 0) (input : JsString)
    → starts_with (codes "@") input ≡ false
    → IsServable (parse_source_spec {X = X} input)
unfolding parse_source_spec glob_or_reference
parse_source_spec-IsServable X input h =
    rw (reference_of-none input h)
      (either (starts_with (codes "http://") input || starts_with (codes "https://") input) _ _)
  where
    either :
        (b : Bool) (e : _) (g : _) → is_reference {X = X} (if b then endpoint e else glob g) ≡ false
    either true e g = refl
    either false e g = refl

module _ {X : Type 0} where
  -- What `serve` offers holds no reference, and its default, if any, is the id of a source that it
  -- offers.
  pub resolve_serve_scope-served :
      (registry : List (ParsedSource X)) (source : Option JsString) (scope : ServeScope X)
      → resolve_serve_scope registry source ≡ ok scope
      → All IsServable scope.served_registry × DefaultServed scope.served_registry scope.default_id
  unfolding resolve_serve_scope
  resolve_serve_scope-served registry none scope h =
      let served = normalize_lone_id_less (candidates registry) in
      let same : scope
          ≡ record { served_registry = served; default_id = recompute_default served } =
        cc in
      rw same (
        normalize-IsServable (candidates registry) (candidates-IsServable registry),
        recompute_default-DefaultServed served,
      )
  resolve_serve_scope-served registry (some source) scope h =
      elim (Bool-cases (starts_with (codes "@") source)) [
        | inl e ↦
            let (entry, r, k) =
              >>=-eq-ok (resolve_ref (candidates registry) source) _ {b = scope} (rw e at h) in
            let (held, i, _, pin) = found-pinned (candidates registry) source entry r in
            let same : scope ≡ record {
              served_registry = entry ∷ [];
              default_id = recompute_default (entry ∷ []);
            } =
              cc in
            rw same (
              (
                rw pin (
                    pinned-IsServable _ held
                      (All-In IsServable (candidates registry) (candidates-IsServable registry) i)),
                tt,
              ),
              recompute_default-DefaultServed (entry ∷ []),
            )
        | inr e ↦
            let same : scope ≡ record {
              served_registry = with_default_id (parse_source_spec source) ∷ [];
              default_id = some (codes "default");
            } =
              ground (arith, e) in
            rw same (
              (
                with_default_id-IsServable (parse_source_spec source)
                    (parse_source_spec-IsServable X source e),
                tt,
              ),
              (
                with_default_id (parse_source_spec source),
                inl refl,
                id_of-with_default_id (parse_source_spec source),
              ),
            )
      ]
