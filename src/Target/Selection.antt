-- ===== src/Target/Selection.antt =====
-- What `selectTargetResult` picks, and when it fails.
use sparqly.Base.{
  ◌≡◌, refl, ◌↔◌, ◌⊎◌, inl, inr, true, false, Option, none, some, List, [], ◌∷◌, JsString, codes,
  arith, if◌then◌else◌, Result, ok, err, >>=-eq-ok, find_by, All, In, find_by-some,
  find_by-none_iff, Bool-cases, Option-cases, ◌||◌, subst, sym, text_eq,
}
use sparqly.Sources.{
  ParsedSource, GlobSource, glob, endpoint, reference, empty, file, id_of, marked_default,
  is_reference,
}
use sparqly.Sources.Address.{ParsedSourceAddress, parse_source_address, print_address}
use sparqly.Sources.Address.RoundTrip.{IsAddress, parse-print}
use sparqly.Target.{
  TargetError, unknown_ref, no_default_multi, ref_as_target, empty_registry, starts_with,
  select_target, pick, resolve_ref, found, id_and_ref, is_id, pinned, apply_address_pin,
  collect_ids, parse_source_spec, bare_endpoint, bare_glob, reference_of, glob_or_reference,
  alone_or, marked_or_alone,
}

-- What a text is read as.
pub parse_source_spec-cases :
    {X : Type 0} (t : JsString)
    → (parse_source_spec {X = X} t ≡ endpoint (bare_endpoint t))
      ⊎ ((parse_source_spec {X = X} t ≡ glob (bare_glob t))
          ⊎ ((r : JsString) × (parse_source_spec {X = X} t
                ≡ reference (record { id = none; is_default = false; ref = r }))))
unfolding parse_source_spec glob_or_reference
parse_source_spec-cases {X = X} t =
    elim (Bool-cases (starts_with (codes "http://") t || starts_with (codes "https://") t)) [
      | inl e ↦ inl (ground (arith, e))
      | inr e ↦ elim (Option-cases (reference_of t)) [
        | inl none_there ↦ inr (inl (ground (arith, e, none_there)))
        | inr (r, there) ↦ inr (inr (r, ground (arith, e, there)))
      ]
    ]

module _ {X : Type 0} where
  -- What an address with a ref, or without one, makes of the entry of its id: the ref is put on a
  -- glob alone.
  abbrev pub Carries : Option JsString → ParsedSource X → ParsedSource X → Type 0
  Carries none entry s = s ≡ entry
  Carries (some ref) (glob g) s = s ≡ glob (record g { git_ref = some ref })
  Carries (some ref) (file f) s = s ≡ file f
  Carries (some ref) (endpoint e) s = s ≡ endpoint e
  Carries (some ref) (empty e) s = s ≡ empty e
  Carries (some ref) (reference r) s = s ≡ reference r

  pub pinned-Carries :
      (ref : Option JsString) (entry : ParsedSource X) → Carries ref entry (pinned ref entry)
  unfolding apply_address_pin
  pinned-Carries none entry = refl
  pinned-Carries (some ref) (glob g) = refl
  pinned-Carries (some ref) (file f) = refl
  pinned-Carries (some ref) (endpoint e) = refl
  pinned-Carries (some ref) (empty e) = refl
  pinned-Carries (some ref) (reference r) = refl

  -- Where a selected source comes from: an entry of the registry, or the text itself.
  abbrev pub Origin : List (ParsedSource X) → Option JsString → ParsedSource X → Type 0
  Origin registry none s = In s registry
  Origin registry (some target) s =
      ((starts_with (codes "@") target ≡ true)
        × ((entry : ParsedSource X) × In entry registry
            × (is_id (id_of entry) (id_and_ref target (parse_source_address target)).0 ≡ true)
            × Carries (id_and_ref target (parse_source_address target)).1 entry s))
      ⊎ ((starts_with (codes "@") target ≡ false) × (s ≡ parse_source_spec target))

  pub found-pinned :
      (registry : List (ParsedSource X)) (target : JsString) (s : ParsedSource X)
      → resolve_ref registry target ≡ ok s
      → (entry : ParsedSource X) × In entry registry
        × (is_id (id_of entry) (id_and_ref target (parse_source_address target)).0 ≡ true)
        × (s ≡ pinned (id_and_ref target (parse_source_address target)).1 entry)
  unfolding resolve_ref found
  found-pinned registry target s h =
      let a = id_and_ref target (parse_source_address target) in
      let p = λ (e : ParsedSource X). is_id (id_of e) a.0 in
      elim (Option-cases (find_by p registry)) [
        | inl e ↦ absurd (ground (arith, e))
        | inr (entry, e) ↦
            let (t, i) = find_by-some p registry {x = entry} e in
            (
              entry,
              i,
              t,
              sym (ok_injective _ _ (subst (λ o. found registry target a.1 o ≡ ok s) e h)),
            )
      ]
    where
      ok_injective :
          (u v : ParsedSource X)
          → ◌≡◌ {A = Result TargetError (ParsedSource X)} (ok u) (ok v)
          → u ≡ v
      ok_injective u v k = cc

  -- A single entry, or none, or several.
  alone_or-In :
      (registry : List (ParsedSource X)) (s : ParsedSource X)
      → alone_or registry ≡ ok s
      → In s registry
  unfolding alone_or
  alone_or-In [] s h = cc
  alone_or-In (t ∷ []) s h = inl (ground arith)
  alone_or-In (t ∷ u ∷ rest) s h = cc

  pick-Origin :
      (registry : List (ParsedSource X)) (target : Option JsString) (s : ParsedSource X)
      → pick registry target ≡ ok s
      → Origin registry target s
  unfolding pick marked_or_alone
  pick-Origin registry none s h = elim (Option-cases (find_by marked_default registry)) [
    | inl e ↦ alone_or-In registry s (ground (arith, e))
    | inr (m, e) ↦
        let same : m ≡ s = ground (arith, e) in
        subst (λ z. In z registry) same (find_by-some marked_default registry {x = m} e).1
  ]
  pick-Origin registry (some target) s h = elim (Bool-cases (starts_with (codes "@") target)) [
    | inl e ↦
        let (entry, i, t, same) = found-pinned registry target s (ground (arith, e)) in
        let ref = (id_and_ref target (parse_source_address target)).1 in
        inl (e, (entry, i, t, subst (Carries ref entry) (sym same) (pinned-Carries ref entry)))
    | inr e ↦ inr (e, ground (arith, e))
  ]

  -- A selected source is never a reference, and comes from the text of the target, or from an entry
  -- of the registry: a glob then carries the ref of the address, if the address has one, and an
  -- entry of another kind is selected unchanged, so that the ref is dropped.
  pub select_target-Origin :
      (registry : List (ParsedSource X)) (target : Option JsString) (s : ParsedSource X)
      → select_target registry target ≡ ok s
      → (is_reference s ≡ false) × Origin registry target s
  unfolding select_target
  select_target-Origin registry target s h =
      let (t, e, k) =
        >>=-eq-ok (pick registry target) (λ t. if is_reference t then err ref_as_target else ok t)
          {b = s} h in
      let (r, same) = kept t k in
      (
        subst (λ z. is_reference z ≡ false) same r,
        subst (Origin registry target) same (pick-Origin registry target t e),
      )
    where
      kept :
          (t : ParsedSource X)
          → (if is_reference t then err ref_as_target else ok t) ≡ ok s
          → (is_reference t ≡ false) × (t ≡ s)
      kept t k = ground arith

  -- An address fails with `unknown-ref` exactly when no entry of the registry has its id.
  pub select_target-unknown_iff :
      (registry : List (ParsedSource X)) (target : JsString)
      → starts_with (codes "@") target ≡ true
      → (select_target registry (some target) ≡ err (unknown_ref target (collect_ids registry)))
        ↔ All
            (λ s. is_id (id_of s) (id_and_ref target (parse_source_address target)).0 ≡ false)
            registry
  unfolding select_target pick resolve_ref found
  select_target-unknown_iff registry target h =
      let p = λ (e : ParsedSource X).
        is_id (id_of e) (id_and_ref target (parse_source_address target)).0 in
      let none_iff = find_by-none_iff p registry in
      (
        λ k. elim (Option-cases (find_by p registry)) [
          | inl e ↦ none_iff.0 e
          | inr (entry, e) ↦ absurd (ground (arith, k, h, e))
        ],
        λ k. ground (arith, h, none_iff.1 k),
      )

  -- Without a target: the first entry marked as the default, else the only entry, and an error that
  -- tells an empty registry from one with several entries. A reference is refused.
  pub select_target_default :
      (registry : List (ParsedSource X))
      → All (λ s. marked_default s ≡ false) registry
      → ((registry ≡ []) × (select_target registry none ≡ err empty_registry))
        ⊎ ((s : ParsedSource X) × (registry ≡ s ∷ [])
            × (select_target registry none ≡ (if is_reference s then err ref_as_target else ok s)))
        ⊎ (select_target registry none ≡ err (no_default_multi (collect_ids registry)))
  unfolding select_target pick marked_or_alone alone_or
  select_target_default [] h = inl (refl, refl)
  select_target_default (s ∷ []) h = inr (inl (s, refl, rw h.0 refl))
  select_target_default (s ∷ t ∷ rest) h =
      inr (inr (ground (arith, (find_by-none_iff marked_default (s ∷ t ∷ rest)).1 h)))

  -- `@id:ref` selects the first glob of that id, pinned to the ref.
  pub select_target_pins :
      (registry : List (ParsedSource X)) (g : GlobSource X) (a : ParsedSourceAddress)
      (ref : JsString)
      → IsAddress a
      → a.ref ≡ some ref
      → find_by (λ s. is_id (id_of s) a.id) registry ≡ some (glob g)
      → select_target registry (some (print_address a))
        ≡ ok (glob (record g { git_ref = some ref }))
  unfolding select_target pick resolve_ref found id_and_ref apply_address_pin
  select_target_pins registry g a ref h r f =
      let at_sign = starts_at a in
      let parsed = parse-print a h in ground (arith, at_sign, parsed, r, f)
    where
      starts_at : (b : ParsedSourceAddress) → starts_with (codes "@") (print_address b) ≡ true
      starts_at b = unfold print_address in refl

  pinned-is_reference :
      (ref : Option JsString) (s : ParsedSource X)
      → is_reference s ≡ false
      → is_reference (pinned ref s) ≡ false
  unfolding apply_address_pin
  pinned-is_reference none s h = h
  pinned-is_reference (some ref) (glob g) h = refl
  pinned-is_reference (some ref) (endpoint e) h = refl
  pinned-is_reference (some ref) (reference r) h = h
  pinned-is_reference (some ref) (empty e) h = refl
  pinned-is_reference (some ref) (file f) h = refl

  -- An address selects the first source of its id, with its ref put on it if it is a glob.
  pub select_target-print :
      (registry : List (ParsedSource X)) (s : ParsedSource X) (a : ParsedSourceAddress)
      → IsAddress a
      → is_reference s ≡ false
      → find_by (λ s. is_id (id_of s) a.id) registry ≡ some s
      → select_target registry (some (print_address a)) ≡ ok (pinned a.ref s)
  unfolding select_target pick resolve_ref found id_and_ref
  select_target-print registry s a h r f =
      let at_sign = starts_at a in
      let parsed = parse-print a h in
      let kept = pinned-is_reference a.ref s r in ground (arith, at_sign, parsed, f, kept)
    where
      starts_at : (b : ParsedSourceAddress) → starts_with (codes "@") (print_address b) ≡ true
      starts_at b = unfold print_address in refl

  -- The first marked source is what is selected without a target.
  pub select_target-marked :
      (registry : List (ParsedSource X)) (s : ParsedSource X)
      → is_reference s ≡ false
      → find_by marked_default registry ≡ some s
      → select_target registry none ≡ ok s
  unfolding select_target pick marked_or_alone
  select_target-marked registry s r f = ground (arith, r, f)
