-- ===== src/Registry/Targets.antt =====
-- What can be selected from a registry that was accepted: each source by its id, and the default.
use sparqly.Base.{
  ℕ, ◌≡◌, ◌≢◌, refl, subst, sym, true, false, Option, none, some, List, [], ◌∷◌, JsString, ok,
  text_eq, All-In, In, find_by, arith, Bool-cases, inl, inr,
}
use sparqly.Sources.{
  ParsedSource, glob, endpoint, empty, reference, file, id_of, marked_default, is_reference,
}
use sparqly.Sources.Address.{ParsedSourceAddress, print_address}
use sparqly.Sources.Address.RoundTrip.{NoColon, IsAddress}
use sparqly.Target.{is_id, pinned, select_target}
use sparqly.Target.Selection.{Carries, pinned-Carries, select_target-print, select_target-marked}
use sparqly.Registry.{
  is_source_id, are_id_chars, TransformDefinition, SourceSpecInput, parse_source_specs,
}
use sparqly.Registry.Parsed.{IsParsed, HasSourceId}
use sparqly.Registry.Unique.{
  Differs, UniqueIds, Unmarked, AtMostOneDefault, parse_source_specs-IsParsed,
  parse_source_specs_iff,
}

-- A ref that an address can carry.
abbrev pub IsPin : Option JsString → Type 0
IsPin none = Unit
IsPin (some ref) = (ref ≢ []) × NoColon ref

are_id_chars-NoColon : (s : JsString) → are_id_chars s ≡ true → NoColon s
are_id_chars-NoColon [] h = tt
are_id_chars-NoColon (c ∷ s) h = (ground (arith, h), are_id_chars-NoColon s (ground (arith, h)))

source_id-IsAddress :
    (a : ParsedSourceAddress) → is_source_id a.id ≡ true → IsPin a.ref → IsAddress a
source_id-IsAddress a h p = of_parts a.id a.ref h p
  where
    of_parts :
        (id : JsString) (ref : Option JsString)
        → is_source_id id ≡ true
        → IsPin ref
        → IsAddress (record { id = id; ref = ref })
    of_parts [] ref h p = ground (arith, h)
    of_parts (c ∷ s) none h p =
        (λ e. ground (arith, e), (ground (arith, h), are_id_chars-NoColon s (ground (arith, h))))
    of_parts (c ∷ s) (some ref) h p = (λ e. ground (arith, e), p)

module _ {X : Type 0} where
  find-by_id :
      (xs : List (ParsedSource X)) (s : ParsedSource X) (id : JsString)
      → UniqueIds xs
      → In s xs
      → id_of s ≡ some id
      → find_by (λ t. is_id (id_of t) id) xs ≡ some s
  find-by_id [] s id u i e = absurd i
  find-by_id (t ∷ xs) s id u (inl same) e =
      let own : id_of t ≡ some id = subst (λ x. id_of x ≡ some id) (sym same) e in
      let first : is_id (id_of t) id ≡ true = rw own ((text_eq.beq_iff id id).1 refl) in
      ground (arith, first, same)
  find-by_id (t ∷ xs) s id u (inr there) e =
      let later = find-by_id xs s id u.1 there e in
      elim (Bool-cases (is_id (id_of t) id)) [
        | inr differs ↦ ground (arith, differs, later)
        | inl is ↦ absurd (twice (id_of t) is (All-In (Differs (id_of t)) xs {x = s} u.0 there))
      ]
    where
      twice : (o : Option JsString) → is_id o id ≡ true → Differs o s → ⊥
      twice none y d = ground (arith, y)
      twice (some own) y d =
          let same = (text_eq.beq_iff own id).0 y in
          let d' = rw e at d in ground (arith, same, d', text_eq.beq_iff id own)

  find-marked :
      (xs : List (ParsedSource X)) (s : ParsedSource X)
      → AtMostOneDefault xs
      → In s xs
      → marked_default s ≡ true
      → find_by marked_default xs ≡ some s
  find-marked [] s u i e = absurd i
  find-marked (t ∷ xs) s u (inl same) e =
      let first = subst (λ x. marked_default x ≡ true) (sym same) e in ground (arith, first, same)
  find-marked (t ∷ xs) s u (inr there) e =
      let later = find-marked xs s u.1 there e in
      elim (Bool-cases (marked_default t)) [
        | inr differs ↦ ground (arith, differs, later)
        | inl is ↦
            let unmarked = All-In Unmarked xs {x = s} (u.0 is) there in ground (arith, unmarked, e)
      ]

  id-parsed :
      (s : ParsedSource X) (id : JsString)
      → IsParsed s
      → id_of s ≡ some id
      → (is_source_id id ≡ true) × (is_reference s ≡ false)
  id-parsed (glob g) id h e = (subst HasSourceId e h.0, refl)
  id-parsed (endpoint g) id h e = (subst HasSourceId e h.0, refl)
  id-parsed (reference r) id h e = let gone = h.0 in ground (arith, gone, e)
  id-parsed (empty g) id h e = (subst HasSourceId e h, refl)
  id-parsed (file f) id h e = absurd h

  marked-parsed :
      (s : ParsedSource X) → IsParsed s → marked_default s ≡ true → is_reference s ≡ false
  marked-parsed (reference r) h e = let off = h.1 in ground (arith, off, e)
  marked-parsed (glob g) h e = refl
  marked-parsed (endpoint g) h e = refl
  marked-parsed (empty g) h e = refl
  marked-parsed (file f) h e = refl

  module _ (parse_human_byte_size parse_human_duration : JsString → Option ℕ)
      (registry : List (TransformDefinition X)) where
    -- Each source of an accepted registry that has an id is what the address of that id selects. An
    -- address with a ref that is not empty and has no colon selects it too: a glob with the ref put
    -- on it, an endpoint or an empty source unchanged, so that the ref is dropped.
    pub select_target_declared :
        (inputs : List SourceSpecInput) (parsed : List (ParsedSource X)) (s : ParsedSource X)
        (a : ParsedSourceAddress)
        → parse_source_specs parse_human_byte_size parse_human_duration registry inputs ≡ ok parsed
        → In s parsed
        → id_of s ≡ some a.id
        → IsPin a.ref
        → (t : ParsedSource X) × (select_target parsed (some (print_address a)) ≡ ok t)
          × Carries a.ref s t
    select_target_declared inputs parsed s a h i e p =
        let (each, unique, one) =
          (parse_source_specs_iff parse_human_byte_size parse_human_duration registry inputs
              parsed).0
            h in
        let all =
          parse_source_specs-IsParsed parse_human_byte_size parse_human_duration registry inputs
            parsed each in
        let (valid, plain) = id-parsed s a.id (All-In IsParsed parsed {x = s} all i) e in
        (
          pinned a.ref s,
          select_target-print parsed s a (source_id-IsAddress a valid p) plain
              (find-by_id parsed s a.id unique i e),
          pinned-Carries a.ref s,
        )

    -- A source of an accepted registry that carries the default marker is what is selected without a
    -- target.
    pub select_target_marked :
        (inputs : List SourceSpecInput) (parsed : List (ParsedSource X)) (s : ParsedSource X)
        → parse_source_specs parse_human_byte_size parse_human_duration registry inputs ≡ ok parsed
        → In s parsed
        → marked_default s ≡ true
        → select_target parsed none ≡ ok s
    select_target_marked inputs parsed s h i e =
        let (each, unique, one) =
          (parse_source_specs_iff parse_human_byte_size parse_human_duration registry inputs
              parsed).0
            h in
        let all =
          parse_source_specs-IsParsed parse_human_byte_size parse_human_duration registry inputs
            parsed each in
        let plain = marked-parsed s (All-In IsParsed parsed {x = s} all i) e in
        select_target-marked parsed s plain (find-marked parsed s one i e)
