-- ===== src/Registry/Unique.antt =====
-- When a list of sources is accepted as a whole.
use sparqly.Base.{
  ℕ, suc, ◌≡◌, refl, subst, sym, ◌↔◌, true, false, ◌&&◌, Option, none, some, List, [], ◌∷◌,
  JsString, if◌then◌else◌, ok, >>=-eq-ok, text_eq, All, All-map, map_result, map_result-All, arith,
  Option-cases, Bool-cases, inl, inr,
}
use sparqly.OrderedMap
use sparqly.OrderedMap.{OrderedMap, get-set}
use sparqly.Sources.{
  ParsedSource, glob, endpoint, empty, reference, file, id_of, marked_default, is_reference,
}
use sparqly.Target.{is_id}
use sparqly.Registry.{
  TransformDefinition, SourceSpecInput, parse_input, check_ids, default_indices, at_most_one,
  parse_source_specs,
}
use sparqly.Registry.Parsed.{IsParsed, parse_input-IsParsed}

module _ {X : Type 0} where
  abbrev pub Differs : Option JsString → ParsedSource X → Type 0
  Differs none t = Unit
  Differs (some id) t = is_id (id_of t) id ≡ false

  -- No two sources have the same id.
  abbrev pub UniqueIds : List (ParsedSource X) → Type 0
  UniqueIds [] = Unit
  UniqueIds (s ∷ rest) = All (Differs (id_of s)) rest × UniqueIds rest

  abbrev pub Unmarked : ParsedSource X → Type 0
  Unmarked s = marked_default s ≡ false

  abbrev pub AtMostOneDefault : List (ParsedSource X) → Type 0
  AtMostOneDefault [] = Unit
  AtMostOneDefault (s ∷ rest) =
      (marked_default s ≡ true → All Unmarked rest) × AtMostOneDefault rest

  abbrev pub Unseen : OrderedMap JsString ℕ → ParsedSource X → Type 0
  Unseen seen s = (id : JsString) → id_of s ≡ some id → OrderedMap.get id seen ≡ none

  Unseen-set :
      (seen : OrderedMap JsString ℕ) (id : JsString) (i : ℕ) (s : ParsedSource X)
      → Unseen (OrderedMap.set id i seen) s ↔ ((is_id (id_of s) id ≡ false) × Unseen seen s)
  Unseen-set seen id i s = (
    λ h. elim (Option-cases (id_of s)) [
      | inl gone ↦ (rw gone refl, λ other e. ground (arith, gone, e))
      | inr (own, there) ↦
          let set = get-set id own i seen in
          let new = h own there in
          (
            rw there (ground (arith, set, new, text_eq.beq_iff id own, text_eq.beq_iff own id)),
            λ other e. h_back own there set new other e,
          )
    ],
    λ (differs, h) own there.
        let set = get-set id own i seen in
        let old = h own there in
        let d = rw there at differs in
        ground (arith, set, old, d, text_eq.beq_iff id own, text_eq.beq_iff own id),
  )
    where
      h_back :
          (own : JsString)
          → id_of s ≡ some own
          → OrderedMap.get own (OrderedMap.set id i seen)
            ≡ (if text_eq.beq id own then some i else OrderedMap.get own seen)
          → OrderedMap.get own (OrderedMap.set id i seen) ≡ none
          → (other : JsString) → id_of s ≡ some other
          → OrderedMap.get other seen ≡ none
      h_back own there set new other e =
          let same : own ≡ other = ground (arith, there, e) in
          subst (λ x. OrderedMap.get x seen ≡ none) same (ground (arith, set, new))

  All-both :
      (P Q : ParsedSource X → Type 0) (xs : List (ParsedSource X))
      → All P xs
      → All Q xs
      → All (λ x. P x × Q x) xs
  All-both P Q [] p q = tt
  All-both P Q (x ∷ xs) p q = ((p.0, q.0), All-both P Q xs p.1 q.1)

  check_ids_iff :
      (seen : OrderedMap JsString ℕ) (i : ℕ) (rest : List (ParsedSource X))
      → (check_ids seen i rest ≡ ok tt) ↔ (All (Unseen seen) rest × UniqueIds rest)
  unfolding check_ids
  check_ids_iff seen i [] = (λ h. (tt, tt), λ h. refl)
  check_ids_iff seen i (s ∷ rest) = elim (Option-cases (id_of s)) [
    | inl none_there ↦
        let tail = check_ids_iff seen (suc i) rest in
        (
          λ h.
              let (u, v) = tail.0 (ground (arith, h, none_there)) in
              (
                (λ id e. ground (arith, none_there, e), u),
                (subst (λ o. All (Differs o) rest) (sym none_there) (trivial rest), v),
              ),
          λ (u, v). let t = tail.1 (u.1, v.1) in ground (arith, none_there, t),
        )
    | inr (id, there) ↦
        let tail = check_ids_iff (OrderedMap.set id i seen) (suc i) rest in
        (
          λ h. elim (Option-cases (OrderedMap.get id seen)) [
            | inr (prev, taken) ↦ ground (arith, h, there, taken)
            | inl free ↦
                let (u, v) = tail.0 (ground (arith, h, there, free)) in
                (
                  (
                    λ other e.
                        subst (λ x. OrderedMap.get x seen ≡ none) (same_id id other there e) free,
                    All-map _ _ (λ x k. ((Unseen-set seen id i x).0 k).1) rest u,
                  ),
                  (
                    subst (λ o. All (Differs o) rest) (sym there)
                        (All-map _ _ (λ x k. ((Unseen-set seen id i x).0 k).0) rest u),
                    v,
                  ),
                )
          ],
          λ (u, v).
              let free = u.0 id there in
              let differ = subst (λ o. All (Differs o) rest) there v.0 in
              let unseen =
                All-map _ _ (λ x k. (Unseen-set seen id i x).1 k) rest
                  (All-both (Differs (some id)) (Unseen seen) rest differ u.1) in
              let t = tail.1 (unseen, v.1) in ground (arith, there, free, t),
        )
  ]
    where
      trivial : (xs : List (ParsedSource X)) → All (Differs none) xs
      trivial [] = tt
      trivial (x ∷ xs) = (tt, trivial xs)

      same_id : (id other : JsString) → id_of s ≡ some id → id_of s ≡ some other → id ≡ other
      same_id id other a b = ground (arith, a, b)

  abbrev pub NotDefaultReference : ParsedSource X → Type 0
  NotDefaultReference s = (marked_default s && is_reference s) ≡ false

  -- The indices of the marked sources are collected if no reference is marked.
  indices :
      (i : ℕ) (xs : List (ParsedSource X))
      → All NotDefaultReference xs
      → (is : List ℕ) × (default_indices i xs ≡ ok is)
  unfolding default_indices
  indices i [] h = ([], refl)
  indices i (s ∷ xs) h =
      let (is, e) = indices (suc i) xs h.1 in
      elim (Bool-cases (marked_default s)) [
        | inl m ↦ (i ∷ is, ground (arith, e, m, h.0))
        | inr m ↦ (is, ground (arith, e, m))
      ]

  none_marked_iff :
      (i : ℕ) (xs : List (ParsedSource X)) (is : List ℕ)
      → default_indices i xs ≡ ok is
      → (is ≡ []) ↔ All Unmarked xs
  unfolding default_indices
  none_marked_iff i [] is h = (λ _. tt, λ _. ground (arith, h))
  none_marked_iff i (s ∷ xs) is h = elim (Bool-cases (marked_default s)) [
    | inr m ↦
        let tail = none_marked_iff (suc i) xs is (ground (arith, h, m)) in
        (λ e. (m, tail.0 e), λ k. tail.1 k.1)
    | inl m ↦ (λ e. some_marked i xs is m h e, λ k. ground (arith, m, k.0))
  ]
    where
      some_marked :
          (i : ℕ) (xs : List (ParsedSource X)) (is : List ℕ)
          → marked_default s ≡ true
          → default_indices i (s ∷ xs) ≡ ok is
          → is ≡ []
          → All Unmarked (s ∷ xs)
      some_marked i xs is m h e = elim (Bool-cases (is_reference s)) [
        | inl r ↦ ground (arith, h, m, r)
        | inr r ↦
            let (js, e1, e2) =
              >>=-eq-ok (default_indices (suc i) xs) (λ js. ok (i ∷ js)) {b = is}
                (ground (arith, h, m, r)) in
            ground (arith, e2, e)
      ]

  Unmarked-AtMostOneDefault : (xs : List (ParsedSource X)) → All Unmarked xs → AtMostOneDefault xs
  Unmarked-AtMostOneDefault [] h = tt
  Unmarked-AtMostOneDefault (s ∷ xs) h = (λ _. h.1, Unmarked-AtMostOneDefault xs h.1)

  at_most_one_iff :
      (i : ℕ) (xs : List (ParsedSource X)) (is : List ℕ)
      → All NotDefaultReference xs
      → default_indices i xs ≡ ok is
      → (at_most_one is ≡ ok tt) ↔ AtMostOneDefault xs
  unfolding default_indices
  at_most_one_iff i [] is n h =
      (λ _. tt, λ _. let e : [] ≡ is = cc in subst (λ x. at_most_one x ≡ ok tt) e refl)
  at_most_one_iff i (s ∷ xs) is n h = elim (Bool-cases (marked_default s)) [
    | inr m ↦
        let tail = at_most_one_iff (suc i) xs is n.1 (ground (arith, h, m)) in
        (λ e. (λ k. ground (arith, m, k), tail.0 e), λ k. tail.1 k.1)
    | inl m ↦
        let (js, e1, e2) =
          >>=-eq-ok (default_indices (suc i) xs) (λ js. ok (i ∷ js)) {b = is}
            (ground (arith, h, m, n.0)) in
        let alone = none_marked_iff (suc i) xs js e1 in
        let same : i ∷ js ≡ is = ground (arith, e2) in
        (
          λ e.
              let unmarked =
                alone.0 (one_is_alone js (subst (λ x. at_most_one x ≡ ok tt) (sym same) e)) in
              (λ _. unmarked, Unmarked-AtMostOneDefault xs unmarked),
          λ k.
              let none_left = alone.1 (k.0 m) in
              subst (λ x. at_most_one x ≡ ok tt) same
                (subst (λ x. at_most_one (i ∷ x) ≡ ok tt) (sym none_left) refl),
        )
  ]
    where
      one_is_alone : (js : List ℕ) → at_most_one (i ∷ js) ≡ ok tt → js ≡ []
      one_is_alone [] h = refl
      one_is_alone (j ∷ js) h = ground (arith, h)

  parsed-NotDefaultReference : (s : ParsedSource X) → IsParsed s → NotDefaultReference s
  parsed-NotDefaultReference (glob s) h = ground arith
  parsed-NotDefaultReference (endpoint s) h = ground arith
  parsed-NotDefaultReference (reference s) h = ground (arith, h.1)
  parsed-NotDefaultReference (empty s) h = ground arith
  parsed-NotDefaultReference (file s) h = absurd h

  All-Unseen : (xs : List (ParsedSource X)) → All (Unseen []) xs
  All-Unseen [] = tt
  All-Unseen (x ∷ xs) = (λ id e. OrderedMap.get_empty {V = ℕ} id, All-Unseen xs)

  module _ (parse_human_byte_size parse_human_duration : JsString → Option ℕ)
      (registry : List (TransformDefinition X)) where
    pub parse_source_specs-IsParsed :
        (inputs : List SourceSpecInput) (parsed : List (ParsedSource X))
        → map_result (parse_input parse_human_byte_size parse_human_duration registry) inputs
          ≡ ok parsed
        → All IsParsed parsed
    parse_source_specs-IsParsed inputs parsed h =
        map_result-All IsParsed _
          (parse_input-IsParsed parse_human_byte_size parse_human_duration registry) inputs parsed h

    -- A list of inputs is accepted exactly when each of them is, no two of them have the same id, and
    -- at most one carries the default marker; and what is answered is what they are parsed to.
    pub parse_source_specs_iff :
        (inputs : List SourceSpecInput) (parsed : List (ParsedSource X))
        → (parse_source_specs parse_human_byte_size parse_human_duration registry inputs
            ≡ ok parsed)
          ↔ ((map_result (parse_input parse_human_byte_size parse_human_duration registry) inputs
                ≡ ok parsed)
              × UniqueIds parsed
              × AtMostOneDefault parsed)
    unfolding parse_source_specs
    parse_source_specs_iff inputs parsed =
        let each =
          map_result (parse_input parse_human_byte_size parse_human_duration registry) inputs in
        (
          λ h.
              let (ps, e0, h1) = >>=-eq-ok each _ {b = parsed} h in
              let (u, e1, h2) = >>=-eq-ok (check_ids [] 0 ps) _ {b = parsed} h1 in
              let (is, e2, h3) = >>=-eq-ok (default_indices 0 ps) _ {b = parsed} h2 in
              let (v, e3, h4) = >>=-eq-ok (at_most_one is) _ {b = parsed} h3 in
              let same : ps ≡ parsed = ground (arith, h4) in
              let e0' : each ≡ ok parsed = subst (λ x. each ≡ ok x) same e0 in
              let nd =
                All-map IsParsed NotDefaultReference parsed-NotDefaultReference ps
                  (parse_source_specs-IsParsed inputs ps e0) in
              (
                e0',
                subst UniqueIds same ((check_ids_iff [] 0 ps).0 e1).1,
                subst AtMostOneDefault same ((at_most_one_iff 0 ps is nd e2).0 e3),
              ),
          λ (e0, unique, one).
              let nd =
                All-map IsParsed NotDefaultReference parsed-NotDefaultReference parsed
                  (parse_source_specs-IsParsed inputs parsed e0) in
              let (is, e2) = indices 0 parsed nd in
              let e1 = (check_ids_iff [] 0 parsed).1 (All-Unseen parsed, unique) in
              let e3 = (at_most_one_iff 0 parsed is nd e2).1 one in
              rw e0 (rw e1 (rw e2 (rw e3 refl))),
        )
