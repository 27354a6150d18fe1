-- ===== src/Events/Ring/Replay.antt =====
-- The buffer against the whole history of events: ids without gaps, the horizon, the replay.
use sparqly.Base.{
  ℕ, ◌+◌, ◌-◌, ◌≤◌, ◌<◌, ◌≡◌, refl, ◌≢◌, ◌↔◌, ◌⊎◌, inl, inr, Bool, true, false, List, [], ◌∷◌, ◌++◌,
  append_assoc, append-nil, ◌∙◌, sym, ap, arith, length, length-append, ltb, filter_by,
  filter_by-append, some, if◌then◌else◌, Bool-cases,
}
use sparqly.Events.Ring.{
  Event, events, overflow, RingBuffer, make, append, since, later_than, shift, beyond_horizon,
}

-- The ids of a list are `low`, `low + 1`, … below `high`.
abbrev pub Numbered : {P : Type 0} → ℕ → List (Event P) → ℕ → Type 0
Numbered low [] high = low ≡ high
Numbered low (e ∷ es) high = (e.id ≡ low) × Numbered (low + 1) es high

-- `b` is the buffer after a history: `dropped`, oldest first, and then what is stored.
pub record After {P : Type 0} (dropped : List (Event P)) (b : RingBuffer P) : Type 0 where
  pub positive : 0 < b.capacity
  pub bounded : length b.stored ≤ b.capacity
  pub numbered : Numbered 1 (dropped ++ b.stored) b.next_id
  pub full : (dropped ≡ []) ⊎ (length b.stored ≡ b.capacity)

-- What `events.shift()` takes off.
abbrev pub shifted : {P : Type 0} → List (Event P) → List (Event P)
shifted [] = []
shifted (e ∷ es) = e ∷ []

-- The events that leave the buffer when `payload` is appended.
abbrev pub leaving : {P : Type 0} → P → RingBuffer P → List (Event P)
leaving payload b =
    let pushed = b.stored ++ record { id = b.next_id; payload = payload } ∷ [] in
    if ltb b.capacity (length pushed) then shifted pushed else []

module _ {P : Type 0} where
  shifted-shift : (es : List (Event P)) → shifted es ++ shift es ≡ es
  shifted-shift [] = refl
  shifted-shift (e ∷ es) = refl

  length-shift : (es : List (Event P)) → length (shift es) ≡ length es - 1
  length-shift [] = omega arith
  length-shift (e ∷ es) = omega arith

  Numbered-append :
      (low high : ℕ) (es : List (Event P)) (e : Event P)
      → Numbered low es high
      → e.id ≡ high
      → Numbered low (es ++ e ∷ []) (high + 1)
  Numbered-append low high [] e h k = omega arith
  Numbered-append low high (x ∷ es) e h k = (h.0, Numbered-append (low + 1) high es e h.1 k)

  -- The length of a numbered list is the distance of its ends.
  length-Numbered :
      (low high : ℕ) (es : List (Event P)) → Numbered low es high → low + length es ≡ high
  length-Numbered low high [] h = omega arith
  length-Numbered low high (e ∷ es) h = omega (arith, length-Numbered (low + 1) high es h.1)

  -- All ids of a numbered list lie below its end.
  filter-Numbered_none :
      (last low high : ℕ) (es : List (Event P))
      → Numbered low es high
      → high ≤ last + 1
      → filter_by (later_than last) es ≡ []
  filter-Numbered_none last low high [] h k = refl
  filter-Numbered_none last low high (e ∷ es) h k = ground (
    arith,
    filter-Numbered_none last (low + 1) high es h.1 k,
    length-Numbered (low + 1) high es h.1,
  )

  Numbered-split :
      (low high : ℕ) (xs ys : List (Event P))
      → Numbered low (xs ++ ys) high
      → Numbered low xs (low + length xs) × Numbered (low + length xs) ys high
  Numbered-split low high [] ys h = (omega arith, subst_low (omega arith) h)
    where
      subst_low : {k : ℕ} → low ≡ k → Numbered low ys high → Numbered k ys high
      subst_low e h = rw (← e) h
  Numbered-split low high (x ∷ xs) ys h =
      let (a, b) = Numbered-split (low + 1) high xs ys h.1 in
      let e : low + 1 + length xs ≡ low + length (x ∷ xs) = omega arith in
      ((h.0, rw (← e) a), rw (← e) b)

  filter-Numbered_some :
      (last low high : ℕ) (es : List (Event P))
      → Numbered low es high
      → last + 1 < high
      → low < high
      → filter_by (later_than last) es ≢ []
  filter-Numbered_some last low high [] h k l = absurd (omega arith)
  filter-Numbered_some last low high (e ∷ es) h k l =
      ground (arith, filter-Numbered_some last (low + 1) high es h.1 k)

  -- The test of `since` fails exactly when nothing that the buffer has dropped is asked for.
  horizon_iff :
      (last high cap : ℕ) (dropped stored : List (Event P))
      → Numbered 1 (dropped ++ stored) high
      → (dropped ≡ []) ⊎ (length stored ≡ cap)
      → 0 < cap
      → 0 < last
      → (beyond_horizon last stored ≡ false) ↔ (filter_by (later_than last) dropped ≡ [])
  horizon_iff last high cap dropped [] n (inl e) c h = (λ _. rw e refl, λ _. refl)
  horizon_iff last high cap dropped [] n (inr e) c h = absurd (omega arith)
  horizon_iff last high cap dropped (oldest ∷ es) n f c h =
      let (below, above) = Numbered-split 1 high dropped (oldest ∷ es) n in
      (
        λ t.
            filter-Numbered_none last 1 (1 + length dropped) dropped below
              (ground (arith, t, above.0)),
        λ t.
            ground
              (arith, t, above.0, filter-Numbered_some last 1 (1 + length dropped) dropped below),
      )

  regroup :
      (t : Bool) (dropped stored : List (Event P)) (e : Event P)
      → (dropped ++ (if t then shifted (stored ++ e ∷ []) else []))
          ++ (if t then shift (stored ++ e ∷ []) else stored ++ e ∷ [])
        ≡ (dropped ++ stored) ++ e ∷ []
  regroup true dropped stored e =
      append_assoc dropped _ _
      ∙ ap (◌++◌ dropped) (shifted-shift (stored ++ e ∷ []))
      ∙ sym (append_assoc dropped stored (e ∷ []))
  regroup false dropped stored e = rw append-nil (sym (append_assoc dropped stored (e ∷ [])))

  -- A new buffer has dropped nothing.
  make-After : (c : ℕ) {b : RingBuffer P} → make (some c) ≡ some b → After [] b
  unfolding make
  make-After c {b} e = ground arith

  -- One `append` keeps the buffer within its capacity and full of the latest events, gives the
  -- event the next id, and adds it at the end of the history.
  pub append-After :
      (payload : P) (dropped : List (Event P)) (b : RingBuffer P)
      → After dropped b
      → After (dropped ++ leaving payload b) (append payload b).0
        × ((append payload b).1.id ≡ b.next_id)
        × ((dropped ++ leaving payload b) ++ (append payload b).0.stored
            ≡ (dropped ++ b.stored) ++ (append payload b).1 ∷ [])
  unfolding append
  append-After payload dropped b a =
      let e : Event P = record { id = b.next_id; payload = payload } in
      let pushed = b.stored ++ e ∷ [] in
      let same = regroup (ltb b.capacity (length pushed)) dropped b.stored e in
      (
        record {
          positive = a.positive;
          bounded = ground (arith, a.bounded, length-append b.stored (e ∷ []), length-shift pushed);
          numbered = rw same (Numbered-append 1 b.next_id (dropped ++ b.stored) e a.numbered refl);
          full = elim (Bool-cases (ltb b.capacity (length pushed))) [
            | inl t ↦ rw t (
                inr
                  (ground (arith, length-append b.stored (e ∷ []), length-shift pushed, a.bounded)))
            | inr t ↦ rw (t, append-nil) (ground (arith, length-append b.stored (e ∷ []), a.full))
          ];
        },
        refl,
        same,
      )

  -- A replay from a position other than 0 is all that happened after it, also what the buffer has
  -- dropped since.
  pub since_complete :
      (last : ℕ) (dropped xs : List (Event P)) (b : RingBuffer P)
      → After dropped b
      → 0 < last
      → since last b ≡ events xs
      → xs ≡ filter_by (later_than last) (dropped ++ b.stored)
  unfolding since
  since_complete last dropped xs b a h e = ground (
    arith,
    horizon_iff last b.next_id b.capacity dropped b.stored a.numbered a.full a.positive h,
    filter_by-append (later_than last) dropped b.stored,
  )

  -- `overflow` is answered exactly when the position is not 0 and an event after it has been
  -- dropped.
  pub since-overflow_iff :
      (last : ℕ) (dropped : List (Event P)) (b : RingBuffer P)
      → After dropped b
      → (since last b ≡ overflow) ↔ ((0 < last) × (filter_by (later_than last) dropped ≢ []))
  unfolding since
  since-overflow_iff last dropped b a = (overflow_drops, drop_overflows)
    where
      positive_of : (es : List (Event P)) → beyond_horizon last es ≡ true → 0 < last
      positive_of [] t = absurd (ground arith)
      positive_of (x ∷ es) t = ground arith

      test : since last b ≡ overflow → beyond_horizon last b.stored ≡ true
      test e = ground arith

      overflow_drops :
          since last b ≡ overflow → (0 < last) × (filter_by (later_than last) dropped ≢ [])
      overflow_drops e =
          let p = positive_of b.stored (test e) in
          (
            p,
            λ z. ground (
              arith,
              test e,
              (horizon_iff last b.next_id b.capacity dropped b.stored a.numbered a.full a.positive
                    p).1
                  z,
            ),
          )

      drop_overflows :
          (0 < last) × (filter_by (later_than last) dropped ≢ []) → since last b ≡ overflow
      drop_overflows h = elim (Bool-cases (beyond_horizon last b.stored)) [
        | inl t ↦ rw t refl
        | inr t ↦ absurd (
            h.1 (
              (horizon_iff last b.next_id b.capacity dropped b.stored a.numbered a.full a.positive
                  h.0).0
                t))
      ]

  -- A position that no event has reached yet is answered with no event, and with no overflow.
  pub since_ahead :
      (last : ℕ) (dropped : List (Event P)) (b : RingBuffer P)
      → After dropped b
      → b.next_id ≤ last + 1
      → since last b ≡ events []
  unfolding since
  since_ahead last dropped b a h =
      let (below, above) = Numbered-split 1 b.next_id dropped b.stored a.numbered in
      let nothing = filter-Numbered_none last (1 + length dropped) b.next_id b.stored above h in
      let near = within b.stored above in ground (arith, nothing, near)
    where
      within :
          (es : List (Event P))
          → Numbered (1 + length dropped) es b.next_id
          → beyond_horizon last es ≡ false
      within [] n = refl
      within (e ∷ es) n =
          ground (arith, n.0, h, length-Numbered (1 + length dropped + 1) b.next_id es n.1)

  pub append-next_id :
      (payload : P) (b : RingBuffer P) → (append payload b).0.next_id ≡ b.next_id + 1
  unfolding append
  append-next_id payload b = refl
