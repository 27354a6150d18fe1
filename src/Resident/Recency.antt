-- ===== src/Resident/Recency.antt =====
-- Reads, pins and removals.
use sparqly.Base.{
  ℕ, ◌+◌, ◌-◌, ◌<◌, ◌≡◌, refl, true, [], ◌∷◌, ◌++◌, arith, if◌then◌else◌, ◌==◌, JsString, text_eq,
  none, some, Option-cases, inl, inr,
}
use sparqly.OrderedMap
use sparqly.OrderedMap.{OrderedMap, keys, Distinct}
use sparqly.Resident.{ResidentSet, get, pin, unpin, depth_of, released, touched}

-- Depths of pins that are recorded are positive.
abbrev pub Positive : OrderedMap JsString ℕ → Type 0
Positive [] = Unit
Positive ((id, depth) ∷ rest) = (0 < depth) × Positive rest

-- How many queries hold an id.
abbrev pub pin_depth : {T : Type 0} → JsString → ResidentSet T → ℕ
pin_depth id s = depth_of (OrderedMap.get id s.pins)

get_Positive :
    (id : JsString) (depth : ℕ) (m : OrderedMap JsString ℕ)
    → Positive m
    → OrderedMap.get id m ≡ some depth
    → 0 < depth
unfolding OrderedMap.get
get_Positive id depth [] p h = absurd (ground arith)
get_Positive id depth ((j, d) ∷ rest) p h = ground (arith, get_Positive id depth rest p.1)

set-Positive :
    (id : JsString) (depth : ℕ) (m : OrderedMap JsString ℕ)
    → 0 < depth
    → Positive m
    → Positive (OrderedMap.set id depth m)
unfolding OrderedMap.set
set-Positive id depth [] h p = (h, tt)
set-Positive id depth ((j, d) ∷ rest) h p = ground (arith, set-Positive id depth rest h p.1)

delete-Positive :
    (id : JsString) (m : OrderedMap JsString ℕ) → Positive m → Positive (OrderedMap.delete id m)
unfolding OrderedMap.delete
delete-Positive id [] p = tt
delete-Positive id ((j, d) ∷ rest) p = ground (arith, delete-Positive id rest p.1)

keys-set_new :
    {T : Type 0} (id : JsString) (value : T) (m : OrderedMap JsString T)
    → OrderedMap.get id m ≡ none
    → keys (OrderedMap.set id value m) ≡ keys m ++ id ∷ []
unfolding OrderedMap.set OrderedMap.get
keys-set_new id value [] h = refl
keys-set_new id value ((j, v) ∷ rest) h = ground (arith, keys-set_new id value rest)

module _ {T : Type 0} where
  -- A read of a resident id moves it to the end of the order of eviction, keeps the order of the
  -- others, and changes the value of none.
  pub get_refreshes :
      (id : JsString) (value : T) (s : ResidentSet T)
      → OrderedMap.get id s.entries ≡ some value
      → ((get id s).1 ≡ some value)
        × (keys (get id s).0.entries ≡ keys (OrderedMap.delete id s.entries) ++ id ∷ [])
        × ((j : JsString) → OrderedMap.get j (get id s).0.entries ≡ OrderedMap.get j s.entries)
  unfolding get touched
  get_refreshes id value s h = (
    rw (h, touched),
    rw (h, touched)
        (keys-set_new id value (OrderedMap.delete id s.entries)
          (ground (arith, OrderedMap.get-delete id id s.entries, text_eq.beq_iff id id))),
    λ j.
        rw (h, touched)
          (ground (
            arith,
            OrderedMap.get-set id j value (OrderedMap.delete id s.entries),
            OrderedMap.get-delete id j s.entries,
            text_eq.beq_iff id j,
          )),
  )

  -- A pin followed by its release leaves every depth as it was, and between the two the id is
  -- pinned.
  pub unpin-pin :
      (id j : JsString) (s : ResidentSet T)
      → Positive s.pins
      → (OrderedMap.has id (pin id s).pins ≡ true)
        × (OrderedMap.get j (unpin id (pin id s)).pins ≡ OrderedMap.get j s.pins)
  unfolding pin unpin released
  unpin-pin id j s p =
      let m = OrderedMap.set id (depth_of (OrderedMap.get id s.pins) + 1) s.pins in
      ground (
        arith,
        OrderedMap.get-set id id (depth_of (OrderedMap.get id s.pins) + 1) s.pins,
        OrderedMap.get-set id j (depth_of (OrderedMap.get id s.pins) + 1) s.pins,
        OrderedMap.get-set id j (depth_of (OrderedMap.get id s.pins) + 1 - 1) m,
        OrderedMap.get-delete id j m,
        text_eq.beq_iff id id,
        text_eq.beq_iff id j,
        get_Positive id (depth_of (OrderedMap.get id s.pins)) s.pins p,
      )

  pin-Positive : (id : JsString) (s : ResidentSet T) → Positive s.pins → Positive (pin id s).pins
  unfolding pin
  pin-Positive id s p = set-Positive id _ s.pins (omega arith) p

  unpin-Positive :
      (id : JsString) (s : ResidentSet T) → Positive s.pins → Positive (unpin id s).pins
  unfolding unpin released
  unpin-Positive id s p = elim (Option-cases (OrderedMap.get id s.pins)) [
    | inl e ↦ rw (e, released) p
    | inr (d, e) ↦
        rw (e, released)
          (ground (arith, delete-Positive id s.pins p, set-Positive id (d - 1) s.pins))
  ]

  -- `unpin` takes one from the depth of its id, stopping at zero, and touches no other.
  unpin_depth :
      (id j : JsString) (s : ResidentSet T)
      → pin_depth j (unpin id s) ≡ (if id == j then pin_depth j s - 1 else pin_depth j s)
  unfolding unpin released
  unpin_depth id j s = elim (Option-cases (OrderedMap.get id s.pins)) [
    | inl e ↦ rw (e, released) (ground (arith, text_eq.beq_iff id j))
    | inr (d, e) ↦
        rw (e, released)
          (ground (
            arith,
            e,
            text_eq.beq_iff id j,
            OrderedMap.get-delete id j s.pins,
            OrderedMap.get-set id j (d - 1) s.pins,
          ))
  ]
