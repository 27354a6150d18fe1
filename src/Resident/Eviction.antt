-- ===== src/Resident/Eviction.antt =====
-- What `set` evicts: the budget, the entries that are safe, and the order.
use sparqly.Base.{
  ℕ, ◌+◌, ◌-◌, ◌≤◌, ◌≡◌, refl, ◌⊎◌, inr, true, ◌||◌, List, [], ◌∷◌, ◌++◌, arith, if◌then◌else◌,
  ◌==◌, JsString, text_eq, some, All,
}
use sparqly.OrderedMap
use sparqly.OrderedMap.{OrderedMap}
use sparqly.Resident.{ResidentSet, total_quads, evict_from, enforce_budget, set}

-- An entry that a budget may not evict.
abbrev pub IsHeld : JsString → OrderedMap JsString ℕ → JsString → Type 0
IsHeld just_set pins id = (id == just_set || OrderedMap.has id pins) ≡ true

-- The ids that a budget may evict, least recently used first.
abbrev pub idle_ids :
    {T : Type 0} → JsString → OrderedMap JsString ℕ → OrderedMap JsString T → List JsString
idle_ids just_set pins [] = []
idle_ids just_set pins ((id, value) ∷ rest) =
    if id == just_set || OrderedMap.has id pins
    then idle_ids just_set pins rest
    else id ∷ idle_ids just_set pins rest

abbrev pub HeldEntry : {T : Type 0} → JsString → OrderedMap JsString ℕ → JsString × T → Type 0
HeldEntry just_set pins e = IsHeld just_set pins e.0

module _ {T : Type 0} (quads : T → ℕ) (max_quads : ℕ) (just_set : JsString)
    (pins : OrderedMap JsString ℕ) where
  -- The loop never evicts out of order, nor an entry that is held.
  evict_from-idle_ids :
      (total : ℕ) (m : OrderedMap JsString T)
      → (evict_from quads max_quads just_set pins total m).1
          ++ idle_ids just_set pins (evict_from quads max_quads just_set pins total m).0
        ≡ idle_ids just_set pins m
  unfolding evict_from
  evict_from-idle_ids total [] = refl
  evict_from-idle_ids total ((id, value) ∷ rest) =
      ground (arith, evict_from-idle_ids total rest, evict_from-idle_ids (total - quads value) rest)

  -- With `total` the sum plus what stands before, either the sum fits or all that stays is held.
  evict_from_fits :
      (before total : ℕ) (m : OrderedMap JsString T)
      → total ≡ before + total_quads quads m
      → (before + total_quads quads (evict_from quads max_quads just_set pins total m).0
          ≤ max_quads)
        ⊎ All (HeldEntry just_set pins) (evict_from quads max_quads just_set pins total m).0
  unfolding evict_from
  evict_from_fits before total [] h = inr tt
  evict_from_fits before total ((id, value) ∷ rest) h = ground (
    arith,
    evict_from_fits (before + quads value) total rest,
    evict_from_fits before (total - quads value) rest,
  )

  evict_from-get :
      (total : ℕ) (m : OrderedMap JsString T) (id : JsString)
      → IsHeld just_set pins id
      → OrderedMap.get id (evict_from quads max_quads just_set pins total m).0 ≡ OrderedMap.get id m
  unfolding evict_from OrderedMap.get
  evict_from-get total [] id h = refl
  evict_from-get total ((i, value) ∷ rest) id h = ground (
    arith,
    text_eq.beq_iff i id,
    evict_from-get total rest id h,
    evict_from-get (total - quads value) rest id h,
  )

  -- Nothing goes once the total fits.
  evict_from_within :
      (total : ℕ) (m : OrderedMap JsString T)
      → total ≤ max_quads
      → evict_from quads max_quads just_set pins total m ≡ (m, [])
  unfolding evict_from
  evict_from_within total [] h = refl
  evict_from_within total ((id, value) ∷ rest) h = ground arith

module _ {T : Type 0} (quads : T → ℕ) where
  -- After `set`, the stores fit the budget, or every entry that is left is the one just set or is
  -- pinned.
  pub set_fits :
      (id : JsString) (value : T) (s : ResidentSet T)
      → (total_quads quads (set quads id value s).0.entries ≤ s.max_quads)
        ⊎ All (HeldEntry id s.pins) (set quads id value s).0.entries
  unfolding set enforce_budget
  set_fits id value s =
      let m = OrderedMap.set id value (OrderedMap.delete id s.entries) in
      ground (arith, evict_from_fits quads s.max_quads id s.pins 0 (total_quads quads m) m)

  -- The ids that `set` returns, followed by those that could still be evicted, are the idle ids in
  -- the order of last use: eviction takes the least recently used first and skips none.
  pub set_evicts_oldest :
      (id : JsString) (value : T) (s : ResidentSet T)
      → (set quads id value s).1 ++ idle_ids id s.pins (set quads id value s).0.entries
        ≡ idle_ids id s.pins (OrderedMap.set id value (OrderedMap.delete id s.entries))
  unfolding set enforce_budget
  set_evicts_oldest id value s = evict_from-idle_ids quads s.max_quads id s.pins _ _

  -- A pinned entry other than the one set is found after `set` as before it, and the one just set is
  -- found with its new value.
  pub set_keeps_held :
      (id j : JsString) (value : T) (s : ResidentSet T)
      → IsHeld id s.pins j
      → OrderedMap.get j (set quads id value s).0.entries
        ≡ (if id == j then some value else OrderedMap.get j s.entries)
  unfolding set enforce_budget
  set_keeps_held id j value s h =
      let m = OrderedMap.set id value (OrderedMap.delete id s.entries) in
      ground (
        arith,
        evict_from-get quads s.max_quads id s.pins (total_quads quads m) m j h,
        OrderedMap.get-set id j value (OrderedMap.delete id s.entries),
        OrderedMap.get-delete id j s.entries,
      )

  -- An insertion under the budget evicts nothing.
  set_within_budget :
      (id : JsString) (value : T) (s : ResidentSet T)
      → total_quads quads (OrderedMap.set id value (OrderedMap.delete id s.entries)) ≤ s.max_quads
      → (set quads id value s).1 ≡ []
  unfolding set enforce_budget
  set_within_budget id value s h = rw (evict_from_within quads s.max_quads id s.pins _ _ h) refl
