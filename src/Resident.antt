-- ===== src/Resident.antt =====
-- libs/server/src/lib/sparql/resident-set.ts: the stores that a query worker keeps in memory,
-- least recently used first, under a budget of quads. `quads` stands for the field of that name
-- of the entry type. Ids are the source's strings; a count of quads is a natural number.
mod Eviction
mod Recency
mod Tests
use sparqly.Base.{
  ℕ, ◌+◌, ◌-◌, Bool, Option, none, some, List, [], ◌∷◌, if◌then◌else◌, leb, ◌==◌, JsString, text_eq,
  is_some, map, sum,
}
use sparqly.OrderedMap
use sparqly.OrderedMap.{OrderedMap}

pub record ResidentSet (T : Type 0) : Type 0 where
  pub max_quads : ℕ
  pub entries : OrderedMap JsString T
  pub pins : OrderedMap JsString ℕ

abbrev pub total_quads : {T : Type 0} → (T → ℕ) → OrderedMap JsString T → ℕ
total_quads quads [] = 0
total_quads quads ((id, value) ∷ rest) = quads value + total_quads quads rest

module _ {T : Type 0} (quads : T → ℕ) where
  -- The loop of `enforceBudget`: the entries that stay, and the evicted ids in order.
  pub evict_from :
      ℕ
      → JsString
      → OrderedMap JsString ℕ
      → ℕ
      → OrderedMap JsString T
      → OrderedMap JsString T × List JsString
  evict_from max_quads just_set pins total [] = ([], [])
  evict_from max_quads just_set pins total ((id, value) ∷ rest) =
      let kept = evict_from max_quads just_set pins total rest in
      let dropped = evict_from max_quads just_set pins (total - quads value) rest in
      if leb total max_quads
      then ((id, value) ∷ rest, [])
      else if id == just_set
      then ((id, value) ∷ kept.0, kept.1)
      else if OrderedMap.has id pins
      then ((id, value) ∷ kept.0, kept.1)
      else (dropped.0, id ∷ dropped.1)

  pub enforce_budget : JsString → ResidentSet T → ResidentSet T × List JsString
  enforce_budget just_set s =
      let r = evict_from s.max_quads just_set s.pins (total_quads quads s.entries) s.entries in
      (record s { entries = r.0 }, r.1)

  pub set : JsString → T → ResidentSet T → ResidentSet T × List JsString
  set id value s =
      enforce_budget id
        (record s { entries = OrderedMap.set id value (OrderedMap.delete id s.entries) })

-- `this.pins.get(id) ?? 0`
abbrev pub depth_of : Option ℕ → ℕ
depth_of none = 0
depth_of (some depth) = depth

released : Option ℕ → JsString → OrderedMap JsString ℕ → OrderedMap JsString ℕ
released none id pins = pins
released (some depth) id pins =
    if leb depth 1 then OrderedMap.delete id pins else OrderedMap.set id (depth - 1) pins

module _ {T : Type 0} where
  touched : Option T → JsString → ResidentSet T → ResidentSet T × Option T
  touched none id s = (s, none)
  touched (some value) id s =
      (record s { entries = OrderedMap.set id value (OrderedMap.delete id s.entries) }, some value)

  pub get : JsString → ResidentSet T → ResidentSet T × Option T
  unfolding touched
  get id s = touched (OrderedMap.get id s.entries) id s

  abbrev pub has : JsString → ResidentSet T → Bool
  has id s = OrderedMap.has id s.entries

  pub delete : JsString → ResidentSet T → ResidentSet T × Bool
  delete id s = (record s { entries = OrderedMap.delete id s.entries }, OrderedMap.has id s.entries)

  pub pin : JsString → ResidentSet T → ResidentSet T
  pin id s = record s { pins = OrderedMap.set id (depth_of (OrderedMap.get id s.pins) + 1) s.pins }

  pub unpin : JsString → ResidentSet T → ResidentSet T
  unfolding released
  unpin id s = record s { pins = released (OrderedMap.get id s.pins) id s.pins }
