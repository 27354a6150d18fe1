-- ===== src/Resident/Tests.antt =====
-- Runs of the resident set, and its theorems at concrete inputs.
use sparqly.Base.{ℕ, ◌≤◌, ◌≡◌, refl, ◌⊎◌, [], ◌∷◌, ◌++◌, codes, JsString, All, text_eq}
use sparqly.OrderedMap
use sparqly.OrderedMap.{OrderedMap, keys}
use sparqly.Resident.{ResidentSet, total_quads, set, evict_from, enforce_budget}
use sparqly.Resident.Eviction.{HeldEntry, idle_ids, set_fits, set_evicts_oldest}

-- Three stores of 40, 30 and 20 quads under a budget of 100; the second is pinned.
abbrev store_a : JsString
store_a = codes "a"

abbrev store_b : JsString
store_b = codes "b"

abbrev store_c : JsString
store_c = codes "c"

abbrev store_d : JsString
store_d = codes "d"

abbrev resident : ResidentSet ℕ
resident = record {
  max_quads = 100;
  entries = (store_a, 40) ∷ (store_b, 30) ∷ (store_c, 20) ∷ [];
  pins = (store_b, 1) ∷ [];
}

abbrev size_of : ℕ → ℕ
size_of n = n

-- The pinned store is passed over, and the one just set stays although it is over the budget.
set_run : (set size_of store_d 90 resident).1 ≡ store_a ∷ store_c ∷ []
unfolding set enforce_budget evict_from OrderedMap.set OrderedMap.delete OrderedMap.get
set_run = refl

set_fits_example :
    (total_quads size_of (set size_of store_d 90 resident).0.entries ≤ 100)
    ⊎ All (HeldEntry store_d resident.pins) (set size_of store_d 90 resident).0.entries
set_fits_example = set_fits size_of store_d 90 resident

set_evicts_oldest_example :
    (set size_of store_d 30 resident).1
      ++ idle_ids store_d resident.pins (set size_of store_d 30 resident).0.entries
    ≡ idle_ids store_d resident.pins
        (OrderedMap.set store_d 30 (OrderedMap.delete store_d resident.entries))
set_evicts_oldest_example = set_evicts_oldest size_of store_d 30 resident
