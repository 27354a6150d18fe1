-- ===== src/OrderedMap/Entries.antt =====
-- The entries of one map among those of another, for a loop over a copy of a map that it changes.
use sparqly.Base.{◌≡◌, none, some, [], ◌∷◌, arith, Eq}
use sparqly.OrderedMap.Defs.{OrderedMap, get, delete, Distinct}
use sparqly.OrderedMap.Laws.{get-delete}

module _ {ℓ κ} {K : Type ℓ} ⦃e : Eq K⦄ {V : Type κ} where
  abbrev pub Within : OrderedMap K V → OrderedMap K V → Type κ
  Within [] m = Unit
  Within ((k, v) ∷ rest) m = (get k m ≡ some v) × Within rest m

  pub delete-Within :
      (k : K) (rest m : OrderedMap K V)
      → get k rest ≡ none
      → Within rest m
      → Within rest (delete k m)
  unfolding get
  delete-Within k [] m h w = tt
  delete-Within k ((j, v) ∷ rest) m h w = (
    ground (arith, h, w.0, e.beq_iff j k, e.beq_iff k j, get-delete k j m),
    delete-Within k rest m (ground (arith, h)) w.1,
  )

  cons-Within :
      (k : K) (v : V) (rest m : OrderedMap K V)
      → get k rest ≡ none
      → Within rest m
      → Within rest ((k, v) ∷ m)
  unfolding get
  cons-Within k v [] m h w = tt
  cons-Within k v ((j, x) ∷ rest) m h w = (
    ground (arith, h, w.0, e.beq_iff j k, e.beq_iff k j),
    cons-Within k v rest m (ground (arith, h)) w.1,
  )

  head_get : (k : K) (v : V) (m : OrderedMap K V) → get k ((k, v) ∷ m) ≡ some v
  unfolding get
  head_get k v m = ground (arith, e.beq_iff k k)

  pub Within-self : (m : OrderedMap K V) → Distinct m → Within m m
  Within-self [] d = tt
  Within-self ((k, v) ∷ rest) d =
      (head_get k v rest, cons-Within k v rest rest d.0 (Within-self rest d.1))
