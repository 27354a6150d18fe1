-- ===== src/OrderedMap/Defs.antt =====
-- The operations of a JavaScript `Map`.
use sparqly.Base.{Bool, Option, none, some, List, [], ◌∷◌, if◌then◌else◌, is_some, Eq, ◌≡◌}

abbrev pub OrderedMap {ℓ κ} : Type ℓ → Type κ → Type (ℓ ⊔ κ)
OrderedMap K V = List (K × V)

module _ {ℓ κ} {K : Type ℓ} ⦃e : Eq K⦄ {V : Type κ} where
  unfoldable pub get : K → OrderedMap K V → Option V
  get k [] = none
  get k ((j, v) ∷ m) = if e.beq j k then some v else get k m

  abbrev pub has : K → OrderedMap K V → Bool
  has k m = is_some (get k m)

  unfoldable pub set : K → V → OrderedMap K V → OrderedMap K V
  set k v [] = (k, v) ∷ []
  set k v ((j, w) ∷ m) = if e.beq j k then (j, v) ∷ m else (j, w) ∷ set k v m

  -- The keys of a map are distinct, so at most one entry goes.
  unfoldable pub delete : K → OrderedMap K V → OrderedMap K V
  delete k [] = []
  delete k ((j, w) ∷ m) = if e.beq j k then delete k m else (j, w) ∷ delete k m

  -- The invariant of the representation.
  abbrev pub Distinct : OrderedMap K V → Type κ
  Distinct [] = Unit
  Distinct ((k, v) ∷ m) = (get k m ≡ none) × Distinct m

abbrev pub keys {ℓ κ} : {K : Type ℓ} {V : Type κ} → OrderedMap K V → List K
keys [] = []
keys ((k, v) ∷ m) = k ∷ keys m

abbrev pub values {ℓ κ} : {K : Type ℓ} {V : Type κ} → OrderedMap K V → List V
values [] = []
values ((k, v) ∷ m) = v ∷ values m
