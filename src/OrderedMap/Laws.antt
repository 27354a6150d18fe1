-- ===== src/OrderedMap/Laws.antt =====
-- The laws of the operations, in a form without side conditions where there is one.
use sparqly.Base.{suc, ◌+◌, ◌≡◌, refl, true, none, some, [], ◌∷◌, arith, length, if◌then◌else◌, Eq}
use sparqly.OrderedMap.Defs.{OrderedMap, get, has, set, delete, Distinct}

beq_refl {ℓ} : {K : Type ℓ} ⦃e : Eq K⦄ (k : K) → e.beq k k ≡ true
beq_refl ⦃e⦄ k = (e.beq_iff k k).1 refl

module _ {ℓ κ} {K : Type ℓ} ⦃e : Eq K⦄ {V : Type κ} where
  pub get_empty : (k : K) → get {V = V} k [] ≡ none
  unfolding get
  get_empty k = refl

  pub get-set :
      (k j : K) (v : V) (m : OrderedMap K V)
      → get j (set k v m) ≡ (if e.beq k j then some v else get j m)
  unfolding get set
  get-set k j v [] = refl
  get-set k j v ((i, w) ∷ m) =
      ground (arith, e.beq_iff k j, e.beq_iff i k, e.beq_iff i j, get-set k j v m)

  pub get-delete :
      (k j : K) (m : OrderedMap K V) → get j (delete k m) ≡ (if e.beq k j then none else get j m)
  unfolding get delete
  get-delete k j [] = ground arith
  get-delete k j ((i, w) ∷ m) =
      ground (arith, e.beq_iff k j, e.beq_iff i k, e.beq_iff i j, get-delete k j m)

  pub delete_absent : (k : K) (m : OrderedMap K V) → get k m ≡ none → delete k m ≡ m
  unfolding get delete
  delete_absent k [] h = refl
  delete_absent k ((i, w) ∷ m) h = ground (arith, delete_absent k m)

  pub set-Distinct : (k : K) (v : V) (m : OrderedMap K V) → Distinct m → Distinct (set k v m)
  unfolding set
  set-Distinct k v [] d = (unfold get in refl, tt)
  set-Distinct k v ((i, w) ∷ m) d =
      ground (arith, e.beq_iff i k, e.beq_iff k i, set-Distinct k v m d.1, get-set k i v m)

  pub delete-Distinct : (k : K) (m : OrderedMap K V) → Distinct m → Distinct (delete k m)
  unfolding delete
  delete-Distinct k [] d = tt
  delete-Distinct k ((i, w) ∷ m) d = ground (arith, delete-Distinct k m d.1, get-delete k i m)

  pub length-delete :
      (k : K) (m : OrderedMap K V)
      → Distinct m
      → length (delete k m) + (if has k m then 1 else 0) ≡ length m
  unfolding get delete
  length-delete k [] d = omega arith
  length-delete k ((i, w) ∷ m) d =
      ground (arith, e.beq_iff i k, length-delete k m d.1, delete_absent k m)

  pub length-set :
      (k : K) (v : V) (m : OrderedMap K V)
      → length (set k v m) ≡ (if has k m then length m else suc (length m))
  unfolding get set
  length-set k v [] = refl
  length-set k v ((i, w) ∷ m) = ground (arith, length-set k v m)
