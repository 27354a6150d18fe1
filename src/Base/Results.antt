-- ===== src/Base/Results.antt =====
-- `Result` of the neverthrow package, also for a function that throws: `err` carries the error.
use mathlib.Core.Path.{◌≡◌, refl, subst}
use mathlib.Core.List.{List, [], ◌∷◌}
use sparqly.Base.Lists.{All}

pub data Result {ℓ κ} (E : Type ℓ) (A : Type κ) : Type (ℓ ⊔ κ) where
  ok : A → Result E A
  err : E → Result E A

infixl 5 ◌>>=◌
abbrev pub ◌>>=◌ {ℓ κ μ} :
    {E : Type ℓ} {A : Type κ} {B : Type μ} → Result E A → (A → Result E B) → Result E B
ok x >>= next = next x
err failed >>= next = err failed

-- A chain that succeeds succeeded at its first link.
pub >>=-eq-ok {ℓ κ μ} :
    {E : Type ℓ} {A : Type κ} {B : Type μ} (first : Result E A) (next : A → Result E B) {b : B}
    → first >>= next ≡ ok b
    → (a : A) × (first ≡ ok a) × (next a ≡ ok b)
>>=-eq-ok (err failed) next done = cc
>>=-eq-ok (ok x) next done = (x, refl, done)

-- A loop that collects the results of a body that may fail.
abbrev pub map_result {ℓ κ μ} :
    {E : Type ℓ} {A : Type κ} {B : Type μ} → (A → Result E B) → List A → Result E (List B)
map_result f [] = ok []
map_result f (x ∷ xs) = f x >>= λ y. map_result f xs >>= λ ys. ok (y ∷ ys)

pub map_result-All {ℓ κ μ ν} :
    {E : Type ℓ} {A : Type κ} {B : Type μ} (P : B → Type ν) (f : A → Result E B)
    → ((a : A) (b : B) → f a ≡ ok b → P b)
    → (xs : List A) (ys : List B) → map_result f xs ≡ ok ys
    → All P ys
map_result-All P f h [] ys e = let same : [] ≡ ys = cc in subst (All P) same tt
map_result-All P f h (x ∷ xs) ys e =
    let (b, eb, rest) = >>=-eq-ok (f x) _ e in
    let (bs, ebs, last) = >>=-eq-ok (map_result f xs) _ rest in
    let same : b ∷ bs ≡ ys = cc in subst (All P) same (h x b eb, map_result-All P f h xs bs ebs)
