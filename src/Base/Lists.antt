-- ===== src/Base/Lists.antt =====
-- Lists over the native numbers, and predicates on lists.
use Prim.Native.Nat.{ℕ, suc, ◌+◌}
use Prim.Native.Char.{code}
use Prim.Native.String.{String}
use mathlib.Core.Path.{◌≡◌, refl, subst}
use mathlib.Core.Logic.{◌⊎◌, inl, inr, ◌↔◌}
use mathlib.Core.Bool.{Bool, true, false, ◌||◌}
use mathlib.Core.Option.{Option, none, some}
use mathlib.Core.List.{List, [], ◌∷◌, ◌++◌}
use native.Mathlib.Omega.{arith}
use sparqly.Base.Tests.{JsString, if◌then◌else◌, Eq, Bool-cases}

-- The code units of a text literal.
abbrev pub codes : String → JsString
codes String.[] = []
codes (String.◌∷◌ c s) = code c ∷ codes s

module _ {ℓ} {A : Type ℓ} where
  abbrev pub length : List A → ℕ
  length [] = 0
  length (x ∷ xs) = suc (length xs)

  pub length-append : (xs ys : List A) → length (xs ++ ys) ≡ length xs + length ys
  length-append [] ys = omega arith
  length-append (x ∷ xs) ys = omega (arith, length-append xs ys)

  -- `xs.filter(test)`
  abbrev pub filter_by : (A → Bool) → List A → List A
  filter_by p [] = []
  filter_by p (x ∷ xs) = if p x then x ∷ filter_by p xs else filter_by p xs

  pub filter_by-append :
      (p : A → Bool) (xs ys : List A) → filter_by p (xs ++ ys) ≡ filter_by p xs ++ filter_by p ys
  filter_by-append p [] ys = refl
  filter_by-append p (x ∷ xs) ys = ground (arith, filter_by-append p xs ys)

  -- `xs.find(test)`
  abbrev pub find_by : (A → Bool) → List A → Option A
  find_by p [] = none
  find_by p (x ∷ xs) = if p x then some x else find_by p xs

  -- `xs.some(test)`
  abbrev pub any_by : (A → Bool) → List A → Bool
  any_by p [] = false
  any_by p (x ∷ xs) = p x || any_by p xs

  abbrev pub All {κ} : (A → Type κ) → List A → Type κ
  All P [] = Unit
  All P (x ∷ xs) = P x × All P xs

  pub All-append {κ} : (P : A → Type κ) (xs ys : List A) → All P xs → All P ys → All P (xs ++ ys)
  All-append P [] ys h k = k
  All-append P (x ∷ xs) ys h k = (h.0, All-append P xs ys h.1 k)

  pub All-map {κ μ} :
      (P : A → Type κ) (Q : A → Type μ) (f : (x : A) → P x → Q x) (xs : List A)
      → All P xs
      → All Q xs
  All-map P Q f [] h = tt
  All-map P Q f (x ∷ xs) h = (f x h.0, All-map P Q f xs h.1)

-- `xs.includes(a)`
abbrev pub includes {ℓ} : {A : Type ℓ} ⦃e : Eq A⦄ → List A → A → Bool
includes ⦃e⦄ [] a = false
includes ⦃e⦄ (x ∷ xs) a = e.beq x a || includes ⦃e = e⦄ xs a

abbrev pub sum : List ℕ → ℕ
sum [] = 0
sum (x ∷ xs) = x + sum xs

-- Membership, by the place.
abbrev pub In : {A : Type 0} → A → List A → Type 0
In a [] = ⊥
In a (x ∷ xs) = (x ≡ a) ⊎ In a xs

module _ {A : Type 0} (p : A → Bool) where
  -- `find` returns a member that passes the test.
  pub find_by-some : (xs : List A) {x : A} → find_by p xs ≡ some x → (p x ≡ true) × In x xs
  find_by-some [] {x} h = cc
  find_by-some (y ∷ xs) {x} h = elim (Bool-cases (p y)) [
    | inl e ↦ let same : y ≡ x = ground (arith, e) in (subst (λ z. p z ≡ true) same e, inl same)
    | inr e ↦ let (t, i) = find_by-some xs {x = x} (ground (arith, e)) in (t, inr i)
  ]

  -- and `undefined` exactly when there is none.
  pub find_by-none_iff : (xs : List A) → (find_by p xs ≡ none) ↔ All (λ x. p x ≡ false) xs
  find_by-none_iff [] = (λ _. tt, λ _. refl)
  find_by-none_iff (x ∷ xs) = (
    λ h. ground (arith, (find_by-none_iff xs).0),
    λ h. ground (arith, (find_by-none_iff xs).1 h.1),
  )

  In-filter_by : (xs : List A) {x : A} → In x (filter_by p xs) → (p x ≡ true) × In x xs
  In-filter_by [] {x} i = absurd i
  In-filter_by (y ∷ xs) {x} i = elim (Bool-cases (p y)) [
    | inl e ↦ elim (unfold_head y xs e i) [
      | inl same ↦ (subst (λ z. p z ≡ true) same e, inl same)
      | inr there ↦ let (t, j) = In-filter_by xs {x = x} there in (t, inr j)
    ]
    | inr e ↦ let (t, j) = In-filter_by xs {x = x} (rw e at i) in (t, inr j)
  ]
    where
      unfold_head :
          (y : A) (xs : List A)
          → p y ≡ true
          → In x (filter_by p (y ∷ xs))
          → (y ≡ x) ⊎ In x (filter_by p xs)
      unfold_head y xs e i = rw e at i

  pub All-filter_by : (xs : List A) → All (λ x. p x ≡ true) (filter_by p xs)
  All-filter_by [] = tt
  All-filter_by (x ∷ xs) = elim (Bool-cases (p x)) [
    | inl e ↦ rw e (e, All-filter_by xs)
    | inr e ↦ rw e (All-filter_by xs)
  ]

pub All-In : {A : Type 0} (P : A → Type 0) (xs : List A) {x : A} → All P xs → In x xs → P x
All-In P [] h i = absurd i
All-In P (y ∷ xs) h (inl e) = subst P e h.0
All-In P (y ∷ xs) h (inr i) = All-In P xs h.1 i
