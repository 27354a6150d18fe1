-- ===== src/Diff/Keys.antt =====
-- Sums over the keys of two maps, each key taken once.
use sparqly.Base.{
  ℕ, ◌+◌, ◌≡◌, refl, ap, inl, inr, none, List, [], ◌∷◌, ◌++◌, JsString, if◌then◌else◌, ◌==◌,
  text_eq, arith, Bool-cases, includes, ◌||◌,
}
use sparqly.OrderedMap
use sparqly.OrderedMap.{OrderedMap, keys, has}
use sparqly.Diff.Tabular.{distinct_texts, sort_texts, insert_text}

-- A number for each time that a key stands in a list.
abbrev pub total_over : JsString → ℕ → List JsString → ℕ
total_over key x [] = 0
total_over key x (k ∷ ks) = let rest = total_over key x ks in if k == key then x + rest else rest

pub total_over-cons :
    (key k : JsString) (x : JsString → ℕ) (ks : List JsString)
    → (if k == key then x k else 0) + total_over key (x key) ks ≡ total_over key (x key) (k ∷ ks)
total_over-cons key k x ks = elim (Bool-cases (text_eq.beq k key)) [
  | inl e ↦ let same : k ≡ key = (text_eq.beq_iff k key).0 e in rw (e, ap x same) refl
  | inr e ↦ rw e (omega arith)
]

total_over-insert_text :
    (key : JsString) (x : ℕ) (s : JsString) (ss : List JsString)
    → total_over key x (insert_text s ss) ≡ total_over key x (s ∷ ss)
total_over-insert_text key x s [] = refl
total_over-insert_text key x s (t ∷ ts) = ground (arith, total_over-insert_text key x s ts)

pub total_over-sort_texts :
    (key : JsString) (x : ℕ) (ss : List JsString)
    → total_over key x (sort_texts ss) ≡ total_over key x ss
total_over-sort_texts key x [] = refl
total_over-sort_texts key x (s ∷ ss) =
    ground (arith, total_over-insert_text key x s (sort_texts ss), total_over-sort_texts key x ss)

total_over-distinct_texts :
    (key : JsString) (x : ℕ) (ss seen : List JsString)
    → total_over key x (distinct_texts ss seen)
      ≡ (if includes seen key then 0 else if includes ss key then x else 0)
total_over-distinct_texts key x [] seen = ground arith
total_over-distinct_texts key x (s ∷ ss) seen = ground (
  arith,
  text_eq.beq_iff s key,
  total_over-distinct_texts key x ss (s ∷ seen),
  total_over-distinct_texts key x ss seen,
)

includes-append :
    (key : JsString) (xs ys : List JsString)
    → includes (xs ++ ys) key ≡ includes xs key || includes ys key
includes-append key [] ys = refl
includes-append key (x ∷ xs) ys = ground (arith, includes-append key xs ys)

includes-keys :
    {V : Type 0} (key : JsString) (m : OrderedMap JsString V) → includes (keys m) key ≡ has key m
unfolding OrderedMap.get
includes-keys key [] = refl
includes-keys key ((k, v) ∷ m) = ground (arith, includes-keys key m)

-- A number that is 0 for a key of neither map stands once over the keys of both, each taken once.
pub total_over-keys :
    {V : Type 0} (key : JsString) (x : ℕ) (lefts rights : OrderedMap JsString V)
    → (OrderedMap.get key lefts ≡ none → OrderedMap.get key rights ≡ none → x ≡ 0)
    → total_over key x (distinct_texts (keys lefts ++ keys rights) []) ≡ x
total_over-keys key x lefts rights absent = ground (
  arith,
  absent,
  total_over-distinct_texts key x (keys lefts ++ keys rights) [],
  includes-append key (keys lefts) (keys rights),
  includes-keys key lefts,
  includes-keys key rights,
)
