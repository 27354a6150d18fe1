-- ===== src/Diff/Tabular/Counts.antt =====
-- What the counts and the difference say of the rows.
use sparqly.Base.{
  ℕ, suc, ◌+◌, ◌-◌, ◌<◌, ◌≡◌, refl, ap, ◌∙◌, inl, inr, Bool, false, Option, none, some, List, [],
  ◌∷◌, ◌++◌, JsString, if◌then◌else◌, Result, ok, err, >>=-eq-ok, ◌==◌, text_eq, arith, Bool-cases,
  length, nat_eq,
}
use sparqly.OrderedMap
use sparqly.OrderedMap.{OrderedMap, get-set, keys, has}
use sparqly.Diff.Keys.{total_over, total_over-cons, total_over-sort_texts, total_over-keys}
use sparqly.Diff.Tabular.{
  diff_keys, diff_one, entry_of, sorted_keys, distinct_texts, tabular_diff, TabularDiffResult,
  TabularRow, TabularBlankNodeError, CountedRow, tabular_row_key, count_rows, counted_again,
  count_of,
}

-- How many rows have a key.
abbrev pub is_key : JsString → Result TabularBlankNodeError JsString → Bool
is_key key (ok k) = k == key
is_key key (err e) = false

abbrev pub occurrences : JsString → List TabularRow → List JsString → ℕ
occurrences key [] variables = 0
occurrences key (row ∷ rows) variables =
    let rest = occurrences key rows variables in
    if is_key key (tabular_row_key row variables) then suc rest else rest

counted_again_count :
    (row : TabularRow) (o : Option CountedRow) → (counted_again row o).count ≡ count_of o + 1
counted_again_count row none = refl
counted_again_count row (some entry) = refl

-- The counting adds to each key the number of rows that have it.
count_rows-occurrences :
    (key : JsString) (rows : List TabularRow) (variables : List JsString)
    (before after : OrderedMap JsString CountedRow)
    → count_rows rows variables before ≡ ok after
    → count_of (OrderedMap.get key after)
      ≡ count_of (OrderedMap.get key before) + occurrences key rows variables
unfolding count_rows
count_rows-occurrences key [] variables before after h = ground (arith, h)
count_rows-occurrences key (row ∷ rows) variables before after h =
    let (k, e, rest) = >>=-eq-ok (tabular_row_key row variables) _ h in
    let next = OrderedMap.set k (counted_again row (OrderedMap.get k before)) before in
    let there = count_rows-occurrences key rows variables next after rest in
    let stored = get-set k key (counted_again row (OrderedMap.get k before)) before in
    ground (
      arith,
      e,
      there,
      stored,
      text_eq.beq_iff k key,
      counted_again_count row (OrderedMap.get k before),
    )

-- Each counted row stands under its own key.
abbrev pub Keyed : List JsString → OrderedMap JsString CountedRow → Type 0
Keyed variables m =
    (key : JsString) (entry : CountedRow)
    → OrderedMap.get key m ≡ some entry
    → tabular_row_key entry.row variables ≡ ok key

counted_again-Keyed :
    (row : TabularRow) (variables : List JsString) (k : JsString) (o : Option CountedRow)
    → tabular_row_key row variables ≡ ok k
    → ((entry : CountedRow) → o ≡ some entry → tabular_row_key entry.row variables ≡ ok k)
    → tabular_row_key (counted_again row o).row variables ≡ ok k
counted_again-Keyed row variables k none e h = e
counted_again-Keyed row variables k (some entry) e h = h entry refl

set-Keyed :
    (variables : List JsString) (k : JsString) (entry : CountedRow)
    (m : OrderedMap JsString CountedRow)
    → tabular_row_key entry.row variables ≡ ok k
    → Keyed variables m
    → Keyed variables (OrderedMap.set k entry m)
set-Keyed variables k entry m own keyed key found h = elim (Bool-cases (text_eq.beq k key)) [
  | inl e ↦ ground (arith, e, own, h, get-set k key entry m, text_eq.beq_iff k key)
  | inr e ↦ keyed key found (ground (arith, e, h, get-set k key entry m))
]

count_rows-Keyed :
    (rows : List TabularRow) (variables : List JsString)
    (before after : OrderedMap JsString CountedRow)
    → Keyed variables before
    → count_rows rows variables before ≡ ok after
    → Keyed variables after
unfolding count_rows
count_rows-Keyed [] variables before after keyed h =
    λ key entry found. keyed key entry (ground (arith, h, found))
count_rows-Keyed (row ∷ rows) variables before after keyed h =
    let (k, e, rest) = >>=-eq-ok (tabular_row_key row variables) _ h in
    let again = counted_again row (OrderedMap.get k before) in
    let own = counted_again-Keyed row variables k (OrderedMap.get k before) e (keyed k) in
    count_rows-Keyed rows variables (OrderedMap.set k again before) after
      (set-Keyed variables k again before own keyed) rest

-- The counts of the entries with a key.
abbrev pub amount : JsString → List JsString → List CountedRow → ℕ
amount key variables [] = 0
amount key variables (entry ∷ entries) =
    let rest = amount key variables entries in
    if is_key key (tabular_row_key entry.row variables) then entry.count + rest else rest

amount-append :
    (key : JsString) (variables : List JsString) (xs ys : List CountedRow)
    → amount key variables (xs ++ ys) ≡ amount key variables xs + amount key variables ys
amount-append key variables [] ys = ground arith
amount-append key variables (x ∷ xs) ys = ground (arith, amount-append key variables xs ys)

amount-entry_of :
    (key k : JsString) (variables : List JsString) (a b : Option CountedRow) (n : ℕ)
    → ((entry : CountedRow) → a ≡ some entry → tabular_row_key entry.row variables ≡ ok k)
    → 0 < count_of a
    → amount key variables (entry_of a b n) ≡ (if k == key then n else 0)
amount-entry_of key k variables none b n own there = ground arith
amount-entry_of key k variables (some entry) b n own there = ground (arith, own entry refl)

module _ (key k : JsString) (variables : List JsString) (left right : Option CountedRow)
    (later : List CountedRow × List CountedRow)
    (own_left : (entry : CountedRow)
      → left ≡ some entry
      → tabular_row_key entry.row variables ≡ ok k)
    (own_right : (entry : CountedRow)
      → right ≡ some entry
      → tabular_row_key entry.row variables ≡ ok k) where
  diff_one-added :
      amount key variables (diff_one left right later).0
      ≡ (if k == key then count_of right - count_of left else 0) + amount key variables later.0
  unfolding diff_one
  diff_one-added =
      let n = count_of right - count_of left in
      ground (
        arith,
        amount-entry_of key k variables right left n own_right,
        amount-append key variables (entry_of right left n) later.0,
      )

  diff_one-removed :
      amount key variables (diff_one left right later).1
      ≡ (if k == key then count_of left - count_of right else 0) + amount key variables later.1
  unfolding diff_one
  diff_one-removed =
      let n = count_of left - count_of right in
      ground (
        arith,
        amount-entry_of key k variables left right n own_left,
        amount-append key variables (entry_of left right n) later.1,
      )

module _ (key : JsString) (variables : List JsString)
    (lefts rights : OrderedMap JsString CountedRow) (keyed_left : Keyed variables lefts)
    (keyed_right : Keyed variables rights) where
  abbrev surplus : JsString → ℕ
  surplus k = count_of (OrderedMap.get k rights) - count_of (OrderedMap.get k lefts)

  abbrev deficit : JsString → ℕ
  deficit k = count_of (OrderedMap.get k lefts) - count_of (OrderedMap.get k rights)

  diff_keys-added :
      (ks : List JsString)
      → amount key variables (diff_keys ks lefts rights).0 ≡ total_over key (surplus key) ks
  unfolding diff_keys
  diff_keys-added [] = refl
  diff_keys-added (k ∷ ks) =
      diff_one-added key k variables (OrderedMap.get k lefts) (OrderedMap.get k rights)
        (diff_keys ks lefts rights) (keyed_left k) (keyed_right k)
      ∙ ap (λ n. (if k == key then surplus k else 0) + n) (diff_keys-added ks)
      ∙ total_over-cons key k surplus ks

  diff_keys-removed :
      (ks : List JsString)
      → amount key variables (diff_keys ks lefts rights).1 ≡ total_over key (deficit key) ks
  unfolding diff_keys
  diff_keys-removed [] = refl
  diff_keys-removed (k ∷ ks) =
      diff_one-removed key k variables (OrderedMap.get k lefts) (OrderedMap.get k rights)
        (diff_keys ks lefts rights) (keyed_left k) (keyed_right k)
      ∙ ap (λ n. (if k == key then deficit k else 0) + n) (diff_keys-removed ks)
      ∙ total_over-cons key k deficit ks

-- A number that is 0 for a key of neither map stands once over the sorted keys.
total_over-sorted_keys :
    (key : JsString) (x : ℕ) (lefts rights : OrderedMap JsString CountedRow)
    → (OrderedMap.get key lefts ≡ none → OrderedMap.get key rights ≡ none → x ≡ 0)
    → total_over key x (sorted_keys lefts rights) ≡ x
total_over-sorted_keys key x lefts rights absent = ground (
  arith,
  absent,
  total_over-sort_texts key x (distinct_texts (keys lefts ++ keys rights) []),
  total_over-keys key x lefts rights absent,
)

empty-Keyed : (variables : List JsString) → Keyed variables []
empty-Keyed variables key entry h = ground (arith, h, OrderedMap.get_empty {V = CountedRow} key)

-- For each key, the rows reported as added under it are as many as the right side has more than the
-- left one, the rows reported as removed as many as it has fewer, and the totals are the numbers of
-- rows, if no row has a blank node in a projected column.
pub tabular_diff-amount :
    (key : JsString) (left_rows right_rows : List TabularRow) (variables : List JsString)
    (diff : TabularDiffResult)
    → tabular_diff left_rows right_rows variables ≡ ok diff
    → (amount key variables diff.added
        ≡ occurrences key right_rows variables - occurrences key left_rows variables)
      × (amount key variables diff.removed
          ≡ occurrences key left_rows variables - occurrences key right_rows variables)
      × (diff.total_left ≡ length left_rows)
      × (diff.total_right ≡ length right_rows)
unfolding tabular_diff
tabular_diff-amount key left_rows right_rows variables diff h =
    let (lefts, el, next) = >>=-eq-ok (count_rows left_rows variables []) _ h in
    let (rights, er, last) = >>=-eq-ok (count_rows right_rows variables []) _ next in
    let keyed_left = count_rows-Keyed left_rows variables [] lefts (empty-Keyed variables) el in
    let keyed_right = count_rows-Keyed right_rows variables [] rights (empty-Keyed variables) er in
    let lc = count_rows-occurrences key left_rows variables [] lefts el in
    let rc = count_rows-occurrences key right_rows variables [] rights er in
    let none_there = OrderedMap.get_empty {V = CountedRow} key in
    let sorted = sorted_keys lefts rights in
    let added_keys = diff_keys-added key variables lefts rights keyed_left keyed_right sorted in
    let removed_keys = diff_keys-removed key variables lefts rights keyed_left keyed_right sorted in
    let more = count_of (OrderedMap.get key rights) - count_of (OrderedMap.get key lefts) in
    let fewer = count_of (OrderedMap.get key lefts) - count_of (OrderedMap.get key rights) in
    let added = total_over-sorted_keys key more lefts rights (λ a b. ground (arith, a, b)) in
    let removed = total_over-sorted_keys key fewer lefts rights (λ a b. ground (arith, a, b)) in
    (
      ground (arith, last, added_keys, added, lc, rc, none_there),
      ground (arith, last, removed_keys, removed, lc, rc, none_there),
      ground (arith, last),
      ground (arith, last),
    )
