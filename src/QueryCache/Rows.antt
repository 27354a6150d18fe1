-- ===== src/QueryCache/Rows.antt =====
-- Sums, selections and orderings of the rows, and what deleting a row changes.
use sparqly.Base.{
  ℕ, ◌+◌, ◌≡◌, refl, ◌∙◌, Bool, Option, none, some, [], ◌∷◌, arith, if◌then◌else◌, JsString,
  text_eq, Bool-cases, inl, inr,
}
use sparqly.OrderedMap
use sparqly.OrderedMap.{OrderedMap, Distinct, Within}
use sparqly.QueryCache.{Row, Rows, where_row, sum_bytes, insert_by, order_by}

-- What one key contributes to a sum.
abbrev pub share : (Row → Bool) → Option Row → ℕ
share test none = 0
share test (some row) = if test row then row.bytes else 0

pub sum_bytes-delete :
    (test : Row → Bool) (key : JsString) (rows : Rows)
    → Distinct rows
    → sum_bytes test (OrderedMap.delete key rows) + share test (OrderedMap.get key rows)
      ≡ sum_bytes test rows
unfolding OrderedMap.get OrderedMap.delete
sum_bytes-delete test key [] d = omega arith
sum_bytes-delete test key ((k, row) ∷ rows) d = ground (
  arith,
  text_eq.beq_iff k key,
  sum_bytes-delete test key rows d.1,
  OrderedMap.delete_absent key rows,
)

pub sum_bytes-where_row :
    (test : Row → Bool) (rows : Rows) → sum_bytes test (where_row test rows) ≡ sum_bytes test rows
sum_bytes-where_row test [] = refl
sum_bytes-where_row test ((k, row) ∷ rows) = ground (arith, sum_bytes-where_row test rows)

sum_bytes-insert_by :
    (test : Row → Bool) (before : JsString × Row → JsString × Row → Bool) (key : JsString)
    (row : Row) (rows : Rows)
    → sum_bytes test (insert_by before (key, row) rows) ≡ sum_bytes test ((key, row) ∷ rows)
sum_bytes-insert_by test before key row [] = refl
sum_bytes-insert_by test before key row ((k, r) ∷ rows) =
    ground (arith, sum_bytes-insert_by test before key row rows)

pub sum_bytes-order_by :
    (test : Row → Bool) (before : JsString × Row → JsString × Row → Bool) (rows : Rows)
    → sum_bytes test (order_by before rows) ≡ sum_bytes test rows
sum_bytes-order_by test before [] = refl
sum_bytes-order_by test before ((k, row) ∷ rows) = ground (
  arith,
  sum_bytes-insert_by test before k row (order_by before rows),
  sum_bytes-order_by test before rows,
)

pub get-where_row :
    (test : Row → Bool) (key : JsString) (rows : Rows)
    → Distinct rows
    → OrderedMap.get key (where_row test rows) ≡ elim (OrderedMap.get key rows) [
      | none ↦ none
      | some row ↦ if test row then some row else none
    ]
unfolding OrderedMap.get
get-where_row test key [] d = refl
get-where_row test key ((k, row) ∷ rows) d =
    ground (arith, d.0, text_eq.beq_iff k key, get-where_row test key rows d.1)

pub where_row-Distinct :
    (test : Row → Bool) (rows : Rows) → Distinct rows → Distinct (where_row test rows)
where_row-Distinct test [] d = tt
where_row-Distinct test ((k, row) ∷ rows) d =
    ground (arith, d.0, where_row-Distinct test rows d.1, get-where_row test k rows d.1)

module _ (before : JsString × Row → JsString × Row → Bool) where
  get-insert_by :
      (key other : JsString) (row : Row) (rows : Rows)
      → OrderedMap.get key rows ≡ none
      → OrderedMap.get other (insert_by before (key, row) rows)
        ≡ OrderedMap.get other ((key, row) ∷ rows)
  unfolding OrderedMap.get
  get-insert_by key other row [] h = refl
  get-insert_by key other row ((k, r) ∷ rows) h = ground (
    arith,
    h,
    text_eq.beq_iff k other,
    text_eq.beq_iff key other,
    text_eq.beq_iff k key,
    get-insert_by key other row rows,
  )

  later :
      (key k : JsString) (r : Row) (rows : Rows)
      → OrderedMap.get key ((k, r) ∷ rows) ≡ none
      → OrderedMap.get key rows ≡ none
  unfolding OrderedMap.get
  later key k r rows h = ground arith

  apart :
      (key k : JsString) (row r : Row) (rows : Rows)
      → OrderedMap.get key ((k, r) ∷ rows) ≡ none
      → Distinct ((k, r) ∷ rows)
      → OrderedMap.get k ((key, row) ∷ rows) ≡ none
  unfolding OrderedMap.get
  apart key k row r rows h d = ground (arith, h, d.0, text_eq.beq_iff k key, text_eq.beq_iff key k)

  insert_by-Distinct :
      (key : JsString) (row : Row) (rows : Rows)
      → OrderedMap.get key rows ≡ none
      → Distinct rows
      → Distinct (insert_by before (key, row) rows)
  insert_by-Distinct key row [] h d = (h, tt)
  insert_by-Distinct key row ((k, r) ∷ rows) h d = elim (Bool-cases (before (key, row) (k, r))) [
    | inl e ↦ rw e (h, d)
    | inr e ↦
        let free = later key k r rows h in
        rw e (
          get-insert_by key k row rows free ∙ apart key k row r rows h d,
          insert_by-Distinct key row rows free d.1,
        )
  ]

  pub order_by-get :
      (other : JsString) (rows : Rows)
      → Distinct rows
      → OrderedMap.get other (order_by before rows) ≡ OrderedMap.get other rows
  unfolding OrderedMap.get
  order_by-get other [] d = refl
  order_by-get other ((k, row) ∷ rows) d = ground (
    arith,
    get-insert_by k other row (order_by before rows) (order_by-get k rows d.1 ∙ d.0),
    order_by-get other rows d.1,
  )

  pub order_by-Distinct : (rows : Rows) → Distinct rows → Distinct (order_by before rows)
  order_by-Distinct [] d = tt
  order_by-Distinct ((k, row) ∷ rows) d =
      insert_by-Distinct k row (order_by before rows) (order_by-get k rows d.1 ∙ d.0)
        (order_by-Distinct rows d.1)
