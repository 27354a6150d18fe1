-- ===== src/QueryCache/Budget.antt =====
-- What a write leaves under the byte budgets, and that the keys stay distinct.
use sparqly.Base.{
  ℕ, ◌-◌, ◌≤◌, ◌≡◌, refl, ◌∙◌, Bool, true, false, Option, none, some, List, [], ◌∷◌, arith,
  JsString, text_eq, leb, if_elim,
}
use sparqly.OrderedMap
use sparqly.OrderedMap.{OrderedMap, Distinct, get-delete, delete-Distinct, set-Distinct}
use sparqly.Sources.{ByteCap, absent, unbounded, capped}
use sparqly.QueryCache.{
  Row, Rows, Victim, OpenQueryCacheOptions, QueryCacheSetMeta, where_row, sum_bytes, order_by,
  victims_of, evict_victims, evict_to_budget, evict_to_source_cap, evict_to_global_cap, older,
  all_rows, of_source, global_budget, write_entry_txn, new_row, purge_expired,
}
use sparqly.QueryCache.Rows.{
  sum_bytes-delete, sum_bytes-where_row, sum_bytes-order_by, get-where_row, where_row-Distinct,
  order_by-get, order_by-Distinct,
}

-- `after` has rows of `before` only.
abbrev pub Shrinks : Rows → Rows → Type 0
Shrinks after before =
    Distinct after
    × ((key : JsString) (row : Row)
        → OrderedMap.get key after ≡ some row
        → OrderedMap.get key before ≡ some row)
    × ((test : Row → Bool) → sum_bytes test after ≤ sum_bytes test before)

Shrinks-refl : (rows : Rows) → Distinct rows → Shrinks rows rows
Shrinks-refl rows d = (d, λ key row h. h, λ test. omega arith)

Shrinks-trans : (a b c : Rows) → Shrinks a b → Shrinks b c → Shrinks a c
Shrinks-trans a b c (d, sub, le) (d', sub', le') =
    (d, λ key row h. sub' key row (sub key row h), λ test. omega (arith, le test, le' test))

delete-Shrinks :
    (key : JsString) (rows : Rows) → Distinct rows → Shrinks (OrderedMap.delete key rows) rows
delete-Shrinks key rows d = (
  delete-Distinct key rows d,
  λ other row h. ground (arith, h, get-delete key other rows),
  λ test. omega (arith, sum_bytes-delete test key rows d),
)

-- The rows `vs` are rows of `rows` that pass the test.
abbrev pub Chosen : (Row → Bool) → Rows → Rows → Type 0
Chosen test vs rows =
    (key : JsString) (row : Row)
    → OrderedMap.get key vs ≡ some row
    → (OrderedMap.get key rows ≡ some row) × (test row ≡ true)

order_by-Chosen :
    (before : JsString × Row → JsString × Row → Bool) (test : Row → Bool) (rows : Rows)
    → Distinct rows
    → Chosen test (order_by before (where_row test rows)) rows
order_by-Chosen before test rows d key row h = ground (
  arith,
  h,
  order_by-get before key (where_row test rows) (where_row-Distinct test rows d),
  get-where_row test key rows d,
)

head-Chosen :
    (test : Row → Bool) (k : JsString) (v : Row) (vs rows : Rows)
    → Chosen test ((k, v) ∷ vs) rows
    → (OrderedMap.get k rows ≡ some v) × (test v ≡ true)
unfolding OrderedMap.get
head-Chosen test k v vs rows chosen = chosen k v (ground (arith, text_eq.beq_iff k k))

tail-Chosen :
    (test : Row → Bool) (k : JsString) (v : Row) (vs rows : Rows)
    → OrderedMap.get k vs ≡ none
    → Chosen test ((k, v) ∷ vs) rows
    → Chosen test vs (OrderedMap.delete k rows)
unfolding OrderedMap.get
tail-Chosen test k v vs rows free chosen key row h =
    let differs : text_eq.beq k key ≡ false = ground (arith, text_eq.beq_iff k key) in
    let (found, passes) = chosen key row (rw differs h) in
    (ground (arith, get-delete k key rows), passes)

-- The loop with its running total, which is the sum of what is left.
evict_victims-sum_bytes :
    (test : Row → Bool) (total budget : ℕ) (vs rows : Rows)
    → Distinct vs
    → Distinct rows
    → Chosen test vs rows
    → sum_bytes test rows ≡ total
    → sum_bytes test vs ≡ total
    → sum_bytes test (evict_victims (victims_of vs) total budget rows) ≤ budget
unfolding evict_victims
evict_victims-sum_bytes test total budget [] rows dv d chosen same left = omega (arith, same)
evict_victims-sum_bytes test total budget ((k, v) ∷ vs) rows dv d chosen same left =
    let (found, passes) = head-Chosen test k v vs rows chosen in
    let rest =
      evict_victims-sum_bytes test (total - v.bytes) budget vs (OrderedMap.delete k rows) dv.1
        (delete-Distinct k rows d) (tail-Chosen test k v vs rows dv.0 chosen)
        (ground (arith, sum_bytes-delete test k rows d)) (ground arith) in
    ground arith

-- Evicting only takes rows away.
evict_victims-Shrinks :
    (vs : List Victim) (total budget : ℕ) (rows : Rows)
    → Distinct rows
    → Shrinks (evict_victims vs total budget rows) rows
unfolding evict_victims
evict_victims-Shrinks [] total budget rows d = Shrinks-refl rows d
evict_victims-Shrinks (v ∷ vs) total budget rows d =
    if_elim (λ after. Shrinks after rows) (leb total budget) (Shrinks-refl rows d)
      (Shrinks-trans (evict_victims vs (total - v.bytes) budget (OrderedMap.delete v.key rows))
        (OrderedMap.delete v.key rows) rows
        (evict_victims-Shrinks vs (total - v.bytes) budget (OrderedMap.delete v.key rows)
          (delete-Distinct v.key rows d))
        (delete-Shrinks v.key rows d))

evict_to_budget-Shrinks :
    (key_before : JsString → JsString → Bool) (test : Row → Bool) (budget : ℕ) (rows : Rows)
    → Distinct rows
    → Shrinks (evict_to_budget key_before test budget rows) rows
unfolding evict_to_budget
evict_to_budget-Shrinks key_before test budget rows d =
    if_elim (λ after. Shrinks after rows) (leb (sum_bytes test rows) budget) (Shrinks-refl rows d)
      (evict_victims-Shrinks (victims_of (order_by (older key_before) (where_row test rows)))
        (sum_bytes test rows) budget rows d)

evict_to_budget-sum_bytes :
    (key_before : JsString → JsString → Bool) (test : Row → Bool) (budget : ℕ) (rows : Rows)
    → Distinct rows
    → sum_bytes test (evict_to_budget key_before test budget rows) ≤ budget
unfolding evict_to_budget
evict_to_budget-sum_bytes key_before test budget rows d =
    let chosen = where_row test rows in
    let distinct : Distinct chosen = where_row-Distinct test rows d in
    let evicted =
      evict_victims-sum_bytes test (sum_bytes test rows) budget (order_by (older key_before) chosen)
        rows (order_by-Distinct (older key_before) chosen distinct) d
        (order_by-Chosen (older key_before) test rows d) refl
        (sum_bytes-order_by test (older key_before) chosen ∙ sum_bytes-where_row test rows) in
    ground arith

module _ (key_before : JsString → JsString → Bool) (byte_length : JsString → ℕ)
    (options : OpenQueryCacheOptions) (purged_at at : ℕ) (key body : JsString)
    (meta : QueryCacheSetMeta) where
  -- The table between the insertion and the evictions.
  abbrev pub written_rows : Rows → Rows
  written_rows rows =
      OrderedMap.set key (new_row byte_length options at body meta) (purge_expired purged_at rows)

  written_rows-Distinct : (rows : Rows) → Distinct rows → Distinct (written_rows rows)
  written_rows-Distinct rows d =
      set-Distinct key _ (purge_expired purged_at rows) (where_row-Distinct _ rows d)

  source_cap-Shrinks :
      (source_id : JsString) (cap : ByteCap) (rows : Rows)
      → Distinct rows
      → Shrinks (evict_to_source_cap key_before source_id cap rows) rows
  unfolding evict_to_source_cap
  source_cap-Shrinks source_id absent rows d = Shrinks-refl rows d
  source_cap-Shrinks source_id unbounded rows d = Shrinks-refl rows d
  source_cap-Shrinks source_id (capped cap) rows d =
      evict_to_budget-Shrinks key_before (of_source source_id) cap rows d

  global_cap-Shrinks :
      (budget : Option ℕ) (rows : Rows)
      → Distinct rows
      → Shrinks (evict_to_global_cap key_before budget rows) rows
  unfolding evict_to_global_cap
  global_cap-Shrinks none rows d = Shrinks-refl rows d
  global_cap-Shrinks (some budget) rows d =
      evict_to_budget-Shrinks key_before all_rows budget rows d

  -- The two evictions only take rows away from the written table.
  pub write_entry_txn-Shrinks :
      (rows : Rows)
      → Distinct rows
      → Shrinks
          (write_entry_txn key_before byte_length options purged_at at key body meta rows)
          (written_rows rows)
  unfolding write_entry_txn
  write_entry_txn-Shrinks rows d =
      let written = written_rows rows in
      let capped_rows =
        evict_to_source_cap key_before meta.source_id meta.source_max_bytes written in
      let first =
        source_cap-Shrinks meta.source_id meta.source_max_bytes written
          (written_rows-Distinct rows d) in
      Shrinks-trans (evict_to_global_cap key_before (global_budget options.max_bytes) capped_rows)
        capped_rows written
        (global_cap-Shrinks (global_budget options.max_bytes) capped_rows first.0) first

  source_cap_sum :
      (cap : ℕ) (rows : Rows)
      → meta.source_max_bytes ≡ capped cap
      → Distinct rows
      → sum_bytes
          (of_source meta.source_id)
          (evict_to_source_cap key_before meta.source_id meta.source_max_bytes rows)
        ≤ cap
  unfolding evict_to_source_cap
  source_cap_sum cap rows h d =
      rw h (evict_to_budget-sum_bytes key_before (of_source meta.source_id) cap rows d)

  global_cap_sum :
      (budget : ℕ) (rows : Rows)
      → global_budget options.max_bytes ≡ some budget
      → Distinct rows
      → sum_bytes all_rows (evict_to_global_cap key_before (global_budget options.max_bytes) rows)
        ≤ budget
  unfolding evict_to_global_cap
  global_cap_sum budget rows h d =
      rw h (evict_to_budget-sum_bytes key_before all_rows budget rows d)

  -- After a transaction that stores an entry, the table as a whole is under the store's budget,
  -- when the store has one.
  pub write_entry_txn_global :
      (budget : ℕ) (rows : Rows)
      → global_budget options.max_bytes ≡ some budget
      → Distinct rows
      → sum_bytes all_rows
          (write_entry_txn key_before byte_length options purged_at at key body meta rows)
        ≤ budget
  unfolding write_entry_txn
  write_entry_txn_global budget rows h d =
      global_cap_sum budget _ h
        (source_cap-Shrinks meta.source_id meta.source_max_bytes (written_rows rows)
          (written_rows-Distinct rows d)).0

  -- After a transaction that stores an entry of a source with a byte cap, the rows of that source are
  -- under the cap; the eviction for the global budget that follows does not undo it.
  pub write_entry_txn_source :
      (n : ℕ) (rows : Rows)
      → meta.source_max_bytes ≡ capped n
      → Distinct rows
      → sum_bytes
          (of_source meta.source_id)
          (write_entry_txn key_before byte_length options purged_at at key body meta rows)
        ≤ n
  unfolding write_entry_txn
  write_entry_txn_source n rows h d =
      let written = written_rows rows in
      let capped_rows =
        evict_to_source_cap key_before meta.source_id meta.source_max_bytes written in
      let first =
        source_cap-Shrinks meta.source_id meta.source_max_bytes written
          (written_rows-Distinct rows d) in
      omega (
        arith,
        source_cap_sum n written h (written_rows-Distinct rows d),
        (global_cap-Shrinks (global_budget options.max_bytes) capped_rows first.0).2
            (of_source meta.source_id),
      )
