-- ===== src/QueryCache/Contents.antt =====
-- What the store holds after a write, what a read answers, and the schema stamp.
use sparqly.Base.{
  ℕ, ◌-◌, ◌≤◌, ◌<◌, ◌≡◌, ◌≢◌, ◌⊎◌, inl, inr, sym, Bool, true, false, none, some, [], arith,
  if◌then◌else◌, JsString, text_eq, ltb, Bool-cases, if_elim, Option-cases, or_else, ◌==◌, not,
}
use sparqly.OrderedMap
use sparqly.OrderedMap.{OrderedMap, Distinct, get-set, get-delete, delete-Distinct, set-Distinct}
use sparqly.QueryCache.{
  Row, Rows, Database, OpenQueryCacheOptions, QueryCacheSetMeta, sum_bytes, global_budget,
  max_entry_bytes_of, write_entry_txn, write_entry, new_row, purge_expired, expired, read_entry,
  result_of, touched, evict_to_source_cap, evict_to_global_cap, evict_to_budget,
  enforce_schema_version, schema_version_key,
}
use sparqly.QueryCache.Rows.{get-where_row}
use sparqly.QueryCache.Budget.{write_entry_txn-Shrinks, written_rows}

-- The keys of the table are distinct.
abbrev pub IsValid : Database → Type 0
IsValid db = Distinct db.entries

-- A read answers a body only from a row of the table under this very key that has not expired, and a
-- row that has expired is gone afterwards.
read_entry_lem :
    (now touched_at : ℕ) (key : JsString) (db : Database)
    → ((r : Row) × (OrderedMap.get key db.entries ≡ some r)
        × (expired now r ≡ false)
        × ((read_entry now touched_at key db).0 ≡ some (result_of r))
        × (OrderedMap.get key (read_entry now touched_at key db).1.entries
            ≡ some (touched touched_at r)))
      ⊎ (((read_entry now touched_at key db).0 ≡ none)
          × (OrderedMap.get key (read_entry now touched_at key db).1.entries ≡ none))
unfolding read_entry
read_entry_lem now touched_at key db = elim (Option-cases (OrderedMap.get key db.entries)) [
  | inl e ↦ inr (ground (arith, e), ground (arith, e))
  | inr (r, e) ↦ elim (Bool-cases (expired now r)) [
    | inl late ↦ inr (
      ground (arith, e, late),
      ground (arith, e, late, get-delete key key db.entries, text_eq.beq_iff key key),
    )
    | inr fresh ↦ inl (
      r,
      e,
      fresh,
      ground (arith, e, fresh),
      ground (
        arith,
        e,
        fresh,
        get-set key key (touched touched_at r) db.entries,
        text_eq.beq_iff key key,
      ),
    )
  ]
]

-- A read does not touch the other entries.
read_entry_frame :
    (now touched_at : ℕ) (key other : JsString) (db : Database)
    → key ≢ other
    → OrderedMap.get other (read_entry now touched_at key db).1.entries
      ≡ OrderedMap.get other db.entries
unfolding read_entry
read_entry_frame now touched_at key other db differ =
    elim (Option-cases (OrderedMap.get key db.entries)) [
      | inl e ↦ ground (arith, e)
      | inr (r, e) ↦ ground (
        arith,
        e,
        differ,
        get-delete key other db.entries,
        get-set key other (touched touched_at r) db.entries,
        text_eq.beq_iff key other,
      )
    ]

-- Reads, writes and the schema check keep the keys distinct.
pub read_entry-IsValid :
    (now touched_at : ℕ) (key : JsString) (db : Database)
    → IsValid db
    → IsValid (read_entry now touched_at key db).1
unfolding read_entry
read_entry-IsValid now touched_at key db d = elim (Option-cases (OrderedMap.get key db.entries)) [
  | inl e ↦ ground (arith, e, d)
  | inr (r, e) ↦ ground (
    arith,
    e,
    d,
    delete-Distinct key db.entries d,
    set-Distinct key (touched touched_at r) db.entries d,
  )
]

-- What survives of a sweep has not expired, and was there before.
get-purge_expired :
    (now : ℕ) (key : JsString) (rows : Rows) {r : Row}
    → Distinct rows
    → OrderedMap.get key (purge_expired now rows) ≡ some r
    → (OrderedMap.get key rows ≡ some r) × (expired now r ≡ false)
get-purge_expired now key rows {r} d h =
    ground (arith, h, get-where_row (λ row. not (expired now row)) key rows d)

module _ (key_before : JsString → JsString → Bool) (byte_length : JsString → ℕ)
    (options : OpenQueryCacheOptions) (purged_at at : ℕ) (key body : JsString)
    (meta : QueryCacheSetMeta) where
  abbrev pub after_write : Database → Database
  after_write db = write_entry key_before byte_length options purged_at at key body meta db

  -- A write keeps the keys distinct.
  pub write_entry-IsValid : (db : Database) → IsValid db → IsValid (after_write db)
  unfolding write_entry
  write_entry-IsValid db d =
      if_elim IsValid (ltb (max_entry_bytes_of options) (byte_length body)) d
        (write_entry_txn-Shrinks key_before byte_length options purged_at at key body meta
          db.entries d).0

  -- Whatever is stored after a write is the row that was written, under its key, or a row that was
  -- there before, unchanged, under another key and not expired when the write began. No eviction
  -- and no collision makes a key answer another entry's body.
  pub write_entry_contents :
      (db : Database) (other : JsString) (r : Row)
      → IsValid db
      → byte_length body ≤ max_entry_bytes_of options
      → OrderedMap.get other (after_write db).entries ≡ some r
      → ((other ≡ key) × (r ≡ new_row byte_length options at body meta))
        ⊎ ((other ≢ key)
            × (OrderedMap.get other db.entries ≡ some r)
            × (expired purged_at r ≡ false))
  unfolding write_entry
  write_entry_contents db other r d small h =
      let shrinks =
        write_entry_txn-Shrinks key_before byte_length options purged_at at key body meta db.entries
          d in
      let kept = shrinks.1 other r (ground (arith, small)) in
      let new = new_row byte_length options at body meta in
      let stored = get-set key other new (purge_expired purged_at db.entries) in
      elim (Bool-cases (text_eq.beq key other)) [
        | inl e ↦ inl (sym ((text_eq.beq_iff key other).0 e), ground (arith, e, kept, stored))
        | inr e ↦
            let swept : OrderedMap.get other (purge_expired purged_at db.entries) ≡ some r =
              ground (arith, e, kept, stored) in
            let (found, fresh) = get-purge_expired purged_at other db.entries d swept in
            inr (ground (arith, e, text_eq.beq_iff key other), found, fresh)
      ]

  -- A body over the ceiling of an entry leaves the store as it is.
  write_entry_oversize :
      (db : Database) → max_entry_bytes_of options < byte_length body → after_write db ≡ db
  unfolding write_entry
  write_entry_oversize db large = ground arith

  -- The caps of the store and of the source have room for the table with the new row.
  abbrev pub Roomy : Rows → Type 0
  Roomy written =
      (evict_to_source_cap key_before meta.source_id meta.source_max_bytes written ≡ written)
      × (evict_to_global_cap key_before (global_budget options.max_bytes) written ≡ written)

  -- A read after a write that evicts nothing answers the body, the format and the content type that
  -- were written as long as the time to live has not passed since, and nothing once it has.
  pub read_entry-write_entry :
      (now touched_at : ℕ) (db : Database)
      → byte_length body ≤ max_entry_bytes_of options
      → Roomy (written_rows key_before byte_length options purged_at at key body meta db.entries)
      → (read_entry now touched_at key (after_write db)).0 ≡ (
          if ltb (or_else meta.ttl_ms options.ttl_ms) (now - at)
          then none
          else some
              (record { body = body; format = meta.format; content_type = meta.content_type }))
  unfolding read_entry write_entry write_entry_txn
  read_entry-write_entry now touched_at db small (fits, fits') =
      let new = new_row byte_length options at body meta in
      ground (
        arith,
        small,
        fits,
        fits',
        get-set key key new (purge_expired purged_at db.entries),
        text_eq.beq_iff key key,
      )

-- A cap that is absent, or not below the bytes of the table, makes room.
evict_to_budget_roomy :
    (key_before : JsString → JsString → Bool) (test : Row → Bool) (budget : ℕ) (rows : Rows)
    → sum_bytes test rows ≤ budget
    → evict_to_budget key_before test budget rows ≡ rows
unfolding evict_to_budget
evict_to_budget_roomy key_before test budget rows h = ground arith

-- After the schema check the stamp is the version of the program, and an entry is kept exactly when
-- the stamp that was found, if any, was that version.
pub enforce_schema_version_lem :
    (version key : JsString) (db : Database)
    → (OrderedMap.get schema_version_key (enforce_schema_version version db).cache_meta
        ≡ some version)
      × (OrderedMap.get key (enforce_schema_version version db).entries ≡ (
          if elim (OrderedMap.get schema_version_key db.cache_meta) [
            | none ↦ true
            | some v ↦ v == version
          ]
          then OrderedMap.get key db.entries
          else none))
unfolding enforce_schema_version
enforce_schema_version_lem version key db =
    let stamped = get-set schema_version_key schema_version_key version db.cache_meta in
    elim (Option-cases (OrderedMap.get schema_version_key db.cache_meta)) [
      | inl e ↦ (
        ground (arith, e, stamped, text_eq.beq_iff schema_version_key schema_version_key),
        ground (arith, e),
      )
      | inr (v, e) ↦ (
        ground (
          arith,
          e,
          stamped,
          text_eq.beq_iff schema_version_key schema_version_key,
          text_eq.beq_iff v version,
        ),
        ground (arith, e, OrderedMap.get_empty {V = Row} key),
      )
    ]

-- Opening the store again with the same version changes nothing.
enforce_schema_version_again :
    (version : JsString) (db : Database)
    → enforce_schema_version version (enforce_schema_version version db)
      ≡ enforce_schema_version version db
enforce_schema_version_again version db =
    stamped_already version (enforce_schema_version version db)
      (enforce_schema_version_lem version [] db).0
  where
    stamped_already :
        (version : JsString) (db : Database)
        → OrderedMap.get schema_version_key db.cache_meta ≡ some version
        → enforce_schema_version version db ≡ db
    stamped_already version db e =
        unfold enforce_schema_version in ground (arith, e, text_eq.beq_iff version version)
