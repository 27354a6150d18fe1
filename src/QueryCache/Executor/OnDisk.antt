-- ===== src/QueryCache/Executor/OnDisk.antt =====
-- The on-disk store as the store of an executor: at each call, for the readings of the clock.
use sparqly.Base.{
  ℕ, ◌≡◌, sym, ap, subst, ◌∙◌, Bool, Option, some, JsString, ◌⊎◌, inl, inr, Result, ok, Bool-cases,
  arith, text_eq, leb, Option-cases,
}
use sparqly.OrderedMap
use sparqly.OrderedMap.{get-delete, get-set}
use sparqly.QueryCache.{
  Row, Database, CachedResult, OpenQueryCacheOptions, QueryCacheSetMeta, read_entry, write_entry,
  result_of, max_entry_bytes_of, touched, expired,
}
use sparqly.QueryCache.Contents.{
  IsValid, read_entry-IsValid, write_entry-IsValid, write_entry_contents,
}
use sparqly.QueryCache.Executor.{CacheStore}

-- A database whose keys are distinct.
abbrev pub ValidDatabase : Type 0
ValidDatabase = (db : Database) × IsValid db

abbrev pub Stored : JsString → CachedResult → Database → Type 0
Stored key r db = (row : Row) × (OrderedMap.get key db.entries ≡ some row) × (result_of row ≡ r)

pub read_entry-Stored :
    (now touched_at : ℕ) (key : JsString) (db : Database) (r : CachedResult)
    → (read_entry now touched_at key db).0 ≡ some r
    → Stored key r db
unfolding read_entry
read_entry-Stored now touched_at key db r h = elim (Option-cases (OrderedMap.get key db.entries)) [
  | inl e ↦ ground (arith, e)
  | inr (row, e) ↦ elim (Bool-cases (expired now row)) [
    | inl late ↦ ground (arith, e, late)
    | inr fresh ↦ (row, e, ground (arith, e, fresh))
  ]
]

pub read_entry_keeps :
    (now touched_at : ℕ) (key other : JsString) (db : Database) (r : CachedResult)
    → Stored other r (read_entry now touched_at key db).1
    → Stored other r db
unfolding read_entry
read_entry_keeps now touched_at key other db r (row, found, same) =
    elim (Option-cases (OrderedMap.get key db.entries)) [
      | inl e ↦ (row, ground (arith, e), same)
      | inr (row', e) ↦ elim (Bool-cases (expired now row')) [
        | inl late ↦ (row, ground (arith, e, late, get-delete key other db.entries), same)
        | inr fresh ↦
            let stored = get-set key other (touched touched_at row') db.entries in
            elim (Bool-cases (text_eq.beq key other)) [
              | inl is ↦ (
                row',
                ground (arith, e, is, text_eq.beq_iff key other),
                ground (arith, e, fresh, stored, is, found),
              )
              | inr differs ↦ (row, ground (arith, e, fresh, stored, differs, found), same)
            ]
      ]
    ]

pub write_entry_keeps :
    (key_before : JsString → JsString → Bool) (byte_length : JsString → ℕ)
    (options : OpenQueryCacheOptions) (purged_at at : ℕ) (key body other : JsString)
    (meta : QueryCacheSetMeta) (db : Database) (r : CachedResult)
    → IsValid db
    → Stored other r (write_entry key_before byte_length options purged_at at key body meta db)
    → ((other ≡ key)
        × (r ≡ record { body = body; format = meta.format; content_type = meta.content_type }))
      ⊎ Stored other r db
unfolding write_entry
write_entry_keeps key_before byte_length options purged_at at key body other meta db r d
      (row, found, same) =
    elim (Bool-cases (leb (byte_length body) (max_entry_bytes_of options))) [
      | inl small ↦
          elim (write_entry_contents key_before byte_length options purged_at at key body meta db
            other row d (ground (arith, small)) found) [
              | inl (is, new) ↦ inl (is, sym same ∙ ap result_of new)
              | inr (differs, before, fresh) ↦ inr (row, before, same)
            ]
      | inr large ↦ inr (row, ground (arith, large, found), same)
    ]

pub ok_injective : {X A : Type 0} (a b : A) → ◌≡◌ {A = Result X A} (ok a) (ok b) → a ≡ b
ok_injective a b h = ground (arith, h)

-- The two operations, with the proof that the keys stay distinct.
abbrev pub read_valid : ℕ → ℕ → JsString → ValidDatabase → Option CachedResult × ValidDatabase
read_valid now touched_at key (db, d) = (
  (read_entry now touched_at key db).0,
  ((read_entry now touched_at key db).1, read_entry-IsValid now touched_at key db d),
)

module _ (key_before : JsString → JsString → Bool) (byte_length : JsString → ℕ)
    (options : OpenQueryCacheOptions) (now touched_at purged_at at : ℕ) where
  abbrev pub write_valid : JsString → JsString → QueryCacheSetMeta → ValidDatabase → ValidDatabase
  write_valid key body meta (db, d) = (
    write_entry key_before byte_length options purged_at at key body meta db,
    write_entry-IsValid key_before byte_length options purged_at at key body meta db d,
  )

  -- The store fills the interface, whatever the clock reads.
  abbrev pub on_disk : (X : Type 0) → CacheStore X ValidDatabase
  on_disk X = record {
    get = λ key s. ok (read_valid now touched_at key s);
    set = λ key body meta s. ok (write_valid key body meta s);
    Holds = λ key r s. Stored key r s.0;
    get_holds = λ key s s' r h.
        read_entry-Stored now touched_at key s.0 r
          (ap (λ p. p.0) (ok_injective {X = X} (read_valid now touched_at key s) (some r, s') h));
    get_keeps = λ key other s s' found r h stored.
        let same =
          ap (λ p. p.1.0) (ok_injective {X = X} (read_valid now touched_at key s) (found, s') h) in
        read_entry_keeps now touched_at key other s.0 r (subst (Stored other r) (sym same) stored);
    set_keeps = λ key body other meta s s' r h stored.
        let same = ap (λ p. p.0) (ok_injective {X = X} (write_valid key body meta s) s' h) in
        write_entry_keeps key_before byte_length options purged_at at key body other meta s.0 r s.1
          (subst (Stored other r) (sym same) stored);
  }
