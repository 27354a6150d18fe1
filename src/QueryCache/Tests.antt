-- ===== src/QueryCache/Tests.antt =====
-- Runs of the query cache and of the executor over it.
use sparqly.Base.{
  ℕ, ◌+◌, ◌≤◌, ◌≡◌, ◌≢◌, ◌⊎◌, refl, Bool, true, false, ◌&&◌, none, some, [], ◌∷◌, JsString, codes,
  arith, ltb, if◌then◌else◌, Result, ok, or_else, length, text_eq, nat_eq, ◌==◌,
}
use sparqly.OrderedMap
use sparqly.Sources.{absent, capped}
use sparqly.QueryCache.{
  Row, Rows, Database, CachedResult, OpenQueryCacheOptions, QueryCacheSetMeta, all_rows, sum_bytes,
  write_entry_txn, write_entry, read_entry, new_row, expired, schema_version_key,
  evict_to_source_cap, evict_to_global_cap, evict_to_budget, evict_victims,
}
use sparqly.QueryCache.Budget.{write_entry_txn_global}
use sparqly.QueryCache.Contents.{write_entry_contents, read_entry-write_entry}
use sparqly.QueryCache.Key.{prefixed_all, prefixed_all-injective, derive_cache_key, decimal_on}
use sparqly.QueryCache.Executor.{
  CachingConfig, normal, refresh, meta_for, store, ExecuteOptions, ExecuteResult, key_for, execute,
}
use sparqly.QueryCache.Executor.Disposition.{run, execute_holds}
use sparqly.QueryCache.Executor.Transparency.{
  Agrees, Coherent, execute-Coherent, execute_transparent,
}
use sparqly.QueryCache.Executor.OnDisk.{ValidDatabase, Stored, on_disk}

-- The order of the keys and the length of a text, for texts of ASCII.
abbrev key_before : JsString → JsString → Bool
key_before [] t = true
key_before (c ∷ s) [] = false
key_before (c ∷ s) (d ∷ t) = if ltb c d then true else (c == d) && key_before s t

abbrev key_a : JsString
key_a = codes "a"

abbrev key_b : JsString
key_b = codes "b"

abbrev docs : JsString
docs = codes "docs"

abbrev json : JsString
json = codes "json"

abbrev options : OpenQueryCacheOptions
options = record {
  schema_version = codes "2";
  ttl_ms = 100;
  max_bytes = capped 6;
  max_entry_bytes = none;
}

abbrev meta : QueryCacheSetMeta
meta = record {
  format = json;
  content_type = json;
  source_id = docs;
  source_max_bytes = capped 5;
  ttl_ms = none;
}

abbrev row_a : Row
row_a = record {
  body = codes "1234";
  format = json;
  content_type = json;
  source_id = docs;
  bytes = 4;
  ttl_ms = 100;
  inserted_at = 0;
  last_access_at = 0;
}

abbrev rows : Rows
rows = (key_a, row_a) ∷ []

abbrev db : Database
db = record { cache_meta = (schema_version_key, codes "1") ∷ []; entries = rows }

rows-Distinct : OrderedMap.Distinct rows
rows-Distinct = (OrderedMap.get_empty key_a, tt)

write_entry_txn_global_example :
    sum_bytes all_rows
      (write_entry_txn key_before length options 10 10 key_b (codes "567") meta rows)
    ≤ 6
write_entry_txn_global_example =
    write_entry_txn_global key_before length options 10 10 key_b (codes "567") meta 6 rows refl
      rows-Distinct

-- The older row makes room.
write_run :
    write_entry_txn key_before length options 10 10 key_b (codes "567") meta rows
    ≡ (key_b, new_row length options 10 (codes "567") meta) ∷ []
unfolding write_entry_txn evict_to_source_cap evict_to_global_cap evict_to_budget evict_victims
    OrderedMap.set OrderedMap.delete
write_run = refl

stored_row :
    OrderedMap.get key_b
      (write_entry key_before length options 10 10 key_b (codes "567") meta db).entries
    ≡ some (new_row length options 10 (codes "567") meta)
unfolding write_entry write_entry_txn evict_to_source_cap evict_to_global_cap evict_to_budget
    evict_victims OrderedMap.set OrderedMap.delete OrderedMap.get
stored_row = refl

write_entry_contents_example :
    ((key_b ≡ key_b)
      × (new_row length options 10 (codes "567") meta
          ≡ new_row length options 10 (codes "567") meta))
    ⊎ ((key_b ≢ key_b)
        × (OrderedMap.get key_b db.entries ≡ some (new_row length options 10 (codes "567") meta))
        × (expired 10 (new_row length options 10 (codes "567") meta) ≡ false))
write_entry_contents_example =
    write_entry_contents key_before length options 10 10 key_b (codes "567") meta db key_b
      (new_row length options 10 (codes "567") meta) rows-Distinct (omega arith) stored_row

abbrev small_meta : QueryCacheSetMeta
small_meta = record {
  format = json;
  content_type = json;
  source_id = docs;
  source_max_bytes = absent;
  ttl_ms = some 50;
}

roomy_source :
    evict_to_source_cap key_before docs absent
      (OrderedMap.set key_b (new_row length options 10 (codes "5") small_meta) rows)
    ≡ OrderedMap.set key_b (new_row length options 10 (codes "5") small_meta) rows
unfolding evict_to_source_cap
roomy_source = refl

roomy_global :
    evict_to_global_cap key_before
      (some 6)
      (OrderedMap.set key_b (new_row length options 10 (codes "5") small_meta) rows)
    ≡ OrderedMap.set key_b (new_row length options 10 (codes "5") small_meta) rows
unfolding evict_to_global_cap evict_to_budget OrderedMap.set
roomy_global = refl

read_entry-write_entry_example :
    (read_entry 20 20 key_b
      (write_entry key_before length options 10 10 key_b (codes "5") small_meta db)).0
    ≡ some (record { body = codes "5"; format = json; content_type = json })
read_entry-write_entry_example =
    read_entry-write_entry key_before length options 10 10 key_b (codes "5") small_meta 20 20 db
      (omega arith) (roomy_source, roomy_global)

prefixed_all-injective_example : key_a ∷ key_b ∷ [] ≡ key_a ∷ key_b ∷ []
prefixed_all-injective_example =
    prefixed_all-injective (key_a ∷ key_b ∷ []) (key_a ∷ key_b ∷ []) refl refl

-- Moving a character between parts changes the hashed text.
prefixed_all_run :
    prefixed_all (codes "a" ∷ codes "bc" ∷ []) ≢ prefixed_all (codes "ab" ∷ codes "c" ∷ [])
prefixed_all_run h = ground (
  arith,
  prefixed_all-injective (codes "a" ∷ codes "bc" ∷ []) (codes "ab" ∷ codes "c" ∷ []) refl h,
)

-- An executor over the store above, with a hash that does not collide.
abbrev no_hash : JsString → JsString
no_hash text = text

abbrev never : JsString → Bool
never query = false

abbrev echo : JsString → JsString → Result ℕ ExecuteResult
echo query format =
    ok (record { body = query; format = format; content_type = json; cache_status = none })

abbrev echo_delegate : JsString → ExecuteOptions → ℕ → Result ℕ ExecuteResult × ℕ
echo_delegate query o calls = (echo query (or_else o.format []), calls + 1)

abbrev config : CachingConfig
config = record {
  source_id = docs;
  source_max_bytes = capped 5;
  context_digest = [];
  freshness_token = [];
  schema_version = codes "2";
  entry_ttl_ms = none;
  mode = normal;
}

abbrev as_json : ExecuteOptions
as_json = record { format = some json; mutable = none; cache_mode = some refresh }

abbrev fresh_store : ValidDatabase
fresh_store = (record { cache_meta = []; entries = [] }, tt)

fresh_store-Coherent :
    Coherent no_hash never
      (on_disk key_before length options 1 1 1 1 ℕ)
      echo_delegate
      config
      echo
      fresh_store
fresh_store-Coherent query o r det (row, found, same) =
    absurd (ground (arith, found, OrderedMap.get_empty {V = Row} (key_for config no_hash query o)))

execute_transparent_example :
    Agrees
      (run no_hash never
        (on_disk key_before length options 1 1 1 1 ℕ)
        echo_delegate
        config
        key_a
        as_json
        fresh_store
        0).0
      (echo key_a json)
execute_transparent_example =
    execute_transparent no_hash never (on_disk key_before length options 1 1 1 1 ℕ) echo_delegate
      config echo (λ query o w det. refl) key_a as_json fresh_store 0 refl fresh_store-Coherent

abbrev answer_a : ExecuteResult
answer_a = record { body = key_a; format = json; content_type = json; cache_status = none }

abbrev found_a : CachedResult
found_a = record { body = key_a; format = json; content_type = json }

answer_a-Stored :
    Stored
      (key_for config no_hash key_a as_json)
      found_a
      (run no_hash never
        (on_disk key_before length options 1 1 1 1 ℕ)
        echo_delegate
        config
        key_a
        as_json
        fresh_store
        0).1.0
unfolding execute store write_entry write_entry_txn evict_to_source_cap evict_to_global_cap
    evict_to_budget OrderedMap.set OrderedMap.get derive_cache_key decimal_on
answer_a-Stored = (new_row length options 1 key_a (meta_for config answer_a), refl, refl)

execute_holds_example :
    Stored (key_for config no_hash key_a as_json) found_a fresh_store.0
    ⊎ ((a : ExecuteResult) × (never key_a ≡ false)
        × ((echo_delegate key_a as_json 0).0 ≡ ok a)
        × (key_for config no_hash key_a as_json ≡ key_for config no_hash key_a as_json)
        × (found_a ≡ record { body = a.body; format = a.format; content_type = a.content_type }))
execute_holds_example =
    execute_holds no_hash never (on_disk key_before length options 1 1 1 1 ℕ) echo_delegate config
      key_a (key_for config no_hash key_a as_json) as_json fresh_store 0 found_a answer_a-Stored

execute-Coherent_example :
    (a : ExecuteResult) × (echo key_a json ≡ ok a)
    × (found_a ≡ record { body = a.body; format = a.format; content_type = a.content_type })
execute-Coherent_example =
    execute-Coherent no_hash never (on_disk key_before length options 1 1 1 1 ℕ) echo_delegate
      config echo (λ a b h. h) (λ query o w det. refl) key_a as_json fresh_store 0
      fresh_store-Coherent key_a as_json found_a refl answer_a-Stored
