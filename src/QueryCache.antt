-- ===== src/QueryCache.antt =====
-- libs/core/src/lib/query-cache/cache-store.ts and ttl-policy.ts. The table `entries` is a map from
-- its primary key to the other columns; the byte length of a text in UTF-8 (of Node) and the order
-- of keys (SQLite's collation) are parameters; a clock reading is an argument.
pub mod Rows
pub mod Budget
pub mod Contents
pub mod Key
pub mod Executor
mod Tests
use sparqly.Base.{
  ℕ, ◌+◌, ◌-◌, ◌*◌, Bool, true, Option, none, some, List, [], ◌∷◌, if◌then◌else◌, ◌&&◌, ◌||◌, not,
  ◌==◌, JsString, codes, text_eq, ltb, leb, or_else, length, nat_eq, includes, map,
}
use sparqly.OrderedMap
use sparqly.OrderedMap.{OrderedMap}
use sparqly.Sources.{ByteCap, absent, unbounded, capped}

abbrev pub default_query_cache_ttl_ms : ℕ
default_query_cache_ttl_ms = 60 * 60 * 1000

abbrev pub default_query_cache_max_bytes : ℕ
default_query_cache_max_bytes = 256 * 1024 * 1024

abbrev pub default_query_cache_max_entry_bytes : ℕ
default_query_cache_max_entry_bytes = 32 * 1024 * 1024

abbrev pub resolve_query_cache_ttl_ms : Option ℕ → ℕ → ℕ
resolve_query_cache_ttl_ms per_source_ms global_default_ms = or_else per_source_ms global_default_ms

pub record CachedResult : Type 0 where
  pub body : JsString
  pub format : JsString
  pub content_type : JsString

pub record QueryCacheSetMeta : Type 0 where
  pub format : JsString
  pub content_type : JsString
  pub source_id : JsString
  pub source_max_bytes : ByteCap
  pub ttl_ms : Option ℕ

pub record OpenQueryCacheOptions : Type 0 where
  pub schema_version : JsString
  pub ttl_ms : ℕ
  pub max_bytes : ByteCap
  pub max_entry_bytes : Option ℕ

pub record Row : Type 0 where
  pub body : JsString
  pub format : JsString
  pub content_type : JsString
  pub source_id : JsString
  pub bytes : ℕ
  pub ttl_ms : ℕ
  pub inserted_at : ℕ
  pub last_access_at : ℕ

abbrev pub Rows : Type 0
Rows = OrderedMap JsString Row

pub record Database : Type 0 where
  pub cache_meta : OrderedMap JsString JsString
  pub entries : Rows

-- `WHERE test`
abbrev pub where_row : (Row → Bool) → Rows → Rows
where_row test [] = []
where_row test ((key, row) ∷ rows) =
    if test row then (key, row) ∷ where_row test rows else where_row test rows

-- `COALESCE(SUM(bytes), 0)` of the rows of a `WHERE test`
abbrev pub sum_bytes : (Row → Bool) → Rows → ℕ
sum_bytes test [] = 0
sum_bytes test ((key, row) ∷ rows) =
    if test row then row.bytes + sum_bytes test rows else sum_bytes test rows

abbrev pub all_rows : Row → Bool
all_rows row = true

abbrev pub of_source : JsString → Row → Bool
of_source source_id row = row.source_id == source_id

-- `ORDER BY`, for an order of the rows
abbrev pub insert_by : {A : Type 0} → (A → A → Bool) → A → List A → List A
insert_by before x [] = x ∷ []
insert_by before x (y ∷ ys) = if before x y then x ∷ y ∷ ys else y ∷ insert_by before x ys

abbrev pub order_by : {A : Type 0} → (A → A → Bool) → List A → List A
order_by before [] = []
order_by before (x ∷ xs) = insert_by before x (order_by before xs)

-- `? - inserted_at > ttl_ms`; a clock that went back gives a difference below 0, which is no
-- greater than a time to live.
abbrev pub expired : ℕ → Row → Bool
expired now row = ltb row.ttl_ms (now - row.inserted_at)

abbrev pub purge_expired : ℕ → Rows → Rows
purge_expired now rows = where_row (λ row. not (expired now row)) rows

pub record Victim : Type 0 where
  pub key : JsString
  pub bytes : ℕ

abbrev pub victims_of : Rows → List Victim
victims_of [] = []
victims_of ((key, row) ∷ rows) = record { key = key; bytes = row.bytes } ∷ victims_of rows

pub evict_victims : List Victim → ℕ → ℕ → Rows → Rows
evict_victims [] total budget rows = rows
evict_victims (victim ∷ victims) total budget rows =
    let rest =
      evict_victims victims (total - victim.bytes) budget (OrderedMap.delete victim.key rows) in
    if leb total budget then rows else rest

-- The default of `maxBytes`; `none` is an unbounded budget.
abbrev pub global_budget : ByteCap → Option ℕ
global_budget absent = some default_query_cache_max_bytes
global_budget unbounded = none
global_budget (capped n) = some n

abbrev pub max_entry_bytes_of : OpenQueryCacheOptions → ℕ
max_entry_bytes_of options = or_else options.max_entry_bytes default_query_cache_max_entry_bytes

-- The row that the upsert writes.
abbrev pub new_row : (JsString → ℕ) → OpenQueryCacheOptions → ℕ → JsString → QueryCacheSetMeta → Row
new_row byte_length options at body meta = record {
  body = body;
  format = meta.format;
  content_type = meta.content_type;
  source_id = meta.source_id;
  bytes = byte_length body;
  ttl_ms = or_else meta.ttl_ms options.ttl_ms;
  inserted_at = at;
  last_access_at = at;
}

module _ (key_before : JsString → JsString → Bool) where
  -- `ORDER BY last_access_at ASC, key ASC`
  abbrev pub older : JsString × Row → JsString × Row → Bool
  older (key, row) (other, row') =
      ltb row.last_access_at row'.last_access_at
      || (row.last_access_at == row'.last_access_at) && key_before key other

  -- `evictToGlobalBudget` is this on all rows, `evictToSourceBudget` on those of a source.
  pub evict_to_budget : (Row → Bool) → ℕ → Rows → Rows
  evict_to_budget test budget rows =
      let total = sum_bytes test rows in
      if leb total budget
      then rows
      else evict_victims (victims_of (order_by older (where_row test rows))) total budget rows

  pub evict_to_source_cap : JsString → ByteCap → Rows → Rows
  evict_to_source_cap source_id (capped cap) rows = evict_to_budget (of_source source_id) cap rows
  evict_to_source_cap source_id absent rows = rows
  evict_to_source_cap source_id unbounded rows = rows

  pub evict_to_global_cap : Option ℕ → Rows → Rows
  evict_to_global_cap none rows = rows
  evict_to_global_cap (some budget) rows = evict_to_budget all_rows budget rows

  module _ (byte_length : JsString → ℕ) (options : OpenQueryCacheOptions) where
    -- `writeEntryTxn`, with its two readings of the clock
    pub write_entry_txn : ℕ → ℕ → JsString → JsString → QueryCacheSetMeta → Rows → Rows
    write_entry_txn purged_at at key body meta rows =
        let swept = purge_expired purged_at rows in
        let written = OrderedMap.set key (new_row byte_length options at body meta) swept in
        let within_cap = evict_to_source_cap meta.source_id meta.source_max_bytes written in
        evict_to_global_cap (global_budget options.max_bytes) within_cap

    -- `set`
    pub write_entry : ℕ → ℕ → JsString → JsString → QueryCacheSetMeta → Database → Database
    write_entry purged_at at key body meta db =
        if ltb (max_entry_bytes_of options) (byte_length body) then db else record {
          cache_meta = db.cache_meta;
          entries = write_entry_txn purged_at at key body meta db.entries;
        }

abbrev pub with_entries : Rows → Database → Database
with_entries rows db = record { cache_meta = db.cache_meta; entries = rows }

abbrev pub result_of : Row → CachedResult
result_of row = record { body = row.body; format = row.format; content_type = row.content_type }

abbrev pub touched : ℕ → Row → Row
touched at row = record {
  body = row.body;
  format = row.format;
  content_type = row.content_type;
  source_id = row.source_id;
  bytes = row.bytes;
  ttl_ms = row.ttl_ms;
  inserted_at = row.inserted_at;
  last_access_at = at;
}

-- `get`, with its two readings of the clock
pub read_entry : ℕ → ℕ → JsString → Database → Option CachedResult × Database
read_entry now touched_at key db = elim (OrderedMap.get key db.entries) [
  | none ↦ (none, db)
  | some row ↦
      if expired now row then (none, with_entries (OrderedMap.delete key db.entries) db) else (
        some (result_of row),
        with_entries (OrderedMap.set key (touched touched_at row) db.entries) db,
      )
]

abbrev pub clear : Database → Database
clear db = with_entries [] db

abbrev pub schema_version_key : JsString
schema_version_key = codes "schema_version"

abbrev pub stamp : JsString → Database → Database
stamp schema_version db = record {
  cache_meta = OrderedMap.set schema_version_key schema_version db.cache_meta;
  entries = db.entries;
}

pub enforce_schema_version : JsString → Database → Database
enforce_schema_version schema_version db = elim (OrderedMap.get schema_version_key db.cache_meta) [
  | none ↦ stamp schema_version db
  | some value ↦ if value == schema_version then db else stamp schema_version (with_entries [] db)
]

pub record QueryCacheSourceStats : Type 0 where
  pub source_id : JsString
  pub entry_count : ℕ
  pub total_bytes : ℕ

pub record QueryCacheStats : Type 0 where
  pub entry_count : ℕ
  pub total_bytes : ℕ
  pub per_source : List QueryCacheSourceStats

abbrev pub source_ids : Rows → List JsString
source_ids [] = []
source_ids ((key, row) ∷ rows) =
    let rest = source_ids rows in if includes rest row.source_id then rest else row.source_id ∷ rest

abbrev pub source_stats : Rows → JsString → QueryCacheSourceStats
source_stats rows source_id = record {
  source_id = source_id;
  entry_count = length (where_row (of_source source_id) rows);
  total_bytes = sum_bytes (of_source source_id) rows;
}

-- `ORDER BY totalBytes DESC, source_id ASC`
abbrev pub larger :
    (JsString → JsString → Bool) → QueryCacheSourceStats → QueryCacheSourceStats → Bool
larger id_before s t =
    ltb t.total_bytes s.total_bytes
    || (s.total_bytes == t.total_bytes) && id_before s.source_id t.source_id

abbrev pub stats : (JsString → JsString → Bool) → Database → QueryCacheStats
stats id_before db = record {
  entry_count = length db.entries;
  total_bytes = sum_bytes all_rows db.entries;
  per_source = order_by (larger id_before) (map (source_stats db.entries) (source_ids db.entries));
}
