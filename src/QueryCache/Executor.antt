-- ===== src/QueryCache/Executor.antt =====
-- libs/core/src/lib/query-cache/caching-query-executor.ts and the part of wrap-with-query-cache.ts
-- that chooses an executor. The delegate acts on a world `W` of its own; the store is an
-- interface, whose operations may throw. `execute` and `executeResult` are one function here: they
-- differ in how a failure of the delegate is returned. Logging is left out.
pub mod Disposition
pub mod Transparency
pub mod OnDisk
use sparqly.Base.{
  ◌≡◌, Bool, true, false, Option, none, some, JsString, if◌then◌else◌, ◌⊎◌, inl, inr, ◌↔◌, Result,
  ok, err, or_else, ℕ, [],
}
use sparqly.Sources.{ByteCap, ParsedQueryCache, query_cache_cap, query_cache_ttl_ms}
use sparqly.QueryCache.{
  CachedResult, QueryCacheSetMeta, resolve_query_cache_ttl_ms, default_query_cache_ttl_ms,
}
use sparqly.QueryCache.Key.{derive_cache_key}

pub data CacheMode : Type 0 where
  normal bypass refresh : CacheMode

pub data CacheStatus : Type 0 where
  hit miss bypassed : CacheStatus

pub record ExecuteOptions : Type 0 where
  pub format : Option JsString
  pub mutable : Option Bool
  pub cache_mode : Option CacheMode

pub record ExecuteResult : Type 0 where
  pub body : JsString
  pub format : JsString
  pub content_type : JsString
  pub cache_status : Option CacheStatus

-- `{ ...result, cacheStatus }`
abbrev pub tagged : CacheStatus → ExecuteResult → ExecuteResult
tagged status result = record {
  body = result.body;
  format = result.format;
  content_type = result.content_type;
  cache_status = some status;
}

-- An error of the delegate, or an exception that a read of the store throws.
pub data ExecuteError (E X : Type 0) : Type 0 where
  delegate_failed : E → ExecuteError E X
  cache_threw : X → ExecuteError E X

-- What the executor uses of the store. A call that throws leaves the store as it was. `Holds` says
-- that an entry is stored under a key.
pub record CacheStore (X S : Type 0) : Type 1 where
  pub get : JsString → S → Result X (Option CachedResult × S)
  pub set : JsString → JsString → QueryCacheSetMeta → S → Result X S
  pub Holds : JsString → CachedResult → S → Type 0
  pub get_holds :
      (key : JsString) (s s' : S) (r : CachedResult) → get key s ≡ ok (some r, s') → Holds key r s
  pub get_keeps :
      (key other : JsString) (s s' : S) (found : Option CachedResult) (r : CachedResult)
      → get key s ≡ ok (found, s')
      → Holds other r s'
      → Holds other r s
  pub set_keeps :
      (key body other : JsString) (meta : QueryCacheSetMeta) (s s' : S) (r : CachedResult)
      → set key body meta s ≡ ok s'
      → Holds other r s'
      → ((other ≡ key)
          × (r ≡ record { body = body; format = meta.format; content_type = meta.content_type }))
        ⊎ Holds other r s

pub record CachingConfig : Type 0 where
  pub source_id : JsString
  pub source_max_bytes : ByteCap
  pub context_digest : JsString
  pub freshness_token : JsString
  pub schema_version : JsString
  pub entry_ttl_ms : Option ℕ
  pub mode : CacheMode

module _ (config : CachingConfig) where
  abbrev pub mode_for : ExecuteOptions → CacheMode
  mode_for options = or_else options.cache_mode config.mode

  abbrev pub meta_for : ExecuteResult → QueryCacheSetMeta
  meta_for result = record {
    format = result.format;
    content_type = result.content_type;
    source_id = config.source_id;
    source_max_bytes = config.source_max_bytes;
    ttl_ms = config.entry_ttl_ms;
  }

  abbrev pub key_for : (JsString → JsString) → JsString → ExecuteOptions → JsString
  key_for sha256_hex query options = derive_cache_key sha256_hex (record {
    source_id = config.source_id;
    query = query;
    format = or_else options.format [];
    context_digest = config.context_digest;
    freshness_token = config.freshness_token;
    schema_version = config.schema_version;
  })

abbrev pub is_bypass : CacheMode → Bool
is_bypass bypass = true
is_bypass normal = false
is_bypass refresh = false

module _ {E X S W : Type 0} (sha256_hex : JsString → JsString)
    (query_is_non_deterministic : JsString → Bool) (cache : CacheStore X S)
    (delegate : JsString → ExecuteOptions → W → Result E ExecuteResult × W)
    (config : CachingConfig) where
  abbrev pub bypasses : JsString → CacheMode → Bool
  bypasses query mode = if query_is_non_deterministic query then true else is_bypass mode

  -- `store`: an exception of the write is swallowed.
  abbrev pub after_set : S → Result X S → S
  after_set s (ok s') = s'
  after_set s (err x) = s

  unfoldable pub store : JsString → ExecuteResult → S → S
  store key result s = after_set s (cache.set key result.body (meta_for config result) s)

  -- What follows the call of the delegate.
  abbrev pub tag_only :
      CacheStatus → S → Result E ExecuteResult × W → Result (ExecuteError E X) ExecuteResult × S × W
  tag_only status s (ok result, w) = (ok (tagged status result), s, w)
  tag_only status s (err e, w) = (err (delegate_failed e), s, w)

  abbrev pub tag_and_store :
      JsString → S → Result E ExecuteResult × W → Result (ExecuteError E X) ExecuteResult × S × W
  tag_and_store key s (ok result, w) = (ok (tagged miss result), store key result s, w)
  tag_and_store key s (err e, w) = (err (delegate_failed e), s, w)

  abbrev pub recompute :
      JsString → ExecuteOptions → S → W → Result (ExecuteError E X) ExecuteResult × S × W
  recompute query options s w =
      tag_and_store (key_for config sha256_hex query options) s (delegate query options w)

  abbrev pub served : CachedResult → ExecuteResult
  served found = record {
    body = found.body;
    format = found.format;
    content_type = found.content_type;
    cache_status = some hit;
  }

  -- What follows the read of the store.
  abbrev pub after_get :
      JsString
      → ExecuteOptions
      → S
      → W
      → Result X (Option CachedResult × S)
      → Result (ExecuteError E X) ExecuteResult × S × W
  after_get query options s w (ok (some found, s')) = (ok (served found), s', w)
  after_get query options s w (ok (none, s')) = recompute query options s' w
  after_get query options s w (err x) = (err (cache_threw x), s, w)

  abbrev pub in_mode :
      CacheMode
      → JsString
      → ExecuteOptions
      → S
      → W
      → Result (ExecuteError E X) ExecuteResult × S × W
  in_mode normal query options s w =
      after_get query options s w (cache.get (key_for config sha256_hex query options) s)
  in_mode refresh query options s w = recompute query options s w
  in_mode bypass query options s w = recompute query options s w

  unfoldable pub execute :
      JsString → ExecuteOptions → S → W → Result (ExecuteError E X) ExecuteResult × S × W
  execute query options s w =
      let mode = mode_for config options in
      if bypasses query mode
      then tag_only bypassed s (delegate query options w)
      else in_mode mode query options s w

-- `wrapWithQueryCache`: the executor to build over the store, or nothing for the bare engine. The
-- token is computed first; the store is opened only if that succeeds.
abbrev pub config_with :
    ParsedQueryCache → JsString → JsString → JsString → CacheMode → JsString → CachingConfig
config_with query_cache source_id schema_version context_digest mode token = record {
  source_id = source_id;
  source_max_bytes = query_cache_cap (some query_cache);
  context_digest = context_digest;
  freshness_token = token;
  schema_version = schema_version;
  entry_ttl_ms = some (
      resolve_query_cache_ttl_ms (query_cache_ttl_ms (some query_cache))
        default_query_cache_ttl_ms);
  mode = mode;
}

abbrev pub with_opened : {X S : Type 0} → CachingConfig → Result X S → Option (CachingConfig × S)
with_opened config (ok cache) = some (config, cache)
with_opened config (err x) = none

abbrev pub wrap_with_query_cache :
    {X S : Type 0}
    → ParsedQueryCache
    → JsString
    → JsString
    → JsString
    → CacheMode
    → Result X JsString
    → (Unit {0} → Result X S)
    → Option (CachingConfig × S)
wrap_with_query_cache query_cache source_id schema_version context_digest mode (err x) open_cache =
    none
wrap_with_query_cache query_cache source_id schema_version context_digest mode (ok token)
      open_cache =
    with_opened (config_with query_cache source_id schema_version context_digest mode token)
      (open_cache tt)
