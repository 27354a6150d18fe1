-- ===== src/QueryCache/Executor/Disposition.antt =====
-- Which calls read and write the store, by the mode and the outcome.
use sparqly.Base.{
  ◌≡◌, refl, Bool, true, false, Option, none, some, JsString, ◌⊎◌, inl, inr, Result, ok, err,
  Bool-cases,
}
use sparqly.QueryCache.{CachedResult}
use sparqly.QueryCache.Executor.{
  CacheMode, normal, bypass, refresh, CacheStatus, bypassed, ExecuteOptions, ExecuteResult,
  ExecuteError, CacheStore, CachingConfig, mode_for, key_for, execute, tag_only, tag_and_store,
  after_get, in_mode, store, meta_for, after_set, is_bypass,
}

module _ {E X S W : Type 0} (sha256_hex : JsString → JsString)
    (query_is_non_deterministic : JsString → Bool) (cache : CacheStore X S)
    (delegate : JsString → ExecuteOptions → W → Result E ExecuteResult × W)
    (config : CachingConfig) where
  abbrev pub run :
      JsString → ExecuteOptions → S → W → Result (ExecuteError E X) ExecuteResult × S × W
  run = execute sha256_hex query_is_non_deterministic cache delegate config

  -- A query with a non-deterministic call never reads or writes the store, in any mode, `refresh`
  -- included: the answer is the delegate's, tagged as a bypass.
  execute_non_deterministic :
      (query : JsString) (options : ExecuteOptions) (s : S) (w : W)
      → query_is_non_deterministic query ≡ true
      → run query options s w
        ≡ tag_only sha256_hex query_is_non_deterministic cache delegate config bypassed s
            (delegate query options w)
  unfolding execute
  execute_non_deterministic query options s w h = rw h refl

  -- What is stored after the delegate was asked was stored before, or is its answer.
  tag_and_store_holds :
      (key other : JsString) (s : S) (r : CachedResult) (outcome : Result E ExecuteResult × W)
      → cache.Holds other r
          (tag_and_store sha256_hex query_is_non_deterministic cache delegate config key s
            outcome).1
      → cache.Holds other r s
        ⊎ ((a : ExecuteResult) × (outcome.0 ≡ ok a)
            × (other ≡ key)
            × (r ≡ record { body = a.body; format = a.format; content_type = a.content_type }))
  unfolding store
  tag_and_store_holds key other s r (err e, w) h = inl h
  tag_and_store_holds key other s r (ok a, w) h =
      by_set (cache.set key a.body (meta_for config a) s) refl h
    where
      by_set :
          (written : Result X S)
          → cache.set key a.body (meta_for config a) s ≡ written
          → cache.Holds other r
              (after_set sha256_hex query_is_non_deterministic cache delegate config s written)
          → cache.Holds other r s
            ⊎ ((b : ExecuteResult) × (◌≡◌ {A = Result E ExecuteResult} (ok a) (ok b))
                × (other ≡ key)
                × (r ≡ record { body = b.body; format = b.format; content_type = b.content_type }))
      by_set (err x) e h = inl h
      by_set (ok s') e h = elim (cache.set_keeps key a.body other (meta_for config a) s s' r e h) [
        | inl (same, row) ↦ inr (a, refl, same, row)
        | inr before ↦ inl before
      ]

  after_get_holds :
      (query other : JsString) (options : ExecuteOptions) (s : S) (w : W) (r : CachedResult)
      (read : Result X (Option CachedResult × S))
      → cache.get (key_for config sha256_hex query options) s ≡ read
      → cache.Holds other r
          (after_get sha256_hex query_is_non_deterministic cache delegate config query options s w
            read).1
      → cache.Holds other r s
        ⊎ ((a : ExecuteResult) × ((delegate query options w).0 ≡ ok a)
            × (other ≡ key_for config sha256_hex query options)
            × (r ≡ record { body = a.body; format = a.format; content_type = a.content_type }))
  after_get_holds query other options s w r (err x) e h = inl h
  after_get_holds query other options s w r (ok (some found, s')) e h =
      inl (cache.get_keeps (key_for config sha256_hex query options) other s s' (some found) r e h)
  after_get_holds query other options s w r (ok (none, s')) e h =
      elim (tag_and_store_holds (key_for config sha256_hex query options) other s' r
        (delegate query options w) h) [
          | inl before ↦
              inl (
                cache.get_keeps (key_for config sha256_hex query options) other s s' none r e
                  before)
          | inr answer ↦ inr answer
        ]

  in_mode_holds :
      (mode : CacheMode) (query other : JsString) (options : ExecuteOptions) (s : S) (w : W)
      (r : CachedResult)
      → cache.Holds other r
          (in_mode sha256_hex query_is_non_deterministic cache delegate config mode query options s
            w).1
      → cache.Holds other r s
        ⊎ ((a : ExecuteResult) × ((delegate query options w).0 ≡ ok a)
            × (other ≡ key_for config sha256_hex query options)
            × (r ≡ record { body = a.body; format = a.format; content_type = a.content_type }))
  in_mode_holds normal query other options s w r h =
      after_get_holds query other options s w r
        (cache.get (key_for config sha256_hex query options) s) refl h
  in_mode_holds bypass query other options s w r h =
      tag_and_store_holds (key_for config sha256_hex query options) other s r
        (delegate query options w) h
  in_mode_holds refresh query other options s w r h =
      tag_and_store_holds (key_for config sha256_hex query options) other s r
        (delegate query options w) h

  tag_only_store :
      (status : CacheStatus) (s : S) (outcome : Result E ExecuteResult × W)
      → (tag_only sha256_hex query_is_non_deterministic cache delegate config status s outcome).1
        ≡ s
  tag_only_store status s (ok a, w) = refl
  tag_only_store status s (err e, w) = refl

  -- What the store holds after a call it held before, unless it is the answer that the delegate gave
  -- in this call, under the key of this call, to a query that is deterministic. In particular a
  -- failure is never cached.
  pub execute_holds :
      (query other : JsString) (options : ExecuteOptions) (s : S) (w : W) (r : CachedResult)
      → cache.Holds other r (run query options s w).1
      → cache.Holds other r s
        ⊎ ((a : ExecuteResult) × (query_is_non_deterministic query ≡ false)
            × ((delegate query options w).0 ≡ ok a)
            × (other ≡ key_for config sha256_hex query options)
            × (r ≡ record { body = a.body; format = a.format; content_type = a.content_type }))
  unfolding execute
  execute_holds query other options s w r h = elim (Bool-cases (query_is_non_deterministic query)) [
    | inl nd ↦ inl (subst_store (tag_only_store bypassed s (delegate query options w)) (rw nd at h))
    | inr det ↦ elim (Bool-cases (is_bypass (mode_for config options))) [
      | inl b ↦
          inl
            (subst_store (tag_only_store bypassed s (delegate query options w)) (rw (det, b) at h))
      | inr n ↦
          elim (in_mode_holds (mode_for config options) query other options s w r
            (rw (det, n) at h)) [
              | inl before ↦ inl before
              | inr (a, answer, key, row) ↦ inr (a, det, answer, key, row)
            ]
    ]
  ]
    where
      subst_store : {s' : S} → s' ≡ s → cache.Holds other r s' → cache.Holds other r s
      subst_store same h = rw same at h
