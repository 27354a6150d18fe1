-- ===== src/QueryCache/Executor/Transparency.antt =====
-- The cache is transparent for a delegate whose answer is a function of the query and the format.
use sparqly.Base.{
  ◌≡◌, refl, sym, ap, ◌∙◌, Bool, false, Option, none, some, JsString, [], ◌∷◌, inl, inr, Result, ok,
  err, arith, or_else, if_elim,
}
use sparqly.QueryCache.{CachedResult}
use sparqly.QueryCache.Key.{derive_cache_key, prefixed_all-injective}
use sparqly.QueryCache.Executor.{
  CacheMode, normal, bypass, refresh, CacheStatus, bypassed, ExecuteOptions, ExecuteResult,
  ExecuteError, delegate_failed, cache_threw, CacheStore, CachingConfig, mode_for, key_for, execute,
  tag_only, tag_and_store, after_get, in_mode, is_bypass,
}
use sparqly.QueryCache.Executor.Disposition.{run, execute_holds}

-- Keys of one executor that are equal come from one query and one format.
key_for-injective :
    (sha256_hex : JsString → JsString)
    → ((a b : JsString) → sha256_hex a ≡ sha256_hex b → a ≡ b)
    → (config : CachingConfig) (query query' : JsString) (options options' : ExecuteOptions)
    → key_for config sha256_hex query options ≡ key_for config sha256_hex query' options'
    → (query ≡ query') × (or_else options.format [] ≡ or_else options'.format [])
unfolding derive_cache_key
key_for-injective sha256_hex injective config query query' options options' h =
    let parts =
      prefixed_all-injective
        (config.schema_version
          ∷ config.source_id
          ∷ or_else options.format []
          ∷ config.context_digest
          ∷ config.freshness_token
          ∷ query
          ∷ [])
        (config.schema_version
          ∷ config.source_id
          ∷ or_else options'.format []
          ∷ config.context_digest
          ∷ config.freshness_token
          ∷ query'
          ∷ [])
        refl (injective _ _ h) in
    ground (arith, parts)

-- The same body, format and content type, or the same error; a read of the store that throws is no
-- answer.
abbrev pub Agrees :
    {E X : Type 0} → Result (ExecuteError E X) ExecuteResult → Result E ExecuteResult → Type 0
Agrees (ok a) (ok b) = (a.body ≡ b.body) × (a.format ≡ b.format) × (a.content_type ≡ b.content_type)
Agrees (ok a) (err e) = ⊥
Agrees (err (delegate_failed e)) (ok b) = ⊥
Agrees (err (delegate_failed e)) (err e') = e ≡ e'
Agrees (err (cache_threw x)) answer = Unit

module _ {E X S W : Type 0} (sha256_hex : JsString → JsString)
    (query_is_non_deterministic : JsString → Bool) (cache : CacheStore X S)
    (delegate : JsString → ExecuteOptions → W → Result E ExecuteResult × W) (config : CachingConfig)
    (answer : JsString → JsString → Result E ExecuteResult) where
  -- What is stored under the key of a deterministic query is the answer to it.
  abbrev pub Coherent : S → Type 0
  Coherent s =
      (query : JsString) (options : ExecuteOptions) (r : CachedResult)
      → query_is_non_deterministic query ≡ false
      → cache.Holds (key_for config sha256_hex query options) r s
      → (a : ExecuteResult) × (answer query (or_else options.format []) ≡ ok a)
        × (r ≡ record { body = a.body; format = a.format; content_type = a.content_type })

  -- The delegate's answer does not depend on its world, nor on the options but the format.
  abbrev pub Answers : Type 0
  Answers =
      (query : JsString) (options : ExecuteOptions) (w : W)
      → query_is_non_deterministic query ≡ false
      → (delegate query options w).0 ≡ answer query (or_else options.format [])

  -- A call keeps the store coherent, if the hash does not collide.
  pub execute-Coherent :
      ((a b : JsString) → sha256_hex a ≡ sha256_hex b → a ≡ b)
      → Answers
      → (query : JsString) (options : ExecuteOptions) (s : S) (w : W) → Coherent s
      → Coherent
          (run sha256_hex query_is_non_deterministic cache delegate config query options s w).1
  execute-Coherent injective answers query options s w coherent other options' r det h =
      elim (execute_holds sha256_hex query_is_non_deterministic cache delegate config query
        (key_for config sha256_hex other options') options s w r h) [
          | inl before ↦ coherent other options' r det before
          | inr (a, det', given, same, row) ↦
              let (queries, formats) =
                key_for-injective sha256_hex injective config other query options' options same in
              (a, rw (queries, formats) (sym (answers query options w det') ∙ given), row)
        ]

  tag_and_store-Agrees :
      (key : JsString) (s : S) (outcome : Result E ExecuteResult × W)
      (expected : Result E ExecuteResult)
      → outcome.0 ≡ expected
      → Agrees
          (tag_and_store sha256_hex query_is_non_deterministic cache delegate config key s
            outcome).0
          expected
  tag_and_store-Agrees key s (ok a, w) (ok b) h = ground (arith, h)
  tag_and_store-Agrees key s (ok a, w) (err e) h = cc
  tag_and_store-Agrees key s (err e, w) (ok b) h = cc
  tag_and_store-Agrees key s (err e, w) (err e') h = ground (arith, h)

  tag_only-Agrees :
      (status : CacheStatus) (s : S) (outcome : Result E ExecuteResult × W)
      (expected : Result E ExecuteResult)
      → outcome.0 ≡ expected
      → Agrees
          (tag_only sha256_hex query_is_non_deterministic cache delegate config status s outcome).0
          expected
  tag_only-Agrees status s (ok a, w) (ok b) h = ground (arith, h)
  tag_only-Agrees status s (ok a, w) (err e) h = cc
  tag_only-Agrees status s (err e, w) (ok b) h = cc
  tag_only-Agrees status s (err e, w) (err e') h = ground (arith, h)

  after_get-Agrees :
      Answers
      → (query : JsString) (options : ExecuteOptions) (s : S) (w : W)
      → query_is_non_deterministic query ≡ false
      → Coherent s
      → (read : Result X (Option CachedResult × S))
      → cache.get (key_for config sha256_hex query options) s ≡ read
      → Agrees
          (after_get sha256_hex query_is_non_deterministic cache delegate config query options s w
            read).0
          (answer query (or_else options.format []))
  after_get-Agrees answers query options s w det coherent (err x) e = tt
  after_get-Agrees answers query options s w det coherent (ok (none, s')) e =
      tag_and_store-Agrees (key_for config sha256_hex query options) s' (delegate query options w) _
        (answers query options w det)
  after_get-Agrees answers query options s w det coherent (ok (some found, s')) e =
      let (a, given, row) =
        coherent query options found det
          (cache.get_holds (key_for config sha256_hex query options) s s' found e) in
      rw given (ap (λ r. r.body) row, ap (λ r. r.format) row, ap (λ r. r.content_type) row)

  in_mode-Agrees :
      Answers
      → (mode : CacheMode) (query : JsString) (options : ExecuteOptions) (s : S) (w : W)
      → query_is_non_deterministic query ≡ false
      → Coherent s
      → Agrees
          (in_mode sha256_hex query_is_non_deterministic cache delegate config mode query options s
            w).0
          (answer query (or_else options.format []))
  in_mode-Agrees answers normal query options s w det coherent =
      after_get-Agrees answers query options s w det coherent
        (cache.get (key_for config sha256_hex query options) s) refl
  in_mode-Agrees answers bypass query options s w det coherent =
      tag_and_store-Agrees (key_for config sha256_hex query options) s (delegate query options w) _
        (answers query options w det)
  in_mode-Agrees answers refresh query options s w det coherent =
      tag_and_store-Agrees (key_for config sha256_hex query options) s (delegate query options w) _
        (answers query options w det)

  -- In every mode, a deterministic query over a coherent store is answered with the body, the format
  -- and the content type, or the error, that the delegate gives without a cache, unless a read of
  -- the store throws.
  pub execute_transparent :
      Answers
      → (query : JsString) (options : ExecuteOptions) (s : S) (w : W)
      → query_is_non_deterministic query ≡ false
      → Coherent s
      → Agrees
          (run sha256_hex query_is_non_deterministic cache delegate config query options s w).0
          (answer query (or_else options.format []))
  unfolding execute
  execute_transparent answers query options s w det coherent =
      let expected = answer query (or_else options.format []) in
      rw det (
        if_elim {A = Result (ExecuteError E X) ExecuteResult × S × W}
          (λ outcome. Agrees outcome.0 expected) (is_bypass (mode_for config options))
          (tag_only-Agrees bypassed s (delegate query options w) expected
            (answers query options w det))
          (in_mode-Agrees answers (mode_for config options) query options s w det coherent))
