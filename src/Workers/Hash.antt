-- ===== src/Workers/Hash.antt =====
-- The assignment of sources to workers stays in range.
use Prim.Native.Nat.{bit_xor}
use sparqly.Base.{ℕ, ◌*◌, ◌%◌, ◌^◌, ◌<◌, [], ◌∷◌, JsString, arith}
use sparqly.Workers.{fnv1a_from, fnv1a, hash_sticky}

fnv1a_from-lt : (hash : ℕ) (s : JsString) → hash < 2 ^ 32 → fnv1a_from hash s < 2 ^ 32
unfolding fnv1a_from
fnv1a_from-lt hash [] h = h
fnv1a_from-lt hash (c ∷ s) h =
    fnv1a_from-lt ((bit_xor hash c * 0x01000193) % 2 ^ 32) s (omega arith)

-- A hash is a 32-bit number, and the index of a source is that of a worker, if there are workers.
pub hash_sticky_bounds :
    (worker_count : ℕ) (source_id : JsString)
    → 0 < worker_count
    → (fnv1a source_id < 2 ^ 32) × (hash_sticky worker_count source_id < worker_count)
unfolding fnv1a hash_sticky
hash_sticky_bounds worker_count source_id h =
    (fnv1a_from-lt 0x811c9dc5 source_id (omega arith), ground arith)
