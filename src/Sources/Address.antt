-- ===== src/Sources/Address.antt =====
-- libs/core/src/lib/sources/address.ts: `@id` and `@id:ref`. Messages are left out: they follow
-- from the reason and the input.
pub mod RoundTrip
mod Tests
use sparqly.Base.{
  ℕ, zero, suc, ◌+◌, ◌≡◌, Bool, true, false, Option, none, some, List, [], ◌∷◌, ◌++◌, JsString,
  codes, nat_beq, if◌then◌else◌, Result, ok, err,
}

pub record ParsedSourceAddress : Type 0 where
  pub id : JsString
  pub ref : Option JsString

pub data Reason : Type 0 where
  missing_at_prefix empty_id empty_ref : Reason

abbrev pub extend_split :
    ℕ → ℕ → JsString → Option (JsString × JsString) → Option (JsString × JsString)
extend_split c d s (some (before, after)) = some (d ∷ before, after)
extend_split c d s none = if nat_beq d c then some ([], s) else none

-- The two slices round `body.lastIndexOf(c)`: what stands before it and after it.
unfoldable pub split_last : ℕ → JsString → Option (JsString × JsString)
split_last c [] = none
split_last c (d ∷ s) = extend_split c d s (split_last c s)

with_ref : JsString → JsString → Result Reason ParsedSourceAddress
with_ref [] ref = err empty_id
with_ref (c ∷ id) [] = err empty_ref
with_ref (c ∷ id) (d ∷ ref) = ok (record { id = c ∷ id; ref = some (d ∷ ref) })

without_ref : JsString → Result Reason ParsedSourceAddress
without_ref [] = err empty_id
without_ref (c ∷ id) = ok (record { id = c ∷ id; ref = none })

address_body : JsString → Option (JsString × JsString) → Result Reason ParsedSourceAddress
address_body body none = without_ref body
address_body body (some (id, ref)) = with_ref id ref

unfoldable pub parse_source_address : JsString → Result Reason ParsedSourceAddress
unfolding address_body with_ref without_ref
parse_source_address [] = err missing_at_prefix
parse_source_address (c ∷ body) =
    if nat_beq c b'@' then address_body body (split_last b':' body) else err missing_at_prefix

printed_body : JsString → Option JsString → JsString
printed_body id none = id
printed_body id (some ref) = id ++ b':' ∷ ref

-- How an address is written; the inverse of the parser.
unfoldable pub print_address : ParsedSourceAddress → JsString
unfolding printed_body
print_address a = b'@' ∷ printed_body a.id a.ref
