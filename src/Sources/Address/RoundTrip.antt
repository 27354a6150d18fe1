-- ===== src/Sources/Address/RoundTrip.antt =====
-- Printing and parsing addresses are inverse to one another.
use sparqly.Base.{
  ℕ, ◌≡◌, refl, ◌≢◌, inl, inr, false, Option, none, some, [], ◌∷◌, ◌++◌, JsString, nat_beq,
  nat_beq_iff, arith, All, Bool-cases, ap, ok,
}
use sparqly.Sources.Address.{
  ParsedSourceAddress, split_last, extend_split, parse_source_address, print_address, printed_body,
  address_body, with_ref, without_ref,
}

-- A text in which `:` does not occur.
abbrev pub NoColon : JsString → Type 0
NoColon = All (λ c. nat_beq c b':' ≡ false)

-- A reference is not empty and has no colon; where there is none, the id has no colon.
abbrev pub IsRef : JsString → Option JsString → Type 0
IsRef id none = NoColon id
IsRef id (some ref) = (ref ≢ []) × NoColon ref

-- The addresses that the notation can express.
abbrev pub IsAddress : ParsedSourceAddress → Type 0
IsAddress a = (a.id ≢ []) × IsRef a.id a.ref

split_last-none : (s : JsString) → NoColon s → split_last b':' s ≡ none
unfolding split_last
split_last-none [] h = refl
split_last-none (c ∷ s) h = rw (split_last-none s h.1) (rw h.0 refl)

split_last-some :
    (id ref : JsString) → NoColon ref → split_last b':' (id ++ b':' ∷ ref) ≡ some (id, ref)
unfolding split_last
split_last-some [] ref h = rw (split_last-none ref h) refl
split_last-some (c ∷ id) ref h = rw (split_last-some id ref h) refl

-- What `lastIndexOf` finds.
abbrev SplitsAt : JsString → Option (JsString × JsString) → Type 0
SplitsAt s none = NoColon s
SplitsAt s (some (before, after)) = (s ≡ before ++ b':' ∷ after) × NoColon after

extend_split-SplitsAt :
    (d : ℕ) (s : JsString) (r : Option (JsString × JsString))
    → SplitsAt s r
    → SplitsAt (d ∷ s) (extend_split b':' d s r)
extend_split-SplitsAt d s (some (before, after)) h = (ap (◌∷◌ d) h.0, h.1)
extend_split-SplitsAt d s none h = elim (Bool-cases (nat_beq d b':')) [
  | inl e ↦ rw e (ground (arith, nat_beq_iff d b':'), h)
  | inr e ↦ rw e (e, h)
]

split_last-SplitsAt : (s : JsString) → SplitsAt s (split_last b':' s)
unfolding split_last
split_last-SplitsAt [] = tt
split_last-SplitsAt (d ∷ s) = extend_split-SplitsAt d s (split_last b':' s) (split_last-SplitsAt s)

-- A printed address parses to itself.
pub parse-print :
    (a : ParsedSourceAddress) → IsAddress a → parse_source_address (print_address a) ≡ ok a
unfolding parse_source_address print_address
parse-print a h = parse_body a.id a.ref h
  where
    parse_body :
        (id : JsString) (ref : Option JsString)
        → (id ≢ []) × IsRef id ref
        → address_body (printed_body id ref) (split_last b':' (printed_body id ref))
          ≡ ok (record { id = id; ref = ref })
    parse_body [] ref k = absurd (k.0 refl)
    parse_body (c ∷ id) none k = rw (split_last-none (c ∷ id) k.1) refl
    parse_body (c ∷ id) (some []) k = absurd (k.1.0 refl)
    parse_body (c ∷ id) (some (d ∷ ref)) k = rw (split_last-some (c ∷ id) (d ∷ ref) k.1.1) refl

body-print :
    (body : JsString) (r : Option (JsString × JsString)) (a : ParsedSourceAddress)
    → SplitsAt body r
    → address_body body r ≡ ok a
    → (print_address a ≡ b'@' ∷ body) × IsAddress a
unfolding address_body with_ref without_ref print_address
body-print [] none a s h = cc
body-print (c ∷ body) none a s h = ground arith
body-print body (some ([], ref)) a s h = cc
body-print body (some (c ∷ id, [])) a s h = cc
body-print body (some (c ∷ id, d ∷ ref)) a s h = ground arith

-- What the parser accepts is an address, and printing it gives the text back.
pub print-parse :
    (text : JsString) (a : ParsedSourceAddress)
    → parse_source_address text ≡ ok a
    → (print_address a ≡ text) × IsAddress a
unfolding parse_source_address
print-parse [] a h = cc
print-parse (c ∷ body) a h = elim (Bool-cases (nat_beq c b'@')) [
  | inl e ↦
      let (p, q) =
        body-print body (split_last b':' body) a (split_last-SplitsAt body) (ground (arith, e)) in
      (ground (arith, p, nat_beq_iff c b'@'), q)
  | inr e ↦ absurd (ground (arith, e))
]
