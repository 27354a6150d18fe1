-- ===== src/QueryCache/Key.antt =====
-- libs/core/src/lib/query-cache/cache-key.ts: the text that is hashed to a key, and that it
-- determines its parts. The hash is Node's, a parameter; it stands for SHA-256 over the UTF-8 form.
use sparqly.Base.{
  ℕ, zero, suc, ◌+◌, ◌-◌, ◌*◌, ◌/◌, ◌%◌, ◌≤◌, ◌<◌, ◌≡◌, refl, sym, ap, ◌∙◌, List, [], ◌∷◌, ◌++◌,
  arith, if◌then◌else◌, JsString, ltb, length, All, All-append, append_assoc,
}

pub record CacheKeyInput : Type 0 where
  pub source_id : JsString
  pub query : JsString
  pub format : JsString
  pub context_digest : JsString
  pub freshness_token : JsString
  pub schema_version : JsString

abbrev pub field_sep : ℕ
field_sep = 0

-- `String(n)`; the fuel n is enough, since the last digit is dropped at each step.
unfoldable pub decimal_on : ℕ → ℕ → JsString
decimal_on zero n = (48 + n % 10) ∷ []
decimal_on (suc fuel) n =
    let rest = decimal_on fuel (n / 10) in
    if ltb n 10 then (48 + n) ∷ [] else rest ++ ((48 + n % 10) ∷ [])

abbrev pub decimal : ℕ → JsString
decimal n = decimal_on n n

-- One round of the loop of `deriveCacheKey`.
abbrev pub prefixed : JsString → JsString
prefixed part = decimal (length part) ++ (field_sep ∷ part ++ (field_sep ∷ []))

abbrev pub prefixed_all : List JsString → JsString
prefixed_all [] = []
prefixed_all (part ∷ parts) = prefixed part ++ prefixed_all parts

abbrev pub key_parts : CacheKeyInput → List JsString
key_parts input =
    input.schema_version ∷ input.source_id ∷ input.format ∷ input.context_digest
    ∷ input.freshness_token ∷ input.query ∷ []

unfoldable pub derive_cache_key : (JsString → JsString) → CacheKeyInput → JsString
derive_cache_key sha256_hex input = sha256_hex (prefixed_all (key_parts input))

-- Reading digits back.
abbrev value_on : ℕ → JsString → ℕ
value_on acc [] = acc
value_on acc (d ∷ ds) = value_on (acc * 10 + (d - 48)) ds

value_on-append :
    (acc d : ℕ) (ds : JsString) → value_on acc (ds ++ (d ∷ [])) ≡ value_on acc ds * 10 + (d - 48)
value_on-append acc d [] = refl
value_on-append acc d (x ∷ ds) = value_on-append (acc * 10 + (x - 48)) d ds

value_on-decimal_on : (fuel n : ℕ) → n ≤ fuel → value_on 0 (decimal_on fuel n) ≡ n
unfolding decimal_on
value_on-decimal_on zero n h = ground arith
value_on-decimal_on (suc fuel) n h =
    let smaller : n / 10 ≤ fuel = omega arith in
    let digits = value_on-append 0 (48 + n % 10) (decimal_on fuel (n / 10)) in
    let front = value_on-decimal_on fuel (n / 10) smaller in ground arith

decimal-injective : (m n : ℕ) → decimal m ≡ decimal n → m ≡ n
decimal-injective m n h =
    sym (value_on-decimal_on m m (omega arith))
    ∙ ap (value_on 0) h
    ∙ value_on-decimal_on n n (omega arith)

abbrev NotSep : ℕ → Type 0
NotSep c = 0 < c

decimal_on-NotSep : (fuel n : ℕ) → All NotSep (decimal_on fuel n)
unfolding decimal_on
decimal_on-NotSep zero n = ground arith
decimal_on-NotSep (suc fuel) n =
    let both =
      All-append NotSep (decimal_on fuel (n / 10)) ((48 + n % 10) ∷ [])
        (decimal_on-NotSep fuel (n / 10)) (omega arith, tt) in
    ground arith

-- The first separator ends the digits,
cut_at_sep :
    (xs ys : JsString) (r s : JsString)
    → All NotSep xs
    → All NotSep ys
    → xs ++ (field_sep ∷ r) ≡ ys ++ (field_sep ∷ s)
    → (xs ≡ ys) × (r ≡ s)
cut_at_sep [] [] r s hx hy h = ground arith
cut_at_sep [] (y ∷ ys) r s hx hy h = ground arith
cut_at_sep (x ∷ xs) [] r s hx hy h = ground arith
cut_at_sep (x ∷ xs) (y ∷ ys) r s hx hy h =
    let (same, rest) = cut_at_sep xs ys r s hx.1 hy.1 (ground arith) in ground arith

-- and the length ends the part, whatever it contains.
cut_at_length :
    (xs ys : JsString) (r s : JsString)
    → length xs ≡ length ys
    → xs ++ (field_sep ∷ r) ≡ ys ++ (field_sep ∷ s)
    → (xs ≡ ys) × (r ≡ s)
cut_at_length [] [] r s l h = ground arith
cut_at_length [] (y ∷ ys) r s l h = ground arith
cut_at_length (x ∷ xs) [] r s l h = ground arith
cut_at_length (x ∷ xs) (y ∷ ys) r s l h =
    let (same, rest) = cut_at_length xs ys r s (omega arith) (ground arith) in ground arith

prefixed-append :
    (part rest : JsString)
    → prefixed part ++ rest ≡ decimal (length part) ++ (field_sep ∷ (part ++ (field_sep ∷ rest)))
prefixed-append part rest =
    append_assoc (decimal (length part)) (field_sep ∷ part ++ (field_sep ∷ [])) rest
    ∙ ap (λ t. decimal (length part) ++ (field_sep ∷ t)) (append_assoc part (field_sep ∷ []) rest)

prefixed-injective : (p q r s : JsString) → prefixed p ++ r ≡ prefixed q ++ s → (p ≡ q) × (r ≡ s)
prefixed-injective p q r s h =
    let (digits, rest) =
      cut_at_sep (decimal (length p)) (decimal (length q)) (p ++ (field_sep ∷ r))
        (q ++ (field_sep ∷ s)) (decimal_on-NotSep (length p) (length p))
        (decimal_on-NotSep (length q) (length q))
        (sym (prefixed-append p r) ∙ h ∙ prefixed-append q s) in
    cut_at_length p q r s (decimal-injective (length p) (length q) digits) rest

-- The hashed text of a key has one reading: texts that are equal come from lists of parts that are
-- equal, whatever characters the parts contain, when the lists have the same length.
pub prefixed_all-injective :
    (ps qs : List JsString) → length ps ≡ length qs → prefixed_all ps ≡ prefixed_all qs → ps ≡ qs
prefixed_all-injective [] [] l h = refl
prefixed_all-injective [] (q ∷ qs) l h = ground arith
prefixed_all-injective (p ∷ ps) [] l h = ground arith
prefixed_all-injective (p ∷ ps) (q ∷ qs) l h =
    let (same, rest) = prefixed-injective p q (prefixed_all ps) (prefixed_all qs) h in
    let tails = prefixed_all-injective ps qs (omega arith) rest in ground arith
