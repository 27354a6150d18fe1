-- ===== src/Templates/Literals.antt =====
-- A literal that the substitution writes reads back as the value.
use sparqly.Base.{
  ℕ, ◌≡◌, refl, ◌∙◌, ap, Option, none, some, [], ◌∷◌, ◌++◌, JsString, if◌then◌else◌, nat_beq,
  nat_beq_iff, arith, ok, append_assoc, codes,
}
use sparqly.Json.{text}
use sparqly.Templates.{
  ParameterType, iri, string, integer, decimal, boolean, date, date_time, lang_string, literal,
  ParameterDeclaration, escape_string_literal, escape, escape_as, escape_typed,
}

-- The characters of a `STRING_LITERAL2` of SPARQL after the opening quote, an escape read as what it
-- stands for: what it denotes, and what follows the closing quote. A line break may not stand in it.
abbrev pub with_char : ℕ → Option (JsString × JsString) → Option (JsString × JsString)
with_char c none = none
with_char c (some (s, rest)) = some (c ∷ s, rest)

abbrev pub unescaped : ℕ → Option ℕ
unescaped c =
    if nat_beq c b't'
    then some 9
    else if nat_beq c b'n'
    then some 10
    else if nat_beq c b'r'
    then some 13
    else if nat_beq c b'b'
    then some 8
    else if nat_beq c b'f'
    then some 12
    else if nat_beq c b'"'
    then some b'"'
    else if nat_beq c b'\''
    then some b'\''
    else if nat_beq c b'\\'
    then some b'\\'
    else none

abbrev pub with_escape : Option ℕ → Option (JsString × JsString) → Option (JsString × JsString)
with_escape none later = none
with_escape (some c) later = with_char c later

pub read_literal : JsString → Option (JsString × JsString)
read_literal [] = none
read_literal (c ∷ []) = if nat_beq c b'"' then some ([], []) else none
read_literal (c ∷ d ∷ s) =
    let after_escape = with_escape (unescaped d) (read_literal s) in
    let after_char = with_char c (read_literal (d ∷ s)) in
    if nat_beq c b'"'
    then some ([], d ∷ s)
    else if nat_beq c b'\\'
    then after_escape
    else if nat_beq c 10
    then none
    else if nat_beq c 13
    then none
    else after_char

-- The escape in one pass.
abbrev escape_char : ℕ → JsString
escape_char c =
    if nat_beq c b'\\'
    then b'\\' ∷ b'\\' ∷ []
    else if nat_beq c b'"'
    then b'\\' ∷ b'"' ∷ []
    else if nat_beq c 10
    then b'\\' ∷ b'n' ∷ []
    else if nat_beq c 13
    then b'\\' ∷ b'r' ∷ []
    else if nat_beq c 9
    then b'\\' ∷ b't' ∷ []
    else c ∷ []

escape_string_literal-cons :
    (c : ℕ) (s : JsString)
    → escape_string_literal (c ∷ s) ≡ escape_char c ++ escape_string_literal s
unfolding escape_string_literal
escape_string_literal-cons c s = ground (
  arith,
  nat_beq_iff c b'\\',
  nat_beq_iff c b'"',
  nat_beq_iff c 10,
  nat_beq_iff c 13,
  nat_beq_iff c 9,
)

read-escape_char :
    (c : ℕ) (s value rest : JsString)
    → read_literal s ≡ some (value, rest)
    → read_literal (escape_char c ++ s) ≡ some (c ∷ value, rest)
unfolding read_literal
read-escape_char c [] value rest h = cc
read-escape_char c (d ∷ s) value rest h = ground (
  arith,
  h,
  nat_beq_iff c b'\\',
  nat_beq_iff c b'"',
  nat_beq_iff c 10,
  nat_beq_iff c 13,
  nat_beq_iff c 9,
)

-- Whatever the text holds, what is written between the quotes denotes it, and ends at the closing
-- quote.
pub read-escape_string_literal :
    (s rest : JsString) → read_literal (escape_string_literal s ++ b'"' ∷ rest) ≡ some (s, rest)
read-escape_string_literal [] [] = unfold read_literal in unfold escape_string_literal in refl
read-escape_string_literal [] (c ∷ rest) =
    unfold read_literal in unfold escape_string_literal in refl
read-escape_string_literal (c ∷ s) rest =
    let tail =
      read-escape_char c (escape_string_literal s ++ b'"' ∷ rest) s rest
        (read-escape_string_literal s rest) in
    ap read_literal (
      ap (λ x. x ++ b'"' ∷ rest) (escape_string_literal-cons c s)
      ∙ append_assoc (escape_char c) (escape_string_literal s) (b'"' ∷ rest))
    ∙ tail

-- The types whose values are written between quotes, with what follows the closing one for the
-- datatype of the declaration, if any: only a literal has one, and needs it.
abbrev pub suffix : ParameterType → Option JsString → Option JsString
suffix string datatype = some []
suffix date datatype = some (codes "^^xsd:date")
suffix date_time datatype = some (codes "^^xsd:dateTime")
suffix literal (some datatype) = some (codes "^^<" ++ datatype ++ codes ">")
suffix literal none = none
suffix iri datatype = none
suffix integer datatype = none
suffix decimal datatype = none
suffix boolean datatype = none
suffix lang_string datatype = none

-- A text bound to a string, a date, a dateTime, or a literal with a datatype is written as a quote,
-- and then what reads back as the text, followed by the suffix of its type alone.
pub escape-read :
    (decl : ParameterDeclaration) (after s : JsString)
    → suffix decl.type decl.datatype ≡ some after
    → (rest : JsString) × (escape decl (some (text s)) ≡ ok (b'"' ∷ rest))
      × (read_literal rest ≡ some (s, after))
escape-read decl after s h = by_type decl.type decl.datatype refl h
  where
    written : JsString
    written = escape_string_literal s ++ b'"' ∷ []

    reads : (tail : JsString) → read_literal (written ++ tail) ≡ some (s, tail)
    reads tail =
        ap read_literal (append_assoc (escape_string_literal s) (b'"' ∷ []) tail)
        ∙ read-escape_string_literal s tail

    ends :
        (tail : JsString)
        → some tail ≡ some after
        → ◌≡◌ {A = Option (JsString × JsString)} (some (s, tail)) (some (s, after))
    ends tail h = let same : tail ≡ after = cc in ap (λ x. some (s, x)) same

    typed :
        (datatype : JsString)
        → decl.datatype ≡ some datatype
        → escape_typed decl.name decl.datatype (some (text s))
          ≡ ok (b'"' ∷ written ++ (codes "^^<" ++ datatype ++ codes ">"))
    typed datatype d = rw d refl

    by_type :
        (t : ParameterType) (datatype : Option JsString)
        → decl.datatype ≡ datatype
        → suffix t datatype ≡ some after
        → (rest : JsString) × (escape_as t decl (some (text s)) ≡ ok (b'"' ∷ rest))
          × (read_literal rest ≡ some (s, after))
    by_type string o d h = (written, refl, read-escape_string_literal s [] ∙ ends [] h)
    by_type date o d h =
        (written ++ codes "^^xsd:date", refl, reads (codes "^^xsd:date") ∙ ends _ h)
    by_type date_time o d h =
        (written ++ codes "^^xsd:dateTime", refl, reads (codes "^^xsd:dateTime") ∙ ends _ h)
    by_type literal (some datatype) d h = (
      written ++ (codes "^^<" ++ datatype ++ codes ">"),
      typed datatype d,
      reads (codes "^^<" ++ datatype ++ codes ">") ∙ ends _ h,
    )
    by_type literal none d h = cc
    by_type iri o d h = cc
    by_type integer o d h = cc
    by_type decimal o d h = cc
    by_type boolean o d h = cc
    by_type lang_string o d h = cc
