-- ===== src/Templates/Tests.antt =====
-- Runs of the binding of parameters.
use sparqly.Base.{
  text_eq, inl, inr, true, false, ◌≡◌, refl, some, [], ◌∷◌, ◌++◌, JsString, codes, ok, err,
}
use sparqly.OrderedMap
use sparqly.Json.{text, number, natural, sequence, value_then, no_values}
use sparqly.Templates.{
  ParameterType, iri, string, integer, date, literal, lang_string, one_one, one_many, zero_one,
  ParameterDeclaration, ParameterBindings, validate, substitute, escape, escape_string_literal,
  cardinality_violation,
}
use sparqly.Templates.Literals.{read_literal, read-escape_string_literal, escape-read}
use sparqly.Templates.Accepted.{HasDatatype, substitute-validate}
use sparqly.Templates.Unguarded.{Infix, single, iri_verbatim}

abbrev span : ParameterDeclaration
span = record (single (codes "span") literal) { datatype = some (codes "http://x/duration") }

abbrev years : ParameterDeclaration
years = record (single (codes "year") integer) { cardinality = one_many }

abbrev bindings : ParameterBindings
bindings =
    (
      codes "year",
      sequence (value_then (number (natural 2024)) (value_then (number (natural 5)) no_values)),
    )
    ∷ (codes "span", text (codes "P1D"))
    ∷ []

abbrev optional : ParameterDeclaration
optional = record (single (codes "c") iri) { cardinality = zero_one }

-- The shorter column repeats its last value.
substitute_run :
    substitute (codes "ASK {}") (years ∷ optional ∷ span ∷ []) bindings
    ≡ ok (
        codes
          "VALUES (?year ?span) { (2024 \"P1D\"^^<http://x/duration>) (5 \"P1D\"^^<http://x/duration>) }\nASK {}")
unfolding substitute escape_string_literal OrderedMap.get sparqly.Templates.display
substitute_run = refl

validate_run : validate (years ∷ []) [] ≡ err (cardinality_violation (codes "year") one_many)
unfolding validate OrderedMap.get
validate_run = refl

read-escape_string_literal_example :
    read_literal (escape_string_literal (codes "a\"b\\\n") ++ b'"' ∷ codes " .")
    ≡ some (codes "a\"b\\\n", codes " .")
read-escape_string_literal_example = read-escape_string_literal (codes "a\"b\\\n") (codes " .")

abbrev since_when : ParameterDeclaration
since_when = single (codes "since") date

escape-read_example :
    (rest : JsString) × (escape since_when (some (text (codes "\">"))) ≡ ok (b'"' ∷ rest))
    × (read_literal rest ≡ some (codes "\">", codes "^^xsd:date"))
escape-read_example = escape-read since_when (codes "^^xsd:date") (codes "\">") refl

span-HasDatatype : HasDatatype span
span-HasDatatype e = (codes "http://x/duration", refl)

years-HasDatatype : HasDatatype years
years-HasDatatype e = cc

substitute-validate_example :
    (before : JsString) × (substitute (codes "ASK {}") (years ∷ span ∷ []) bindings
      ≡ ok (before ++ codes "ASK {}"))
unfolding validate OrderedMap.get
substitute-validate_example =
    substitute-validate (codes "ASK {}") (years ∷ span ∷ []) bindings
      (years-HasDatatype, (span-HasDatatype, tt)) refl

abbrev about : ParameterDeclaration
about = single (codes "about") iri

about-HasDatatype : HasDatatype about
about-HasDatatype e = cc

abbrev about_a : ParameterBindings
about_a = (codes "year", number (natural 2024)) ∷ (codes "about", text (codes "http://x/a")) ∷ []

iri_verbatim_example :
    (validate
        (years ∷ about ∷ [])
        (OrderedMap.set (codes "about") (text (codes "x> 5) } ?s ?p ?o #")) about_a)
      ≡ ok tt)
    × ((rows : JsString) × (substitute
            (codes "ASK {}")
            (years ∷ about ∷ [])
            (OrderedMap.set (codes "about") (text (codes "x> 5) } ?s ?p ?o #")) about_a)
          ≡ ok (rows ++ codes "ASK {}"))
        × Infix (codes "<x> 5) } ?s ?p ?o #>") rows)
unfolding validate OrderedMap.get
iri_verbatim_example =
    iri_verbatim about (codes "x> 5) } ?s ?p ?o #") (codes "ASK {}") (years ∷ about ∷ []) about_a
      (years-HasDatatype, (about-HasDatatype, tt)) (inr (inl refl)) refl
      ((λ h. absurd (names_differ h)), ((λ h. refl), tt)) refl
  where
    names_differ : codes "year" ≡ codes "about" → ⊥
    names_differ h =
        let met : false ≡ true = (text_eq.beq_iff (codes "year") (codes "about")).1 h in cc
