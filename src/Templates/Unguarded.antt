-- ===== src/Templates/Unguarded.antt =====
-- What an accepted binding may do to the query.
use sparqly.Base.{
  ℕ, zero, suc, ◌≤◌, ◌≡◌, refl, none, some, List, [], ◌∷◌, ◌++◌, JsString, codes, Result, ok,
  >>=-eq-ok, text_eq, map_result, In, All, inl, inr, arith, append_assoc, append-nil, map, subst,
  sym, ap, ◌∙◌, Bool-cases, if_elim,
}
use sparqly.OrderedMap
use sparqly.OrderedMap.{get-set}
use sparqly.Json.{text, sequence, value_then, no_values}
use sparqly.Templates.{
  ParameterType, iri, string, ParameterCardinality, one_one, ParameterDeclaration,
  ParameterBindings, validate, substitute, escape_string_literal, join, Column, row_count, upto,
  present_columns, collect_values, check_values, is_omitted, row, cell, clause, column_name,
}
use sparqly.Templates.Accepted.{
  HasDatatype, IsColumn, present_columns-IsColumn, cells-ok, row-ok, map_result-ok,
}

-- A parameter that takes exactly one value.
abbrev pub single : JsString → ParameterType → ParameterDeclaration
single name type = record {
  name = name;
  type = type;
  cardinality = one_one;
  datatype = none;
  label = none;
  description = none;
  default_value = none;
  allowed = none;
}

-- The query with one column, and the texts of its rows.
abbrev pub with_rows : JsString → JsString → JsString → JsString
with_rows name rows body =
    codes "VALUES (" ++ (b'?' ∷ name) ++ codes ") { " ++ rows ++ codes " }\n" ++ body

abbrev pub bound_twice : JsString → JsString → JsString → ParameterBindings
bound_twice name first second =
    (name, sequence (value_then (text first) (value_then (text second) no_values))) ∷ []

-- A text that stands in another.
abbrev pub Infix : JsString → JsString → Type 0
Infix p s = (before : JsString) × (after : JsString) × (s ≡ before ++ (p ++ after))

Infix-within : (p s before after : JsString) → Infix p s → Infix p (before ++ (s ++ after))
Infix-within p s before after (b, a, e) = (
  before ++ b,
  a ++ after,
  rw e (
      ground (
        arith,
        append_assoc before b (p ++ (a ++ after)),
        append_assoc b (p ++ a) after,
        append_assoc p a after,
      )),
)

join-Infix : (w : JsString) (ws : List JsString) → In w ws → Infix w (join ws)
join-Infix w [] i = absurd i
join-Infix w (v ∷ []) (inl same) = ([], [], ground (arith, same, append-nil w))
join-Infix w (v ∷ []) (inr there) = absurd there
join-Infix w (v ∷ u ∷ ws) (inl same) = ([], b' ' ∷ join (u ∷ ws), ground (arith, same))
join-Infix w (v ∷ u ∷ ws) (inr there) =
    let (b, a, e) = join-Infix w (u ∷ ws) there in
    (v ++ b' ' ∷ b, a, rw e (ground (arith, append_assoc v (b' ' ∷ b) (w ++ a))))

map_result-In :
    {A B E : Type 0} (f : A → Result E B) (xs : List A) (ys : List B) (x : A) (y : B)
    → map_result f xs ≡ ok ys
    → In x xs
    → f x ≡ ok y
    → In y ys
map_result-In f [] ys x y h i e = absurd i
map_result-In {B = B} {E = E} f (z ∷ xs) ys x y h i e =
    let (first, e0, h1) = >>=-eq-ok (f z) _ h in
    let (later, e1, h2) = >>=-eq-ok (map_result f xs) _ h1 in
    let same : first ∷ later ≡ ys = cc in
    subst (In y) same (elim i [
      | inl is ↦
          let twice : ◌≡◌ {A = Result E B} (ok first) (ok y) = sym e0 ∙ ap f is ∙ e in
          inl (by_ok first y twice)
      | inr there ↦ inr (map_result-In f xs later x y e1 there e)
    ])
  where
    by_ok : (a b : B) → ◌≡◌ {A = Result E B} (ok a) (ok b) → a ≡ b
    by_ok a b k = cc

row_count-positive : (cs : List Column) → 1 ≤ row_count cs
row_count-positive [] = omega arith
row_count-positive (c ∷ cs) = ground (arith, row_count-positive cs)

In-upto : (n i : ℕ) → 1 ≤ n → In i (upto n i)
In-upto zero i h = absurd (omega arith)
In-upto (suc n) i h = inl refl

-- Each parameter of this name is an IRI.
abbrev pub AreIris : JsString → List ParameterDeclaration → Type 0
AreIris name = All (λ d. d.name ≡ name → d.type ≡ iri)

iri-accepted :
    (d : ParameterDeclaration) (value : JsString)
    → d.type ≡ iri
    → check_values d (text value ∷ []) ≡ ok tt
iri-accepted d value t = rw t refl

validate-set :
    (name value : JsString) (decls : List ParameterDeclaration) (bindings : ParameterBindings)
    → AreIris name decls
    → validate decls bindings ≡ ok tt
    → validate decls (OrderedMap.set name (text value) bindings) ≡ ok tt
unfolding validate
validate-set name value [] bindings iris h = refl
validate-set name value (d ∷ rest) bindings iris h =
    let (u, e, h1) =
      >>=-eq-ok (check_values d (collect_values (OrderedMap.get d.name bindings)))
        (λ _. validate rest bindings) {b = tt} h in
    let later = validate-set name value rest bindings iris.1 h1 in
    let stored = get-set name d.name (text value) bindings in
    elim (Bool-cases (text_eq.beq name d.name)) [
      | inl is ↦
          let t = iris.0 (sym ((text_eq.beq_iff name d.name).0 is)) in
          ground (arith, stored, is, later, iri-accepted d value t)
      | inr differs ↦ ground (arith, stored, differs, later, e)
    ]

In-present_columns :
    (decl : ParameterDeclaration) (value : JsString) (decls : List ParameterDeclaration)
    (bindings : ParameterBindings)
    → In decl decls
    → OrderedMap.get decl.name bindings ≡ some (text value)
    → In (record { decl = decl; values = text value ∷ [] }) (present_columns decls bindings)
In-present_columns decl value [] bindings i h = absurd i
In-present_columns decl value (d ∷ rest) bindings i h = elim i [
  | inl same ↦
      subst
        (λ (x : ParameterDeclaration).
          In (record { decl = decl; values = text value ∷ [] })
            (present_columns (x ∷ rest) bindings))
        (sym same) (rw h (inl refl))
  | inr there ↦
      let later = In-present_columns decl value rest bindings there h in
      if_elim (In (record { decl = decl; values = text value ∷ [] }))
        (is_omitted d.cardinality (collect_values (OrderedMap.get d.name bindings))) later
        (inr later)
]

iri-cell :
    (decl : ParameterDeclaration) (value : JsString)
    → decl.type ≡ iri
    → cell 0 (record { decl = decl; values = text value ∷ [] }) ≡ ok (b'<' ∷ value ++ codes ">")
unfolding sparqly.Templates.display
iri-cell decl value t = rw t refl

-- The first row holds each cell of its columns.
row-Infix :
    (cs : List Column) (c : Column) (w : JsString)
    → All IsColumn cs
    → In c cs
    → cell 0 c ≡ ok w
    → (r : JsString) × (row cs 0 ≡ ok r) × Infix w r
row-Infix cs c w all i e =
    let (ws, es) = cells-ok 0 cs all in
    let there = map_result-In (cell 0) cs ws c w es i e in
    (
      b'(' ∷ join ws ++ codes ")",
      rw es refl,
      Infix-within w (join ws) (b'(' ∷ []) (codes ")") (join-Infix w ws there),
    )

clause-Infix :
    (cs : List Column) (c : Column) (w body : JsString)
    → All IsColumn cs
    → In c cs
    → cell 0 c ≡ ok w
    → (q : JsString) × (clause cs body ≡ ok (q ++ body)) × Infix w q
clause-Infix [] c w body all i e = absurd i
clause-Infix (d ∷ cs) c w body all i e =
    let (rows, es) =
      map_result-ok (row (d ∷ cs)) (upto (row_count (d ∷ cs)) 0) (row-ok (d ∷ cs) all) in
    let (r, er, within) = row-Infix (d ∷ cs) c w all i e in
    let first =
      map_result-In (row (d ∷ cs)) (upto (row_count (d ∷ cs)) 0) rows 0 r es
        (In-upto (row_count (d ∷ cs)) 0 (row_count-positive (d ∷ cs))) er in
    let (b, a, held) = join-Infix r rows first in
    let header : JsString = codes "VALUES (" ++ join (map column_name (d ∷ cs)) ++ codes ") { " in
    (
      header ++ join rows ++ codes " }\n",
      rw es refl,
      subst (Infix w) (sym (append_assoc header (join rows) (codes " }\n"))) (
          Infix-within w (join rows) header (codes " }\n")
            (subst (Infix w) (sym held) (Infix-within w r b a within))),
    )

-- Any text is accepted as an IRI: if bindings are accepted, they still are with any text bound to a
-- parameter that is an IRI, as are all parameters of its name; if each literal has its datatype, the
-- query then is rows, in which the text stands as it came between `<` and `>`, a `>` included, and
-- the body.
pub iri_verbatim :
    (decl : ParameterDeclaration) (value body : JsString) (decls : List ParameterDeclaration)
    (bindings : ParameterBindings)
    → All HasDatatype decls
    → In decl decls
    → decl.type ≡ iri
    → AreIris decl.name decls
    → validate decls bindings ≡ ok tt
    → (validate decls (OrderedMap.set decl.name (text value) bindings) ≡ ok tt)
      × ((rows : JsString) × (substitute body decls (OrderedMap.set decl.name (text value) bindings)
            ≡ ok (rows ++ body))
          × Infix (b'<' ∷ value ++ codes ">") rows)
unfolding substitute
iri_verbatim decl value body decls bindings typed i t iris h =
    let after = OrderedMap.set decl.name (text value) bindings in
    let accepted = validate-set decl.name value decls bindings iris h in
    let own : OrderedMap.get decl.name after ≡ some (text value) = ground (
      arith,
      get-set decl.name decl.name (text value) bindings,
      text_eq.beq_iff decl.name decl.name,
    ) in
    (
      accepted,
      clause-Infix (present_columns decls after) (record { decl = decl; values = text value ∷ [] })
          (b'<' ∷ value ++ codes ">") body
          (present_columns-IsColumn decls after {u = tt} typed accepted)
          (In-present_columns decl value decls after i own) (iri-cell decl value t),
    )

-- Several values are accepted for a parameter that takes exactly one, and each makes a row.
pub single_repeated :
    (name first second body : JsString)
    → (validate (single name string ∷ []) (bound_twice name first second) ≡ ok tt)
      × (substitute body (single name string ∷ []) (bound_twice name first second)
          ≡ ok (
              with_rows name
                ((b'(' ∷ (b'"' ∷ escape_string_literal first ++ codes "\"") ++ codes ")")
                  ++ b' '
                    ∷ (b'(' ∷ (b'"' ∷ escape_string_literal second ++ codes "\"") ++ codes ")"))
                body))
unfolding validate substitute OrderedMap.get
single_repeated name first second body =
    let own = (text_eq.beq_iff name name).1 refl in (rw own refl, rw own refl)
