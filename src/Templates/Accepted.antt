-- ===== src/Templates/Accepted.antt =====
-- Bindings that were accepted can be substituted.
use sparqly.Base.{
  ℕ, zero, suc, ◌≡◌, refl, sym, subst, true, false, ◌&&◌, Option, none, some, List, [], ◌∷◌, ◌++◌,
  JsString, codes, if◌then◌else◌, Result, ok, ◌>>=◌, >>=-eq-ok, map_result, map, arith, All,
  Bool-cases, inl, inr, text_eq,
}
use sparqly.OrderedMap
use sparqly.Json.{Value, null_value, truth, number, text, sequence, object, member}
use sparqly.Templates.{
  ParameterType, iri, string, integer, decimal, boolean, date, date_time, lang_string, literal,
  ParameterDeclaration, ParameterBindings, has_type, is_text, check_types, check_values,
  is_required, is_omitted, validate, collect_values, Column, present_columns, at, last, nullish_or,
  quote_value, escape_typed, display_option, escape, escape_as, cell, row, upto, row_count, clause,
  substitute, join, column_name,
}

-- What the schema of declarations asks of a literal.
abbrev pub HasDatatype : ParameterDeclaration → Type 0
HasDatatype decl = decl.type ≡ literal → (d : JsString) × (decl.datatype ≡ some d)

abbrev pub Typed : ParameterType → List Value → Type 0
Typed t = All (λ v. has_type t v ≡ true)

abbrev pub HasValue : List Value → Type 0
HasValue [] = ⊥
HasValue (v ∷ vs) = Unit

-- A column that is written has a value, and each of its values has the type.
abbrev pub IsColumn : Column → Type 0
IsColumn c = HasDatatype c.decl × Typed c.decl.type c.values × HasValue c.values

check_types-Typed :
    (decl : ParameterDeclaration) (vs : List Value) {u : Unit}
    → check_types decl vs ≡ ok u
    → Typed decl.type vs
check_types-Typed decl [] {u} h = tt
check_types-Typed decl (v ∷ vs) {u} h = elim (Bool-cases (has_type decl.type v)) [
  | inl e ↦ (e, check_types-Typed decl vs {u = u} (ground (arith, h, e)))
  | inr e ↦ ground (arith, h, e)
]

columns-append :
    (decl : ParameterDeclaration) (values : List Value) (later : List Column) {u : Unit}
    → HasDatatype decl
    → check_values decl values ≡ ok u
    → All IsColumn later
    → All IsColumn (
        if is_omitted decl.cardinality values
        then later
        else record { decl = decl; values = values } ∷ later)
columns-append decl [] later {u} d h all = elim (Bool-cases (is_required decl.cardinality)) [
  | inl e ↦ ground (arith, h, e)
  | inr e ↦ rw e all
]
columns-append decl (v ∷ vs) later {u} d h all =
    ((d, check_types-Typed decl (v ∷ vs) {u = u} h, tt), all)

pub present_columns-IsColumn :
    (decls : List ParameterDeclaration) (bindings : ParameterBindings) {u : Unit}
    → All HasDatatype decls
    → validate decls bindings ≡ ok u
    → All IsColumn (present_columns decls bindings)
unfolding validate
present_columns-IsColumn [] bindings {u} d h = tt
present_columns-IsColumn (decl ∷ rest) bindings {u} d h =
    let values = collect_values (OrderedMap.get decl.name bindings) in
    let (v, e, h1) = >>=-eq-ok (check_values decl values) (λ _. validate rest bindings) {b = u} h in
    columns-append decl values (present_columns rest bindings) {u = v} d.0 e
      (present_columns-IsColumn rest bindings {u = u} d.1 h1)

typed-ok :
    (decl : ParameterDeclaration)
    → (d : JsString) × (decl.datatype ≡ some d)
    → (s : JsString)
    → (w : JsString) × (escape_typed decl.name decl.datatype (some (text s)) ≡ ok w)
typed-ok decl (d, e) s =
    subst (λ o. (w : JsString) × (escape_typed decl.name o (some (text s)) ≡ ok w)) (sym e)
      (_, refl)

lang-ok :
    (v l : Option Value)
    → (is_text v && is_text l) ≡ true
    → (w : JsString) × ((quote_value v >>= λ q. ok (q ++ b'@' ∷ display_option l)) ≡ ok w)
lang-ok (some (text s)) l h = (_, refl)
lang-ok none l h = ground (arith, h)
lang-ok (some other) l h = ground (arith, h)

-- A value of the type is written.
escape_as-ok :
    (t : ParameterType) (decl : ParameterDeclaration) (v : Value)
    → (t ≡ literal → (d : JsString) × (decl.datatype ≡ some d))
    → has_type t v ≡ true
    → (w : JsString) × (escape_as t decl (some v) ≡ ok w)
escape_as-ok iri decl v d h = (_, refl)
escape_as-ok integer decl v d h = (_, refl)
escape_as-ok decimal decl v d h = (_, refl)
escape_as-ok boolean decl v d h = (_, refl)
escape_as-ok string decl (text s) d h = (_, refl)
escape_as-ok date decl (text s) d h = (_, refl)
escape_as-ok date_time decl (text s) d h = (_, refl)
escape_as-ok literal decl (text s) d h = typed-ok decl (d refl) s
escape_as-ok lang_string decl (object o) d h =
    lang-ok (member (codes "value") o) (member (codes "lang") o) h
escape_as-ok string decl other d h = ground (arith, h)
escape_as-ok date decl other d h = ground (arith, h)
escape_as-ok date_time decl other d h = ground (arith, h)
escape_as-ok literal decl other d h = ground (arith, h)
escape_as-ok lang_string decl other d h = ground (arith, h)

null_untyped : (t : ParameterType) → has_type t null_value ≡ false
null_untyped iri = refl
null_untyped string = refl
null_untyped integer = refl
null_untyped decimal = refl
null_untyped boolean = refl
null_untyped date = refl
null_untyped date_time = refl
null_untyped lang_string = refl
null_untyped literal = refl

-- The value of a cell: there is one, and it has the type.
Typed-at :
    (t : ParameterType) (i : ℕ) (vs : List Value) (fallback : Option Value)
    → Typed t vs
    → (v : Value) × (fallback ≡ some v) × (has_type t v ≡ true)
    → (v : Value) × (nullish_or (at i vs) fallback ≡ some v) × (has_type t v ≡ true)
Typed-at t i [] fallback h k = k
Typed-at t zero (v ∷ vs) fallback h k = not_null t v h.0
  where
    not_null :
        (t : ParameterType) (v : Value)
        → has_type t v ≡ true
        → (w : Value) × (nullish_or (some v) fallback ≡ some w) × (has_type t w ≡ true)
    not_null t null_value h = let gone = null_untyped t in ground (arith, h, gone)
    not_null t (truth b) h = (_, refl, h)
    not_null t (number n) h = (_, refl, h)
    not_null t (text s) h = (_, refl, h)
    not_null t (sequence vs) h = (_, refl, h)
    not_null t (object o) h = (_, refl, h)
Typed-at t (suc i) (v ∷ vs) fallback h k = Typed-at t i vs fallback h.1 k

Typed-last :
    (t : ParameterType) (v : Value) (vs : List Value)
    → Typed t (v ∷ vs)
    → (w : Value) × (last (v ∷ vs) ≡ some w) × (has_type t w ≡ true)
Typed-last t v [] h = (v, refl, h.0)
Typed-last t v (w ∷ vs) h = Typed-last t w vs h.1

cell-ok : (i : ℕ) (c : Column) → IsColumn c → (w : JsString) × (cell i c ≡ ok w)
cell-ok i c h = written c.decl c.values h.0 h.1 h.2
  where
    written :
        (decl : ParameterDeclaration) (vs : List Value)
        → HasDatatype decl
        → Typed decl.type vs
        → HasValue vs
        → (w : JsString) × (escape decl (nullish_or (at i vs) (last vs)) ≡ ok w)
    written decl [] d t h = absurd h
    written decl (v ∷ vs) d t h =
        let (w, e, k) =
          Typed-at decl.type i (v ∷ vs) (last (v ∷ vs)) t (Typed-last decl.type v vs t) in
        subst (λ o. (x : JsString) × (escape decl o ≡ ok x)) (sym e)
          (escape_as-ok decl.type decl w d k)

-- A loop whose body always answers answers.
pub map_result-ok :
    {A B E : Type 0} (f : A → Result E B) (xs : List A)
    → ((x : A) → (y : B) × (f x ≡ ok y))
    → (ys : List B) × (map_result f xs ≡ ok ys)
map_result-ok f [] h = ([], refl)
map_result-ok f (x ∷ xs) h =
    let (y, e) = h x in let (ys, es) = map_result-ok f xs h in (y ∷ ys, ground (arith, e, es))

pub cells-ok :
    (i : ℕ) (cs : List Column)
    → All IsColumn cs
    → (ws : List JsString) × (map_result (cell i) cs ≡ ok ws)
cells-ok i [] h = ([], refl)
cells-ok i (c ∷ cs) h =
    let (w, e) = cell-ok i c h.0 in
    let (ws, es) = cells-ok i cs h.1 in (w ∷ ws, ground (arith, e, es))

pub row-ok : (cs : List Column) → All IsColumn cs → (i : ℕ) → (w : JsString) × (row cs i ≡ ok w)
row-ok cs h i =
    let (ws, e) = cells-ok i cs h in
    subst (λ r. (w : JsString) × ((r >>= λ cells. ok (b'(' ∷ join cells ++ codes ")")) ≡ ok w))
      (sym e) (_, refl)

clause-ok :
    (cs : List Column) (body : JsString)
    → All IsColumn cs
    → (before : JsString) × (clause cs body ≡ ok (before ++ body))
clause-ok [] body h = ([], refl)
clause-ok (c ∷ cs) body h =
    let (rows, e) =
      map_result-ok (row (c ∷ cs)) (upto (row_count (c ∷ cs)) 0) (row-ok (c ∷ cs) h) in
    subst
      (λ r.
        (before : JsString) × ((r >>= λ rs. ok (
            codes "VALUES ("
            ++ join (map column_name (c ∷ cs))
            ++ codes ") { "
            ++ join rs
            ++ codes " }\n"
            ++ body))
          ≡ ok (before ++ body)))
      (sym e)
      (
        codes "VALUES ("
            ++ join (map column_name (c ∷ cs))
            ++ codes ") { "
            ++ join rows
            ++ codes " }\n",
        refl,
      )

-- If the bindings are accepted, the substitution answers a query, which ends with the body as it is.
pub substitute-validate :
    (body : JsString) (parameters : List ParameterDeclaration) (bindings : ParameterBindings)
    → All HasDatatype parameters
    → validate parameters bindings ≡ ok tt
    → (before : JsString) × (substitute body parameters bindings ≡ ok (before ++ body))
unfolding substitute
substitute-validate body parameters bindings d h =
    clause-ok (present_columns parameters bindings) body
      (present_columns-IsColumn parameters bindings {u = tt} d h)
