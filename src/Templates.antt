-- ===== src/Templates.antt =====
-- libs/common/src/lib/templates: the binding of values to the parameters of an inline query
-- (parameter-declaration.ts, validate.ts, substitute.ts). The values come from JSON. `thrown` is the
-- TypeError of a method that is called on a value that is no string.
mod Literals
mod Accepted
mod Unguarded
mod Tests
use sparqly.Base.{
  ℕ, zero, suc, ◌+◌, ◌/◌, ◌%◌, Bool, true, false, ◌&&◌, ◌||◌, not, Option, none, some, List, [],
  ◌∷◌, ◌++◌, JsString, codes, if◌then◌else◌, length, map, filter_by, Result, ok, err, ◌>>=◌,
  map_result, ◌==◌, nat_eq, nat_beq, text_eq, ltb,
}
use sparqly.OrderedMap
use sparqly.OrderedMap.{OrderedMap}
use sparqly.Json.{
  Number, natural, other_number, Value, null_value, truth, number, text, sequence, object, Values,
  no_values, value_then, Members, member, elements, is_integer,
}

pub data ParameterType : Type 0 where
  iri string integer decimal boolean date date_time lang_string literal : ParameterType

-- `0..1`, `1..1`, `0..n` and `1..n`
pub data ParameterCardinality : Type 0 where
  zero_one one_one zero_many one_many : ParameterCardinality

pub record ParameterDeclaration : Type 0 where
  pub name : JsString
  pub type : ParameterType
  pub cardinality : ParameterCardinality
  pub datatype : Option JsString
  pub label : Option JsString
  pub description : Option JsString
  pub default_value : Option Value
  pub allowed : Option (List Value)

abbrev pub ParameterBindings : Type 0
ParameterBindings = OrderedMap JsString Value

pub data BindingError : Type 0 where
  type_mismatch : JsString → ParameterType → BindingError
  cardinality_violation : JsString → ParameterCardinality → BindingError

pub data SubstitutionError : Type 0 where
  unsupported_type invalid_binding : JsString → SubstitutionError
  thrown : SubstitutionError

-- `collectValues`
abbrev pub collect_values : Option Value → List Value
collect_values none = []
collect_values (some null_value) = []
collect_values (some (sequence vs)) = elements vs
collect_values (some (truth b)) = truth b ∷ []
collect_values (some (number n)) = number n ∷ []
collect_values (some (text s)) = text s ∷ []
collect_values (some (object o)) = object o ∷ []

-- `validate.ts`

abbrev pub is_text : Option Value → Bool
is_text (some (text s)) = true
is_text other = false

abbrev pub has_type : ParameterType → Value → Bool
has_type iri v = is_text (some v)
has_type string v = is_text (some v)
has_type date v = is_text (some v)
has_type date_time v = is_text (some v)
has_type literal v = is_text (some v)
has_type integer (number n) = is_integer n
has_type integer other = false
has_type decimal (number n) = true
has_type decimal other = false
has_type boolean (truth b) = true
has_type boolean other = false
has_type lang_string (object o) =
    is_text (member (codes "value") o) && is_text (member (codes "lang") o)
has_type lang_string other = false

-- What a check answers when it passes is not used.
abbrev pub Checked : Type 0
Checked = Result {0, 0} BindingError Unit

abbrev pub check_types : ParameterDeclaration → List Value → Checked
check_types decl [] = ok tt
check_types decl (v ∷ vs) =
    if has_type decl.type v then check_types decl vs else err (type_mismatch decl.name decl.type)

abbrev pub is_required : ParameterCardinality → Bool
is_required zero_one = false
is_required one_one = true
is_required zero_many = false
is_required one_many = true

abbrev pub check_values : ParameterDeclaration → List Value → Checked
check_values decl [] =
    if is_required decl.cardinality
    then err (cardinality_violation decl.name decl.cardinality)
    else ok tt
check_values decl (v ∷ vs) = check_types decl (v ∷ vs)

pub validate : List ParameterDeclaration → ParameterBindings → Checked
validate [] bindings = ok tt
validate (decl ∷ rest) bindings =
    check_values decl (collect_values (OrderedMap.get decl.name bindings)) >>= λ _.
    validate rest bindings

-- `substitute.ts`

abbrev pub digits : ℕ → ℕ → JsString → JsString
digits zero n later = later
digits (suc fuel) n later =
    let more = digits fuel (n / 10) ((n % 10 + 48) ∷ later) in
    if ltb n 10 then (n + 48) ∷ later else more

abbrev pub print_number : Number → JsString
print_number (natural n) = digits (suc n) n []
print_number (other_number integral printed) = printed

-- The text of a value in a template literal.
mutual
  pub display : Value → JsString
  display null_value = codes "null"
  display (truth true) = codes "true"
  display (truth false) = codes "false"
  display (number n) = print_number n
  display (text s) = s
  display (sequence vs) = display_all vs
  display (object o) = codes "[object Object]"

  pub display_all : Values → JsString
  display_all no_values = []
  display_all (value_then v no_values) = display_element v
  display_all (value_then v (value_then w rest)) =
      display_element v ++ b',' ∷ display_all (value_then w rest)

  pub display_element : Value → JsString
  display_element null_value = []
  display_element (truth true) = codes "true"
  display_element (truth false) = codes "false"
  display_element (number n) = print_number n
  display_element (text s) = s
  display_element (sequence vs) = display_all vs
  display_element (object o) = codes "[object Object]"

abbrev pub display_option : Option Value → JsString
display_option none = codes "undefined"
display_option (some v) = display v

-- `text.replace(/c/g, by)`
abbrev pub replace : ℕ → JsString → JsString → JsString
replace c by [] = []
replace c by (d ∷ s) = if nat_beq d c then by ++ replace c by s else d ∷ replace c by s

pub escape_string_literal : JsString → JsString
escape_string_literal value =
    let backslashes = replace b'\\' (b'\\' ∷ b'\\' ∷ []) value in
    let quotes = replace b'"' (b'\\' ∷ b'"' ∷ []) backslashes in
    let newlines = replace 10 (b'\\' ∷ b'n' ∷ []) quotes in
    let returns = replace 13 (b'\\' ∷ b'r' ∷ []) newlines in replace 9 (b'\\' ∷ b't' ∷ []) returns

abbrev pub quote_value : Option Value → Result SubstitutionError JsString
quote_value (some (text s)) = ok (b'"' ∷ escape_string_literal s ++ b'"' ∷ [])
quote_value other = err thrown

abbrev pub is_truthy : Option Value → Bool
is_truthy none = false
is_truthy (some null_value) = false
is_truthy (some (truth b)) = b
is_truthy (some (number (natural zero))) = false
is_truthy (some (number (natural (suc n)))) = true
is_truthy (some (number (other_number integral printed))) =
    not (printed == codes "NaN" || printed == codes "0")
is_truthy (some (text [])) = false
is_truthy (some (text (c ∷ s))) = true
is_truthy (some (sequence vs)) = true
is_truthy (some (object o)) = true

abbrev pub escape_lang : Option Value → Result SubstitutionError JsString
escape_lang (some (object o)) = quote_value (member (codes "value") o) >>= λ q.
    ok (q ++ b'@' ∷ display_option (member (codes "lang") o))
escape_lang other = err thrown

abbrev pub escape_typed :
    JsString → Option JsString → Option Value → Result SubstitutionError JsString
escape_typed name none value = err (invalid_binding name)
escape_typed name (some datatype) value =
    quote_value value >>= λ q. ok (q ++ (codes "^^<" ++ datatype ++ codes ">"))

abbrev pub escape_as :
    ParameterType → ParameterDeclaration → Option Value → Result SubstitutionError JsString
escape_as iri decl value = ok (b'<' ∷ display_option value ++ codes ">")
escape_as string decl value = quote_value value
escape_as integer decl value = ok (display_option value)
escape_as decimal decl value = ok (display_option value)
escape_as boolean decl value = ok (if is_truthy value then codes "true" else codes "false")
escape_as date decl value = quote_value value >>= λ q. ok (q ++ codes "^^xsd:date")
escape_as date_time decl value = quote_value value >>= λ q. ok (q ++ codes "^^xsd:dateTime")
escape_as lang_string decl value = escape_lang value
escape_as literal decl value = escape_typed decl.name decl.datatype value

abbrev pub escape : ParameterDeclaration → Option Value → Result SubstitutionError JsString
escape decl value = escape_as decl.type decl value

pub record Column : Type 0 where
  pub decl : ParameterDeclaration
  pub values : List Value

abbrev pub is_omitted : ParameterCardinality → List Value → Bool
is_omitted cardinality [] = not (is_required cardinality)
is_omitted cardinality (v ∷ vs) = false

abbrev pub present_columns : List ParameterDeclaration → ParameterBindings → List Column
present_columns [] bindings = []
present_columns (decl ∷ rest) bindings =
    let values = collect_values (OrderedMap.get decl.name bindings) in
    if is_omitted decl.cardinality values
    then present_columns rest bindings
    else record { decl = decl; values = values } ∷ present_columns rest bindings

abbrev pub max : ℕ → ℕ → ℕ
max a b = if ltb a b then b else a

abbrev pub row_count : List Column → ℕ
row_count [] = 1
row_count (c ∷ cs) = max (length c.values) (row_count cs)

abbrev pub at : ℕ → List Value → Option Value
at i [] = none
at zero (v ∷ vs) = some v
at (suc i) (v ∷ vs) = at i vs

abbrev pub last : List Value → Option Value
last [] = none
last (v ∷ []) = some v
last (v ∷ w ∷ vs) = last (w ∷ vs)

-- `a ?? b`
abbrev pub nullish_or : Option Value → Option Value → Option Value
nullish_or none b = b
nullish_or (some null_value) b = b
nullish_or (some other) b = some other

-- The cell of a column in a row: a column that is too short repeats its last value.
abbrev pub cell : ℕ → Column → Result SubstitutionError JsString
cell i col = escape col.decl (nullish_or (at i col.values) (last col.values))

abbrev pub join : List JsString → JsString
join [] = []
join (s ∷ []) = s
join (s ∷ t ∷ rest) = s ++ b' ' ∷ join (t ∷ rest)

abbrev pub row : List Column → ℕ → Result SubstitutionError JsString
row columns i = map_result (cell i) columns >>= λ cells. ok (b'(' ∷ join cells ++ codes ")")

-- The indices of the loop.
abbrev pub upto : ℕ → ℕ → List ℕ
upto zero i = []
upto (suc n) i = i ∷ upto n (suc i)

abbrev pub column_name : Column → JsString
column_name col = b'?' ∷ col.decl.name

abbrev pub clause : List Column → JsString → Result SubstitutionError JsString
clause [] body = ok body
clause (c ∷ cs) body = map_result (row (c ∷ cs)) (upto (row_count (c ∷ cs)) 0) >>= λ rows. ok (
    codes "VALUES ("
    ++ join (map column_name (c ∷ cs))
    ++ codes ") { "
    ++ join rows
    ++ codes " }\n"
    ++ body)

pub substitute :
    JsString → List ParameterDeclaration → ParameterBindings → Result SubstitutionError JsString
substitute body parameters bindings = clause (present_columns parameters bindings) body
