-- ===== src/Diff/Tabular.antt =====
-- libs/core/src/lib/diff/tabular-diff.ts and tabular-row-key.ts: the bag difference of two tables
-- of bindings. A row is a map from variables to terms; a term that is no IRI, blank node or
-- literal keeps its value only.
mod Counts
mod Tests
use sparqly.Base.{
  ℕ, suc, ◌+◌, ◌-◌, Bool, true, false, ◌&&◌, Option, none, some, List, [], ◌∷◌, ◌++◌, JsString,
  codes, if◌then◌else◌, Result, ok, err, ◌>>=◌, ◌==◌, text_eq, nat_eq, ltb, length, includes,
}
use sparqly.OrderedMap
use sparqly.OrderedMap.{OrderedMap, keys}

pub data Term : Type 0 where
  named_node blank_node : JsString → Term
  literal : JsString → Option JsString → Option JsString → Term
  other_term : JsString → Term

abbrev pub TabularRow : Type 0
TabularRow = OrderedMap JsString Term

-- The order of `sort()` on texts.
abbrev pub text_before : JsString → JsString → Bool
text_before [] t = true
text_before (c ∷ s) [] = false
text_before (c ∷ s) (d ∷ t) = if ltb c d then true else (c == d) && text_before s t

abbrev pub insert_text : JsString → List JsString → List JsString
insert_text s [] = s ∷ []
insert_text s (t ∷ ts) = if text_before s t then s ∷ t ∷ ts else t ∷ insert_text s ts

abbrev pub sort_texts : List JsString → List JsString
sort_texts [] = []
sort_texts (s ∷ ss) = insert_text s (sort_texts ss)

-- `value.replace(/c/g, by)`
abbrev pub replace_all : ℕ → JsString → JsString → JsString
replace_all c by [] = []
replace_all c by (d ∷ s) = let rest = replace_all c by s in if d == c then by ++ rest else d ∷ rest

abbrev pub escape_literal : JsString → JsString
escape_literal value = replace_all 9 (92 ∷ 116 ∷ []) (
    replace_all 13 (92 ∷ 114 ∷ []) (
      replace_all 10 (92 ∷ 110 ∷ [])
        (replace_all 34 (92 ∷ 34 ∷ []) (replace_all 92 (92 ∷ 92 ∷ []) value))))

abbrev pub xsd_string : JsString
xsd_string = codes "http://www.w3.org/2001/XMLSchema#string"

abbrev pub with_datatype : JsString → Option JsString → JsString
with_datatype lex none = lex
with_datatype lex (some datatype) =
    if datatype == xsd_string then lex else lex ++ codes "^^<" ++ datatype ++ codes ">"

abbrev pub serialize_literal : JsString → Option JsString → Option JsString → JsString
serialize_literal lex none datatype = with_datatype lex datatype
serialize_literal lex (some []) datatype = with_datatype lex datatype
serialize_literal lex (some (c ∷ language)) datatype = lex ++ codes "@" ++ (c ∷ language)

abbrev pub unbound_sentinel : JsString
unbound_sentinel = codes "UNBOUND"

abbrev pub serialize_term : Option Term → JsString
serialize_term none = unbound_sentinel
serialize_term (some (named_node value)) = codes "<" ++ value ++ codes ">"
serialize_term (some (blank_node value)) = codes "_:" ++ value
serialize_term (some (literal value language datatype)) =
    serialize_literal (34 ∷ escape_literal value ++ (34 ∷ [])) language datatype
serialize_term (some (other_term value)) = value

-- The error names the column.
pub data TabularBlankNodeError : Type 0 where
  tabular_blank_node : JsString → TabularBlankNodeError

abbrev pub is_blank : Option Term → Bool
is_blank none = false
is_blank (some (named_node value)) = false
is_blank (some (blank_node value)) = true
is_blank (some (literal value language datatype)) = false
is_blank (some (other_term value)) = false

abbrev pub key_parts : TabularRow → List JsString → Result TabularBlankNodeError (List JsString)
key_parts row [] = ok []
key_parts row (name ∷ names) =
    let rest = key_parts row names in
    let term = OrderedMap.get name row in
    if is_blank term
    then err (tabular_blank_node name)
    else rest >>= λ parts. ok ((codes "?" ++ name ++ codes "=" ++ serialize_term term) ∷ parts)

abbrev pub join_spaces : List JsString → JsString
join_spaces [] = []
join_spaces (part ∷ []) = part
join_spaces (part ∷ next ∷ parts) = part ++ codes " " ++ join_spaces (next ∷ parts)

pub tabular_row_key : TabularRow → List JsString → Result TabularBlankNodeError JsString
tabular_row_key row variables =
    key_parts row (sort_texts variables) >>= λ parts. ok (join_spaces parts)

-- `CountedRow` and `TabularDiffEntry`
pub record CountedRow : Type 0 where
  pub row : TabularRow
  pub count : ℕ

abbrev pub counted_again : TabularRow → Option CountedRow → CountedRow
counted_again row none = record { row = row; count = 1 }
counted_again row (some entry) = record { row = entry.row; count = entry.count + 1 }

-- The loop of `countRows`.
pub count_rows :
    List TabularRow
    → List JsString
    → OrderedMap JsString CountedRow
    → Result TabularBlankNodeError (OrderedMap JsString CountedRow)
count_rows [] variables out = ok out
count_rows (row ∷ rows) variables out = tabular_row_key row variables >>= λ key.
    count_rows rows variables (OrderedMap.set key (counted_again row (OrderedMap.get key out)) out)

abbrev pub count_of : Option CountedRow → ℕ
count_of none = 0
count_of (some entry) = entry.count

-- `new Set(texts)`
abbrev pub distinct_texts : List JsString → List JsString → List JsString
distinct_texts [] seen = []
distinct_texts (s ∷ ss) seen =
    let fresh = s ∷ distinct_texts ss (s ∷ seen) in
    let skip = distinct_texts ss seen in if includes seen s then skip else fresh

-- `a?.row ?? b?.row`, with the count
abbrev pub entry_of : Option CountedRow → Option CountedRow → ℕ → List CountedRow
entry_of (some a) b count = record { row = a.row; count = count } ∷ []
entry_of none (some b) count = record { row = b.row; count = count } ∷ []
entry_of none none count = []

-- One round of the loop over the sorted keys, before the later ones.
pub diff_one :
    Option CountedRow
    → Option CountedRow
    → List CountedRow × List CountedRow
    → List CountedRow × List CountedRow
diff_one left right later =
    if count_of right == count_of left
    then later
    else if ltb (count_of left) (count_of right)
    then (entry_of right left (count_of right - count_of left) ++ later.0, later.1)
    else (later.0, entry_of left right (count_of left - count_of right) ++ later.1)

pub diff_keys :
    List JsString
    → OrderedMap JsString CountedRow
    → OrderedMap JsString CountedRow
    → List CountedRow × List CountedRow
diff_keys [] lefts rights = ([], [])
diff_keys (key ∷ rest) lefts rights =
    diff_one (OrderedMap.get key lefts) (OrderedMap.get key rights) (diff_keys rest lefts rights)

pub record TabularDiffResult : Type 0 where
  pub added : List CountedRow
  pub removed : List CountedRow
  pub total_left : ℕ
  pub total_right : ℕ

abbrev pub sorted_keys :
    OrderedMap JsString CountedRow → OrderedMap JsString CountedRow → List JsString
sorted_keys lefts rights = sort_texts (distinct_texts (keys lefts ++ keys rights) [])

pub tabular_diff :
    List TabularRow
    → List TabularRow
    → List JsString
    → Result TabularBlankNodeError TabularDiffResult
tabular_diff left_rows right_rows variables = count_rows left_rows variables [] >>= λ lefts.
    count_rows right_rows variables [] >>= λ rights.
    let diff = diff_keys (sorted_keys lefts rights) lefts rights in
    ok (record {
      added = diff.0;
      removed = diff.1;
      total_left = length left_rows;
      total_right = length right_rows;
    })
