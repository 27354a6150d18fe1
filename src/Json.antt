-- ===== src/Json.antt =====
-- The values of JSON and YAML documents, as the code that checks them at run time sees them. A
-- number is a natural one, or another that is given by whether it is an integer and by its text.
use sparqly.Base.{
  ℕ, Bool, true, Option, none, some, List, [], ◌∷◌, JsString, if◌then◌else◌, ◌==◌, text_eq,
}

pub data Number : Type 0 where
  natural : ℕ → Number
  other_number : Bool → JsString → Number

mutual
  pub data Value : Type 0 where
    null_value : Value
    truth : Bool → Value
    number : Number → Value
    text : JsString → Value
    sequence : Values → Value
    object : Members → Value

  pub data Values : Type 0 where
    no_values : Values
    value_then : Value → Values → Values

  pub data Members : Type 0 where
    no_members : Members
    member_then : JsString → Value → Members → Members

-- `Number.isInteger(x)`
abbrev pub is_integer : Number → Bool
is_integer (natural n) = true
is_integer (other_number integral printed) = integral

-- The elements of an array.
abbrev pub elements : Values → List Value
elements no_values = []
elements (value_then v rest) = v ∷ elements rest

-- The property of an object, if it has it.
abbrev pub member : JsString → Members → Option Value
member key no_members = none
member key (member_then k v rest) = if k == key then some v else member key rest
