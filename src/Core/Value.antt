-- ===== src/Core/Value.antt =====
-- internal/core/value.go: flag types and values. `Value` is a tagged union whose fields are set by
-- `Bool`, `String` and `Int` alone, so it is a data type here; `unset` is the zero Value.
pub mod Laws
use feature_flag_service.Common.{
  Bool, true, false, Bytes, codes, str_eq, ℤ, eq_ℤ, format_int, Option, none, some, if◌then◌else◌,
  ◌||◌,
}

pub data ValueType : Type 0 where
  type_unknown type_bool type_string type_int : ValueType

pub data Value : Type 0 where
  unset : Value
  bool : Bool → Value
  string : Bytes → Value
  int : ℤ → Value

-- `==` on the tags.
unfoldable pub type_eq : ValueType → ValueType → Bool
type_eq type_unknown type_unknown = true
type_eq type_bool type_bool = true
type_eq type_string type_string = true
type_eq type_int type_int = true
type_eq _ _ = false

unfoldable pub type_string_of : ValueType → Bytes
type_string_of type_bool = codes "bool"
type_string_of type_string = codes "string"
type_string_of type_int = codes "int"
type_string_of type_unknown = codes "unknown"

unfoldable pub parse_value_type : Bytes → ValueType × Bool
parse_value_type s =
    if str_eq s (codes "bool") || str_eq s (codes "boolean")
    then (type_bool, true)
    else if str_eq s (codes "string")
    then (type_string, true)
    else if str_eq s (codes "int") || str_eq s (codes "integer")
    then (type_int, true)
    else (type_unknown, false)

unfoldable pub value_type : Value → ValueType
value_type unset = type_unknown
value_type (bool b) = type_bool
value_type (string s) = type_string
value_type (int i) = type_int

unfoldable pub is_unknown : Value → Bool
unfolding value_type type_eq
is_unknown v = type_eq (value_type v) type_unknown

-- The accessors; `none` is their `ok == false`.
unfoldable pub as_bool : Value → Option Bool
as_bool (bool b) = some b
as_bool _ = none

unfoldable pub as_string : Value → Option Bytes
as_string (string s) = some s
as_string _ = none

unfoldable pub as_int : Value → Option ℤ
as_int (int i) = some i
as_int _ = none

abbrev bool_eq : Bool → Bool → Bool
bool_eq true b = b
bool_eq false true = false
bool_eq false false = true

unfoldable pub equal : Value → Value → Bool
equal (bool a) (bool b) = bool_eq a b
equal (string a) (string b) = str_eq a b
equal (int a) (int b) = eq_ℤ a b
equal unset unset = true
equal _ _ = false

-- `Value.String`
unfoldable pub value_string : Value → Bytes
unfolding format_int
value_string (bool true) = codes "true"
value_string (bool false) = codes "false"
value_string (string s) = s
value_string (int i) = format_int i
value_string unset = codes "<unset>"
