-- ===== src/Core/Value/Laws.antt =====
-- `Value.Equal` and the types of values.
use feature_flag_service.Common.{◌≡◌, ap, ◌↔◌, true, str_eq_iff, eq_ℤ_iff, arith}
use feature_flag_service.Core.Value.{
  Value, unset, bool, string, int, ValueType, type_eq, value_type, equal,
}

-- `Equal` decides equality of values, type included.
pub equal_iff : (v w : Value) → (equal v w ≡ true) ↔ (v ≡ w)
unfolding equal
equal_iff (bool a) (bool b) = ground arith
equal_iff (string a) (string b) = ground (arith, str_eq_iff a b)
equal_iff (int a) (int b) = ground (arith, eq_ℤ_iff a b)
equal_iff unset unset = ground arith
equal_iff unset _ = ground arith
equal_iff (bool a) _ = ground arith
equal_iff (string a) _ = ground arith
equal_iff (int a) _ = ground arith

pub type_eq_iff : (a b : ValueType) → (type_eq a b ≡ true) ↔ (a ≡ b)
unfolding type_eq
type_eq_iff a b = ground arith

pub value_type_of_equal : (v w : Value) → equal v w ≡ true → value_type v ≡ value_type w
value_type_of_equal v w h = ap value_type ((equal_iff v w).0 h)
