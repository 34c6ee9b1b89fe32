-- ===== src/Workflow/Matrix/Values.antt =====
-- matrix.go, valuesEqual: the comparison of two values of a matrix.
use kai_server.Common.{Bool, String, str_eq}
use kai_server.Common.Bytes.{Bytes, bytes_eq}

-- An interface{}: a string, one of the four kinds of number of toFloat64, or anything else.
pub data Value (N J : Type 0) : Type 0 where
  text : String → Value N J
  number : N → Value N J
  other : J → Value N J

-- `to_float` converts to float64, `float_eq` compares two of those, and `marshal` is json.Marshal.
module _ {N J F : Type 0} (to_float : N → F) (float_eq : F → F → Bool)
    (marshal : Value N J → Bytes) where
  unfoldable pub values_equal : Value N J → Value N J → Bool
  values_equal (text a) (text b) = str_eq a b
  values_equal (number a) (number b) = float_eq (to_float a) (to_float b)
  values_equal a b = bytes_eq (marshal a) (marshal b)
