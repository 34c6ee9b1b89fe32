-- ===== src/Workflow/Matrix/Texts.antt =====
-- matrix.go, ExpandMatrix: the includes of a matrix whose values are strings.
use kai_server.Common.Bytes.{Bytes}
use kai_server.Common.{◌≡◌, sym, ◌∙◌, Bool, true, String, str_eq_iff, str_eq_self, List, All}
use kai_server.Workflow.Matrix.{apply_includes}
use kai_server.Workflow.Matrix.Values.{Value, text, values_equal}
use kai_server.Workflow.Matrix.Includes.{DistinctKeys, Holds, apply_includes-Holds}

module _ {N J F : Type 0} (to_float : N → F) (float_eq : F → F → Bool)
    (marshal : Value N J → Bytes) where
  -- valuesEqual on two strings
  abbrev pub texts_equal : String → String → Bool
  texts_equal a b = values_equal to_float float_eq marshal (text a) (text b)

  texts_equal_self : (a : String) → texts_equal a a ≡ true
  unfolding values_equal
  texts_equal_self a = str_eq_self a

  texts_equal_euclid :
      (a b c : String) → texts_equal a b ≡ true → texts_equal a c ≡ true → texts_equal b c ≡ true
  unfolding values_equal
  texts_equal_euclid a b c h k =
      (str_eq_iff b c).1 (sym ((str_eq_iff a b).0 h) ∙ (str_eq_iff a c).0 k)

  -- In a matrix whose values are strings, and whose includes have distinct keys each, every include
  -- has, after all the includes are applied, a combination with all its pairs up to valuesEqual.
  pub apply_includes-Holds_texts :
      (includes combos : List (List (String × String)))
      → All DistinctKeys includes
      → All (λ i. Holds texts_equal i (apply_includes texts_equal includes combos)) includes
  apply_includes-Holds_texts = apply_includes-Holds texts_equal texts_equal_self texts_equal_euclid
