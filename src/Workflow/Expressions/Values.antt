-- ===== src/Workflow/Expressions/Values.antt =====
-- expressions.go: the values of expressions and what the operators and functions make of them.
--
-- Characters are bytes. A float64 is named by a number, and what fmt, encoding/json, float64 and
-- strings.ToLower and TrimSpace do is the parameter `Library`.
use kai_server.Common.Bytes.{Bytes, codes, bytes_eq, has_prefix}
use kai_server.Common.{
  ℕ, zero, suc, Bool, true, false, not, List, [], ◌∷◌, ◌++◌, length, drop, ◌==◌, if◌then◌else◌,
}

-- interface{} as the contexts and encoding/json fill it; `texts` is a map[string]string.
mutual
  pub data AnyValue : Type 0 where
    nothing : AnyValue
    bool : Bool → AnyValue
    text : Bytes → AnyValue
    int float : ℕ → AnyValue
    array : Values → AnyValue
    object : Fields → AnyValue
    texts : List (Bytes × Bytes) → AnyValue

  pub data Values : Type 0 where
    no_values : Values
    value : AnyValue → Values → Values

  pub data Fields : Type 0 where
    no_fields : Fields
    field : Bytes → AnyValue → Fields → Fields

pub record Library : Type 0 where
  pub to_lower : Bytes → Bytes
  pub trim_space : Bytes → Bytes
  pub print_int : ℕ → Bytes
  pub print_float : ℕ → Bytes
  pub marshal : AnyValue → Bytes
  pub unmarshal : Bytes → AnyValue
  pub scan_int : Bytes → ℕ
  pub scan_float : Bytes → ℕ
  pub of_int : ℕ → ℕ
  pub float_zero : ℕ
  pub float_less : ℕ → ℕ → Bool
  pub is_zero_float : ℕ → Bool

module _ (lib : Library) where
  -- (toBool)
  abbrev pub to_bool : AnyValue → Bool
  to_bool nothing = false
  to_bool (bool b) = b
  to_bool (text []) = false
  to_bool (text (c ∷ cs)) = true
  to_bool (int n) = not (n == 0)
  to_bool (float n) = not (lib.is_zero_float n)
  to_bool (array vs) = true
  to_bool (object fs) = true
  to_bool (texts m) = true

  -- (exprToString)
  abbrev pub expr_to_string : AnyValue → Bytes
  expr_to_string nothing = []
  expr_to_string (bool true) = codes "true"
  expr_to_string (bool false) = codes "false"
  expr_to_string (text b) = b
  expr_to_string (int n) = lib.print_int n
  expr_to_string (float n) = lib.print_float n
  expr_to_string (array vs) = lib.marshal (array vs)
  expr_to_string (object fs) = lib.marshal (object fs)
  expr_to_string (texts m) = lib.marshal (texts m)

  -- (exprEquals)
  abbrev pub expr_equals : AnyValue → AnyValue → Bool
  expr_equals a b = bytes_eq (lib.to_lower (expr_to_string a)) (lib.to_lower (expr_to_string b))

  -- (toFloat)
  abbrev pub to_float : AnyValue → ℕ
  to_float nothing = lib.float_zero
  to_float (bool b) = lib.float_zero
  to_float (text b) = lib.scan_float b
  to_float (int n) = lib.of_int n
  to_float (float n) = n
  to_float (array vs) = lib.float_zero
  to_float (object fs) = lib.float_zero
  to_float (texts m) = lib.float_zero

  -- exprCompare(a, b) < 0
  abbrev pub expr_less : AnyValue → AnyValue → Bool
  expr_less a b = lib.float_less (to_float a) (to_float b)

  -- strings.Contains
  unfoldable pub contains : Bytes → Bytes → Bool
  contains [] n = has_prefix [] n
  contains (c ∷ s) n = let rest = contains s n in if has_prefix (c ∷ s) n then true else rest

  -- strings.HasSuffix
  unfoldable pub ends_with : Bytes → Bytes → Bool
  ends_with [] n = bytes_eq [] n
  ends_with (c ∷ s) n = let rest = ends_with s n in if bytes_eq (c ∷ s) n then true else rest

  abbrev pub lowered : AnyValue → Bytes
  lowered v = lib.to_lower (expr_to_string v)

  -- (exprContains)
  abbrev pub expr_contains : AnyValue → AnyValue → Bool
  expr_contains haystack needle = contains (lowered haystack) (lowered needle)

  -- strings.ReplaceAll of a text that is not empty; `skip` bytes belong to the last replacement.
  unfoldable pub replace_from : ℕ → Bytes → Bytes → Bytes → Bytes
  replace_from skip [] old new = []
  replace_from zero (c ∷ s) old new =
      if has_prefix (c ∷ s) old
      then new ++ replace_from (length (drop 1 old)) s old new
      else c ∷ replace_from zero s old new
  replace_from (suc skip) (c ∷ s) old new = replace_from skip s old new

  unfoldable pub format_from : ℕ → List AnyValue → Bytes → Bytes
  format_from i [] template = template
  format_from i (v ∷ vs) template =
      format_from (suc i) vs
        (replace_from zero template (123 ∷ (lib.print_int i ++ (125 ∷ []))) (expr_to_string v))

  -- strings.Join of the texts of an array
  unfoldable pub join_values : Values → Bytes → Bytes
  join_values no_values sep = []
  join_values (value v no_values) sep = expr_to_string v
  join_values (value v (value w vs)) sep = expr_to_string v ++ (sep ++ join_values (value w vs) sep)

  -- (exprJoin)
  abbrev pub expr_join : AnyValue → Bytes → Bytes
  expr_join (array vs) sep = join_values vs sep
  expr_join v sep = expr_to_string v
