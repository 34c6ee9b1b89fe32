-- ===== src/Workflow/Expressions/Parser.antt =====
-- expressions.go: the recursive descent, which evaluates as it reads.
--
-- The parser's position is what is left of the input. A function of the descent runs on fuel, and
-- gives none when it has too little.
pub mod Literals
pub mod Hangs
mod Behind
mod Operands
pub mod Ends
use kai_server.Common.Bytes.{Bytes, codes, bytes_eq, has_prefix}
use kai_server.Common.{
  ℕ, zero, suc, Bool, true, false, ◌&&◌, ◌||◌, not, List, [], ◌∷◌, ◌++◌, Option, none, some, drop,
  ◌==◌, leb, if◌then◌else◌,
}
use kai_server.Workflow.Expressions.Values.{
  AnyValue, nothing, bool, text, int, float, Library, to_bool, expr_equals, expr_less,
}
use kai_server.Workflow.Expressions.Context.{ExprContext, lookup_context, call_function}

infixl 5 ◌>>=◌
abbrev pub ◌>>=◌ {ℓ κ} : {A : Type ℓ} {B : Type κ} → Option A → (A → Option B) → Option B
none >>= next = none
some a >>= next = next a

-- (skipWhitespace)
unfoldable pub skip_whitespace : Bytes → Bytes
skip_whitespace [] = []
skip_whitespace (c ∷ s) = let rest = skip_whitespace s in if c == 32 || c == 9 then rest else c ∷ s

abbrev pub is_digit : ℕ → Bool
is_digit c = leb 48 c && leb c 57

-- the characters of an identifier
abbrev pub is_name : ℕ → Bool
is_name c =
    c == 46
    || (c == 95 || (c == 45 || ((leb 97 c && leb c 122) || ((leb 65 c && leb c 90) || is_digit c))))

-- The longest start whose characters pass, and what is behind it.
unfoldable pub span : (ℕ → Bool) → Bytes → Bytes × Bytes
span passes [] = ([], [])
span passes (c ∷ s) =
    let rest = span passes s in if passes c then (c ∷ rest.0, rest.1) else ([], c ∷ s)

-- (parseString) behind the opening quote
unfoldable pub parse_string : Bytes → Bytes × Bytes
parse_string [] = ([], [])
parse_string (c ∷ []) = if c == 39 then ([], []) else (c ∷ [], [])
parse_string (c ∷ d ∷ s) =
    let escaped = parse_string s in
    let rest = parse_string (d ∷ s) in
    if c == 39
    then if d == 39 then (39 ∷ escaped.0, escaped.1) else ([], d ∷ s)
    else (c ∷ rest.0, rest.1)

unfoldable pub has_dot : Bytes → Bool
has_dot [] = false
has_dot (c ∷ s) = let rest = has_dot s in if c == 46 then true else rest

-- A byte that is passed over if it comes next.
abbrev pub drop_if : ℕ → Bytes → Bytes
drop_if c [] = []
drop_if c (d ∷ s) = if d == c then s else d ∷ s

abbrev pub starts : ℕ → Bytes → Bool
starts c [] = false
starts c (d ∷ s) = d == c

pub data Operator : Type 0 where
  equals differs at_most at_least below above : Operator

-- The operator that comes next.
abbrev pub operator : Bytes → Option Operator
operator s =
    if has_prefix s (codes "==")
    then some equals
    else if has_prefix s (codes "!=")
    then some differs
    else if has_prefix s (codes "<=")
    then some at_most
    else if has_prefix s (codes ">=")
    then some at_least
    else if has_prefix s (codes "<")
    then some below
    else if has_prefix s (codes ">")
    then some above
    else none

abbrev pub width : Operator → ℕ
width equals = 2
width differs = 2
width at_most = 2
width at_least = 2
width below = 1
width above = 1

module _ (lib : Library) (ctx : ExprContext) where
  abbrev pub apply : Operator → AnyValue → AnyValue → AnyValue
  apply equals a b = bool (expr_equals lib a b)
  apply differs a b = bool (not (expr_equals lib a b))
  apply at_most a b = bool (not (expr_less lib b a))
  apply at_least a b = bool (not (expr_less lib a b))
  apply below a b = bool (expr_less lib a b)
  apply above a b = bool (expr_less lib b a)

  -- (parseNumber)
  abbrev pub number_of : Bytes → AnyValue
  number_of digits =
      if has_dot digits then float (lib.scan_float digits) else int (lib.scan_int digits)

  -- The identifiers that are literals.
  abbrev pub literal : Bytes → Option AnyValue
  literal name =
      if bytes_eq (lib.to_lower name) (codes "true")
      then some (bool true)
      else if bytes_eq (lib.to_lower name) (codes "false")
      then some (bool false)
      else if bytes_eq (lib.to_lower name) (codes "null")
      then some nothing
      else none

  unfoldable mutual
    -- (parseOr)
    pub parse_or : ℕ → Bytes → Option (AnyValue × Bytes)
    parse_or zero s = none
    parse_or (suc fuel) s = parse_and fuel s >>= λ p. or_rest fuel p.0 p.1

    -- Its loop, which stops behind the first operand that is true.
    pub or_rest : ℕ → AnyValue → Bytes → Option (AnyValue × Bytes)
    or_rest zero left s = none
    or_rest (suc fuel) left s = elim (has_prefix (skip_whitespace s) (codes "||")) [
      | false ↦ some (left, skip_whitespace s)
      | true ↦ parse_and fuel (drop 2 (skip_whitespace s)) >>= λ p. elim (to_bool lib left) [
        | true ↦ some (left, p.1)
        | false ↦ or_rest fuel p.0 p.1
      ]
    ]

    -- (parseAnd)
    pub parse_and : ℕ → Bytes → Option (AnyValue × Bytes)
    parse_and zero s = none
    parse_and (suc fuel) s = parse_comparison fuel s >>= λ p. and_rest fuel p.0 p.1

    -- Its loop, which stops behind the first operand that is false.
    pub and_rest : ℕ → AnyValue → Bytes → Option (AnyValue × Bytes)
    and_rest zero left s = none
    and_rest (suc fuel) left s = elim (has_prefix (skip_whitespace s) (codes "&&")) [
      | false ↦ some (left, skip_whitespace s)
      | true ↦ parse_comparison fuel (drop 2 (skip_whitespace s)) >>= λ p. elim (to_bool lib left) [
        | false ↦ some (left, p.1)
        | true ↦ and_rest fuel p.0 p.1
      ]
    ]

    -- (parseComparison)
    pub parse_comparison : ℕ → Bytes → Option (AnyValue × Bytes)
    parse_comparison zero s = none
    parse_comparison (suc fuel) s =
        parse_not fuel s >>= λ p. compare_rest fuel p.0 (skip_whitespace p.1)

    pub compare_rest : ℕ → AnyValue → Bytes → Option (AnyValue × Bytes)
    compare_rest zero left s = none
    compare_rest (suc fuel) left s = elim (operator s) [
      | none ↦ some (left, s)
      | some op ↦ parse_not fuel (drop (width op) s) >>= λ p. some (apply op left p.0, p.1)
    ]

    -- (parseNot)
    pub parse_not : ℕ → Bytes → Option (AnyValue × Bytes)
    parse_not zero s = none
    parse_not (suc fuel) s = elim (starts 33 (skip_whitespace s)) [
      | true ↦ parse_not fuel (drop 1 (skip_whitespace s)) >>= λ p.
          some (bool (not (to_bool lib p.0)), p.1)
      | false ↦ parse_primary fuel (skip_whitespace s)
    ]

    -- (parsePrimary) behind white space
    pub parse_primary : ℕ → Bytes → Option (AnyValue × Bytes)
    parse_primary zero s = none
    parse_primary (suc fuel) [] = some (nothing, [])
    parse_primary (suc fuel) (c ∷ s) = elim (c == 40) [
      | true ↦ parse_or fuel s >>= λ p. some (p.0, drop_if 41 (skip_whitespace p.1))
      | false ↦ elim (c == 39) [
        | true ↦ some (text (parse_string s).0, (parse_string s).1)
        | false ↦ elim (is_digit c) [
          | true ↦
              let number = span (λ d. is_digit d || d == 46) (c ∷ s) in
              some (number_of number.0, number.1)
          | false ↦ let name = span is_name (c ∷ s) in parse_identifier fuel name.0 name.1
        ]
      ]
    ]

    -- (parseIdentifier) behind the name
    pub parse_identifier : ℕ → Bytes → Bytes → Option (AnyValue × Bytes)
    parse_identifier zero name s = none
    parse_identifier (suc fuel) [] s = some (nothing, s)
    parse_identifier (suc fuel) (c ∷ name) s = elim (literal (c ∷ name)) [
      | some v ↦ some (v, s)
      | none ↦ elim (starts 40 (skip_whitespace s)) [
        | true ↦ parse_arguments fuel [] (drop 1 (skip_whitespace s)) >>= λ p.
            some (call_function lib ctx (c ∷ name) p.0, drop_if 41 p.1)
        | false ↦ some (lookup_context ctx (c ∷ name), skip_whitespace s)
      ]
    ]

    -- The loop of parseFunction over its arguments.
    pub parse_arguments : ℕ → List AnyValue → Bytes → Option (List AnyValue × Bytes)
    parse_arguments zero args s = none
    parse_arguments (suc fuel) args s = arguments_at fuel args (skip_whitespace s)

    pub arguments_at : ℕ → List AnyValue → Bytes → Option (List AnyValue × Bytes)
    arguments_at zero args s = none
    arguments_at (suc fuel) args [] = some (args, [])
    arguments_at (suc fuel) args (c ∷ s) = elim (c == 41) [
      | true ↦ some (args, c ∷ s)
      | false ↦ elim args [
        | [] ↦ parse_or fuel (c ∷ s) >>= λ p. parse_arguments fuel (p.0 ∷ []) p.1
        | a ∷ more ↦ parse_or fuel (drop_if 44 (c ∷ s)) >>= λ p.
            parse_arguments fuel ((a ∷ more) ++ (p.0 ∷ [])) p.1
      ]
    ]

  -- (EvalExpr)
  abbrev pub eval_expr : ℕ → Bytes → Option AnyValue
  eval_expr fuel expr = parse_or fuel expr >>= λ p. some p.0
