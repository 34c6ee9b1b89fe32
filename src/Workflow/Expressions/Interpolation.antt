-- ===== src/Workflow/Expressions/Interpolation.antt =====
-- expressions.go, Interpolate: the expressions in a text, between "${{" and "}}".
pub mod Templates
use kai_server.Common.Bytes.{Bytes, bytes_eq, has_prefix}
use kai_server.Common.{
  ℕ, zero, suc, Bool, true, false, List, [], ◌∷◌, ◌++◌, Option, none, some, length, drop,
  if◌then◌else◌,
}
use kai_server.Workflow.Expressions.Values.{AnyValue, Library, to_bool, expr_to_string}
use kai_server.Workflow.Expressions.Parser.{◌>>=◌, eval_expr}
use kai_server.Workflow.Expressions.Context.{ExprContext}

-- What stands before the first occurrence of a text that is not empty, which strings.Index finds,
-- and what stands behind it.
unfoldable pub cut_before : Bytes → Bytes → Option (Bytes × Bytes)
cut_before sep [] = none
cut_before sep (c ∷ s) =
    let rest = cut_before sep s in
    if has_prefix (c ∷ s) sep
    then some ([], drop (length sep) (c ∷ s))
    else (rest >>= λ p. some (c ∷ p.0, p.1))

-- "${{" and "}}"
abbrev pub opening : Bytes
opening = 36 ∷ 123 ∷ 123 ∷ []

abbrev pub closing : Bytes
closing = 125 ∷ 125 ∷ []

module _ (lib : Library) (eval : Bytes → Option AnyValue) where
  -- The loop of Interpolate over what is left of the text.
  unfoldable pub interpolate_from : ℕ → Bytes → Option Bytes
  interpolate_from zero s = none
  interpolate_from (suc fuel) s = elim (cut_before opening s) [
    | none ↦ some s
    | some p ↦ elim (cut_before closing p.1) [
      | none ↦ interpolate_from fuel p.1 >>= λ r. some (p.0 ++ (opening ++ r))
      | some q ↦ eval (lib.trim_space q.0) >>= λ v.
          interpolate_from fuel q.1 >>= λ r. some (p.0 ++ (expr_to_string lib v ++ r))
    ]
  ]

  -- (Interpolate) A round of the loop reads three bytes or more.
  abbrev pub interpolate : Bytes → Option Bytes
  interpolate s = interpolate_from (suc (length s)) s

  -- (InterpolateMap)
  unfoldable pub interpolate_map : List (Bytes × Bytes) → Option (List (Bytes × Bytes))
  interpolate_map [] = some []
  interpolate_map ((k, v) ∷ m) =
      interpolate v >>= λ w. interpolate_map m >>= λ rest. some ((k, w) ∷ rest)

  -- strings.TrimPrefix of "${{", and strings.TrimSuffix of "}}"
  abbrev pub without_opening : Bytes → Bytes
  without_opening s = if has_prefix s opening then drop 3 s else s

  unfoldable pub without_closing : Bytes → Bytes
  without_closing [] = []
  without_closing (c ∷ s) =
      let rest = without_closing s in if bytes_eq (c ∷ s) closing then [] else c ∷ rest

  -- (EvalExprBool)
  abbrev pub eval_expr_bool : Bytes → Option Bool
  eval_expr_bool expr =
      eval (lib.trim_space (without_closing (without_opening (lib.trim_space expr)))) >>= λ v.
      some (to_bool lib v)
