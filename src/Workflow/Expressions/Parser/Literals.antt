-- ===== src/Workflow/Expressions/Parser/Literals.antt =====
-- expressions.go, parseString: a text in quotes.
use kai_server.Common.Bytes.{Bytes, has_prefix}
use kai_server.Common.{
  ℕ, suc, ◌≡◌, refl, arith, false, Bool-cases, inl, inr, [], ◌∷◌, ◌++◌, some, ◌==◌, if◌then◌else◌,
}
use kai_server.Workflow.Expressions.Values.{text, Library}
use kai_server.Workflow.Expressions.Context.{ExprContext}
use kai_server.Workflow.Expressions.Parser.{
  parse_string, starts, skip_whitespace, parse_or, eval_expr,
}

-- A text with its quotes written twice.
unfoldable pub escape : Bytes → Bytes
escape [] = []
escape (c ∷ s) = let rest = escape s in if c == 39 then 39 ∷ 39 ∷ rest else c ∷ rest

parse_string_plain :
    (c : ℕ) (s : Bytes)
    → (c == 39) ≡ false
    → parse_string (c ∷ s) ≡ (c ∷ (parse_string s).0, (parse_string s).1)
unfolding parse_string
parse_string_plain c [] h = rw (h) refl
parse_string_plain c (d ∷ s) h = rw (h) refl

parse_string_end : (s : Bytes) → starts 39 s ≡ false → parse_string (39 ∷ s) ≡ ([], s)
unfolding parse_string
parse_string_end [] h = refl
parse_string_end (d ∷ s) h = rw (h) refl

-- parseString gives back a text with its quotes written twice, and stops behind the closing quote,
-- if no further quote follows.
pub parse_string-escape :
    (s rest : Bytes) → starts 39 rest ≡ false → parse_string (escape s ++ (39 ∷ rest)) ≡ (s, rest)
unfolding parse_string escape
parse_string-escape [] rest h = parse_string_end rest h
parse_string-escape (c ∷ s) rest h = elim (Bool-cases (c == 39)) [
  | inl e ↦ let same : c ≡ 39 = ground arith in rw (e, parse_string-escape s rest h, same) refl
  | inr e ↦
      rw (e, parse_string_plain c (escape s ++ (39 ∷ rest)) e, parse_string-escape s rest h) refl
]

module _ (lib : Library) (ctx : ExprContext) (s : Bytes) where
  quoted_or :
      (fuel : ℕ)
      → parse_or lib ctx (suc (suc (suc (suc (suc fuel))))) (39 ∷ (escape s ++ (39 ∷ [])))
        ≡ some (text s, [])
  unfolding parse_or skip_whitespace has_prefix
  quoted_or fuel = rw (parse_or, parse_string-escape s [] refl) refl

  -- An expression that is a text in quotes, the quotes in it written twice, has the text for its
  -- value, with any fuel of five or more.
  pub eval_expr-escape :
      (fuel : ℕ)
      → eval_expr lib ctx (suc (suc (suc (suc (suc fuel))))) (39 ∷ (escape s ++ (39 ∷ [])))
        ≡ some (text s)
  eval_expr-escape fuel = rw (quoted_or fuel) refl
