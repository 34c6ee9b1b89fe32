-- ===== src/Workflow/Expressions/Parser/Hangs.antt =====
-- expressions.go, parseFunction: an argument that starts with a character no rule takes is read for
-- ever.
use kai_server.Common.Bytes.{Bytes, has_prefix}
use kai_server.Common.{
  ℕ, zero, suc, ◌≡◌, ◌⊎◌, refl, List, [], ◌∷◌, ◌++◌, Option, none, some, inl, inr,
}
use kai_server.Workflow.Expressions.Values.{AnyValue, nothing, Library}
use kai_server.Workflow.Expressions.Context.{ExprContext}
use kai_server.Workflow.Expressions.Parser.{
  skip_whitespace, span, parse_or, or_rest, parse_and, and_rest, parse_comparison, compare_rest,
  parse_not, parse_primary, parse_identifier, parse_arguments, arguments_at, eval_expr, literal,
}

module _ (lib : Library) (ctx : ExprContext) where
  -- Too little fuel, or nothing read: the input starts with "@".
  abbrev Idle : Option (AnyValue × Bytes) → Bytes → Type 0
  Idle o s = (o ≡ none) ⊎ (o ≡ some (nothing, 64 ∷ s))

  primary-Idle : (fuel : ℕ) (s : Bytes) → Idle (parse_primary lib ctx fuel (64 ∷ s)) s
  unfolding parse_primary span
  primary-Idle zero s = inl refl
  primary-Idle (suc zero) s = inl refl
  primary-Idle (suc (suc fuel)) s = inr refl

  not-Idle : (fuel : ℕ) (s : Bytes) → Idle (parse_not lib ctx fuel (64 ∷ s)) s
  unfolding parse_not skip_whitespace
  not-Idle zero s = inl refl
  not-Idle (suc fuel) s = primary-Idle fuel s

  compare_rest-Idle : (fuel : ℕ) (s : Bytes) → Idle (compare_rest lib ctx fuel nothing (64 ∷ s)) s
  unfolding compare_rest has_prefix
  compare_rest-Idle zero s = inl refl
  compare_rest-Idle (suc fuel) s = inr refl

  comparison-Idle : (fuel : ℕ) (s : Bytes) → Idle (parse_comparison lib ctx fuel (64 ∷ s)) s
  unfolding parse_comparison skip_whitespace
  comparison-Idle zero s = inl refl
  comparison-Idle (suc fuel) s = elim (not-Idle fuel s) [
    | inl e ↦ inl (rw (e) refl)
    | inr e ↦ rw (e) (compare_rest-Idle fuel s)
  ]

  and_rest-Idle : (fuel : ℕ) (s : Bytes) → Idle (and_rest lib ctx fuel nothing (64 ∷ s)) s
  unfolding and_rest skip_whitespace has_prefix
  and_rest-Idle zero s = inl refl
  and_rest-Idle (suc fuel) s = inr refl

  and-Idle : (fuel : ℕ) (s : Bytes) → Idle (parse_and lib ctx fuel (64 ∷ s)) s
  unfolding parse_and
  and-Idle zero s = inl refl
  and-Idle (suc fuel) s = elim (comparison-Idle fuel s) [
    | inl e ↦ inl (rw (e) refl)
    | inr e ↦ rw (e) (and_rest-Idle fuel s)
  ]

  or_rest-Idle : (fuel : ℕ) (s : Bytes) → Idle (or_rest lib ctx fuel nothing (64 ∷ s)) s
  unfolding or_rest skip_whitespace has_prefix
  or_rest-Idle zero s = inl refl
  or_rest-Idle (suc fuel) s = inr refl

  or-Idle : (fuel : ℕ) (s : Bytes) → Idle (parse_or lib ctx fuel (64 ∷ s)) s
  unfolding parse_or
  or-Idle zero s = inl refl
  or-Idle (suc fuel) s = elim (and-Idle fuel s) [
    | inl e ↦ inl (rw (e) refl)
    | inr e ↦ rw (e) (or_rest-Idle fuel s)
  ]

  -- The loop over the arguments does not end, whatever the fuel.
  mutual
    unfolding parse_arguments arguments_at skip_whitespace

    parse_arguments-hangs :
        (fuel : ℕ) (args : List AnyValue) (s : Bytes)
        → parse_arguments lib ctx fuel args (64 ∷ s) ≡ none
    parse_arguments-hangs zero args s = refl
    parse_arguments-hangs (suc fuel) args s = arguments_at-hangs fuel args s

    arguments_at-hangs :
        (fuel : ℕ) (args : List AnyValue) (s : Bytes)
        → arguments_at lib ctx fuel args (64 ∷ s) ≡ none
    arguments_at-hangs zero args s = refl
    arguments_at-hangs (suc fuel) [] s = elim (or-Idle fuel s) [
      | inl e ↦ rw (e) refl
      | inr e ↦ rw (e) (parse_arguments-hangs fuel (nothing ∷ []) s)
    ]
    arguments_at-hangs (suc fuel) (a ∷ args) s = elim (or-Idle fuel s) [
      | inl e ↦ rw (e) refl
      | inr e ↦ rw (e) (parse_arguments-hangs fuel ((a ∷ args) ++ (nothing ∷ [])) s)
    ]

  parse_identifier-hangs :
      (fuel : ℕ) (s : Bytes)
      → literal lib ctx (102 ∷ []) ≡ none
      → parse_identifier lib ctx fuel (102 ∷ []) (40 ∷ 64 ∷ s) ≡ none
  unfolding parse_identifier skip_whitespace
  parse_identifier-hangs zero s h = refl
  parse_identifier-hangs (suc fuel) s h =
      rw (parse_identifier, h) (rw (parse_arguments-hangs fuel [] s) refl)

  primary-hangs :
      (fuel : ℕ) (s : Bytes)
      → literal lib ctx (102 ∷ []) ≡ none
      → parse_primary lib ctx fuel (102 ∷ 40 ∷ 64 ∷ s) ≡ none
  unfolding parse_primary span
  primary-hangs zero s h = refl
  primary-hangs (suc fuel) s h = parse_identifier-hangs fuel s h

  not-hangs :
      (fuel : ℕ) (s : Bytes)
      → literal lib ctx (102 ∷ []) ≡ none
      → parse_not lib ctx fuel (102 ∷ 40 ∷ 64 ∷ s) ≡ none
  unfolding parse_not skip_whitespace
  not-hangs zero s h = refl
  not-hangs (suc fuel) s h = primary-hangs fuel s h

  -- The levels above pass on that there is no value.
  or-hangs :
      (fuel : ℕ) (s : Bytes)
      → literal lib ctx (102 ∷ []) ≡ none
      → parse_or lib ctx fuel (102 ∷ 40 ∷ 64 ∷ s) ≡ none
  unfolding parse_or parse_and parse_comparison
  or-hangs zero s h = refl
  or-hangs (suc zero) s h = refl
  or-hangs (suc (suc zero)) s h = refl
  or-hangs (suc (suc (suc fuel))) s h = rw (not-hangs fuel s h) refl

  -- The expression `f(@)`, whatever follows the "@", has no value, however much fuel there is: the
  -- loop over the arguments reads nothing, and does not end. The name is none of the literals.
  pub eval_expr-hangs :
      (fuel : ℕ) (s : Bytes)
      → literal lib ctx (102 ∷ []) ≡ none
      → eval_expr lib ctx fuel (102 ∷ 40 ∷ 64 ∷ s) ≡ none
  eval_expr-hangs fuel s h = rw (or-hangs fuel s h) refl
