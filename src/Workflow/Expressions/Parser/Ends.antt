-- ===== src/Workflow/Expressions/Parser/Ends.antt =====
-- expressions.go: the descent ends on every expression without a parenthesis that opens.
use kai_server.Common.Bytes.{Bytes, codes, has_prefix, lacks}
use kai_server.Common.{
  ℕ, zero, suc, ◌+◌, ◌≤◌, ◌≡◌, refl, arith, true, false, Bool-cases, inl, inr, [], ◌∷◌, some,
  Option-cases, length, drop,
}
use kai_server.Workflow.Expressions.Values.{AnyValue, Library, to_bool}
use kai_server.Workflow.Expressions.Context.{ExprContext}
use kai_server.Workflow.Expressions.Parser.{
  skip_whitespace, operator, width, apply, parse_or, or_rest, parse_and, and_rest, parse_comparison,
  compare_rest, parse_not, eval_expr,
}
use kai_server.Workflow.Expressions.Parser.Behind.{
  skip_whitespace-Behind, drop-Behind, drop-shorter, has_prefix-starts,
}
use kai_server.Workflow.Expressions.Parser.Operands.{
  Reads, reads, Reads-Behind, Reads-next, not-Reads,
}

module _ (lib : Library) (ctx : ExprContext) where
  compare_rest-Reads :
      (fuel : ℕ) (left : AnyValue) (s : Bytes)
      → lacks 40 s ≡ true
      → length s + 4 ≤ fuel
      → Reads (compare_rest lib ctx fuel left s) s
  unfolding compare_rest
  compare_rest-Reads zero left s h l = ground arith
  compare_rest-Reads (suc fuel) left s h l = elim (Option-cases (operator s)) [
    | inl e ↦ rw (compare_rest, e) (reads left s s (omega arith, h))
    | inr (op, e) ↦
        let behind = drop-Behind (width op) s h in
        rw (compare_rest, e)
          (Reads-next (parse_not lib ctx fuel (drop (width op) s))
            (λ p. some (apply lib ctx op left p.0, p.1)) (drop (width op) s) s behind
            (not-Reads lib ctx fuel (drop (width op) s) behind.1 (omega (arith, behind.0)))
            (λ v r b. reads (apply lib ctx op left v) r r (omega arith, b.1)))
  ]

  comparison-Reads :
      (fuel : ℕ) (s : Bytes)
      → lacks 40 s ≡ true
      → length s + 5 ≤ fuel
      → Reads (parse_comparison lib ctx fuel s) s
  unfolding parse_comparison
  comparison-Reads zero s h l = ground arith
  comparison-Reads (suc fuel) s h l =
      Reads-next (parse_not lib ctx fuel s)
        (λ p. compare_rest lib ctx fuel p.0 (skip_whitespace p.1)) s s (omega arith, h)
        (not-Reads lib ctx fuel s h (omega arith))
        λ v r b.
          let blank = skip_whitespace-Behind r b.1 in
          Reads-Behind (compare_rest lib ctx fuel v (skip_whitespace r)) (skip_whitespace r) r blank
            (compare_rest-Reads fuel v (skip_whitespace r) blank.1 (omega (arith, blank.0, b.0)))

  and_rest-Reads :
      (fuel : ℕ) (left : AnyValue) (s : Bytes)
      → lacks 40 s ≡ true
      → length s + 6 ≤ fuel
      → Reads (and_rest lib ctx fuel left s) s
  unfolding and_rest
  and_rest-Reads zero left s h l = ground arith
  and_rest-Reads (suc fuel) left s h l =
      let t = skip_whitespace s in
      let blank = skip_whitespace-Behind s h in
      elim (Bool-cases (has_prefix t (codes "&&"))) [
        | inr e ↦ rw (and_rest, e) (reads left t s blank)
        | inl e ↦
            let behind = drop-Behind 2 t blank.1 in
            let shorter = drop-shorter 38 1 t (has_prefix-starts 38 (38 ∷ []) t e) in
            rw (and_rest, e)
              (Reads-next (parse_comparison lib ctx fuel (drop 2 t))
                (λ p. elim (to_bool lib left) [
                  | false ↦ some (left, p.1)
                  | true ↦ and_rest lib ctx fuel p.0 p.1
                ])
                (drop 2 t) s (omega (arith, behind.0, blank.0), behind.1)
                (comparison-Reads fuel (drop 2 t) behind.1 (omega (arith, behind.0, blank.0)))
                (λ v r b. elim (Bool-cases (to_bool lib left)) [
                  | inl e' ↦
                      rw (e') (and_rest-Reads fuel v r b.1 (omega (arith, shorter, blank.0, b.0)))
                  | inr e' ↦ rw (e') (reads left r r (omega arith, b.1))
                ]))
      ]

  and-Reads :
      (fuel : ℕ) (s : Bytes)
      → lacks 40 s ≡ true
      → length s + 7 ≤ fuel
      → Reads (parse_and lib ctx fuel s) s
  unfolding parse_and
  and-Reads zero s h l = ground arith
  and-Reads (suc fuel) s h l =
      Reads-next (parse_comparison lib ctx fuel s) (λ p. and_rest lib ctx fuel p.0 p.1) s s
        (omega arith, h) (comparison-Reads fuel s h (omega arith))
        λ v r b. and_rest-Reads fuel v r b.1 (omega (arith, b.0))

  or_rest-Reads :
      (fuel : ℕ) (left : AnyValue) (s : Bytes)
      → lacks 40 s ≡ true
      → length s + 8 ≤ fuel
      → Reads (or_rest lib ctx fuel left s) s
  unfolding or_rest
  or_rest-Reads zero left s h l = ground arith
  or_rest-Reads (suc fuel) left s h l =
      let t = skip_whitespace s in
      let blank = skip_whitespace-Behind s h in
      elim (Bool-cases (has_prefix t (codes "||"))) [
        | inr e ↦ rw (or_rest, e) (reads left t s blank)
        | inl e ↦
            let behind = drop-Behind 2 t blank.1 in
            let shorter = drop-shorter 124 1 t (has_prefix-starts 124 (124 ∷ []) t e) in
            rw (or_rest, e)
              (Reads-next (parse_and lib ctx fuel (drop 2 t))
                (λ p. elim (to_bool lib left) [
                  | true ↦ some (left, p.1)
                  | false ↦ or_rest lib ctx fuel p.0 p.1
                ])
                (drop 2 t) s (omega (arith, behind.0, blank.0), behind.1)
                (and-Reads fuel (drop 2 t) behind.1 (omega (arith, behind.0, blank.0)))
                (λ v r b. elim (Bool-cases (to_bool lib left)) [
                  | inl e' ↦ rw (e') (reads left r r (omega arith, b.1))
                  | inr e' ↦
                      rw (e') (or_rest-Reads fuel v r b.1 (omega (arith, shorter, blank.0, b.0)))
                ]))
      ]

  or-Reads :
      (fuel : ℕ) (s : Bytes)
      → lacks 40 s ≡ true
      → length s + 9 ≤ fuel
      → Reads (parse_or lib ctx fuel s) s
  unfolding parse_or
  or-Reads zero s h l = ground arith
  or-Reads (suc fuel) s h l =
      Reads-next (parse_and lib ctx fuel s) (λ p. or_rest lib ctx fuel p.0 p.1) s s (omega arith, h)
        (and-Reads fuel s h (omega arith)) λ v r b. or_rest-Reads fuel v r b.1 (omega (arith, b.0))

  -- An expression without "(" has a value, with any fuel from its length and nine on.
  pub eval_expr-ends :
      (fuel : ℕ) (s : Bytes)
      → lacks 40 s ≡ true
      → length s + 9 ≤ fuel
      → (v : AnyValue) × (eval_expr lib ctx fuel s ≡ some v)
  eval_expr-ends fuel s h l = let (v, (r, (e, b))) = or-Reads fuel s h l in (v, rw (e) refl)
