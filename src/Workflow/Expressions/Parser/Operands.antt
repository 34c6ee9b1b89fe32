-- ===== src/Workflow/Expressions/Parser/Operands.antt =====
-- expressions.go: what stands between operators is read to its end in an input without a parenthesis that opens.
use kai_server.Common.Bytes.{Bytes, lacks}
use kai_server.Common.{
  ℕ, zero, suc, ◌+◌, ◌≤◌, ◌≡◌, refl, arith, true, false, Bool-cases, inl, inr, [], ◌∷◌, Option,
  some, Option-cases, length, drop, ◌==◌, ◌||◌, not,
}
use kai_server.Workflow.Expressions.Values.{AnyValue, nothing, bool, text, Library, to_bool}
use kai_server.Workflow.Expressions.Context.{ExprContext, lookup_context}
use kai_server.Workflow.Expressions.Parser.{
  ◌>>=◌, skip_whitespace, span, parse_string, starts, literal, is_name, is_digit, number_of,
  parse_not, parse_primary, parse_identifier,
}
use kai_server.Workflow.Expressions.Parser.Behind.{
  Behind, skip_whitespace-Behind, drop-Behind, span-Behind, parse_string-Behind, starts-lacks,
  drop-shorter,
}

-- A value was read.
abbrev pub Reads : Option (AnyValue × Bytes) → Bytes → Type 0
Reads o s = (v : AnyValue) × ((r : Bytes) × ((o ≡ some (v, r)) × Behind r s))

pub reads : (v : AnyValue) (r s : Bytes) → Behind r s → Reads (some (v, r)) s
reads v r s b = (v, (r, (refl, b)))

pub Reads-Behind :
    (o : Option (AnyValue × Bytes)) (r s : Bytes) → Behind r s → Reads o r → Reads o s
Reads-Behind o r s b (v, (r', (e, (l, h)))) = (v, (r', (e, (omega (arith, b.0, l), h))))

pub Reads-bind :
    (o : Option (AnyValue × Bytes)) (next : AnyValue × Bytes → Option (AnyValue × Bytes))
    (s : Bytes)
    → Reads o s
    → ((v : AnyValue) (r : Bytes) → Behind r s → Reads (next (v, r)) s)
    → Reads (o >>= next) s
Reads-bind o next s (v, (r, (e, b))) more = rw (e) (more v r b)

-- A level of the descent under a bound that the level has for what is left.
pub Reads-next :
    (o : Option (AnyValue × Bytes)) (next : AnyValue × Bytes → Option (AnyValue × Bytes))
    (r s : Bytes)
    → Behind r s
    → Reads o r
    → ((v : AnyValue) (r' : Bytes) → Behind r' r → Reads (next (v, r')) r')
    → Reads (o >>= next) s
Reads-next o next r s b read more =
    Reads-Behind (o >>= next) r s b
      (Reads-bind o next r read λ v r' b'. Reads-Behind (next (v, r')) r' r b' (more v r' b'))

module _ (lib : Library) (ctx : ExprContext) where
  identifier-Reads :
      (fuel : ℕ) (name s : Bytes)
      → lacks 40 s ≡ true
      → 1 ≤ fuel
      → Reads (parse_identifier lib ctx fuel name s) s
  unfolding parse_identifier
  identifier-Reads zero name s h l = ground arith
  identifier-Reads (suc fuel) [] s h l = reads nothing s s (omega arith, h)
  identifier-Reads (suc fuel) (c ∷ name) s h l =
      let blank = skip_whitespace-Behind s h in
      elim (Option-cases (literal lib ctx (c ∷ name))) [
        | inr (v, e) ↦ rw (parse_identifier, e) (reads v s s (omega arith, h))
        | inl e ↦
            rw (parse_identifier, e, starts-lacks (skip_whitespace s) blank.1)
              (reads (lookup_context ctx (c ∷ name)) (skip_whitespace s) s blank)
      ]

  primary-Reads :
      (fuel : ℕ) (s : Bytes) → lacks 40 s ≡ true → 2 ≤ fuel → Reads (parse_primary lib ctx fuel s) s
  unfolding parse_primary lacks
  primary-Reads zero s h l = ground arith
  primary-Reads (suc fuel) [] h l = reads nothing [] [] (omega arith, refl)
  primary-Reads (suc fuel) (c ∷ s) h l =
      let plain : (c == 40) ≡ false = ground arith in
      let more : lacks 40 s ≡ true = ground arith in
      let quoted = parse_string-Behind s more in
      let number = span-Behind (λ d. is_digit d || d == 46) (c ∷ s) h in
      let name = span-Behind is_name (c ∷ s) h in
      rw (parse_primary, plain)
        (elim (Bool-cases (c == 39)) [
          | inl e ↦ rw (e) (
              reads (text (parse_string s).0) (parse_string s).1 (c ∷ s)
                (omega (arith, quoted.0), quoted.1))
          | inr e ↦ rw (e) (elim (Bool-cases (is_digit c)) [
            | inl e' ↦ rw (e') (
                reads (number_of lib ctx (span (λ d. is_digit d || d == 46) (c ∷ s)).0)
                  (span (λ d. is_digit d || d == 46) (c ∷ s)).1 (c ∷ s) number)
            | inr e' ↦ rw (e') (
                Reads-Behind
                  (parse_identifier lib ctx fuel (span is_name (c ∷ s)).0 (span is_name (c ∷ s)).1)
                  (span is_name (c ∷ s)).1 (c ∷ s) name
                  (identifier-Reads fuel (span is_name (c ∷ s)).0 (span is_name (c ∷ s)).1 name.1
                    (omega arith)))
          ])
        ])

  pub not-Reads :
      (fuel : ℕ) (s : Bytes)
      → lacks 40 s ≡ true
      → length s + 3 ≤ fuel
      → Reads (parse_not lib ctx fuel s) s
  unfolding parse_not
  not-Reads zero s h l = ground arith
  not-Reads (suc fuel) s h l =
      let blank = skip_whitespace-Behind s h in
      elim (Bool-cases (starts 33 (skip_whitespace s))) [
        | inl e ↦
            let behind = drop-Behind 1 (skip_whitespace s) blank.1 in
            let shorter = drop-shorter 33 0 (skip_whitespace s) e in
            rw (parse_not, e)
              (Reads-bind (parse_not lib ctx fuel (drop 1 (skip_whitespace s)))
                (λ p. some (bool (not (to_bool lib p.0)), p.1)) s
                (Reads-Behind (parse_not lib ctx fuel (drop 1 (skip_whitespace s)))
                  (drop 1 (skip_whitespace s)) s (omega (arith, behind.0, blank.0), behind.1)
                  (not-Reads fuel (drop 1 (skip_whitespace s)) behind.1
                    (omega (arith, shorter, blank.0))))
                (λ v r b. reads (bool (not (to_bool lib v))) r s b))
        | inr e ↦
            rw (parse_not, e)
              (Reads-Behind (parse_primary lib ctx fuel (skip_whitespace s)) (skip_whitespace s) s
                blank (primary-Reads fuel (skip_whitespace s) blank.1 (omega arith)))
      ]
