-- ===== src/Workflow/Expressions/Parser/Behind.antt =====
-- expressions.go: what the readers of single tokens leave of an input without a parenthesis that opens.
use kai_server.Common.Bytes.{Bytes, has_prefix, lacks}
use kai_server.Common.{
  ℕ, zero, suc, ◌≤◌, ◌<◌, ◌≡◌, refl, arith, Bool, true, false, Bool-cases, inl, inr, [], ◌∷◌,
  length, drop, length-drop, ◌==◌, ◌||◌,
}
use kai_server.Workflow.Expressions.Parser.{skip_whitespace, span, parse_string, starts}

-- What is left is no longer than the input, and without "(".
abbrev pub Behind : Bytes → Bytes → Type 0
Behind r s = (length r ≤ length s) × (lacks 40 r ≡ true)

pub skip_whitespace-Behind : (s : Bytes) → lacks 40 s ≡ true → Behind (skip_whitespace s) s
unfolding skip_whitespace lacks
skip_whitespace-Behind [] h = (omega arith, refl)
skip_whitespace-Behind (c ∷ s) h = elim (Bool-cases (c == 32 || c == 9)) [
  | inl e ↦
      let more : lacks 40 s ≡ true = ground arith in
      let rest = skip_whitespace-Behind s more in rw (e) (omega (arith, rest.0), rest.1)
  | inr e ↦ rw (e) (omega arith, h)
]

pub drop-Behind : (n : ℕ) (s : Bytes) → lacks 40 s ≡ true → Behind (drop n s) s
unfolding lacks
drop-Behind zero s h = (omega arith, h)
drop-Behind (suc n) [] h = (omega arith, refl)
drop-Behind (suc n) (c ∷ s) h =
    let more : lacks 40 s ≡ true = ground arith in
    let rest = drop-Behind n s more in (omega (arith, rest.0), rest.1)

pub span-Behind : (passes : ℕ → Bool) (s : Bytes) → lacks 40 s ≡ true → Behind (span passes s).1 s
unfolding span lacks
span-Behind passes [] h = (omega arith, refl)
span-Behind passes (c ∷ s) h = elim (Bool-cases (passes c)) [
  | inl e ↦
      let more : lacks 40 s ≡ true = ground arith in
      let rest = span-Behind passes s more in rw (e) (omega (arith, rest.0), rest.1)
  | inr e ↦ rw (e) (omega arith, h)
]

pub parse_string-Behind : (s : Bytes) → lacks 40 s ≡ true → Behind (parse_string s).1 s
unfolding parse_string lacks
parse_string-Behind [] h = (omega arith, refl)
parse_string-Behind (c ∷ []) h = elim (Bool-cases (c == 39)) [
  | inl e ↦ rw (e) (omega arith, refl)
  | inr e ↦ rw (e) (omega arith, refl)
]
parse_string-Behind (c ∷ d ∷ s) h =
    let more : lacks 40 (d ∷ s) ≡ true = ground arith in
    let most : lacks 40 s ≡ true = ground arith in
    let escaped = parse_string-Behind s most in
    let rest = parse_string-Behind (d ∷ s) more in
    elim (Bool-cases (c == 39)) [
      | inl e ↦ elim (Bool-cases (d == 39)) [
        | inl e' ↦ rw (e, e') (omega (arith, escaped.0), escaped.1)
        | inr e' ↦ rw (e, e') (omega arith, more)
      ]
      | inr e ↦ rw (e) (omega (arith, rest.0), rest.1)
    ]

pub starts-lacks : (s : Bytes) → lacks 40 s ≡ true → starts 40 s ≡ false
unfolding lacks
starts-lacks [] h = refl
starts-lacks (c ∷ s) h = ground arith

-- What is behind an operator is shorter.
pub drop-shorter : (c n : ℕ) (s : Bytes) → starts c s ≡ true → length (drop (suc n) s) < length s
drop-shorter c n [] h = ground arith
drop-shorter c n (d ∷ s) h = omega (arith, length-drop n s)

pub has_prefix-starts : (c : ℕ) (p s : Bytes) → has_prefix s (c ∷ p) ≡ true → starts c s ≡ true
unfolding has_prefix
has_prefix-starts c p [] h = ground arith
has_prefix-starts c p (d ∷ s) h = ground arith
