-- ===== src/Workflow/Expressions/Interpolation/Templates.antt =====
-- expressions.go, Interpolate: a text and the expressions in it.
use kai_server.Common.Bytes.{Bytes, has_prefix, has_prefix-append}
use kai_server.Common.{
  sym, ap, ◌∙◌, append_assoc, false, Option-cases, ℕ, zero, suc, ◌≤◌, ◌<◌, ◌≡◌, refl, arith,
  Bool-cases, inl, inr, List, [], ◌∷◌, ◌++◌, length-append, drop-append_length, Option, none, some,
  length,
}
use kai_server.Workflow.Expressions.Values.{AnyValue, Library, expr_to_string}
use kai_server.Workflow.Expressions.Parser.{◌>>=◌}
use kai_server.Workflow.Expressions.Interpolation.{
  cut_before, opening, closing, interpolate_from, interpolate,
}

has_prefix-longer :
    (xs t sep : Bytes) → length sep ≤ length xs → has_prefix (xs ++ t) sep ≡ has_prefix xs sep
unfolding has_prefix
has_prefix-longer xs t [] l = refl
has_prefix-longer [] t (c ∷ sep) l = ground arith
has_prefix-longer (x ∷ xs) t (c ∷ sep) l = rw (has_prefix-longer xs t sep (omega arith)) refl

-- Where the text before a separator has none that starts earlier, the cut is there, whatever
-- follows.
cut_before-append :
    (c : ℕ) (sep s t : Bytes)
    → cut_before (c ∷ sep) (s ++ (c ∷ sep)) ≡ some (s, [])
    → cut_before (c ∷ sep) (s ++ ((c ∷ sep) ++ t)) ≡ some (s, t)
unfolding cut_before
cut_before-append c sep [] t h = rw (has_prefix-append (c ∷ sep) t, drop-append_length sep t) refl
cut_before-append c sep (d ∷ s) t h =
    elim (Bool-cases (has_prefix (d ∷ (s ++ (c ∷ sep))) (c ∷ sep))) [
      | inl e ↦ let at_once = rw (e) at h in absurd (cc)
      | inr e ↦
          let later = rw (e) at h in
          let longer : has_prefix (d ∷ (s ++ ((c ∷ sep) ++ t))) (c ∷ sep) ≡ false =
            ap (λ r. has_prefix (d ∷ r) (c ∷ sep)) (sym (append_assoc s (c ∷ sep) t))
            ∙ has_prefix-longer (d ∷ (s ++ (c ∷ sep))) t (c ∷ sep)
                (omega (arith, length-append s (c ∷ sep)))
            ∙ e in
          elim (Option-cases (cut_before (c ∷ sep) (s ++ (c ∷ sep)))) [
            | inl g ↦ let none_there = rw (g) at later in absurd (cc)
            | inr (q, g) ↦
                let there = rw (g) at later in
                let before : q.0 ≡ s = cc in
                let behind : q.1 ≡ [] = cc in
                let found : cut_before (c ∷ sep) (s ++ (c ∷ sep)) ≡ some (s, []) =
                  g ∙ ap (λ r. some (r, q.1)) before ∙ ap (λ r. some (s, r)) behind in
                rw (longer, cut_before-append c sep s t found) refl
          ]
    ]

-- A text and an expression behind it.
pub record Part : Type 0 where
  pub plain : Bytes
  pub expr : Bytes

-- The parts and the text behind them as Interpolate takes them.
unfoldable pub template : List Part → Bytes → Bytes
template [] last = last
template (p ∷ ps) last = p.plain ++ (opening ++ (p.expr ++ (closing ++ template ps last)))

-- A piece of text has no separator that starts in it, one that stands behind it taken along.
abbrev pub IsFree : Bytes → Bytes → Type 0
IsFree sep s = cut_before sep (s ++ sep) ≡ some (s, [])

-- No text has "${{", and no expression "}}".
abbrev pub IsTemplate : List Part → Bytes → Type 0
IsTemplate [] last = cut_before opening last ≡ none
IsTemplate (p ∷ ps) last = IsFree opening p.plain × (IsFree closing p.expr × IsTemplate ps last)

module _ (lib : Library) (eval : Bytes → Option AnyValue) where
  -- The parts with the values of their expressions.
  unfoldable pub filled : List Part → Bytes → Option Bytes
  filled [] last = some last
  filled (p ∷ ps) last = eval (lib.trim_space p.expr) >>= λ v.
      filled ps last >>= λ r. some (p.plain ++ (expr_to_string lib v ++ r))

  interpolate_from-template :
      (fuel : ℕ) (ps : List Part) (last : Bytes)
      → length ps < fuel
      → IsTemplate ps last
      → interpolate_from lib eval fuel (template ps last) ≡ filled ps last
  unfolding interpolate_from template filled
  interpolate_from-template zero ps last l h = ground arith
  interpolate_from-template (suc fuel) [] last l h = rw (interpolate_from, h) refl
  interpolate_from-template (suc fuel) (p ∷ ps) last l (a, (b, c)) =
      rw
        (
          interpolate_from,
          cut_before-append 36 (123 ∷ 123 ∷ []) p.plain (p.expr ++ (closing ++ template ps last)) a,
          cut_before-append 125 (125 ∷ []) p.expr (template ps last) b,
          interpolate_from-template fuel ps last (omega arith) c,
        )
        refl

  length-template : (ps : List Part) (last : Bytes) → length ps ≤ length (template ps last)
  unfolding template
  length-template [] last = omega arith
  length-template (p ∷ ps) last = omega (
    arith,
    length-template ps last,
    length-append p.plain (opening ++ (p.expr ++ (closing ++ template ps last))),
    length-append p.expr (closing ++ template ps last),
  )

  -- Where no plain part has a "${{", and no expression a "}}", one that starts in it and goes on
  -- behind it included: Interpolate puts the value of each expression, without the white space
  -- around it, in its place and leaves the plain parts. It has a result exactly if every expression
  -- has a value.
  pub interpolate-template :
      (ps : List Part) (last : Bytes)
      → IsTemplate ps last
      → interpolate lib eval (template ps last) ≡ filled ps last
  interpolate-template ps last h =
      let enough = length-template ps last in
      interpolate_from-template (suc (length (template ps last))) ps last (omega arith) h
