-- ===== src/Access/Slugs.antt =====
-- kailab-control/internal/api/middleware.go, ValidateSlug: which slugs are valid.
use kai_server.Common.Bytes.{Bytes}
use kai_server.Common.{
  ℕ, suc, ◌+◌, ◌≤◌, ◌≡◌, ◌⊎◌, ◌↔◌, refl, ap, arith, true, Bool-cases, inl, inr, [], ◌∷◌, ◌++◌,
  length,
}
use kai_server.Access.{is_special, is_plain, slug_from, validate_slug}

-- A letter or digit, or a sign with i bytes before it that is neither first nor last.
abbrev pub Allowed : ℕ → ℕ → Bytes → Type 0
Allowed i c behind = (is_plain c ≡ true) ⊎ ((is_special c ≡ true) × ((1 ≤ i) × (1 ≤ length behind)))

-- Each byte of the text is allowed where it stands.
abbrev pub EachAllowed : ℕ → Bytes → Type 0
EachAllowed i s =
    (before : Bytes) (c : ℕ) (behind : Bytes)
    → s ≡ before ++ (c ∷ behind)
    → Allowed (i + length before) c behind

head-Allowed :
    (n i x : ℕ) (s : Bytes)
    → i + suc (length s) ≡ n
    → slug_from n i (x ∷ s) ≡ true
    → Allowed (i + 0) x s
unfolding slug_from
head-Allowed n i x s l h = elim (Bool-cases (is_plain x)) [
  | inl p ↦ inl p
  | inr p ↦ elim (Bool-cases (is_special x)) [
    | inl q ↦ inr (q, (ground arith, ground arith))
    | inr q ↦ ground arith
  ]
]

slug_from-EachAllowed :
    (n i : ℕ) (s : Bytes) → i + length s ≡ n → slug_from n i s ≡ true → EachAllowed i s
unfolding slug_from
slug_from-EachAllowed n i [] l h [] c behind e = cc
slug_from-EachAllowed n i [] l h (b ∷ before) c behind e = cc
slug_from-EachAllowed n i (x ∷ s) l h [] c behind e =
    let here : x ≡ c = cc in
    let below : s ≡ behind = cc in rw (← here, ← below) (head-Allowed n i x s l h)
slug_from-EachAllowed n i (x ∷ s) l h (b ∷ before) c behind e =
    let rest : slug_from n (suc i) s ≡ true = ground arith in
    let below : s ≡ before ++ (c ∷ behind) = cc in
    elim (slug_from-EachAllowed n (suc i) s (omega arith) rest before c behind below) [
      | inl plain ↦ inl plain
      | inr (special, (first, last)) ↦ inr (special, (omega arith, last))
    ]

EachAllowed-slug_from :
    (n i : ℕ) (s : Bytes) → i + length s ≡ n → EachAllowed i s → slug_from n i s ≡ true
unfolding slug_from
EachAllowed-slug_from n i [] l each = refl
EachAllowed-slug_from n i (x ∷ s) l each =
    let tail : EachAllowed (suc i) s = λ before c behind e.
      elim (each (x ∷ before) c behind (ap (λ r. x ∷ r) e)) [
        | inl plain ↦ inl plain
        | inr (special, (first, last)) ↦ inr (special, (omega arith, last))
      ] in
    let rest = EachAllowed-slug_from n (suc i) s (omega arith) tail in
    elim (each [] x s refl) [
      | inl plain ↦ rw (plain, rest) refl
      | inr (special, (first, last)) ↦ ground (arith, rest, special)
    ]

-- ValidateSlug accepts a text exactly if it has from 1 to 63 bytes, and each is a small letter, a
-- digit, or one of "_", "-" and "." that stands neither first nor last.
pub validate_slug_iff :
    (s : Bytes) → (validate_slug s ≡ true) ↔ ((1 ≤ length s) × ((length s ≤ 63) × EachAllowed 0 s))
unfolding validate_slug
validate_slug_iff s = (
  λ h.
      let valid : slug_from (length s) 0 s ≡ true = ground arith in
      (ground arith, (ground arith, slug_from-EachAllowed (length s) 0 s (omega arith) valid)),
  λ (low, (high, each)).
      let valid = EachAllowed-slug_from (length s) 0 s (omega arith) each in ground (arith, valid),
)
