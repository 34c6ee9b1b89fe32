-- ===== src/Workflow/Trigger/DoubleStar.antt =====
-- trigger.go, matchPattern: what a pattern that ends in `/**` matches.
use kai_server.Common.{
  ℕ, ◌-◌, ◌≡◌, refl, ap, ◌∙◌, arith, true, false, ◌&&◌, not, [], ◌∷◌, ◌++◌, append_assoc, leb, ◌==◌,
  if◌then◌else◌, length, length-append, take-append_length, drop-append_length, All, Bool-cases,
  inl, inr,
}
use kai_server.Common.Bytes.{Bytes, bytes_eq_self, has_prefix}
use kai_server.Workflow.Glob.{has_suffix, trim_suffix, contains_stars, split_stars, is_nil}
use kai_server.Workflow.Trigger.{match_double_star_parts, match_double_star_pattern, match_pattern}

abbrev pub NoStar : Bytes → Type 0
NoStar p = All (λ c. (c == b'*') ≡ false) p

abbrev below : Bytes
below = b'/' ∷ b'*' ∷ b'*' ∷ []

contains_stars-below : (p : Bytes) → contains_stars (p ++ below) ≡ true
unfolding contains_stars has_prefix
contains_stars-below [] = refl
contains_stars-below (c ∷ p) = ground (arith, contains_stars-below p)

split_stars-below :
    (part p : Bytes)
    → NoStar p
    → split_stars part (p ++ below) ≡ (part ++ (p ++ (b'/' ∷ []))) ∷ [] ∷ []
unfolding split_stars
split_stars-below part [] h = refl
split_stars-below part (c ∷ []) (h, hs) = rw (h, append_assoc part (c ∷ []) (b'/' ∷ []))
split_stars-below part (c ∷ d ∷ p) (h, hs) = rw h (
    split_stars-below (part ++ (c ∷ [])) (d ∷ p) hs
    ∙ ap (λ l. l ∷ [] ∷ []) (append_assoc part (c ∷ []) (d ∷ (p ++ (b'/' ∷ [])))))

trim_suffix-append : (p s : Bytes) → trim_suffix (p ++ s) s ≡ p
unfolding trim_suffix has_suffix
trim_suffix-append p s =
    let rest : length (p ++ s) - length s ≡ length p = omega (arith, length-append p s) in
    let fits : leb (length s) (length (p ++ s)) ≡ true = ground (arith, length-append p s) in
    rw (fits, rest, drop-append_length p s, bytes_eq_self s, take-append_length p s)

not_nil : (p : Bytes) (c : ℕ) → is_nil (p ++ (c ∷ [])) ≡ false
not_nil [] c = refl
not_nil (d ∷ p) c = refl

parts_below :
    (name p : Bytes) → match_double_star_parts name (p ++ (b'/' ∷ [])) ([] ∷ []) ≡ has_prefix name p
unfolding match_double_star_parts
parts_below name p = rw (not_nil p b'/', trim_suffix-append p (b'/' ∷ [])) (prefix_test p)
  where
    prefix_test :
        (q : Bytes)
        → (if not (is_nil q) && not (has_prefix name q) then false else true) ≡ has_prefix name q
    prefix_test [] = refl
    prefix_test (c ∷ q) = elim (Bool-cases (has_prefix name (c ∷ q))) [
      | inl e ↦ rw e
      | inr e ↦ rw e
    ]

-- A pattern `p/**` without further stars in p matches the names that start with p, whether a slash
-- follows there or not.
pub match_pattern-below :
    (name p : Bytes) → NoStar p → match_pattern name (p ++ below) ≡ has_prefix name p
unfolding match_pattern match_double_star_pattern
match_pattern-below name p h =
    rw (contains_stars-below p, match_double_star_pattern, split_stars-below [] p h)
      (parts_below name p)
