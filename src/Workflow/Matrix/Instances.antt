-- ===== src/Workflow/Matrix/Instances.antt =====
-- matrix.go, ExpandMatrix: the excludes and the numbers of the instances.
use mathlib.Core.Path.{subst⁻¹}
use kai_server.Common.{
  ℕ, ◌+◌, ◌≡◌, ◌⊎◌, refl, Bool, true, false, List, [], ◌∷◌, String, Bool-cases, inl, inr, All, Any,
}
use kai_server.Workflow.Matrix.{
  is_excluded, filter_excluded, apply_includes, value_combinations, number_from, expand_values,
  Matrix, MatrixInstance,
}

module _ {V : Type 0} where
  -- The instances carry the numbers from `i` on.
  abbrev pub Numbered : ℕ → List (MatrixInstance V) → Type 0
  Numbered i [] = Unit {0}
  Numbered i (x ∷ xs) = (x.index ≡ i) × Numbered (i + 1) xs

  number_from-Numbered :
      (i : ℕ) (combos : List (List (String × V))) → Numbered i (number_from i combos)
  unfolding number_from
  number_from-Numbered i [] = tt
  number_from-Numbered i (c ∷ cs) = (refl, number_from-Numbered (i + 1) cs)

  number_from-All :
      (P : List (String × V) → Type 0) (i : ℕ) (combos : List (List (String × V)))
      → All P combos
      → All (λ x. P x.values) (number_from i combos)
  unfolding number_from
  number_from-All P i [] h = tt
  number_from-All P i (c ∷ cs) (h, hs) = (h, number_from-All P (i + 1) cs hs)

  number_from-Any :
      (P : List (String × V) → Type 0) (i : ℕ) (combos : List (List (String × V)))
      → Any P combos
      → Any (λ x. P x.values) (number_from i combos)
  unfolding number_from
  number_from-Any P i [] h = h
  number_from-Any P i (c ∷ cs) (inl h) = inl h
  number_from-Any P i (c ∷ cs) (inr h) = inr (number_from-Any P (i + 1) cs h)

module _ {V : Type 0} (same : V → V → Bool) where
  filter_excluded-All :
      (excludes combos : List (List (String × V)))
      → All (λ c. is_excluded same excludes c ≡ false) (filter_excluded same excludes combos)
  unfolding filter_excluded
  filter_excluded-All excludes [] = tt
  filter_excluded-All excludes (c ∷ cs) = elim (Bool-cases (is_excluded same excludes c)) [
    | inl e ↦ rw e (filter_excluded-All excludes cs)
    | inr e ↦ rw e (e, filter_excluded-All excludes cs)
  ]

  -- Excluded, or among the kept.
  abbrev Settled : List (List (String × V)) → List (List (String × V)) → List (String × V) → Type 0
  Settled excludes kept c = (is_excluded same excludes c ≡ true) ⊎ Any (λ k. k ≡ c) kept

  All-Settled_more :
      (excludes kept combos : List (List (String × V))) (k : List (String × V))
      → All (Settled excludes kept) combos
      → All (Settled excludes (k ∷ kept)) combos
  All-Settled_more excludes kept [] k h = tt
  All-Settled_more excludes kept (c ∷ cs) k (inl h, hs) =
      (inl h, All-Settled_more excludes kept cs k hs)
  All-Settled_more excludes kept (c ∷ cs) k (inr h, hs) =
      (inr (inr h), All-Settled_more excludes kept cs k hs)

  filter_excluded-drop :
      (excludes : List (List (String × V))) (c : List (String × V)) (cs : List (List (String × V)))
      → is_excluded same excludes c ≡ true
      → filter_excluded same excludes (c ∷ cs) ≡ filter_excluded same excludes cs
  unfolding filter_excluded
  filter_excluded-drop excludes c cs e = rw e

  filter_excluded-keep :
      (excludes : List (List (String × V))) (c : List (String × V)) (cs : List (List (String × V)))
      → is_excluded same excludes c ≡ false
      → filter_excluded same excludes (c ∷ cs) ≡ c ∷ filter_excluded same excludes cs
  unfolding filter_excluded
  filter_excluded-keep excludes c cs e = rw e

  filter_excluded-All-Settled :
      (excludes combos : List (List (String × V)))
      → All (Settled excludes (filter_excluded same excludes combos)) combos
  filter_excluded-All-Settled excludes [] = tt
  filter_excluded-All-Settled excludes (c ∷ cs) = elim (Bool-cases (is_excluded same excludes c)) [
    | inl e ↦
        subst⁻¹ (λ kept. All (Settled excludes kept) (c ∷ cs))
          (filter_excluded-drop excludes c cs e) (inl e, filter_excluded-All-Settled excludes cs)
    | inr e ↦
        subst⁻¹ (λ kept. All (Settled excludes kept) (c ∷ cs))
          (filter_excluded-keep excludes c cs e)
          (
            inr (inl refl),
            All-Settled_more excludes (filter_excluded same excludes cs) cs c
                (filter_excluded-All-Settled excludes cs),
          )
  ]

  -- What `instances` are for a matrix whose combinations are `combos`.
  abbrev pub IsExpansion :
      List (List (String × V)) → List (List (String × V)) → List (MatrixInstance V) → Type 0
  IsExpansion excludes combos instances =
      Numbered 0 instances
      × All (λ x. is_excluded same excludes x.values ≡ false) instances
      × All (λ c. (is_excluded same excludes c ≡ true) ⊎ Any (λ x. x.values ≡ c) instances) combos

  Settled-instances :
      (excludes kept combos : List (List (String × V)))
      → All (Settled excludes kept) combos
      → All
          (λ c. (is_excluded same excludes c ≡ true) ⊎ Any (λ x. x.values ≡ c) (number_from 0 kept))
          combos
  Settled-instances excludes kept [] h = tt
  Settled-instances excludes kept (c ∷ cs) (inl h, hs) =
      (inl h, Settled-instances excludes kept cs hs)
  Settled-instances excludes kept (c ∷ cs) (inr h, hs) =
      (inr (number_from-Any (λ k. k ≡ c) 0 kept h), Settled-instances excludes kept cs hs)

  -- The instances of a matrix are numbered from 0 on, no exclude matches one of them in full, and
  -- every combination that is left after the includes is excluded or has an instance.
  pub expand_values-IsExpansion :
      (matrix : Matrix V)
      → IsExpansion matrix.exclude
          (apply_includes same matrix.include (value_combinations matrix.values))
          (expand_values same matrix)
  unfolding expand_values
  expand_values-IsExpansion matrix =
      let combos = apply_includes same matrix.include (value_combinations matrix.values) in
      let kept = filter_excluded same matrix.exclude combos in
      (
        number_from-Numbered 0 kept,
        number_from-All (λ c. is_excluded same matrix.exclude c ≡ false) 0 kept
            (filter_excluded-All matrix.exclude combos),
        Settled-instances matrix.exclude kept combos
            (filter_excluded-All-Settled matrix.exclude combos),
      )
