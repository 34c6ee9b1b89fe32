-- ===== src/Workflow/Matrix/Includes.antt =====
-- matrix.go, ExpandMatrix: what becomes of the includes of a matrix.
use kai_server.Common.{
  ◌≡◌, ◌≢◌, refl, sym, ap, ◌∙◌, arith, Bool, true, Option, none, some, List, [], ◌∷◌, ◌++◌,
  append_assoc, append-nil, String, str_eq, str_eq_iff, Bool-cases, inl, inr, All, Any,
}
use kai_server.Common.Maps.{lookup, put, put-fresh, lookup-put_self, lookup-put_ne}
use kai_server.Workflow.Matrix.{
  partial_pair, full_pair, partial_match, full_match, any_match, merge_matching, apply_include,
  apply_includes, put_all,
}

-- A map has one entry to a key.
abbrev pub DistinctKeys : {V : Type 0} → List (String × V) → Type 0
DistinctKeys [] = Unit {0}
DistinctKeys ((k, v) ∷ es) = All (λ e. e.0 ≢ k) es × DistinctKeys es

module _ {V : Type 0} where
  lookup-put_all_other :
      (k : String) (es combo : List (String × V))
      → All (λ e. e.0 ≢ k) es
      → lookup k (put_all es combo) ≡ lookup k combo
  unfolding put_all
  lookup-put_all_other k [] combo h = refl
  lookup-put_all_other k ((j, u) ∷ es) combo (h, hs) =
      lookup-put_all_other k es (put j u combo) hs ∙ lookup-put_ne j k u combo h

  abbrev FreshKeys : List (String × V) → List (String × V) → Type 0
  FreshKeys es combo = All (λ e. lookup e.0 combo ≡ none) es

  put-FreshKeys :
      (es combo : List (String × V)) (k : String) (v : V)
      → All (λ e. e.0 ≢ k) es
      → FreshKeys es combo
      → FreshKeys es (put k v combo)
  put-FreshKeys [] combo k v h f = tt
  put-FreshKeys (e ∷ es) combo k v (h, hs) (f, fs) =
      (lookup-put_ne k e.0 v combo (λ q. h (sym q)) ∙ f, put-FreshKeys es combo k v hs fs)

  put_all-fresh :
      (es combo : List (String × V))
      → DistinctKeys es
      → FreshKeys es combo
      → put_all es combo ≡ combo ++ es
  unfolding put_all
  put_all-fresh [] combo d f = sym (append-nil combo)
  put_all-fresh ((k, v) ∷ es) combo (n, d) (f, fs) =
      put_all-fresh es (put k v combo) d (put-FreshKeys es combo k v n fs)
      ∙ ap (λ c. c ++ es) (put-fresh k v combo f)
      ∙ append_assoc combo ((k, v) ∷ []) es

-- Some combination has all the pairs of `want`.
abbrev pub Holds :
    {V : Type 0} → (V → V → Bool) → List (String × V) → List (List (String × V)) → Type 0
Holds same want combos = Any (λ c. full_match same c want ≡ true) combos

-- valuesEqual is an equivalence.
module _ {V : Type 0} (same : V → V → Bool) (same_self : (a : V) → same a a ≡ true)
    (same_euclid : (a b c : V) → same a b ≡ true → same a c ≡ true → same b c ≡ true) where
  full_match-put_all :
      (es combo : List (String × V))
      → DistinctKeys es
      → full_match same (put_all es combo) es ≡ true
  unfolding full_match put_all
  full_match-put_all [] combo d = refl
  full_match-put_all ((k, v) ∷ es) combo (n, d) =
      rw (lookup-put_all_other k es (put k v combo) n, lookup-put_self k v combo, same_self v)
        (full_match-put_all es (put k v combo) d)

  full_match_self : (es : List (String × V)) → DistinctKeys es → full_match same es es ≡ true
  unfolding lookup
  full_match_self es d =
      let whole = put_all-fresh es [] d (no_key es) in rw whole at (full_match-put_all es [] d)
    where
      no_key : (es : List (String × V)) → FreshKeys es []
      no_key [] = tt
      no_key (e ∷ es) = (refl, no_key es)

  partial_match-put_other :
      (k : String) (v : V) (es combo : List (String × V))
      → All (λ e. e.0 ≢ k) es
      → partial_match same combo es ≡ true
      → partial_match same (put k v combo) es ≡ true
  unfolding partial_match
  partial_match-put_other k v [] combo n h = refl
  partial_match-put_other k v ((j, u) ∷ es) combo (n, ns) h =
      ground
        (arith, lookup-put_ne k j v combo (λ q. n (sym q)), partial_match-put_other k v es combo ns)

  full_pair-put :
      (k j : String) (v u : V) (combo : List (String × V)) (o : Option V)
      → lookup k combo ≡ o
      → partial_pair same (lookup j combo) u ≡ true
      → full_pair same (lookup k combo) v ≡ true
      → full_pair same (lookup k (put j u combo)) v ≡ true
  full_pair-put k j v u combo none l h f = ground (arith, l)
  full_pair-put k j v u combo (some w) l h f = elim (Bool-cases (str_eq j k)) [
    | inl e ↦
        let put_here : lookup k (put j u combo) ≡ some u =
          rw (sym ((str_eq_iff j k).0 e)) (lookup-put_self j u combo) in
        let old : lookup j combo ≡ some w = rw ((str_eq_iff j k).0 e) l in
        rw put_here (same_euclid w u v (rw old at h) (rw l at f))
    | inr e ↦
        let ne = lookup-put_ne j k u combo (λ q. absurd (ground (arith, str_eq_iff j k))) in rw ne f
  ]

  -- A pair that a combination has up to equivalence stays when a matching include is merged.
  full_pair-put_all :
      (k : String) (v : V) (es combo : List (String × V))
      → DistinctKeys es
      → partial_match same combo es ≡ true
      → full_pair same (lookup k combo) v ≡ true
      → full_pair same (lookup k (put_all es combo)) v ≡ true
  unfolding partial_match put_all
  full_pair-put_all k v [] combo d h f = f
  full_pair-put_all k v ((j, u) ∷ es) combo (n, d) h f =
      full_pair-put_all k v es (put j u combo) d
        (partial_match-put_other j u es combo n (ground arith))
        (full_pair-put k j v u combo (lookup k combo) refl (ground arith) f)

  full_match-put_all_keep :
      (want include combo : List (String × V))
      → DistinctKeys include
      → partial_match same combo include ≡ true
      → full_match same combo want ≡ true
      → full_match same (put_all include combo) want ≡ true
  unfolding full_match
  full_match-put_all_keep [] include combo d h f = refl
  full_match-put_all_keep ((k, v) ∷ want) include combo d h f = ground (
    arith,
    full_pair-put_all k v include combo d h,
    full_match-put_all_keep want include combo d h,
  )

  merge_matching-Holds_new :
      (include : List (String × V)) (combos : List (List (String × V)))
      → DistinctKeys include
      → any_match same include combos ≡ true
      → Holds same include (merge_matching same include combos)
  unfolding any_match merge_matching
  merge_matching-Holds_new include [] d h = absurd (cc)
  merge_matching-Holds_new include (c ∷ cs) d h = elim (Bool-cases (partial_match same c include)) [
    | inl e ↦ rw e (inl (full_match-put_all include c d))
    | inr e ↦ inr (merge_matching-Holds_new include cs d (ground arith))
  ]

  merge_matching-Holds_old :
      (want include : List (String × V)) (combos : List (List (String × V)))
      → DistinctKeys include
      → Holds same want combos
      → Holds same want (merge_matching same include combos)
  unfolding merge_matching
  merge_matching-Holds_old want include [] d h = h
  merge_matching-Holds_old want include (c ∷ cs) d (inr h) =
      inr (merge_matching-Holds_old want include cs d h)
  merge_matching-Holds_old want include (c ∷ cs) d (inl h) =
      elim (Bool-cases (partial_match same c include)) [
        | inl e ↦ rw e (inl (full_match-put_all_keep want include c d e h))
        | inr e ↦ rw e (inl h)
      ]

  append-Holds_left :
      (want : List (String × V)) (xs ys : List (List (String × V)))
      → Holds same want xs
      → Holds same want (xs ++ ys)
  append-Holds_left want [] ys h = elim h [ ]
  append-Holds_left want (x ∷ xs) ys (inl h) = inl h
  append-Holds_left want (x ∷ xs) ys (inr h) = inr (append-Holds_left want xs ys h)

  append-Holds_last :
      (want : List (String × V)) (xs : List (List (String × V))) (y : List (String × V))
      → full_match same y want ≡ true
      → Holds same want (xs ++ (y ∷ []))
  append-Holds_last want [] y h = inl h
  append-Holds_last want (x ∷ xs) y h = inr (append-Holds_last want xs y h)

  apply_include-Holds_new :
      (include : List (String × V)) (combos : List (List (String × V)))
      → DistinctKeys include
      → Holds same include (apply_include same include combos)
  unfolding apply_include
  apply_include-Holds_new include combos d = elim (Bool-cases (any_match same include combos)) [
    | inl e ↦ rw e (merge_matching-Holds_new include combos d e)
    | inr e ↦ rw e (
        append-Holds_last include (merge_matching same include combos) include
          (full_match_self include d))
  ]

  apply_include-Holds_old :
      (want include : List (String × V)) (combos : List (List (String × V)))
      → DistinctKeys include
      → Holds same want combos
      → Holds same want (apply_include same include combos)
  unfolding apply_include
  apply_include-Holds_old want include combos d h =
      let kept = merge_matching-Holds_old want include combos d h in
      elim (Bool-cases (any_match same include combos)) [
        | inl e ↦ rw e kept
        | inr e ↦
            rw e (append-Holds_left want (merge_matching same include combos) (include ∷ []) kept)
      ]

  apply_includes-Holds_old :
      (want : List (String × V)) (includes combos : List (List (String × V)))
      → All DistinctKeys includes
      → Holds same want combos
      → Holds same want (apply_includes same includes combos)
  unfolding apply_includes
  apply_includes-Holds_old want [] combos d h = h
  apply_includes-Holds_old want (i ∷ is) combos (d, ds) h =
      apply_includes-Holds_old want is (apply_include same i combos) ds
        (apply_include-Holds_old want i combos d h)

  -- If valuesEqual is an equivalence and the maps have distinct keys, every include has, after all
  -- the includes are applied, a combination with all its pairs up to valuesEqual.
  pub apply_includes-Holds :
      (includes combos : List (List (String × V)))
      → All DistinctKeys includes
      → All (λ i. Holds same i (apply_includes same includes combos)) includes
  unfolding apply_includes
  apply_includes-Holds [] combos d = tt
  apply_includes-Holds (i ∷ is) combos (d, ds) = (
    apply_includes-Holds_old i is (apply_include same i combos) ds
        (apply_include-Holds_new i combos d),
    apply_includes-Holds is (apply_include same i combos) ds,
  )
