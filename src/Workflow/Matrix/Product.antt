-- ===== src/Workflow/Matrix/Product.antt =====
-- matrix.go, generateCombinations, against the Cartesian product written by recursion.
use kai_server.Common.{
  ◌≡◌, ◌≢◌, refl, sym, ap, ◌∙◌, none, List, [], ◌∷◌, ◌++◌, map, append_assoc, append-nil, String,
  Bool-cases, inl, inr, All,
}
use kai_server.Common.Bytes.{codes, bytes_less}
use kai_server.Common.Maps.{lookup, put, put-fresh, lookup-put_ne}
use kai_server.Workflow.Matrix.{each, insert_key, sort_keys, expand_keys, generate_combinations}

module _ {ℓ} {A B : Type ℓ} where
  each-append : (xs ys : List A) (f : A → List B) → each (xs ++ ys) f ≡ each xs f ++ each ys f
  unfolding each
  each-append [] ys f = refl
  each-append (x ∷ xs) ys f = rw (each-append xs ys f, append_assoc (f x) (each xs f) (each ys f))

  each-cong : (xs : List A) (f g : A → List B) → ((x : A) → f x ≡ g x) → each xs f ≡ each xs g
  unfolding each
  each-cong [] f g h = refl
  each-cong (x ∷ xs) f g h = rw (h x, each-cong xs f g h)

  map-append : (f : A → B) (xs ys : List A) → map f (xs ++ ys) ≡ map f xs ++ map f ys
  map-append f [] ys = refl
  map-append f (x ∷ xs) ys = ap (λ l. f x ∷ l) (map-append f xs ys)

  map-cong : (xs : List A) (f g : A → B) → ((x : A) → f x ≡ g x) → map f xs ≡ map g xs
  map-cong [] f g h = refl
  map-cong (x ∷ xs) f g h = rw (h x, map-cong xs f g h)

module _ {ℓ} {A B C : Type ℓ} where
  each-each :
      (xs : List A) (f : A → List B) (g : B → List C)
      → each (each xs f) g ≡ each xs (λ x. each (f x) g)
  unfolding each
  each-each [] f g = refl
  each-each (x ∷ xs) f g =
      each-append (f x) (each xs f) g ∙ ap (λ l. each (f x) g ++ l) (each-each xs f g)

  each-map : (xs : List A) (f : A → B) (g : B → List C) → each (map f xs) g ≡ each xs (λ x. g (f x))
  unfolding each
  each-map [] f g = refl
  each-map (x ∷ xs) f g = ap (λ l. g (f x) ++ l) (each-map xs f g)

  map-each :
      (xs : List A) (f : A → List B) (g : B → C) → map g (each xs f) ≡ each xs (λ x. map g (f x))
  unfolding each
  map-each [] f g = refl
  map-each (x ∷ xs) f g =
      map-append g (f x) (each xs f) ∙ ap (λ l. map g (f x) ++ l) (map-each xs f g)

  map-map : (xs : List A) (f : A → B) (g : B → C) → map g (map f xs) ≡ map (λ x. g (f x)) xs
  map-map [] f g = refl
  map-map (x ∷ xs) f g = ap (λ l. g (f x) ∷ l) (map-map xs f g)

module _ {V : Type 0} where
  -- The Cartesian product: a value of the first key, with every choice for the others.
  unfoldable pub product : List (String × List V) → List (List (String × V))
  unfolding each
  product [] = [] ∷ []
  product ((key, values) ∷ keys) =
      each values (λ value. map (λ rest. (key, value) ∷ rest) (product keys))

  abbrev pub Distinct : List (String × List V) → Type 0
  Distinct [] = Unit {0}
  Distinct ((k, vs) ∷ es) = All (λ e. e.0 ≢ k) es × Distinct es

  abbrev puts : String → List V → List (String × V) → List (List (String × V))
  puts k values combo = map (λ value. put k value combo) values

  expand_keys-each :
      (es : List (String × List V)) (combos : List (List (String × V)))
      → expand_keys es combos ≡ each combos (λ c. expand_keys es (c ∷ []))
  unfolding expand_keys each
  expand_keys-each [] combos = singletons combos
    where
      singletons : (combos : List (List (String × V))) → combos ≡ each combos (λ c. c ∷ [])
      singletons [] = refl
      singletons (c ∷ cs) = ap (λ l. c ∷ l) (singletons cs)
  expand_keys-each ((k, vs) ∷ es) combos =
      expand_keys-each es (each combos (puts k vs))
      ∙ each-each combos (puts k vs) (λ c. expand_keys es (c ∷ []))
      ∙ each-cong combos _ _
          (λ c. sym (expand_keys-each es (puts k vs c ++ []) ∙ rw (append-nil (puts k vs c))))

  -- No key of the matrix is in the combination.
  abbrev Fresh : List (String × List V) → List (String × V) → Type 0
  Fresh es combo = All (λ e. lookup e.0 combo ≡ none) es

  put-Fresh :
      (es : List (String × List V)) (combo : List (String × V)) (k : String) (v : V)
      → All (λ e. e.0 ≢ k) es
      → Fresh es combo
      → Fresh es (put k v combo)
  put-Fresh [] combo k v h fresh = tt
  put-Fresh (e ∷ es) combo k v (h, hs) (f, fs) =
      (lookup-put_ne k e.0 v combo (λ q. h (sym q)) ∙ f, put-Fresh es combo k v hs fs)

  map-put :
      (k : String) (v : V) (combo : List (String × V)) (rests : List (List (String × V)))
      → lookup k combo ≡ none
      → map (λ p. put k v combo ++ p) rests ≡ map (λ p. combo ++ p) (map (λ p. (k, v) ∷ p) rests)
  map-put k v combo rests f =
      map-cong rests _ _
        (λ p. ap (λ c. c ++ p) (put-fresh k v combo f) ∙ append_assoc combo ((k, v) ∷ []) p)
      ∙ sym (map-map rests (λ p. (k, v) ∷ p) (λ p. combo ++ p))

  expand_keys-product :
      (es : List (String × List V)) (combo : List (String × V))
      → Distinct es
      → Fresh es combo
      → expand_keys es (combo ∷ []) ≡ map (λ p. combo ++ p) (product es)
  unfolding expand_keys product each
  expand_keys-product [] combo d fresh = ap (λ c. c ∷ []) (sym (append-nil combo))
  expand_keys-product ((k, vs) ∷ es) combo (new, d) (f, fs) =
      expand_keys-each es (puts k vs combo ++ [])
      ∙ ap (λ l. each l (λ c. expand_keys es (c ∷ []))) (append-nil (puts k vs combo))
      ∙ each-map vs (λ v. put k v combo) (λ c. expand_keys es (c ∷ []))
      ∙ each-cong vs _ _ (λ v.
        expand_keys-product es (put k v combo) d (put-Fresh es combo k v new fs)
        ∙ map-put k v combo (product es) f)
      ∙ sym (map-each vs (λ v. map (λ p. (k, v) ∷ p) (product es)) (λ p. combo ++ p))

  All-insert_key :
      (P : String × List V → Type 0) (e : String × List V) (es : List (String × List V))
      → P e
      → All P es
      → All P (insert_key e es)
  unfolding insert_key
  All-insert_key P e [] h hs = (h, tt)
  All-insert_key P e (d ∷ ds) h (k, ks) = elim (Bool-cases (bytes_less (codes d.0) (codes e.0))) [
    | inl t ↦ rw t (k, All-insert_key P e ds h ks)
    | inr t ↦ rw t (h, (k, ks))
  ]

  All-sort_keys :
      (P : String × List V → Type 0) (es : List (String × List V)) → All P es → All P (sort_keys es)
  unfolding sort_keys
  All-sort_keys P [] h = tt
  All-sort_keys P (e ∷ es) (h, hs) = All-insert_key P e (sort_keys es) h (All-sort_keys P es hs)

  insert_key-Distinct :
      (e : String × List V) (es : List (String × List V))
      → All (λ d. d.0 ≢ e.0) es
      → Distinct es
      → Distinct (insert_key e es)
  unfolding insert_key
  insert_key-Distinct e [] new d = (tt, tt)
  insert_key-Distinct e (f ∷ fs) (n, new) (h, d) =
      elim (Bool-cases (bytes_less (codes f.0) (codes e.0))) [
        | inl t ↦ rw t (
          All-insert_key (λ g. g.0 ≢ f.0) e fs (λ q. n (sym q)) h,
          insert_key-Distinct e fs new d,
        )
        | inr t ↦ rw t ((n, new), (h, d))
      ]

  sort_keys-Distinct : (es : List (String × List V)) → Distinct es → Distinct (sort_keys es)
  unfolding sort_keys
  sort_keys-Distinct [] d = tt
  sort_keys-Distinct (e ∷ es) (h, d) =
      insert_key-Distinct e (sort_keys es) (All-sort_keys (λ d. d.0 ≢ e.0) es h)
        (sort_keys-Distinct es d)

  map_id : (xs : List (List (String × V))) → map (λ p. [] ++ p) xs ≡ xs
  map_id [] = refl
  map_id (x ∷ xs) = ap (λ l. x ∷ l) (map_id xs)

  -- For a matrix with distinct keys, generateCombinations gives the Cartesian product of the values,
  -- the keys in order and the last key running fastest.
  pub generate_combinations-product :
      (matrix : List (String × List V))
      → Distinct matrix
      → generate_combinations matrix ≡ product (sort_keys matrix)
  unfolding generate_combinations product lookup
  generate_combinations-product [] d = refl
  generate_combinations-product (e ∷ es) d =
      let sorted = sort_keys (e ∷ es) in
      expand_keys-product sorted [] (sort_keys-Distinct (e ∷ es) d) (no_key sorted)
      ∙ map_id (product sorted)
    where
      no_key : (es : List (String × List V)) → Fresh es []
      no_key [] = tt
      no_key (e ∷ es) = (refl, no_key es)
