-- ===== src/Workflow/JobOrder/Counts.antt =====
-- matrix.go, GetJobOrder: how often a name stands in the lists that it keeps.
use kai_server.Common.Ints.{pos}
use kai_server.Common.{
  ℕ, suc, ◌+◌, ◌≡◌, refl, ap, ◌∙◌, arith, Bool, true, false, ◌&&◌, List, [], ◌∷◌, ◌++◌, String,
  str_eq, str_eq_iff, if◌then◌else◌, length, length-append, Bool-cases, inl, inr,
}
use kai_server.Common.Bytes.{codes, bytes_less}
use kai_server.Workflow.JobOrder.{
  increment, Jobs, Graph, empty_graph, add_need, add_needs, build_graph, insert_string,
  sort_strings,
}

abbrev pub one_if : Bool → ℕ
one_if true = 1
one_if false = 0

abbrev pub count : String → List String → ℕ
count x [] = 0
count x (y ∷ ys) = one_if (str_eq y x) + count x ys

pub count-append : (x : String) (ys zs : List String) → count x (ys ++ zs) ≡ count x ys + count x zs
count-append x [] zs = omega arith
count-append x (y ∷ ys) zs = omega (arith, count-append x ys zs)

count-insert_string :
    (x s : String) (ts : List String)
    → count x (insert_string s ts) ≡ one_if (str_eq s x) + count x ts
unfolding insert_string
count-insert_string x s [] = refl
count-insert_string x s (t ∷ ts) = elim (Bool-cases (bytes_less (codes t) (codes s))) [
  | inl e ↦ rw e (omega (arith, count-insert_string x s ts))
  | inr e ↦ rw e
]

pub count-sort_strings : (x : String) (ts : List String) → count x (sort_strings ts) ≡ count x ts
unfolding sort_strings
count-sort_strings x [] = refl
count-sort_strings x (t ∷ ts) =
    count-insert_string x t (sort_strings ts)
    ∙ ap (λ n. one_if (str_eq t x) + n) (count-sort_strings x ts)

-- the needs of the job of a name
abbrev pub needs_of : Jobs → String → List String
needs_of [] j = []
needs_of ((name, needs) ∷ jobs) j = (if str_eq name j then needs else []) ++ needs_of jobs j

-- `l j` needs of j are in the graph, `c x j` of them are x.
abbrev pub GraphFor : (String → ℕ) → (String → String → ℕ) → Graph → Type 0
GraphFor l c g =
    ((j : String) → g.in_degree j ≡ pos (l j)) × ((x j : String) → count j (g.deps x) ≡ c x j)

and_true : (b : Bool) → b && true ≡ b
and_true true = refl
and_true false = refl

and_false : (b : Bool) → b && false ≡ false
and_false true = refl
and_false false = refl

add_need-GraphFor :
    (l : String → ℕ) (c : String → String → ℕ) (name need : String) (g : Graph)
    → GraphFor l c g
    → GraphFor
        (λ j. l j + one_if (str_eq name j))
        (λ x j. c x j + one_if (str_eq name j && str_eq need x))
        (add_need name need g)
add_need-GraphFor l c name need g (hl, hc) = (degree, deps)
  where
    degree : (j : String) → (add_need name need g).in_degree j ≡ pos (l j + one_if (str_eq name j))
    degree j = elim (Bool-cases (str_eq name j)) [
      | inl e ↦
          let same : l name ≡ l j = ap l ((str_eq_iff name j).0 e) in
          rw e
            (ap increment (hl name) ∙ ap pos {x = suc (l name)} {y = l j + 1} (omega (arith, same)))
      | inr e ↦ rw e (hl j ∙ ap pos {x = l j} {y = l j + 0} (omega arith))
    ]

    deps :
        (x j : String)
        → count j ((add_need name need g).deps x) ≡ c x j + one_if (str_eq name j && str_eq need x)
    deps x j = elim (Bool-cases (str_eq need x)) [
      | inl e ↦
          let same : c need j ≡ c x j = ap (λ k. c k j) ((str_eq_iff need x).0 e) in
          rw (e, and_true (str_eq name j))
            (omega (arith, count-append j (g.deps need) (name ∷ []), hc need j, same))
      | inr e ↦ rw (e, and_false (str_eq name j)) (omega (arith, hc x j))
    ]

abbrev only : String → List String → String → List String
only name needs j = if str_eq name j then needs else []

GraphFor-cong :
    (l l' : String → ℕ) (c c' : String → String → ℕ) (g : Graph)
    → ((j : String) → l j ≡ l' j)
    → ((x j : String) → c x j ≡ c' x j)
    → GraphFor l c g
    → GraphFor l' c' g
GraphFor-cong l l' c c' g el ec (hl, hc) = (λ j. hl j ∙ ap pos (el j), λ x j. hc x j ∙ ec x j)

add_needs-GraphFor :
    (needs : List String) (name : String) (l : String → ℕ) (c : String → String → ℕ) (g : Graph)
    → GraphFor l c g
    → GraphFor
        (λ j. l j + length (only name needs j))
        (λ x j. c x j + count x (only name needs j))
        (add_needs name needs g)
unfolding add_needs
add_needs-GraphFor [] name l c g h = GraphFor-cong l _ c _ g none none_of h
  where
    none : (j : String) → l j ≡ l j + length (only name [] j)
    none j = elim (Bool-cases (str_eq name j)) [
      | inl e ↦ rw e (omega arith)
      | inr e ↦ rw e (omega arith)
    ]

    none_of : (x j : String) → c x j ≡ c x j + count x (only name [] j)
    none_of x j = elim (Bool-cases (str_eq name j)) [
      | inl e ↦ rw e (omega arith)
      | inr e ↦ rw e (omega arith)
    ]
add_needs-GraphFor (need ∷ needs) name l c g h =
    GraphFor-cong _ _ _ _ _ more more_of (
      add_needs-GraphFor needs name _ _ (add_need name need g)
        (add_need-GraphFor l c name need g h))
  where
    more :
        (j : String)
        → l j + one_if (str_eq name j) + length (only name needs j)
          ≡ l j + length (only name (need ∷ needs) j)
    more j = elim (Bool-cases (str_eq name j)) [
      | inl e ↦ rw e (omega arith)
      | inr e ↦ rw e (omega arith)
    ]

    more_of :
        (x j : String)
        → c x j + one_if (str_eq name j && str_eq need x) + count x (only name needs j)
          ≡ c x j + count x (only name (need ∷ needs) j)
    more_of x j = elim (Bool-cases (str_eq name j)) [
      | inl e ↦ rw e (omega arith)
      | inr e ↦ rw e (omega arith)
    ]

build_graph-GraphFor :
    (jobs : Jobs) (l : String → ℕ) (c : String → String → ℕ) (g : Graph)
    → GraphFor l c g
    → GraphFor
        (λ j. l j + length (needs_of jobs j))
        (λ x j. c x j + count x (needs_of jobs j))
        (build_graph jobs g)
unfolding build_graph
build_graph-GraphFor [] l c g h = GraphFor-cong l _ c _ g (λ j. omega arith) (λ x j. omega arith) h
build_graph-GraphFor ((name, needs) ∷ jobs) l c g h =
    GraphFor-cong _ _ _ _ _
      (λ j. omega (arith, length-append (only name needs j) (needs_of jobs j)))
      (λ x j. omega (arith, count-append x (only name needs j) (needs_of jobs j)))
      (build_graph-GraphFor jobs _ _ (add_needs name needs g)
        (add_needs-GraphFor needs name l c g h))

pub empty_graph-GraphFor :
    (jobs : Jobs)
    → GraphFor
        (λ j. length (needs_of jobs j))
        (λ x j. count x (needs_of jobs j))
        (build_graph jobs empty_graph)
empty_graph-GraphFor jobs =
    GraphFor-cong _ _ _ _ _ (λ j. omega arith) (λ x j. omega arith)
      (build_graph-GraphFor jobs (λ j. 0) (λ x j. 0) empty_graph (λ j. refl, λ x j. refl))
