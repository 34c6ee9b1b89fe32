-- ===== src/Workflow/JobOrder/Ends.antt =====
-- matrix.go, GetJobOrder: the loop over the queue ends.
use mathlib.Core.Path.{subst, subst⁻¹}
use kai_server.Common.Ints.{ℤ, pos, negsuc}
use kai_server.Common.{
  ℕ, zero, suc, ◌+◌, ◌≤◌, ◌≡◌, ◌⊎◌, refl, ap, ◌∙◌, arith, Bool, true, false, List, [], ◌∷◌, ◌++◌,
  String, str_eq, str_eq_iff, str_eq_self, if◌then◌else◌, ◌==◌, length, length-append, ok, err, All,
  Any, Bool-cases, inl, inr,
}
use kai_server.Common.Bytes.{codes, bytes_less}
use kai_server.Workflow.JobOrder.Counts.{one_if}
use kai_server.Workflow.JobOrder.{
  decrement, is_zero, Jobs, update, Graph, empty_graph, add_need, add_needs, build_graph,
  insert_string, sort_strings, initial_queue, visit, order_loop, get_job_order,
}

abbrev waits : ℤ → Bool
waits (pos (suc n)) = true
waits _ = false

-- the jobs whose degree is positive
unfoldable count_waiting : Jobs → (String → ℤ) → ℕ
count_waiting [] degree = 0
count_waiting ((name, needs) ∷ jobs) degree =
    one_if (waits (degree name)) + count_waiting jobs degree

abbrev IsJob : Jobs → String → Type 0
IsJob jobs name = Any (λ e. e.0 ≡ name) jobs

waits-decrement : (d : ℤ) → one_if (waits (decrement d)) ≤ one_if (waits d)
waits-decrement (pos zero) = omega arith
waits-decrement (pos (suc zero)) = omega arith
waits-decrement (pos (suc (suc n))) = omega arith
waits-decrement (negsuc n) = omega arith

zero-decrement :
    (d : ℤ) → is_zero (decrement d) ≡ true → one_if (waits (decrement d)) + 1 ≤ one_if (waits d)
zero-decrement (pos zero) h = absurd (cc)
zero-decrement (pos (suc zero)) h = omega arith
zero-decrement (pos (suc (suc n))) h = absurd (cc)
zero-decrement (negsuc n) h = absurd (cc)

module _ (degree : String → ℤ) (dep : String) where
  abbrev lowered : String → ℤ
  lowered = update degree dep (decrement (degree dep))

  lowered_here : lowered dep ≡ decrement (degree dep)
  lowered_here = rw (str_eq_self dep)

  lowered-le : (name : String) → one_if (waits (lowered name)) ≤ one_if (waits (degree name))
  lowered-le name = elim (Bool-cases (str_eq dep name)) [
    | inl e ↦
        subst (λ n. one_if (waits (lowered n)) ≤ one_if (waits (degree n)))
          ((str_eq_iff dep name).0 e) (rw lowered_here (waits-decrement (degree dep)))
    | inr e ↦ rw e (omega arith)
  ]

  count_waiting-le : (jobs : Jobs) → count_waiting jobs lowered ≤ count_waiting jobs degree
  unfolding count_waiting
  count_waiting-le [] = omega arith
  count_waiting-le ((name, needs) ∷ jobs) = omega (arith, lowered-le name, count_waiting-le jobs)

  count_waiting-lt :
      (jobs : Jobs)
      → IsJob jobs dep
      → is_zero (decrement (degree dep)) ≡ true
      → count_waiting jobs lowered + 1 ≤ count_waiting jobs degree
  unfolding count_waiting
  count_waiting-lt [] h z = elim h [ ]
  count_waiting-lt ((name, needs) ∷ jobs) (inr h) z =
      omega (arith, lowered-le name, count_waiting-lt jobs h z)
  count_waiting-lt ((name, needs) ∷ jobs) (inl h) z =
      let fewer : one_if (waits (lowered name)) + 1 ≤ one_if (waits (degree name)) =
        subst⁻¹ (λ n. one_if (waits (lowered n)) + 1 ≤ one_if (waits (degree n))) h
          (rw lowered_here (zero-decrement (degree dep) z)) in
      omega (arith, fewer, count_waiting-le jobs)

push_bound :
    (jobs : Jobs) (dep : String) (queue : List String) (degree : String → ℤ)
    → IsJob jobs dep
    → length (if is_zero (decrement (degree dep)) then queue ++ (dep ∷ []) else queue)
        + count_waiting jobs (lowered degree dep)
      ≤ length queue + count_waiting jobs degree
push_bound jobs dep queue degree h = elim (Bool-cases (is_zero (decrement (degree dep)))) [
  | inl e ↦
      rw e (omega (arith, length-append queue (dep ∷ []), count_waiting-lt degree dep jobs h e))
  | inr e ↦ rw e (omega (arith, count_waiting-le degree dep jobs))
]

-- What is in the queue and what waits does not grow.
visit_bound :
    (jobs : Jobs) (dependents queue : List String) (degree : String → ℤ)
    → All (IsJob jobs) dependents
    → length (visit dependents queue degree).0
        + count_waiting jobs (visit dependents queue degree).1
      ≤ length queue + count_waiting jobs degree
unfolding visit
visit_bound jobs [] queue degree h = omega arith
visit_bound jobs (dep ∷ dependents) queue degree (h, hs) =
    let rest =
      visit_bound jobs dependents
        (if is_zero (decrement (degree dep)) then queue ++ (dep ∷ []) else queue)
        (lowered degree dep) hs in
    omega (arith, rest, push_bound jobs dep queue degree h)

module _ (P : String → Type 0) where
  All-insert_string : (s : String) (ts : List String) → P s → All P ts → All P (insert_string s ts)
  unfolding insert_string
  All-insert_string s [] h hs = (h, tt)
  All-insert_string s (t ∷ ts) h (k, ks) = elim (Bool-cases (bytes_less (codes t) (codes s))) [
    | inl e ↦ rw e (k, All-insert_string s ts h ks)
    | inr e ↦ rw e (h, (k, ks))
  ]

  All-sort_strings : (ts : List String) → All P ts → All P (sort_strings ts)
  unfolding sort_strings
  All-sort_strings [] h = tt
  All-sort_strings (t ∷ ts) (h, hs) =
      All-insert_string t (sort_strings ts) h (All-sort_strings ts hs)

  All-append : (xs ys : List String) → All P xs → All P ys → All P (xs ++ ys)
  All-append [] ys h k = k
  All-append (x ∷ xs) ys (h, hs) k = (h, All-append xs ys hs k)

  add_needs-All :
      (name : String) (needs : List String) (g : Graph)
      → P name
      → ((x : String) → All P (g.deps x))
      → (x : String) → All P ((add_needs name needs g).deps x)
  unfolding add_needs
  add_needs-All name [] g p h x = h x
  add_needs-All name (need ∷ needs) g p h x =
      add_needs-All name needs (add_need name need g) p deps x
    where
      deps : (y : String) → All P ((add_need name need g).deps y)
      deps y = elim (Bool-cases (str_eq need y)) [
        | inl e ↦ rw e (All-append (g.deps need) (name ∷ []) (h need) (p, tt))
        | inr e ↦ rw e (h y)
      ]

  build_graph-All :
      (jobs : Jobs) (g : Graph)
      → All (λ e. P e.0) jobs
      → ((x : String) → All P (g.deps x))
      → (x : String) → All P ((build_graph jobs g).deps x)
  unfolding build_graph
  build_graph-All [] g p h x = h x
  build_graph-All ((name, needs) ∷ jobs) g (p, ps) h x =
      build_graph-All jobs (add_needs name needs g) ps (add_needs-All name needs g p h) x

length-insert_string :
    (s : String) (ts : List String) → length (insert_string s ts) ≡ suc (length ts)
unfolding insert_string
length-insert_string s [] = refl
length-insert_string s (t ∷ ts) = elim (Bool-cases (bytes_less (codes t) (codes s))) [
  | inl e ↦ rw e (ap suc (length-insert_string s ts))
  | inr e ↦ rw e
]

length-sort_strings : (ts : List String) → length (sort_strings ts) ≡ length ts
unfolding sort_strings
length-sort_strings [] = refl
length-sort_strings (t ∷ ts) =
    length-insert_string t (sort_strings ts) ∙ ap suc (length-sort_strings ts)

initial_bound :
    (jobs : Jobs) (degree : String → ℤ)
    → length (initial_queue jobs degree) + count_waiting jobs degree ≤ length jobs
unfolding initial_queue count_waiting
initial_bound [] degree = omega arith
initial_bound ((name, needs) ∷ jobs) degree = one_of (degree name) refl (initial_bound jobs degree)
  where
    one_of :
        (d : ℤ)
        → degree name ≡ d
        → length (initial_queue jobs degree) + count_waiting jobs degree ≤ length jobs
        → length (initial_queue ((name, needs) ∷ jobs) degree)
            + count_waiting ((name, needs) ∷ jobs) degree
          ≤ suc (length jobs)
    one_of (pos zero) e h = rw e (omega (arith, h))
    one_of (pos (suc n)) e h = rw e (omega (arith, h))
    one_of (negsuc n) e h = rw e (omega (arith, h))

order_loop-returns :
    (jobs : Jobs) (deps : String → List String)
    → ((x : String) → All (IsJob jobs) (deps x))
    → (fuel : ℕ) (queue result : List String) (degree : String → ℤ)
    → length queue + count_waiting jobs degree ≤ fuel
    → (r : List String) × (order_loop fuel deps queue result degree ≡ ok r)
unfolding order_loop
order_loop-returns jobs deps known fuel [] result degree h = (result, refl)
order_loop-returns jobs deps known zero (name ∷ queue) result degree h = absurd (omega arith)
order_loop-returns jobs deps known (suc fuel) (name ∷ queue) result degree h =
    let dependents = sort_strings (deps name) in
    let after =
      visit_bound jobs dependents queue degree
        (All-sort_strings (IsJob jobs) (deps name) (known name)) in
    order_loop-returns jobs deps known fuel _ (result ++ (name ∷ [])) _ (omega (arith, after))

jobs-IsJob : (jobs : Jobs) → All (λ e. IsJob jobs e.0) jobs
jobs-IsJob jobs = weaken jobs (λ name h. h)
  where
    weaken :
        (part : Jobs)
        → ((name : String) → IsJob part name → IsJob jobs name)
        → All (λ e. IsJob jobs e.0) part
    weaken [] f = tt
    weaken (e ∷ part) f = (f e.0 (inl refl), weaken part (λ name h. f name (inr h)))

-- GetJobOrder ends on every workflow, cycles and unknown needs included: with the error, or with an
-- order that has as many names as there are jobs.
pub get_job_order_total :
    (jobs : Jobs)
    → (get_job_order jobs ≡ err tt)
      ⊎ ((order : List String) × (get_job_order jobs ≡ ok order) × (length order ≡ length jobs))
unfolding get_job_order
get_job_order_total jobs =
    let g = build_graph jobs empty_graph in
    let first = initial_queue jobs g.in_degree in
    let (order, run) =
      order_loop-returns jobs g.deps
        (build_graph-All (IsJob jobs) jobs empty_graph (jobs-IsJob jobs) (λ x. tt)) (length jobs)
        (sort_strings first) [] g.in_degree
        (omega (arith, length-sort_strings first, initial_bound jobs g.in_degree)) in
    elim (Bool-cases (length order == length jobs)) [
      | inl e ↦ inr (order, rw (run, e), ground arith)
      | inr e ↦ inl (rw (run, e))
    ]
