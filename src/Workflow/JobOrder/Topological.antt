-- ===== src/Workflow/JobOrder/Topological.antt =====
-- matrix.go, GetJobOrder: the order of the jobs that it returns.
use mathlib.Core.Path.{subst, subst⁻¹}
use kai_server.Common.Ints.{ℤ, pos}
use kai_server.Common.{
  ℕ, zero, suc, ◌+◌, ◌≤◌, ◌≡◌, refl, sym, ap, ◌∙◌, arith, false, List, [], ◌∷◌, ◌++◌, append_assoc,
  append-nil, String, str_eq, str_eq_iff, str_eq_self, ◌==◌, length, All, Bool-cases, inl, inr,
  Result, ok, err, ok-bind,
}
use kai_server.Workflow.JobOrder.{
  is_zero, Jobs, empty_graph, build_graph, sort_strings, initial_queue, order_loop, all_ordered,
  get_job_order,
}
use kai_server.Workflow.JobOrder.Counts.{
  count, count-append, count-sort_strings, needs_of, empty_graph-GraphFor,
}
use kai_server.Workflow.JobOrder.Visits.{
  open_needs, open_needs-snoc, open_needs-zero, is_zero-pos, Visiting, visit_all,
}

-- Each job stands behind the jobs that it needs; `done` comes before.
abbrev pub IsTopological : (String → List String) → List String → List String → Type 0
IsTopological needs done [] = Unit {0}
IsTopological needs done (x ∷ xs) =
    All (λ n. 1 ≤ count n done) (needs x) × IsTopological needs (done ++ (x ∷ [])) xs

pos_injective : (m n : ℕ) → pos m ≡ pos n → m ≡ n
pos_injective m n h = cc

ok_injective :
    (r : Result (Unit {0}) (List String)) (xs ys : List String) → r ≡ ok ys → r ≡ ok xs → xs ≡ ys
ok_injective r xs ys h k = cc

module _ (needs : String → List String) (deps : String → List String)
    (graph : (x j : String) → count j (deps x) ≡ count x (needs j)) where
  take_first :
      (done queue : List String) (x : String) (degree : String → ℤ)
      → Visiting needs done [] (x ∷ queue) degree
      → Visiting needs (done ++ (x ∷ [])) (sort_strings (deps x)) queue degree
  take_first done queue x degree v = record {
    degrees = λ j.
        v.degrees j
        ∙ ap pos (
            omega (
              arith,
              open_needs-snoc done (needs j) x fresh,
              count-sort_strings j (deps x),
              graph x j,
            ));
    once = λ y. omega (arith, v.once y, count-append y done (x ∷ []));
    zeros = λ y h. v.zeros y (omega (arith, h, count-append y done (x ∷ [])));
  }
    where
      fresh : count x done ≡ 0
      fresh = omega (arith, rw (str_eq_self x) at (v.once x))

  ready :
      (done queue : List String) (x : String) (degree : String → ℤ)
      → Visiting needs done [] (x ∷ queue) degree
      → All (λ n. 1 ≤ count n done) (needs x)
  ready done queue x degree v =
      let here : 1 ≤ count x (x ∷ queue) + count x done = rw (str_eq_self x) (omega arith) in
      let none_open = pos_injective _ _ (sym (v.degrees x) ∙ v.zeros x here) in
      open_needs-zero done (needs x) (omega arith)

  order_loop-IsTopological :
      (fuel : ℕ) (done queue order : List String) (degree : String → ℤ)
      → Visiting needs done [] queue degree
      → order_loop fuel deps queue done degree ≡ ok order
      → (rest : List String) × (order ≡ done ++ rest)
        × IsTopological needs done rest
        × ((y : String) → count y order ≤ 1)
  unfolding order_loop
  order_loop-IsTopological fuel done [] order degree v h =
      let same : order ≡ done = ok_injective (ok done) order done refl h in
      ([], same ∙ sym (append-nil done), tt, λ y. rw same (omega (arith, v.once y)))
  order_loop-IsTopological zero done (x ∷ queue) order degree v h = absurd (cc)
  order_loop-IsTopological (suc fuel) done (x ∷ queue) order degree v h =
      let after =
        visit_all needs (done ++ (x ∷ [])) (sort_strings (deps x)) queue degree
          (take_first done queue x degree v) in
      let (rest, whole, ordered, once) =
        order_loop-IsTopological fuel (done ++ (x ∷ [])) _ order _ after h in
      (
        x ∷ rest,
        whole ∙ append_assoc done (x ∷ []) rest,
        (ready done queue x degree v, ordered),
        once,
      )

-- A Go map has one entry to a name.
abbrev pub DistinctNames : Jobs → Type 0
DistinctNames [] = Unit {0}
DistinctNames ((name, needs) ∷ jobs) = All (λ e. str_eq e.0 name ≡ false) jobs × DistinctNames jobs

initial_none :
    (jobs : Jobs) (degree : String → ℤ) (y : String)
    → All (λ e. str_eq e.0 y ≡ false) jobs
    → count y (initial_queue jobs degree) ≡ 0
unfolding initial_queue
initial_none [] degree y h = refl
initial_none ((name, needs) ∷ jobs) degree y (h, hs) =
    let rest = initial_none jobs degree y hs in
    elim (Bool-cases (is_zero (degree name))) [
      | inl e ↦ rw (e, h) (omega (arith, rest))
      | inr e ↦ rw e rest
    ]

initial_once :
    (jobs : Jobs) (degree : String → ℤ) (y : String)
    → DistinctNames jobs
    → count y (initial_queue jobs degree) ≤ 1
unfolding initial_queue
initial_once [] degree y d = omega arith
initial_once ((name, needs) ∷ jobs) degree y (new, d) =
    let rest = initial_once jobs degree y d in
    elim (Bool-cases (is_zero (degree name))) [
      | inl e ↦ rw e (elim (Bool-cases (str_eq name y)) [
        | inl s ↦
            let none = initial_none jobs degree name new in
            let none_at : count y (initial_queue jobs degree) ≡ 0 =
              subst (λ k. count k (initial_queue jobs degree) ≡ 0) ((str_eq_iff name y).0 s) none in
            rw s (omega (arith, none_at))
        | inr s ↦ rw s (omega (arith, rest))
      ])
      | inr e ↦ rw e rest
    ]

initial_zeros :
    (jobs : Jobs) (degree : String → ℤ) (y : String)
    → 1 ≤ count y (initial_queue jobs degree)
    → degree y ≡ pos zero
unfolding initial_queue
initial_zeros [] degree y h = absurd (omega arith)
initial_zeros ((name, needs) ∷ jobs) degree y h = elim (Bool-cases (is_zero (degree name))) [
  | inl e ↦ elim (Bool-cases (str_eq name y)) [
    | inl s ↦
        subst (λ k. degree k ≡ pos zero) ((str_eq_iff name y).0 s) (is_zero-pos (degree name) e)
    | inr s ↦ initial_zeros jobs degree y (omega (arith, rw (e, s) at h))
  ]
  | inr e ↦ initial_zeros jobs degree y (rw e at h)
]

open_needs-nil : (ns : List String) → open_needs [] ns ≡ length ns
open_needs-nil [] = refl
open_needs-nil (n ∷ ns) = omega (arith, open_needs-nil ns)

initial-Visiting :
    (jobs : Jobs)
    → DistinctNames jobs
    → Visiting
        (needs_of jobs)
        []
        []
        (sort_strings (initial_queue jobs (build_graph jobs empty_graph).in_degree))
        (build_graph jobs empty_graph).in_degree
initial-Visiting jobs d =
    let degree = (build_graph jobs empty_graph).in_degree in
    record {
      degrees = λ j.
          (empty_graph-GraphFor jobs).0 j
          ∙ ap pos (omega (arith, open_needs-nil (needs_of jobs j)));
      once = λ y.
          omega
            (arith, count-sort_strings y (initial_queue jobs degree), initial_once jobs degree y d);
      zeros = λ y h.
          initial_zeros jobs degree y
            (omega (arith, h, count-sort_strings y (initial_queue jobs degree)));
    }

all_ordered-same :
    (n : ℕ) (whole order : List String) → all_ordered n whole ≡ ok order → order ≡ whole
all_ordered-same n whole order h = elim (Bool-cases (length whole == n)) [
  | inl e ↦ ok_injective (ok whole) order whole refl (rw e at h)
  | inr e ↦ absurd (not_err (all_ordered n whole) (rw e) h)
]
  where
    not_err : (r : Result (Unit {0}) (List String)) → r ≡ err tt → r ≡ ok order → ⊥
    not_err r a b = absurd (cc)

-- An order that GetJobOrder returns for jobs with distinct names is topological, each job behind the
-- jobs that it needs, and no name stands in it twice.
pub get_job_order-IsTopological :
    (jobs : Jobs) (order : List String)
    → DistinctNames jobs
    → get_job_order jobs ≡ ok order
    → IsTopological (needs_of jobs) [] order × ((y : String) → count y order ≤ 1)
unfolding get_job_order
get_job_order-IsTopological jobs order d h =
    let g = build_graph jobs empty_graph in
    let (whole, run, checked) =
      ok-bind
        (order_loop (length jobs) g.deps (sort_strings (initial_queue jobs g.in_degree)) []
          g.in_degree)
        _ order h in
    let (rest, same, ordered, once) =
      order_loop-IsTopological (needs_of jobs) g.deps (empty_graph-GraphFor jobs).1 (length jobs) []
        _ whole g.in_degree (initial-Visiting jobs d) run in
    let kept : order ≡ whole = all_ordered-same (length jobs) whole order checked in
    (subst⁻¹ (IsTopological (needs_of jobs) []) (kept ∙ same) ordered, λ y. rw kept (once y))
