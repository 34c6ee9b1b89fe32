-- ===== src/Workflow/JobOrder/Visits.antt =====
-- matrix.go, GetJobOrder: what holds while the dependents of a job are visited.
use mathlib.Core.Path.{subst}
use kai_server.Common.Ints.{ℤ, pos, negsuc}
use kai_server.Common.{
  ℕ, zero, suc, ◌+◌, ◌≤◌, ◌≡◌, ◌⊎◌, refl, sym, ap, ◌∙◌, arith, Bool, true, false, List, [], ◌∷◌,
  ◌++◌, String, str_eq, str_eq_iff, str_eq_self, if◌then◌else◌, ◌==◌, All, Bool-cases, inl, inr,
}
use kai_server.Workflow.JobOrder.{decrement, is_zero, update, visit}
use kai_server.Workflow.JobOrder.Counts.{one_if, count, count-append}

-- the needs that are not yet done
abbrev pub open_needs : List String → List String → ℕ
open_needs done [] = 0
open_needs done (n ∷ ns) = one_if (count n done == 0) + open_needs done ns

one_if-le : (b : Bool) → one_if b ≤ 1
one_if-le true = omega arith
one_if-le false = omega arith

str_eq-flip : (s t : String) → str_eq s t ≡ false → str_eq t s ≡ false
str_eq-flip s t h = elim (Bool-cases (str_eq t s)) [
  | inl e ↦ e ∙ sym ((str_eq_iff s t).1 (sym ((str_eq_iff t s).0 e))) ∙ h
  | inr e ↦ e
]

pub open_needs-snoc :
    (done ns : List String) (x : String)
    → count x done ≡ 0
    → open_needs done ns ≡ open_needs (done ++ (x ∷ [])) ns + count x ns
open_needs-snoc done [] x h = refl
open_needs-snoc done (n ∷ ns) x h =
    omega (arith, head_of (Bool-cases (str_eq n x)), open_needs-snoc done ns x h)
  where
    head_of :
        (str_eq n x ≡ true) ⊎ (str_eq n x ≡ false)
        → one_if (count n done == 0)
          ≡ one_if (count n (done ++ (x ∷ [])) == 0) + one_if (str_eq n x)
    head_of (inl e) =
        let same = (str_eq_iff n x).0 e in
        let not_yet : count n done ≡ 0 = ap (λ k. count k done) same ∙ h in
        let now : count n (done ++ (x ∷ [])) ≡ 1 =
          count-append n done (x ∷ []) ∙ rw (not_yet, (str_eq_iff x n).1 (sym same)) in
        rw (not_yet, now, e)
    head_of (inr e) =
        let apart : str_eq x n ≡ false = str_eq-flip n x e in
        let as_before : count n (done ++ (x ∷ [])) ≡ count n done =
          count-append n done (x ∷ []) ∙ rw apart (omega arith) in
        rw (as_before, e) (omega arith)

pub open_needs-zero :
    (done ns : List String) → open_needs done ns ≡ 0 → All (λ n. 1 ≤ count n done) ns
open_needs-zero done [] h = tt
open_needs-zero done (n ∷ ns) h = (ground arith, open_needs-zero done ns (omega arith))

pub is_zero-pos : (z : ℤ) → is_zero z ≡ true → z ≡ pos zero
is_zero-pos (pos zero) h = refl
is_zero-pos (pos (suc n)) h = absurd (cc)
is_zero-pos (negsuc n) h = absurd (cc)

-- While the dependents `ds` of a job are still to be visited: the degree of a job is the number of
-- its needs that are not done and of its places in `ds`; no name is in the queue and done, or twice
-- in one of them; and such a name has degree zero.
module _ (needs : String → List String) (done : List String) where
  pub record Visiting (ds queue : List String) (degree : String → ℤ) : Type 0 where
    pub degrees : (j : String) → degree j ≡ pos (open_needs done (needs j) + count j ds)
    pub once : (y : String) → count y queue + count y done ≤ 1
    pub zeros : (y : String) → 1 ≤ count y queue + count y done → degree y ≡ pos zero

  degree_of_first :
      (d : String) (ds queue : List String) (degree : String → ℤ)
      → Visiting (d ∷ ds) queue degree
      → degree d ≡ pos (suc (open_needs done (needs d) + count d ds))
  degree_of_first d ds queue degree v = v.degrees d ∙ rw (str_eq_self d) (ap pos (omega arith))

  not_listed :
      (d : String) (ds queue : List String) (degree : String → ℤ)
      → Visiting (d ∷ ds) queue degree
      → count d queue + count d done ≡ 0
  not_listed d ds queue degree v = elim (Bool-cases (count d queue + count d done == 0)) [
    | inl e ↦ ground arith
    | inr e ↦
        let zero_degree = v.zeros d (ground arith) in
        let positive = degree_of_first d ds queue degree v in
        absurd (apart (degree d) _ zero_degree positive)
  ]
    where
      apart : (z : ℤ) (n : ℕ) → z ≡ pos zero → z ≡ pos (suc n) → ⊥
      apart z n h k = absurd (cc)

  lowered :
      (d : String) (ds queue : List String) (degree : String → ℤ)
      → Visiting (d ∷ ds) queue degree
      → (j : String)
      → update degree d (decrement (degree d)) j ≡ pos (open_needs done (needs j) + count j ds)
  lowered d ds queue degree v j = elim (Bool-cases (str_eq d j)) [
    | inl e ↦ rw e (
        subst (λ k. decrement (degree d) ≡ pos (open_needs done (needs k) + count k ds))
          ((str_eq_iff d j).0 e) (ap decrement (degree_of_first d ds queue degree v)))
    | inr e ↦ rw e (v.degrees j ∙ rw e (ap pos (omega arith)))
  ]

  visit_first :
      (d : String) (ds queue : List String) (degree : String → ℤ)
      → Visiting (d ∷ ds) queue degree
      → Visiting ds
          (if is_zero (decrement (degree d)) then queue ++ (d ∷ []) else queue)
          (update degree d (decrement (degree d)))
  visit_first d ds queue degree v = elim (Bool-cases (is_zero (decrement (degree d)))) [
    | inl z ↦ rw z (pushed z)
    | inr z ↦ rw z kept
  ]
    where
      absent : count d queue + count d done ≡ 0
      absent = not_listed d ds queue degree v

      absent_at : (y : String) → str_eq d y ≡ true → count y queue + count y done ≡ 0
      absent_at y e = subst (λ k. count k queue + count k done ≡ 0) ((str_eq_iff d y).0 e) absent

      pushed :
          is_zero (decrement (degree d)) ≡ true
          → Visiting ds (queue ++ (d ∷ [])) (update degree d (decrement (degree d)))
      pushed z = record {
        degrees = lowered d ds queue degree v;
        once = λ y. elim (Bool-cases (str_eq d y)) [
          | inl e ↦ omega (arith, rw e at (count-append y queue (d ∷ [])), absent_at y e)
          | inr e ↦ omega (arith, rw e at (count-append y queue (d ∷ [])), v.once y)
        ];
        zeros = λ y h. elim (Bool-cases (str_eq d y)) [
          | inl e ↦ rw e (is_zero-pos (decrement (degree d)) z)
          | inr e ↦ rw e (v.zeros y (omega (arith, h, rw e at (count-append y queue (d ∷ [])))))
        ];
      }

      kept : Visiting ds queue (update degree d (decrement (degree d)))
      kept = record {
        degrees = lowered d ds queue degree v;
        once = v.once;
        zeros = λ y h. elim (Bool-cases (str_eq d y)) [
          | inl e ↦ absurd (omega (arith, h, absent_at y e))
          | inr e ↦ rw e (v.zeros y h)
        ];
      }

  pub visit_all :
      (ds queue : List String) (degree : String → ℤ)
      → Visiting ds queue degree
      → Visiting [] (visit ds queue degree).0 (visit ds queue degree).1
  unfolding visit
  visit_all [] queue degree v = v
  visit_all (d ∷ ds) queue degree v = visit_all ds _ _ (visit_first d ds queue degree v)
