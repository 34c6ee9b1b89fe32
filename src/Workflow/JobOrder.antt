-- ===== src/Workflow/JobOrder.antt =====
-- kailab-control/internal/workflow/matrix.go, GetJobOrder. A map with a zero value for a missing key
-- is a function; the jobs are taken in the order of the loop over them, which Go does not fix.
mod Tests
pub mod Ends
pub mod Counts
pub mod Visits
pub mod Topological
use kai_server.Common.Ints.{ℤ, pos, negsuc}
use kai_server.Common.{
  ℕ, zero, suc, ◌+◌, Bool, true, false, ◌&&◌, ◌||◌, not, Option, none, some, List, [], ◌∷◌, ◌++◌,
  String, str_eq, if◌then◌else◌, ◌==◌, length, Result, ok, err, panic, stuck, ◌>>=◌,
}
use kai_server.Common.Bytes.{codes, bytes_less}

abbrev pub decrement : ℤ → ℤ
decrement (pos zero) = negsuc zero
decrement (pos (suc n)) = pos n
decrement (negsuc n) = negsuc (suc n)

abbrev pub increment : ℤ → ℤ
increment (pos n) = pos (suc n)
increment (negsuc zero) = pos zero
increment (negsuc (suc n)) = negsuc n

abbrev pub is_zero : ℤ → Bool
is_zero (pos zero) = true
is_zero _ = false

-- the name of a job, and what it needs
abbrev pub Jobs : Type 0
Jobs = List (String × List String)

-- m[k] = v
abbrev pub update {ℓ} : {V : Type ℓ} → (String → V) → String → V → String → V
update m k v j = if str_eq k j then v else m j

-- `deps` and `inDegree`
pub record Graph : Type 0 where
  pub deps : String → List String
  pub in_degree : String → ℤ

abbrev pub empty_graph : Graph
empty_graph = record { deps = λ name. []; in_degree = λ name. pos zero }

abbrev pub add_need : String → String → Graph → Graph
add_need name need g = record {
  deps = update g.deps need (g.deps need ++ (name ∷ []));
  in_degree = update g.in_degree name (increment (g.in_degree name));
}

unfoldable pub add_needs : String → List String → Graph → Graph
add_needs name [] g = g
add_needs name (need ∷ needs) g = add_needs name needs (add_need name need g)

unfoldable pub build_graph : Jobs → Graph → Graph
unfolding add_needs
build_graph [] g = g
build_graph ((name, needs) ∷ jobs) g = build_graph jobs (add_needs name needs g)

-- sort.Strings
unfoldable pub insert_string : String → List String → List String
insert_string s [] = s ∷ []
insert_string s (t ∷ ts) =
    if bytes_less (codes t) (codes s) then t ∷ insert_string s ts else s ∷ t ∷ ts

unfoldable pub sort_strings : List String → List String
unfolding insert_string
sort_strings [] = []
sort_strings (s ∷ ss) = insert_string s (sort_strings ss)

-- the jobs with no needs
unfoldable pub initial_queue : Jobs → (String → ℤ) → List String
initial_queue [] degree = []
initial_queue ((name, needs) ∷ jobs) degree =
    if is_zero (degree name) then name ∷ initial_queue jobs degree else initial_queue jobs degree

-- the loop over the dependents of the job that is taken
unfoldable pub visit : List String → List String → (String → ℤ) → List String × (String → ℤ)
visit [] queue degree = (queue, degree)
visit (dep ∷ dependents) queue degree =
    let degree' = update degree dep (decrement (degree dep)) in
    visit dependents (if is_zero (decrement (degree dep)) then queue ++ (dep ∷ []) else queue)
      degree'

-- Every round takes a job from the queue: the fuel is the number of jobs.
unfoldable pub order_loop :
    ℕ
    → (String → List String)
    → List String
    → List String
    → (String → ℤ)
    → Result (Unit {0}) (List String)
unfolding visit sort_strings
order_loop fuel deps [] result degree = ok result
order_loop zero deps (name ∷ queue) result degree = stuck
order_loop (suc fuel) deps (name ∷ queue) result degree =
    let next = visit (sort_strings (deps name)) queue degree in
    order_loop fuel deps next.0 (result ++ (name ∷ [])) next.1

abbrev pub all_ordered : ℕ → List String → Result (Unit {0}) (List String)
all_ordered n result = if length result == n then ok result else err tt

-- The error is a circular dependency.
unfoldable pub get_job_order : Jobs → Result (Unit {0}) (List String)
unfolding build_graph initial_queue order_loop
get_job_order jobs =
    let g = build_graph jobs empty_graph in
    do
      result ←
          order_loop (length jobs) g.deps (sort_strings (initial_queue jobs g.in_degree)) []
            g.in_degree
      all_ordered (length jobs) result
