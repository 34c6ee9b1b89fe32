-- ===== src/Workflow/JobOrder/Tests.antt =====
-- Runs of GetJobOrder, and its theorem at a concrete workflow.
use kai_server.Common.{◌≡◌, ◌⊎◌, ◌≤◌, refl, List, [], ◌∷◌, String, length, ok, err}
use kai_server.Common.Bytes.{bytes_less}
use kai_server.Workflow.JobOrder.{
  Jobs, add_needs, build_graph, insert_string, sort_strings, initial_queue, visit, order_loop,
  get_job_order,
}
use kai_server.Workflow.JobOrder.Counts.{count, needs_of}
use kai_server.Workflow.JobOrder.Topological.{IsTopological, get_job_order-IsTopological}
use kai_server.Workflow.JobOrder.Ends.{get_job_order_total}

abbrev diamond : Jobs
diamond =
    ("deploy", "test" ∷ "lint" ∷ [])
    ∷ ("test", "build" ∷ [])
    ∷ ("lint", "build" ∷ [])
    ∷ ("build", [])
    ∷ []

ordered : get_job_order diamond ≡ ok ("build" ∷ "lint" ∷ "test" ∷ "deploy" ∷ [])
unfolding get_job_order build_graph add_needs initial_queue sort_strings insert_string bytes_less
    order_loop visit
ordered = refl

cycle : get_job_order (("a", "b" ∷ []) ∷ ("b", "a" ∷ []) ∷ []) ≡ err tt
unfolding get_job_order build_graph add_needs initial_queue sort_strings insert_string bytes_less
    order_loop visit
cycle = refl

-- A need that names no job is reported as a cycle.
unknown_need : get_job_order (("a", "missing" ∷ []) ∷ []) ≡ err tt
unfolding get_job_order build_graph add_needs initial_queue sort_strings insert_string bytes_less
    order_loop visit
unknown_need = refl

get_job_order_total_example :
    (get_job_order diamond ≡ err tt)
    ⊎ ((order : List String) × (get_job_order diamond ≡ ok order) × (length order ≡ length diamond))
get_job_order_total_example = get_job_order_total diamond

get_job_order-IsTopological_example :
    IsTopological (needs_of diamond) [] ("build" ∷ "lint" ∷ "test" ∷ "deploy" ∷ [])
    × ((y : String) → count y ("build" ∷ "lint" ∷ "test" ∷ "deploy" ∷ []) ≤ 1)
unfolding get_job_order build_graph add_needs initial_queue sort_strings insert_string bytes_less
    order_loop visit
get_job_order-IsTopological_example =
    get_job_order-IsTopological diamond ("build" ∷ "lint" ∷ "test" ∷ "deploy" ∷ [])
      ((refl, (refl, (refl, tt))), ((refl, (refl, tt)), ((refl, tt), (tt, tt)))) refl
