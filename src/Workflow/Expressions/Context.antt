-- ===== src/Workflow/Expressions/Context.antt =====
-- expressions.go: the contexts, their lookups and the functions.
use kai_server.Common.Bytes.{Bytes, codes, bytes_eq, has_prefix}
use kai_server.Common.{
  ℕ, zero, suc, Bool, true, false, ◌&&◌, List, [], ◌∷◌, Option, none, some, length, drop, ◌==◌, map,
  if◌then◌else◌,
}
use kai_server.Workflow.Expressions.Values.{
  AnyValue, nothing, bool, text, int, float, array, object, texts, Fields, no_fields, field,
  Library, expr_to_string, expr_contains, ends_with, lowered, format_from, expr_join,
}

-- (StepResult, JobResult) A job has its result for an outcome, and no conclusion.
pub record StepResult : Type 0 where
  pub outputs : List (Bytes × Bytes)
  pub outcome : Bytes
  pub conclusion : Bytes

-- The contexts. `whole` is what a StepResult, a JobResult or a map of them is as a value.
pub record ExprContext : Type 0 where
  pub github : Fields
  pub env : List (Bytes × Bytes)
  pub secrets : List (Bytes × Bytes)
  pub strategy_matrix : Fields
  pub steps : List (Bytes × StepResult)
  pub needs : List (Bytes × StepResult)
  pub runner : List (Bytes × Bytes)
  pub inputs : List (Bytes × Bytes)
  pub vars : List (Bytes × Bytes)
  pub hash_files : Option (List Bytes → Bytes)
  pub whole_results : List (Bytes × StepResult) → AnyValue
  pub whole_result : StepResult → AnyValue

-- strings.SplitN(path, ".", 2): what stands before the first dot, and what behind it
unfoldable pub split_dot : Bytes → Bytes × Option Bytes
split_dot [] = ([], none)
split_dot (c ∷ s) = let rest = split_dot s in if c == 46 then ([], some s) else (c ∷ rest.0, rest.1)

-- m[key], where a missing key has the empty string
unfoldable pub text_at : Bytes → List (Bytes × Bytes) → Bytes
text_at key [] = []
text_at key ((k, v) ∷ m) = let rest = text_at key m in if bytes_eq k key then v else rest

unfoldable pub field_at : Bytes → Fields → Option AnyValue
field_at key no_fields = none
field_at key (field k v m) = let rest = field_at key m in if bytes_eq k key then some v else rest

unfoldable pub result_at : Bytes → List (Bytes × StepResult) → Option StepResult
result_at key [] = none
result_at key ((k, v) ∷ m) = let rest = result_at key m in if bytes_eq k key then some v else rest

-- (deepLookup) A path has no more parts than bytes, so that its length is enough fuel.
unfoldable pub deep_lookup_from : ℕ → Fields → Bytes → AnyValue
deep_lookup_from zero m path = object m
deep_lookup_from (suc fuel) m [] = object m
deep_lookup_from (suc fuel) m (c ∷ path) =
    let parts = split_dot (c ∷ path) in
    elim (field_at parts.0 m) [
      | none ↦ nothing
      | some v ↦ elim parts.1 [
        | none ↦ v
        | some rest ↦ elim v [
          | object sub ↦ deep_lookup_from fuel sub rest
          | nothing ↦ nothing
          | bool b ↦ nothing
          | text b ↦ nothing
          | int n ↦ nothing
          | float n ↦ nothing
          | array vs ↦ nothing
          | texts ts ↦ nothing
        ]
      ]
    ]

abbrev pub deep_lookup : Fields → Bytes → AnyValue
deep_lookup m path = deep_lookup_from (suc (length path)) m path

-- An env-like context: one of its texts, or the whole map.
abbrev pub text_or_all : List (Bytes × Bytes) → Bytes → AnyValue
text_or_all m [] = texts m
text_or_all m (c ∷ rest) = text (text_at (c ∷ rest) m)

-- What follows the name of a step or job: `has_conclusion` tells a step.
abbrev pub result_part : Bool → Bytes → StepResult → Bytes → AnyValue
result_part has_conclusion outcome_name r rest =
    if bytes_eq rest outcome_name
    then text r.outcome
    else if has_conclusion && bytes_eq rest (codes "conclusion")
    then text r.conclusion
    else if has_prefix rest (codes "outputs.")
    then text (text_at (drop 8 rest) r.outputs)
    else if bytes_eq rest (codes "outputs")
    then texts r.outputs
    else nothing

-- (lookupSteps, lookupNeeds)
unfoldable pub lookup_results :
    Bool → Bytes → ExprContext → List (Bytes × StepResult) → Bytes → AnyValue
lookup_results has_conclusion outcome_name ctx m [] = ctx.whole_results m
lookup_results has_conclusion outcome_name ctx m (c ∷ path) =
    let parts = split_dot (c ∷ path) in
    elim (result_at parts.0 m) [
      | none ↦ nothing
      | some r ↦ elim parts.1 [
        | none ↦ ctx.whole_result r
        | some rest ↦ result_part has_conclusion outcome_name r rest
      ]
    ]

abbrev pub or_empty : Option Bytes → Bytes
or_empty none = []
or_empty (some r) = r

-- (lookupContext)
unfoldable pub lookup_context : ExprContext → Bytes → AnyValue
lookup_context ctx path =
    let parts = split_dot path in
    let root = parts.0 in
    let rest = or_empty parts.1 in
    if bytes_eq root (codes "github")
    then deep_lookup ctx.github rest
    else if bytes_eq root (codes "env")
    then text_or_all ctx.env rest
    else if bytes_eq root (codes "secrets")
    then text_or_all ctx.secrets rest
    else if bytes_eq root (codes "matrix")
    then deep_lookup ctx.strategy_matrix rest
    else if bytes_eq root (codes "steps")
    then lookup_results true (codes "outcome") ctx ctx.steps rest
    else if bytes_eq root (codes "needs")
    then lookup_results false (codes "result") ctx ctx.needs rest
    else if bytes_eq root (codes "runner")
    then text_or_all ctx.runner rest
    else if bytes_eq root (codes "inputs")
    then text_or_all ctx.inputs rest
    else if bytes_eq root (codes "vars")
    then text_or_all ctx.vars rest
    else nothing

-- (statusCheck)
unfoldable pub status_check : ExprContext → Bytes → Bool
status_check ctx check = elim (field_at (codes "job_status") ctx.github) [
  | none ↦ bytes_eq check (codes "success")
  | some v ↦ elim v [
    | text status ↦ bytes_eq status check
    | nothing ↦ bytes_eq check (codes "success")
    | bool b ↦ bytes_eq check (codes "success")
    | int n ↦ bytes_eq check (codes "success")
    | float n ↦ bytes_eq check (codes "success")
    | array vs ↦ bytes_eq check (codes "success")
    | object fs ↦ bytes_eq check (codes "success")
    | texts ts ↦ bytes_eq check (codes "success")
  ]
]

module _ (lib : Library) where
  abbrev pub call_contains : List AnyValue → AnyValue
  call_contains (a ∷ b ∷ vs) = bool (expr_contains lib a b)
  call_contains _ = nothing

  abbrev pub call_starts_with : List AnyValue → AnyValue
  call_starts_with (a ∷ b ∷ vs) = bool (has_prefix (lowered lib a) (lowered lib b))
  call_starts_with _ = nothing

  abbrev pub call_ends_with : List AnyValue → AnyValue
  call_ends_with (a ∷ b ∷ vs) = bool (ends_with lib (lowered lib a) (lowered lib b))
  call_ends_with _ = nothing

  -- (exprFormat)
  abbrev pub call_format : List AnyValue → AnyValue
  call_format [] = nothing
  call_format (a ∷ vs) = text (format_from lib 0 vs (expr_to_string lib a))

  abbrev pub call_join : List AnyValue → AnyValue
  call_join [] = nothing
  call_join (a ∷ []) = text (expr_join lib a (44 ∷ []))
  call_join (a ∷ b ∷ vs) = text (expr_join lib a (expr_to_string lib b))

  abbrev pub call_to_json : List AnyValue → AnyValue
  call_to_json [] = nothing
  call_to_json (a ∷ vs) = text (lib.marshal a)

  abbrev pub call_from_json : List AnyValue → AnyValue
  call_from_json [] = nothing
  call_from_json (a ∷ vs) = lib.unmarshal (expr_to_string lib a)

  abbrev pub call_hash_files : ExprContext → List AnyValue → AnyValue
  call_hash_files ctx [] = text []
  call_hash_files ctx (a ∷ vs) = elim ctx.hash_files [
    | none ↦ text []
    | some f ↦ text (f (map (expr_to_string lib) (a ∷ vs)))
  ]

  -- (callFunction)
  unfoldable pub call_function : ExprContext → Bytes → List AnyValue → AnyValue
  call_function ctx name args =
      let f = lib.to_lower name in
      if bytes_eq f (codes "contains")
      then call_contains args
      else if bytes_eq f (codes "startswith")
      then call_starts_with args
      else if bytes_eq f (codes "endswith")
      then call_ends_with args
      else if bytes_eq f (codes "format")
      then call_format args
      else if bytes_eq f (codes "join")
      then call_join args
      else if bytes_eq f (codes "tojson")
      then call_to_json args
      else if bytes_eq f (codes "fromjson")
      then call_from_json args
      else if bytes_eq f (codes "hashfiles")
      then call_hash_files ctx args
      else if bytes_eq f (codes "success")
      then bool (status_check ctx (codes "success"))
      else if bytes_eq f (codes "failure")
      then bool (status_check ctx (codes "failure"))
      else if bytes_eq f (codes "cancelled")
      then bool (status_check ctx (codes "cancelled"))
      else if bytes_eq f (codes "always")
      then bool true
      else nothing
