-- ===== src/Workflow/Trigger.antt =====
-- kailab-control/internal/workflow/trigger.go: which events a workflow runs on. Of an event's payload
-- the two entries that are read are kept, each `none` if it is missing or not of the asserted type.
pub mod Filters
pub mod DoubleStar
mod Tests
use kai_server.Common.{
  ℕ, Bool, true, false, ◌&&◌, ◌||◌, not, Option, none, some, List, [], ◌∷◌, ◌++◌, String, str_eq,
  if◌then◌else◌, length, drop,
}
use kai_server.Common.Bytes.{Bytes, bytes_eq, has_prefix, codes}
use kai_server.Workflow.Glob.{
  has_suffix, trim_prefix, trim_suffix, contains_stars, split_stars, last_part, filepath_match,
  is_nil,
}

pub record PushTrigger : Type 0 where
  pub branches : List Bytes
  pub branches_ignore : List Bytes
  pub tags : List Bytes
  pub tags_ignore : List Bytes
  pub paths : List Bytes
  pub paths_ignore : List Bytes

pub record PullRequestTrigger : Type 0 where
  pub branches : List Bytes
  pub branches_ignore : List Bytes
  pub paths : List Bytes
  pub paths_ignore : List Bytes
  pub types : List String

pub record ReviewTrigger : Type 0 where
  pub types : List String

-- Of the dispatch and call triggers only the presence is read, and of the schedule the length.
pub record WorkflowTrigger : Type 0 where
  pub push : Option PushTrigger
  pub pull_request : Option PullRequestTrigger
  pub review : Option ReviewTrigger
  pub workflow_dispatch : Bool
  pub workflow_call : Bool
  pub schedule : List String

pub record TriggerEvent : Type 0 where
  pub event_type : String
  pub ref : Bytes
  pub changed_files : Option (List Bytes)
  pub target_branch : Option Bytes

-- matchDoubleStarPattern: the test of what follows the last `**`
abbrev pub suffix_matches : Bytes → Bytes → Bool
suffix_matches name last =
    if is_nil last
    then true
    else let suffix = trim_prefix last (codes "/") in is_nil suffix || has_suffix name suffix

unfoldable pub match_double_star_parts : Bytes → Bytes → List Bytes → Bool
unfolding trim_prefix trim_suffix has_suffix has_prefix
match_double_star_parts name first parts =
    if is_nil first
    then suffix_matches name (last_part first parts)
    else let prefix = trim_suffix first (codes "/") in
      if not (is_nil prefix) && not (has_prefix name prefix)
      then false
      else suffix_matches (trim_prefix (trim_prefix name prefix) (codes "/"))
          (last_part first parts)

-- A pattern without `**` is one part.
unfoldable pub match_double_star_pattern : Bytes → Bytes → Bool
unfolding split_stars match_double_star_parts filepath_match
match_double_star_pattern name pattern = elim (split_stars [] pattern) [
  | [] ↦ true
  | first ∷ parts ↦
      if is_nil parts then filepath_match pattern name else match_double_star_parts name first parts
]

unfoldable pub match_pattern : Bytes → Bytes → Bool
unfolding contains_stars match_double_star_pattern filepath_match
match_pattern name pattern =
    if contains_stars pattern
    then match_double_star_pattern name pattern
    else filepath_match pattern name

unfoldable pub match_patterns : Bytes → List Bytes → Bool
unfolding match_pattern
match_patterns name [] = false
match_patterns name (pattern ∷ patterns) =
    match_pattern name pattern || match_patterns name patterns

-- matchDoubleStarPath: `**/*.go` asks for an ending.
abbrev pub path_suffix_matches : Bytes → Bytes → Bool
path_suffix_matches path last =
    if is_nil last
    then true
    else let suffix = trim_prefix last (codes "/") in
      if has_prefix suffix (codes "*.")
      then has_suffix path (trim_prefix suffix (codes "*"))
      else has_suffix path suffix

unfoldable pub match_double_star_path : Bytes → Bytes → Bool
unfolding split_stars trim_prefix trim_suffix has_suffix has_prefix
match_double_star_path path pattern = elim (split_stars [] pattern) [
  | [] ↦ true
  | first ∷ parts ↦
      if is_nil first
      then is_nil parts || path_suffix_matches path (last_part first parts)
      else let prefix = trim_suffix first (codes "/") in
        if not (has_prefix path prefix)
        then false
        else is_nil parts
          || path_suffix_matches (trim_prefix (trim_prefix path prefix) (codes "/"))
              (last_part first parts)
]

unfoldable pub match_path_pattern : Bytes → Bytes → Bool
unfolding contains_stars match_double_star_path filepath_match
match_path_pattern path pattern =
    let path' = trim_prefix path (codes "/") in
    let pattern' = trim_prefix pattern (codes "/") in
    if contains_stars pattern'
    then match_double_star_path path' pattern'
    else filepath_match pattern' path'
      || (has_suffix pattern' (codes "/*")
          && has_prefix path' (trim_suffix pattern' (codes "/*") ++ codes "/"))

-- some pattern matches the file
unfoldable pub matches_file : List Bytes → Bytes → Bool
unfolding match_path_pattern
matches_file [] file = false
matches_file (pattern ∷ patterns) file =
    match_path_pattern file pattern || matches_file patterns file

unfoldable pub match_any_path : List Bytes → List Bytes → Bool
unfolding matches_file
match_any_path [] patterns = false
match_any_path (file ∷ files) patterns = matches_file patterns file || match_any_path files patterns

unfoldable pub match_all_paths : List Bytes → List Bytes → Bool
unfolding matches_file
match_all_paths [] patterns = true
match_all_paths (file ∷ files) patterns =
    matches_file patterns file && match_all_paths files patterns

-- A filter of names and one of names to ignore, an empty one letting everything pass.
unfoldable pub passes_names : List Bytes → List Bytes → Bytes → Bool
unfolding match_patterns
passes_names only ignore name =
    (is_nil only || match_patterns name only) && (is_nil ignore || not (match_patterns name ignore))

unfoldable pub passes_paths : List Bytes → List Bytes → Option (List Bytes) → Bool
unfolding match_any_path match_all_paths
passes_paths only ignore none = true
passes_paths only ignore (some files) =
    (is_nil only || match_any_path files only)
    && (is_nil ignore || not (match_all_paths files ignore))

-- A tag passes if there are tag filters, or no branch filters.
abbrev pub passes_tag : PushTrigger → Bytes → Bool
passes_tag push name =
    passes_names push.tags push.tags_ignore name
    && not (
        (is_nil push.tags && is_nil push.tags_ignore)
        && (not (is_nil push.branches) || not (is_nil push.branches_ignore)))

-- A ref that is neither a branch nor a tag meets no filter of names.
abbrev pub passes_ref : PushTrigger → Bytes → Bool
passes_ref push ref =
    if has_prefix ref (codes "refs/heads/")
    then passes_names push.branches push.branches_ignore (trim_prefix ref (codes "refs/heads/"))
    else if has_prefix ref (codes "refs/tags/")
    then passes_tag push (trim_prefix ref (codes "refs/tags/"))
    else true

unfoldable pub match_push_trigger : Option PushTrigger → TriggerEvent → Bool
unfolding passes_names passes_paths trim_prefix
match_push_trigger none event = false
match_push_trigger (some push) event =
    passes_ref push event.ref && passes_paths push.paths push.paths_ignore event.changed_files

-- the action of a review event
abbrev pub review_action : String → Option String
review_action event_type =
    if str_eq event_type "review_created"
    then some "opened"
    else if str_eq event_type "review_updated"
    then some "synchronize"
    else none

unfoldable pub has_type : List String → String → Bool
has_type [] action = false
has_type (t ∷ types) action = str_eq t action || has_type types action

abbrev pub passes_types : List String → Option String → Bool
passes_types types none = false
passes_types types (some action) = is_nil types || has_type types action

unfoldable pub match_review_trigger : Option ReviewTrigger → TriggerEvent → Bool
unfolding has_type
match_review_trigger none event = false
match_review_trigger (some review) event =
    passes_types review.types (review_action event.event_type)

abbrev pub passes_target : PullRequestTrigger → Option Bytes → Bool
passes_target pr none = true
passes_target pr (some branch) = is_nil branch || passes_names pr.branches pr.branches_ignore branch

unfoldable pub match_pull_request_trigger : Option PullRequestTrigger → TriggerEvent → Bool
unfolding has_type passes_names passes_paths
match_pull_request_trigger none event = false
match_pull_request_trigger (some pr) event =
    passes_types pr.types (review_action event.event_type)
    && passes_target pr event.target_branch
    && passes_paths pr.paths pr.paths_ignore event.changed_files

unfoldable pub match_trigger : WorkflowTrigger → TriggerEvent → Bool
unfolding match_push_trigger match_review_trigger match_pull_request_trigger
match_trigger on event =
    if str_eq event.event_type "push"
    then match_push_trigger on.push event
    else if str_eq event.event_type "review_created" || str_eq event.event_type "review_updated"
    then match_review_trigger on.review event || match_pull_request_trigger on.pull_request event
    else if str_eq event.event_type "workflow_dispatch"
    then on.workflow_dispatch
    else if str_eq event.event_type "schedule"
    then not (is_nil on.schedule)
    else if str_eq event.event_type "workflow_call"
    then on.workflow_call
    else false

unfoldable pub filter_workflows_by_event :
    List WorkflowTrigger → TriggerEvent → List WorkflowTrigger
unfolding match_trigger
filter_workflows_by_event [] event = []
filter_workflows_by_event (on ∷ workflows) event =
    if match_trigger on event
    then on ∷ filter_workflows_by_event workflows event
    else filter_workflows_by_event workflows event
