-- ===== src/Workflow/Trigger/Tests.antt =====
-- Runs of the triggers, and their theorems at concrete inputs.
use kai_server.Common.{◌≡◌, refl, true, none, [], ◌∷◌, ◌++◌}
use kai_server.Common.Bytes.{Bytes, has_prefix, codes, bytes_eq}
use kai_server.Workflow.Glob.{contains_stars, split_stars, trim_prefix, trim_suffix, has_suffix}
use kai_server.Workflow.Trigger.{
  PushTrigger, TriggerEvent, match_pattern, match_path_pattern, match_double_star_path,
}
use kai_server.Workflow.Trigger.DoubleStar.{match_pattern-below}

abbrev on_main : PushTrigger
on_main = record {
  branches = codes "main" ∷ [];
  branches_ignore = [];
  tags = [];
  tags_ignore = [];
  paths = [];
  paths_ignore = [];
}

abbrev push_of : Bytes → TriggerEvent
push_of ref = record { event_type = "push"; ref = ref; changed_files = none; target_branch = none }

go_file : match_path_pattern (codes "/src/a.go") (codes "src/**/*.go") ≡ true
unfolding match_path_pattern match_double_star_path contains_stars split_stars trim_prefix
    trim_suffix has_suffix has_prefix bytes_eq
go_file = refl

match_pattern-below_example :
    match_pattern (codes "features") (codes "feature" ++ codes "/**")
    ≡ has_prefix (codes "features") (codes "feature")
match_pattern-below_example =
    match_pattern-below (codes "features") (codes "feature")
      (refl, (refl, (refl, (refl, (refl, (refl, (refl, tt)))))))
