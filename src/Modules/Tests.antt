-- ===== src/Modules/Tests.antt =====
-- Runs on two modules, and the theorems at concrete inputs. A pattern is a path, or "*", or broken.
use kai_server.Common.{
  ◌≡◌, refl, Bool, true, String, str_eq, [], ◌∷◌, Option, none, some, if◌then◌else◌,
}
use kai_server.Modules.{Matcher, matches_any, match_path, paths_at, match_paths, get_module_payload}
use kai_server.Modules.Laws.{times, matched_by, match_paths-matched_by}

abbrev glob : String → String → Option Bool
glob pattern path =
    if str_eq pattern "["
    then none
    else some (if str_eq pattern "*" then true else str_eq pattern path)

abbrev two : Matcher
two =
    record { name = "all"; paths = "[" ∷ "*" ∷ [] }
    ∷ record { name = "auth"; paths = "login.go" ∷ "token.go" ∷ [] }
    ∷ []

both : match_path glob two "token.go" ≡ "all" ∷ "auth" ∷ []
unfolding match_path matches_any
both = refl

payload : get_module_payload "auth" two ≡ some ("auth", "login.go" ∷ "token.go" ∷ [])
unfolding get_module_payload
payload = refl

match_paths-matched_by_example :
    paths_at glob "auth" (match_paths glob two ("main.go" ∷ "token.go" ∷ [])) ≡ "token.go" ∷ []
unfolding matched_by match_path matches_any times
match_paths-matched_by_example =
    match_paths-matched_by glob two ("main.go" ∷ "token.go" ∷ []) "auth"
