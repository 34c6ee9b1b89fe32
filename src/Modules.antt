-- ===== src/Modules.antt =====
-- kai-core/modulematch/modulematch.go: the modules that a path belongs to.
--
-- doublestar.Match is the parameter `glob`, of a pattern and a path: none for an error. LoadRules and
-- SaveRules, which read and write a YAML file, are left out.
pub mod Laws
mod Tests
use kai_server.Common.Maps.{lookup, put}
use kai_server.Common.{
  ℕ, Bool, true, false, String, str_eq, List, [], ◌∷◌, ◌++◌, Option, none, some, if◌then◌else◌,
}

pub record ModuleRule : Type 0 where
  pub name : String
  pub paths : List String

-- (Matcher)
abbrev pub Matcher : Type 0
Matcher = List ModuleRule

module _ (glob : String → String → Option Bool) where
  -- The inner loop of MatchPath: an error goes on to the next pattern.
  unfoldable pub matches_any : List String → String → Bool
  matches_any [] path = false
  matches_any (p ∷ ps) path =
      let rest = matches_any ps path in
      elim (glob p path) [ none ↦ rest | some true ↦ true | some false ↦ rest ]

  -- (MatchPath)
  unfoldable pub match_path : Matcher → String → List String
  match_path [] path = []
  match_path (m ∷ ms) path =
      let rest = match_path ms path in if matches_any m.paths path then m.name ∷ rest else rest

  -- result[mod], where a missing key has a nil slice
  abbrev pub paths_at : String → List (String × List String) → List String
  paths_at name result = elim (lookup name result) [ none ↦ [] | some ps ↦ ps ]

  -- result[mod] = append(result[mod], path), for each of the modules
  unfoldable pub add_path :
      List String → String → List (String × List String) → List (String × List String)
  add_path [] path result = result
  add_path (name ∷ names) path result =
      add_path names path (put name (paths_at name result ++ (path ∷ [])) result)

  unfoldable pub match_paths_from :
      Matcher → List String → List (String × List String) → List (String × List String)
  match_paths_from ms [] result = result
  match_paths_from ms (path ∷ paths) result =
      match_paths_from ms paths (add_path (match_path ms path) path result)

  -- (MatchPaths)
  abbrev pub match_paths : Matcher → List String → List (String × List String)
  match_paths ms paths = match_paths_from ms paths []

-- (GetModule)
unfoldable pub get_module : String → Matcher → Option ModuleRule
get_module name [] = none
get_module name (m ∷ ms) =
    let rest = get_module name ms in if str_eq m.name name then some m else rest

-- (GetModulePayload) the name and the patterns
unfoldable pub get_module_payload : String → Matcher → Option (String × List String)
get_module_payload name [] = none
get_module_payload name (m ∷ ms) =
    let rest = get_module_payload name ms in
    if str_eq m.name name then some (m.name, m.paths) else rest

-- (AddModule)
unfoldable pub add_module : String → List String → Matcher → Matcher
add_module name paths [] = record { name = name; paths = paths } ∷ []
add_module name paths (m ∷ ms) =
    let rest = add_module name paths ms in
    if str_eq m.name name then record m { paths = paths } ∷ ms else m ∷ rest

-- (RemoveModule) the matcher, and whether a module was removed
unfoldable pub remove_module : String → Matcher → Matcher × Bool
remove_module name [] = ([], false)
remove_module name (m ∷ ms) =
    let rest = remove_module name ms in
    if str_eq m.name name then (ms, true) else (m ∷ rest.0, rest.1)
