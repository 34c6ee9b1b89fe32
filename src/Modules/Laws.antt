-- ===== src/Modules/Laws.antt =====
-- modulematch.go: MatchPaths turns MatchPath around, and the rules are a table by name.
use kai_server.Common.Maps.{lookup, put, lookup-put_self, lookup-put_ne}
use kai_server.Common.{
  ℕ, suc, ◌≡◌, ◌≢◌, ◌↔◌, refl, sym, ap, ◌∙◌, arith, Bool, false, String, str_eq, str_eq_iff,
  str_eq_self, List, [], ◌∷◌, ◌++◌, append_assoc, append-nil, Option, none, some, inl, inr,
  replicate, Bool-cases, if◌then◌else◌,
}
use kai_server.Modules.{
  Matcher, match_path, paths_at, add_path, match_paths_from, match_paths, get_module, add_module,
  remove_module,
}

-- How often a name is in a list.
unfoldable pub times : String → List String → ℕ
times name [] = 0
times name (n ∷ ns) = let rest = times name ns in if str_eq n name then suc rest else rest

module _ (glob : String → String → Option Bool) where
  -- Each path as often as the module is among its modules.
  unfoldable pub matched_by : Matcher → String → List String → List String
  matched_by ms name [] = []
  matched_by ms name (path ∷ paths) =
      replicate (times name (match_path glob ms path)) path ++ matched_by ms name paths

  snoc-replicate :
      (n : ℕ) (path : String) (xs : List String)
      → (xs ++ (path ∷ [])) ++ replicate n path ≡ xs ++ replicate (suc n) path
  snoc-replicate n path xs = append_assoc xs (path ∷ []) (replicate n path)

  paths_at-put_self :
      (name : String) (ps : List String) (result : List (String × List String))
      → paths_at glob name (put name ps result) ≡ ps
  paths_at-put_self name ps result = ap or_empty (lookup-put_self name ps result)
    where
      or_empty : Option (List String) → List String
      or_empty o = elim o [ none ↦ [] | some qs ↦ qs ]

  paths_at-put_ne :
      (name other : String) (ps : List String) (result : List (String × List String))
      → name ≢ other
      → paths_at glob other (put name ps result) ≡ paths_at glob other result
  paths_at-put_ne name other ps result differ =
      ap or_empty (lookup-put_ne name other ps result differ)
    where
      or_empty : Option (List String) → List String
      or_empty o = elim o [ none ↦ [] | some qs ↦ qs ]

  paths_at-add_path :
      (names : List String) (path : String) (result : List (String × List String)) (name : String)
      → paths_at glob name (add_path glob names path result)
        ≡ paths_at glob name result ++ replicate (times name names) path
  unfolding add_path times
  paths_at-add_path [] path result name = sym (append-nil (paths_at glob name result))
  paths_at-add_path (n ∷ names) path result name =
      let added = put n (paths_at glob n result ++ (path ∷ [])) result in
      paths_at-add_path names path added name ∙ elim (Bool-cases (str_eq n name)) [
        | inl s ↦ rw (s) (
            ap (λ ps. ps ++ replicate (times name names) path)
              (ap (λ k. paths_at glob k added) (sym ((str_eq_iff n name).0 s))
                ∙ paths_at-put_self n (paths_at glob n result ++ (path ∷ [])) result
                ∙ ap (λ k. paths_at glob k result ++ (path ∷ [])) ((str_eq_iff n name).0 s))
            ∙ snoc-replicate (times name names) path (paths_at glob name result))
        | inr s ↦ rw (s) (
            ap (λ ps. ps ++ replicate (times name names) path)
              (paths_at-put_ne n name (paths_at glob n result ++ (path ∷ [])) result
                (λ t. absurd (let u = (str_eq_iff n name).1 t in cc))))
      ]

  paths_at-match_paths_from :
      (paths : List String) (ms : Matcher) (result : List (String × List String)) (name : String)
      → paths_at glob name (match_paths_from glob ms paths result)
        ≡ paths_at glob name result ++ matched_by ms name paths
  unfolding match_paths_from matched_by
  paths_at-match_paths_from [] ms result name = sym (append-nil (paths_at glob name result))
  paths_at-match_paths_from (path ∷ paths) ms result name =
      let k = times name (match_path glob ms path) in
      paths_at-match_paths_from paths ms (add_path glob (match_path glob ms path) path result) name
      ∙ ap (λ ps. ps ++ matched_by ms name paths)
          (paths_at-add_path (match_path glob ms path) path result name)
      ∙ append_assoc (paths_at glob name result) (replicate k path) (matched_by ms name paths)

  -- MatchPaths has under a name the paths, in order, each as often as MatchPath gives the name for it.
  pub match_paths-matched_by :
      (ms : Matcher) (paths : List String) (name : String)
      → paths_at glob name (match_paths glob ms paths) ≡ matched_by ms name paths
  unfolding lookup
  match_paths-matched_by ms paths name = paths_at-match_paths_from paths ms [] name

-- After AddModule the name has the new paths, and every other name what it had.
pub get_module-add_module :
    (name other : String) (paths : List String) (ms : Matcher)
    → (get_module name (add_module name paths ms) ≡ some (record { name = name; paths = paths }))
      × (name ≢ other → get_module other (add_module name paths ms) ≡ get_module other ms)
unfolding get_module add_module
get_module-add_module name other paths [] =
    (rw (str_eq_self name) refl, λ differ. ground (arith, str_eq_iff name other))
get_module-add_module name other paths (m ∷ ms) =
    let (same, rest) = get_module-add_module name other paths ms in
    elim (Bool-cases (str_eq m.name name)) [
      | inl s ↦
          let named = (str_eq_iff m.name name).0 s in
          (
            rw (s) (rw (s) (ap (λ n. some (record { name = n; paths = paths })) named)),
            λ differ. rw (s) (ground (arith, str_eq_iff m.name other, str_eq_iff m.name name)),
          )
      | inr s ↦ (
        rw (s) (rw (s) same),
        λ differ. rw (s) (ap (λ r. if str_eq m.name other then some m else r) (rest differ)),
      )
    ]

-- The names of the rules, each once.
abbrev pub Named : Matcher → Type 0
Named [] = Unit {0}
Named (m ∷ ms) = (get_module m.name ms ≡ none) × Named ms

-- Where every name has one rule, RemoveModule tells whether the name had one, and takes it away; the
-- other names keep theirs.
pub get_module-remove_module :
    (name other : String) (ms : Matcher)
    → Named ms
    → (get_module name (remove_module name ms).0 ≡ none)
      × (((remove_module name ms).1 ≡ false) ↔ (get_module name ms ≡ none))
      × (name ≢ other → get_module other (remove_module name ms).0 ≡ get_module other ms)
unfolding get_module remove_module
get_module-remove_module name other [] d = (refl, (λ e. refl, λ e. refl), λ differ. refl)
get_module-remove_module name other (m ∷ ms) (fresh, d) =
    let (gone, told, rest) = get_module-remove_module name other ms d in
    elim (Bool-cases (str_eq m.name name)) [
      | inl s ↦
          let named = (str_eq_iff m.name name).0 s in
          rw (s) (
            ap (λ n. get_module n ms) (sym named) ∙ fresh,
            (λ e. absurd (cc), λ e. absurd (cc)),
            λ differ. ground (arith, str_eq_iff m.name other, str_eq_iff m.name name),
          )
      | inr s ↦ rw (s) (
        rw (s) gone,
        told,
        λ differ. ap (λ r. if str_eq m.name other then some m else r) (rest differ),
      )
    ]
