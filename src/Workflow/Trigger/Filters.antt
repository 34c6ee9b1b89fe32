-- ===== src/Workflow/Trigger/Filters.antt =====
-- trigger.go: what the filters of names and of paths let pass.
use kai_server.Common.{
  ◌≡◌, ◌↔◌, ◌⊎◌, refl, arith, Bool, true, false, ◌&&◌, ◌||◌, some, List, [], ◌∷◌, ◌++◌, Bool-cases,
  inl, inr, Any,
}
use kai_server.Common.Bytes.{Bytes, has_prefix, codes}
use kai_server.Workflow.Glob.{trim_prefix}
use kai_server.Workflow.Trigger.{
  PushTrigger, TriggerEvent, match_patterns, matches_file, match_all_paths, passes_names,
  passes_ref, passes_paths, match_push_trigger,
}

match_patterns-append :
    (name : Bytes) (ps qs : List Bytes)
    → match_patterns name (ps ++ qs) ≡ match_patterns name ps || match_patterns name qs
unfolding match_patterns
match_patterns-append name [] qs = refl
match_patterns-append name (p ∷ ps) qs = ground (arith, match_patterns-append name ps qs)

-- More patterns in a filter that is there let more names pass.
passes_names-more :
    (p : Bytes) (ps more ignore : List Bytes) (name : Bytes)
    → passes_names (p ∷ ps) ignore name ≡ true
    → passes_names ((p ∷ ps) ++ more) ignore name ≡ true
unfolding passes_names
passes_names-more p ps more ignore name h = ground (arith, match_patterns-append name (p ∷ ps) more)

passes_names-fewer :
    (only ignore more : List Bytes) (name : Bytes)
    → passes_names only (ignore ++ more) name ≡ true
    → passes_names only ignore name ≡ true
unfolding passes_names
passes_names-fewer only [] more name h = ground arith
passes_names-fewer only (i ∷ ignore) more name h =
    ground (arith, match_patterns-append name (i ∷ ignore) more)

and_weaken : (a a' c : Bool) → (a ≡ true → a' ≡ true) → a && c ≡ true → a' && c ≡ true
and_weaken true a' c f h = rw (f refl) h
and_weaken false a' c f h = absurd (cc)

passes_ref-more :
    (push : PushTrigger) (ref b : Bytes) (bs more ignore ignore_more : List Bytes)
    → passes_ref (record push { branches = b ∷ bs; branches_ignore = ignore ++ ignore_more }) ref
      ≡ true
    → passes_ref (record push { branches = (b ∷ bs) ++ more; branches_ignore = ignore }) ref ≡ true
passes_ref-more push ref b bs more ignore ignore_more h =
    let name = trim_prefix ref (codes "refs/heads/") in
    elim (Bool-cases (has_prefix ref (codes "refs/heads/"))) [
      | inl e ↦ rw e (
          passes_names-more b bs more ignore name
            (passes_names-fewer (b ∷ bs) ignore ignore_more name (rw e at h)))
      | inr e ↦ rw e (rw e at h)
    ]

-- Patterns added to a non-empty `branches` filter lose no push, and patterns taken from
-- `branches-ignore` lose no push.
pub match_push_trigger-more :
    (push : PushTrigger) (event : TriggerEvent) (b : Bytes)
    (bs more ignore ignore_more : List Bytes)
    → match_push_trigger
        (some (record push { branches = b ∷ bs; branches_ignore = ignore ++ ignore_more }))
        event
      ≡ true
    → match_push_trigger
        (some (record push { branches = (b ∷ bs) ++ more; branches_ignore = ignore }))
        event
      ≡ true
unfolding match_push_trigger
match_push_trigger-more push event b bs more ignore ignore_more h =
    and_weaken _ _ _ (passes_ref-more push event.ref b bs more ignore ignore_more) h

-- A tag is never pushed through a trigger that filters branches and not tags.
pub match_push_trigger-tag :
    (push : PushTrigger) (event : TriggerEvent) (tag b : Bytes) (bs : List Bytes)
    → event.ref ≡ codes "refs/tags/" ++ tag
    → push.tags ≡ []
    → push.tags_ignore ≡ []
    → (push.branches ≡ b ∷ bs) ⊎ (push.branches_ignore ≡ b ∷ bs)
    → match_push_trigger (some push) event ≡ false
unfolding match_push_trigger has_prefix
match_push_trigger-tag push event tag b bs ref tags ignored filtered = elim filtered [
  | inl e ↦ rw (ref, tags, ignored, e) (ground arith)
  | inr e ↦ rw (ref, tags, ignored, e) (ground arith)
]

match_all_paths_iff :
    (files ignore : List Bytes)
    → (match_all_paths files ignore ≡ false) ↔ Any (λ f. matches_file ignore f ≡ false) files
unfolding match_all_paths
match_all_paths_iff [] ignore = (λ h. absurd (cc), λ h. elim h [ ])
match_all_paths_iff (f ∷ files) ignore =
    let rest = match_all_paths_iff files ignore in
    elim (Bool-cases (matches_file ignore f)) [
      | inl e ↦ rw e (λ h. inr (rest.0 h), λ h. elim h [ inl k ↦ absurd (cc) | inr k ↦ rest.1 k ])
      | inr e ↦ rw e (λ h. inl refl, λ h. refl)
    ]

-- With `paths-ignore` patterns alone, a push that names its files passes exactly if one of them
-- meets none of the patterns: a push without files does not.
pub passes_paths_iff :
    (i : Bytes) (ignore files : List Bytes)
    → (passes_paths [] (i ∷ ignore) (some files) ≡ true)
      ↔ Any (λ f. matches_file (i ∷ ignore) f ≡ false) files
unfolding passes_paths
passes_paths_iff i ignore files =
    let all = match_all_paths_iff files (i ∷ ignore) in
    (λ h. all.0 (ground arith), λ h. rw (all.1 h))
