-- ===== src/Registry/Tests.antt =====
-- Runs of the registry, and its theorems at concrete inputs.
use kai_server.Common.Maps.{lookup, put, delete}
use kai_server.Common.{
  ℕ, ◌≤◌, ◌≡◌, ◌⊎◌, refl, arith, Bool, true, false, Option, some, none, List, [], ◌∷◌, String, ok,
  err, panic, stuck, length, get_elem?, All,
}
use kai_server.Registry.State.{
  Registry, Handle, Error, Outcome, new_registry, opened, write_handle, find, remove_element,
  pointee, mapped, close_repo, evict_from, evict_one, evict_loop, opens, open_repo, repo_exists,
}
use kai_server.Registry.Calls.{
  present, absent, get_slow, get_closed, create, create_locked, acquire, reap_idle, delete_repo,
  close,
}
use kai_server.Registry.Invariant.{WellFormed, write_handle-WellFormed}
use kai_server.Registry.Opening.{opened-WellFormed}
use kai_server.Registry.Eviction.{Busy, Eviction, evict_one-cases}
use kai_server.Registry.Sections.{
  creates, acquires, deletes, gets_slow, perform, History, starts, does, fails, Leaves,
}
use kai_server.Registry.Kept.{Kept}
use kai_server.Registry.Reaper.{Sorted}
use kai_server.Registry.Closing.{close-empty}
use kai_server.Registry.Histories.{History-WellFormed}
use kai_server.Registry.Lookup.{reap_idle-exact, open_repo-capacity}

abbrev first : Registry
first = opened 3 (new_registry 2 100) "t" "a"

-- Two repositories are open, and room is for two.
abbrev two_open : Registry
two_open = opened 5 first "t" "b"

-- A request uses the one that was used longest ago.
abbrev one_busy : Registry
one_busy =
    write_handle two_open 0
      (record { tenant = "t"; name = "a"; last_used = 6; active = 1; jobs = []; quit = false })

-- the registry that a call leaves
abbrev after : {A : Type 0} → Outcome A → Registry
after (ok (r, _)) = r
after (err (r, _)) = r
after panic = new_registry 0 0
after stuck = new_registry 0 0

abbrev ap_state : {A : Type 0} → Outcome A → List (ℕ × String) × List (String × ℕ)
ap_state o = ((after o).lru, (after o).repos)

abbrev quits : Option Handle → Bool
quits none = false
quits (some h) = h.quit

made : perform (creates 3 absent true true opens "t" "a") (new_registry 2 100) ≡ ok (first, tt)
unfolding perform create create_locked open_repo evict_loop lookup put new_registry
made = refl

new_registry_history : (r : Registry) → History (new_registry 2 100) r → WellFormed r
new_registry_history = History-WellFormed 2 100

two_open-WellFormed : WellFormed two_open
unfolding lookup put new_registry
two_open-WellFormed =
    opened-WellFormed 5 first "t" "b"
      (opened-WellFormed 3 (new_registry 2 100) "t" "a"
        (new_registry_history _ (starts (new_registry 2 100))) refl)
      refl

one_busy-WellFormed : WellFormed one_busy
unfolding new_registry find
one_busy-WellFormed =
    write_handle-WellFormed two_open 0 _ _ two_open.lru two_open-WellFormed refl refl refl
      (λ j. refl) two_open-WellFormed.distinct

acquired : perform (acquires 6 0) two_open ≡ ok (one_busy, tt)
unfolding perform acquire pointee new_registry
acquired = refl

-- A third repository takes the place of the one without a request, though the other was opened first.
third :
    ap_state (perform (gets_slow 9 present opens "t" "c") one_busy)
    ≡ ((2, "t/c") ∷ (0, "t/a") ∷ [], ("t/a", 0) ∷ ("t/c", 2) ∷ [])
unfolding perform get_slow get_closed open_repo evict_loop evict_from mapped pointee close_repo
    lookup put delete remove_element new_registry
third = refl

-- Delete closes a handle in use, and its second closing panics.
closed_twice : close_repo {E = Error} (after (perform (deletes true "t" "a") one_busy)) 0 ≡ panic
unfolding perform delete_repo close_repo pointee lookup put delete remove_element new_registry
closed_twice = refl

-- Between Get and Acquire a handle has no active request, so that the Get of another repository
-- closes it: in `evicted` the request then holds a closed handle.
abbrev evicted : Registry
evicted = after (perform (gets_slow 9 present opens "t" "c") two_open)

evicted_is_closed : quits (get_elem? evicted.handles 0) ≡ true
unfolding perform get_slow get_closed open_repo evict_loop evict_from mapped pointee close_repo
    lookup put delete remove_element new_registry
evicted_is_closed = refl

History-WellFormed_example : WellFormed one_busy
unfolding perform create create_locked open_repo evict_loop lookup put acquire pointee new_registry
History-WellFormed_example = History-WellFormed 2 100 one_busy (
    does (creates 3 absent true true opens "t" "a") (new_registry 2 100) first one_busy tt refl (
      fails (creates 4 present true true opens "t" "a") first first one_busy repo_exists tt refl (
        does (creates 5 absent true true opens "t" "b") first two_open one_busy tt refl
          (does (acquires 6 0) two_open one_busy one_busy (omega arith) refl (starts one_busy)))))

evict_one-cases_example :
    ((evict_one {E = Error} one_busy ≡ ok (false, one_busy)) × All (Busy one_busy) one_busy.lru)
    ⊎ ((r' : Registry) × (evict_one {E = Error} one_busy ≡ ok (true, r'))
        × Eviction one_busy one_busy.lru r')
evict_one-cases_example = evict_one-cases Error one_busy one_busy-WellFormed

open_repo-capacity_example :
    (rest : List (ℕ × String)) × (two_open.lru ≡ (1, "t/b") ∷ rest)
    × ((length two_open.repos ≤ two_open.max_open) ⊎ All (Busy two_open) rest)
unfolding open_repo evict_loop lookup put new_registry
open_repo-capacity_example =
    open_repo-capacity 5 opens first two_open "t" "b" 1
      (new_registry_history first
        (does (creates 3 absent true true opens "t" "a") _ first first tt made (starts first)))
      refl refl

reap_idle-exact_example :
    Leaves
      (λ s.
        WellFormed s
        × ((i : ℕ) (k : String) → find i one_busy.lru ≡ some k → Sorted 200 one_busy s (i, k)))
      (reap_idle 200 one_busy)
reap_idle-exact_example = reap_idle-exact 200 one_busy one_busy-WellFormed

close-empty_example :
    Leaves
      (λ r'. WellFormed r' × (length r'.handles ≡ 2) × ((k : String) → lookup k r'.repos ≡ none))
      (close one_busy)
unfolding new_registry
close-empty_example = close-empty one_busy one_busy-WellFormed refl
