-- ===== src/Registry/Lookup.antt =====
-- registry.go: the handle that Get and Create give is the one that the registry has.
use mathlib.Core.Path.{subst, subst⁻¹}
use kai_server.Common.Maps.{lookup, put-fresh, lookup-put_self}
use kai_server.Common.{
  ℕ, ◌≤◌, ◌<◌, ◌≡◌, refl, sym, ap, ◌∙◌, arith, List, [], ◌∷◌, String, none, some, ◌⊎◌, inl, inr, ok,
  length, length-append, All, Option-cases,
}
use kai_server.Registry.State.{
  Registry, Error, Opening, opens, no_database, no_pragmas, no_schema, key_of, find, opened, answer,
  open_repo, touch,
}
use kai_server.Registry.Calls.{
  Stat, present, absent, failing, cached, get_closed, get_slow, get, reap_idle,
}
use kai_server.Registry.Elements.{get_elem?-some, get_elem?-append, All-find}
use kai_server.Registry.Invariant.{WellFormed, deref-some}
use kai_server.Registry.Eviction.{Busy}
use kai_server.Registry.Opening.{open_repo-Opens}
use kai_server.Registry.Reaper.{Sorted, reap_idle-Reaped}
use kai_server.Registry.Sections.{Leaves}
use kai_server.Registry.Kept.{Kept, cached-lt, get-Kept}

-- A handle that was busy is busy after another was added.
opened-Busy :
    (now : ℕ) (b : Registry) (tenant repo : String) (l : List (ℕ × String))
    → All (Busy b) l
    → All (Busy (opened now b tenant repo)) l
opened-Busy now b tenant repo [] a = tt
opened-Busy now b tenant repo ((j, k) ∷ l) ((h, there, active), a) =
    ((h, get_elem?-append b.handles _ j h there, active), opened-Busy now b tenant repo l a)

-- An open that answers with a handle has opened it in the registry it made room in.
open_repo-opened :
    (now : ℕ) (opening : Opening) (r s : Registry) (tenant repo : String) (i : ℕ)
    → (b : Registry) → answer now opening b tenant repo ≡ ok (s, i)
    → (s ≡ opened now b tenant repo) × (i ≡ length b.handles)
open_repo-opened now opens r s tenant repo i b e = (cc, cc)
open_repo-opened now no_database r s tenant repo i b e = absurd (cc)
open_repo-opened now no_pragmas r s tenant repo i b e = absurd (cc)
open_repo-opened now no_schema r s tenant repo i b e = absurd (cc)

open_repo-cached :
    (now : ℕ) (opening : Opening) (r s : Registry) (tenant repo : String) (i : ℕ)
    → WellFormed r
    → open_repo now opening r tenant repo ≡ ok (s, i)
    → cached s tenant repo ≡ some i
open_repo-cached now opening r s tenant repo i w e =
    let o = open_repo-Opens now opening r tenant repo w in
    let (state, id) = open_repo-opened now opening r s tenant repo i o.before (sym o.result ∙ e) in
    ap (λ q. cached q tenant repo) state
    ∙ lookup-put_self (key_of tenant repo) (length o.before.handles) o.before.repos
    ∙ ap some (sym id)

touch-repos :
    (now : ℕ) (r : Registry) (i : ℕ)
    → i < length r.handles
    → (s : Registry) × (touch now r i ≡ ok (s, i)) × (s.repos ≡ r.repos)
unfolding touch
touch-repos now r i lt =
    let (h, e) = get_elem?-some r.handles i lt in (_, deref-some r i h _ e, refl)

get_closed-cached :
    (now : ℕ) (stat : Stat) (opening : Opening) (r s : Registry) (tenant repo : String) (i : ℕ)
    → WellFormed r
    → get_closed now stat opening r tenant repo ≡ ok (s, i)
    → cached s tenant repo ≡ some i
unfolding get_closed
get_closed-cached now absent opening r s tenant repo i w e = absurd (cc)
get_closed-cached now present opening r s tenant repo i w e =
    open_repo-cached now opening r s tenant repo i w e
get_closed-cached now failing opening r s tenant repo i w e =
    open_repo-cached now opening r s tenant repo i w e

-- Get of an open repository gives its handle, and changes no entry of the map.
pub get-open :
    (now : ℕ) (stat : Stat) (opening : Opening) (r : Registry) (tenant repo : String) (i : ℕ)
    → WellFormed r
    → cached r tenant repo ≡ some i
    → (s : Registry) × (get now stat opening r tenant repo ≡ ok (s, i)) × (s.repos ≡ r.repos)
unfolding get
get-open now stat opening r tenant repo i w e =
    let (s, done, same) = touch-repos now r i (cached-lt r tenant repo i w e) in
    (s, rw (get, e) done, same)

get-closed :
    (now : ℕ) (stat : Stat) (opening : Opening) (r : Registry) (tenant repo : String)
    → cached r tenant repo ≡ none
    → get now stat opening r tenant repo ≡ get_closed now stat opening r tenant repo
unfolding get get_slow
get-closed now stat opening r tenant repo e = rw (get, e) (rw (get_slow, e) refl)

get-cached :
    (now : ℕ) (stat : Stat) (opening : Opening) (r s : Registry) (tenant repo : String) (i : ℕ)
    → WellFormed r
    → get now stat opening r tenant repo ≡ ok (s, i)
    → cached s tenant repo ≡ some i
get-cached now stat opening r s tenant repo i w e = elim (Option-cases (cached r tenant repo)) [
  | inl none_yet ↦
      get_closed-cached now stat opening r s tenant repo i w
        (sym (get-closed now stat opening r tenant repo none_yet) ∙ e)
  | inr (j, here) ↦
      let (t, done, same) = get-open now stat opening r tenant repo j w here in
      let state : t ≡ s = cc in
      let id : j ≡ i = cc in
      ap (λ q. lookup (key_of tenant repo) q.repos) (sym state)
      ∙ ap (lookup (key_of tenant repo)) same
      ∙ here
      ∙ ap some id
]

-- A Get that gives a handle leaves it open in the registry: the next Get of the same repository
-- gives the same handle, whatever the disk says then, and opens nothing.
pub get-get :
    (now later : ℕ) (stat stat' : Stat) (opening opening' : Opening) (r s : Registry)
    (tenant repo : String) (i : ℕ)
    → WellFormed r
    → get now stat opening r tenant repo ≡ ok (s, i)
    → (t : Registry) × (get later stat' opening' s tenant repo ≡ ok (t, i)) × (t.repos ≡ s.repos)
get-get now later stat stat' opening opening' r s tenant repo i w e =
    get-open later stat' opening' s tenant repo i
      (subst (Leaves (Kept r)) e (get-Kept now stat opening r tenant repo w)).wf
      (get-cached now stat opening r s tenant repo i w e)

-- In a well-formed registry the reaper returns, without a panic, and leaves the registry well-formed.
-- A handle that was listed and had no active request, and was last used longer ago than the limit,
-- has its quit channel closed, is otherwise unchanged and is off the list. Every other listed handle
-- is listed and as it was.
pub reap_idle-exact :
    (now : ℕ) (r : Registry)
    → WellFormed r
    → Leaves
        (λ s. WellFormed s × ((i : ℕ) (k : String) → find i r.lru ≡ some k → Sorted now r s (i, k)))
        (reap_idle now r)
unfolding reap_idle
reap_idle-exact now r w =
    let reaped = reap_idle-Reaped (Registry × Error) now r w in
    rw (reaped.result)
      (reaped.wf, λ i k f. All-find (Sorted now r reaped.after) r.lru i k reaped.inside f)

-- Once openRepoLocked has opened a repository, either no more than `max_open` are open, or every
-- other open handle has an active request.
pub open_repo-capacity :
    (now : ℕ) (opening : Opening) (r s : Registry) (tenant repo : String) (i : ℕ)
    → WellFormed r
    → cached r tenant repo ≡ none
    → open_repo now opening r tenant repo ≡ ok (s, i)
    → (rest : List (ℕ × String)) × (s.lru ≡ (i, key_of tenant repo) ∷ rest)
      × ((length s.repos ≤ s.max_open) ⊎ All (Busy s) rest)
open_repo-capacity now opening r s tenant repo i w none_yet e =
    let o = open_repo-Opens now opening r tenant repo w in
    let b = o.before in
    let (state, id) = open_repo-opened now opening r s tenant repo i b (sym o.result ∙ e) in
    let missing = o.shrinks.absent (key_of tenant repo) none_yet in
    subst⁻¹
      (λ q.
        (rest : List (ℕ × String)) × (q.lru ≡ (i, key_of tenant repo) ∷ rest)
        × ((length q.repos ≤ q.max_open) ⊎ All (Busy q) rest))
      state
      (
        b.lru,
        ap (λ n. (n, key_of tenant repo) ∷ b.lru) (sym id),
        elim o.room [
          | inl less ↦ inl (
              omega (
                arith,
                length-append b.repos ((key_of tenant repo, length b.handles) ∷ []),
                ap length (put-fresh (key_of tenant repo) (length b.handles) b.repos missing),
              ))
          | inr busy ↦ inr (opened-Busy now b tenant repo b.lru busy)
        ],
      )
