-- ===== src/Registry/Calls.antt =====
-- registry.go: the calls, as what each does between taking the write lock and giving it back.
--
-- What the operating system and SQLite answer, and the clock, are arguments.
use kai_server.Common.Bytes.{Bytes}
use kai_server.Common.Maps.{lookup}
use kai_server.Common.{
  ℕ, ◌+◌, ◌%◌, ◌^◌, Bool, true, false, String, List, [], ◌∷◌, ◌++◌, Option, none, some, Result, ok,
  err, panic, ◌>>=◌, length, ltb, if◌then◌else◌,
}
use kai_server.Registry.State.{
  Registry, Outcome, repo_not_found, repo_exists, stat_failed, read_dir_failed,
  creating_repo_directory, creating_segments_directory, deleting_repo, Opening, key_of, deref,
  write_handle, close_repo, touch, open_repo, reap_from,
}

-- What os.Stat says of a path: it is there, os.IsNotExist, another error.
pub data Stat : Type 0 where
  present absent failing : Stat

-- The fast path of Get, under the read lock.
abbrev pub cached : Registry → String → String → Option ℕ
cached r tenant repo = lookup (key_of tenant repo) r.repos

-- Get of a repository that is not open. Only os.IsNotExist ends it here.
unfoldable pub get_closed : ℕ → Stat → Opening → Registry → String → String → Outcome ℕ
get_closed now absent opening r tenant repo = err (r, repo_not_found)
get_closed now present opening r tenant repo = open_repo now opening r tenant repo
get_closed now failing opening r tenant repo = open_repo now opening r tenant repo

-- The slow path of Get, under the write lock.
unfoldable pub get_slow : ℕ → Stat → Opening → Registry → String → String → Outcome ℕ
get_slow now stat opening r tenant repo = elim (cached r tenant repo) [
  | some i ↦ touch now r i
  | none ↦ get_closed now stat opening r tenant repo
]

-- (Get), when no other call comes between its two sections
unfoldable pub get : ℕ → Stat → Opening → Registry → String → String → Outcome ℕ
get now stat opening r tenant repo = elim (cached r tenant repo) [
  | some i ↦ touch now r i
  | none ↦ get_slow now stat opening r tenant repo
]

-- Create after it has found no repo.db. The Booleans tell whether os.MkdirAll makes the repository's
-- and the segments' directory.
unfoldable pub create_locked : ℕ → Bool → Bool → Opening → Registry → String → String → Outcome ℕ
create_locked now false segments_dir opening r tenant repo = err (r, creating_repo_directory)
create_locked now true false opening r tenant repo = err (r, creating_segments_directory)
create_locked now true true opening r tenant repo = elim (cached r tenant repo) [
  | some _ ↦ err (r, repo_exists)
  | none ↦ open_repo now opening r tenant repo
]

-- (Create)
unfoldable pub create : ℕ → Stat → Bool → Bool → Opening → Registry → String → String → Outcome ℕ
create now present repo_dir segments_dir opening r tenant repo = err (r, repo_exists)
create now absent repo_dir segments_dir opening r tenant repo =
    create_locked now repo_dir segments_dir opening r tenant repo
create now failing repo_dir segments_dir opening r tenant repo =
    create_locked now repo_dir segments_dir opening r tenant repo

-- (Delete) The Boolean tells whether os.Rename succeeds.
unfoldable pub delete_repo : Bool → Registry → String → String → Outcome (Unit {0})
delete_repo renamed r tenant repo = do
  r' ← elim (cached r tenant repo) [ none ↦ ok r | some i ↦ close_repo r i ]
  if renamed then ok (r', tt) else err (r', deleting_repo)

-- (Acquire), with int32's wrap-around
unfoldable pub acquire : ℕ → Registry → ℕ → Outcome (Unit {0})
acquire now r i =
    deref r i λ h.
      ok (write_handle r i (record h { active = (h.active + 1) % 2 ^ 32; last_used = now }), tt)

-- (Release)
unfoldable pub release : ℕ → Registry → ℕ → Outcome (Unit {0})
release now r i = deref r i λ h.
    ok (
      write_handle r i (record h { active = (h.active + 4294967295) % 2 ^ 32; last_used = now }),
      tt,
    )

-- (EnqueueEnrichment) `enrichJob` holds 1024 jobs.
unfoldable pub enqueue_enrichment : Registry → ℕ → Bytes → Outcome (Unit {0})
enqueue_enrichment r i node_id = deref r i λ h.
    if ltb (length h.jobs) 1024
    then ok (write_handle r i (record h { jobs = h.jobs ++ (node_id ∷ []) }), tt)
    else ok (r, tt)

-- (reapIdle)
unfoldable pub reap_idle : ℕ → Registry → Outcome (Unit {0})
reap_idle now r = do r' ← reap_from now r.lru r; ok (r', tt)

-- The loop of Close, over the map's entries at its start.
unfoldable pub close_each : {E : Type 0} → List (String × ℕ) → Registry → Result E Registry
close_each [] r = ok r
close_each ((_, i) ∷ m) r = do r' ← close_repo r i; close_each m r'

-- (Close) To close `stop` a second time panics.
unfoldable pub close : Registry → Outcome (Unit {0})
close r =
    if r.stopped
    then panic
    else (do r' ← close_each r.repos (record r { stopped = true }); ok (r', tt))

-- (Exists)
unfoldable pub exists_repo : Stat → Registry → Outcome Bool
exists_repo present r = ok (r, true)
exists_repo absent r = ok (r, false)
exists_repo failing r = err (r, stat_failed)

-- What os.ReadDir says, with what os.Stat says of the repo.db in each entry.
pub data Listing : Type 0 where
  no_directory unreadable : Listing
  entries : List (String × Bool × Stat) → Listing

unfoldable pub list_entries : List (String × Bool × Stat) → List String
list_entries [] = []
list_entries ((name, false, _) ∷ es) = list_entries es
list_entries ((name, true, present) ∷ es) = name ∷ list_entries es
list_entries ((name, true, absent) ∷ es) = list_entries es
list_entries ((name, true, failing) ∷ es) = list_entries es

-- (List)
unfoldable pub list_repos : Listing → Registry → Outcome (List String)
list_repos no_directory r = ok (r, [])
list_repos unreadable r = err (r, read_dir_failed)
list_repos (entries es) r = ok (r, list_entries es)

unfoldable pub tenant_entries : List (String × Bool × Stat) → List String
tenant_entries [] = []
tenant_entries ((name, is_dir, _) ∷ es) =
    let rest = tenant_entries es in if is_dir then name ∷ rest else rest

-- (ListTenants)
unfoldable pub list_tenants : Listing → Registry → Outcome (List String)
list_tenants no_directory r = ok (r, [])
list_tenants unreadable r = err (r, read_dir_failed)
list_tenants (entries es) r = ok (r, tenant_entries es)
