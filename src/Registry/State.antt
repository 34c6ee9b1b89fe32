-- ===== src/Registry/State.antt =====
-- registry.go: the handles, the registry, its LRU list, and what is done under the write lock.
--
-- A handle is named by its place in `handles`, where every handle that was ever opened stays: a
-- caller may hold it after it was closed. Its element of the LRU list carries that name, since the
-- list has at most one element of a handle.
use Prim.Native.String.{◌++◌ as ◌+++◌}
use kai_server.Common.Bytes.{Bytes}
use kai_server.Common.Maps.{lookup, put, delete}
use kai_server.Common.{
  ℕ, zero, suc, ◌+◌, Bool, true, false, ◌&&◌, String, List, [], ◌∷◌, ◌++◌, Option, none, some,
  Result, ok, err, panic, stuck, ◌>>=◌, length, get_elem?, set, ◌==◌, ltb, leb, if◌then◌else◌,
}

-- ErrRepoNotFound, ErrRepoExists, and the wrapped errors of the operating system and of SQLite
pub data Error : Type 0 where
  repo_not_found repo_exists stat_failed read_dir_failed creating_repo_directory : Error
  creating_segments_directory opening_database applying_pragmas applying_schema : Error
  deleting_repo : Error

-- `active` is an int32 in two's complement. `quit` tells that `enrichQuit` is closed; `jobs` is what
-- waits in `enrichJob`.
pub record Handle : Type 0 where
  pub tenant : String
  pub name : String
  pub last_used : ℕ
  pub active : ℕ
  pub jobs : List Bytes
  pub quit : Bool

-- `stopped` tells that `stop` is closed.
pub record Registry : Type 0 where
  pub max_open : ℕ
  pub idle_ttl : ℕ
  pub handles : List Handle
  pub repos : List (String × ℕ)
  pub lru : List (ℕ × String)
  pub stopped : Bool

-- A call's outcome: the registry comes back with an error too.
abbrev pub Outcome : Type 0 → Type 0
Outcome A = Result (Registry × Error) (Registry × A)

-- 10 * time.Minute, in nanoseconds
abbrev default_ttl : ℕ
default_ttl = 600000000000

unfoldable pub new_registry : ℕ → ℕ → Registry
new_registry max_open idle_ttl = record {
  max_open = if max_open == 0 then 256 else max_open;
  idle_ttl = if idle_ttl == 0 then default_ttl else idle_ttl;
  handles = [];
  repos = [];
  lru = [];
  stopped = false;
}

-- tenant + "/" + repo
abbrev pub key_of : String → String → String
key_of tenant repo = tenant +++ ("/" +++ repo)

abbrev pub key : Handle → String
key h = key_of h.tenant h.name

-- the value of a handle's element in the list
unfoldable pub find : ℕ → List (ℕ × String) → Option String
find i [] = none
find i ((j, k) ∷ l) = if j == i then some k else find i l

-- lru.Remove(h.element)
unfoldable pub remove_element : ℕ → List (ℕ × String) → List (ℕ × String)
remove_element i [] = []
remove_element i ((j, k) ∷ l) = if j == i then remove_element i l else (j, k) ∷ remove_element i l

-- lru.MoveToFront(h.element), which does nothing for an element that was removed
unfoldable pub move_to_front : ℕ → List (ℕ × String) → List (ℕ × String)
move_to_front i l = elim (find i l) [ none ↦ l | some k ↦ (i, k) ∷ remove_element i l ]

-- *h, where a nil handle panics
unfoldable pub pointee {ℓ} :
    {E : Type 0} {A : Type ℓ} → Option Handle → (Handle → Result E A) → Result E A
pointee none next = panic
pointee (some h) next = next h

abbrev pub deref {ℓ} : {E : Type 0} {A : Type ℓ} → Registry → ℕ → (Handle → Result E A) → Result E A
deref r i = pointee (get_elem? r.handles i)

-- h.field = value
abbrev pub write_handle : Registry → ℕ → Handle → Registry
write_handle r i h = record r { handles = set r.handles i h }

-- (closeRepoLocked) To close `enrichQuit` a second time panics.
unfoldable pub close_repo : {E : Type 0} → Registry → ℕ → Result E Registry
close_repo r i = deref r i λ h.
    if h.quit
    then panic
    else ok (record r {
      handles = set r.handles i (record h { quit = true });
      lru = remove_element i r.lru;
      repos = delete (key h) r.repos;
    })

-- (touchLocked)
unfoldable pub touch : ℕ → Registry → ℕ → Outcome ℕ
touch now r i = deref r i λ h.
    ok (record (write_handle r i (record h { last_used = now })) { lru = move_to_front i r.lru }, i)

-- h := r.repos[key]; *h
unfoldable pub mapped {ℓ} : {E : Type 0} {A : Type ℓ} → Option ℕ → (ℕ → Result E A) → Result E A
mapped none next = panic
mapped (some i) next = next i

abbrev pub entry {ℓ} :
    {E : Type 0} {A : Type ℓ} → Registry → String → (ℕ → Handle → Result E A) → Result E A
entry r k next = mapped (lookup k r.repos) λ i. deref r i (next i)

-- One handle of evictOneLocked.
abbrev pub evict_inactive : {E : Type 0} → Registry → ℕ → Handle → Result E (Bool × Registry)
evict_inactive r i h =
    if h.active == 0 then (do r' ← close_repo r i; ok (true, r')) else ok (false, r)

-- The loop of evictOneLocked, from the back of the list.
unfoldable pub evict_from : {E : Type 0} → List (ℕ × String) → Registry → Result E (Bool × Registry)
evict_from [] r = ok (false, r)
evict_from ((_, k) ∷ l) r = do
  (evicted, r') ← evict_from l r
  if evicted then ok (true, r') else entry r' k (evict_inactive r')

abbrev pub evict_one : {E : Type 0} → Registry → Result E (Bool × Registry)
evict_one r = evict_from r.lru r

-- for len(r.repos) >= r.cfg.MaxOpen { if !r.evictOneLocked() { break } }
unfoldable pub evict_loop : {E : Type 0} → ℕ → Registry → Result E Registry
evict_loop zero r = if leb r.max_open (length r.repos) then stuck else ok r
evict_loop (suc fuel) r =
    if leb r.max_open (length r.repos)
    then (do
      (evicted, r') ← evict_one r
      elim evicted [ false ↦ ok r' | true ↦ evict_loop fuel r' ])
    else ok r

-- What SQLite answers to an open and the two scripts.
pub data Opening : Type 0 where
  opens no_database no_pragmas no_schema : Opening

abbrev pub new_handle : ℕ → String → String → Handle
new_handle now tenant repo = record {
  tenant = tenant;
  name = repo;
  last_used = now;
  active = 0;
  jobs = [];
  quit = false;
}

-- The new handle, in front of the list and in the map.
abbrev pub opened : ℕ → Registry → String → String → Registry
opened now r tenant repo = record r {
  handles = r.handles ++ (new_handle now tenant repo ∷ []);
  lru = (length r.handles, key_of tenant repo) ∷ r.lru;
  repos = put (key_of tenant repo) (length r.handles) r.repos;
}

-- What SQLite answers decides, once there is room.
abbrev pub answer : ℕ → Opening → Registry → String → String → Outcome ℕ
answer now opens r tenant repo = ok (opened now r tenant repo, length r.handles)
answer now no_database r tenant repo = err (r, opening_database)
answer now no_pragmas r tenant repo = err (r, applying_pragmas)
answer now no_schema r tenant repo = err (r, applying_schema)

-- (openRepoLocked)
unfoldable pub open_repo : ℕ → Opening → Registry → String → String → Outcome ℕ
open_repo now opening r tenant repo = do
  r' ← evict_loop (length r.repos) r
  answer now opening r' tenant repo

-- One handle of reapIdle: h.active == 0 && h.lastUsed.Before(now - ttl)
abbrev pub is_idle : ℕ → Registry → Handle → Bool
is_idle now r h = h.active == 0 && ltb (h.last_used + r.idle_ttl) now

-- The loop of reapIdle, from the back of the list.
unfoldable pub reap_from : {E : Type 0} → ℕ → List (ℕ × String) → Registry → Result E Registry
reap_from now [] r = ok r
reap_from now ((_, k) ∷ l) r = do
  r' ← reap_from now l r
  entry r' k λ i h. if is_idle now r' h then close_repo r' i else ok r'
