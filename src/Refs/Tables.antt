-- ===== src/Refs/Tables.antt =====
-- kailab/store/postgres.go (and, with the same statements, sqlite.go): the refs of one repository
-- and the log of their updates.
--
-- Whether a statement works is the environment's choice. An error carries no tables, since the
-- callers roll back. `entry_id` is the hash of the JSON of an entry.
use kai_server.Common.Bytes.{Bytes, bytes_eq}
use kai_server.Common.Maps.{lookup, put, delete}
use kai_server.Common.{
  ℕ, suc, Bool, true, false, ◌&&◌, ◌||◌, not, String, str_eq, List, [], ◌∷◌, Option, none, some,
  Result, ok, err, ◌>>=◌, guard, take, ◌==◌, ltb, if◌then◌else◌,
}

pub data RefError : Type 0 where
  ref_mismatch ref_not_found query_failed update_failed history_failed : RefError

-- A row of `refs`, its name left out.
pub record Ref : Type 0 where
  pub target : Bytes
  pub updated_at : ℕ
  pub actor : String
  pub push_id : String

-- How an entry is marked: not at all, "force" or "delete".
pub data Mark : Type 0 where
  plain force deletion : Mark

-- The map that is hashed as JSON, which is kept as the column `meta`.
pub record HistoryEntry : Type 0 where
  pub time : ℕ
  pub actor : String
  pub ref : String
  pub old : Option Bytes
  pub new : Bytes
  pub push_id : String
  pub mark : Mark
  pub parent : Option Bytes

-- A row of `ref_history`; its columns besides the id and the number repeat the entry.
pub record RefHistoryEntry : Type 0 where
  pub seq : ℕ
  pub id : Bytes
  pub entry : HistoryEntry

-- `ref_history` has the newest row first, and `next_seq` is the number of the next row.
pub record RefTables : Type 0 where
  pub refs : List (String × Ref)
  pub history : List RefHistoryEntry
  pub next_seq : ℕ

pub data Statement : Type 0 where
  selects_target selects_parent updates_ref appends_history : Statement

pub data Update : Type 0 where
  set_ff : String → Option Bytes → Bytes → Update
  set_force : String → Bytes → Update
  remove : String → Option Bytes → Update

-- SELECT target FROM refs WHERE name = $1
abbrev pub target_of : String → RefTables → Option Bytes
target_of name t = elim (lookup name t.refs) [ none ↦ none | some r ↦ some r.target ]

-- SELECT id FROM ref_history WHERE ref = $1 ORDER BY seq DESC LIMIT 1
unfoldable pub last_id : String → List RefHistoryEntry → Option Bytes
last_id name [] = none
last_id name (e ∷ es) =
    let rest = last_id name es in if str_eq e.entry.ref name then some e.id else rest

-- (bytesEqual)
abbrev pub option_eq : Option Bytes → Option Bytes → Bool
option_eq none none = true
option_eq none (some b) = false
option_eq (some a) none = false
option_eq (some a) (some b) = bytes_eq a b

-- The UNIQUE index on the ids.
unfoldable pub has_id : Bytes → List RefHistoryEntry → Bool
has_id id [] = false
has_id id (e ∷ es) = let rest = has_id id es in if bytes_eq e.id id then true else rest

-- INSERT INTO ref_history
unfoldable pub append_history :
    (HistoryEntry → Bytes)
    → (Statement → Bool)
    → HistoryEntry
    → RefTables
    → Result RefError RefTables
append_history entry_id works e t =
    if works appends_history && not (has_id (entry_id e) t.history)
    then ok (record t {
      history = record { seq = t.next_seq; id = entry_id e; entry = e } ∷ t.history;
      next_seq = suc t.next_seq;
    })
    else err history_failed

-- INSERT INTO refs ... ON CONFLICT DO UPDATE
abbrev pub upsert_ref : ℕ → String → Bytes → String → String → RefTables → RefTables
upsert_ref ts name new actor push_id t = record t {
  refs =
      put name (record { target = new; updated_at = ts; actor = actor; push_id = push_id }) t.refs;
}

-- The check of DeleteRef: an old value that is nil matches any.
abbrev pub may_delete : Option Bytes → Bytes → Bool
may_delete none current = true
may_delete (some old) current = bytes_eq old current

module _ (entry_id : HistoryEntry → Bytes) (works : Statement → Bool) where
  -- What the three calls have in common behind their checks: the parent of the entry, the change of
  -- the row, and the entry.
  unfoldable pub record_update :
      HistoryEntry → RefTables → (RefTables → RefTables) → Result RefError RefTables
  record_update e t change = do
    _ ← guard (works selects_parent) query_failed
    _ ← guard (works updates_ref) update_failed
    append_history entry_id works (record e { parent = last_id e.ref t.history }) (change t)

  -- (PgSetRefFF, SetRefFF)
  unfoldable pub set_ref_ff :
      ℕ → String → Option Bytes → Bytes → String → String → RefTables → Result RefError RefTables
  set_ref_ff ts name old new actor push_id t = do
    _ ← guard (works selects_target) query_failed
    _ ← guard (option_eq old (target_of name t)) ref_mismatch
    record_update
        (record {
          time = ts;
          actor = actor;
          ref = name;
          old = old;
          new = new;
          push_id = push_id;
          mark = plain;
          parent = none;
        })
        t (upsert_ref ts name new actor push_id)

  -- (PgForceSetRef, ForceSetRef)
  unfoldable pub force_set_ref :
      ℕ → String → Bytes → String → String → RefTables → Result RefError RefTables
  force_set_ref ts name new actor push_id t = do
    _ ← guard (works selects_target) query_failed
    record_update
        (record {
          time = ts;
          actor = actor;
          ref = name;
          old = target_of name t;
          new = new;
          push_id = push_id;
          mark = force;
          parent = none;
        })
        t (upsert_ref ts name new actor push_id)

  -- (PgDeleteRef, DeleteRef)
  unfoldable pub delete_ref :
      ℕ → String → Option Bytes → String → String → RefTables → Result RefError RefTables
  delete_ref ts name old actor push_id t = do
    _ ← guard (works selects_target) query_failed
    current ← elim (target_of name t) [ none ↦ err ref_not_found | some c ↦ ok c ]
    _ ← guard (may_delete old current) ref_mismatch
    record_update
        (record {
          time = ts;
          actor = actor;
          ref = name;
          old = some current;
          new = [];
          push_id = push_id;
          mark = deletion;
          parent = none;
        })
        t (λ u. record u { refs = delete name u.refs })

  unfoldable pub change_ref : ℕ → String → String → Update → RefTables → Result RefError RefTables
  change_ref ts actor push_id (set_ff name old new) t = set_ref_ff ts name old new actor push_id t
  change_ref ts actor push_id (set_force name new) t = force_set_ref ts name new actor push_id t
  change_ref ts actor push_id (remove name old) t = delete_ref ts name old actor push_id t

-- (PgGetRef, GetRef)
unfoldable pub get_ref : (Statement → Bool) → String → RefTables → Result RefError Ref
get_ref works name t =
    if works selects_target
    then elim (lookup name t.refs) [ none ↦ err ref_not_found | some r ↦ ok r ]
    else err query_failed

-- The WHERE of PgGetRefHistory; an empty filter takes every ref.
unfoldable pub rows_after : String → ℕ → List RefHistoryEntry → List RefHistoryEntry
rows_after filter after [] = []
rows_after filter after (e ∷ es) =
    let rest = rows_after filter after es in
    if (str_eq filter "" || str_eq e.entry.ref filter) && ltb after e.seq then e ∷ rest else rest

-- (PgGetRefHistory, GetRefHistory) the newest rows first, and at most `limit` of them
unfoldable pub get_ref_history :
    (Statement → Bool) → String → ℕ → ℕ → RefTables → Result RefError (List RefHistoryEntry)
get_ref_history works filter after limit t =
    if works selects_parent
    then ok (take (if limit == 0 then 100 else limit) (rows_after filter after t.history))
    else err query_failed

-- (PgGetLogHead, GetLogHead)
unfoldable pub get_log_head : (Statement → Bool) → RefTables → Result RefError (Option Bytes)
get_log_head works t =
    if works selects_parent
    then ok (elim t.history [ [] ↦ none | e ∷ es ↦ some e.id ])
    else err query_failed
