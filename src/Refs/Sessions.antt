-- ===== src/Refs/Sessions.antt =====
-- kailab/store/postgres.go: transactions that overlap, at Postgres's default isolation.
--
-- A statement sees what is committed when it starts. The change of a row waits for a transaction
-- that has changed it, and both of a transaction's changes are seen by others from its commit on:
-- they are one step here, and each query before them is a step of its own.
use kai_server.Common.Bytes.{Bytes}
use kai_server.Common.Maps.{delete}
use kai_server.Common.{
  ℕ, zero, suc, Bool, String, List, [], ◌∷◌, Option, none, some, Result, ok, err, panic, stuck,
  ◌>>=◌, guard, if◌then◌else◌,
}
use kai_server.Refs.Tables.{
  RefError, ref_mismatch, ref_not_found, query_failed, update_failed, Mark, plain, force, deletion,
  HistoryEntry, RefTables, Statement, selects_target, selects_parent, updates_ref, Update, set_ff,
  set_force, remove, target_of, last_id, option_eq, may_delete, append_history, upsert_ref,
}
use kai_server.Refs.Swap.{Transaction}

-- What the transaction has behind it: nothing, the query of the target and the check, the query of
-- the parent too, or all.
pub data Phase : Type 0 where
  waiting committed : Phase
  checked chained : HistoryEntry → Phase
  rolled_back : RefError → Phase

abbrev pub entry_of : Transaction → String → Option Bytes → Bytes → Mark → HistoryEntry
entry_of s name old new mark = record {
  time = s.time;
  actor = s.actor;
  ref = name;
  old = old;
  new = new;
  push_id = s.push_id;
  mark = mark;
  parent = none;
}

-- The query of the target and the check, by call.
unfoldable pub check_update : Transaction → Update → RefTables → Result RefError HistoryEntry
check_update s (set_ff name old new) t = do
  _ ← guard (s.works selects_target) query_failed
  _ ← guard (option_eq old (target_of name t)) ref_mismatch
  ok (entry_of s name old new plain)
check_update s (set_force name new) t = do
  _ ← guard (s.works selects_target) query_failed
  ok (entry_of s name (target_of name t) new force)
check_update s (remove name old) t = do
  _ ← guard (s.works selects_target) query_failed
  current ← elim (target_of name t) [ none ↦ err ref_not_found | some c ↦ ok c ]
  _ ← guard (may_delete old current) ref_mismatch
  ok (entry_of s name (some current) [] deletion)

-- The change of the row that belongs to an entry.
abbrev pub apply_entry : HistoryEntry → RefTables → RefTables
apply_entry e t = elim e.mark [
  | plain ↦ upsert_ref e.time e.ref e.new e.actor e.push_id t
  | force ↦ upsert_ref e.time e.ref e.new e.actor e.push_id t
  | deletion ↦ record t { refs = delete e.ref t.refs }
]

unfoldable pub write_update :
    (HistoryEntry → Bytes)
    → (Statement → Bool)
    → HistoryEntry
    → RefTables
    → Result RefError RefTables
write_update entry_id works e t = do
  _ ← guard (works updates_ref) update_failed
  append_history entry_id works e (apply_entry e t)

abbrev pub after_check : RefTables → Result RefError HistoryEntry → Phase × RefTables
after_check t (ok e) = (checked e, t)
after_check t (err x) = (rolled_back x, t)
after_check t panic = (waiting, t)
after_check t stuck = (waiting, t)

-- The commit, or the rollback of the callers after an error.
abbrev pub after_write : HistoryEntry → RefTables → Result RefError RefTables → Phase × RefTables
after_write e t (ok t') = (committed, t')
after_write e t (err x) = (rolled_back x, t)
after_write e t panic = (chained e, t)
after_write e t stuck = (chained e, t)

module _ (entry_id : HistoryEntry → Bytes) where
  -- The next step of a transaction, with what is committed.
  unfoldable pub step : Transaction → Phase → RefTables → Phase × RefTables
  step s waiting t = after_check t (check_update s s.change t)
  step s (checked e) t =
      if s.works selects_parent
      then (chained (record e { parent = last_id e.ref t.history }), t)
      else (rolled_back query_failed, t)
  step s (chained e) t = after_write e t (write_update entry_id s.works e t)
  step s committed t = (committed, t)
  step s (rolled_back x) t = (rolled_back x, t)

  -- A step of the transaction with this number.
  unfoldable pub take_step :
      ℕ → List (Transaction × Phase) → RefTables → List (Transaction × Phase) × RefTables
  take_step i [] t = ([], t)
  take_step zero ((s, p) ∷ ps) t = let next = step s p t in ((s, next.0) ∷ ps, next.1)
  take_step (suc i) (x ∷ ps) t = let rest = take_step i ps t in (x ∷ rest.0, rest.1)

  -- The steps of the transactions in an order.
  unfoldable pub run_schedule :
      List ℕ → List (Transaction × Phase) → RefTables → List (Transaction × Phase) × RefTables
  run_schedule [] ps t = (ps, t)
  run_schedule (i ∷ is) ps t = let next = take_step i ps t in run_schedule is next.0 next.1
