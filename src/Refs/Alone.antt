-- ===== src/Refs/Alone.antt =====
-- kailab/store/postgres.go: a transaction that no other overlaps.
use kai_server.Common.{
  [], if◌then◌else◌, ◌≡◌, refl, Bool, true, false, some, Option-cases, inl, inr, Result, ok, err,
  panic, stuck, Bool-cases,
}
use kai_server.Common.Bytes.{Bytes}
use kai_server.Refs.Tables.{
  RefError, plain, force, deletion, HistoryEntry, RefTables, selects_target, selects_parent,
  updates_ref, Update, set_ff, set_force, remove, target_of, last_id, option_eq, may_delete,
  append_history, record_update, set_ref_ff, force_set_ref, delete_ref, change_ref,
}
use kai_server.Refs.Swap.{Transaction}
use kai_server.Refs.Sessions.{
  Phase, waiting, committed, checked, rolled_back, after_check, after_write, check_update, entry_of,
  apply_entry, write_update, step,
}

-- What a call of the store answers, and what its caller makes of it.
abbrev pub answered : RefTables → Result RefError RefTables → Phase × RefTables
answered t (ok t') = (committed, t')
answered t (err x) = (rolled_back x, t)
answered t panic = (waiting, t)
answered t stuck = (waiting, t)

module _ (entry_id : HistoryEntry → Bytes) (s : Transaction) (t : RefTables) where
  abbrev then_step : Phase × RefTables → Phase × RefTables
  then_step (p, u) = step entry_id s p u

  decided :
      (e : HistoryEntry) (c : Bool) (u : RefTables) (x : RefError)
      → after_write e t (if c then ok u else err x) ≡ answered t (if c then ok u else err x)
  decided e true u x = refl
  decided e false u x = refl

  waits : step entry_id s waiting t ≡ after_check t (check_update s s.change t)
  unfolding step
  waits = refl

  failed : (x : RefError) → then_step (then_step (rolled_back x, t)) ≡ (rolled_back x, t)
  unfolding step
  failed x = refl

  writes :
      (e : HistoryEntry)
      → then_step (step entry_id s (checked e) t)
        ≡ answered t (record_update entry_id s.works e t (apply_entry e))
  unfolding step write_update record_update append_history
  writes e = elim (Bool-cases (s.works selects_parent)) [
    | inr a ↦ rw (a) refl
    | inl a ↦ elim (Bool-cases (s.works updates_ref)) [
      | inr b ↦ rw (a, b) refl
      | inl b ↦ rw (a, b) (decided (record e { parent = last_id e.ref t.history }) _ _ _)
    ]
  ]

  checks :
      (x : Update)
      → then_step (then_step (after_check t (check_update s x t)))
        ≡ answered t (change_ref entry_id s.works s.time s.actor s.push_id x t)
  unfolding change_ref set_ref_ff force_set_ref delete_ref check_update
  checks (set_ff name old new) = elim (Bool-cases (s.works selects_target)) [
    | inr a ↦ rw (a) (failed _)
    | inl a ↦ elim (Bool-cases (option_eq old (target_of name t))) [
      | inr b ↦ rw (a, b) (failed _)
      | inl b ↦ rw (a, b) (writes (entry_of s name old new plain))
    ]
  ]
  checks (set_force name new) = elim (Bool-cases (s.works selects_target)) [
    | inr a ↦ rw (a) (failed _)
    | inl a ↦ rw (a) (writes (entry_of s name (target_of name t) new force))
  ]
  checks (remove name old) = elim (Bool-cases (s.works selects_target)) [
    | inr a ↦ rw (a) (failed _)
    | inl a ↦ elim (Option-cases (target_of name t)) [
      | inl b ↦ rw (a, b) (failed _)
      | inr (c, b) ↦ elim (Bool-cases (may_delete old c)) [
        | inr d ↦ rw (a, b, d) (failed _)
        | inl d ↦ rw (a, b, d) (writes (entry_of s name (some c) [] deletion))
      ]
    ]
  ]

  -- The three steps of a transaction with no other between them are the call of the store, with a
  -- rollback after an error.
  step-change_ref :
      then_step (then_step (step entry_id s waiting t))
      ≡ answered t (change_ref entry_id s.works s.time s.actor s.push_id s.change t)
  step-change_ref = rw (waits) (checks s.change)
