-- ===== src/Refs/Batch.antt =====
-- kailab/api/routes.go, BatchUpdateRefs: several updates in one transaction.
--
-- A statement that fails aborts a transaction of Postgres: the later ones fail, and so does Commit.
-- `signed` is ensureSignedChangeSet, and `works` tells which statements of the update with a number
-- work.
use kai_server.Common.Bytes.{Bytes}
use kai_server.Common.{
  ℕ, suc, Bool, true, false, ◌&&◌, not, String, str_eq, List, [], ◌∷◌, Option, Result, ok, err,
  panic, stuck, if◌then◌else◌,
}
use kai_server.Refs.Tables.{
  RefError, ref_mismatch, ref_not_found, query_failed, update_failed, history_failed, HistoryEntry,
  RefTables, Statement, set_ref_ff, force_set_ref, get_ref,
}

-- (RefUpdateRequest) with its name
pub record RefUpdate : Type 0 where
  pub name : String
  pub old : Option Bytes
  pub new : Bytes
  pub force : Bool

pub data BatchError : Type 0 where
  new_target_required not_signed mismatch failed_to_update : BatchError

-- (BatchRefResult) where `updated_at` is zero if no row was read
pub data BatchRefResult : Type 0 where
  done : String → ℕ → BatchRefResult
  refused : String → BatchError → BatchRefResult

abbrev pub result_name : BatchRefResult → String
result_name (done name at) = name
result_name (refused name e) = name

-- The tables as the transaction sees them, and whether it is aborted.
pub record Tx : Type 0 where
  pub tables : RefTables
  pub aborted : Bool

abbrev pub no_bytes : Bytes → Bool
no_bytes [] = true
no_bytes (b ∷ bs) = false

-- A call of the store within the transaction.
abbrev pub within : Tx → (RefTables → Result RefError RefTables) → Result RefError RefTables
within x call = if x.aborted then err query_failed else call x.tables

-- What an error does to the transaction: a mismatch is no failed statement.
abbrev pub after_error : RefError → Tx → Tx
after_error ref_mismatch x = x
after_error ref_not_found x = x
after_error query_failed x = record x { aborted = true }
after_error update_failed x = record x { aborted = true }
after_error history_failed x = record x { aborted = true }

abbrev pub message : RefError → BatchError
message ref_mismatch = mismatch
message ref_not_found = failed_to_update
message query_failed = failed_to_update
message update_failed = failed_to_update
message history_failed = failed_to_update

-- The tables behind a call, whose error counts for the transaction only.
abbrev pub settle : Tx → Result RefError RefTables → Tx
settle x (ok t) = record x { tables = t }
settle x (err e) = after_error e x
settle x panic = x
settle x stuck = x

module _ (entry_id : HistoryEntry → Bytes) (signed : Bytes → Bool) (ts : ℕ) (actor push_id : String)
    (committed : RefTables) where
  -- store.PgGetRef on the database, not on the transaction
  unfoldable pub read_updated_at : (Statement → Bool) → String → ℕ
  read_updated_at works name = elim (get_ref works name committed) [
    | ok r ↦ r.updated_at
    | err _ ↦ 0
    | panic ↦ 0
    | stuck ↦ 0
  ]

  abbrev pub set_ref : (Statement → Bool) → RefUpdate → RefTables → Result RefError RefTables
  set_ref works upd t =
      if upd.force
      then force_set_ref entry_id works ts upd.name upd.new actor push_id t
      else set_ref_ff entry_id works ts upd.name upd.old upd.new actor push_id t

  -- When snap.latest is updated, so is snap.main; the error is not looked at.
  abbrev pub mirror : (Statement → Bool) → RefUpdate → Tx → Tx
  mirror works upd x =
      if str_eq upd.name "snap.latest"
      then settle x (within x (force_set_ref entry_id works ts "snap.main" upd.new actor push_id))
      else x

  abbrev pub finish :
      (Statement → Bool) → RefUpdate → Tx → Result RefError RefTables → Tx × BatchRefResult
  finish works upd x (ok t) =
      (mirror works upd (record x { tables = t }), done upd.name (read_updated_at works upd.name))
  finish works upd x (err e) = (after_error e x, refused upd.name (message e))
  finish works upd x panic = (x, refused upd.name failed_to_update)
  finish works upd x stuck = (x, refused upd.name failed_to_update)

  -- One round of the loop.
  unfoldable pub update_one : (Statement → Bool) → RefUpdate → Tx → Tx × BatchRefResult
  update_one works upd x =
      if no_bytes upd.new
      then (x, refused upd.name new_target_required)
      else if signed upd.new
      then finish works upd x (within x (set_ref works upd))
      else (x, refused upd.name not_signed)

  unfoldable pub update_all :
      (ℕ → Statement → Bool) → ℕ → List RefUpdate → Tx → Tx × List BatchRefResult
  update_all works i [] x = (x, [])
  update_all works i (upd ∷ upds) x =
      let one = update_one (works i) upd x in
      let rest = update_all works (suc i) upds one.0 in (rest.0, one.1 ∷ rest.1)

  -- (BatchUpdateRefs) from its transaction to the commit
  unfoldable pub batch_update_refs :
      (ℕ → Statement → Bool)
      → Bool
      → List RefUpdate
      → Result RefError (RefTables × List BatchRefResult)
  batch_update_refs works commits upds =
      let run = update_all works 0 upds (record { tables = committed; aborted = false }) in
      if commits && not run.0.aborted then ok (run.0.tables, run.1) else err update_failed
