-- ===== src/Refs/Interleaved.antt =====
-- kailab/store/postgres.go: what holds of the refs and their log when transactions overlap, and what
-- does not.
use kai_server.Common.Bytes.{Bytes}
use kai_server.Common.{◌≡◌, ◌≢◌, false, String, List, [], ◌∷◌, Option, none, some}
use kai_server.Refs.Tables.{Ref, HistoryEntry, RefHistoryEntry, RefTables, target_of, has_id}
use kai_server.Refs.Log.{result_of, replay}
use kai_server.Refs.Sessions.{apply_entry}

-- Each row has the hash of its entry for an id, which no older row has.
abbrev pub Hashed : (HistoryEntry → Bytes) → List RefHistoryEntry → Type 0
Hashed entry_id [] = Unit {0}
Hashed entry_id (e ∷ es) = (e.id ≡ entry_id e.entry) × (has_id e.id es ≡ false) × Hashed entry_id es

-- The table of refs is what a replay of the log gives.
pub record Recorded (entry_id : HistoryEntry → Bytes) (t : RefTables) : Type 0 where
  pub logged : (name : String) → target_of name t ≡ replay t.history name
  pub hashed : Hashed entry_id t.history

-- The change of an entry's row.
record Applies (e : HistoryEntry) (t : RefTables) : Type 0 where
  after : target_of e.ref (apply_entry e t) ≡ result_of e
  others : (name : String) → e.ref ≢ name → target_of name (apply_entry e t) ≡ target_of name t
  same : (apply_entry e t).history ≡ t.history

abbrev target : Option Ref → Option Bytes
target o = elim o [ none ↦ none | some r ↦ some r.target ]
