-- ===== src/Refs/Tests.antt =====
-- Runs on the refs of a repository, and the theorems at concrete inputs.
use kai_server.Common.Bytes.{Bytes, bytes_eq}
use kai_server.Common.Maps.{lookup, put, delete}
use kai_server.Common.{◌≡◌, refl, Bool, true, false, List, [], ◌∷◌, none, some, ok, err, map}
use kai_server.Refs.Tables.{
  ref_mismatch, history_failed, plain, HistoryEntry, RefTables, Statement, set_ff, remove,
  target_of, last_id, has_id, append_history, record_update, set_ref_ff, force_set_ref, delete_ref,
  change_ref,
}
use kai_server.Refs.Log.{Consistent}
use kai_server.Refs.Swap.{Transaction, run, no_refs, set_ref_ff-once, run-Consistent}
use kai_server.Refs.Sessions.{committed}
use kai_server.Refs.Races.{swap, entry_at, overlap, run_schedule-race}
use kai_server.Refs.Batch.{RefUpdate, BatchRefResult, done, refused, mismatch}

-- The time stands for the hash.
abbrev by_time : HistoryEntry → Bytes
by_time e = e.time ∷ []

abbrev always : Statement → Bool
always s = true

abbrev created : RefTables
created = record {
  refs = ("main", record { target = 1 ∷ []; updated_at = 10; actor = "a"; push_id = "p" }) ∷ [];
  history =
      record {
        seq = 1;
        id = 10 ∷ [];
        entry = record {
          time = 10;
          actor = "a";
          ref = "main";
          old = none;
          new = 1 ∷ [];
          push_id = "p";
          mark = plain;
          parent = none;
        };
      }
      ∷ [];
  next_seq = 2;
}

create_main : set_ref_ff by_time always 10 "main" none (1 ∷ []) "a" "p" no_refs ≡ ok created
unfolding set_ref_ff record_update append_history lookup put last_id has_id
create_main = refl

create_twice : set_ref_ff by_time always 11 "main" none (2 ∷ []) "b" "q" created ≡ err ref_mismatch
unfolding set_ref_ff lookup
create_twice = refl

-- Two entries with one id are not taken.
same_id : force_set_ref by_time always 10 "main" (2 ∷ []) "b" "q" created ≡ err history_failed
unfolding force_set_ref record_update append_history lookup last_id has_id bytes_eq
same_id = refl

abbrev transactions : List Transaction
transactions =
    record {
      time = 10;
      actor = "a";
      push_id = "p";
      works = always;
      change = set_ff "main" none (1 ∷ []);
    }
    ∷ record {
      time = 11;
      actor = "b";
      push_id = "q";
      works = always;
      change = set_ff "main" none (2 ∷ []);
    }
    ∷ record { time = 12; actor = "b"; push_id = "r"; works = always; change = remove "main" none }
    ∷ []

deleted : target_of "main" (run by_time transactions no_refs) ≡ none
unfolding run change_ref set_ref_ff delete_ref record_update append_history lookup put delete
    last_id has_id bytes_eq
deleted = refl

run-Consistent_example : Consistent by_time (run by_time transactions no_refs)
run-Consistent_example = run-Consistent by_time transactions

set_ref_ff-once_example :
    set_ref_ff by_time always 11 "main" none (2 ∷ []) "b" "q" created ≡ err ref_mismatch
unfolding set_ref_ff record_update append_history lookup put last_id has_id
set_ref_ff-once_example =
    set_ref_ff-once by_time always always 10 11 "a" "b" "p" "q" "main" none (1 ∷ []) (2 ∷ [])
      no_refs created refl (λ e. absurd (cc)) refl

abbrev updates : List RefUpdate
updates =
    record { name = "main"; old = none; new = 3 ∷ []; force = false }
    ∷ record { name = "main"; old = some (1 ∷ []); new = 4 ∷ []; force = false }
    ∷ []

abbrev after_batch : RefTables
after_batch = record {
  refs = ("main", record { target = 4 ∷ []; updated_at = 20; actor = "c"; push_id = "s" }) ∷ [];
  history =
      record {
        seq = 2;
        id = 20 ∷ [];
        entry = record {
          time = 20;
          actor = "c";
          ref = "main";
          old = some (1 ∷ []);
          new = 4 ∷ [];
          push_id = "s";
          mark = plain;
          parent = some (10 ∷ []);
        };
      }
      ∷ created.history;
  next_seq = 3;
}

-- The result of the second update has the time of the row before the batch, 10 in place of 20.
abbrev results : List BatchRefResult
results = refused "main" mismatch ∷ done "main" 10 ∷ []

-- Two updates of "main" from the first value.
abbrev second : Transaction
second = swap 20 "a" "p" "main" (some (1 ∷ [])) (2 ∷ [])

abbrev third : Transaction
third = swap 30 "b" "q" "main" (some (1 ∷ [])) (3 ∷ [])

run_schedule-race_example :
    ((overlap by_time second third created).0 ≡ (second, committed) ∷ (third, committed) ∷ [])
    × (target_of "main" (overlap by_time second third created).1 ≡ some (3 ∷ []))
    × (map (λ row. row.entry) (overlap by_time second third created).1.history
        ≡ entry_at third "main" (some (1 ∷ [])) (3 ∷ []) created
          ∷ entry_at second "main" (some (1 ∷ [])) (2 ∷ []) created
          ∷ map (λ row. row.entry) created.history)
unfolding lookup has_id bytes_eq last_id
run_schedule-race_example =
    run_schedule-race by_time 20 30 "a" "b" "p" "q" "main" (some (1 ∷ [])) (2 ∷ []) (3 ∷ []) created
      refl refl refl refl
