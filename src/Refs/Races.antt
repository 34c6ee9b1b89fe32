-- ===== src/Refs/Races.antt =====
-- kailab/store/postgres.go, PgSetRefFF: two updates with the same old value that overlap.
use kai_server.Common.Bytes.{Bytes, bytes_eq, bytes_eq_self}
use kai_server.Common.{
  ℕ, suc, ◌≡◌, refl, true, false, String, List, [], ◌∷◌, map, Option, none, some,
}
use kai_server.Refs.Tables.{
  plain, HistoryEntry, RefHistoryEntry, RefTables, set_ff, target_of, has_id, append_history,
  upsert_ref, last_id, option_eq,
}
use kai_server.Refs.Log.{upsert_ref-target}
use kai_server.Refs.Swap.{Transaction}
use kai_server.Refs.Sessions.{
  Phase, waiting, checked, chained, committed, check_update, write_update, entry_of, step,
  take_step, run_schedule,
}

-- A transaction of PgSetRefFF whose statements all work.
abbrev pub swap : ℕ → String → String → String → Option Bytes → Bytes → Transaction
swap time actor push_id name old new = record {
  time = time;
  actor = actor;
  push_id = push_id;
  works = λ s. true;
  change = set_ff name old new;
}

option_eq_self : (a : Option Bytes) → option_eq a a ≡ true
option_eq_self none = refl
option_eq_self (some b) = bytes_eq_self b

-- The entry that the transaction writes, with the last row of t for its parent.
abbrev pub entry_at : Transaction → String → Option Bytes → Bytes → RefTables → HistoryEntry
entry_at s name old new t = record (entry_of s name old new plain) {
  parent = last_id name t.history;
}

module _ (entry_id : HistoryEntry → Bytes) where
  check_swap :
      (time : ℕ) (actor push_id name : String) (old : Option Bytes) (new : Bytes) (t : RefTables)
      → target_of name t ≡ old
      → step entry_id (swap time actor push_id name old new) waiting t
        ≡ (checked (entry_of (swap time actor push_id name old new) name old new plain), t)
  unfolding step check_update
  check_swap time actor push_id name old new t h =
      let matches : option_eq old (target_of name t) ≡ true = rw (h) (option_eq_self old) in
      rw (matches) refl

  -- A write puts the row and its entry.
  abbrev written : Transaction → String → HistoryEntry → RefTables → RefTables
  written s name e t = record (upsert_ref s.time name e.new s.actor s.push_id t) {
    history = record { seq = t.next_seq; id = entry_id e; entry = e } ∷ t.history;
    next_seq = suc t.next_seq;
  }

  write_swap :
      (time : ℕ) (actor push_id name : String) (old : Option Bytes) (new : Bytes) (t u : RefTables)
      → has_id (entry_id (entry_at (swap time actor push_id name old new) name old new u)) t.history
        ≡ false
      → step entry_id
          (swap time actor push_id name old new)
          (chained (entry_at (swap time actor push_id name old new) name old new u))
          t
        ≡ (
          committed,
          written
              (swap time actor push_id name old new)
              name
              (entry_at (swap time actor push_id name old new) name old new u)
              t,
        )
  unfolding step write_update append_history
  write_swap time actor push_id name old new t u h = rw (h) refl

  chain_swap :
      (time : ℕ) (actor push_id name : String) (old : Option Bytes) (new : Bytes) (t : RefTables)
      → step entry_id
          (swap time actor push_id name old new)
          (checked (entry_of (swap time actor push_id name old new) name old new plain))
          t
        ≡ (chained (entry_at (swap time actor push_id name old new) name old new t), t)
  unfolding step
  chain_swap time actor push_id name old new t = refl

  has_id-other :
      (id other : Bytes) (n : ℕ) (e : HistoryEntry) (es : List RefHistoryEntry)
      → bytes_eq other id ≡ false
      → has_id id es ≡ false
      → has_id id (record { seq = n; id = other; entry = e } ∷ es) ≡ false
  unfolding has_id
  has_id-other id other n e es differ unseen = rw (differ, unseen) refl

  -- Each of two transactions makes its queries before the other writes.
  abbrev pub overlap :
      Transaction → Transaction → RefTables → List (Transaction × Phase) × RefTables
  overlap a b t =
      run_schedule entry_id (0 ∷ 1 ∷ 0 ∷ 1 ∷ 0 ∷ 1 ∷ []) ((a, waiting) ∷ (b, waiting) ∷ []) t

  -- Two transactions of PgSetRefFF that expect the value the ref has, and whose statements all work,
  -- may both commit, if their entries have ids that differ from each other and from those of the
  -- log: each makes its queries before the other writes. The ref has the second one's value, and
  -- the log has an entry of each with the same old value and the same parent.
  pub run_schedule-race :
      (time time' : ℕ) (actor actor' push_id push_id' name : String) (old : Option Bytes)
      (new new' : Bytes) (t : RefTables)
      → target_of name t ≡ old
      → has_id (entry_id (entry_at (swap time actor push_id name old new) name old new t)) t.history
        ≡ false
      → has_id
          (entry_id (entry_at (swap time' actor' push_id' name old new') name old new' t))
          t.history
        ≡ false
      → bytes_eq
          (entry_id (entry_at (swap time actor push_id name old new) name old new t))
          (entry_id (entry_at (swap time' actor' push_id' name old new') name old new' t))
        ≡ false
      → ((overlap
            (swap time actor push_id name old new)
            (swap time' actor' push_id' name old new')
            t).0
          ≡ (swap time actor push_id name old new, committed)
            ∷ (swap time' actor' push_id' name old new', committed)
            ∷ [])
        × (target_of name
              (overlap
                (swap time actor push_id name old new)
                (swap time' actor' push_id' name old new')
                t).1
            ≡ some new')
        × (map
              (λ row. row.entry)
              (overlap
                (swap time actor push_id name old new)
                (swap time' actor' push_id' name old new')
                t).1.history
            ≡ entry_at (swap time' actor' push_id' name old new') name old new' t
              ∷ entry_at (swap time actor push_id name old new) name old new t
              ∷ map (λ row. row.entry) t.history)
  unfolding run_schedule take_step
  run_schedule-race time time' actor actor' push_id push_id' name old new new' t expected first
        second differ =
      let a = swap time actor push_id name old new in
      let b = swap time' actor' push_id' name old new' in
      let e = entry_at a name old new t in
      let e' = entry_at b name old new' t in
      let t1 = written a name e t in
      let later = has_id-other (entry_id e') (entry_id e) t.next_seq e t.history differ second in
      rw
        (
          check_swap time actor push_id name old new t expected,
          check_swap time' actor' push_id' name old new' t expected,
          chain_swap time actor push_id name old new t,
          chain_swap time' actor' push_id' name old new' t,
          write_swap time actor push_id name old new t t first,
          write_swap time' actor' push_id' name old new' t1 t later,
        )
        (refl, (upsert_ref-target time' name new' actor' push_id' t1).0, refl)
