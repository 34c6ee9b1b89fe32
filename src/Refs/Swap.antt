-- ===== src/Refs/Swap.antt =====
-- kailab/store: transactions that do not overlap, one after the other: an update with an
-- old value is a compare-and-swap, and the log after any updates.
use kai_server.Common.Bytes.{Bytes}
use kai_server.Common.Maps.{lookup}
use kai_server.Common.{
  ℕ, ◌≡◌, ◌≢◌, refl, ◌∙◌, Bool, true, String, List, [], ◌∷◌, Option, some, inl, inr, Result, ok,
  err, panic, stuck, Bool-cases,
}
use kai_server.Refs.Tables.{
  RefError, ref_mismatch, HistoryEntry, RefTables, Statement, selects_target, Update, target_of,
  option_eq, set_ref_ff, change_ref,
}
use kai_server.Refs.Log.{replay, Consistent, option_eq-eq}
use kai_server.Refs.Updates.{set_ref_ff-Effect, change_ref-Consistent}

-- An update with an old value that succeeds found that value, puts the new one there, and leaves
-- every other ref alone.
pub set_ref_ff-swap :
    (entry_id : HistoryEntry → Bytes) (works : Statement → Bool) (ts : ℕ)
    (actor push_id name : String) (old : Option Bytes) (new : Bytes) (t t' : RefTables)
    → set_ref_ff entry_id works ts name old new actor push_id t ≡ ok t'
    → (target_of name t ≡ old)
      × (target_of name t' ≡ some new)
      × ((n : String) → name ≢ n → target_of n t' ≡ target_of n t)
set_ref_ff-swap entry_id works ts actor push_id name old new t t' h =
    let e = set_ref_ff-Effect entry_id works ts actor push_id name old new t t' h in
    (e.before, e.after, e.others)

-- Of two updates that expect the same value, of which the second starts from what the first
-- committed, the second fails with a mismatch if the first put another value and the query of the
-- second works.
pub set_ref_ff-once :
    (entry_id : HistoryEntry → Bytes) (works works' : Statement → Bool) (ts ts' : ℕ)
    (actor actor' push_id push_id' name : String) (old : Option Bytes) (new new' : Bytes)
    (t t' : RefTables)
    → set_ref_ff entry_id works ts name old new actor push_id t ≡ ok t'
    → old ≢ some new
    → works' selects_target ≡ true
    → set_ref_ff entry_id works' ts' name old new' actor' push_id' t' ≡ err ref_mismatch
unfolding set_ref_ff
set_ref_ff-once entry_id works works' ts ts' actor actor' push_id push_id' name old new new' t t' h
      differ query =
    let e = set_ref_ff-Effect entry_id works ts actor push_id name old new t t' h in
    elim (Bool-cases (option_eq old (target_of name t'))) [
      | inl s ↦ absurd (differ (option_eq-eq old (target_of name t') s ∙ e.after))
      | inr s ↦ rw (query) (rw (s) refl)
    ]

-- One transaction: its clock, who makes it, which statements work, and the update. An error leaves
-- the tables as they were.
pub record Transaction : Type 0 where
  pub time : ℕ
  pub actor : String
  pub push_id : String
  pub works : Statement → Bool
  pub change : Update

abbrev pub or_rolled_back : RefTables → Result RefError RefTables → RefTables
or_rolled_back t (ok t') = t'
or_rolled_back t (err e) = t
or_rolled_back t panic = t
or_rolled_back t stuck = t

-- One after the other.
unfoldable pub run : (HistoryEntry → Bytes) → List Transaction → RefTables → RefTables
run entry_id [] t = t
run entry_id (x ∷ xs) t =
    run entry_id xs
      (or_rolled_back t (change_ref entry_id x.works x.time x.actor x.push_id x.change t))

abbrev pub no_refs : RefTables
no_refs = record { refs = []; history = []; next_seq = 1 }

run-keeps :
    (entry_id : HistoryEntry → Bytes) (xs : List Transaction) (t : RefTables)
    → Consistent entry_id t
    → Consistent entry_id (run entry_id xs t)
unfolding run
run-keeps entry_id [] t c = c
run-keeps entry_id (x ∷ xs) t c =
    run-keeps entry_id xs _
      (kept (change_ref entry_id x.works x.time x.actor x.push_id x.change t) refl)
  where
    kept :
        (o : Result RefError RefTables)
        → change_ref entry_id x.works x.time x.actor x.push_id x.change t ≡ o
        → Consistent entry_id (or_rolled_back t o)
    kept (ok t') e =
        change_ref-Consistent entry_id x.works x.time x.actor x.push_id x.change t t' e c
    kept (err y) e = c
    kept panic e = c
    kept stuck e = c

-- After any transactions that ran one after the other, the failed ones included, the table of refs is
-- what a replay of the log gives, and the log is a chain: an entry has its hash for an id, which no
-- older one has, and names the last entry of its ref as parent and that entry's result as its old
-- value.
pub run-Consistent :
    (entry_id : HistoryEntry → Bytes) (xs : List Transaction)
    → Consistent entry_id (run entry_id xs no_refs)
unfolding lookup replay
run-Consistent entry_id xs =
    run-keeps entry_id xs no_refs (record { logged = λ name. refl; chained = tt })
