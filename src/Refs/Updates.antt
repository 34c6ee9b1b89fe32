-- ===== src/Refs/Updates.antt =====
-- kailab/store: the effect of each update of a ref, and the log after any updates.
use kai_server.Common.Bytes.{Bytes}
use kai_server.Common.Maps.{delete, lookup-delete_self, lookup-delete_ne}
use kai_server.Common.{
  ℕ, ◌≡◌, refl, sym, ap, Bool, true, String, [], Option, none, some, Result, ok, err, guard,
  ok-bind,
}
use kai_server.Refs.Tables.{
  RefError, ref_mismatch, ref_not_found, query_failed, Ref, plain, force, deletion, HistoryEntry,
  RefTables, Statement, selects_target, Update, set_ff, set_force, remove, target_of, option_eq,
  upsert_ref, set_ref_ff, force_set_ref, may_delete, delete_ref, change_ref,
}
use kai_server.Refs.Log.{
  Consistent, Effect, guard-true, option_eq-eq, record_update-Appends, Appends-Effect,
  upsert_ref-target,
}

module _ (entry_id : HistoryEntry → Bytes) (works : Statement → Bool) (ts : ℕ)
    (actor push_id : String) where
  abbrev pub ff_entry : String → Option Bytes → Bytes → HistoryEntry
  ff_entry name old new = record {
    time = ts;
    actor = actor;
    ref = name;
    old = old;
    new = new;
    push_id = push_id;
    mark = plain;
    parent = none;
  }

  pub set_ref_ff-Effect :
      (name : String) (old : Option Bytes) (new : Bytes) (t t' : RefTables)
      → set_ref_ff entry_id works ts name old new actor push_id t ≡ ok t'
      → Effect entry_id (ff_entry name old new) t t'
  unfolding set_ref_ff
  set_ref_ff-Effect name old new t t' h =
      let e = ff_entry name old new in
      let (_, _, h1) = ok-bind (guard (works selects_target) query_failed) _ t' h in
      let (_, matches, h2) =
        ok-bind (guard (option_eq old (target_of name t)) ref_mismatch) _ t' h1 in
      let same = option_eq-eq old (target_of name t) (guard-true _ ref_mismatch matches) in
      let (after, others) = upsert_ref-target ts name new actor push_id t in
      Appends-Effect entry_id e t (upsert_ref ts name new actor push_id t) t'
        (record_update-Appends entry_id works e t t' (upsert_ref ts name new actor push_id) h2) refl
        refl (sym same) after others

  abbrev pub force_entry : String → Bytes → RefTables → HistoryEntry
  force_entry name new t = record {
    time = ts;
    actor = actor;
    ref = name;
    old = target_of name t;
    new = new;
    push_id = push_id;
    mark = force;
    parent = none;
  }

  pub force_set_ref-Effect :
      (name : String) (new : Bytes) (t t' : RefTables)
      → force_set_ref entry_id works ts name new actor push_id t ≡ ok t'
      → Effect entry_id (force_entry name new t) t t'
  unfolding force_set_ref
  force_set_ref-Effect name new t t' h =
      let e = force_entry name new t in
      let (_, _, h1) = ok-bind (guard (works selects_target) query_failed) _ t' h in
      let (after, others) = upsert_ref-target ts name new actor push_id t in
      Appends-Effect entry_id e t (upsert_ref ts name new actor push_id t) t'
        (record_update-Appends entry_id works e t t' (upsert_ref ts name new actor push_id) h1) refl
        refl refl after others

  abbrev pub delete_entry : String → Bytes → HistoryEntry
  delete_entry name current = record {
    time = ts;
    actor = actor;
    ref = name;
    old = some current;
    new = [];
    push_id = push_id;
    mark = deletion;
    parent = none;
  }

  pub delete_ref-Effect :
      (name : String) (old : Option Bytes) (t t' : RefTables)
      → delete_ref entry_id works ts name old actor push_id t ≡ ok t'
      → (current : Bytes) × (target_of name t ≡ some current)
        × (may_delete old current ≡ true)
        × Effect entry_id (delete_entry name current) t t'
  unfolding delete_ref
  delete_ref-Effect name old t t' h =
      let (_, _, h1) = ok-bind (guard (works selects_target) query_failed) _ t' h in
      let (c, there, h2) = ok-bind (found (target_of name t)) _ t' h1 in
      let before = found-ok (target_of name t) c there in
      let (_, may, h3) = ok-bind (guard (may_delete old c) ref_mismatch) _ t' h2 in
      let e = delete_entry name c in
      let without : RefTables → RefTables = λ u. record u { refs = delete name u.refs } in
      (
        c,
        before,
        guard-true _ ref_mismatch may,
        Appends-Effect entry_id e t (without t) t'
            (record_update-Appends entry_id works e t t' without h3) refl refl before
            (ap target (lookup-delete_self name t.refs))
            (λ n differ. ap target (lookup-delete_ne name n t.refs differ)),
      )
    where
      found : Option Bytes → Result RefError Bytes
      found o = elim o [ none ↦ err ref_not_found | some c ↦ ok c ]

      found-ok : (o : Option Bytes) (c : Bytes) → found o ≡ ok c → o ≡ some c
      found-ok none c e = absurd (cc)
      found-ok (some d) c e = cc

      target : Option Ref → Option Bytes
      target o = elim o [ none ↦ none | some r ↦ some r.target ]

  -- An update that succeeds keeps the refs and the log consistent.
  pub change_ref-Consistent :
      (x : Update) (t t' : RefTables)
      → change_ref entry_id works ts actor push_id x t ≡ ok t'
      → Consistent entry_id t
      → Consistent entry_id t'
  unfolding change_ref
  change_ref-Consistent (set_ff name old new) t t' h c =
      (set_ref_ff-Effect name old new t t' h).consistent c
  change_ref-Consistent (set_force name new) t t' h c =
      (force_set_ref-Effect name new t t' h).consistent c
  change_ref-Consistent (remove name old) t t' h c =
      (delete_ref-Effect name old t t' h).3.consistent c
