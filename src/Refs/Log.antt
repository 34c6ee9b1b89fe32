-- ===== src/Refs/Log.antt =====
-- kailab/store: the table of refs is what the log says, and the log is a chain.
use mathlib.Core.Path.{subst⁻¹}
use kai_server.Common.Bytes.{Bytes, bytes_eq_iff}
use kai_server.Common.Maps.{lookup-put_self, lookup-put_ne}
use kai_server.Common.{
  ℕ, suc, ◌<◌, ◌≡◌, ◌≢◌, refl, sym, ap, ◌∙◌, arith, Bool, true, false, String, str_eq, str_eq_iff,
  List, [], ◌∷◌, Option, none, some, inl, inr, ok, guard, ok-bind, Bool-cases, if◌then◌else◌,
}
use kai_server.Refs.Tables.{
  RefError, query_failed, update_failed, Ref, plain, force, deletion, HistoryEntry, RefHistoryEntry,
  RefTables, Statement, selects_parent, updates_ref, target_of, last_id, option_eq, has_id,
  append_history, upsert_ref, record_update,
}

-- What the log says of a ref: nothing after a deletion, else the new target of its last entry.
abbrev pub result_of : HistoryEntry → Option Bytes
result_of e = elim e.mark [ plain ↦ some e.new | force ↦ some e.new | deletion ↦ none ]

unfoldable pub replay : List RefHistoryEntry → String → Option Bytes
replay [] name = none
replay (e ∷ es) name =
    let rest = replay es name in if str_eq e.entry.ref name then result_of e.entry else rest

-- Each row has the hash of its entry for an id, which no older row has; its entry names the older
-- row of the same ref as its parent, and that row's result as its old value; the numbers go down.
abbrev pub Chained : (HistoryEntry → Bytes) → ℕ → List RefHistoryEntry → Type 0
Chained entry_id n [] = Unit {0}
Chained entry_id n (e ∷ es) =
    (e.id ≡ entry_id e.entry)
    × (has_id e.id es ≡ false)
    × (e.entry.parent ≡ last_id e.entry.ref es)
    × (e.entry.old ≡ replay es e.entry.ref)
    × (e.seq < n)
    × Chained entry_id e.seq es

pub record Consistent (entry_id : HistoryEntry → Bytes) (t : RefTables) : Type 0 where
  pub logged : (name : String) → target_of name t ≡ replay t.history name
  pub chained : Chained entry_id t.next_seq t.history

pub option_eq-eq : (a b : Option Bytes) → option_eq a b ≡ true → a ≡ b
option_eq-eq none none e = refl
option_eq-eq none (some b) e = absurd (cc)
option_eq-eq (some a) none e = absurd (cc)
option_eq-eq (some a) (some b) e = ap some ((bytes_eq_iff a b).0 e)

pub guard-true : (b : Bool) (x : RefError) → guard b x ≡ ok tt → b ≡ true
guard-true true x e = refl
guard-true false x e = absurd (cc)

-- An update that succeeded put one entry in front of the log.
pub record Appends (entry_id : HistoryEntry → Bytes) (e : HistoryEntry) (t u t' : RefTables)
    : Type 0 where
  unseen : has_id (entry_id (record e { parent = last_id e.ref t.history })) u.history ≡ false
  result : t' ≡ record u {
    history =
        record {
          seq = u.next_seq;
          id = entry_id (record e { parent = last_id e.ref t.history });
          entry = record e { parent = last_id e.ref t.history };
        }
        ∷ u.history;
    next_seq = suc u.next_seq;
  }

pub append_history-ok :
    (entry_id : HistoryEntry → Bytes) (works : Statement → Bool) (e : HistoryEntry)
    (u t' : RefTables)
    → append_history entry_id works e u ≡ ok t'
    → (has_id (entry_id e) u.history ≡ false)
      × (t' ≡ record u {
        history = record { seq = u.next_seq; id = entry_id e; entry = e } ∷ u.history;
        next_seq = suc u.next_seq;
      })
unfolding append_history
append_history-ok entry_id works e u t' h = ground arith

pub record_update-Appends :
    (entry_id : HistoryEntry → Bytes) (works : Statement → Bool) (e : HistoryEntry)
    (t t' : RefTables) (change : RefTables → RefTables)
    → record_update entry_id works e t change ≡ ok t'
    → Appends entry_id e t (change t) t'
unfolding record_update
record_update-Appends entry_id works e t t' change h =
    let (_, _, h1) = ok-bind (guard (works selects_parent) query_failed) _ t' h in
    let (_, _, h2) = ok-bind (guard (works updates_ref) update_failed) _ t' h1 in
    let (unseen, result) =
      append_history-ok entry_id works (record e { parent = last_id e.ref t.history }) (change t) t'
        h2 in
    record { unseen = unseen; result = result }

-- What an update does: the ref has the entry's result, and every other ref is as it was.
pub record Effect (entry_id : HistoryEntry → Bytes) (e : HistoryEntry) (t t' : RefTables)
    : Type 0 where
  pub before : target_of e.ref t ≡ e.old
  pub after : target_of e.ref t' ≡ result_of e
  pub others : (name : String) → e.ref ≢ name → target_of name t' ≡ target_of name t
  pub consistent : Consistent entry_id t → Consistent entry_id t'

pub Appends-Effect :
    (entry_id : HistoryEntry → Bytes) (e : HistoryEntry) (t u t' : RefTables)
    → Appends entry_id e t u t'
    → u.history ≡ t.history
    → u.next_seq ≡ t.next_seq
    → target_of e.ref t ≡ e.old
    → target_of e.ref u ≡ result_of e
    → ((name : String) → e.ref ≢ name → target_of name u ≡ target_of name t)
    → Effect entry_id e t t'
unfolding replay
Appends-Effect entry_id e t u t' a same next before after others = record {
  before = before;
  after = ap (target_of e.ref) a.result ∙ after;
  others = λ name differ. ap (target_of name) a.result ∙ others name differ;
  consistent = λ c. subst⁻¹ (Consistent entry_id) a.result (record {
    logged = λ name. elim (Bool-cases (str_eq e.ref name)) [
      | inl s ↦ rw (s) (ap (λ n. target_of n u) (sym ((str_eq_iff e.ref name).0 s)) ∙ after)
      | inr s ↦ rw (s) (
          others name (λ q. absurd (let r = (str_eq_iff e.ref name).1 q in cc))
          ∙ c.logged name
          ∙ ap (λ h. replay h name) (sym same))
    ];
    chained = (
      refl,
      a.unseen,
      ap (last_id e.ref) (sym same),
      sym before ∙ c.logged e.ref ∙ ap (λ h. replay h e.ref) (sym same),
      omega arith,
      subst⁻¹ (λ h. Chained entry_id u.next_seq h) same
          (subst⁻¹ (λ n. Chained entry_id n t.history) next c.chained),
    );
  });
}

pub upsert_ref-target :
    (ts : ℕ) (name : String) (new : Bytes) (actor push_id : String) (t : RefTables)
    → (target_of name (upsert_ref ts name new actor push_id t) ≡ some new)
      × ((n : String)
          → name ≢ n
          → target_of n (upsert_ref ts name new actor push_id t) ≡ target_of n t)
upsert_ref-target ts name new actor push_id t =
    let r : Ref = record { target = new; updated_at = ts; actor = actor; push_id = push_id } in
    (
      ap target (lookup-put_self name r t.refs),
      λ n differ. ap target (lookup-put_ne name n r t.refs differ),
    )
  where
    target : Option Ref → Option Bytes
    target o = elim o [ none ↦ none | some r ↦ some r.target ]
