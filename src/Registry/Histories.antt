-- ===== src/Registry/Histories.antt =====
-- registry.go: any history of the registry, as the sections of several requests follow each other.
use mathlib.Core.Path.{subst}
use kai_server.Common.Maps.{lookup}
use kai_server.Common.{ℕ, ◌≤◌, arith, inl, inr, ok, err, panic, stuck, length, Bool-cases, ◌==◌}
use kai_server.Registry.State.{Registry, Outcome, find, new_registry}
use kai_server.Registry.Calls.{delete_repo, close}
use kai_server.Registry.Invariant.{WellFormed}
use kai_server.Registry.Sections.{
  Section, touches, gets_slow, creates, deletes, acquires, releases, enqueues, reaps, closes,
  Leaves, without_result, perform, Allowed, History, starts, does, fails,
}
use kai_server.Registry.Kept.{
  Kept, touch-Kept, get_slow-Kept, create-Kept, acquire-Kept, release-Kept, enqueue_enrichment-Kept,
  reap_idle-Kept,
}
use kai_server.Registry.Closing.{close-empty, delete_repo-absent}

Leaves-without_result :
    {A : Type 0} (P : Registry → Type 0) (o : Outcome A) → Leaves P o → Leaves P (without_result o)
Leaves-without_result P (ok (r, a)) p = p
Leaves-without_result P (err (r, e)) p = p
Leaves-without_result P panic p = elim p [ ]
Leaves-without_result P stuck p = elim p [ ]

Leaves_map :
    {A : Type 0} (P Q : Registry → Type 0) (o : Outcome A)
    → ((r : Registry) → P r → Q r)
    → Leaves P o
    → Leaves Q o
Leaves_map P Q (ok (r, a)) f p = f r p
Leaves_map P Q (err (r, e)) f p = f r p
Leaves_map P Q panic f p = elim p [ ]
Leaves_map P Q stuck f p = elim p [ ]

-- Delete and Close close a handle in use too.
abbrev pub Closing : Section → Type 0
Closing (deletes renamed tenant repo) = Unit {0}
Closing closes = Unit {0}
Closing _ = ⊥

pub perform-Kept :
    (s : Section) (r : Registry)
    → WellFormed r
    → Allowed r s
    → (Closing s → ⊥)
    → Leaves (Kept r) (perform s r)
unfolding perform
perform-Kept (touches now i) r w a c = Leaves-without_result (Kept r) _ (touch-Kept now r i w a)
perform-Kept (gets_slow now stat opening tenant repo) r w a c =
    Leaves-without_result (Kept r) _ (get_slow-Kept now stat opening r tenant repo w)
perform-Kept (creates now stat repo_dir segments_dir opening tenant repo) r w a c =
    Leaves-without_result (Kept r) _
      (create-Kept now stat repo_dir segments_dir opening r tenant repo w)
perform-Kept (deletes renamed tenant repo) r w a c = elim (c tt) [ ]
perform-Kept (acquires now i) r w a c = acquire-Kept now r i w a
perform-Kept (releases now i) r w a c = release-Kept now r i w a
perform-Kept (enqueues i node_id) r w a c = enqueue_enrichment-Kept r i node_id w a
perform-Kept (reaps now) r w a c = reap_idle-Kept now r w
perform-Kept closes r w a c = elim (c tt) [ ]

kept :
    (s : Section) (r : Registry)
    → WellFormed r
    → Allowed r s
    → (Closing s → ⊥)
    → Leaves (λ r'. WellFormed r' × (length r.handles ≤ length r'.handles)) (perform s r)
kept s r w a c =
    Leaves_map (Kept r) _ (perform s r) (λ r' k. (k.wf, k.grows)) (perform-Kept s r w a c)

-- Every section of a well-formed registry leaves a well-formed one with no fewer handles, with a
-- result or an error; it neither panics nor runs on for ever.
pub perform-WellFormed :
    (s : Section) (r : Registry)
    → WellFormed r
    → Allowed r s
    → Leaves (λ r'. WellFormed r' × (length r.handles ≤ length r'.handles)) (perform s r)
unfolding perform
perform-WellFormed (deletes renamed tenant repo) r w a =
    Leaves_map _ _ (delete_repo renamed r tenant repo) (λ r' (w', n, _). (w', omega (arith, n)))
      (delete_repo-absent renamed r tenant repo w)
perform-WellFormed closes r w a =
    Leaves_map _ _ (close r) (λ r' (w', n, _). (w', omega (arith, n))) (close-empty r w a)
perform-WellFormed (touches now i) r w a = kept (touches now i) r w a (λ x. x)
perform-WellFormed (gets_slow now stat opening tenant repo) r w a =
    kept (gets_slow now stat opening tenant repo) r w a (λ x. x)
perform-WellFormed (creates now stat repo_dir segments_dir opening tenant repo) r w a =
    kept (creates now stat repo_dir segments_dir opening tenant repo) r w a (λ x. x)
perform-WellFormed (acquires now i) r w a = kept (acquires now i) r w a (λ x. x)
perform-WellFormed (releases now i) r w a = kept (releases now i) r w a (λ x. x)
perform-WellFormed (enqueues i node_id) r w a = kept (enqueues i node_id) r w a (λ x. x)
perform-WellFormed (reaps now) r w a = kept (reaps now) r w a (λ x. x)

new_registry-WellFormed : (max_open idle_ttl : ℕ) → WellFormed (new_registry max_open idle_ttl)
unfolding new_registry find lookup
new_registry-WellFormed max_open idle_ttl = record {
  linked = λ i k f. absurd (cc);
  listed = λ k i f. absurd (cc);
  distinct = tt;
  keyed = tt;
  bounded = elim (Bool-cases (max_open == 0)) [
    | inl e ↦ rw (e) (omega arith)
    | inr e ↦ rw (e) (ground arith)
  ];
}

History_keeps : (r r' : Registry) → History r r' → WellFormed r → WellFormed r'
History_keeps r r' (starts _) w = w
History_keeps r r' (does s _ q _ a e h) w =
    History_keeps q r' h (subst (Leaves (λ q'. WellFormed q' × _)) e (perform-WellFormed s r w a)).0
History_keeps r r' (fails s _ q _ x a e h) w =
    History_keeps q r' h (subst (Leaves (λ q'. WellFormed q' × _)) e (perform-WellFormed s r w a)).0

-- Whatever history a new registry has, it is well-formed: the map and the LRU list have the same
-- keys, each once, and each belongs to one open handle.
pub History-WellFormed :
    (max_open idle_ttl : ℕ) (r : Registry)
    → History (new_registry max_open idle_ttl) r
    → WellFormed r
History-WellFormed max_open idle_ttl r h =
    History_keeps _ r h (new_registry-WellFormed max_open idle_ttl)
