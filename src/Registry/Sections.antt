-- ===== src/Registry/Sections.antt =====
-- registry.go: the sections that each run under a lock, in any order, as several requests make
-- them. Get is a lookup, then `touches` or `gets_slow`, and other sections may come between.
use kai_server.Common.Bytes.{Bytes}
use kai_server.Common.{ℕ, ◌<◌, Bool, false, String, ok, err, panic, stuck, ◌>>=◌, length, ◌≡◌}
use kai_server.Registry.State.{Registry, Error, Outcome, Opening, touch}
use kai_server.Registry.Calls.{
  Stat, get_slow, create, delete_repo, acquire, release, enqueue_enrichment, reap_idle, close,
}

pub data Section : Type 0 where
  touches : ℕ → ℕ → Section
  gets_slow : ℕ → Stat → Opening → String → String → Section
  creates : ℕ → Stat → Bool → Bool → Opening → String → String → Section
  deletes : Bool → String → String → Section
  acquires releases : ℕ → ℕ → Section
  enqueues : ℕ → Bytes → Section
  reaps : ℕ → Section
  closes : Section

-- The registry that a call leaves, with its result or with its error, has `P`; the call neither
-- panics nor runs on for ever.
abbrev pub Leaves : {A : Type 0} → (Registry → Type 0) → Outcome A → Type 0
Leaves P (ok (r, a)) = P r
Leaves P (err (r, e)) = P r
Leaves P panic = ⊥
Leaves P stuck = ⊥

abbrev pub without_result : {A : Type 0} → Outcome A → Outcome (Unit {0})
without_result o = do (r, _) ← o; ok (r, tt)

unfoldable pub perform : Section → Registry → Outcome (Unit {0})
perform (touches now i) r = without_result (touch now r i)
perform (gets_slow now stat opening tenant repo) r =
    without_result (get_slow now stat opening r tenant repo)
perform (creates now stat repo_dir segments_dir opening tenant repo) r =
    without_result (create now stat repo_dir segments_dir opening r tenant repo)
perform (deletes renamed tenant repo) r = delete_repo renamed r tenant repo
perform (acquires now i) r = acquire now r i
perform (releases now i) r = release now r i
perform (enqueues i node_id) r = enqueue_enrichment r i node_id
perform (reaps now) r = reap_idle now r
perform closes r = close r

-- A caller has only handles that the registry gave it, and Close is called once.
abbrev pub Allowed : Registry → Section → Type 0
Allowed r (touches now i) = i < length r.handles
Allowed r (acquires now i) = i < length r.handles
Allowed r (releases now i) = i < length r.handles
Allowed r (enqueues i node_id) = i < length r.handles
Allowed r closes = r.stopped ≡ false
Allowed r _ = Unit {0}

-- Every history of sections, whose errors do not end it.
pub data History : Registry → Registry → Type 0 where
  starts : (r : Registry) → History r r
  does :
      (s : Section) (r r' r'' : Registry)
      → Allowed r s
      → perform s r ≡ ok (r', tt)
      → History r' r''
      → History r r''
  fails :
      (s : Section) (r r' r'' : Registry) (e : Error)
      → Allowed r s
      → perform s r ≡ err (r', e)
      → History r' r''
      → History r r''
