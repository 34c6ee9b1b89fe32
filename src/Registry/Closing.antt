-- ===== src/Registry/Closing.antt =====
-- registry.go, Delete and Close: what they leave.
use mathlib.Core.Path.{subst}
use kai_server.Common.Maps.{lookup, Keyed, lookup-All, lookup-delete_self, lookup-delete_ne}
use kai_server.Common.{
  ℕ, ◌≡◌, ◌≢◌, refl, sym, ap, ◌∙◌, Bool, true, false, List, [], ◌∷◌, String, none, some, inl, inr,
  ok, err, length, length-set, All, Bool-cases, Option-cases, str_eq, str_eq_iff, if◌then◌else◌,
}
use kai_server.Registry.State.{Registry, Error, deleting_repo, key, key_of, close_repo}
use kai_server.Registry.Calls.{cached, delete_repo, close_each, close}
use kai_server.Registry.Invariant.{WellFormed, closed, close_repo-ok, closed-WellFormed}
use kai_server.Registry.Sections.{Leaves}

-- The handle of a key is closed, and the key is free.
pub record Freed (E : Type 0) (r : Registry) (k : String) (i : ℕ) : Type 0 where
  pub after : Registry
  pub result : close_repo {E = E} r i ≡ ok after
  pub wf : WellFormed after
  pub handles : length after.handles ≡ length r.handles
  pub stopped : after.stopped ≡ r.stopped
  pub free : lookup k after.repos ≡ none
  pub others : (l : String) → k ≢ l → lookup l after.repos ≡ lookup l r.repos

pub close_repo-Freed :
    (E : Type 0) (r : Registry) (k : String) (i : ℕ)
    → WellFormed r
    → lookup k r.repos ≡ some i
    → Freed E r k i
close_repo-Freed E r k i w e =
    let f = w.listed k i e in
    let (h, there, named, quit, _) = w.linked i k f in
    record {
      after = closed r i h;
      result = close_repo-ok E r i h there quit;
      wf = closed-WellFormed r i k h w f there named;
      handles = length-set r.handles i _;
      stopped = refl;
      free =
          ap (λ n. lookup n (closed r i h).repos) (sym named) ∙ lookup-delete_self (key h) r.repos;
      others = λ l differ. lookup-delete_ne (key h) l r.repos (λ t. differ (sym named ∙ t));
    }

pub record Emptied (E : Type 0) (m : List (String × ℕ)) (r : Registry) : Type 0 where
  pub after : Registry
  pub result : close_each {E = E} m r ≡ ok after
  pub wf : WellFormed after
  pub handles : length after.handles ≡ length r.handles
  pub absent : (k : String) → lookup k r.repos ≡ none → lookup k after.repos ≡ none
  pub free : All (λ e. lookup e.0 after.repos ≡ none) m

-- The other entries are still there after one was closed.
still_mapped :
    (k : String) (r r' : Registry) (m : List (String × ℕ))
    → ((l : String) → k ≢ l → lookup l r'.repos ≡ lookup l r.repos)
    → All (λ e. k ≢ e.0) m
    → All (λ e. lookup e.0 r.repos ≡ some e.1) m
    → All (λ e. lookup e.0 r'.repos ≡ some e.1) m
still_mapped k r r' [] f a p = tt
still_mapped k r r' (e ∷ m) f (differ, a) (q, p) = (f e.0 differ ∙ q, still_mapped k r r' m f a p)

pub close_each-Emptied :
    (E : Type 0) (m : List (String × ℕ)) (r : Registry)
    → WellFormed r
    → All (λ e. lookup e.0 r.repos ≡ some e.1) m
    → Keyed m
    → Emptied E m r
unfolding close_each
close_each-Emptied E [] r w p d = record {
  after = r;
  result = refl;
  wf = w;
  handles = refl;
  absent = λ k e. e;
  free = tt;
}
close_each-Emptied E ((k, i) ∷ m) r w (f, p) (a, d) =
    let one = close_repo-Freed E r k i w f in
    let rest =
      close_each-Emptied E m one.after one.wf (still_mapped k r one.after m one.others a p) d in
    record {
      after = rest.after;
      result = rw (one.result) rest.result;
      wf = rest.wf;
      handles = rest.handles ∙ one.handles;
      absent = λ l e. rest.absent l (elim (Bool-cases (str_eq k l)) [
        | inl s ↦ ap (λ n. lookup n one.after.repos) (sym ((str_eq_iff k l).0 s)) ∙ one.free
        | inr s ↦ one.others l (λ t. absurd (let u = (str_eq_iff k l).1 t in cc)) ∙ e
      ]);
      free = (rest.absent k one.free, rest.free);
    }

-- What holds of the key of every entry holds of a key that is found.
key_found :
    (P : String → Type 0) (m : List (String × ℕ)) (k : String) (i : ℕ)
    → All (λ e. P e.0) m
    → lookup k m ≡ some i
    → P k
unfolding lookup
key_found P [] k i a f = absurd (cc)
key_found P ((j, v) ∷ m) k i (p, a) f = elim (Bool-cases (str_eq j k)) [
  | inl s ↦ subst P ((str_eq_iff j k).0 s) p
  | inr s ↦ key_found P m k i a (sym (rw (s) refl) ∙ f)
]

pub restopped : (r : Registry) → WellFormed r → WellFormed (record r { stopped = true })
restopped r w = record {
  linked = w.linked;
  listed = w.listed;
  distinct = w.distinct;
  keyed = w.keyed;
  bounded = w.bounded;
}

-- Close leaves a registry in which nothing is open, also where a handle was in use.
pub close-empty :
    (r : Registry)
    → WellFormed r
    → r.stopped ≡ false
    → Leaves
        (λ r'.
          WellFormed r'
          × (length r'.handles ≡ length r.handles)
          × ((k : String) → lookup k r'.repos ≡ none))
        (close r)
unfolding close
close-empty r w running =
    let s = record r { stopped = true } in
    let all =
      close_each-Emptied (Registry × Error) r.repos s (restopped r w) (lookup-All r.repos w.keyed)
        w.keyed in
    rw (Leaves, running)
      (rw (all.result) (
        all.wf,
        all.handles,
        λ k. elim (Option-cases (lookup k r.repos)) [
          | inl e ↦ all.absent k e
          | inr (i, e) ↦ key_found (λ n. lookup n all.after.repos ≡ none) r.repos k i all.free e
        ],
      ))

-- After Delete, whether the directory could be renamed or not, the repository is not open.
pub delete_repo-absent :
    (renamed : Bool) (r : Registry) (tenant repo : String)
    → WellFormed r
    → Leaves
        (λ r'.
          WellFormed r' × (length r'.handles ≡ length r.handles) × (cached r' tenant repo ≡ none))
        (delete_repo renamed r tenant repo)
unfolding delete_repo
delete_repo-absent renamed r tenant repo w = elim (Option-cases (cached r tenant repo)) [
  | inl e ↦ rw (Leaves, e) (answers renamed r (w, refl, e))
  | inr (i, e) ↦
      let one = close_repo-Freed (Registry × Error) r (key_of tenant repo) i w e in
      rw (Leaves, e) (rw (one.result) (answers renamed one.after (one.wf, one.handles, one.free)))
]
  where
    answers :
        (b : Bool) (r' : Registry)
        → WellFormed r' × (length r'.handles ≡ length r.handles) × (cached r' tenant repo ≡ none)
        → Leaves
            (λ r''.
              WellFormed r''
              × (length r''.handles ≡ length r.handles)
              × (cached r'' tenant repo ≡ none))
            (if b then ok (r', tt) else err (r', deleting_repo))
    answers true r' p = p
    answers false r' p = p
