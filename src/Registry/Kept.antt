-- ===== src/Registry/Kept.antt =====
-- registry.go: every call that does not delete or close keeps the invariant, and keeps open what
-- has an active request.
use mathlib.Core.Path.{subst⁻¹}
use kai_server.Common.Bytes.{Bytes}
use kai_server.Common.{
  ℕ, ◌≤◌, ◌<◌, ◌≡◌, ◌≢◌, refl, sym, ap, ◌∙◌, arith, Bool, true, false, List, [], ◌∷◌, String, none,
  some, inl, inr, length, length-set, length-append, get_elem?, set, Bool-cases, Option-cases, ◌==◌,
  ==_iff, ltb,
}
use kai_server.Registry.State.{
  Registry, Handle, Error, Opening, opens, no_database, no_pragmas, no_schema, key, key_of,
  move_to_front, write_handle, touch, new_handle, opened, answer, open_repo,
}
use kai_server.Registry.Calls.{
  Stat, present, absent, failing, cached, get_closed, get_slow, get, create, create_locked, acquire,
  release, enqueue_enrichment, reap_idle,
}
use kai_server.Registry.Elements.{
  get_elem?-set_self, get_elem?-set_ne, get_elem?-append, get_elem?-some, get_elem?-lt,
  find-move_to_front, move_to_front-Distinct,
}
use kai_server.Registry.Invariant.{WellFormed, deref-some, write_handle-WellFormed}
use kai_server.Registry.Shrinking.{Shrinks}
use kai_server.Registry.Opening.{open_repo-Opens, opened-WellFormed}
use kai_server.Registry.Reaper.{reap_idle-Reaped}
use kai_server.Registry.Sections.{Leaves}

-- Handle `i` is open and has an active request.
abbrev pub InUse : Registry → ℕ → Type 0
InUse r i = (h : Handle) × (get_elem? r.handles i ≡ some h) × (h.active ≢ 0) × (h.quit ≡ false)

abbrev pub Open : Registry → ℕ → Type 0
Open r i = (h : Handle) × (get_elem? r.handles i ≡ some h) × (h.quit ≡ false)

pub record Kept (r r' : Registry) : Type 0 where
  pub wf : WellFormed r'
  pub grows : length r.handles ≤ length r'.handles
  pub serves : (i : ℕ) → InUse r i → Open r' i

Kept-refl : (r : Registry) → WellFormed r → Kept r r
Kept-refl r w = record { wf = w; grows = omega arith; serves = λ i (h, e, _, quit). (h, e, quit) }

Shrinks-Kept : (r r' : Registry) → WellFormed r' → Shrinks r r' → Kept r r'
Shrinks-Kept r r' w s = record {
  wf = w;
  grows = omega (arith, s.handles);
  serves = λ i (h, e, busy, quit). (h, (s.keeps i h e busy).0, quit);
}

-- A write to the fields that the invariant does not read.
write_handle-Kept :
    (r : Registry) (i : ℕ) (h h' : Handle) (l : List (ℕ × String))
    → WellFormed (record (write_handle r i h') { lru = l })
    → get_elem? r.handles i ≡ some h
    → h'.quit ≡ h.quit
    → Kept r (record (write_handle r i h') { lru = l })
write_handle-Kept r i h h' l w e quit = record {
  wf = w;
  grows = omega (arith, length-set r.handles i h');
  serves = λ j (g, there, _, quit_g). elim (Bool-cases (i == j)) [
    | inl s ↦
        let same = (==_iff i j).0 s in
        let one : some h ≡ some g = sym e ∙ ap (get_elem? r.handles) same ∙ there in
        let eq : h ≡ g = cc in
        (
          h',
          ap (get_elem? (set r.handles i h')) (sym same) ∙ get_elem?-set_self r.handles i h' h e,
          quit ∙ ap (λ x. x.quit) eq ∙ quit_g,
        )
    | inr s ↦
        let differ : i ≢ j = λ t. absurd (let u = (==_iff i j).1 t in cc) in
        (g, get_elem?-set_ne r.handles i j h' differ ∙ there, quit_g)
  ];
}

field-Kept :
    (r : Registry) (i : ℕ) (h h' : Handle)
    → WellFormed r
    → get_elem? r.handles i ≡ some h
    → key h' ≡ key h
    → h'.quit ≡ h.quit
    → Kept r (write_handle r i h')
field-Kept r i h h' w e same quit =
    write_handle-Kept r i h h' r.lru
      (write_handle-WellFormed r i h h' r.lru w e same quit (λ j. refl) w.distinct) e quit

pub touch-Kept :
    (now : ℕ) (r : Registry) (i : ℕ)
    → WellFormed r
    → i < length r.handles
    → Leaves (Kept r) (touch now r i)
unfolding touch
touch-Kept now r i w lt =
    let (h, e) = get_elem?-some r.handles i lt in
    let h' = record h { last_used = now } in
    subst⁻¹ (Leaves (Kept r)) (deref-some r i h _ e) (
      write_handle-Kept r i h h' (move_to_front i r.lru)
        (write_handle-WellFormed r i h h' (move_to_front i r.lru) w e refl refl
          (λ j. find-move_to_front i j r.lru) (move_to_front-Distinct r.lru i w.distinct))
        e refl)

pub acquire-Kept :
    (now : ℕ) (r : Registry) (i : ℕ)
    → WellFormed r
    → i < length r.handles
    → Leaves (Kept r) (acquire now r i)
unfolding acquire
acquire-Kept now r i w lt =
    let (h, e) = get_elem?-some r.handles i lt in
    subst⁻¹ (Leaves (Kept r)) (deref-some r i h _ e) (field-Kept r i h _ w e refl refl)

pub release-Kept :
    (now : ℕ) (r : Registry) (i : ℕ)
    → WellFormed r
    → i < length r.handles
    → Leaves (Kept r) (release now r i)
unfolding release
release-Kept now r i w lt =
    let (h, e) = get_elem?-some r.handles i lt in
    subst⁻¹ (Leaves (Kept r)) (deref-some r i h _ e) (field-Kept r i h _ w e refl refl)

pub enqueue_enrichment-Kept :
    (r : Registry) (i : ℕ) (node_id : Bytes)
    → WellFormed r
    → i < length r.handles
    → Leaves (Kept r) (enqueue_enrichment r i node_id)
unfolding enqueue_enrichment
enqueue_enrichment-Kept r i node_id w lt =
    let (h, e) = get_elem?-some r.handles i lt in
    subst⁻¹ (Leaves (Kept r)) (deref-some r i h _ e) (elim (Bool-cases (ltb (length h.jobs) 1024)) [
      | inl s ↦ rw (s) (field-Kept r i h _ w e refl refl)
      | inr s ↦ rw (s) (Kept-refl r w)
    ])

opened-Kept :
    (now : ℕ) (r b : Registry) (tenant repo : String)
    → Shrinks r b
    → WellFormed (opened now b tenant repo)
    → Kept r (opened now b tenant repo)
opened-Kept now r b tenant repo s w = record {
  wf = w;
  grows = omega (arith, s.handles, length-append b.handles (new_handle now tenant repo ∷ []));
  serves =
      λ i (h, e, busy, quit). (h, get_elem?-append b.handles _ i h (s.keeps i h e busy).0, quit);
}

open_repo-Kept :
    (now : ℕ) (opening : Opening) (r : Registry) (tenant repo : String)
    → WellFormed r
    → cached r tenant repo ≡ none
    → Leaves (Kept r) (open_repo now opening r tenant repo)
open_repo-Kept now opening r tenant repo w none_yet =
    let o = open_repo-Opens now opening r tenant repo w in
    let absent_still = o.shrinks.absent (key_of tenant repo) none_yet in
    let shrunk = Shrinks-Kept r o.before o.wf o.shrinks in
    subst⁻¹ (Leaves (Kept r)) o.result (
      answer_of opening o.before shrunk (
        opened-Kept now r o.before tenant repo o.shrinks
          (opened-WellFormed now o.before tenant repo o.wf absent_still)))
  where
    answer_of :
        (opening : Opening) (b : Registry)
        → Kept r b
        → Kept r (opened now b tenant repo)
        → Leaves (Kept r) (answer now opening b tenant repo)
    answer_of opens b k k' = k'
    answer_of no_database b k k' = k
    answer_of no_pragmas b k k' = k
    answer_of no_schema b k k' = k

get_closed-Kept :
    (now : ℕ) (stat : Stat) (opening : Opening) (r : Registry) (tenant repo : String)
    → WellFormed r
    → cached r tenant repo ≡ none
    → Leaves (Kept r) (get_closed now stat opening r tenant repo)
unfolding get_closed
get_closed-Kept now absent opening r tenant repo w e = Kept-refl r w
get_closed-Kept now present opening r tenant repo w e = open_repo-Kept now opening r tenant repo w e
get_closed-Kept now failing opening r tenant repo w e = open_repo-Kept now opening r tenant repo w e

-- A handle of the map is there.
pub cached-lt :
    (r : Registry) (tenant repo : String) (i : ℕ)
    → WellFormed r
    → cached r tenant repo ≡ some i
    → i < length r.handles
cached-lt r tenant repo i w e =
    let (h, there, _, _, _) = w.linked i _ (w.listed _ i e) in get_elem?-lt r.handles i h there

pub get_slow-Kept :
    (now : ℕ) (stat : Stat) (opening : Opening) (r : Registry) (tenant repo : String)
    → WellFormed r
    → Leaves (Kept r) (get_slow now stat opening r tenant repo)
unfolding get_slow
get_slow-Kept now stat opening r tenant repo w = elim (Option-cases (cached r tenant repo)) [
  | inr (i, e) ↦ rw (Leaves, e) (touch-Kept now r i w (cached-lt r tenant repo i w e))
  | inl e ↦ rw (Leaves, e) (get_closed-Kept now stat opening r tenant repo w e)
]

pub get-Kept :
    (now : ℕ) (stat : Stat) (opening : Opening) (r : Registry) (tenant repo : String)
    → WellFormed r
    → Leaves (Kept r) (get now stat opening r tenant repo)
unfolding get
get-Kept now stat opening r tenant repo w = elim (Option-cases (cached r tenant repo)) [
  | inr (i, e) ↦ rw (Leaves, e) (touch-Kept now r i w (cached-lt r tenant repo i w e))
  | inl e ↦ rw (Leaves, e) (get_slow-Kept now stat opening r tenant repo w)
]

create_locked-Kept :
    (now : ℕ) (repo_dir segments_dir : Bool) (opening : Opening) (r : Registry)
    (tenant repo : String)
    → WellFormed r
    → Leaves (Kept r) (create_locked now repo_dir segments_dir opening r tenant repo)
unfolding create_locked
create_locked-Kept now false segments_dir opening r tenant repo w = Kept-refl r w
create_locked-Kept now true false opening r tenant repo w = Kept-refl r w
create_locked-Kept now true true opening r tenant repo w =
    elim (Option-cases (cached r tenant repo)) [
      | inr (i, e) ↦ rw (Leaves, e) (Kept-refl r w)
      | inl e ↦ rw (Leaves, e) (open_repo-Kept now opening r tenant repo w e)
    ]

pub create-Kept :
    (now : ℕ) (stat : Stat) (repo_dir segments_dir : Bool) (opening : Opening) (r : Registry)
    (tenant repo : String)
    → WellFormed r
    → Leaves (Kept r) (create now stat repo_dir segments_dir opening r tenant repo)
unfolding create create_locked
create-Kept now present repo_dir segments_dir opening r tenant repo w = Kept-refl r w
create-Kept now absent repo_dir segments_dir opening r tenant repo w =
    create_locked-Kept now repo_dir segments_dir opening r tenant repo w
create-Kept now failing repo_dir segments_dir opening r tenant repo w =
    create_locked-Kept now repo_dir segments_dir opening r tenant repo w

pub reap_idle-Kept : (now : ℕ) (r : Registry) → WellFormed r → Leaves (Kept r) (reap_idle now r)
unfolding reap_idle
reap_idle-Kept now r w =
    let reaped = reap_idle-Reaped (Registry × Error) now r w in
    rw (reaped.result) (Shrinks-Kept r reaped.after reaped.wf reaped.shrinks)
