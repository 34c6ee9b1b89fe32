-- ===== src/Registry/Eviction.antt =====
-- registry.go, evictOneLocked: which handle it closes, and what the loop around it leaves.
use kai_server.Common.{
  ℕ, ◌≡◌, ◌≢◌, refl, ap, ◌∙◌, true, false, List, [], ◌∷◌, ◌++◌, String, some, ◌⊎◌, inl, inr, ok,
  ◌>>=◌, get_elem?, All, Bool-cases, ◌==◌, ==_iff,
}
use kai_server.Registry.State.{Registry, Handle, key, find, evict_inactive, evict_from, evict_one}
use kai_server.Registry.Elements.{find-All}
use kai_server.Registry.Invariant.{WellFormed, closed, close_repo-ok, entry-some}

-- The element's handle has an active request.
abbrev pub Busy : Registry → ℕ × String → Type 0
Busy r (i, k) = (h : Handle) × (get_elem? r.handles i ≡ some h) × (h.active ≢ 0)

-- The last element whose handle has no active request, and the registry without it.
pub record Eviction (r : Registry) (l : List (ℕ × String)) (r' : Registry) : Type 0 where
  pub before : List (ℕ × String)
  pub after : List (ℕ × String)
  pub id : ℕ
  pub repo : String
  pub handle : Handle
  pub place : l ≡ before ++ ((id, repo) ∷ after)
  pub busy_after : All (Busy r) after
  pub found : find id r.lru ≡ some repo
  pub opened : get_elem? r.handles id ≡ some handle
  pub named : key handle ≡ repo
  pub inactive : handle.active ≡ 0
  pub result : r' ≡ closed r id handle

evict_inactive-idle :
    (E : Type 0) (r : Registry) (i : ℕ) (h : Handle)
    → get_elem? r.handles i ≡ some h
    → h.quit ≡ false
    → (h.active == 0) ≡ true
    → evict_inactive {E = E} r i h ≡ ok (true, closed r i h)
evict_inactive-idle E r i h e quit idle =
    rw (idle) (ap (λ o. o >>= λ r'. ok (true, r')) (close_repo-ok E r i h e quit))

evict_from-cases :
    (E : Type 0) (l : List (ℕ × String)) (r : Registry)
    → WellFormed r
    → All (λ e. find e.0 r.lru ≡ some e.1) l
    → ((evict_from {E = E} l r ≡ ok (false, r)) × All (Busy r) l)
      ⊎ ((r' : Registry) × (evict_from {E = E} l r ≡ ok (true, r')) × Eviction r l r')
unfolding evict_from
evict_from-cases E [] r w p = inl (refl, tt)
evict_from-cases E ((i, k) ∷ l) r w (f, p) = elim (evict_from-cases E l r w p) [
  | inr (r', e, ev) ↦ inr (
    r',
    rw (e) refl,
    record {
      before = (i, k) ∷ ev.before;
      after = ev.after;
      id = ev.id;
      repo = ev.repo;
      handle = ev.handle;
      place = ap (λ t. (i, k) ∷ t) ev.place;
      busy_after = ev.busy_after;
      found = ev.found;
      opened = ev.opened;
      named = ev.named;
      inactive = ev.inactive;
      result = ev.result;
    },
  )
  | inl (e, busy) ↦
      let (h, opened, named, quit, here) = w.linked i k f in
      let at_element = entry-some {E = E} r i k h (evict_inactive r) here opened in
      elim (Bool-cases (h.active == 0)) [
        | inr s ↦ inl (
          rw (e) (at_element ∙ rw (s) refl),
          ((h, opened, λ z. absurd (let t = (==_iff h.active 0).1 z in cc)), busy),
        )
        | inl s ↦ inr (
          closed r i h,
          rw (e) (at_element ∙ evict_inactive-idle E r i h opened quit s),
          record {
            before = [];
            after = l;
            id = i;
            repo = k;
            handle = h;
            place = refl;
            busy_after = busy;
            found = f;
            opened = opened;
            named = named;
            inactive = (==_iff h.active 0).0 s;
            result = refl;
          },
        )
      ]
]

pub evict_one-cases :
    (E : Type 0) (r : Registry)
    → WellFormed r
    → ((evict_one {E = E} r ≡ ok (false, r)) × All (Busy r) r.lru)
      ⊎ ((r' : Registry) × (evict_one {E = E} r ≡ ok (true, r')) × Eviction r r.lru r')
evict_one-cases E r w = evict_from-cases E r.lru r w (find-All r.lru w.distinct)
