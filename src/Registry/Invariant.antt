-- ===== src/Registry/Invariant.antt =====
-- registry.go: the invariant that ties the map, the LRU list and the handles, and the two changes
-- that keep it.
use kai_server.Common.Maps.{
  lookup, delete, Keyed, delete-Keyed, lookup-delete_self, lookup-delete_ne,
}
use kai_server.Common.{
  ℕ, ◌<◌, ◌≡◌, ◌≢◌, refl, sym, ap, ◌∙◌, true, false, List, String, none, some, inl, inr, Result, ok,
  get_elem?, set, Bool-cases, ◌==◌, ==_iff, str_eq, str_eq_iff,
}
use kai_server.Registry.State.{
  Registry, Handle, key, find, remove_element, pointee, deref, mapped, entry, write_handle,
  close_repo,
}
use kai_server.Registry.Elements.{
  Distinct, find-remove_element, find-remove_element_ne, remove_element-Distinct,
  get_elem?-set_self, get_elem?-set_ne,
}

-- An element of the list belongs to an open handle, which the map has under the element's key.
abbrev pub Linked : List Handle → List (String × ℕ) → ℕ → String → Type 0
Linked hs m i k =
    (h : Handle) × (get_elem? hs i ≡ some h)
    × (key h ≡ k)
    × (h.quit ≡ false)
    × (lookup k m ≡ some i)

pub record WellFormed (r : Registry) : Type 0 where
  pub linked : (i : ℕ) (k : String) → find i r.lru ≡ some k → Linked r.handles r.repos i k
  pub listed : (k : String) (i : ℕ) → lookup k r.repos ≡ some i → find i r.lru ≡ some k
  pub distinct : Distinct r.lru
  pub keyed : Keyed r.repos
  pub bounded : 0 < r.max_open

-- The registry after a handle is closed.
abbrev pub closed : Registry → ℕ → Handle → Registry
closed r i h = record r {
  handles = set r.handles i (record h { quit = true });
  lru = remove_element i r.lru;
  repos = delete (key h) r.repos;
}

pub deref-some {ℓ} :
    {E : Type 0} {A : Type ℓ} (r : Registry) (i : ℕ) (h : Handle) (next : Handle → Result E A)
    → get_elem? r.handles i ≡ some h
    → deref r i next ≡ next h
unfolding pointee
deref-some r i h next e = ap (λ o. pointee o next) e

-- What the list has is in the map, under its key.
pub entry-some {ℓ} :
    {E : Type 0} {A : Type ℓ} (r : Registry) (i : ℕ) (k : String) (h : Handle)
    (next : ℕ → Handle → Result E A)
    → lookup k r.repos ≡ some i
    → get_elem? r.handles i ≡ some h
    → entry r k next ≡ next i h
unfolding mapped
entry-some r i k h next here e =
    ap (λ o. mapped o λ j. deref r j (next j)) here ∙ deref-some r i h (next i) e

-- To close an open handle does not panic.
pub close_repo-ok :
    (E : Type 0) (r : Registry) (i : ℕ) (h : Handle)
    → get_elem? r.handles i ≡ some h
    → h.quit ≡ false
    → close_repo {E = E} r i ≡ ok (closed r i h)
unfolding close_repo
close_repo-ok E r i h e quit = deref-some r i h _ e ∙ rw (quit) refl

pub closed-WellFormed :
    (r : Registry) (i : ℕ) (k : String) (h : Handle)
    → WellFormed r
    → find i r.lru ≡ some k
    → get_elem? r.handles i ≡ some h
    → key h ≡ k
    → WellFormed (closed r i h)
closed-WellFormed r i k h w f e same = record {
  linked = λ j k' f'.
      let (differ, before) = find-remove_element i j k' r.lru f' in
      let (h', e', same', quit', entry) = w.linked j k' before in
      let (_, _, _, _, here) = w.linked i k f in
      let apart : key h ≢ k' = λ s. differ (cc) in
      (
        h',
        get_elem?-set_ne r.handles i j _ differ ∙ e',
        same',
        quit',
        lookup-delete_ne (key h) k' r.repos apart ∙ entry,
      );
  listed = λ k' j f'. elim (Bool-cases (str_eq (key h) k')) [
    | inl s ↦ absurd (
        let gone : lookup k' (delete (key h) r.repos) ≡ none =
          ap (λ n. lookup n (delete (key h) r.repos)) (sym ((str_eq_iff (key h) k').0 s))
          ∙ lookup-delete_self (key h) r.repos in
        cc)
    | inr s ↦
        let apart : key h ≢ k' = λ t. absurd (let u = (str_eq_iff (key h) k').1 t in cc) in
        let before = w.listed k' j (sym (lookup-delete_ne (key h) k' r.repos apart) ∙ f') in
        let differ : i ≢ j = λ t. apart (let there = ap (λ n. find n r.lru) t in cc) in
        find-remove_element_ne i j r.lru differ ∙ before
  ];
  distinct = remove_element-Distinct r.lru i w.distinct;
  keyed = delete-Keyed (key h) r.repos w.keyed;
  bounded = w.bounded;
}

-- To write a handle's other fields, where the list has the same elements, keeps the invariant.
pub write_handle-WellFormed :
    (r : Registry) (i : ℕ) (h h' : Handle) (l : List (ℕ × String))
    → WellFormed r
    → get_elem? r.handles i ≡ some h
    → key h' ≡ key h
    → h'.quit ≡ h.quit
    → ((j : ℕ) → find j l ≡ find j r.lru)
    → Distinct l
    → WellFormed (record (write_handle r i h') { lru = l })
write_handle-WellFormed r i h h' l w e same quit finds d = record {
  linked = λ j k f.
      let (g, eg, same_g, quit_g, entry) = w.linked j k (sym (finds j) ∙ f) in
      elim (Bool-cases (i == j)) [
        | inl s ↦
            let t = (==_iff i j).0 s in
            let here : get_elem? r.handles j ≡ some h =
              ap (λ n. get_elem? r.handles n) (sym t) ∙ e in
            let wrote : get_elem? (set r.handles i h') j ≡ some h' =
              ap (λ n. get_elem? (set r.handles i h') n) (sym t)
              ∙ get_elem?-set_self r.handles i h' h e in
            (h', wrote, (cc), (cc), entry)
        | inr s ↦
            let differ : i ≢ j = λ t. absurd (let u = (==_iff i j).1 t in cc) in
            (g, get_elem?-set_ne r.handles i j h' differ ∙ eg, same_g, quit_g, entry)
      ];
  listed = λ k j f. finds j ∙ w.listed k j f;
  distinct = d;
  keyed = w.keyed;
  bounded = w.bounded;
}
