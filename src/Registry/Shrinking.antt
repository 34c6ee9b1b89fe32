-- ===== src/Registry/Shrinking.antt =====
-- registry.go: what evictions and the idle reaper leave alone.
use kai_server.Common.Maps.{lookup, lookup-delete_self, lookup-delete_ne}
use kai_server.Common.{
  ℕ, ◌≡◌, ◌≢◌, refl, sym, ap, ◌∙◌, String, none, some, inl, inr, length, length-set, get_elem?,
  Bool-cases, str_eq, str_eq_iff,
}
use kai_server.Registry.State.{Registry, Handle, key, find}
use kai_server.Registry.Elements.{find-remove_element_ne, get_elem?-set_ne}
use kai_server.Registry.Invariant.{closed}

-- From `r` to `r'` only handles without an active request were closed, and nothing was opened.
pub record Shrinks (r r' : Registry) : Type 0 where
  pub max_open : r'.max_open ≡ r.max_open
  pub idle_ttl : r'.idle_ttl ≡ r.idle_ttl
  pub handles : length r'.handles ≡ length r.handles
  pub absent : (k : String) → lookup k r.repos ≡ none → lookup k r'.repos ≡ none
  pub keeps :
      (i : ℕ) (h : Handle)
      → get_elem? r.handles i ≡ some h
      → h.active ≢ 0
      → (get_elem? r'.handles i ≡ some h) × (find i r'.lru ≡ find i r.lru)

pub Shrinks-refl : (r : Registry) → Shrinks r r
Shrinks-refl r = record {
  max_open = refl;
  idle_ttl = refl;
  handles = refl;
  absent = λ k e. e;
  keeps = λ i h e a. (e, refl);
}

pub Shrinks-trans : (r s t : Registry) → Shrinks r s → Shrinks s t → Shrinks r t
Shrinks-trans r s t p q = record {
  max_open = q.max_open ∙ p.max_open;
  idle_ttl = q.idle_ttl ∙ p.idle_ttl;
  handles = q.handles ∙ p.handles;
  absent = λ k e. q.absent k (p.absent k e);
  keeps =
      λ i h e a. let (e', f) = p.keeps i h e a in let (e'', g) = q.keeps i h e' a in (e'', g ∙ f);
}

pub closed-Shrinks :
    (r : Registry) (i : ℕ) (h : Handle)
    → get_elem? r.handles i ≡ some h
    → h.active ≡ 0
    → Shrinks r (closed r i h)
closed-Shrinks r i h e z = record {
  max_open = refl;
  idle_ttl = refl;
  handles = length-set r.handles i _;
  absent = λ k e'. elim (Bool-cases (str_eq (key h) k)) [
    | inl s ↦
        ap (λ n. lookup n (closed r i h).repos) (sym ((str_eq_iff (key h) k).0 s))
        ∙ lookup-delete_self (key h) r.repos
    | inr s ↦
        lookup-delete_ne (key h) k r.repos (λ t. absurd (let u = (str_eq_iff (key h) k).1 t in cc))
        ∙ e'
  ];
  keeps = λ j g e' a.
      let differ : i ≢ j = λ t. a (
        let same : get_elem? r.handles i ≡ some g = ap (get_elem? r.handles) t ∙ e' in
        let one : h ≡ g = cc in ap (λ x. x.active) (sym one) ∙ z) in
      (get_elem?-set_ne r.handles i j _ differ ∙ e', find-remove_element_ne i j r.lru differ);
}
