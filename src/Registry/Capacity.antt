-- ===== src/Registry/Capacity.antt =====
-- registry.go, openRepoLocked: the loop that makes room, and the bound on open repositories.
use mathlib.Core.Path.{subst⁻¹}
use kai_server.Common.Maps.{lookup, length-delete_present}
use kai_server.Common.{
  ℕ, zero, suc, ◌≤◌, ◌<◌, ◌≡◌, refl, ap, ◌∙◌, arith, false, ◌⊎◌, inl, inr, Result, ok, length, All,
  Bool-cases, leb, leb→le,
}
use kai_server.Registry.State.{Registry, key, evict_loop}
use kai_server.Registry.Invariant.{WellFormed, closed, closed-WellFormed}
use kai_server.Registry.Eviction.{Busy, Eviction, evict_one-cases}
use kai_server.Registry.Shrinking.{Shrinks, Shrinks-refl, Shrinks-trans, closed-Shrinks}

-- There is room for one more repository, or every open one has an active request.
abbrev pub HasRoom : Registry → Type 0
HasRoom r = (length r.repos < r.max_open) ⊎ All (Busy r) r.lru

pub record Roomy (E : Type 0) (r : Registry) (o : Result E Registry) : Type 0 where
  pub after : Registry
  pub result : o ≡ ok after
  pub wf : WellFormed after
  pub shrinks : Shrinks r after
  pub room : HasRoom after

leb-false : (a b : ℕ) → leb a b ≡ false → b < a
leb-false a b h = ground arith

Eviction-keeps :
    (r r' : Registry)
    → WellFormed r
    → Eviction r r.lru r'
    → WellFormed r' × Shrinks r r' × (length r'.repos < length r.repos)
Eviction-keeps r r' w ev =
    let e = ev.result in
    let c = closed r ev.id ev.handle in
    let (_, _, _, _, here) = w.linked ev.id ev.repo ev.found in
    let mapped = ap (λ n. lookup n r.repos) ev.named ∙ here in
    (
      subst⁻¹ WellFormed e
          (closed-WellFormed r ev.id ev.repo ev.handle w ev.found ev.opened ev.named),
      subst⁻¹ (Shrinks r) e (closed-Shrinks r ev.id ev.handle ev.opened ev.inactive),
      subst⁻¹ (λ q. length q.repos < length r.repos) e
          (length-delete_present (key ev.handle) ev.id r.repos mapped),
    )

-- One round for each open repository is enough.
pub evict_loop-Roomy :
    (E : Type 0) (fuel : ℕ) (r : Registry)
    → WellFormed r
    → length r.repos ≤ fuel
    → Roomy E r (evict_loop fuel r)
unfolding evict_loop
evict_loop-Roomy E zero r w le = record {
  after = r;
  result = elim (Bool-cases (leb r.max_open (length r.repos))) [
    | inl e ↦ absurd (omega (arith, w.bounded, leb→le r.max_open (length r.repos) e))
    | inr e ↦ rw (e) refl
  ];
  wf = w;
  shrinks = Shrinks-refl r;
  room = inl (omega (arith, w.bounded));
}
evict_loop-Roomy E (suc fuel) r w le = elim (Bool-cases (leb r.max_open (length r.repos))) [
  | inr e ↦ record {
    after = r;
    result = rw (e) refl;
    wf = w;
    shrinks = Shrinks-refl r;
    room = inl (leb-false r.max_open (length r.repos) e);
  }
  | inl e ↦ elim (evict_one-cases E r w) [
    | inl (stays, busy) ↦ record {
      after = r;
      result = rw (e) (rw (stays) refl);
      wf = w;
      shrinks = Shrinks-refl r;
      room = inr busy;
    }
    | inr (r', evicted, ev) ↦
        let (w', s, less) = Eviction-keeps r r' w ev in
        let rest = evict_loop-Roomy E fuel r' w' (omega arith) in
        record {
          after = rest.after;
          result = rw (e) (rw (evicted) rest.result);
          wf = rest.wf;
          shrinks = Shrinks-trans r r' rest.after s rest.shrinks;
          room = rest.room;
        }
  ]
]
