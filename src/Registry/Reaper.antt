-- ===== src/Registry/Reaper.antt =====
-- registry.go, reapIdle: it closes the idle handles and no other.
use kai_server.Common.{
  ℕ, ◌+◌, ◌≡◌, ◌≢◌, refl, sym, ap, ◌∙◌, arith, true, false, ◌&&◌, List, [], ◌∷◌, String, none, some,
  ◌⊎◌, inl, inr, ok, get_elem?, All, Bool-cases, ◌==◌, ltb, if◌then◌else◌,
}
use kai_server.Registry.State.{Registry, Handle, find, is_idle, reap_from, close_repo}
use kai_server.Registry.Elements.{
  Distinct, All-zip, find-All, find-remove_element_self, find-remove_element_ne, get_elem?-set_self,
  get_elem?-set_ne,
}
use kai_server.Registry.Invariant.{WellFormed, closed, close_repo-ok, closed-WellFormed, entry-some}
use kai_server.Registry.Shrinking.{Shrinks, Shrinks-refl, Shrinks-trans, closed-Shrinks}

-- What becomes of one element: a handle that is idle is closed, its quit channel closed and its
-- element gone, and otherwise unchanged; any other stays as it was.
abbrev pub Sorted : ℕ → Registry → Registry → ℕ × String → Type 0
Sorted now r r' (i, k) =
    (h : Handle)
    → get_elem? r.handles i ≡ some h
    → ((is_idle now r h ≡ true)
        × (find i r'.lru ≡ none)
        × (get_elem? r'.handles i ≡ some (record h { quit = true })))
      ⊎ ((is_idle now r h ≡ false) × (find i r'.lru ≡ some k) × (get_elem? r'.handles i ≡ some h))

pub record Reaped (E : Type 0) (now : ℕ) (l : List (ℕ × String)) (r : Registry) : Type 0 where
  pub after : Registry
  pub result : reap_from {E = E} now l r ≡ ok after
  pub wf : WellFormed after
  pub shrinks : Shrinks r after
  pub outside :
      (j : ℕ)
      → All (λ e. j ≢ e.0) l
      → (find j after.lru ≡ find j r.lru) × (get_elem? after.handles j ≡ get_elem? r.handles j)
  pub inside : All (Sorted now r after) l

idle-active : (h : Handle) (now : ℕ) (r : Registry) → is_idle now r h ≡ true → h.active ≡ 0
idle-active h now r e = ground arith

reap_from-Reaped :
    (E : Type 0) (now : ℕ) (l : List (ℕ × String)) (r : Registry)
    → WellFormed r
    → All (λ e. find e.0 r.lru ≡ some e.1) l
    → Distinct l
    → Reaped E now l r
unfolding reap_from
reap_from-Reaped E now [] r w p d = record {
  after = r;
  result = refl;
  wf = w;
  shrinks = Shrinks-refl r;
  outside = λ j a. (refl, refl);
  inside = tt;
}
reap_from-Reaped E now ((i, k) ∷ l) r w (f, p) (a, d) =
    let rest = reap_from-Reaped E now l r w p d in
    let r' = rest.after in
    let (same_find, same_handle) = rest.outside i a in
    let f' = same_find ∙ f in
    let (h, there, named, quit, here) = rest.wf.linked i k f' in
    let before = sym same_handle ∙ there in
    let at_element =
      entry-some {E = E} r' i k h (λ j g. if is_idle now r' g then close_repo r' j else ok r') here
        there in
    let same_idle : is_idle now r' h ≡ is_idle now r h =
      ap (λ t. h.active == 0 && ltb (h.last_used + t) now) rest.shrinks.idle_ttl in
    elim (Bool-cases (is_idle now r' h)) [
      | inl s ↦
          let c = closed r' i h in
          let zero_active = idle-active h now r' s in
          record {
            after = c;
            result = rw (rest.result) (at_element ∙ rw (s) (close_repo-ok E r' i h there quit));
            wf = closed-WellFormed r' i k h rest.wf f' there named;
            shrinks = Shrinks-trans r r' c rest.shrinks (closed-Shrinks r' i h there zero_active);
            outside = λ j (differ, others).
                let (u, v) = rest.outside j others in
                let apart : i ≢ j = λ t. differ (sym t) in
                (
                  find-remove_element_ne i j r'.lru apart ∙ u,
                  get_elem?-set_ne r'.handles i j _ apart ∙ v,
                );
            inside = (
              (λ g e. inl (
                (let one : h ≡ g = cc in ap (is_idle now r) (sym one) ∙ sym same_idle ∙ s),
                find-remove_element_self i r'.lru,
                get_elem?-set_self r'.handles i (record h { quit = true }) h there
                    ∙ ap {A = Handle} (λ f. some (record f { quit = true }))
                        (let one : h ≡ g = cc in one),
              )),
              All-zip (λ e. i ≢ e.0) (Sorted now r r') (Sorted now r c) l
                  (λ e apart sorted g there_g. elim (sorted g there_g) [
                    | inl (idle, gone, quit_closed) ↦ inl (
                      idle,
                      find-remove_element_ne i e.0 r'.lru apart ∙ gone,
                      get_elem?-set_ne r'.handles i e.0 _ apart ∙ quit_closed,
                    )
                    | inr (live, stays, kept) ↦ inr (
                      live,
                      find-remove_element_ne i e.0 r'.lru apart ∙ stays,
                      get_elem?-set_ne r'.handles i e.0 _ apart ∙ kept,
                    )
                  ])
                  a rest.inside,
            );
          }
      | inr s ↦ record {
        after = r';
        result = rw (rest.result) (at_element ∙ rw (s) refl);
        wf = rest.wf;
        shrinks = rest.shrinks;
        outside = λ j (differ, others). rest.outside j others;
        inside = (
          (λ g e.
              let one : h ≡ g = cc in
              inr (ap (is_idle now r) (sym one) ∙ sym same_idle ∙ s, f', there ∙ ap some one)),
          rest.inside,
        );
      }
    ]

pub reap_idle-Reaped : (E : Type 0) (now : ℕ) (r : Registry) → WellFormed r → Reaped E now r.lru r
reap_idle-Reaped E now r w = reap_from-Reaped E now r.lru r w (find-All r.lru w.distinct) w.distinct
