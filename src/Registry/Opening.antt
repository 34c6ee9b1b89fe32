-- ===== src/Registry/Opening.antt =====
-- registry.go, openRepoLocked: what a new handle adds, and every outcome of an open.
use kai_server.Common.Maps.{lookup, put-Keyed, lookup-put_self, lookup-put_ne}
use kai_server.Common.{
  ℕ, ◌≡◌, ◌≢◌, refl, sym, ap, ◌∙◌, arith, false, String, none, some, inl, inr, length, get_elem?,
  All, Bool-cases, ◌==◌, ==_iff, str_eq, str_eq_iff,
}
use kai_server.Registry.State.{Registry, Error, key_of, find, opened, answer, open_repo, Opening}
use kai_server.Registry.Elements.{
  All-zip, find-All, get_elem?-append, get_elem?-append_length, get_elem?-lt,
}
use kai_server.Registry.Invariant.{WellFormed}
use kai_server.Registry.Shrinking.{Shrinks}
use kai_server.Registry.Capacity.{HasRoom, evict_loop-Roomy}

-- No element names a handle that is not there yet.
fresh_id : (r : Registry) → WellFormed r → All (λ e. length r.handles ≢ e.0) r.lru
fresh_id r w =
    All-zip (λ e. find e.0 r.lru ≡ some e.1) (λ e. find e.0 r.lru ≡ some e.1)
      (λ e. length r.handles ≢ e.0) r.lru
      (λ e f _ t.
        let (h, there, _, _, _) = w.linked e.0 e.1 f in
        omega (arith, get_elem?-lt r.handles e.0 h there))
      (find-All r.lru w.distinct) (find-All r.lru w.distinct)

pub opened-WellFormed :
    (now : ℕ) (r : Registry) (tenant repo : String)
    → WellFormed r
    → lookup (key_of tenant repo) r.repos ≡ none
    → WellFormed (opened now r tenant repo)
unfolding find
opened-WellFormed now r tenant repo w absent =
    let n = length r.handles in
    let here = lookup-put_self (key_of tenant repo) n r.repos in
    record {
      linked = λ i k f. elim (Bool-cases (n == i)) [
        | inl s ↦
            let same = (==_iff n i).0 s in
            let named : some (key_of tenant repo) ≡ some k = sym (rw (s) refl) ∙ f in
            (
              _,
              ap (get_elem? (opened now r tenant repo).handles) (sym same)
                  ∙ get_elem?-append_length r.handles _,
              (cc),
              refl,
              ap (λ x. lookup x (opened now r tenant repo).repos) (cc) ∙ here ∙ ap some same,
            )
        | inr s ↦
            let before : find i r.lru ≡ some k = sym (rw (s) refl) ∙ f in
            let (h, there, named, quit, entry) = w.linked i k before in
            (
              h,
              get_elem?-append r.handles _ i h there,
              named,
              quit,
              lookup-put_ne (key_of tenant repo) k n r.repos
                    (λ t. absurd (let gone = ap (λ x. lookup x r.repos) t in cc))
                  ∙ entry,
            )
      ];
      listed = λ k i f. elim (Bool-cases (str_eq (key_of tenant repo) k)) [
        | inl s ↦
            let same = (str_eq_iff (key_of tenant repo) k).0 s in
            let found = ap (λ x. lookup x (opened now r tenant repo).repos) (sym same) ∙ here in
            let id : n ≡ i = cc in rw ((==_iff n i).1 id) (ap some same)
        | inr s ↦
            let apart : key_of tenant repo ≢ k =
              λ t. absurd (let u = (str_eq_iff (key_of tenant repo) k).1 t in cc) in
            let before =
              w.listed k i (sym (lookup-put_ne (key_of tenant repo) k n r.repos apart) ∙ f) in
            let (h, there, _, _, _) = w.linked i k before in
            let differ : (n == i) ≡ false = ground (arith, get_elem?-lt r.handles i h there) in
            rw (differ) before
      ];
      distinct = (fresh_id r w, w.distinct);
      keyed = put-Keyed (key_of tenant repo) n r.repos w.keyed;
      bounded = w.bounded;
    }

pub record Opens (now : ℕ) (opening : Opening) (r : Registry) (tenant repo : String) : Type 0 where
  pub before : Registry
  pub result : open_repo now opening r tenant repo ≡ answer now opening before tenant repo
  pub wf : WellFormed before
  pub shrinks : Shrinks r before
  pub room : HasRoom before

pub open_repo-Opens :
    (now : ℕ) (opening : Opening) (r : Registry) (tenant repo : String)
    → WellFormed r
    → Opens now opening r tenant repo
unfolding open_repo
open_repo-Opens now opening r tenant repo w =
    let l = evict_loop-Roomy (Registry × Error) (length r.repos) r w (omega arith) in
    record {
      before = l.after;
      result = rw (l.result) refl;
      wf = l.wf;
      shrinks = l.shrinks;
      room = l.room;
    }
