-- ===== src/Routing/RoundRobin.antt =====
-- picker.go, PickShardRoundRobin: the order of its picks, and when it panics.
use native.Mathlib.Nat.{mod-eq_of_lt, mod-lt, mod_self}
use kai_server.Common.{
  ℕ, zero, suc, ◌+◌, ◌%◌, ◌≤◌, ◌<◌, ◌≡◌, ◌⊎◌, refl, sym, ap, ◌∙◌, arith, false, none, some, List,
  [], ◌∷◌, String, ◌==◌, length, get_elem?, take, drop, ok, panic, take-le, Bool-cases, inl, inr,
}
use kai_server.Common.Bytes.{Bytes}
use kai_server.Routing.{
  ShardPicker, names_of, new_shard_picker, update_shards, pick_shard_round_robin,
  pick_shard_by_hash, sum64, picks,
}

get_elem?-lt :
    {A : Type 0}
    → (xs : List A) (i : ℕ) → i < length xs
    → (x : A) × (get_elem? xs i ≡ some x) × (drop i xs ≡ x ∷ drop (suc i) xs)
get_elem?-lt [] i h = elim h [ ]
get_elem?-lt (x ∷ xs) zero h = (x, refl, refl)
get_elem?-lt (x ∷ xs) (suc i) h = get_elem?-lt xs i (omega arith)

get_elem?-ge : {A : Type 0} → (xs : List A) (i : ℕ) → length xs ≤ i → get_elem? xs i ≡ none
get_elem?-ge [] i h = refl
get_elem?-ge (x ∷ xs) zero h = absurd (omega arith)
get_elem?-ge (x ∷ xs) (suc i) h = get_elem?-ge xs i (omega arith)

pick_shard_round_robin_inside :
    (p : ShardPicker)
    → p.next < length p.names
    → (x : String) × (pick_shard_round_robin p
        ≡ ok (x, record p { next = (p.next + 1) % length p.names }))
      × (drop p.next p.names ≡ x ∷ drop (suc p.next) p.names)
unfolding pick_shard_round_robin
pick_shard_round_robin_inside p h =
    let (x, found, split) = get_elem?-lt p.names p.next h in
    let some_names : (length p.names == 0) ≡ false = ground arith in
    (x, rw (some_names, found), split)

picks-suc :
    (k : ℕ) (p : ShardPicker) (x : String) {xs : List String} {p' p'' : ShardPicker}
    → pick_shard_round_robin p ≡ ok (x, p')
    → picks k p' ≡ ok (xs, p'')
    → picks (suc k) p ≡ ok (x ∷ xs, p'')
unfolding picks
picks-suc k p x h g = rw (h, g)

-- Picks from a picker whose index is on a name give the names from there on in their order, as long
-- as they do not pass the end of the list, and leave the index behind them, at 0 behind the last.
pub picks-take :
    (k : ℕ) (p : ShardPicker)
    → p.next < length p.names
    → p.next + k ≤ length p.names
    → picks k p
      ≡ ok (take k (drop p.next p.names), record p { next = (p.next + k) % length p.names })
unfolding picks
picks-take zero p lt h =
    let same : p.next ≡ (p.next + 0) % length p.names =
      ap (λ n. n) (omega arith) ∙ sym (mod-eq_of_lt {n = p.next + 0} (omega arith)) in
    ap (λ n. ok ([], record p { next = n })) same
picks-take (suc zero) p lt h =
    let (x, pick, split) = pick_shard_round_robin_inside p lt in rw (pick, split)
picks-take (suc (suc k)) p lt h =
    let (x, pick, split) = pick_shard_round_robin_inside p lt in
    let step : (p.next + 1) % length p.names ≡ suc p.next =
      mod-eq_of_lt {n = p.next + 1} (omega arith) ∙ omega arith in
    let rest = picks-take (suc k) (record p { next = suc p.next }) (omega arith) (omega arith) in
    let moved : suc p.next + suc k ≡ p.next + suc (suc k) = omega arith in
    picks-suc (suc k) p x (pick ∙ ap (λ n. ok (x, record p { next = n })) step) rest
    ∙ rw (split, moved)

-- After UpdateShards with names, but no more of them than the index, the next pick panics.
pub pick_shard_round_robin-update_shards :
    (shards : List (String × String)) (p : ShardPicker)
    → zero < length (names_of shards)
    → length (names_of shards) ≤ p.next
    → pick_shard_round_robin (update_shards shards p) ≡ panic
unfolding pick_shard_round_robin update_shards
pick_shard_round_robin-update_shards shards p ne h =
    let some_names : (length (names_of shards) == 0) ≡ false = ground arith in
    rw (some_names, get_elem?-ge (names_of shards) p.next h)

-- From a new picker with some shard, as many picks as there are shards give every shard once, in
-- the order of the list, and the picker is as new.
pub picks-new_shard_picker :
    (shards : List (String × String))
    → zero < length (names_of shards)
    → picks (length (names_of shards)) (new_shard_picker shards)
      ≡ ok (names_of shards, new_shard_picker shards)
unfolding new_shard_picker
picks-new_shard_picker shards h =
    let none_before : 0 + length (names_of shards) ≡ length (names_of shards) = omega arith in
    picks-take (length (names_of shards)) (new_shard_picker shards) h (omega arith)
    ∙ rw (
      take-le (length (names_of shards)) (names_of shards) (omega arith),
      none_before,
      mod_self (length (names_of shards)),
    )

-- PickShardByHash does not panic: it gives one of the names, or "default" if there is none, and
-- leaves the picker.
pub pick_shard_by_hash_total :
    (org_id : Bytes) (p : ShardPicker)
    → ((length p.names ≡ zero) × (pick_shard_by_hash org_id p ≡ ok ("default", p)))
      ⊎ ((i : ℕ) × (x : String) × (get_elem? p.names i ≡ some x)
          × (pick_shard_by_hash org_id p ≡ ok (x, p)))
unfolding pick_shard_by_hash
pick_shard_by_hash_total org_id p = elim (Bool-cases (length p.names == 0)) [
  | inl e ↦ inl (ground arith, rw e)
  | inr e ↦
      let (x, found, _) =
        get_elem?-lt p.names (sum64 org_id % length p.names)
          (mod-lt (sum64 org_id) (ground arith)) in
      inr (sum64 org_id % length p.names, x, found, rw (e, found))
]
