-- ===== src/Cas/Ids.antt =====
-- cas.go: values that differ only in the order of the entries of their maps have the same canonical
-- bytes, so that the id of a node is a function of the value without that order.
use mathlib.Core.Path.{subst, ap₂}
use mathlib.Core.Quot
use mathlib.Core.Quot.{Quot, Quot-set}
use kai_server.Common.Bytes.{Bytes, bytes_eq, bytes_eq_iff}
use kai_server.Common.{◌≡◌, ◌≢◌, refl, ap, ◌∙◌, arith, List, [], ◌∷◌, ◌++◌, map, if◌then◌else◌}
use kai_server.Cas.Json.{
  Json, scalar, array, object, Items, no_items, item, Entries, no_entries, entry, Scalar,
  sort_by_bytes, insert_by_bytes, value_at, keys_of, separated, member, marshal_sorted_map,
  marshal_array, canonical_marshal, canonical_items, canonical_entries, node_id,
}
use kai_server.Cas.Order.{insert_by_bytes_comm}

-- The same value: entries with different keys may change places, at every depth.
mutual
  pub data Same : Json → Json → Type 0 where
    same_scalar : (s : Scalar) → Same (scalar s) (scalar s)
    same_array : (xs ys : Items) → SameItems xs ys → Same (array xs) (array ys)
    same_object : (m n : Entries) → SameEntries m n → Same (object m) (object n)

  pub data SameItems : Items → Items → Type 0 where
    same_none : SameItems no_items no_items
    same_item :
        (x y : Json) (xs ys : Items)
        → Same x y
        → SameItems xs ys
        → SameItems (item x xs) (item y ys)

  pub data SameEntries : Entries → Entries → Type 0 where
    same_end : SameEntries no_entries no_entries
    same_entry :
        (k : Bytes) (x y : Json) (m n : Entries)
        → Same x y
        → SameEntries m n
        → SameEntries (entry k x m) (entry k y n)
    swap :
        (k l : Bytes) (x y : Json) (m : Entries)
        → k ≢ l
        → SameEntries (entry k x (entry l y m)) (entry l y (entry k x m))
    then_same : (m n o : Entries) → SameEntries m n → SameEntries n o → SameEntries m o

-- What marshalSortedMap reads of a list of entries: its sorted keys and the value at each key.
pub record Alike (m n : List (Bytes × Bytes)) : Type 0 where
  pub keys : sort_by_bytes (keys_of m) ≡ sort_by_bytes (keys_of n)
  pub values : (k : Bytes) → value_at k m ≡ value_at k n

value_at-swap :
    (k l v w : Bytes) (m : List (Bytes × Bytes)) (j : Bytes)
    → k ≢ l
    → value_at j ((k, v) ∷ (l, w) ∷ m) ≡ value_at j ((l, w) ∷ (k, v) ∷ m)
unfolding value_at
value_at-swap k l v w m j differ = ground (arith, bytes_eq_iff k j, bytes_eq_iff l j)

swap-Alike :
    (k l v w : Bytes) (m : List (Bytes × Bytes))
    → k ≢ l
    → Alike ((k, v) ∷ (l, w) ∷ m) ((l, w) ∷ (k, v) ∷ m)
unfolding sort_by_bytes keys_of
swap-Alike k l v w m differ = record {
  keys = insert_by_bytes_comm k l (sort_by_bytes (keys_of m));
  values = λ j. value_at-swap k l v w m j differ;
}

cons-Alike :
    (k v : Bytes) (m n : List (Bytes × Bytes)) → Alike m n → Alike ((k, v) ∷ m) ((k, v) ∷ n)
unfolding sort_by_bytes keys_of value_at
cons-Alike k v m n a = record {
  keys = ap (insert_by_bytes k) a.keys;
  values = λ j. ap (λ r. if bytes_eq k j then v else r) (a.values j);
}

module _ (print_scalar : Scalar → Bytes) (print_key : Bytes → Bytes) where
  members_cong :
      (m n : List (Bytes × Bytes)) (ks : List Bytes)
      → ((k : Bytes) → value_at k m ≡ value_at k n)
      → map (member print_scalar print_key m) ks ≡ map (member print_scalar print_key n) ks
  members_cong m n [] f = refl
  members_cong m n (k ∷ ks) f =
      ap₂ (λ a b. a ∷ b) (ap (λ v. print_key k ++ (58 ∷ v)) (f k)) (members_cong m n ks f)

  marshal_sorted_map-Alike :
      (m n : List (Bytes × Bytes))
      → Alike m n
      → marshal_sorted_map print_scalar print_key m ≡ marshal_sorted_map print_scalar print_key n
  unfolding marshal_sorted_map
  marshal_sorted_map-Alike m n a =
      ap (λ ps. 123 ∷ (separated ps ++ (125 ∷ [])))
        (ap (map (member print_scalar print_key m)) a.keys
          ∙ members_cong m n (sort_by_bytes (keys_of n)) a.values)

  mutual
    unfolding canonical_marshal canonical_items canonical_entries

    pub canonical_marshal-Same :
        (x y : Json)
        → Same x y
        → canonical_marshal print_scalar print_key x ≡ canonical_marshal print_scalar print_key y
    canonical_marshal-Same x y (same_scalar s) = refl
    canonical_marshal-Same x y (same_array xs ys e) =
        ap (marshal_array print_scalar print_key) (canonical_items-Same xs ys e)
    canonical_marshal-Same x y (same_object m n e) =
        marshal_sorted_map-Alike _ _ (canonical_entries-Same m n e)

    canonical_items-Same :
        (xs ys : Items)
        → SameItems xs ys
        → canonical_items print_scalar print_key xs ≡ canonical_items print_scalar print_key ys
    canonical_items-Same xs ys same_none = refl
    canonical_items-Same xs ys (same_item x y xs' ys' e es) =
        ap₂ (λ a b. a ∷ b) (canonical_marshal-Same x y e) (canonical_items-Same xs' ys' es)

    canonical_entries-Same :
        (m n : Entries)
        → SameEntries m n
        → Alike
            (canonical_entries print_scalar print_key m)
            (canonical_entries print_scalar print_key n)
    canonical_entries-Same m n same_end = record { keys = refl; values = λ k. refl }
    canonical_entries-Same m n (same_entry k x y m' n' e es) =
        subst
          (λ v.
            Alike
              ((k, canonical_marshal print_scalar print_key x)
                ∷ canonical_entries print_scalar print_key m')
              ((k, v) ∷ canonical_entries print_scalar print_key n'))
          (canonical_marshal-Same x y e) (cons-Alike k _ _ _ (canonical_entries-Same m' n' es))
    canonical_entries-Same m n (swap k l x y m' differ) = swap-Alike k l _ _ _ differ
    canonical_entries-Same m n (then_same _ o _ e f) =
        let a = canonical_entries-Same m o e in
        let b = canonical_entries-Same o n f in
        record { keys = a.keys ∙ b.keys; values = λ k. a.values k ∙ b.values k }

Bytes_set : IsSet Bytes
Bytes_set = hlevel

-- A payload without the order of the entries in its maps.
abbrev pub Payload : Type 0
Payload = Quot Same

-- The id of a node as a function of such a payload.
pub node_id_of : (Scalar → Bytes) → (Bytes → Bytes) → (Bytes → Bytes) → Bytes → Payload → Bytes
unfolding node_id
node_id_of print_scalar print_key blake3 kind =
    Quot.lift Bytes_set (node_id print_scalar print_key blake3 kind) (λ x y e.
      ap (λ b. blake3 (kind ++ (10 ∷ b))) (canonical_marshal-Same print_scalar print_key x y e))

-- Payloads that are equal without the order of their entries, at every depth, have the same id.
pub node_id-Payload :
    (print_scalar : Scalar → Bytes) (print_key blake3 : Bytes → Bytes) (kind : Bytes) (x y : Json)
    → Path Payload (Quot.mk x) (Quot.mk y)
    → node_id print_scalar print_key blake3 kind x ≡ node_id print_scalar print_key blake3 kind y
unfolding node_id_of
node_id-Payload print_scalar print_key blake3 kind x y e =
    ap (node_id_of print_scalar print_key blake3 kind) e
