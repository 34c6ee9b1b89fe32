-- ===== src/Cas/Json.antt =====
-- cas.go: a value that encoding/json decoded, and its canonical bytes.
--
-- A Go map is a list of its entries, in the order in which a loop takes the keys. What json.Marshal
-- writes for a scalar and for a key are the parameters `scalar` and `text`; it has no error there,
-- since the values come from JSON.
use kai_server.Common.Bytes.{Bytes, bytes_eq, bytes_less}
use kai_server.Common.{ℕ, Bool, List, [], ◌∷◌, ◌++◌, map, if◌then◌else◌}

pub data Scalar : Type 0 where
  null : Scalar
  bool : Bool → Scalar
  number : ℕ → Scalar
  text : Bytes → Scalar

-- interface{} as json.Unmarshal fills it; a float64 is named by a number
mutual
  pub data Json : Type 0 where
    scalar : Scalar → Json
    array : Items → Json
    object : Entries → Json

  pub data Items : Type 0 where
    no_items : Items
    item : Json → Items → Items

  pub data Entries : Type 0 where
    no_entries : Entries
    entry : Bytes → Json → Entries → Entries

-- sort.Strings
unfoldable pub insert_by_bytes : Bytes → List Bytes → List Bytes
insert_by_bytes k [] = k ∷ []
insert_by_bytes k (l ∷ ls) =
    let rest = insert_by_bytes k ls in if bytes_less l k then l ∷ rest else k ∷ l ∷ ls

unfoldable pub sort_by_bytes : List Bytes → List Bytes
sort_by_bytes [] = []
sort_by_bytes (k ∷ ks) = insert_by_bytes k (sort_by_bytes ks)

-- m[k], where every key that is asked for is there
unfoldable pub value_at : Bytes → List (Bytes × Bytes) → Bytes
value_at k [] = []
value_at k ((l, v) ∷ m) = let rest = value_at k m in if bytes_eq l k then v else rest

unfoldable pub keys_of : List (Bytes × Bytes) → List Bytes
keys_of [] = []
keys_of ((k, v) ∷ m) = k ∷ keys_of m

-- the bytes of the parts, with a comma before each but the first
unfoldable pub separated : List Bytes → Bytes
separated [] = []
separated (p ∷ []) = p
separated (p ∷ q ∷ ps) = p ++ (44 ∷ separated (q ∷ ps))

module _ (print_scalar : Scalar → Bytes) (print_key : Bytes → Bytes) where
  -- a key, a colon and the bytes of its value
  abbrev pub member : List (Bytes × Bytes) → Bytes → Bytes
  member m k = print_key k ++ (58 ∷ value_at k m)

  -- marshalSortedMap on the bytes of the values
  unfoldable pub marshal_sorted_map : List (Bytes × Bytes) → Bytes
  marshal_sorted_map m =
      123 ∷ (separated (map (member m) (sort_by_bytes (keys_of m))) ++ (125 ∷ []))

  -- marshalArray on the bytes of the values
  unfoldable pub marshal_array : List Bytes → Bytes
  marshal_array ps = 91 ∷ (separated ps ++ (93 ∷ []))

  -- (canonicalMarshal) The bytes of the values of a map are made before its keys are sorted.
  unfoldable mutual
    pub canonical_marshal : Json → Bytes
    canonical_marshal (scalar s) = print_scalar s
    canonical_marshal (array xs) = marshal_array (canonical_items xs)
    canonical_marshal (object m) = marshal_sorted_map (canonical_entries m)

    pub canonical_items : Items → List Bytes
    canonical_items no_items = []
    canonical_items (item x xs) = canonical_marshal x ∷ canonical_items xs

    pub canonical_entries : Entries → List (Bytes × Bytes)
    canonical_entries no_entries = []
    canonical_entries (entry k x m) = (k, canonical_marshal x) ∷ canonical_entries m

  -- (NodeID) of a payload that was decoded; `blake3` is Blake3Hash.
  unfoldable pub node_id : (Bytes → Bytes) → Bytes → Json → Bytes
  node_id blake3 kind payload = blake3 (kind ++ (10 ∷ canonical_marshal payload))
