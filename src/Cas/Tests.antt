-- ===== src/Cas/Tests.antt =====
-- A run of the canonical JSON, and its theorem at concrete values.
use mathlib.Core.Quot
use kai_server.Common.Bytes.{Bytes, codes, bytes_less, bytes_eq, bytes_eq_iff}
use kai_server.Common.{◌≡◌, refl, true, false, [], ◌∷◌, ◌++◌}
use kai_server.Cas.Json.{
  Json, scalar, object, array, no_entries, entry, no_items, item, Scalar, null, bool, number, text,
  insert_by_bytes, sort_by_bytes, keys_of, value_at, separated, marshal_sorted_map, marshal_array,
  canonical_marshal, node_id,
}
use kai_server.Cas.Ids.{same_object, swap, node_id-Payload}

abbrev print_scalar : Scalar → Bytes
print_scalar null = codes "null"
print_scalar (bool true) = codes "true"
print_scalar (bool false) = codes "false"
print_scalar (number n) = n ∷ []
print_scalar (text b) = 34 ∷ (b ++ (34 ∷ []))

abbrev print_key : Bytes → Bytes
print_key k = 34 ∷ (k ++ (34 ∷ []))

abbrev same : Bytes → Bytes
same b = b

-- {"b": true, "a": [null, false]}
abbrev b_first : Json
b_first = object (
    entry (codes "b") (scalar (bool true)) (
      entry (codes "a") (array (item (scalar null) (item (scalar (bool false)) no_items)))
        no_entries))

abbrev a_first : Json
a_first = object (
    entry (codes "a") (array (item (scalar null) (item (scalar (bool false)) no_items)))
      (entry (codes "b") (scalar (bool true)) no_entries))

canonical :
    canonical_marshal print_scalar print_key b_first ≡ codes "{\"a\":[null,false],\"b\":true}"
unfolding canonical_marshal marshal_sorted_map marshal_array sort_by_bytes insert_by_bytes keys_of
    value_at separated bytes_less bytes_eq
canonical = refl

node_id-Payload_example :
    node_id print_scalar print_key same (codes "File") b_first
    ≡ node_id print_scalar print_key same (codes "File") a_first
unfolding bytes_eq
node_id-Payload_example =
    node_id-Payload print_scalar print_key same (codes "File") b_first a_first (
      Quot.sound (
        same_object _ _ (
          swap (codes "b") (codes "a") _ _ no_entries
            (λ e. absurd (let t = (bytes_eq_iff (codes "b") (codes "a")).1 e in cc)))))
