-- ===== src/Cas/Order.antt =====
-- cas.go: the order of strings, and that a sort forgets the order of its input.
use kai_server.Common.Bytes.{Bytes, bytes_less}
use kai_server.Common.{◌≡◌, refl, arith, true, false, List, [], ◌∷◌, inl, inr, Bool-cases}
use kai_server.Cas.Json.{insert_by_bytes}

less_asym : (a b : Bytes) → bytes_less a b ≡ true → bytes_less b a ≡ false
unfolding bytes_less
less_asym [] [] h = absurd (cc)
less_asym [] (y ∷ b) h = refl
less_asym (x ∷ a) [] h = absurd (cc)
less_asym (x ∷ a) (y ∷ b) h = ground (arith, less_asym a b)

less_trans : (a b c : Bytes) → bytes_less a b ≡ true → bytes_less b c ≡ true → bytes_less a c ≡ true
unfolding bytes_less
less_trans a [] c g h = absurd (cc)
less_trans a (y ∷ b) [] g h = absurd (cc)
less_trans [] (y ∷ b) (z ∷ c) g h = refl
less_trans (x ∷ a) (y ∷ b) (z ∷ c) g h = ground (arith, less_trans a b c)

less_total : (a b : Bytes) → bytes_less a b ≡ false → bytes_less b a ≡ false → a ≡ b
unfolding bytes_less
less_total [] [] g h = refl
less_total [] (y ∷ b) g h = absurd (cc)
less_total (x ∷ a) [] g h = absurd (cc)
less_total (x ∷ a) (y ∷ b) g h = ground (arith, less_total a b)

-- Two keys are inserted in any order.
pub insert_by_bytes_comm :
    (a b : Bytes) (ls : List Bytes)
    → insert_by_bytes a (insert_by_bytes b ls) ≡ insert_by_bytes b (insert_by_bytes a ls)
unfolding insert_by_bytes
insert_by_bytes_comm a b [] = elim (Bool-cases (bytes_less b a)) [
  | inl s ↦ rw (s, less_asym b a s) refl
  | inr s ↦ elim (Bool-cases (bytes_less a b)) [
    | inl q ↦ rw (s, q) refl
    | inr q ↦ rw (s, q) (let same = less_total a b q s in cc)
  ]
]
insert_by_bytes_comm a b (l ∷ ls) = ground (
  arith,
  less_asym a b,
  less_asym b a,
  less_total a b,
  less_trans l a b,
  less_trans l b a,
  less_trans a l b,
  less_trans b l a,
  less_asym l a,
  less_asym l b,
  insert_by_bytes_comm a b ls,
)
