-- ===== src/Routing.antt =====
-- kailab-control/internal/routing/picker.go. A map of shards is the list of its entries in the order
-- in which the loop over it takes them, which Go does not fix.
pub mod RoundRobin
mod Tests
use Prim.Native.Nat.{bit_xor}
use kai_server.Common.{
  ℕ, zero, suc, ◌+◌, ◌*◌, ◌%◌, ◌^◌, Bool, true, false, Option, none, some, List, [], ◌∷◌, ◌++◌, map,
  String, if◌then◌else◌, ltb, ◌==◌, length, get_elem?, Result, ok, err, panic, stuck, ◌>>=◌,
}
use kai_server.Common.Bytes.{Bytes, codes}
use kai_server.Common.Maps.{lookup}

pub record ShardPicker : Type 0 where
  pub shards : List (String × String)
  pub names : List String
  pub next : ℕ

abbrev pub names_of : List (String × String) → List String
names_of [] = []
names_of ((name, url) ∷ shards) = name ∷ names_of shards

unfoldable pub new_shard_picker : List (String × String) → ShardPicker
new_shard_picker shards = record { shards = shards; names = names_of shards; next = 0 }

-- The names come anew; the index of the round robin stays.
unfoldable pub update_shards : List (String × String) → ShardPicker → ShardPicker
update_shards shards p = record p { shards = shards; names = names_of shards }

-- a missing name gives the empty string
unfoldable pub get_shard_url : String → ShardPicker → String
get_shard_url name p = elim (lookup name p.shards) [ none ↦ "" | some url ↦ url ]

abbrev pub Picked : Type 0
Picked = Result (Unit {0}) (String × ShardPicker)

abbrev pub advance : ShardPicker → Option String → Picked
advance p none = panic
advance p (some shard) = ok (shard, record p { next = (p.next + 1) % length p.names })

unfoldable pub pick_shard_round_robin : ShardPicker → Picked
pick_shard_round_robin p =
    if length p.names == 0 then ok ("default", p) else advance p (get_elem? p.names p.next)

-- hash/fnv, New64a
unfoldable pub fnv_loop : ℕ → Bytes → ℕ
fnv_loop h [] = h
fnv_loop h (b ∷ bytes) = fnv_loop (bit_xor h b * 1099511628211 % 2 ^ 64) bytes

abbrev pub sum64 : Bytes → ℕ
sum64 bytes = fnv_loop 14695981039346656037 bytes

abbrev pub picked : ShardPicker → Option String → Picked
picked p none = panic
picked p (some shard) = ok (shard, p)

unfoldable pub pick_shard_by_hash : Bytes → ShardPicker → Picked
unfolding fnv_loop
pick_shard_by_hash org_id p =
    if length p.names == 0
    then ok ("default", p)
    else picked p (get_elem? p.names (sum64 org_id % length p.names))

-- a number of picks in a row
unfoldable pub picks : ℕ → ShardPicker → Result (Unit {0}) (List String × ShardPicker)
picks zero p = ok ([], p)
picks (suc k) p = do
  (shard, p') ← pick_shard_round_robin p
  (shards, p'') ← picks k p'
  ok (shard ∷ shards, p'')
