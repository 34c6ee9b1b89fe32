-- ===== src/Routing/Tests.antt =====
-- Runs of the shard picker, and its theorems at concrete inputs.
use kai_server.Common.{◌≡◌, refl, arith, List, [], ◌∷◌, String, ok, panic}
use kai_server.Common.Bytes.{codes}
use kai_server.Common.Maps.{lookup}
use kai_server.Routing.{
  ShardPicker, new_shard_picker, update_shards, get_shard_url, pick_shard_round_robin, picks,
  fnv_loop, sum64,
}
use kai_server.Routing.RoundRobin.{picks-new_shard_picker, pick_shard_round_robin-update_shards}

abbrev two : List (String × String)
two = ("a", "http://a") ∷ ("b", "http://b") ∷ []

-- The hash of "a" as the standard library's tests have it.
fnv_a : sum64 (codes "a") ≡ 12638187200555641996
unfolding fnv_loop
fnv_a = refl

url : get_shard_url "b" (new_shard_picker two) ≡ "http://b"
unfolding get_shard_url new_shard_picker lookup
url = refl

abbrev at_second : ShardPicker
at_second = record { shards = two; names = "a" ∷ "b" ∷ []; next = 1 }

picks-new_shard_picker_example :
    picks 2 (new_shard_picker two) ≡ ok ("a" ∷ "b" ∷ [], new_shard_picker two)
picks-new_shard_picker_example = picks-new_shard_picker two (omega arith)

pick_shard_round_robin-update_shards_example :
    pick_shard_round_robin (update_shards (("c", "http://c") ∷ []) at_second) ≡ panic
pick_shard_round_robin-update_shards_example =
    pick_shard_round_robin-update_shards (("c", "http://c") ∷ []) at_second (omega arith)
      (omega arith)
