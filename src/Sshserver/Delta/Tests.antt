-- ===== src/Sshserver/Delta/Tests.antt =====
-- Runs of the delta code, and its theorems at concrete inputs.
use kai_server.Common.{
  ◌+◌, ◌%◌, ◌^◌, ◌<◌, ◌≡◌, ◌≢◌, refl, arith, [], ◌∷◌, some, ok, stuck, length, take, drop,
}
use kai_server.Common.Bytes.{Bytes, codes}
use kai_server.Sshserver.Delta.Index.{
  new_delta_index, find_match, hash_block, chain_loop, table_size, match_length,
}
use kai_server.Sshserver.Delta.Encode.{delta_encode_size, encode_copy, encode_insert}
use kai_server.Sshserver.Delta.Generate.{generate_delta, build_delta, build_step}
use kai_server.Sshserver.Delta.Emits.{Emits, Emits-encode_copy}
use kai_server.Sshserver.Delta.Inserts.{Emits-encode_insert}
use kai_server.Sshserver.Delta.LargeCopies.{encode_copy_large}
use kai_server.Sshserver.Delta.RoundTrip.{apply_delta-generate_delta}
use kai_server.Sshserver.Unpack.{apply_delta, apply_loop, apply_instruction, read_delta_size}
use kai_server.Sshserver.Unpack.Total.{apply_delta-ne-stuck}

abbrev fox : Bytes
fox = codes "The quick brown fox jumps over the lazy dog. This is a test of the delta encoding."

abbrev cat : Bytes
cat = codes "The quick brown cat jumps over the lazy dog. This is a test of the delta encoding."

abbrev fox_to_cat : Bytes
fox_to_cat = 82 ∷ 82 ∷ 144 ∷ 16 ∷ 3 ∷ 99 ∷ 97 ∷ 116 ∷ 145 ∷ 19 ∷ 63 ∷ []

size_300 : delta_encode_size 300 ≡ 0xac ∷ 2 ∷ []
unfolding delta_encode_size
size_300 = refl

generated : generate_delta fox cat ≡ some fox_to_cat
unfolding generate_delta build_delta build_step new_delta_index find_match chain_loop match_length
    hash_block table_size encode_copy encode_insert delta_encode_size
generated = refl

applied : apply_delta fox fox_to_cat ≡ ok cat
unfolding apply_delta apply_loop apply_instruction read_delta_size
applied = refl

apply_delta-generate_delta_example :
    (apply_delta fox fox_to_cat ≡ ok cat) × (length fox_to_cat + 20 < length cat)
apply_delta-generate_delta_example =
    apply_delta-generate_delta fox cat fox_to_cat (omega arith) (omega arith) generated

apply_delta-ne-stuck_example : apply_delta fox (1 ∷ 2 ∷ 0x91 ∷ []) ≢ stuck
apply_delta-ne-stuck_example = apply_delta-ne-stuck fox (1 ∷ 2 ∷ 0x91 ∷ [])

encode_copy_large_example : encode_copy 5 0x100_0003 ≡ encode_copy 5 (0x100_0003 % 2 ^ 24)
encode_copy_large_example = encode_copy_large 5 0x100_0003 (omega arith) (omega arith)

Emits-encode_copy_example : Emits fox (encode_copy 4 5) (take 5 (drop 4 fox))
Emits-encode_copy_example =
    Emits-encode_copy fox 4 5 (omega arith) (omega arith) (omega arith) (omega arith)

Emits-encode_insert_example : Emits fox (encode_insert cat) cat
Emits-encode_insert_example = Emits-encode_insert fox cat
