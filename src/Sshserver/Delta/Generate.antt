-- ===== src/Sshserver/Delta/Generate.antt =====
-- kailab/sshserver/delta.go, GenerateDelta.
use kai_server.Common.{
  ℕ, zero, suc, ◌+◌, ◌-◌, ◌/◌, ◌^◌, true, false, ◌&&◌, Option, none, some, [], ◌∷◌, ◌++◌, ltb, leb,
  ◌==◌, if◌then◌else◌, length, get_or,
}
use kai_server.Common.Bytes.{Bytes}
use kai_server.Sshserver.Delta.Index.{DeltaIndex, min_match_size, new_delta_index, find_match}
use kai_server.Sshserver.Delta.Encode.{delta_encode_size, encode_insert, encode_copy}

-- the bit pattern of an offset, where -1 is `none`
abbrev pub int_bits : Option ℕ → ℕ
int_bits none = 2 ^ 64 - 1
int_bits (some off) = off

-- the variables that the loop of GenerateDelta changes
pub record Build : Type 0 where
  pub delta : Bytes
  pub insert_buf : Bytes
  pub tgt_off : ℕ

-- if len(insertBuf) > 0 { flush }
abbrev pub flush_inserts : Build → Build
flush_inserts b =
    if ltb 0 (length b.insert_buf)
    then record b { delta = b.delta ++ encode_insert b.insert_buf; insert_buf = [] }
    else b

abbrev pub add_copy : Option ℕ → ℕ → Build → Build
add_copy src_off len b =
    let b' = flush_inserts b in
    record b' { delta = b'.delta ++ encode_copy (int_bits src_off) len; tgt_off = b'.tgt_off + len }

abbrev pub add_byte : ℕ → Build → Build
add_byte x b =
    let b' = record b { insert_buf = b.insert_buf ++ (x ∷ []); tgt_off = b.tgt_off + 1 } in
    if length b'.insert_buf == 127
    then record b' { delta = b'.delta ++ encode_insert b'.insert_buf; insert_buf = [] }
    else b'

-- the body of the loop
unfoldable pub build_step : DeltaIndex → Bytes → Build → Build
build_step idx tgt b =
    let (src_off, len) = find_match idx tgt b.tgt_off in
    if leb min_match_size len then add_copy src_off len b else add_byte (get_or tgt b.tgt_off 0) b

-- Each round takes a byte of the target at least: `length tgt` rounds are enough.
unfoldable pub build_loop : ℕ → DeltaIndex → Bytes → Build → Build
build_loop zero idx tgt b = b
build_loop (suc fuel) idx tgt b = elim (ltb b.tgt_off (length tgt)) [
  | true ↦ build_loop fuel idx tgt (build_step idx tgt b)
  | false ↦ b
]

-- everything from the header on
unfoldable pub build_delta : DeltaIndex → Bytes → Bytes → Bytes
unfolding build_loop
build_delta idx src tgt =
    let header = delta_encode_size (length src) ++ delta_encode_size (length tgt) in
    let built =
      build_loop (length tgt) idx tgt (record { delta = header; insert_buf = []; tgt_off = 0 }) in
    (flush_inserts built).delta

unfoldable pub generate_delta : Bytes → Bytes → Option Bytes
generate_delta src tgt =
    if ltb (length tgt) 16
    then none
    else if ltb 0 (length src) && ltb (length tgt) (length src / 16)
    then none
    else let idx = new_delta_index src in
      elim idx.table [
        | none ↦ none
        | some _ ↦
            let delta = build_delta idx src tgt in
            if leb (length tgt) (length delta + 20) then none else some delta
      ]
