-- ===== src/Sshserver/Delta/Encode.antt =====
-- kailab/sshserver/delta.go: the encodings of a size, of an insert and of a copy instruction.
use kai_server.Common.{
  ℕ, zero, suc, ◌/◌, ◌%◌, ◌^◌, ◌<◌, bit_and, bit_or, arith, Bool, false, not, [], ◌∷◌, ◌++◌, ltb,
  ◌==◌, if◌then◌else◌, length, take, drop,
}
use kai_server.Common.Bytes.{Bytes}
use kai_server.Common.Order.{lt_wf}
use mathlib.Core.Logic.{dite}
use mathlib.Core.WellFounded.{Acc}
use native.Mathlib.Decide.{dec_lt}

pub seven_bits_less : (size : ℕ) → 0 < size → size / 128 < size
seven_bits_less size h = omega arith

-- the loop of deltaEncodeSize
unfoldable pub encode_size_loop : Bytes → ℕ → (size : ℕ) → Acc ◌<◌ size → Bytes
encode_size_loop buf c size (Acc.intro _ smaller) =
    dite (dec_lt 0 size)
      (λ more.
        encode_size_loop (buf ++ (bit_or c 0x80 % 256 ∷ [])) (bit_and size 0x7f) (size / 128)
          (smaller _ (seven_bits_less size more)))
      (λ _. buf ++ (c % 256 ∷ []))

unfoldable pub delta_encode_size : ℕ → Bytes
unfolding encode_size_loop lt_wf dec_lt
delta_encode_size size =
    encode_size_loop [] (bit_and size 0x7f) (size / 128) (lt_wf.apply (size / 128))

-- Each round of encodeInsert takes a byte at least, so `length data` rounds are enough.
unfoldable pub encode_insert_loop : ℕ → Bytes → Bytes → Bytes
encode_insert_loop zero bytes result = result
encode_insert_loop (suc fuel) [] result = result
encode_insert_loop (suc fuel) (b ∷ bytes) result =
    let n = if ltb 127 (length (b ∷ bytes)) then 127 else length (b ∷ bytes) in
    encode_insert_loop fuel (drop n (b ∷ bytes)) ((result ++ (n ∷ [])) ++ take n (b ∷ bytes))

unfoldable pub encode_insert : Bytes → Bytes
unfolding encode_insert_loop
encode_insert bytes = encode_insert_loop (length bytes) bytes []

-- value & mask != 0
abbrev pub has_bits : ℕ → ℕ → Bool
has_bits value mask = not (bit_and value mask == 0)

abbrev pub or_if : Bool → ℕ → ℕ → ℕ
or_if test flag cmd = if test then bit_or cmd flag else cmd

-- the command byte, from the seven tests
unfoldable pub command_of : Bool → Bool → Bool → Bool → Bool → Bool → Bool → ℕ
command_of o₀ o₁ o₂ o₃ s₀ s₁ s₂ = or_if s₂ 0x40 (
    or_if s₁ 0x20
      (or_if s₀ 0x10 (or_if o₃ 0x08 (or_if o₂ 0x04 (or_if o₁ 0x02 (or_if o₀ 0x01 0x80))))))

unfoldable pub copy_command : ℕ → ℕ → ℕ
unfolding command_of
copy_command offset size =
    let sized = not (size == 0x10000) in
    command_of (has_bits offset 0xff) (has_bits offset 0xff00) (has_bits offset 0xff_0000)
      (has_bits offset 0xff00_0000) (if sized then has_bits size 0xff else false)
      (if sized then has_bits size 0xff00 else false)
      (if sized then has_bits size 0xff_0000 else false)

-- if cmd&flag != 0 { buf = append(buf, byte(value)) }
abbrev pub byte_if : ℕ → ℕ → ℕ → Bytes
byte_if cmd flag value = if has_bits cmd flag then value % 256 ∷ [] else []

unfoldable pub encode_copy : ℕ → ℕ → Bytes
unfolding copy_command
encode_copy offset size =
    let cmd = copy_command offset size in
    cmd
    ∷ (byte_if cmd 0x01 offset
        ++ (byte_if cmd 0x02 (offset / 2 ^ 8)
            ++ (byte_if cmd 0x04 (offset / 2 ^ 16)
                ++ (byte_if cmd 0x08 (offset / 2 ^ 24)
                    ++ (byte_if cmd 0x10 size
                        ++ (byte_if cmd 0x20 (size / 2 ^ 8)
                            ++ byte_if cmd 0x40 (size / 2 ^ 16)))))))
