-- ===== src/Sshserver/Unpack.antt =====
-- kailab/sshserver/gitpack_parse.go: the reading of deltas. The rest of a slice from `offset` on
-- stands for the pair of the slice and the offset.
pub mod Total
use kai_server.Common.{
  ℕ, zero, suc, ◌+◌, ◌*◌, ◌%◌, ◌^◌, bit_and, bit_or, Bool, true, false, not, [], ◌∷◌, ◌++◌, ltb,
  leb, ◌==◌, if◌then◌else◌, length, take, drop, Result, ok, err, panic, stuck, ◌>>=◌, ◌>>◌, guard,
}
use kai_server.Common.Bytes.{Bytes}

pub data DeltaError : Type 0 where
  delta_too_short base_size_mismatch copy_past_base insert_past_delta : DeltaError

abbrev pub M {ℓ} : Type ℓ → Type ℓ
M A = Result DeltaError A

-- the loop of readDeltaSize; an index past the end panics
unfoldable pub read_size_loop : Bytes → ℕ → ℕ → M (ℕ × Bytes)
read_size_loop [] size shift = panic
read_size_loop (b ∷ rest) size shift =
    let size' = bit_or size (bit_and b 0x7f * 2 ^ shift % 2 ^ 64) in
    let more = read_size_loop rest size' (shift + 7) in
    if bit_and b 0x80 == 0 then ok (size', rest) else more

unfoldable pub read_delta_size : Bytes → M (ℕ × Bytes)
unfolding read_size_loop
read_delta_size bytes = read_size_loop bytes 0 0

-- delta[offset]; offset++
abbrev pub next_byte : Bytes → M (ℕ × Bytes)
next_byte [] = panic
next_byte (b ∷ rest) = ok (b, rest)

-- if test { v |= int(delta[offset]) << shift; offset++ }
abbrev pub or_byte : Bool → ℕ → ℕ → Bytes → M (ℕ × Bytes)
or_byte false shift v rest = ok (v, rest)
or_byte true shift v [] = panic
or_byte true shift v (b ∷ rest) = ok (bit_or v (b * 2 ^ shift), rest)

-- if test { v = int(delta[offset]); offset++ }
abbrev pub first_byte : Bool → Bytes → M (ℕ × Bytes)
first_byte false rest = ok (0, rest)
first_byte true rest = next_byte rest

abbrev pub has_flag : ℕ → ℕ → Bool
has_flag cmd flag = not (bit_and cmd flag == 0)

-- the offset of a copy instruction, by the tests cmd&0x01, 0x02, 0x04 and 0x08
unfoldable pub offset_args : Bool → Bool → Bool → Bool → Bytes → M (ℕ × Bytes)
offset_args t₀ t₁ t₂ t₃ rest = do
  (o₀, rest₁) ← first_byte t₀ rest
  (o₁, rest₂) ← or_byte t₁ 8 o₀ rest₁
  (o₂, rest₃) ← or_byte t₂ 16 o₁ rest₂
  or_byte t₃ 24 o₂ rest₃

-- its size, by the tests cmd&0x10, 0x20 and 0x40
unfoldable pub size_args : Bool → Bool → Bool → Bytes → M (ℕ × Bytes)
size_args t₀ t₁ t₂ rest = do
  (s₀, rest₁) ← first_byte t₀ rest
  (s₁, rest₂) ← or_byte t₁ 8 s₀ rest₁
  or_byte t₂ 16 s₁ rest₂

unfoldable pub copy_args : ℕ → Bytes → M (ℕ × ℕ × Bytes)
copy_args cmd rest = do
  (offset, rest') ←
      offset_args (has_flag cmd 0x01) (has_flag cmd 0x02) (has_flag cmd 0x04) (has_flag cmd 0x08)
        rest
  (size, rest'') ← size_args (has_flag cmd 0x10) (has_flag cmd 0x20) (has_flag cmd 0x40) rest'
  ok (offset, (if size == 0 then 0x10000 else size), rest'')

-- one instruction: the result so far and the rest of the delta
unfoldable pub apply_instruction : Bytes → ℕ → Bytes → Bytes → M (Bytes × Bytes)
unfolding copy_args offset_args size_args
apply_instruction base cmd rest result =
    if has_flag cmd 0x80
    then (do
      (offset, size, rest') ← copy_args cmd rest
      guard (leb (offset + size) (length base)) copy_past_base
      ok (result ++ take size (drop offset base), rest'))
    else if not (cmd == 0)
    then (do
      guard (leb cmd (length rest)) insert_past_delta
      ok (result ++ take cmd rest, drop cmd rest))
    else ok (result, rest)

-- Each instruction takes a byte at least, so the length of the delta is fuel enough.
unfoldable pub apply_loop : ℕ → Bytes → Bytes → Bytes → M Bytes
apply_loop fuel base [] result = ok result
apply_loop zero base (cmd ∷ rest) result = stuck
apply_loop (suc fuel) base (cmd ∷ rest) result =
    apply_instruction base cmd rest result >>= λ (result', rest').
    apply_loop fuel base rest' result'

-- The limit of the Go runtime for make([]byte, 0, n) on 64-bit Linux; a larger or a negative capacity
-- panics.
abbrev pub max_alloc : ℕ
max_alloc = 2 ^ 48

unfoldable pub apply_delta : Bytes → Bytes → M Bytes
apply_delta base delta = do
  guard (leb 2 (length delta)) delta_too_short
  (base_size, rest) ← read_delta_size delta
  guard (base_size == length base) base_size_mismatch
  (result_size, rest') ← read_delta_size rest
  if leb result_size max_alloc then apply_loop (length rest') base rest' [] else panic
