-- ===== src/Sshserver/Delta/Sizes.antt =====
-- delta.go, deltaEncodeSize, against gitpack_parse.go, readDeltaSize.
use kai_server.Common.{
  ℕ, ◌+◌, ◌*◌, ◌/◌, ◌%◌, ◌^◌, ◌<◌, ◌≡◌, sym, ap, ◌∙◌, bit_and, bit_or, arith, [], ◌∷◌, ◌++◌,
  append_assoc, ok,
}
use kai_server.Common.Bits.{bit_or-shift, bit_and-127, bit_and-128}
use kai_server.Common.Bytes.{Bytes}
use kai_server.Common.Order.{lt_wf}
use kai_server.Sshserver.Delta.Encode.{encode_size_loop, delta_encode_size, seven_bits_less}
use kai_server.Sshserver.Unpack.{read_size_loop, read_delta_size}
use mathlib.Core.Logic.{dif_pos, dif_neg}
use mathlib.Core.WellFounded.{Acc}
use native.Mathlib.Decide.{dec_lt}
use native.Mathlib.Numerals.{towards_suc}
use native.Mathlib.Nat.{div-add-mod}
use native.Mathlib.Bridge.{le_prop}

continued : (c : ℕ) → c < 128 → bit_or c 0x80 % 256 ≡ c + 128
continued c h = omega (arith, bit_or-shift 7 c 1)

two_pow_seven : (s : ℕ) → 2 ^ (s + 7) ≡ 128 * 2 ^ s
two_pow_seven s = simp towards_suc (omega arith)

-- What the loop appends does not depend on what the buffer holds.
encode_size_loop-buf :
    (buf : Bytes) (c size : ℕ) (w : Acc ◌<◌ size)
    → encode_size_loop buf c size w ≡ buf ++ encode_size_loop [] c size w
unfolding encode_size_loop
encode_size_loop-buf buf c size (Acc.intro _ smaller) = elim (dec_lt 0 size) [
  | yes more ↦
      let byte : Bytes = bit_or c 0x80 % 256 ∷ [] in
      rw (dif_pos _ le_prop more, dif_pos _ le_prop more)
        (encode_size_loop-buf (buf ++ byte) (bit_and size 0x7f) (size / 128)
            (smaller (size / 128) (seven_bits_less size more))
          ∙ append_assoc buf byte _
          ∙ ap (λ r. buf ++ r)
              (sym (
                encode_size_loop-buf byte (bit_and size 0x7f) (size / 128)
                  (smaller (size / 128) (seven_bits_less size more)))))
  | no done ↦ rw (dif_neg _ done, dif_neg _ done)
]

-- A byte whose top bit is clear ends the number.
last_group :
    (c acc shift : ℕ) (rest : Bytes)
    → c < 128
    → acc < 2 ^ shift
    → acc + c * 2 ^ shift < 2 ^ 64
    → read_size_loop (c % 256 ∷ rest) acc shift ≡ ok (acc + c * 2 ^ shift, rest)
unfolding read_size_loop
last_group c acc shift rest hc ha fits =
    let e : c % 256 ≡ c = omega arith in
    rw e (ground (arith, bit_and-127 c, bit_and-128 c, bit_or-shift shift acc c ha))

inner_group :
    (c acc shift : ℕ) (rest : Bytes)
    → c < 128
    → acc < 2 ^ shift
    → acc + c * 2 ^ shift < 2 ^ 64
    → read_size_loop (bit_or c 0x80 % 256 ∷ rest) acc shift
      ≡ read_size_loop rest (acc + c * 2 ^ shift) (shift + 7)
unfolding read_size_loop
inner_group c acc shift rest hc ha fits =
    let mask : bit_and (c + 128) 127 ≡ c = omega (arith, bit_and-127 (c + 128)) in
    let top : bit_and (c + 128) 128 ≡ 128 = omega (arith, bit_and-128 (c + 128)) in
    let fits' : c * 2 ^ shift % 2 ^ 64 ≡ c * 2 ^ shift = omega arith in
    rw (continued c hc, mask, top, fits', bit_or-shift shift acc c ha)

-- The low seven bits of `size` and the rest, shifted.
split_size :
    (size shift : ℕ)
    → size * 2 ^ shift ≡ bit_and size 127 * 2 ^ shift + size / 128 * 2 ^ (shift + 7)
split_size size shift = omega (
  arith,
  ap (λ (t : ℕ). t * 2 ^ shift) (div-add-mod size 128),
  ap (λ (t : ℕ). t * 2 ^ shift) (bit_and-127 size),
  ap (λ (t : ℕ). size / 128 * t) (two_pow_seven shift),
)

below_next : (c acc shift : ℕ) → c < 128 → acc < 2 ^ shift → acc + c * 2 ^ shift < 2 ^ (shift + 7)
below_next c acc shift hc ha = rw two_pow_seven (grind arith)

next_value :
    (c size acc shift : ℕ)
    → acc + c * 2 ^ shift + (bit_and size 127 + 128 * (size / 128)) * 2 ^ (shift + 7)
      ≡ acc + (c + 128 * size) * 2 ^ shift
next_value c size acc shift = omega (
  arith,
  ap (λ (t : ℕ). 128 * t) (split_size size shift),
  ap (λ (t : ℕ). bit_and size 127 * t) (two_pow_seven shift),
)

-- `c` and `size` are the low seven bits and the rest of what is still to be read.
read_size_loop-encode :
    (c size : ℕ) (w : Acc ◌<◌ size) (acc shift : ℕ) (rest : Bytes)
    → c < 128
    → acc < 2 ^ shift
    → acc + (c + 128 * size) * 2 ^ shift < 2 ^ 64
    → read_size_loop (encode_size_loop [] c size w ++ rest) acc shift
      ≡ ok (acc + (c + 128 * size) * 2 ^ shift, rest)
unfolding encode_size_loop
read_size_loop-encode c size (Acc.intro _ smaller) acc shift rest hc ha fits =
    elim (dec_lt 0 size) [
      | yes more ↦
          let w = smaller (size / 128) (seven_bits_less size more) in
          rw (dif_pos _ le_prop more) (
            rw (encode_size_loop-buf (bit_or c 0x80 % 256 ∷ []) (bit_and size 0x7f) (size / 128) w)
              (inner_group c acc shift _ hc ha (omega arith)
                ∙ read_size_loop-encode (bit_and size 0x7f) (size / 128)
                    (smaller (size / 128) (seven_bits_less size more)) (acc + c * 2 ^ shift)
                    (shift + 7) rest (omega (arith, bit_and-127 size))
                    (below_next c acc shift hc ha) (omega (arith, next_value c size acc shift))
                ∙ ap (λ v. ok (v, rest)) (next_value c size acc shift)))
      | no done ↦
          let none_left : size ≡ 0 = omega arith in
          rw (dif_neg _ done) (
            last_group c acc shift rest hc ha (omega arith)
            ∙ ap (λ v. ok (v, rest)) (rw none_left (omega arith)))
    ]

-- readDeltaSize reads back what deltaEncodeSize wrote for a non-negative int, and leaves what follows.
pub read_delta_size-delta_encode_size :
    (v : ℕ) (rest : Bytes)
    → v < 2 ^ 63
    → read_delta_size (delta_encode_size v ++ rest) ≡ ok (v, rest)
unfolding read_delta_size delta_encode_size
read_delta_size-delta_encode_size v rest h =
    read_size_loop-encode (bit_and v 127) (v / 128) (lt_wf.apply (v / 128)) 0 0 rest
      (omega (arith, bit_and-127 v)) (omega arith) (omega (arith, bit_and-127 v))
    ∙ ap (λ n. ok (n, rest)) (omega (arith, bit_and-127 v))
