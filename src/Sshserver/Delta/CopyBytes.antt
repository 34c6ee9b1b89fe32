-- ===== src/Sshserver/Delta/CopyBytes.antt =====
-- delta.go, encodeCopy: the bytes that follow the command byte of a copy instruction.
use kai_server.Common.{
  ℕ, ◌+◌, ◌*◌, ◌/◌, ◌%◌, ◌^◌, ◌<◌, ◌≡◌, arith, Bool, not, ◌∷◌, ◌++◌, append_assoc, ok, ◌>>=◌, ◌==◌,
  if◌then◌else◌,
}
use kai_server.Common.Bits.{bit_and-255, bit_and-shift_8}
use kai_server.Common.Bytes.{Bytes}
use kai_server.Sshserver.Delta.Encode.{command_of, copy_command, encode_copy, has_bits, byte_if}
use kai_server.Sshserver.Delta.Flags.{
  present, first_byte-present, or_byte-present, flag_01, flag_02, flag_04, flag_08, flag_10,
  flag_20, flag_40,
}
use kai_server.Sshserver.Unpack.{offset_args, size_args, copy_args}

pub size_args-present :
    (e f g : Bool) (x y z : ℕ) (rest : Bytes)
    → e ≡ not (x == 0)
    → f ≡ not (y == 0)
    → g ≡ not (z == 0)
    → x < 256
    → y < 256
    → size_args e f g (present e x ++ (present f y ++ (present g z ++ rest)))
      ≡ ok (x + y * 2 ^ 8 + z * 2 ^ 16, rest)
unfolding size_args
size_args-present e f g x y z rest he hf hg hx hy = rw (
  first_byte-present e x (present f y ++ (present g z ++ rest)) he,
  or_byte-present f 8 x y (present g z ++ rest) hf hx,
  or_byte-present g 16 (x + y * 2 ^ 8) z rest hg (omega arith),
)

pub offset_args-present :
    (a b c d : Bool) (x y z u : ℕ) (rest : Bytes)
    → a ≡ not (x == 0)
    → b ≡ not (y == 0)
    → c ≡ not (z == 0)
    → d ≡ not (u == 0)
    → x < 256
    → y < 256
    → z < 256
    → offset_args a b c d (present a x ++ (present b y ++ (present c z ++ (present d u ++ rest))))
      ≡ ok (x + y * 2 ^ 8 + z * 2 ^ 16 + u * 2 ^ 24, rest)
unfolding offset_args
offset_args-present a b c d x y z u rest ha hb hc hd hx hy hz = rw (
  first_byte-present a x (present b y ++ (present c z ++ (present d u ++ rest))) ha,
  or_byte-present b 8 x y (present c z ++ (present d u ++ rest)) hb hx,
  or_byte-present c 16 (x + y * 2 ^ 8) z (present d u ++ rest) hc (omega arith),
  or_byte-present d 24 (x + y * 2 ^ 8 + z * 2 ^ 16) u rest hd (omega arith),
)

-- Which bytes are not 0.
pub byte_0 : (v : ℕ) → has_bits v 0xff ≡ not (v % 256 == 0)
byte_0 v = rw (bit_and-255 v)

pub byte_1 : (v : ℕ) → has_bits v 0xff00 ≡ not (v / 2 ^ 8 % 256 == 0)
byte_1 v = ground (arith, bit_and-shift_8 v 255, bit_and-255 (v / 256))

pub byte_2 : (v : ℕ) → has_bits v 0xff_0000 ≡ not (v / 2 ^ 16 % 256 == 0)
byte_2 v =
    ground
      (arith, bit_and-shift_8 v 0xff00, bit_and-shift_8 (v / 256) 255, bit_and-255 (v / 256 / 256))

pub byte_3 : (v : ℕ) → has_bits v 0xff00_0000 ≡ not (v / 2 ^ 24 % 256 == 0)
byte_3 v = ground (
  arith,
  bit_and-shift_8 v 0xff_0000,
  bit_and-shift_8 (v / 256) 0xff00,
  bit_and-shift_8 (v / 256 / 256) 255,
  bit_and-255 (v / 256 / 256 / 256),
)

-- What follows the command byte.
abbrev pub copy_tail : ℕ → ℕ → ℕ → Bytes → Bytes
copy_tail cmd offset size rest =
    byte_if cmd 0x01 offset
    ++ (byte_if cmd 0x02 (offset / 2 ^ 8)
        ++ (byte_if cmd 0x04 (offset / 2 ^ 16)
            ++ (byte_if cmd 0x08 (offset / 2 ^ 24)
                ++ (byte_if cmd 0x10 size
                    ++ (byte_if cmd 0x20 (size / 2 ^ 8)
                        ++ (byte_if cmd 0x40 (size / 2 ^ 16) ++ rest))))))

pub encode_copy-append :
    (offset size : ℕ) (rest : Bytes)
    → encode_copy offset size ++ rest
      ≡ copy_command offset size ∷ copy_tail (copy_command offset size) offset size rest
unfolding encode_copy
encode_copy-append offset size rest = simp append_assoc

module _ (a b c d e f g : Bool) (offset size : ℕ) (rest : Bytes) where
  -- The tests are those that the command byte was made of.
  pub copy_tail-present :
      copy_tail (command_of a b c d e f g) offset size rest
      ≡ present a (offset % 256)
        ++ (present b (offset / 2 ^ 8 % 256)
            ++ (present c (offset / 2 ^ 16 % 256)
                ++ (present d (offset / 2 ^ 24 % 256)
                    ++ (present e (size % 256)
                        ++ (present f (size / 2 ^ 8 % 256)
                            ++ (present g (size / 2 ^ 16 % 256) ++ rest))))))
  copy_tail-present = rw (
    flag_01 a b c d e f g,
    flag_02 a b c d e f g,
    flag_04 a b c d e f g,
    flag_08 a b c d e f g,
    flag_10 a b c d e f g,
    flag_20 a b c d e f g,
    flag_40 a b c d e f g,
  )

  pub copy_args-tests :
      (r : Bytes)
      → copy_args (command_of a b c d e f g) r ≡ (do
        (o, r') ← offset_args a b c d r
        (s, r'') ← size_args e f g r'
        ok (o, (if s == 0 then 0x10000 else s), r''))
  unfolding copy_args
  copy_args-tests r = rw (
    flag_01 a b c d e f g,
    flag_02 a b c d e f g,
    flag_04 a b c d e f g,
    flag_08 a b c d e f g,
    flag_10 a b c d e f g,
    flag_20 a b c d e f g,
    flag_40 a b c d e f g,
  )

pub offset_bytes :
    (v : ℕ)
    → v < 2 ^ 32
    → v % 256 + v / 2 ^ 8 % 256 * 2 ^ 8 + v / 2 ^ 16 % 256 * 2 ^ 16 + v / 2 ^ 24 % 256 * 2 ^ 24 ≡ v
offset_bytes v h = omega arith

pub size_bytes :
    (v : ℕ) → v < 2 ^ 24 → v % 256 + v / 2 ^ 8 % 256 * 2 ^ 8 + v / 2 ^ 16 % 256 * 2 ^ 16 ≡ v
size_bytes v h = omega arith
