-- ===== src/Sshserver/Protocol/Hex.antt =====
-- protocol.go: what readPktLineV2 makes of the length header that writePktLine prints.
use kai_server.Common.{
  ℕ, ◌+◌, ◌*◌, ◌/◌, ◌%◌, ◌≤◌, ◌<◌, ◌≡◌, ap, ◌∙◌, arith, Bool, false, Option, none, some, ◌∷◌, ◌==◌,
  Bool-cases, inl, inr,
}
use kai_server.Common.Bytes.{Bytes, bytes_eq, bytes_eq→eq, codes}
use kai_server.Sshserver.Protocol.{
  hex_digit, hex4, digit_value, digits_value, unsigned_value, parse_int16,
}

-- No hexadecimal digit is a sign, and each has its value.
digit_back : (d : ℕ) → d < 16 → digit_value (hex_digit d) ≡ some d
unfolding digit_value hex_digit
digit_back d h = ground arith

digit_no_sign : (d : ℕ) → d < 16 → ((hex_digit d == b'+') ≡ false) × ((hex_digit d == b'-') ≡ false)
unfolding hex_digit
digit_no_sign d h = ground arith

digits_value-hex_digit :
    (d : ℕ) (cs : Bytes) (n : ℕ)
    → d < 16
    → digits_value (hex_digit d ∷ cs) n ≡ digits_value cs (n * 16 + d)
unfolding digits_value
digits_value-hex_digit d cs n h =
    ap (λ (o : Option ℕ). elim o [ none ↦ none | some e ↦ digits_value cs (n * 16 + e) ])
      (digit_back d h)

digits_value-hex4 : (size : ℕ) → size < 65536 → digits_value (hex4 size) 0 ≡ some size
unfolding hex4
digits_value-hex4 size h =
    digits_value-hex_digit (size / 4096) _ 0 (omega arith)
    ∙ digits_value-hex_digit (size / 256 % 16) _ _ (omega arith)
    ∙ digits_value-hex_digit (size / 16 % 16) _ _ (omega arith)
    ∙ digits_value-hex_digit (size % 16) _ _ (omega arith)
    ∙ unfold digits_value in ap some (omega arith)

unsigned_value-some :
    (minus : Bool) (d : ℕ) (ds : Bytes) (n : ℕ)
    → digits_value (d ∷ ds) 0 ≡ some n
    → unsigned_value minus (d ∷ ds) ≡ some (minus, n)
unfolding unsigned_value
unsigned_value-some minus d ds n h =
    ap (λ (o : Option ℕ). elim o [ none ↦ none | some m ↦ some (minus, m) ]) h

parse_int16-unsigned :
    (d : ℕ) (ds : Bytes) (n : ℕ)
    → (d == b'+') ≡ false
    → (d == b'-') ≡ false
    → digits_value (d ∷ ds) 0 ≡ some n
    → parse_int16 (d ∷ ds) ≡ some (false, n)
unfolding parse_int16
parse_int16-unsigned d ds n plus minus h = rw (plus, minus) (unsigned_value-some false d ds n h)

pub parse_int16-hex4 : (size : ℕ) → size < 65536 → parse_int16 (hex4 size) ≡ some (false, size)
unfolding hex4
parse_int16-hex4 size h =
    let (plus, minus) = digit_no_sign (size / 4096) (omega arith) in
    parse_int16-unsigned (hex_digit (size / 4096)) _ size plus minus (digits_value-hex4 size h)

-- The header of a packet, whose size is 4 at least, is not the delimiter.
pub hex4-ne-delim :
    (size : ℕ) → 4 ≤ size → size < 65536 → bytes_eq (hex4 size) (codes "0001") ≡ false
unfolding parse_int16 digit_value
hex4-ne-delim size pos h = elim (Bool-cases (bytes_eq (hex4 size) (codes "0001"))) [
  | inl same ↦
      let one : parse_int16 (hex4 size) ≡ some (false, 1) = ap parse_int16 (bytes_eq→eq _ _ same) in
      absurd (ground (arith, one, parse_int16-hex4 size h))
  | inr other ↦ other
]
