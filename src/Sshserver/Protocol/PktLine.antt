-- ===== src/Sshserver/Protocol/PktLine.antt =====
-- protocol.go: reading back what was written.
use kai_server.Common.{
  ℕ, ◌+◌, ◌-◌, ◌≤◌, ◌≡◌, refl, ap, ◌∙◌, arith, Bool, false, none, some, [], ◌++◌, append_assoc,
  length, length-append, take, drop, ◌⊎◌, take-append-drop, Option-cases, ok-bind,
  take-append_length, drop-append_length, ltb, ◌==◌, if◌then◌else◌, ok, err, Bool-cases, inl, inr,
}
use kai_server.Common.Bytes.{Bytes, bytes_eq, codes}
use kai_server.Sshserver.Protocol.{
  invalid_header, PktType, pkt_data, pkt_delim, hex4, read_full, parse_int16, read_payload,
  read_pkt_line_v2, Writer, taken, write, write_after, write_pkt_line,
}
use kai_server.Sshserver.Protocol.Hex.{parse_int16-hex4, hex4-ne-delim}

-- A packet on the wire.
abbrev pub packet : Bytes → Bytes
packet payload = hex4 (length payload + 4) ++ payload

-- A writer that took a packet holds it behind what it held.
pub write_pkt_line-packet :
    (accepts : Bytes → Bytes → Bool) (out payload : Bytes) (w : Writer)
    → write_pkt_line accepts (taken out) payload ≡ (none, w)
    → (length payload + 4 ≤ 0xffff) × (w ≡ taken (out ++ packet payload))
unfolding write_pkt_line write_after write
write_pkt_line-packet accepts out payload w h =
    let header = hex4 (length payload + 4) in ground (arith, append_assoc out header payload)

read_full-append : (n : ℕ) (xs ys : Bytes) → length xs ≡ n → read_full n (xs ++ ys) ≡ ok (xs, ys)
unfolding read_full
read_full-append n xs ys h =
    let whole : ltb (length (xs ++ ys)) n ≡ false = ground (arith, length-append xs ys) in
    rw (whole, ← h, take-append_length xs ys, drop-append_length xs ys)

read_payload-data :
    (payload rest : Bytes)
    → read_payload false (length payload + 4) (payload ++ rest) ≡ ok (payload, pkt_data, rest)
unfolding read_payload
read_payload-data payload rest =
    let n₀ : (length payload + 4 == 0) ≡ false = ground arith in
    let n₄ : ltb (length payload + 4) 4 ≡ false = ground arith in
    rw (n₀, n₄, read_full-append (length payload + 4 - 4) payload rest (omega arith))

read_pkt_line_v2-header :
    (header r : Bytes) (minus : Bool) (n : ℕ)
    → length header ≡ 4
    → bytes_eq header (codes "0001") ≡ false
    → parse_int16 header ≡ some (minus, n)
    → read_pkt_line_v2 (header ++ r) ≡ read_payload minus n r
unfolding read_pkt_line_v2
read_pkt_line_v2-header header r minus n len data_or_flush parsed =
    rw (read_full-append 4 header r len, data_or_flush, parsed)

length-hex4 : (size : ℕ) → length (hex4 size) ≡ 4
unfolding hex4
length-hex4 size = refl

pub read_pkt_line_v2-packet :
    (payload rest : Bytes)
    → length payload + 4 ≤ 0xffff
    → read_pkt_line_v2 (packet payload ++ rest) ≡ ok (payload, pkt_data, rest)
read_pkt_line_v2-packet payload rest fits =
    let size : ℕ = length payload + 4 in
    ap read_pkt_line_v2 (append_assoc (hex4 size) payload rest)
    ∙ read_pkt_line_v2-header (hex4 size) (payload ++ rest) false size (length-hex4 size)
        (hex4-ne-delim size (omega arith) (omega arith)) (parse_int16-hex4 size (omega arith))
    ∙ read_payload-data payload rest

-- A payload of at most 0xfffb bytes that a writer takes is read back whole, as data, whatever
-- follows it.
pub read_pkt_line-write_pkt_line :
    (accepts : Bytes → Bytes → Bool) (payload rest wire : Bytes)
    → write_pkt_line accepts (taken []) payload ≡ (none, taken wire)
    → read_pkt_line_v2 (wire ++ rest) ≡ ok (payload, pkt_data, rest)
read_pkt_line-write_pkt_line accepts payload rest wire h =
    let (fits, held) = write_pkt_line-packet accepts [] payload (taken wire) h in
    let same : wire ≡ packet payload = ground (arith, held) in
    ap (λ r. read_pkt_line_v2 (r ++ rest)) same ∙ read_pkt_line_v2-packet payload rest fits

read_full-split :
    (n : ℕ) (r : Bytes) {xs ys : Bytes}
    → read_full n r ≡ ok (xs, ys)
    → (xs ≡ take n r) × (ys ≡ drop n r)
unfolding read_full
read_full-split n r {xs} {ys} h = ground arith

abbrev pub HasShape : Bytes → PktType → Type 0
HasShape payload type = (payload ≡ []) ⊎ (type ≡ pkt_data)

read_payload-split :
    (minus : Bool) (n : ℕ) (r payload rest : Bytes) (type : PktType)
    → read_payload minus n r ≡ ok (payload, type, rest)
    → (payload ++ rest ≡ r) × HasShape payload type
unfolding read_payload read_full
read_payload-split minus n r payload rest type h = ground (arith, take-append-drop (n - 4) r)

header-split :
    (header r payload rest : Bytes) (type : PktType)
    → (if bytes_eq header (codes "0001") then ok ([], pkt_delim, r) else elim (parse_int16 header) [
      | none ↦ err invalid_header
      | some (m, n) ↦ read_payload m n r
    ])
      ≡ ok (payload, type, rest)
    → (payload ++ rest ≡ r) × HasShape payload type
header-split header r payload rest type h = elim (Bool-cases (bytes_eq header (codes "0001"))) [
  | inl delim ↦ let h' = rw delim at h in ground arith
  | inr other ↦ elim (Option-cases (parse_int16 header)) [
    | inl bad ↦ let h' = rw (other, bad) at h in absurd (cc)
    | inr ((m, n), good) ↦ read_payload-split m n r payload rest type (rw (other, good) at h)
  ]
]

-- A packet that was read is four bytes of header and its payload, and the reader stands right
-- behind it; a flush or a delimiter has no payload.
pub read_pkt_line_v2-split :
    (r payload rest : Bytes) (type : PktType)
    → read_pkt_line_v2 r ≡ ok (payload, type, rest)
    → (take 4 r ++ (payload ++ rest) ≡ r) × HasShape payload type
unfolding read_pkt_line_v2
read_pkt_line_v2-split r payload rest type h =
    let ((header, r'), read, more) = ok-bind (read_full 4 r) _ _ h in
    let (front, back) = read_full-split 4 r read in
    let (all, shape) = header-split header r' payload rest type more in
    (ap (λ x. take 4 r ++ x) (all ∙ back) ∙ take-append-drop 4 r, shape)
