-- ===== src/Sshserver/Protocol.antt =====
-- kailab/sshserver/protocol.go: git's pkt-line format and the side band. A reader is the list of the
-- bytes that are still to come. A writer is nil, or holds the bytes that it has taken; whether it takes
-- a Write or fails is the environment's choice, `accepts`.
pub mod Hex
pub mod PktLine
pub mod SideBand
mod Tests
use kai_server.Common.{
  ℕ, zero, suc, ◌+◌, ◌-◌, ◌*◌, ◌/◌, ◌%◌, ◌<◌, Bool, true, false, ◌&&◌, ◌||◌, not, Option, none,
  some, [], ◌∷◌, ◌++◌, ltb, leb, ◌==◌, if◌then◌else◌, length, take, drop, Result, ok, err, stuck,
  ◌>>=◌,
}
use kai_server.Common.Bytes.{Bytes, bytes_eq, codes}

pub data PktError : Type 0 where
  nil_writer too_long write_failed unexpected_eof invalid_header invalid_length : PktError

pub data PktType : Type 0 where
  pkt_data pkt_flush pkt_delim : PktType

-- fmt.Sprintf("%04x", size), for a size of at most 0xffff
unfoldable pub hex_digit : ℕ → ℕ
hex_digit d = if ltb d 10 then b'0' + d else b'a' + d - 10

unfoldable pub hex4 : ℕ → Bytes
unfolding hex_digit
hex4 size =
    hex_digit (size / 4096)
    ∷ hex_digit (size / 256 % 16)
    ∷ hex_digit (size / 16 % 16)
    ∷ hex_digit (size % 16)
    ∷ []

-- strconv.ParseInt(s, 16, 0): a sign, and digits of either case. No four of them overflow.
unfoldable pub digit_value : ℕ → Option ℕ
digit_value c =
    if leb b'0' c && leb c b'9'
    then some (c - b'0')
    else if leb b'a' c && leb c b'f'
    then some (c - b'a' + 10)
    else if leb b'A' c && leb c b'F'
    then some (c - b'A' + 10)
    else none

unfoldable pub digits_value : Bytes → ℕ → Option ℕ
digits_value [] n = some n
digits_value (c ∷ cs) n =
    let rest = λ (d : ℕ). digits_value cs (n * 16 + d) in
    elim (digit_value c) [ none ↦ none | some d ↦ rest d ]

-- the digits behind the sign, of which there is one at least
unfoldable pub unsigned_value : Bool → Bytes → Option (Bool × ℕ)
unfolding digits_value
unsigned_value minus [] = none
unsigned_value minus (d ∷ ds) = elim (digits_value (d ∷ ds) 0) [
  | none ↦ none
  | some n ↦ some (minus, n)
]

-- whether there is a minus, and the magnitude
unfoldable pub parse_int16 : Bytes → Option (Bool × ℕ)
unfolding unsigned_value
parse_int16 [] = none
parse_int16 (c ∷ cs) =
    if c == b'+'
    then unsigned_value false cs
    else if c == b'-'
    then unsigned_value true cs
    else unsigned_value false (c ∷ cs)

-- io.ReadFull(r, make([]byte, n))
unfoldable pub read_full : ℕ → Bytes → Result PktError (Bytes × Bytes)
read_full n r = if ltb (length r) n then err unexpected_eof else ok (take n r, drop n r)

-- what readPktLineV2 does with the number in the header
unfoldable pub read_payload : Bool → ℕ → Bytes → Result PktError (Bytes × PktType × Bytes)
read_payload minus n r =
    if n == 0
    then ok ([], pkt_flush, r)
    else if minus || ltb n 4
    then err invalid_length
    else (do (payload, r') ← read_full (n - 4) r; ok (payload, pkt_data, r'))

unfoldable pub read_pkt_line_v2 : Bytes → Result PktError (Bytes × PktType × Bytes)
read_pkt_line_v2 r = do
  (header, r') ← read_full 4 r
  if bytes_eq header (codes "0001") then ok ([], pkt_delim, r') else elim (parse_int16 header) [
    | none ↦ err invalid_header
    | some (minus, n) ↦ read_payload minus n r'
  ]

abbrev pub is_flush : PktType → Bool
is_flush pkt_data = false
is_flush pkt_flush = true
is_flush pkt_delim = true

unfoldable pub read_pkt_line : Bytes → Result PktError (Bytes × Bool × Bytes)
read_pkt_line r = do (payload, type, r') ← read_pkt_line_v2 r; ok (payload, is_flush type, r')

pub data Writer : Type 0 where
  nil : Writer
  taken : Bytes → Writer

module _ (accepts : Bytes → Bytes → Bool) where
  -- a call of w.Write; a writer that fails has taken nothing
  unfoldable pub write : Writer → Bytes → Option PktError × Writer
  write nil p = (some nil_writer, nil)
  write (taken out) p =
      if accepts out p then (none, taken (out ++ p)) else (some write_failed, taken out)

  -- if _, err := io.WriteString(w, header); err != nil { return err }, then the next Write
  unfoldable pub write_after : Option PktError × Writer → Bytes → Option PktError × Writer
  write_after (some e, w) p = (some e, w)
  write_after (none, w) p = write w p

  -- writePktLine and writePktLineBytes
  unfoldable pub write_pkt_line : Writer → Bytes → Option PktError × Writer
  write_pkt_line nil payload = (some nil_writer, nil)
  write_pkt_line (taken out) payload =
      let size = length payload + 4 in
      if ltb 0xffff size
      then (some too_long, taken out)
      else write_after (write (taken out) (hex4 size)) payload

  unfoldable pub write_flush : Writer → Option PktError × Writer
  write_flush nil = (some nil_writer, nil)
  write_flush (taken out) = write (taken out) (codes "0000")

  unfoldable pub write_delim : Writer → Option PktError × Writer
  write_delim nil = (some nil_writer, nil)
  write_delim (taken out) = write (taken out) (codes "0001")

  unfoldable pub write_git_error : Writer → Bytes → Option PktError × Writer
  write_git_error w msg = write_pkt_line w (codes "ERR " ++ msg)

  -- the loop of sideBandWriter.Write: the bytes written so far, the error, and the writer
  unfoldable pub side_band_loop :
      ℕ → ℕ → ℕ → Writer → Bytes → ℕ → Result PktError (ℕ × Option PktError × Writer)
  side_band_loop fuel max_data channel w [] written = ok (written, none, w)
  side_band_loop zero max_data channel w (b ∷ p) written = stuck
  side_band_loop (suc fuel) max_data channel w (b ∷ p) written =
      let chunk = if ltb max_data (length (b ∷ p)) then max_data else length (b ∷ p) in
      let sent = write_pkt_line w (channel ∷ take chunk (b ∷ p)) in
      elim sent.0 [
        | some e ↦ ok (written, some e, sent.1)
        | none ↦ side_band_loop fuel max_data channel sent.1 (drop chunk (b ∷ p)) (written + chunk)
      ]

  -- Each round takes a byte at least if maxData is positive; with maxData 0 the loop does not end.
  unfoldable pub side_band_write :
      ℕ → ℕ → Writer → Bytes → Result PktError (ℕ × Option PktError × Writer)
  side_band_write max_data channel w p = side_band_loop (length p) max_data channel w p 0
