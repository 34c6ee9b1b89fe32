-- ===== src/Sshserver/Protocol/Tests.antt =====
-- Runs of the pkt-line code, and its theorems at concrete inputs.
use kai_server.Common.{ltb, ◌+◌, ◌≡◌, refl, Bool, true, [], ◌∷◌, ◌++◌, none, ok, err, length}
use kai_server.Common.Bytes.{Bytes, bytes_eq, codes}
use kai_server.Sshserver.Protocol.{
  pkt_data, invalid_length, hex4, read_full, parse_int16, digit_value, read_payload,
  read_pkt_line_v2, taken, write, write_after, write_pkt_line, side_band_write, side_band_loop,
}
use kai_server.Sshserver.Protocol.PktLine.{read_pkt_line-write_pkt_line}

abbrev always : Bytes → Bytes → Bool
always out p = true

written : write_pkt_line always (taken []) (codes "done") ≡ (none, taken (codes "0008done"))
unfolding write_pkt_line write write_after hex4
written = refl

read_back : read_pkt_line_v2 (codes "0008done0000") ≡ ok (codes "done", pkt_data, codes "0000")
unfolding read_pkt_line_v2 read_full parse_int16 digit_value read_payload bytes_eq
read_back = refl

-- ParseInt takes a sign in the header.
signed_header : read_pkt_line_v2 (codes "+005x") ≡ ok (codes "x", pkt_data, [])
unfolding read_pkt_line_v2 read_full parse_int16 digit_value read_payload bytes_eq
signed_header = refl

short_length : read_pkt_line_v2 (codes "0003") ≡ err invalid_length
unfolding read_pkt_line_v2 read_full parse_int16 digit_value read_payload bytes_eq
short_length = refl

-- A writer with room for ten bytes.
abbrev ten_bytes : Bytes → Bytes → Bool
ten_bytes out p = ltb (length out + length p) 11

banded :
    side_band_write always 3 1 (taken []) (codes "abcd")
    ≡ ok (4, none, taken (codes "0008" ++ (1 ∷ codes "abc") ++ codes "0006" ++ (1 ∷ codes "d")))
unfolding side_band_write side_band_loop write_pkt_line write write_after hex4
banded = refl

abbrev one_packet : Bytes
one_packet = codes "0008" ++ (1 ∷ codes "abc")

read_pkt_line-write_pkt_line_example :
    read_pkt_line_v2 (codes "0008done" ++ codes "0000") ≡ ok (codes "done", pkt_data, codes "0000")
read_pkt_line-write_pkt_line_example =
    read_pkt_line-write_pkt_line always (codes "done") (codes "0000") (codes "0008done") written
