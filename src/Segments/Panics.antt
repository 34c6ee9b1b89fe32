-- ===== src/Segments/Panics.antt =====
-- segment.go: the bounds check of an object does not look for a negative offset.
use kai_server.Common.Bytes.{Bytes}
use kai_server.Common.{ℕ, ◌<◌, ◌≤◌, ◌≡◌, refl, arith, false, ◌&&◌, panic, length, ltb, leb}
use kai_server.Segments.Tables.{read_range, slice, add_int64, int64_limit}
use kai_server.Segments.Ingest.{PackObjectEntry, check_object}

-- An object with a negative offset and a length no greater than the data passes the check of its
-- end, and the slice behind it panics.
pub check_object-negative :
    (blake3 : Bytes → Bytes) (blob : Bytes) (o : PackObjectEntry)
    → length blob < int64_limit
    → int64_limit ≤ o.offset
    → o.offset < 18446744073709551616
    → o.length ≤ length blob
    → check_object blake3 blob o ≡ panic
unfolding check_object read_range slice
check_object-negative blake3 blob o h low high short =
    rw (passes o.offset o.length (length blob) h low high short)
      (rw (outside o.offset o.length (length blob) h low) refl)
  where
    passes :
        (off len size : ℕ)
        → size < int64_limit
        → int64_limit ≤ off
        → off < 18446744073709551616
        → len ≤ size
        → (ltb (add_int64 off len) int64_limit && ltb size (add_int64 off len)) ≡ false
    passes off len size h1 h2 h3 h4 = ground arith

    outside :
        (off len size : ℕ)
        → size < int64_limit
        → int64_limit ≤ off
        → (leb off (add_int64 off len)
            && leb (add_int64 off len) size
            && ltb (add_int64 off len) int64_limit)
          ≡ false
    outside off len size h1 h2 = ground arith
