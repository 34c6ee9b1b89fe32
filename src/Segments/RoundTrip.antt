-- ===== src/Segments/RoundTrip.antt =====
-- segment.go: a pack that BuildPack made is ingested.
use mathlib.Core.Path.{subst, subst⁻¹}
use kai_server.Common.Bytes.{Bytes, bytes_eq_iff}
use kai_server.Common.{
  ℕ, suc, ◌+◌, ◌-◌, ◌<◌, ◌≤◌, ◌≡◌, refl, sym, ap, ◌∙◌, arith, Bool, true, false, ◌&&◌, String,
  str_eq, List, [], ◌∷◌, ◌++◌, append_assoc, Option, some, inl, inr, Result, ok, length,
  length-append, take, take-append_length, drop-append_length, All, Bool-cases, ltb, leb,
}
use kai_server.Segments.Tables.{
  PackError, ObjectInfo, Tables, Call, add_object, insert_segment, insert_object,
  record_node_publish, enqueue_for_enrichment, slice, read_range, add_int64, exceeds, int64_limit,
}
use kai_server.Segments.Ingest.{
  PackObject, PackObjectEntry, Variant, with_publishing, enqueueing_only, enqueue_snapshot,
  announce, row, check_object, index_objects, store_segment, read_exactly, ingest_segment,
  be_uint32, put_uint32, max_header_size, entries, contents, build_pack, is_semantic_kind,
  extends_beyond,
}

-- The length of the header is read back.
be_uint32-put_uint32 : (n : ℕ) (rest : Bytes) → n < 4294967296 → be_uint32 (put_uint32 n) ≡ n
unfolding be_uint32 put_uint32
be_uint32-put_uint32 n rest h = omega arith

-- A part in the middle of a slice.
slice-middle :
    (a b c : Bytes)
    → length (a ++ (b ++ c)) < 9223372036854775808
    → slice (length a) (length a + length b) (a ++ (b ++ c)) ≡ ok b
unfolding slice
slice-middle a b c h =
    rw
      (in_range (length a) (length a + length b) (length (a ++ (b ++ c))) (omega arith)
        (omega (arith, length-append a (b ++ c), length-append b c)) h)
      (ap ok (
        ap (take (length a + length b - length a)) (drop-append_length a (b ++ c))
        ∙ ap (λ n. take n (b ++ c)) {x = length a + length b - length a} {y = length b}
            (omega arith)
        ∙ take-append_length b c))
  where
    in_range :
        (from to size : ℕ)
        → from ≤ to
        → to ≤ size
        → size < 9223372036854775808
        → (leb from to && leb to size && ltb to 9223372036854775808) ≡ true
    in_range from to size h1 h2 h3 = ground arith

read_range-middle :
    (over : Result PackError Bytes) (a b c : Bytes)
    → length (a ++ (b ++ c)) < 9223372036854775808
    → read_range over (length a) (length b) (a ++ (b ++ c)) ≡ ok b
unfolding read_range
read_range-middle over a b c h =
    let sum : add_int64 (length a) (length b) ≡ length a + length b =
      omega (arith, length-append a (b ++ c), length-append b c) in
    let fits : exceeds (length a + length b) (a ++ (b ++ c)) ≡ false =
      not_above (length a + length b) (length (a ++ (b ++ c)))
        (omega (arith, length-append a (b ++ c), length-append b c)) in
    rw (sum, fits) (slice-middle a b c h)
  where
    not_above : (m size : ℕ) → m ≤ size → (ltb m 9223372036854775808 && ltb size m) ≡ false
    not_above m size h1 = ground arith

module _ (blake3 : Bytes → Bytes) (v : Variant) (works : Call → Bool) (actor : String)
    (all_work : (c : Call) → works c ≡ true) where
  insert_object-works :
      (o : ObjectInfo) (t : Tables) → (t' : Tables) × (insert_object works o t ≡ ok t')
  unfolding insert_object
  insert_object-works o t = (
    record t { objects = add_object o t.objects },
    rw (all_work (Call.inserts_object o.digest)) refl,
  )

  enqueue_snapshot-works :
      (o : PackObjectEntry) (t : Tables) → (t' : Tables) × (enqueue_snapshot works o t ≡ ok t')
  unfolding enqueue_snapshot enqueue_for_enrichment
  enqueue_snapshot-works o t = elim (Bool-cases (str_eq o.kind "Snapshot")) [
    | inl s ↦ (
      record t { queue = t.queue ++ ((o.digest, o.kind) ∷ []) },
      rw (s) (rw (all_work (Call.enqueues o.digest)) refl),
    )
    | inr s ↦ (t, rw (s) refl)
  ]

  announce-works :
      (v : Variant) (o : PackObjectEntry) (t : Tables)
      → (t' : Tables) × (announce v works actor o t ≡ ok t')
  unfolding announce record_node_publish
  announce-works enqueueing_only o t = enqueue_snapshot-works o t
  announce-works with_publishing o t = elim (Bool-cases (is_semantic_kind o.kind)) [
    | inr s ↦ (t, rw (s) refl)
    | inl s ↦
        let (t', e) =
          enqueue_snapshot-works o
            (record t { published = t.published ++ ((o.digest, o.kind, actor) ∷ []) }) in
        (t', rw (s) (rw (all_work (Call.publishes o.digest)) e))
  ]

  check_object-middle :
      (a b c : Bytes) (o : PackObjectEntry)
      → length (a ++ (b ++ c)) < 9223372036854775808
      → o.offset ≡ length a
      → o.length ≡ length b
      → blake3 b ≡ o.digest
      → check_object blake3 (a ++ (b ++ c)) o ≡ ok tt
  unfolding check_object
  check_object-middle a b c o h off len hash =
      let range : read_range (extends_beyond o.digest) o.offset o.length (a ++ (b ++ c)) ≡ ok b =
        rw (off, len) (read_range-middle (extends_beyond o.digest) a b c h) in
      rw (range) (rw ((bytes_eq_iff (blake3 b) o.digest).1 hash) refl)

  index_objects-entries :
      (os : List PackObject) (pre blob : Bytes) (id : ℕ) (t : Tables)
      → blob ≡ pre ++ contents os
      → length blob < 9223372036854775808
      → All (λ o. blake3 o.content ≡ o.digest) os
      → (t' : Tables) × (index_objects blake3 v works actor id blob (entries (length pre) os) t
          ≡ ok (t', length os))
  unfolding index_objects entries contents
  index_objects-entries [] pre blob id t e h a = (t, refl)
  index_objects-entries (o ∷ os) pre blob id t e h (hash, a) =
      let entry : PackObjectEntry = record {
        digest = o.digest;
        kind = o.kind;
        offset = length pre;
        length = length o.content;
      } in
      let checked =
        subst⁻¹ (λ b. check_object blake3 b entry ≡ ok tt) e
          (check_object-middle pre o.content (contents os) entry
            (subst (λ b. length b < 9223372036854775808) e h) refl refl hash) in
      let (t1, inserted) = insert_object-works (row id entry) t in
      let (t2, announced) = announce-works v entry t1 in
      let (t3, rest) =
        index_objects-entries os (pre ++ o.content) blob id t2
          (e ∙ sym (append_assoc pre o.content (contents os))) h a in
      let same =
        ap (λ n. index_objects blake3 v works actor id blob (entries n os) t2)
          (sym (length-append pre o.content))
        ∙ rest in
      (t3, rw (checked) (rw (inserted) (rw (announced) (rw (same) refl))))

read_exactly-append :
    (e : PackError) (n : ℕ) (xs ys : Bytes) (b : Bool)
    → n ≡ length xs
    → read_exactly e n (record { bytes = xs ++ ys; broken = b })
      ≡ ok (xs, record { bytes = ys; broken = b })
unfolding read_exactly
read_exactly-append e n xs ys b same =
    rw (enough n (length (xs ++ ys)) (omega (arith, length-append xs ys)))
      (rw (same) (rw (take-append_length xs ys, drop-append_length xs ys) refl))
  where
    enough : (m size : ℕ) → m ≤ size → leb m size ≡ true
    enough m size h = ground arith

-- A pack that BuildPack made of objects under their digests, decompressed, is ingested if its header
-- is read back and no larger than the limit, its data have less than 2^63 bytes, and every
-- statement works: each object is indexed.
pub ingest_segment-build_pack :
    (blake3 : Bytes → Bytes) (print_header : List PackObjectEntry → Bytes)
    (parse_header : Bytes → Option (List PackObjectEntry)) (v : Variant) (works : Call → Bool)
    (actor : String) (os : List PackObject) (t : Tables)
    → parse_header (print_header (entries 0 os)) ≡ some (entries 0 os)
    → ((c : Call) → works c ≡ true)
    → All (λ o. blake3 o.content ≡ o.digest) os
    → length (print_header (entries 0 os)) ≤ max_header_size
    → length (contents os) < int64_limit
    → (t' : Tables) × (id : ℕ) × (ingest_segment blake3 parse_header v works actor
          (record { bytes = build_pack print_header os; broken = false })
          t
        ≡ ok (t', id, length os))
unfolding ingest_segment build_pack store_segment insert_segment put_uint32
ingest_segment-build_pack blake3 print_header parse_header v works actor os t reads all_work hashes
      small fits =
    let header = print_header (entries 0 os) in
    let n = length header in
    let t1 = record t {
      next_segment = suc t.next_segment;
      segments = (t.next_segment, contents os) ∷ t.segments;
    } in
    let (t2, indexed) =
      index_objects-entries blake3 v works actor all_work os [] (contents os) t.next_segment t1 refl
        fits hashes in
    let first =
      read_exactly-append PackError.reading_length 4 (put_uint32 n) (header ++ contents os) false
        refl in
    let second = read_exactly-append PackError.reading_header n header (contents os) false refl in
    let size = be_uint32-put_uint32 n [] (omega arith) in
    (
      t2,
      t.next_segment,
      rw (first) (
          rw (size) (
            rw (small_enough n small) (
              rw (second) (
                rw (reads) (
                  rw (all_work Call.begins) (
                    rw (all_work Call.inserts_segment)
                      (rw (indexed) (rw (all_work Call.commits) refl)))))))),
    )
  where
    small_enough : (m : ℕ) → m ≤ max_header_size → leb m max_header_size ≡ true
    small_enough m h = ground arith
