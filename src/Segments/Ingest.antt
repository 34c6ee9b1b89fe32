-- ===== src/Segments/Ingest.antt =====
-- segment.go: the ingestion of a pack, the building of one, and the extraction of an object.
use kai_server.Common.Bytes.{Bytes, bytes_eq}
use kai_server.Common.{
  ℕ, suc, ◌+◌, ◌*◌, ◌/◌, ◌%◌, Bool, false, ◌||◌, String, str_eq, List, [], ◌∷◌, ◌++◌, Option, none,
  some, Result, ok, err, panic, ◌>>=◌, ◌>>◌, guard, length, take, drop, leb, if◌then◌else◌,
}
use kai_server.Segments.Tables.{
  PackError, reading_length, header_too_large, reading_header, parsing_header, reading_data,
  beginning, beyond_data, digest_mismatch, committing, beyond_segment, ObjectInfo, Tables, Call,
  begins, commits, insert_segment, insert_object, record_node_publish, enqueue_for_enrichment,
  get_object_info, get_segment_blob, read_range,
}

-- (PackObjectEntry)
pub record PackObjectEntry : Type 0 where
  pub digest : Bytes
  pub kind : String
  pub offset : ℕ
  pub length : ℕ

-- (PackObject)
pub record PackObject : Type 0 where
  pub digest : Bytes
  pub kind : String
  pub content : Bytes

abbrev pub header_length_size : ℕ
header_length_size = 4

abbrev pub max_header_size : ℕ
max_header_size = 10485760

-- What the decoder of zstd gives: bytes, and whether it fails behind them.
pub record Stream : Type 0 where
  pub bytes : Bytes
  pub broken : Bool

-- io.ReadFull
unfoldable pub read_exactly : PackError → ℕ → Stream → Result PackError (Bytes × Stream)
read_exactly e n s =
    if leb n (length s.bytes)
    then ok (take n s.bytes, record s { bytes = drop n s.bytes })
    else err e

-- binary.BigEndian.Uint32 on a buffer of four bytes
unfoldable pub be_uint32 : Bytes → ℕ
be_uint32 (a ∷ b ∷ c ∷ d ∷ _) = ((a * 256 + b) * 256 + c) * 256 + d
be_uint32 _ = 0

-- binary.BigEndian.PutUint32 of uint32(n)
unfoldable pub put_uint32 : ℕ → Bytes
put_uint32 n = n / 16777216 % 256 ∷ n / 65536 % 256 ∷ n / 256 % 256 ∷ n % 256 ∷ []

abbrev semantic_kinds : List String
semantic_kinds =
    "Snapshot" ∷ "ChangeSet" ∷ "Symbol" ∷ "Module" ∷ "File" ∷ "ChangeType" ∷ "Workspace" ∷ []

unfoldable pub is_one_of : List String → String → Bool
is_one_of [] kind = false
is_one_of (k ∷ ks) kind = str_eq kind k || is_one_of ks kind

-- (isSemanticKind)
abbrev pub is_semantic_kind : String → Bool
is_semantic_kind = is_one_of semantic_kinds

-- obj.Digest[:8], which reaches into the capacity that encoding/json gives a decoded slice: the
-- next multiple of three.
unfoldable pub first_eight : Bytes → Result PackError (Unit {0})
first_eight digest = if leb 8 ((length digest + 2) / 3 * 3) then ok tt else panic

-- The error of an object that reaches beyond the data, whose text needs eight bytes of the digest.
abbrev pub extends_beyond : Bytes → Result PackError Bytes
extends_beyond digest = first_eight digest >> err beyond_data

-- IngestSegment records the published nodes of its kinds, and enqueues a snapshot after that;
-- IngestSegmentToDB and PgIngestSegmentToDB enqueue it only.
pub data Variant : Type 0 where
  with_publishing enqueueing_only : Variant

unfoldable pub enqueue_snapshot : (Call → Bool) → PackObjectEntry → Tables → Result PackError Tables
enqueue_snapshot works o t =
    if str_eq o.kind "Snapshot" then enqueue_for_enrichment works o.digest o.kind t else ok t

unfoldable pub announce :
    Variant → (Call → Bool) → String → PackObjectEntry → Tables → Result PackError Tables
announce enqueueing_only works actor o t = enqueue_snapshot works o t
announce with_publishing works actor o t =
    if is_semantic_kind o.kind
    then (do t' ← record_node_publish works o.digest o.kind actor t; enqueue_snapshot works o t')
    else ok t

-- A row for an entry of the header.
abbrev pub row : ℕ → PackObjectEntry → ObjectInfo
row id o = record { digest = o.digest; segment = id; off = o.offset; len = o.length; kind = o.kind }

-- What json.Unmarshal of the header gives, or its error.
abbrev pub required : Option (List PackObjectEntry) → Result PackError (List PackObjectEntry)
required none = err parsing_header
required (some os) = ok os

-- io.Copy of what is left
abbrev pub read_rest : Stream → Result PackError Bytes
read_rest s = if s.broken then err reading_data else ok s.bytes

-- `blake3` is cas.Blake3Hash, and `parse_header` json.Unmarshal of the header.
module _ (blake3 : Bytes → Bytes) where
  -- The checks of one object against the data.
  unfoldable pub check_object : Bytes → PackObjectEntry → Result PackError (Unit {0})
  check_object data_bytes o = do
    content ← read_range (extends_beyond o.digest) o.offset o.length data_bytes
    guard (bytes_eq (blake3 content) o.digest) digest_mismatch

  -- The loop over the objects of the header; the number is that of the objects indexed.
  unfoldable pub index_objects :
      Variant
      → (Call → Bool)
      → String
      → ℕ
      → Bytes
      → List PackObjectEntry
      → Tables
      → Result PackError (Tables × ℕ)
  index_objects v works actor id data_bytes [] t = ok (t, 0)
  index_objects v works actor id data_bytes (o ∷ os) t = do
    _ ← check_object data_bytes o
    t' ← insert_object works (row id o) t
    t'' ← announce v works actor o t'
    (t''', n) ← index_objects v works actor id data_bytes os t''
    ok (t''', suc n)

  -- The transaction. On an error it is rolled back: the tables are as they were.
  unfoldable pub store_segment :
      Variant
      → (Call → Bool)
      → String
      → Bytes
      → List PackObjectEntry
      → Tables
      → Result PackError (Tables × ℕ × ℕ)
  store_segment v works actor data_bytes os t = do
    _ ← guard (works begins) beginning
    (t', id) ← insert_segment works data_bytes t
    (t'', n) ← index_objects v works actor id data_bytes os t'
    _ ← guard (works commits) committing
    ok (t'', id, n)

  -- (IngestSegment, IngestSegmentToDB, PgIngestSegmentToDB)
  unfoldable pub ingest_segment :
      (Bytes → Option (List PackObjectEntry))
      → Variant
      → (Call → Bool)
      → String
      → Stream
      → Tables
      → Result PackError (Tables × ℕ × ℕ)
  ingest_segment parse_header v works actor s t = do
    (size, s') ← read_exactly reading_length header_length_size s
    _ ← guard (leb (be_uint32 size) max_header_size) header_too_large
    (header, s'') ← read_exactly reading_header (be_uint32 size) s'
    os ← required (parse_header header)
    data_bytes ← read_rest s''
    store_segment v works actor data_bytes os t

-- The loop of BuildPack: the entries, with the offset at which the first one stands.
unfoldable pub entries : ℕ → List PackObject → List PackObjectEntry
entries offset [] = []
entries offset (o ∷ os) =
    record { digest = o.digest; kind = o.kind; offset = offset; length = length o.content }
    ∷ entries (offset + length o.content) os

unfoldable pub contents : List PackObject → Bytes
contents [] = []
contents (o ∷ os) = o.content ++ contents os

-- (BuildPack) up to the compression; `print_header` is json.Marshal of the header.
unfoldable pub build_pack : (List PackObjectEntry → Bytes) → List PackObject → Bytes
build_pack print_header os =
    let header = print_header (entries 0 os) in
    put_uint32 (length header) ++ (header ++ contents os)

-- (ExtractObject, ExtractObjectFromDB)
unfoldable pub extract_object : (Call → Bool) → Bytes → Tables → Result PackError (Bytes × String)
extract_object works digest t = do
  info ← get_object_info works digest t
  blob ← get_segment_blob works info.segment t
  content ← read_range (err beyond_segment) info.off info.len blob
  ok (content, info.kind)

-- (PgGetSegmentBlobByID) `external` is the answer of the external store, none without one or on its
-- error; an empty answer counts as none.
unfoldable pub pg_get_segment_blob :
    Option Bytes → (Call → Bool) → ℕ → Tables → Result PackError Bytes
pg_get_segment_blob (some (b ∷ bs)) works id t = ok (b ∷ bs)
pg_get_segment_blob (some []) works id t = get_segment_blob works id t
pg_get_segment_blob none works id t = get_segment_blob works id t

-- PgExtractObjectFromDB behind the query: `range` is the answer of the range read, as above.
unfoldable pub pg_content :
    Option Bytes → Option Bytes → (Call → Bool) → ObjectInfo → Tables → Result PackError Bytes
pg_content (some (b ∷ bs)) external works info t = ok (b ∷ bs)
pg_content _ external works info t = do
  blob ← pg_get_segment_blob external works info.segment t
  read_range (err beyond_segment) info.off info.len blob

-- (PgExtractObjectFromDB)
unfoldable pub pg_extract_object :
    Option Bytes → Option Bytes → (Call → Bool) → Bytes → Tables → Result PackError (Bytes × String)
pg_extract_object range external works digest t = do
  info ← get_object_info works digest t
  content ← pg_content range external works info t
  ok (content, info.kind)
