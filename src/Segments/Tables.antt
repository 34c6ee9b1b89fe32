-- ===== src/Segments/Tables.antt =====
-- kailab/store: the tables of segments, objects, published nodes and of the enrichment queue, with
-- the statements of segment.go on them.
--
-- Whether a statement works is the environment's choice. An id that AUTOINCREMENT gave is not given
-- again. Times are left out.
use kai_server.Common.Bytes.{Bytes, bytes_eq}
use kai_server.Common.{
  ℕ, suc, ◌+◌, ◌%◌, ◌-◌, Bool, ◌&&◌, String, List, [], ◌∷◌, ◌++◌, Option, none, some, Result, ok,
  err, panic, length, take, drop, ◌==◌, ltb, leb, if◌then◌else◌,
}

pub data PackError : Type 0 where
  reading_length header_too_large reading_header parsing_header reading_data : PackError
  beginning inserting_segment beyond_data digest_mismatch inserting_object : PackError
  recording_publish enqueueing committing : PackError
  object_not_found segment_not_found querying beyond_segment : PackError

-- A row of `objects`. An int64 is a number below 2^64, the negative ones being those from 2^63 on.
pub record ObjectInfo : Type 0 where
  pub digest : Bytes
  pub segment : ℕ
  pub off : ℕ
  pub len : ℕ
  pub kind : String

pub record Tables : Type 0 where
  pub next_segment : ℕ
  pub segments : List (ℕ × Bytes)
  pub objects : List ObjectInfo
  pub published : List (Bytes × String × String)
  pub queue : List (Bytes × String)

-- The statements of a transaction, and the queries behind it.
pub data Call : Type 0 where
  begins commits inserts_segment queries_segment : Call
  inserts_object publishes enqueues queries_object : Bytes → Call

-- (InsertSegmentTx) The id is the row's.
unfoldable pub insert_segment : (Call → Bool) → Bytes → Tables → Result PackError (Tables × ℕ)
insert_segment works blob t =
    if works inserts_segment
    then ok (
      record t {
        next_segment = suc t.next_segment;
        segments = (t.next_segment, blob) ∷ t.segments;
      },
      t.next_segment,
    )
    else err inserting_segment

-- SELECT ... FROM objects WHERE digest = ?
unfoldable pub find_object : Bytes → List ObjectInfo → Option ObjectInfo
find_object digest [] = none
find_object digest (o ∷ os) =
    let rest = find_object digest os in if bytes_eq o.digest digest then some o else rest

-- INSERT OR IGNORE INTO objects
abbrev pub add_object : ObjectInfo → List ObjectInfo → List ObjectInfo
add_object o os = elim (find_object o.digest os) [ none ↦ os ++ (o ∷ []) | some _ ↦ os ]

-- (InsertObjectTx)
unfoldable pub insert_object : (Call → Bool) → ObjectInfo → Tables → Result PackError Tables
insert_object works o t =
    if works (inserts_object o.digest)
    then ok (record t { objects = add_object o t.objects })
    else err inserting_object

-- (RecordNodePublish) without the chain of entries
unfoldable pub record_node_publish :
    (Call → Bool) → Bytes → String → String → Tables → Result PackError Tables
record_node_publish works digest kind actor t =
    if works (publishes digest)
    then ok (record t { published = t.published ++ ((digest, kind, actor) ∷ []) })
    else err recording_publish

-- (EnqueueForEnrichmentTx)
unfoldable pub enqueue_for_enrichment :
    (Call → Bool) → Bytes → String → Tables → Result PackError Tables
enqueue_for_enrichment works digest kind t =
    if works (enqueues digest)
    then ok (record t { queue = t.queue ++ ((digest, kind) ∷ []) })
    else err enqueueing

-- (GetObjectInfo)
unfoldable pub get_object_info : (Call → Bool) → Bytes → Tables → Result PackError ObjectInfo
get_object_info works digest t =
    if works (queries_object digest)
    then elim (find_object digest t.objects) [ none ↦ err object_not_found | some o ↦ ok o ]
    else err querying

unfoldable pub find_segment : ℕ → List (ℕ × Bytes) → Option Bytes
find_segment id [] = none
find_segment id ((i, blob) ∷ ss) =
    let rest = find_segment id ss in if i == id then some blob else rest

-- (GetSegmentBlobByID)
unfoldable pub get_segment_blob : (Call → Bool) → ℕ → Tables → Result PackError Bytes
get_segment_blob works id t =
    if works queries_segment
    then elim (find_segment id t.segments) [ none ↦ err segment_not_found | some b ↦ ok b ]
    else err querying

-- 2^63 and 2^64
abbrev pub int64_limit : ℕ
int64_limit = 9223372036854775808

abbrev pub add_int64 : ℕ → ℕ → ℕ
add_int64 a b = (a + b) % 18446744073709551616

-- a > int64(len(blob))
abbrev pub exceeds : ℕ → Bytes → Bool
exceeds a blob = ltb a int64_limit && ltb (length blob) a

-- blob[from:to], where a negative bound is out of range
unfoldable pub slice : ℕ → ℕ → Bytes → Result PackError Bytes
slice from to blob =
    if leb from to && leb to (length blob) && ltb to int64_limit
    then ok (take (to - from) (drop from blob))
    else panic

-- The check of off+len against the length and the slice after it; `over` is what the check gives.
unfoldable pub read_range : Result PackError Bytes → ℕ → ℕ → Bytes → Result PackError Bytes
read_range over off len blob =
    if exceeds (add_int64 off len) blob then over else slice off (add_int64 off len) blob
