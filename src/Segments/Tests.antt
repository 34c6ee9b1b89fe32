-- ===== src/Segments/Tests.antt =====
-- Runs on a small pack, and the theorems at concrete inputs. The hash keeps a slice as it is.
use kai_server.Common.Bytes.{Bytes, bytes_eq}
use kai_server.Common.{
  ℕ, ◌≡◌, ◌⊎◌, refl, arith, Bool, true, false, String, List, [], ◌∷◌, Option, some, ok, err, panic,
}
use kai_server.Segments.Tables.{
  PackError, Tables, Call, insert_segment, insert_object, find_object, find_segment,
  enqueue_for_enrichment, get_object_info, get_segment_blob, read_range, slice, beyond_data,
}
use kai_server.Segments.Ingest.{
  PackObject, PackObjectEntry, with_publishing, enqueueing_only, enqueue_snapshot, announce,
  first_eight, check_object, index_objects, store_segment, ingest_segment, read_exactly, be_uint32,
  put_uint32, entries, contents, build_pack, extract_object, Stream,
}
use kai_server.Segments.Integrity.{Integrity}
use kai_server.Segments.Ingestion.{Indexed, ingest_segment-Indexed, extract_object-digest}
use kai_server.Segments.RoundTrip.{ingest_segment-build_pack}
use kai_server.Segments.Panics.{check_object-negative}

abbrev same : Bytes → Bytes
same b = b

abbrev always : Call → Bool
always c = true

abbrev empty : Tables
empty = record { next_segment = 1; segments = []; objects = []; published = []; queue = [] }

abbrev objects : List PackObject
objects =
    record { digest = 7 ∷ 8 ∷ []; kind = "Snapshot"; content = 7 ∷ 8 ∷ [] }
    ∷ record { digest = 9 ∷ []; kind = "File"; content = 9 ∷ [] }
    ∷ []

-- A header that says nothing: the entries of `objects` whatever it is.
abbrev print_none : List PackObjectEntry → Bytes
print_none es = 123 ∷ []

abbrev parse_fixed : Bytes → Option (List PackObjectEntry)
parse_fixed header = some (entries 0 objects)

abbrev pack : Stream
pack = record { bytes = build_pack print_none objects; broken = false }

abbrev stored : Tables
stored = record {
  next_segment = 2;
  segments = (1, 7 ∷ 8 ∷ 9 ∷ []) ∷ [];
  objects =
      record { digest = 7 ∷ 8 ∷ []; segment = 1; off = 0; len = 2; kind = "Snapshot" }
      ∷ record { digest = 9 ∷ []; segment = 1; off = 2; len = 1; kind = "File" }
      ∷ [];
  published = [];
  queue = (7 ∷ 8 ∷ [], "Snapshot") ∷ [];
}

ingested :
    ingest_segment same parse_fixed enqueueing_only always "me" pack empty ≡ ok (stored, 1, 2)
unfolding ingest_segment build_pack entries contents read_exactly be_uint32 put_uint32 store_segment
    insert_segment index_objects check_object read_range slice insert_object find_object announce
    enqueue_snapshot enqueue_for_enrichment bytes_eq
ingested = refl

extracted : extract_object always (9 ∷ []) stored ≡ ok (9 ∷ [], "File")
unfolding extract_object get_object_info get_segment_blob find_object find_segment read_range slice
    bytes_eq
extracted = refl

-- An object that ends behind the data is an error with a digest of seven bytes, and panics with one
-- of six.
abbrev long : Bytes → PackObjectEntry
long digest = record { digest = digest; kind = "File"; offset = 0; length = 2 }

seven : check_object same (1 ∷ []) (long (1 ∷ 2 ∷ 3 ∷ 4 ∷ 5 ∷ 6 ∷ 7 ∷ [])) ≡ err beyond_data
unfolding check_object read_range first_eight
seven = refl

six : check_object same (1 ∷ []) (long (1 ∷ 2 ∷ 3 ∷ 4 ∷ 5 ∷ 6 ∷ [])) ≡ panic
unfolding check_object read_range first_eight
six = refl

empty-Integrity : Integrity same empty
unfolding find_segment
empty-Integrity = record { stored = tt; fresh = λ id blob f. absurd (cc) }

ingest_segment-Indexed_example :
    (header : Bytes) × (os : List PackObjectEntry) × (parse_fixed header ≡ some os)
    × Indexed same empty stored os 2
unfolding ingest_segment build_pack entries contents read_exactly be_uint32 put_uint32 store_segment
    insert_segment index_objects check_object read_range slice insert_object find_object announce
    enqueue_snapshot enqueue_for_enrichment bytes_eq
ingest_segment-Indexed_example =
    ingest_segment-Indexed same parse_fixed enqueueing_only always "me" pack empty stored 1 2
      empty-Integrity refl

stored-Integrity : Integrity same stored
unfolding find_segment read_range slice
stored-Integrity = record {
  stored = (
    (7 ∷ 8 ∷ 9 ∷ [], 7 ∷ 8 ∷ [], refl, refl, refl),
    ((7 ∷ 8 ∷ 9 ∷ [], 9 ∷ [], refl, refl, refl), tt),
  );
  fresh = λ id blob f. ground arith;
}

extract_object-digest_example :
    ((x : PackError) × (extract_object always (9 ∷ []) stored ≡ err x))
    ⊎ ((content : Bytes) × (kind : String) × (extract_object always (9 ∷ []) stored
          ≡ ok (content, kind))
        × (content ≡ 9 ∷ []))
extract_object-digest_example = extract_object-digest same always (9 ∷ []) stored stored-Integrity

ingest_segment-build_pack_example :
    (t' : Tables) × (id : ℕ) × (ingest_segment same parse_fixed with_publishing always "me" pack
        stored
      ≡ ok (t', id, 2))
unfolding entries contents
ingest_segment-build_pack_example =
    ingest_segment-build_pack same print_none parse_fixed with_publishing always "me" objects stored
      refl (λ c. refl) (refl, (refl, tt)) (omega arith) (omega arith)

check_object-negative_example :
    check_object same
      (1 ∷ 2 ∷ [])
      (record { digest = []; kind = "File"; offset = 18446744073709551615; length = 1 })
    ≡ panic
check_object-negative_example =
    check_object-negative same (1 ∷ 2 ∷ []) _ (omega arith) (omega arith) (omega arith)
      (omega arith)
