-- ===== src/Segments/Integrity.antt =====
-- segment.go: every object that the tables have is in its segment and has its digest.
use mathlib.Core.Path.{subst, subst⁻¹}
use kai_server.Common.Bytes.{Bytes, bytes_eq, bytes_eq_iff}
use kai_server.Common.{
  ℕ, ◌<◌, ◌≡◌, ◌≢◌, refl, sym, ap, ◌∙◌, arith, Bool, true, false, String, List, [], ◌∷◌, ◌++◌, none,
  some, inl, inr, ok, err, guard, ok-bind, All, Bool-cases, Option-cases,
}
use kai_server.Segments.Tables.{
  PackError, ObjectInfo, Tables, Call, find_object, add_object, find_segment, insert_object,
  record_node_publish, enqueue_for_enrichment, read_range, exceeds, add_int64, beyond_segment,
}
use kai_server.Segments.Ingest.{
  PackObjectEntry, Variant, with_publishing, enqueueing_only, enqueue_snapshot, announce,
  is_semantic_kind, row, first_eight, extends_beyond, check_object,
}

find_object-append :
    (d : Bytes) (os ps : List ObjectInfo) (r : ObjectInfo)
    → find_object d os ≡ some r
    → find_object d (os ++ ps) ≡ some r
unfolding find_object
find_object-append d [] ps r e = absurd (cc)
find_object-append d (o ∷ os) ps r e = ground (arith, find_object-append d os ps r)

find_object-snoc :
    (os : List ObjectInfo) (o : ObjectInfo)
    → (r : ObjectInfo) × (find_object o.digest (os ++ (o ∷ [])) ≡ some r)
unfolding find_object
find_object-snoc [] o = (o, rw ((bytes_eq_iff o.digest o.digest).1 refl) refl)
find_object-snoc (p ∷ os) o = elim (Bool-cases (bytes_eq p.digest o.digest)) [
  | inl e ↦ (p, rw (e) refl)
  | inr e ↦ let (r, f) = find_object-snoc os o in (r, rw (e) f)
]

add_object-none :
    (o : ObjectInfo) (os : List ObjectInfo)
    → find_object o.digest os ≡ none
    → add_object o os ≡ os ++ (o ∷ [])
add_object-none o os e = rw (add_object, e) refl

add_object-some :
    (o q : ObjectInfo) (os : List ObjectInfo)
    → find_object o.digest os ≡ some q
    → add_object o os ≡ os
add_object-some o q os e = rw (add_object, e) refl

-- An object that is there stays as it is.
pub find_object-add_object :
    (o : ObjectInfo) (os : List ObjectInfo) (d : Bytes) (r : ObjectInfo)
    → find_object d os ≡ some r
    → find_object d (add_object o os) ≡ some r
find_object-add_object o os d r e = elim (Option-cases (find_object o.digest os)) [
  | inl absent ↦ rw (add_object-none o os absent) (find_object-append d os (o ∷ []) r e)
  | inr (q, there) ↦ rw (add_object-some o q os there) e
]

pub add_object-found :
    (o : ObjectInfo) (os : List ObjectInfo)
    → (r : ObjectInfo) × (find_object o.digest (add_object o os) ≡ some r)
add_object-found o os = elim (Option-cases (find_object o.digest os)) [
  | inl absent ↦ rw (add_object-none o os absent) (find_object-snoc os o)
  | inr (q, there) ↦ rw (add_object-some o q os there) (q, there)
]

All-snoc :
    (P : ObjectInfo → Type 0) (os : List ObjectInfo) (o : ObjectInfo)
    → All P os
    → P o
    → All P (os ++ (o ∷ []))
All-snoc P [] o a p = (p, tt)
All-snoc P (q ∷ os) o (b, a) p = (b, All-snoc P os o a p)

pub add_object-All :
    (P : ObjectInfo → Type 0) (o : ObjectInfo) (os : List ObjectInfo)
    → All P os
    → P o
    → All P (add_object o os)
add_object-All P o os a p = elim (Option-cases (find_object o.digest os)) [
  | inl absent ↦ subst⁻¹ (All P) (add_object-none o os absent) (All-snoc P os o a p)
  | inr (q, there) ↦ subst⁻¹ (All P) (add_object-some o q os there) a
]

pub All-found :
    (P : ObjectInfo → Type 0) (d : Bytes) (os : List ObjectInfo) (r : ObjectInfo)
    → All P os
    → find_object d os ≡ some r
    → P r × (r.digest ≡ d)
unfolding find_object
All-found P d [] r a e = absurd (cc)
All-found P d (o ∷ os) r (p, a) e = elim (Bool-cases (bytes_eq o.digest d)) [
  | inl s ↦
      let same : some o ≡ some r = sym (rw (s) refl) ∙ e in
      let one : o ≡ r = cc in
      (subst P one p, ap (λ x. x.digest) (sym one) ∙ (bytes_eq_iff o.digest d).0 s)
  | inr s ↦ All-found P d os r a (sym (rw (s) refl) ∙ e)
]

-- What a statement that worked has done.
pub insert_object-ok :
    (works : Call → Bool) (o : ObjectInfo) (t t' : Tables)
    → insert_object works o t ≡ ok t'
    → t' ≡ record t { objects = add_object o t.objects }
unfolding insert_object
insert_object-ok works o t t' e = elim (Bool-cases (works (Call.inserts_object o.digest))) [
  | inl s ↦ ground arith
  | inr s ↦ ground arith
]

-- The same objects and segments.
pub record Alike (t t' : Tables) : Type 0 where
  pub objects : t'.objects ≡ t.objects
  pub segments : t'.segments ≡ t.segments
  pub next_segment : t'.next_segment ≡ t.next_segment

enqueue_snapshot-Alike :
    (works : Call → Bool) (o : PackObjectEntry) (t t' : Tables)
    → enqueue_snapshot works o t ≡ ok t'
    → Alike t t'
unfolding enqueue_snapshot enqueue_for_enrichment
enqueue_snapshot-Alike works o t t' e = ground arith

Alike-trans : (t u v : Tables) → Alike t u → Alike u v → Alike t v
Alike-trans t u v a b = record {
  objects = b.objects ∙ a.objects;
  segments = b.segments ∙ a.segments;
  next_segment = b.next_segment ∙ a.next_segment;
}

record_node_publish-Alike :
    (works : Call → Bool) (digest : Bytes) (kind actor : String) (t t' : Tables)
    → record_node_publish works digest kind actor t ≡ ok t'
    → Alike t t'
unfolding record_node_publish
record_node_publish-Alike works digest kind actor t t' e = ground arith

pub announce-Alike :
    (v : Variant) (works : Call → Bool) (actor : String) (o : PackObjectEntry) (t t' : Tables)
    → announce v works actor o t ≡ ok t'
    → Alike t t'
unfolding announce
announce-Alike enqueueing_only works actor o t t' e = enqueue_snapshot-Alike works o t t' e
announce-Alike with_publishing works actor o t t' e = elim (Bool-cases (is_semantic_kind o.kind)) [
  | inr s ↦ ground arith
  | inl s ↦
      let chain = sym (rw (s) refl) ∙ e in
      let (q, recorded, queued) =
        ok-bind (record_node_publish works o.digest o.kind actor t) (enqueue_snapshot works o) t'
          chain in
      Alike-trans t q t' (record_node_publish-Alike works o.digest o.kind actor t q recorded)
        (enqueue_snapshot-Alike works o q t' queued)
]

-- A range read of the object from its segment gives bytes with the object's digest.
abbrev pub Stored : (Bytes → Bytes) → List (ℕ × Bytes) → ObjectInfo → Type 0
Stored blake3 segments o =
    (blob content : Bytes) × (find_segment o.segment segments ≡ some blob)
    × (read_range (err beyond_segment) o.off o.len blob ≡ ok content)
    × (blake3 content ≡ o.digest)

-- Every object is stored under its digest, and no segment has an id that is still to be given.
pub record Integrity (blake3 : Bytes → Bytes) (t : Tables) : Type 0 where
  pub stored : All (Stored blake3 t.segments) t.objects
  pub fresh : (id : ℕ) (blob : Bytes) → find_segment id t.segments ≡ some blob → id < t.next_segment

extends_beyond-ne-ok : (d content : Bytes) → extends_beyond d ≢ ok content
unfolding first_eight
extends_beyond-ne-ok d content e = ground arith

-- What the check of an object has read, an extraction reads.
read_range-over :
    (d blob content : Bytes) (off len : ℕ)
    → read_range (extends_beyond d) off len blob ≡ ok content
    → read_range (err beyond_segment) off len blob ≡ ok content
unfolding read_range
read_range-over d blob content off len e = elim (Bool-cases (exceeds (add_int64 off len) blob)) [
  | inl s ↦ absurd (extends_beyond-ne-ok d content (sym (rw (s) refl) ∙ e))
  | inr s ↦ rw (s) (sym (rw (s) refl) ∙ e)
]

guard-ok : (b : Bool) (x : PackError) → guard b x ≡ ok tt → b ≡ true
guard-ok true x e = refl
guard-ok false x e = absurd (cc)

pub check_object-Stored :
    (blake3 : Bytes → Bytes) (id : ℕ) (blob : Bytes) (o : PackObjectEntry)
    (segments : List (ℕ × Bytes))
    → find_segment id segments ≡ some blob
    → check_object blake3 blob o ≡ ok tt
    → Stored blake3 segments (row id o)
unfolding check_object
check_object-Stored blake3 id blob o segments f e =
    let (content, readed, checked) =
      ok-bind (read_range (extends_beyond o.digest) o.offset o.length blob) _ tt e in
    (
      blob,
      content,
      f,
      read_range-over o.digest blob content o.offset o.length readed,
      (bytes_eq_iff (blake3 content) o.digest).0
          (guard-ok (bytes_eq (blake3 content) o.digest) PackError.digest_mismatch checked),
    )
