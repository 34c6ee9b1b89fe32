-- ===== src/Segments/Ingestion.antt =====
-- segment.go: what an ingestion that succeeds has done to the tables, and what an extraction gives.
use mathlib.Core.Path.{subst, subst⁻¹}
use kai_server.Common.Bytes.{Bytes}
use kai_server.Common.{
  ℕ, suc, ◌<◌, ◌≡◌, refl, sym, ap, ◌∙◌, arith, Bool, String, List, [], ◌∷◌, Option, none, some, ◌⊎◌,
  inl, inr, ok, err, guard, ok-bind, length, leb, All, Bool-cases, Option-cases, ◌==◌, ==_iff,
}
use kai_server.Segments.Tables.{
  PackError, ObjectInfo, Tables, Call, find_object, add_object, find_segment, insert_segment,
  insert_object, get_object_info, get_segment_blob,
}
use kai_server.Segments.Ingest.{
  PackObjectEntry, Variant, announce, row, check_object, index_objects, store_segment, required,
  be_uint32, max_header_size, read_exactly, read_rest, ingest_segment, Stream, extract_object,
}
use kai_server.Segments.Integrity.{
  Stored, Integrity, Alike, announce-Alike, insert_object-ok, check_object-Stored, add_object-All,
  add_object-found, find_object-add_object, All-found,
}

-- The tables after objects were added: sound, what was there is as it was, and the objects are there.
pub record Indexed (blake3 : Bytes → Bytes) (t t' : Tables) (os : List PackObjectEntry) (n : ℕ)
    : Type 0 where
  pub integrity : Integrity blake3 t'
  pub keeps :
      (d : Bytes) (r : ObjectInfo)
      → find_object d t.objects ≡ some r
      → find_object d t'.objects ≡ some r
  pub found : All (λ o. (r : ObjectInfo) × (find_object o.digest t'.objects ≡ some r)) os
  pub count : n ≡ length os

module _ (blake3 : Bytes → Bytes) (v : Variant) (works : Call → Bool) (actor : String) (id : ℕ)
    (blob : Bytes) where
  -- One round of the loop.
  step_Integrity :
      (t t' t'' : Tables) (o : PackObjectEntry)
      → Integrity blake3 t
      → Stored blake3 t.segments (row id o)
      → t' ≡ record t { objects = add_object (row id o) t.objects }
      → Alike t' t''
      → Integrity blake3 t''
        × (t''.objects ≡ add_object (row id o) t.objects)
        × (t''.segments ≡ t.segments)
  step_Integrity t t' t'' o i s e a =
      let objects = a.objects ∙ ap (λ x. x.objects) e in
      let segments = a.segments ∙ ap (λ x. x.segments) e in
      let next = a.next_segment ∙ ap (λ x. x.next_segment) e in
      let added = add_object-All (Stored blake3 t.segments) (row id o) t.objects i.stored s in
      (
        record {
          stored =
              subst⁻¹ (λ ss. All (Stored blake3 ss) t''.objects) segments
                (subst⁻¹ (All (Stored blake3 t.segments)) objects added);
          fresh = λ j b f.
              subst⁻¹ (λ m. j < m) next (i.fresh j b (sym (ap (find_segment j) segments) ∙ f));
        },
        objects,
        segments,
      )

  index_objects-Indexed :
      (os : List PackObjectEntry) (t t' : Tables) (n : ℕ)
      → Integrity blake3 t
      → find_segment id t.segments ≡ some blob
      → index_objects blake3 v works actor id blob os t ≡ ok (t', n)
      → Indexed blake3 t t' os n
  unfolding index_objects
  index_objects-Indexed [] t t' n i f e =
      let same : t ≡ t' = cc in
      record {
        integrity = subst (Integrity blake3) same i;
        keeps = λ d r g. ap (λ x. find_object d x.objects) (sym same) ∙ g;
        found = tt;
        count = cc;
      }
  index_objects-Indexed (o ∷ os) t t' n i f e =
      let (_, checked, e1) = ok-bind (check_object blake3 blob o) _ (t', n) e in
      let (t1, inserted, e2) = ok-bind (insert_object works (row id o) t) _ (t', n) e1 in
      let (t2, announced, e3) = ok-bind (announce v works actor o t1) _ (t', n) e2 in
      let ((t3, m), indexed, e4) =
        ok-bind (index_objects blake3 v works actor id blob os t2) _ (t', n) e3 in
      let (i2, objects, segments) =
        step_Integrity t t1 t2 o i (check_object-Stored blake3 id blob o t.segments f checked)
          (insert_object-ok works (row id o) t t1 inserted)
          (announce-Alike v works actor o t1 t2 announced) in
      let rest = index_objects-Indexed os t2 t3 m i2 (ap (find_segment id) segments ∙ f) indexed in
      let last : t3 ≡ t' = cc in
      let number : suc m ≡ n = cc in
      let (r, there) = add_object-found (row id o) t.objects in
      record {
        integrity = subst (Integrity blake3) last rest.integrity;
        keeps = λ d q g.
            ap (λ x. find_object d x.objects) (sym last)
            ∙ rest.keeps d q
                (ap (find_object d) objects ∙ find_object-add_object (row id o) t.objects d q g);
        found = (
          (
            r,
            ap (λ x. find_object o.digest x.objects) (sym last)
                ∙ rest.keeps o.digest r (ap (find_object o.digest) objects ∙ there),
          ),
          subst (λ x. All (λ p. (q : ObjectInfo) × (find_object p.digest x.objects ≡ some q)) os)
              last rest.found,
        );
        count = sym number ∙ ap suc rest.count;
      }

-- A new segment leaves the rows of the others sound.
find_segment-new :
    (id : ℕ) (blob b : Bytes) (t : Tables)
    → ((j : ℕ) (c : Bytes) → find_segment j t.segments ≡ some c → j < t.next_segment)
    → find_segment id t.segments ≡ some b
    → find_segment id ((t.next_segment, blob) ∷ t.segments) ≡ some b
unfolding find_segment
find_segment-new id blob b t fresh f = elim (Bool-cases (t.next_segment == id)) [
  | inl s ↦ absurd (omega (arith, (==_iff t.next_segment id).0 s, fresh id b f))
  | inr s ↦ rw (s) f
]

Stored-new :
    (blake3 : Bytes → Bytes) (blob : Bytes) (t : Tables) (os : List ObjectInfo)
    → ((j : ℕ) (c : Bytes) → find_segment j t.segments ≡ some c → j < t.next_segment)
    → All (Stored blake3 t.segments) os
    → All (Stored blake3 ((t.next_segment, blob) ∷ t.segments)) os
Stored-new blake3 blob t [] fresh a = tt
Stored-new blake3 blob t (o ∷ os) fresh ((b, c, f, e, h), a) =
    ((b, c, find_segment-new o.segment blob b t fresh f, e, h), Stored-new blake3 blob t os fresh a)

insert_segment-ok :
    (works : Call → Bool) (blob : Bytes) (t t' : Tables) (id : ℕ)
    → insert_segment works blob t ≡ ok (t', id)
    → (t' ≡ record t {
      next_segment = suc t.next_segment;
      segments = (t.next_segment, blob) ∷ t.segments;
    })
      × (id ≡ t.next_segment)
unfolding insert_segment
insert_segment-ok works blob t t' id e = ground arith

insert_segment-Integrity :
    (blake3 : Bytes → Bytes) (blob : Bytes) (t : Tables)
    → Integrity blake3 t
    → Integrity blake3 (record t {
      next_segment = suc t.next_segment;
      segments = (t.next_segment, blob) ∷ t.segments;
    })
unfolding find_segment
insert_segment-Integrity blake3 blob t i = record {
  stored = Stored-new blake3 blob t t.objects i.fresh i.stored;
  fresh = λ id b f. elim (Bool-cases (t.next_segment == id)) [
    | inl s ↦ omega (arith, (==_iff t.next_segment id).0 s)
    | inr s ↦ omega (arith, i.fresh id b (sym (rw (s) refl) ∙ f))
  ];
}

store_segment-Indexed :
    (blake3 : Bytes → Bytes) (v : Variant) (works : Call → Bool) (actor : String) (blob : Bytes)
    (os : List PackObjectEntry) (t t' : Tables) (id n : ℕ)
    → Integrity blake3 t
    → store_segment blake3 v works actor blob os t ≡ ok (t', id, n)
    → Indexed blake3 t t' os n
unfolding store_segment find_segment
store_segment-Indexed blake3 v works actor blob os t t' id n i e =
    let (_, _, e1) = ok-bind (guard (works Call.begins) PackError.beginning) _ (t', id, n) e in
    let ((t1, j), inserted, e2) = ok-bind (insert_segment works blob t) _ (t', id, n) e1 in
    let ((t2, m), indexed, e3) =
      ok-bind (index_objects blake3 v works actor j blob os t1) _ (t', id, n) e2 in
    let (_, _, e4) = ok-bind (guard (works Call.commits) PackError.committing) _ (t', id, n) e3 in
    let (made, name) = insert_segment-ok works blob t t1 j inserted in
    let i1 = subst⁻¹ (Integrity blake3) made (insert_segment-Integrity blake3 blob t i) in
    let here : find_segment j t1.segments ≡ some blob =
      ap (λ x. find_segment j x.segments) made ∙ rw ((==_iff t.next_segment j).1 (sym name)) refl in
    let all = index_objects-Indexed blake3 v works actor j blob os t1 t2 m i1 here indexed in
    let last : t2 ≡ t' = cc in
    let number : m ≡ n = cc in
    record {
      integrity = subst (Integrity blake3) last all.integrity;
      keeps = λ d r g.
          ap (λ x. find_object d x.objects) (sym last)
          ∙ all.keeps d r (ap (λ x. find_object d x.objects) made ∙ g);
      found =
          subst (λ x. All (λ p. (q : ObjectInfo) × (find_object p.digest x.objects ≡ some q)) os)
            last all.found;
      count = sym number ∙ all.count;
    }

required-ok :
    (o : Option (List PackObjectEntry)) (os : List PackObjectEntry)
    → required o ≡ ok os
    → o ≡ some os
required-ok none os e = absurd (cc)
required-ok (some ps) os e = cc

-- An ingestion that succeeds has read a header, keeps every object stored under its digest, changes
-- no object that was there, has each object of the header, and counts them.
pub ingest_segment-Indexed :
    (blake3 : Bytes → Bytes) (parse_header : Bytes → Option (List PackObjectEntry)) (v : Variant)
    (works : Call → Bool) (actor : String) (s : Stream) (t t' : Tables) (id n : ℕ)
    → Integrity blake3 t
    → ingest_segment blake3 parse_header v works actor s t ≡ ok (t', id, n)
    → (header : Bytes) × (os : List PackObjectEntry) × (parse_header header ≡ some os)
      × Indexed blake3 t t' os n
unfolding ingest_segment
ingest_segment-Indexed blake3 parse_header v works actor s t t' id n i e =
    let ((size, s1), _, e1) = ok-bind (read_exactly PackError.reading_length 4 s) _ (t', id, n) e in
    let (_, _, e2) =
      ok-bind (guard (leb (be_uint32 size) max_header_size) PackError.header_too_large) _
        (t', id, n) e1 in
    let ((header, s2), _, e3) =
      ok-bind (read_exactly PackError.reading_header (be_uint32 size) s1) _ (t', id, n) e2 in
    let (os, header_read, e4) = ok-bind (required (parse_header header)) _ (t', id, n) e3 in
    let (blob, _, e5) = ok-bind (read_rest s2) _ (t', id, n) e4 in
    (
      header,
      os,
      required-ok (parse_header header) os header_read,
      store_segment-Indexed blake3 v works actor blob os t t' id n i e5,
    )

-- Where the tables keep their objects under their digests, an extraction gives bytes with the
-- digest that was asked for, or an error; it does not panic.
pub extract_object-digest :
    (blake3 : Bytes → Bytes) (works : Call → Bool) (d : Bytes) (t : Tables)
    → Integrity blake3 t
    → ((x : PackError) × (extract_object works d t ≡ err x))
      ⊎ ((content : Bytes) × (kind : String) × (extract_object works d t ≡ ok (content, kind))
          × (blake3 content ≡ d))
unfolding extract_object get_object_info get_segment_blob
extract_object-digest blake3 works d t i = elim (Bool-cases (works (Call.queries_object d))) [
  | inr s ↦ inl (PackError.querying, rw (s) refl)
  | inl s ↦ elim (Option-cases (find_object d t.objects)) [
    | inl absent ↦ inl (PackError.object_not_found, rw (s, absent) refl)
    | inr (r, there) ↦
        let ((blob, content, found, range, hash), named) =
          All-found (Stored blake3 t.segments) d t.objects r i.stored there in
        elim (Bool-cases (works Call.queries_segment)) [
          | inr q ↦ inl (PackError.querying, rw (s, there, q) refl)
          | inl q ↦ inr (content, r.kind, rw (s, there, q, found) (rw (range) refl), hash ∙ named)
        ]
  ]
]
