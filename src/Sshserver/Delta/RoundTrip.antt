-- ===== src/Sshserver/Delta/RoundTrip.antt =====
-- GenerateDelta of delta.go against applyDelta of gitpack_parse.go.
use kai_server.Common.{
  ℕ, zero, suc, ◌+◌, ◌^◌, ◌≤◌, ◌<◌, ◌≡◌, refl, sym, ap, ◌∙◌, arith, true, false, Option, none, some,
  [], ◌∷◌, ◌++◌, append_assoc, append-nil, length, length-append, get_or, take, drop, take-add,
  take-suc, take-le, ltb, leb, ◌==◌, if◌then◌else◌, Bool-cases, leb→le, inl, inr, ok,
}
use kai_server.Common.Bytes.{Bytes}
use kai_server.Sshserver.Delta.Index.{DeltaIndex, new_delta_index, find_match, min_match_size}
use kai_server.Sshserver.Delta.Encode.{encode_copy, encode_insert, delta_encode_size}
use kai_server.Sshserver.Delta.Emits.{Emits, Emits-nil, Emits-append, Emits-encode_copy}
use kai_server.Sshserver.Delta.Inserts.{Emits-encode_insert}
use kai_server.Sshserver.Delta.Matches.{IsMatch, IsReport, find_match-IsReport}
use kai_server.Sshserver.Delta.Sizes.{read_delta_size-delta_encode_size}
use kai_server.Sshserver.Delta.Generate.{
  Build, flush_inserts, add_copy, add_byte, build_step, build_loop, build_delta, generate_delta,
}
use kai_server.Sshserver.Unpack.{apply_loop, apply_delta, read_delta_size, read_size_loop}
use mathlib.Core.Path.{subst, ap₂}

-- The delta so far emits all of the target up to `off`, but for the bytes in the insert buffer.
record IsBuilt (src tgt header delta buf : Bytes) (off : ℕ) : Type 0 where
  code : Bytes
  out : Bytes
  delta_is : delta ≡ header ++ code
  emits : Emits src code out
  so_far : out ++ buf ≡ take off tgt
  in_range : off ≤ length tgt

abbrev Good : Bytes → Bytes → Bytes → Build → Type 0
Good src tgt header b = IsBuilt src tgt header b.delta b.insert_buf b.tgt_off

module _ (src tgt header : Bytes) where
  -- One more instruction.
  add_code :
      (delta : Bytes) (off off' : ℕ) (buf buf' more_code more_out : Bytes)
      → (b : IsBuilt src tgt header delta buf off) → Emits src more_code more_out
      → (b.out ++ more_out) ++ buf' ≡ take off' tgt
      → off' ≤ length tgt
      → IsBuilt src tgt header (delta ++ more_code) buf' off'
  add_code delta off off' buf buf' more_code more_out b emits so_far in_range = record {
    code = b.code ++ more_code;
    out = b.out ++ more_out;
    delta_is = ap (λ d. d ++ more_code) b.delta_is ∙ append_assoc header b.code more_code;
    emits = Emits-append b.emits emits;
    so_far = so_far;
    in_range = in_range;
  }

  flush-Good : (b : Build) → Good src tgt header b → Good src tgt header (flush_inserts b)
  flush-Good b g = elim (Bool-cases (ltb 0 (length b.insert_buf))) [
    | inl some_left ↦ rw some_left (
        add_code b.delta b.tgt_off b.tgt_off b.insert_buf [] (encode_insert b.insert_buf)
          b.insert_buf g (Emits-encode_insert src b.insert_buf) (append-nil _ ∙ g.so_far)
          g.in_range)
    | inr nothing ↦ rw nothing g
  ]

  insert_buf-flush : (b : Build) → (flush_inserts b).insert_buf ≡ []
  insert_buf-flush b = go b b.insert_buf refl
    where
      go : (b : Build) (buf : Bytes) → b.insert_buf ≡ buf → (flush_inserts b).insert_buf ≡ []
      go b [] e = ground (arith, e)
      go b (x ∷ xs) e = ground (arith, e)

  tgt_off-flush : (b : Build) → (flush_inserts b).tgt_off ≡ b.tgt_off
  tgt_off-flush b = ground arith

  add_copy-Good :
      (b : Build) (src_off len : ℕ)
      → Good src tgt header b
      → IsMatch src tgt src_off b.tgt_off len
      → 0 < len
      → length src < 2 ^ 32
      → length tgt < 2 ^ 24
      → Good src tgt header (add_copy (some src_off) len b)
  add_copy-Good b src_off len g m pos src_small tgt_small =
      let b' = flush_inserts b in
      let g' = flush-Good b g in
      let off_same : b'.tgt_off ≡ b.tgt_off = tgt_off-flush b in
      let out_is : g'.out ≡ take b'.tgt_off tgt =
        sym (append-nil g'.out) ∙ ap (λ r. g'.out ++ r) (sym (insert_buf-flush b)) ∙ g'.so_far in
      add_code b'.delta b'.tgt_off (b'.tgt_off + len) b'.insert_buf b'.insert_buf
        (encode_copy src_off len) (take len (drop src_off src)) g'
        (Emits-encode_copy src src_off len (omega (arith, m.in_src)) pos (omega (arith, m.in_tgt))
          m.in_src)
        (ap (λ r. (g'.out ++ take len (drop src_off src)) ++ r) (insert_buf-flush b)
          ∙ append-nil _
          ∙ ap₂ (λ x y. x ++ y) out_is (m.same ∙ ap (λ k. take len (drop k tgt)) (sym off_same))
          ∙ take-add b'.tgt_off len tgt)
        (omega (arith, m.in_tgt))

  add_byte-Good :
      (b : Build)
      → Good src tgt header b
      → b.tgt_off < length tgt
      → Good src tgt header (add_byte (get_or tgt b.tgt_off 0) b)
  add_byte-Good b g h =
      let x : ℕ = get_or tgt b.tgt_off 0 in
      let buf : Bytes = b.insert_buf ++ (x ∷ []) in
      let so_far : g.out ++ buf ≡ take (b.tgt_off + 1) tgt =
        sym (append_assoc g.out b.insert_buf (x ∷ []))
        ∙ ap (λ r. r ++ (x ∷ [])) g.so_far
        ∙ sym (take-suc b.tgt_off tgt 0 h)
        ∙ ap (λ k. take k tgt) {x = suc b.tgt_off} {y = b.tgt_off + 1} (omega arith) in
      let added : IsBuilt src tgt header b.delta buf (b.tgt_off + 1) = record {
        code = g.code;
        out = g.out;
        delta_is = g.delta_is;
        emits = g.emits;
        so_far = so_far;
        in_range = omega arith;
      } in
      elim (Bool-cases (length buf == 127)) [
        | inl full ↦ rw full (
            add_code b.delta (b.tgt_off + 1) (b.tgt_off + 1) buf [] (encode_insert buf) buf added
              (Emits-encode_insert src buf) (append-nil _ ∙ so_far) (omega arith))
        | inr room ↦ rw room added
      ]

-- The loop.
module _ (idx : DeltaIndex) (tgt header : Bytes) (src_small : length idx.src < 2 ^ 32)
    (tgt_small : length tgt < 2 ^ 24) where
  reported-Good :
      (b : Build) (src_off : Option ℕ) (len : ℕ)
      → Good idx.src tgt header b
      → b.tgt_off < length tgt
      → IsReport idx.src tgt b.tgt_off (src_off, len)
      → Good idx.src tgt header (
          if leb min_match_size len
          then add_copy src_off len b
          else add_byte (get_or tgt b.tgt_off 0) b)
  reported-Good b none len g h report =
      let short : leb min_match_size len ≡ false = ground arith in
      rw short (add_byte-Good idx.src tgt header b g h)
  reported-Good b (some src_off) len g h report = elim (Bool-cases (leb min_match_size len)) [
    | inl long ↦
        rw long (
          add_copy-Good idx.src tgt header b src_off len g report (ground arith) src_small
            tgt_small)
    | inr short ↦ rw short (add_byte-Good idx.src tgt header b g h)
  ]

  build_step-Good :
      (b : Build)
      → Good idx.src tgt header b
      → b.tgt_off < length tgt
      → Good idx.src tgt header (build_step idx tgt b)
  unfolding build_step
  build_step-Good b g h =
      let (src_off, len) = find_match idx tgt b.tgt_off in
      reported-Good b src_off len g h (find_match-IsReport idx tgt b.tgt_off)

  -- Every round takes a byte at least.
  tgt_off-build_step : (b : Build) → b.tgt_off < (build_step idx tgt b).tgt_off
  unfolding build_step
  tgt_off-build_step b = elim (Bool-cases (leb min_match_size (find_match idx tgt b.tgt_off).1)) [
    | inl long ↦
        rw long (omega (arith, leb→le min_match_size _ long, tgt_off-flush idx.src tgt header b))
    | inr short ↦ rw short (ground arith)
  ]

  build_loop-Good :
      (fuel : ℕ) (b : Build)
      → Good idx.src tgt header b
      → length tgt ≤ b.tgt_off + fuel
      → Good idx.src tgt header (build_loop fuel idx tgt b)
        × ((build_loop fuel idx tgt b).tgt_off ≡ length tgt)
  unfolding build_loop
  build_loop-Good zero b g h = (g, omega (arith, g.in_range))
  build_loop-Good (suc fuel) b g h = elim (Bool-cases (ltb b.tgt_off (length tgt))) [
    | inl more ↦
        rw (more, build_loop)
          (build_loop-Good fuel (build_step idx tgt b) (build_step-Good b g (ground arith))
            (omega (arith, tgt_off-build_step b)))
    | inr done ↦ rw (done, build_loop) (g, ground (arith, g.in_range))
  ]

src-new_delta_index : (src : Bytes) → (new_delta_index src).src ≡ src
unfolding new_delta_index
src-new_delta_index src = ground arith

-- The whole delta after the header emits the target.
build_delta-Emits :
    (idx : DeltaIndex) (tgt : Bytes)
    → length idx.src < 2 ^ 32
    → length tgt < 2 ^ 24
    → (code : Bytes) × Emits idx.src code tgt
      × (build_delta idx idx.src tgt
          ≡ (delta_encode_size (length idx.src) ++ delta_encode_size (length tgt)) ++ code)
unfolding build_delta
build_delta-Emits idx tgt src_small tgt_small =
    let header : Bytes = delta_encode_size (length idx.src) ++ delta_encode_size (length tgt) in
    let start : Build = record { delta = header; insert_buf = []; tgt_off = 0 } in
    let start_good : Good idx.src tgt header start = record {
      code = [];
      out = [];
      delta_is = sym (append-nil header);
      emits = Emits-nil idx.src;
      so_far = refl;
      in_range = omega arith;
    } in
    let (good, ends) =
      build_loop-Good idx tgt header src_small tgt_small (length tgt) start start_good
        (omega arith) in
    let b = build_loop (length tgt) idx tgt start in
    let g = flush-Good idx.src tgt header b good in
    let all_out : g.out ≡ tgt =
      sym (append-nil g.out)
      ∙ ap (λ r. g.out ++ r) (sym (insert_buf-flush idx.src tgt header b))
      ∙ g.so_far
      ∙ take-le _ tgt (omega (arith, ends, tgt_off-flush idx.src tgt header b)) in
    (g.code, subst (λ o. Emits idx.src g.code o) all_out g.emits, g.delta_is)

generated-is_build :
    (src tgt : Bytes) {delta : Bytes}
    → generate_delta src tgt ≡ some delta
    → (delta ≡ build_delta (new_delta_index src) src tgt) × (length delta + 20 < length tgt)
unfolding generate_delta
generated-is_build src tgt h = ground arith

nonempty : (bytes : Bytes) (v : ℕ) → read_delta_size (bytes ++ []) ≡ ok (v, []) → 1 ≤ length bytes
unfolding read_delta_size read_size_loop
nonempty (b ∷ bytes) v h = omega arith
nonempty [] v h = absurd (cc)

length-delta_encode_size : (v : ℕ) → v < 2 ^ 63 → 1 ≤ length (delta_encode_size v)
length-delta_encode_size v h = nonempty _ v (read_delta_size-delta_encode_size v [] h)

-- A delta with its header.
apply_delta-header :
    (src tgt code : Bytes)
    → length src < 2 ^ 32
    → length tgt < 2 ^ 24
    → Emits src code tgt
    → apply_delta src ((delta_encode_size (length src) ++ delta_encode_size (length tgt)) ++ code)
      ≡ ok tgt
unfolding apply_delta
apply_delta-header src tgt code src_small tgt_small emits =
    let s : Bytes = delta_encode_size (length src) in
    let t : Bytes = delta_encode_size (length tgt) in
    let long : leb 2 (length (s ++ (t ++ code))) ≡ true = ground (
      arith,
      length-append s (t ++ code),
      length-append t code,
      length-delta_encode_size (length src),
      length-delta_encode_size (length tgt),
    ) in
    let same : (length src == length src) ≡ true = ground arith in
    let fits : leb (length tgt) (2 ^ 48) ≡ true = ground arith in
    let (fuel, _, runs) = emits.at (length code) [] [] (rw append-nil (omega arith)) in
    rw
      (
        append_assoc s t code,
        long,
        read_delta_size-delta_encode_size (length src) (t ++ code) (omega arith),
        same,
        read_delta_size-delta_encode_size (length tgt) code (omega arith),
        fits,
      )
      (ap (λ c. apply_loop (length code) src c []) (sym (append-nil code))
        ∙ runs
        ∙ unfold apply_loop in refl)

apply_delta-build_delta :
    (idx : DeltaIndex) (tgt : Bytes)
    → length idx.src < 2 ^ 32
    → length tgt < 2 ^ 24
    → apply_delta idx.src (build_delta idx idx.src tgt) ≡ ok tgt
apply_delta-build_delta idx tgt src_small tgt_small =
    let (code, emits, shape) = build_delta-Emits idx tgt src_small tgt_small in
    ap (apply_delta idx.src) shape ∙ apply_delta-header idx.src tgt code src_small tgt_small emits

-- Whenever GenerateDelta returns a delta, applyDelta rebuilds the target from the source and the
-- delta, and the delta saves more than the 20 bytes of a base name; for a source below 4 GB and a
-- target below 16 MB.
pub apply_delta-generate_delta :
    (src tgt delta : Bytes)
    → length src < 2 ^ 32
    → length tgt < 2 ^ 24
    → generate_delta src tgt ≡ some delta
    → (apply_delta src delta ≡ ok tgt) × (length delta + 20 < length tgt)
apply_delta-generate_delta src tgt delta src_small tgt_small h =
    let (is_build, shorter) = generated-is_build src tgt h in
    let idx = new_delta_index src in
    let same = src-new_delta_index src in
    let rebuilt =
      subst (λ s. apply_delta s (build_delta idx s tgt) ≡ ok tgt) same
        (apply_delta-build_delta idx tgt (rw same src_small) tgt_small) in
    (ap (apply_delta src) is_build ∙ rebuilt, shorter)
