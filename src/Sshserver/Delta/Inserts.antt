-- ===== src/Sshserver/Delta/Inserts.antt =====
-- delta.go, encodeInsert, against the insert instruction of gitpack_parse.go, applyDelta.
use kai_server.Common.{
  ℕ, zero, suc, ◌≤◌, ◌<◌, ◌≡◌, sym, ap, ◌∙◌, arith, true, false, [], ◌∷◌, ◌++◌, append_assoc,
  append-nil, length, length-append, length-take, length-drop, take, drop, take-append-drop,
  take-append_length, drop-append_length, ltb, leb, ◌==◌, if◌then◌else◌, ok,
}
use kai_server.Common.Bits.{bit_and-128}
use kai_server.Common.Bytes.{Bytes}
use kai_server.Sshserver.Delta.Encode.{encode_insert_loop, encode_insert}
use kai_server.Sshserver.Delta.Emits.{Emits, Emits-nil, Emits-append, Emits-instruction}
use kai_server.Sshserver.Unpack.{apply_instruction, has_flag}
use mathlib.Core.Path.{ap₂, subst₂}

apply_instruction-insert :
    (base : Bytes) (n : ℕ) (chunk rest result : Bytes)
    → length chunk ≡ n
    → 0 < n
    → n < 128
    → apply_instruction base n (chunk ++ rest) result ≡ ok (result ++ chunk, rest)
unfolding apply_instruction
apply_instruction-insert base n chunk rest result len pos small =
    let no_copy : has_flag n 0x80 ≡ false = ground (arith, bit_and-128 n) in
    let is_insert : (n == 0) ≡ false = ground arith in
    let fits : leb n (length (chunk ++ rest)) ≡ true = ground (arith, length-append chunk rest) in
    rw (no_copy, is_insert, fits)
      (ap₂ (λ t r. ok (result ++ t, r))
        (ap (λ k. take k (chunk ++ rest)) (sym len) ∙ take-append_length chunk rest)
        (ap (λ k. drop k (chunk ++ rest)) (sym len) ∙ drop-append_length chunk rest))

-- A chunk of 1 to 127 bytes behind its length.
Emits-chunk :
    (base : Bytes) (n : ℕ) (chunk : Bytes)
    → length chunk ≡ n
    → 0 < n
    → n < 128
    → Emits base (n ∷ chunk) chunk
Emits-chunk base n chunk len pos small =
    Emits-instruction base n chunk chunk
      λ rest result. apply_instruction-insert base n chunk rest result len pos small

encode_insert_loop-result :
    (fuel : ℕ) (bytes result : Bytes)
    → encode_insert_loop fuel bytes result ≡ result ++ encode_insert_loop fuel bytes []
unfolding encode_insert_loop
encode_insert_loop-result zero bytes result = sym (append-nil result)
encode_insert_loop-result (suc fuel) [] result = sym (append-nil result)
encode_insert_loop-result (suc fuel) (b ∷ bytes) result =
    let n = if ltb 127 (length (b ∷ bytes)) then 127 else length (b ∷ bytes) in
    let chunk : Bytes = n ∷ take n (b ∷ bytes) in
    let left : Bytes = drop n (b ∷ bytes) in
    encode_insert_loop-result fuel left ((result ++ (n ∷ [])) ++ take n (b ∷ bytes))
    ∙ ap (λ r. r ++ encode_insert_loop fuel left [])
        (append_assoc result (n ∷ []) (take n (b ∷ bytes)))
    ∙ append_assoc result chunk (encode_insert_loop fuel left [])
    ∙ ap (λ r. result ++ r) (sym (encode_insert_loop-result fuel left chunk))

Emits-insert_loop :
    (base : Bytes) (fuel : ℕ) (bytes : Bytes)
    → length bytes ≤ fuel
    → Emits base (encode_insert_loop fuel bytes []) bytes
unfolding encode_insert_loop
Emits-insert_loop base zero [] h = Emits-nil base
Emits-insert_loop base zero (b ∷ bytes) h = absurd (omega arith)
Emits-insert_loop base (suc fuel) [] h = Emits-nil base
Emits-insert_loop base (suc fuel) (b ∷ bytes) h =
    let n = if ltb 127 (length (b ∷ bytes)) then 127 else length (b ∷ bytes) in
    let chunk : Bytes = take n (b ∷ bytes) in
    let left : Bytes = drop n (b ∷ bytes) in
    subst₂ (λ code out. Emits base code out) (sym (encode_insert_loop-result fuel left (n ∷ chunk)))
      (take-append-drop n (b ∷ bytes))
      (Emits-append
        (Emits-chunk base n chunk (ground (arith, length-take n (b ∷ bytes))) (ground arith)
          (ground arith))
        (Emits-insert_loop base fuel left (ground (arith, length-drop n (b ∷ bytes)))))

-- An insert of any length emits its bytes.
pub Emits-encode_insert : (base bytes : Bytes) → Emits base (encode_insert bytes) bytes
unfolding encode_insert
Emits-encode_insert base bytes = Emits-insert_loop base (length bytes) bytes (omega arith)
