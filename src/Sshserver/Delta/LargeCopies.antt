-- ===== src/Sshserver/Delta/LargeCopies.antt =====
-- delta.go, encodeCopy: a size has three bytes.
use kai_server.Common.{ℕ, ◌/◌, ◌%◌, ◌^◌, ◌≤◌, ◌≡◌, ◌≢◌, ◌∙◌, sym, ap, arith, false, not, ◌==◌}
use kai_server.Sshserver.Delta.Encode.{encode_copy, has_bits}
use kai_server.Sshserver.Delta.CopyBytes.{byte_0, byte_1, byte_2}

-- A size of 16 MB or more is written as its remainder by 16 MB (unless that is 0x10000, whose own
-- encoding is shorter): the instruction names fewer bytes than the match has.
pub encode_copy_large :
    (offset size : ℕ)
    → 2 ^ 24 ≤ size
    → size % 2 ^ 24 ≢ 0x10000
    → encode_copy offset size ≡ encode_copy offset (size % 2 ^ 24)
unfolding encode_copy
encode_copy_large offset size large other =
    let low : ℕ = size % 2 ^ 24 in
    let t₀ : has_bits size 0xff ≡ has_bits low 0xff =
      byte_0 size ∙ ap (λ x. not (x == 0)) (omega arith) ∙ sym (byte_0 low) in
    let t₁ : has_bits size 0xff00 ≡ has_bits low 0xff00 =
      byte_1 size ∙ ap (λ x. not (x == 0)) (omega arith) ∙ sym (byte_1 low) in
    let t₂ : has_bits size 0xff_0000 ≡ has_bits low 0xff_0000 =
      byte_2 size ∙ ap (λ x. not (x == 0)) (omega arith) ∙ sym (byte_2 low) in
    let s : (size == 0x10000) ≡ false = ground arith in
    let s' : (low == 0x10000) ≡ false = ground arith in
    let b₀ : size % 256 ≡ low % 256 = omega arith in
    let b₁ : size / 2 ^ 8 % 256 ≡ low / 2 ^ 8 % 256 = omega arith in
    let b₂ : size / 2 ^ 16 % 256 ≡ low / 2 ^ 16 % 256 = omega arith in
    rw (s, s', t₀, t₁, t₂, b₀, b₁, b₂)
