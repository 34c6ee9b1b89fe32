-- ===== src/Sshserver/Delta/Copies.antt =====
-- delta.go, encodeCopy, against the copy instruction of gitpack_parse.go, applyDelta.
use kai_server.Common.{
  ℕ, ◌+◌, ◌/◌, ◌%◌, ◌^◌, ◌≤◌, ◌<◌, ◌≡◌, refl, ap, ◌∙◌, arith, Bool, true, false, not, ◌++◌, length,
  ok, ◌==◌, if◌then◌else◌, Bool-cases, take, drop, leb, inl, inr,
}
use kai_server.Common.Bytes.{Bytes}
use kai_server.Sshserver.Delta.Encode.{command_of, copy_command, has_bits}
use kai_server.Sshserver.Delta.Flags.{present, flag_80}
use kai_server.Sshserver.Delta.CopyBytes.{
  copy_tail, copy_tail-present, copy_args-tests, size_args-present, offset_args-present, byte_0,
  byte_1, byte_2, byte_3, offset_bytes, size_bytes,
}
use kai_server.Sshserver.Unpack.{apply_instruction, offset_args, size_args, copy_args, has_flag}

-- The size that the bytes of an instruction spell: 0x10000 is written as no byte at all.
abbrev spelled : ℕ → ℕ
spelled size = if size == 0x10000 then 0 else size

abbrev size_test : ℕ → ℕ → Bool
size_test size mask = if not (size == 0x10000) then has_bits size mask else false

size_args-spelled :
    (size : ℕ) (rest : Bytes)
    → size < 2 ^ 24
    → size_args (size_test size 0xff) (size_test size 0xff00) (size_test size 0xff_0000) (
        present (size_test size 0xff) (size % 256)
        ++ (present (size_test size 0xff00) (size / 2 ^ 8 % 256)
            ++ (present (size_test size 0xff_0000) (size / 2 ^ 16 % 256) ++ rest)))
      ≡ ok (spelled size, rest)
size_args-spelled size rest small = elim (Bool-cases (size == 0x10000)) [
  | inl e ↦ rw e (unfold size_args in refl)
  | inr e ↦ rw e (
      size_args-present (has_bits size 0xff) (has_bits size 0xff00) (has_bits size 0xff_0000)
        (size % 256) (size / 2 ^ 8 % 256) (size / 2 ^ 16 % 256) rest (byte_0 size) (byte_1 size)
        (byte_2 size) (omega arith) (omega arith)
      ∙ ap (λ v. ok (v, rest)) (size_bytes size small))
]

spelled-back : (size : ℕ) → 0 < size → (if spelled size == 0 then 0x10000 else spelled size) ≡ size
spelled-back size pos = ground arith

module _ (a b c d e f g : Bool) (offset size : ℕ) (rest : Bytes) where
  abbrev sizes : Bytes
  sizes =
      present e (size % 256)
      ++ (present f (size / 2 ^ 8 % 256) ++ (present g (size / 2 ^ 16 % 256) ++ rest))

  copy_args-command :
      offset_args a b c d (
          present a (offset % 256)
          ++ (present b (offset / 2 ^ 8 % 256)
              ++ (present c (offset / 2 ^ 16 % 256)
                  ++ (present d (offset / 2 ^ 24 % 256) ++ sizes))))
        ≡ ok (offset, sizes)
      → size_args e f g sizes ≡ ok (spelled size, rest)
      → 0 < size
      → copy_args (command_of a b c d e f g) (copy_tail (command_of a b c d e f g) offset size rest)
        ≡ ok (offset, size, rest)
  copy_args-command offset_read size_read pos =
      rw
        (
          copy_tail-present a b c d e f g offset size rest,
          copy_args-tests a b c d e f g offset size rest,
          offset_read,
          size_read,
        )
        (ap (λ v. ok (offset, v, rest)) (spelled-back size pos))

-- applyDelta reads back the offset and the size that encodeCopy wrote.
pub copy_args-encode :
    (offset size : ℕ) (rest : Bytes)
    → offset < 2 ^ 32
    → 0 < size
    → size < 2 ^ 24
    → copy_args (copy_command offset size) (copy_tail (copy_command offset size) offset size rest)
      ≡ ok (offset, size, rest)
unfolding copy_command
copy_args-encode offset size rest off_small pos small =
    let a = has_bits offset 0xff in
    let b = has_bits offset 0xff00 in
    let c = has_bits offset 0xff_0000 in
    let d = has_bits offset 0xff00_0000 in
    let e = size_test size 0xff in
    let f = size_test size 0xff00 in
    let g = size_test size 0xff_0000 in
    copy_args-command a b c d e f g offset size rest
      (offset_args-present a b c d (offset % 256) (offset / 2 ^ 8 % 256) (offset / 2 ^ 16 % 256)
          (offset / 2 ^ 24 % 256) (sizes a b c d e f g offset size rest) (byte_0 offset)
          (byte_1 offset) (byte_2 offset) (byte_3 offset) (omega arith) (omega arith) (omega arith)
        ∙ ap (λ v. ok (v, sizes a b c d e f g offset size rest)) (offset_bytes offset off_small))
      (size_args-spelled size rest small) pos

copy_command-top : (offset size : ℕ) → has_flag (copy_command offset size) 0x80 ≡ true
unfolding copy_command
copy_command-top offset size = rw flag_80

-- Running a copy instruction appends the bytes that it names, and leaves what follows it.
pub apply_instruction-encode_copy :
    (base : Bytes) (offset size : ℕ) (rest result : Bytes)
    → offset < 2 ^ 32
    → 0 < size
    → size < 2 ^ 24
    → offset + size ≤ length base
    → apply_instruction base
        (copy_command offset size)
        (copy_tail (copy_command offset size) offset size rest)
        result
      ≡ ok (result ++ take size (drop offset base), rest)
unfolding apply_instruction
apply_instruction-encode_copy base offset size rest result off_small pos small fits =
    let fits' : leb (offset + size) (length base) ≡ true = ground arith in
    rw (copy_command-top offset size)
      (rw (copy_args-encode offset size rest off_small pos small) (rw fits'))
