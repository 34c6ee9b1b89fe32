-- ===== src/Sshserver/Delta/Emits.antt =====
-- What a piece of a delta does when applyDelta of gitpack_parse.go comes to it.
use kai_server.Common.{
  ℕ, zero, suc, ◌+◌, ◌^◌, ◌≤◌, ◌<◌, ◌≡◌, sym, ap, ◌∙◌, arith, [], ◌∷◌, ◌++◌, append_assoc,
  append-nil, length, length-append, take, drop, ok,
}
use kai_server.Common.Bytes.{Bytes}
use mathlib.Core.Path.{subst}
use kai_server.Sshserver.Delta.Encode.{encode_copy, copy_command}
use kai_server.Sshserver.Delta.CopyBytes.{encode_copy-append, copy_tail}
use kai_server.Sshserver.Delta.Copies.{apply_instruction-encode_copy}
use kai_server.Sshserver.Unpack.{apply_instruction, apply_loop}

-- Running `code` appends `out` to the result and goes on behind it, with fuel for the rest.
pub record Emits (base code out : Bytes) : Type 0 where
  pub at :
      (fuel : ℕ) (rest result : Bytes)
      → length (code ++ rest) ≤ fuel
      → (fuel' : ℕ) × (length rest ≤ fuel')
        × (apply_loop fuel base (code ++ rest) result ≡ apply_loop fuel' base rest (result ++ out))

pub Emits-nil : (base : Bytes) → Emits base [] []
Emits-nil base = record {
  at = λ fuel rest result h.
      (fuel, h, ap (λ r. apply_loop fuel base rest r) (sym (append-nil result)));
}

pub Emits-append :
    {base c₁ o₁ c₂ o₂ : Bytes}
    → Emits base c₁ o₁
    → Emits base c₂ o₂
    → Emits base (c₁ ++ c₂) (o₁ ++ o₂)
Emits-append {base} {c₁} {o₁} {c₂} {o₂} e₁ e₂ = record {
  at = λ fuel rest result h.
      let (f₁, h₁, p₁) = e₁.at fuel (c₂ ++ rest) result (rw (← append_assoc) h) in
      let (f₂, h₂, p₂) = e₂.at f₁ rest (result ++ o₁) h₁ in
      (
        f₂,
        h₂,
        ap (λ c. apply_loop fuel base c result) (append_assoc c₁ c₂ rest)
            ∙ p₁
            ∙ p₂
            ∙ ap (λ r. apply_loop f₂ base rest r) (append_assoc result o₁ o₂),
      );
}

-- One instruction, whatever follows it.
pub Emits-instruction :
    (base : Bytes) (cmd : ℕ) (tail out : Bytes)
    → ((rest result : Bytes)
        → apply_instruction base cmd (tail ++ rest) result ≡ ok (result ++ out, rest))
    → Emits base (cmd ∷ tail) out
Emits-instruction base cmd tail out runs = record { at = step }
  where
    step :
        (fuel : ℕ) (rest result : Bytes)
        → length (cmd ∷ (tail ++ rest)) ≤ fuel
        → (fuel' : ℕ) × (length rest ≤ fuel')
          × (apply_loop fuel base (cmd ∷ (tail ++ rest)) result
              ≡ apply_loop fuel' base rest (result ++ out))
    step zero rest result h = absurd (omega arith)
    step (suc fuel) rest result h =
        (fuel, omega (arith, length-append tail rest), unfold apply_loop in rw (runs rest result))

copy_tail-append :
    (cmd offset size : ℕ) (rest : Bytes)
    → copy_tail cmd offset size [] ++ rest ≡ copy_tail cmd offset size rest
copy_tail-append cmd offset size rest = simp append_assoc

-- A copy instruction emits the bytes of the base that it names.
pub Emits-encode_copy :
    (base : Bytes) (offset size : ℕ)
    → offset < 2 ^ 32
    → 0 < size
    → size < 2 ^ 24
    → offset + size ≤ length base
    → Emits base (encode_copy offset size) (take size (drop offset base))
Emits-encode_copy base offset size off_small pos small fits =
    let cmd = copy_command offset size in
    let whole =
      Emits-instruction base cmd (copy_tail cmd offset size []) (take size (drop offset base))
        λ rest result.
          ap (λ t. apply_instruction base cmd t result) (copy_tail-append cmd offset size rest)
          ∙ apply_instruction-encode_copy base offset size rest result off_small pos small fits in
    subst (λ code. Emits base code (take size (drop offset base)))
      (sym (encode_copy-append offset size []) ∙ append-nil _) whole
