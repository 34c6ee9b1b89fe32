-- ===== src/Sshserver/Unpack/Total.antt =====
-- gitpack_parse.go: the loops of applyDelta.
use kai_server.Common.{
  ℕ, zero, suc, ◌+◌, ◌≤◌, ◌≡◌, ◌≢◌, inl, inr, refl, bit_and, arith, Bool, true, false, [], ◌∷◌,
  length, length-drop, ok, err, panic, stuck, ◌>>=◌, guard, leb, ◌==◌, if◌then◌else◌, Bool-cases,
}
use kai_server.Common.Bytes.{Bytes}
use kai_server.Sshserver.Unpack.{
  M, DeltaError, delta_too_short, base_size_mismatch, max_alloc, read_size_loop, read_delta_size,
  first_byte, or_byte, has_flag, offset_args, size_args, copy_args, apply_instruction, apply_loop,
  apply_delta,
}

-- A step ends, and leaves no more than it got.
abbrev Ends : {A : Type 0} → (A → ℕ) → ℕ → M A → Type 0
Ends left n (ok a) = left a ≤ n
Ends left n (err e) = Unit
Ends left n panic = Unit
Ends left n stuck = ⊥

abbrev Shrinks : Bytes → M (ℕ × Bytes) → Type 0
Shrinks rest = Ends (λ p. length p.1) (length rest)

Ends-mono : {A : Type 0} (left : A → ℕ) (m n : ℕ) (r : M A) → m ≤ n → Ends left m r → Ends left n r
Ends-mono left m n (ok a) h k = omega arith
Ends-mono left m n (err e) h k = tt
Ends-mono left m n panic h k = tt
Ends-mono left m n stuck h k = k

Ends-bind :
    {A B : Type 0} (la : A → ℕ) (lb : B → ℕ) (n : ℕ) (m : M A) (f : A → M B)
    → Ends la n m
    → ((a : A) → Ends lb (la a) (f a))
    → Ends lb n (m >>= f)
Ends-bind la lb n (ok a) f h k = Ends-mono lb (la a) n (f a) h (k a)
Ends-bind la lb n (err e) f h k = tt
Ends-bind la lb n panic f h k = tt
Ends-bind la lb n stuck f h k = h

first_byte-Shrinks : (test : Bool) (rest : Bytes) → Shrinks rest (first_byte test rest)
first_byte-Shrinks false rest = omega arith
first_byte-Shrinks true [] = tt
first_byte-Shrinks true (b ∷ rest) = omega arith

or_byte-Shrinks :
    (test : Bool) (shift v : ℕ) (rest : Bytes) → Shrinks rest (or_byte test shift v rest)
or_byte-Shrinks false shift v rest = omega arith
or_byte-Shrinks true shift v [] = tt
or_byte-Shrinks true shift v (b ∷ rest) = omega arith

abbrev left : ℕ × Bytes → ℕ
left p = length p.1

offset_args-Shrinks : (a b c d : Bool) (rest : Bytes) → Shrinks rest (offset_args a b c d rest)
unfolding offset_args
offset_args-Shrinks a b c d rest =
    Ends-bind left left _ (first_byte a rest) _ (first_byte-Shrinks a rest) λ p₀.
      Ends-bind left left _ (or_byte b 8 p₀.0 p₀.1) _ (or_byte-Shrinks b 8 p₀.0 p₀.1) λ p₁.
        Ends-bind left left _ (or_byte c 16 p₁.0 p₁.1) _ (or_byte-Shrinks c 16 p₁.0 p₁.1)
          λ p₂. or_byte-Shrinks d 24 p₂.0 p₂.1

size_args-Shrinks : (e f g : Bool) (rest : Bytes) → Shrinks rest (size_args e f g rest)
unfolding size_args
size_args-Shrinks e f g rest =
    Ends-bind left left _ (first_byte e rest) _ (first_byte-Shrinks e rest) λ p₀.
      Ends-bind left left _ (or_byte f 8 p₀.0 p₀.1) _ (or_byte-Shrinks f 8 p₀.0 p₀.1)
        λ p₁. or_byte-Shrinks g 16 p₁.0 p₁.1

copy_args-Ends :
    (cmd : ℕ) (rest : Bytes) → Ends (λ t. length t.2) (length rest) (copy_args cmd rest)
unfolding copy_args
copy_args-Ends cmd rest =
    Ends-bind left (λ t. length t.2) _ (offset_args _ _ _ _ rest) _
      (offset_args-Shrinks _ _ _ _ rest)
      λ p.
        Ends-bind left (λ t. length t.2) _ (size_args _ _ _ p.1) _ (size_args-Shrinks _ _ _ p.1)
          λ q. omega arith

guard-Ends :
    {A : Type 0} (l : A → ℕ) (n : ℕ) (test : Bool) (e : DeltaError) (a : A)
    → (test ≡ true → l a ≤ n)
    → Ends l n (guard test e >>= λ _. ok a)
guard-Ends l n true e a h = h refl
guard-Ends l n false e a h = tt

apply_instruction-Ends :
    (base : Bytes) (cmd : ℕ) (rest result : Bytes)
    → Ends (λ p. length p.1) (length rest) (apply_instruction base cmd rest result)
unfolding apply_instruction
apply_instruction-Ends base cmd rest result = elim (Bool-cases (has_flag cmd 0x80)) [
  | inl copy ↦ rw copy (
      Ends-bind (λ t. length t.2) (λ p. length p.1) _ (copy_args cmd rest) _
        (copy_args-Ends cmd rest)
        λ t. guard-Ends (λ p. length p.1) (length t.2) _ _ _ (λ _. omega arith))
  | inr no_copy ↦ elim (Bool-cases (cmd == 0)) [
    | inl zero_cmd ↦ rw (no_copy, zero_cmd) (omega arith)
    | inr insert ↦
        rw (no_copy, insert)
          (guard-Ends (λ p. length p.1) (length rest) _ _ _
            (λ _. omega (arith, length-drop cmd rest)))
  ]
]

bind-ne-stuck :
    {A B : Type 0} (m : M A) (f : A → M B)
    → m ≢ stuck
    → ((a : A) → m ≡ ok a → f a ≢ stuck)
    → (m >>= f) ≢ stuck
bind-ne-stuck (ok a) f h k = k a refl
bind-ne-stuck (err e) f h k = λ p. cc
bind-ne-stuck panic f h k = λ p. cc
bind-ne-stuck stuck f h k = absurd (h refl)

Ends-ne-stuck : {A : Type 0} (l : A → ℕ) (n : ℕ) (m : M A) → Ends l n m → m ≢ stuck
Ends-ne-stuck l n (ok a) h = λ p. cc
Ends-ne-stuck l n (err e) h = λ p. cc
Ends-ne-stuck l n panic h = λ p. cc
Ends-ne-stuck l n stuck h = λ p. h

Ends-ok : {A : Type 0} (l : A → ℕ) (n : ℕ) (m : M A) (a : A) → Ends l n m → m ≡ ok a → l a ≤ n
Ends-ok l n m a h e = rw e at h

apply_loop-ne-stuck :
    (fuel : ℕ) (base rest result : Bytes)
    → length rest ≤ fuel
    → apply_loop fuel base rest result ≢ stuck
unfolding apply_loop
apply_loop-ne-stuck fuel base [] result h = λ p. cc
apply_loop-ne-stuck zero base (cmd ∷ rest) result h = absurd (omega arith)
apply_loop-ne-stuck (suc fuel) base (cmd ∷ rest) result h =
    let ends = apply_instruction-Ends base cmd rest result in
    bind-ne-stuck (apply_instruction base cmd rest result) _ (Ends-ne-stuck _ _ _ ends)
      λ p e. apply_loop-ne-stuck fuel base p.1 p.0 (omega (arith, Ends-ok _ _ _ p ends e))

read_size_loop-ne-stuck : (bytes : Bytes) (size shift : ℕ) → read_size_loop bytes size shift ≢ stuck
unfolding read_size_loop
read_size_loop-ne-stuck [] size shift = λ p. cc
read_size_loop-ne-stuck (b ∷ rest) size shift = elim (Bool-cases (bit_and b 0x80 == 0)) [
  | inl last ↦ rw last (λ p. cc)
  | inr more ↦ rw more (read_size_loop-ne-stuck rest _ (shift + 7))
]

guard-ne-stuck : (test : Bool) (e : DeltaError) → guard test e ≢ stuck
guard-ne-stuck true e = λ p. cc
guard-ne-stuck false e = λ p. cc

alloc-ne-stuck :
    (n : ℕ) (base rest : Bytes)
    → (if leb n max_alloc then apply_loop (length rest) base rest [] else panic) ≢ stuck
alloc-ne-stuck n base rest = elim (Bool-cases (leb n max_alloc)) [
  | inl fits ↦ rw fits (apply_loop-ne-stuck (length rest) base rest [] (omega arith))
  | inr large ↦ rw large (λ p. cc)
]

-- applyDelta ends on every base and every delta, well formed or not: its loops do not run out of
-- fuel.
pub apply_delta-ne-stuck : (base delta : Bytes) → apply_delta base delta ≢ stuck
unfolding apply_delta read_delta_size
apply_delta-ne-stuck base delta =
    bind-ne-stuck (guard (leb 2 (length delta)) delta_too_short) _ (guard-ne-stuck _ _) λ _ _.
      bind-ne-stuck (read_delta_size delta) _ (read_size_loop-ne-stuck delta 0 0) λ p _.
        bind-ne-stuck (guard (p.0 == length base) base_size_mismatch) _ (guard-ne-stuck _ _) λ _ _.
          bind-ne-stuck (read_delta_size p.1) _ (read_size_loop-ne-stuck p.1 0 0)
            λ q _. alloc-ne-stuck q.0 base q.1
