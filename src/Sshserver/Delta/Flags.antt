-- ===== src/Sshserver/Delta/Flags.antt =====
-- delta.go, encodeCopy: what each bit of the command byte says.
use kai_server.Common.{
  ℕ, ◌+◌, ◌*◌, ◌^◌, ◌<◌, ◌≡◌, refl, sym, ap, arith, Bool, true, false, ◌&&◌, not, [], ◌∷◌, ◌++◌, ok,
  ◌==◌, if◌then◌else◌,
}
use kai_server.Common.Bits.{bit_or-shift}
use kai_server.Common.Bytes.{Bytes}
use kai_server.Sshserver.Delta.Encode.{command_of, has_bits}
use kai_server.Sshserver.Unpack.{or_byte, first_byte}

every : (Bool → Bool) → Bool
every p = p true && p false

every→at : (p : Bool → Bool) → every p ≡ true → (b : Bool) → p b ≡ true
unfolding every
every→at p h true = ground arith
every→at p h false = ground arith

same : Bool → Bool → Bool
same true b = b
same false b = not b

same→eq : (a b : Bool) → same a b ≡ true → a ≡ b
unfolding same
same→eq true true h = refl
same→eq true false h = cc
same→eq false true h = cc
same→eq false false h = refl

abbrev Test : Type 0
Test = Bool → Bool → Bool → Bool → Bool → Bool → Bool → Bool

abbrev table : Test → Bool
table p =
    every λ a. every λ b. every λ c. every λ d. every λ e. every λ f. every λ g. p a b c d e f g

table→at : (p : Test) → table p ≡ true → (a b c d e f g : Bool) → p a b c d e f g ≡ true
table→at p h a b c d e f g =
    every→at _
      (every→at _ (every→at _ (every→at _ (every→at _ (every→at _ (every→at _ h a) b) c) d) e) f) g

-- A mask picks one test out of the command byte: all 128 commands are tried.
flag_is :
    (mask : ℕ) (pick : Test)
    → table (λ a b c d e f g. same (pick a b c d e f g) (has_bits (command_of a b c d e f g) mask))
      ≡ true
    → (a b c d e f g : Bool) → has_bits (command_of a b c d e f g) mask ≡ pick a b c d e f g
flag_is mask pick h a b c d e f g = sym (
    same→eq _ _ (
      table→at
        (λ a b c d e f g. same (pick a b c d e f g) (has_bits (command_of a b c d e f g) mask)) h a
        b c d e f g))

module _ (a b c d e f g : Bool) where
  pub flag_80 : has_bits (command_of a b c d e f g) 0x80 ≡ true
  unfolding every same command_of
  flag_80 = flag_is 0x80 (λ a b c d e f g. true) refl a b c d e f g

  pub flag_01 : has_bits (command_of a b c d e f g) 0x01 ≡ a
  unfolding every same command_of
  flag_01 = flag_is 0x01 (λ a b c d e f g. a) refl a b c d e f g

  pub flag_02 : has_bits (command_of a b c d e f g) 0x02 ≡ b
  unfolding every same command_of
  flag_02 = flag_is 0x02 (λ a b c d e f g. b) refl a b c d e f g

  pub flag_04 : has_bits (command_of a b c d e f g) 0x04 ≡ c
  unfolding every same command_of
  flag_04 = flag_is 0x04 (λ a b c d e f g. c) refl a b c d e f g

  pub flag_08 : has_bits (command_of a b c d e f g) 0x08 ≡ d
  unfolding every same command_of
  flag_08 = flag_is 0x08 (λ a b c d e f g. d) refl a b c d e f g

  pub flag_10 : has_bits (command_of a b c d e f g) 0x10 ≡ e
  unfolding every same command_of
  flag_10 = flag_is 0x10 (λ a b c d e f g. e) refl a b c d e f g

  pub flag_20 : has_bits (command_of a b c d e f g) 0x20 ≡ f
  unfolding every same command_of
  flag_20 = flag_is 0x20 (λ a b c d e f g. f) refl a b c d e f g

  pub flag_40 : has_bits (command_of a b c d e f g) 0x40 ≡ g
  unfolding every same command_of
  flag_40 = flag_is 0x40 (λ a b c d e f g. g) refl a b c d e f g

-- A byte is written exactly if it is not 0, and read under the same test.
abbrev pub present : Bool → ℕ → Bytes
present test x = if test then x ∷ [] else []

pub first_byte-present :
    (test : Bool) (x : ℕ) (rest : Bytes)
    → test ≡ not (x == 0)
    → first_byte test (present test x ++ rest) ≡ ok (x, rest)
first_byte-present true x rest h = refl
first_byte-present false x rest h = ground arith

pub or_byte-present :
    (test : Bool) (shift acc x : ℕ) (rest : Bytes)
    → test ≡ not (x == 0)
    → acc < 2 ^ shift
    → or_byte test shift acc (present test x ++ rest) ≡ ok (acc + x * 2 ^ shift, rest)
or_byte-present true shift acc x rest h lt = rw (bit_or-shift shift acc x lt)
or_byte-present false shift acc x rest h lt =
    let e : x ≡ 0 = ground arith in ap (λ v. ok (v, rest)) (rw e (omega arith))
