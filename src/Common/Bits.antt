-- ===== src/Common/Bits.antt =====
-- Go's `&` and `|` on non-negative integers as arithmetic.
use Prim.Native.Nat.{
  ℕ, zero, suc, ◌+◌, ◌*◌, ◌/◌, ◌%◌, ◌^◌, ◌≤◌, ◌<◌, min, max, bit_and, bit_or, digits,
  bit_and-bitwise, bit_or-bitwise,
}
use mathlib.Core.Path.{◌≡◌, refl, ap}
use native.Mathlib.Omega.{arith}
use native.Mathlib.Nat.{pow-suc}

-- A recursion on digits gives the same with any fuel that covers its first argument.
digits_enough :
    (z : ℕ → ℕ) (f : ℕ → ℕ → ℕ) (k l a b : ℕ) → a ≤ k → a ≤ l → digits z f k a b ≡ digits z f l a b
digits_enough z f zero zero a b p q = refl
digits_enough z f k l zero b p q = at_zero k l
  where
    at_zero : (k l : ℕ) → digits z f k 0 b ≡ digits z f l 0 b
    at_zero zero zero = refl
    at_zero zero (suc l) = refl
    at_zero (suc k) zero = refl
    at_zero (suc k) (suc l) = refl
digits_enough z f zero (suc l) (suc a) b p q = absurd (omega arith)
digits_enough z f (suc k) zero (suc a) b p q = absurd (omega arith)
digits_enough z f (suc k) (suc l) (suc a) b p q =
    ap (λ d. d * 2 + f (suc a % 2) (b % 2))
      (digits_enough z f k l (suc a / 2) (b / 2) (omega arith) (omega arith))

zero-bit_or : (b : ℕ) → bit_or 0 b ≡ b
zero-bit_or b = bit_or-bitwise 0 b

zero-bit_and : (b : ℕ) → bit_and 0 b ≡ 0
zero-bit_and b = bit_and-bitwise 0 b

-- The lowest bit, and the others.
pub bit_or_low : (a b : ℕ) → bit_or a b ≡ bit_or (a / 2) (b / 2) * 2 + max (a % 2) (b % 2)
bit_or_low zero b = omega (arith, zero-bit_or b, zero-bit_or (b / 2))
bit_or_low (suc a) b = omega (
  arith,
  bit_or-bitwise (suc a) b,
  bit_or-bitwise (suc a / 2) (b / 2),
  digits_enough (λ y. y) max a (suc a / 2) (suc a / 2) (b / 2) (omega arith) (omega arith),
)

pub bit_and_low : (a b : ℕ) → bit_and a b ≡ bit_and (a / 2) (b / 2) * 2 + min (a % 2) (b % 2)
bit_and_low zero b = omega (arith, zero-bit_and b, zero-bit_and (b / 2))
bit_and_low (suc a) b = omega (
  arith,
  bit_and-bitwise (suc a) b,
  bit_and-bitwise (suc a / 2) (b / 2),
  digits_enough (λ y. zero) min a (suc a / 2) (suc a / 2) (b / 2) (omega arith) (omega arith),
)

-- Recursion on a number above `a`.
no_bits : (a above : ℕ) → a < above → bit_and a 0 ≡ 0
no_bits zero above h = refl
no_bits (suc a) zero h = elim h [ ]
no_bits (suc a) (suc above) h =
    omega (arith, no_bits (suc a / 2) above (omega arith), bit_and_low (suc a) 0)

pub bit_and-zero : (a : ℕ) → bit_and a 0 ≡ 0
bit_and-zero a = no_bits a (a + 1) (omega arith)

double_pow : (b s : ℕ) → b * 2 ^ suc s ≡ 2 * (b * 2 ^ s)
double_pow b s = omega (arith, ap (λ (t : ℕ). b * t) (pow-suc 2 s))

-- `a | b << s` is a sum if `a` has no bit from `s` on.
pub bit_or-shift : (s a b : ℕ) → a < 2 ^ s → bit_or a (b * 2 ^ s) ≡ a + b * 2 ^ s
bit_or-shift zero a b h =
    let e : a ≡ 0 = omega arith in
    omega (arith, ap (λ x. bit_or x (b * 2 ^ 0)) e, zero-bit_or (b * 2 ^ 0))
bit_or-shift (suc s) a b h = omega (
  arith,
  bit_or_low a (b * 2 ^ suc s),
  ap (λ x. bit_or (a / 2) x) {x = b * 2 ^ suc s / 2} {y = b * 2 ^ s}
      (omega (arith, double_pow b s)),
  double_pow b s,
  bit_or-shift s (a / 2) b (omega (arith, pow-suc 2 s)),
)

-- Masks of ones keep the low bits.
bit_and-15 : (a : ℕ) → bit_and a 15 ≡ a % 16
bit_and-15 a = omega (
  arith,
  bit_and_low a 15,
  bit_and_low (a / 2) 7,
  bit_and_low (a / 2 / 2) 3,
  bit_and_low (a / 2 / 2 / 2) 1,
  bit_and-zero (a / 2 / 2 / 2 / 2),
)

pub bit_and-127 : (a : ℕ) → bit_and a 127 ≡ a % 128
bit_and-127 a = omega (
  arith,
  bit_and_low a 127,
  bit_and_low (a / 2) 63,
  bit_and_low (a / 2 / 2) 31,
  bit_and-15 (a / 2 / 2 / 2),
)

pub bit_and-255 : (a : ℕ) → bit_and a 255 ≡ a % 256
bit_and-255 a = omega (arith, bit_and_low a 255, bit_and-127 (a / 2))

-- A mask whose low bits are zero.
bit_and-double : (a m : ℕ) → bit_and a (m * 2) ≡ bit_and (a / 2) m * 2
bit_and-double a m = omega (
  arith,
  bit_and_low a (m * 2),
  ap (λ x. bit_and (a / 2) x) {x = m * 2 / 2} {y = m} (omega arith),
)

bit_and-shift_4 : (a m : ℕ) → bit_and a (m * 16) ≡ bit_and (a / 16) m * 16
bit_and-shift_4 a m = omega (
  arith,
  ap (λ x. bit_and a x) {x = m * 16} {y = m * 2 * 2 * 2 * 2} (omega arith),
  bit_and-double a (m * 2 * 2 * 2),
  bit_and-double (a / 2) (m * 2 * 2),
  bit_and-double (a / 2 / 2) (m * 2),
  bit_and-double (a / 2 / 2 / 2) m,
  ap (λ x. bit_and x m) {x = a / 2 / 2 / 2 / 2} {y = a / 16} (omega arith),
)

pub bit_and-shift_8 : (a m : ℕ) → bit_and a (m * 256) ≡ bit_and (a / 256) m * 256
bit_and-shift_8 a m = omega (
  arith,
  ap (λ x. bit_and a x) {x = m * 256} {y = m * 16 * 16} (omega arith),
  bit_and-shift_4 a (m * 16),
  bit_and-shift_4 (a / 16) m,
  ap (λ x. bit_and x m) {x = a / 16 / 16} {y = a / 256} (omega arith),
)

-- The top bit of a byte.
pub bit_and-128 : (a : ℕ) → bit_and a 128 ≡ a / 128 % 2 * 128
bit_and-128 a = omega (
  arith,
  bit_and-shift_4 a 8,
  bit_and-double (a / 16) 4,
  bit_and-double (a / 16 / 2) 2,
  bit_and-double (a / 16 / 2 / 2) 1,
  bit_and_low (a / 16 / 2 / 2 / 2) 1,
  bit_and-zero (a / 16 / 2 / 2 / 2 / 2),
)
