-- ===== src/Common/Ints.antt =====
-- Go's int, where it may be negative.
use Prim.Native.Nat.{ℕ}

-- An int that is not negative, or -1 - n.
pub data ℤ : Type 0 where
  pos negsuc : ℕ → ℤ
