-- ===== src/Prelude/Int.antt =====
-- Integers over the native numbers, for what is an `int` in the code.
use Prim.Native.Nat.{ℕ}

-- `negsuc n` is `- (n + 1)`.
pub data ℤ : Type 0 where
  pos negsuc : ℕ → ℤ
