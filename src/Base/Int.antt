-- ===== src/Base/Int.antt =====
-- Go's `int` where a negative value is tested for: `negsuc n` is -(n + 1).
use Prim.Native.Nat.{ℕ}

pub data ℤ : Type 0 where
  pos : ℕ → ℤ
  negsuc : ℕ → ℤ
