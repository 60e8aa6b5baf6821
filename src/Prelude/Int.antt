-- ===== src/Prelude/Int.antt =====
-- C's signed integers, where a negative value matters.
use Prim.Native.Nat.{ℕ}

pub data ℤ : Type 0 where
  pos : ℕ → ℤ
  -- `negsuc n` is -(n + 1).
  negsuc : ℕ → ℤ
