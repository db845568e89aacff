-- ===== src/Prelude/Int.antt =====
-- Signed coordinates, which the messages carry and do not compute with.
use Prim.Native.Nat.{ℕ}

-- `negsuc n` is -(n + 1).
pub data ℤ : Type 0 where
  pos : ℕ → ℤ
  negsuc : ℕ → ℤ
