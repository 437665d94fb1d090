-- ===== src/Common/Int.antt =====
-- Signed machine integers as values that the program passes on without computing with them.
use Prim.Native.Nat.{ℕ}

-- `negsuc n` is -(n + 1).
pub data ℤ : Type 0 where
  pos : ℕ → ℤ
  negsuc : ℕ → ℤ
