-- ===== src/Base/Int.antt =====
-- Go's int, on the natural numbers that the tactics read; its bounds are not modelled.
use Prim.Native.Nat.{ℕ}

pub data ℤ : Type 0 where
  pos negsuc : ℕ → ℤ
