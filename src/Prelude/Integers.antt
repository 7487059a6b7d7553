-- ===== src/Prelude/Integers.antt =====
-- Python's unbounded integers, where a caller may hand over a negative one.
use Prim.Native.Nat.{ℕ}

pub data ℤ : Type 0 where
  pos : ℕ → ℤ
  negsuc : ℕ → ℤ  -- minus the successor

-- `max(0, n)`
abbrev pub clamp : ℤ → ℕ
clamp (pos n) = n
clamp (negsuc n) = 0
