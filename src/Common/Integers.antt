-- ===== src/Common/Integers.antt =====
-- Signed machine integers by their value.
use Prim.Native.Nat.{ℕ, suc, ◌-◌, ◌%◌, ◌^◌}

pub data ℤ : Type 0 where
  pos : ℕ → ℤ
  negsuc : ℕ → ℤ

-- The conversion to an unsigned int of 32 bits.
unfoldable pub unsigned_of : ℤ → ℕ
unsigned_of (pos n) = n % 2 ^ 32
unsigned_of (negsuc m) = 2 ^ 32 - suc (m % 2 ^ 32)
