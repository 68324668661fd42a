-- ===== src/Prelude/Words.antt =====
-- Machine words and signed numbers.
use Prim.Native.Nat.{ℕ, ◌%◌}

-- uint64 arithmetic wraps at 2^64.
abbrev pub u64 : ℕ → ℕ
u64 n = n % 18446744073709551616

-- A Go `int` that may be negative; `negsuc n` is -(n + 1).
pub data ℤ : Type 0 where
  pos : ℕ → ℤ
  negsuc : ℕ → ℤ
