-- ===== src/Prelude/Int.antt =====
-- Python's integers. `negsuc n` is -(n + 1).
use Prim.Native.Nat.{ℕ, max, min}
use mathlib.Core.Option.{Option, none, some}

pub data ℤ : Type 0 where
  pos : ℕ → ℤ
  negsuc : ℕ → ℤ

-- `n if n >= 0`
abbrev pub nonnegative : ℤ → Option ℕ
nonnegative (pos n) = some n
nonnegative (negsuc _) = none

-- `max(0, n)`
abbrev pub max_zero : ℤ → ℕ
max_zero (pos n) = n
max_zero (negsuc _) = 0

-- `max(m, n)`
abbrev pub max_ℤ : ℤ → ℤ → ℤ
max_ℤ (pos m) (pos n) = pos (max m n)
max_ℤ (pos m) (negsuc n) = pos m
max_ℤ (negsuc m) (pos n) = pos n
max_ℤ (negsuc m) (negsuc n) = negsuc (min m n)
