-- ===== src/Prelude/Int.antt =====
-- Signed integers over the native numbers: an int32 field, and the int64 that a claim converts to.
use Prim.Native.Nat.{ℕ}
use mathlib.Core.Bool.{Bool, true, false}
use l.Prelude.Tests.{ltb}

-- `negsuc n` is -(n + 1).
pub data ℤ : Type 0 where
  pos : ℕ → ℤ
  negsuc : ℕ → ℤ

-- 0 < a
abbrev pub is_positive : ℤ → Bool
is_positive (pos n) = ltb 0 n
is_positive (negsuc n) = false

-- a < n, for a number n that is not negative
abbrev pub lt_ℕ : ℤ → ℕ → Bool
lt_ℕ (pos a) n = ltb a n
lt_ℕ (negsuc a) n = true
