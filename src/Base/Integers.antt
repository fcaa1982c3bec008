-- ===== src/Base/Integers.antt =====
-- The signed numbers of error codes and labels, `long` in the source.
use Prim.Native.Nat.{ℕ, zero}
use mathlib.Core.Bool.{Bool, true, false}

pub data ℤ : Type 0 where
  pos : ℕ → ℤ
  negsuc : ℕ → ℤ

-- `n < 0`
abbrev pub is_negative : ℤ → Bool
is_negative (pos n) = false
is_negative (negsuc n) = true

-- `first ?: second`
abbrev pub or_else : ℤ → ℤ → ℤ
or_else (pos zero) second = second
or_else first second = first
