-- ===== src/Prelude/Int.antt =====
-- Signed integers as the program's `int` reads them, and their conversion to unsigned words.
use Prim.Native.Nat.{ℕ, ◌-◌, ◌%◌, ◌^◌}
use mathlib.Core.Bool.{Bool, true}
use linux_cpp_learn.Prelude.Tests.{leb}

-- `negsuc n` is -(n + 1).
pub data ℤ : Type 0 where
  pos : ℕ → ℤ
  negsuc : ℕ → ℤ

-- Conversion to an unsigned type of w bits, modulo 2 ^ w.
unfoldable pub to_unsigned : ℕ → ℤ → ℕ
to_unsigned w (pos n) = n % 2 ^ w
to_unsigned w (negsuc n) = 2 ^ w - 1 - n % 2 ^ w

-- A number that is not negative, compared with an integer.
abbrev pub at_least : ℕ → ℤ → Bool
at_least t (pos n) = leb n t
at_least t (negsuc n) = true
