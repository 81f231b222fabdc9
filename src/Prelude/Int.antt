-- ===== src/Prelude/Int.antt =====
-- The signed results of C functions, over the native numbers.
use Prim.Native.Nat.{ℕ, ◌+◌, ◌-◌}
use mathlib.Core.Bool.{Bool, true, false}
use terracotta_os.Prelude.Tests.{leb, if◌then◌else◌}

-- `negsuc n` is -(n + 1).
pub data ℤ : Type 0 where
  pos : ℕ → ℤ
  negsuc : ℕ → ℤ

-- a - b, as an integer
abbrev pub sub_ℕ : ℕ → ℕ → ℤ
sub_ℕ a b = if leb b a then pos (a - b) else negsuc (b - a - 1)

abbrev pub is_negative : ℤ → Bool
is_negative (pos n) = false
is_negative (negsuc n) = true

-- a + n, for an integer a
abbrev pub add_ℕ : ℤ → ℕ → ℤ
add_ℕ (pos a) n = pos (a + n)
add_ℕ (negsuc a) n = if leb n a then negsuc (a - n) else pos (n - a - 1)
