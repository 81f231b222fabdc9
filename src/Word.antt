-- ===== src/Word.antt =====
-- Machine words as native numbers: the wrap of C's unsigned types, written out.
pub mod Bits
pub mod Bytes
use terracotta_os.Prelude.{ℕ, ◌+◌, ◌-◌, ◌*◌, ◌%◌, ◌^◌}

abbrev pub u8_mod : ℕ
u8_mod = 2 ^ 8

abbrev pub u16_mod : ℕ
u16_mod = 2 ^ 16

abbrev pub u32_mod : ℕ
u32_mod = 2 ^ 32

abbrev pub u64_mod : ℕ
u64_mod = 2 ^ 64

-- `uint64_t` sum, difference and product. `-` on ℕ stops at 0, so the modulus is added first.
abbrev pub add64 : ℕ → ℕ → ℕ
add64 a b = (a + b) % u64_mod

abbrev pub sub64 : ℕ → ℕ → ℕ
sub64 a b = (a + u64_mod - b % u64_mod) % u64_mod

abbrev pub mul64 : ℕ → ℕ → ℕ
mul64 a b = a * b % u64_mod
