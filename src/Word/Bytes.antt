-- ===== src/Word/Bytes.antt =====
-- Single bits of a byte: set, clear and test with a mask, decided over the 256 values of a byte.
use Prim.Native.Nat.{bit_and-bitwise}
use terracotta_os.Prelude.{
  ℕ, zero, suc, ◌-◌, ◌^◌, ◌<◌, bit_and, bit_or, ◌≡◌, refl, Bool, true, false, not, ◌&&◌, ◌||◌, ltb,
  ◌==◌, arith,
}

-- `b & (uint8_t)(1u << k)`, as a truth value
unfoldable pub test_bit : ℕ → ℕ → Bool
test_bit b k = not (bit_and b (2 ^ k) == 0)

-- `b | (uint8_t)(1u << j)`
unfoldable pub set_bit : ℕ → ℕ → ℕ
set_bit b j = bit_or b (2 ^ j)

-- `b & (uint8_t)~(1u << j)`
unfoldable pub clear_bit : ℕ → ℕ → ℕ
clear_bit b j = bit_and b (255 - 2 ^ j)

unfoldable pub every : ℕ → (ℕ → Bool) → Bool
every zero p = true
every (suc n) p = every n p && p n

pub every-lt : (n : ℕ) (p : ℕ → Bool) → every n p ≡ true → (x : ℕ) → x < n → p x ≡ true
unfolding every
every-lt zero p h x lt = absurd (omega arith)
every-lt (suc n) p h x lt = ground (arith, every-lt n p (ground arith) x)

same : Bool → Bool → Bool
same true b = b
same false b = not b

same-eq : (a b : Bool) → same a b ≡ true → a ≡ b
unfolding same
same-eq true true h = refl
same-eq true false h = ground arith
same-eq false true h = ground arith
same-eq false false h = refl

-- For a byte and two bit numbers.
module _ (p : ℕ → ℕ → ℕ → Bool) where
  every_byte : Bool
  every_byte = every 256 (λ b. every 8 (λ j. every 8 (p b j)))

  every_byte_lem : every_byte ≡ true → (b j k : ℕ) → b < 256 → j < 8 → k < 8 → p b j k ≡ true
  unfolding every_byte
  every_byte_lem h b j k hb hj hk =
      every-lt 8 (p b j) (every-lt 8 _ (every-lt 256 _ h b hb) j hj) k hk

abbrev set_case : ℕ → ℕ → ℕ → Bool
set_case b j k = same (test_bit (set_bit b j) k) ((j == k) || test_bit b k)

set_table : every_byte set_case ≡ true
unfolding every_byte every test_bit set_bit same
set_table = refl

pub test_bit-set_bit :
    (b j k : ℕ) → b < 256 → j < 8 → k < 8 → test_bit (set_bit b j) k ≡ ((j == k) || test_bit b k)
test_bit-set_bit b j k hb hj hk = same-eq _ _ (every_byte_lem set_case set_table b j k hb hj hk)

abbrev clear_case : ℕ → ℕ → ℕ → Bool
clear_case b j k = same (test_bit (clear_bit b j) k) (not (j == k) && test_bit b k)

clear_table : every_byte clear_case ≡ true
unfolding every_byte every test_bit clear_bit same
clear_table = refl

pub test_bit-clear_bit :
    (b j k : ℕ)
    → b < 256
    → j < 8
    → k < 8
    → test_bit (clear_bit b j) k ≡ (not (j == k) && test_bit b k)
test_bit-clear_bit b j k hb hj hk =
    same-eq _ _ (every_byte_lem clear_case clear_table b j k hb hj hk)

abbrev byte_case : ℕ → ℕ → ℕ → Bool
byte_case b j k = ltb (set_bit b j) 256 && ltb (clear_bit b j) 256

byte_table : every_byte byte_case ≡ true
unfolding every_byte every set_bit clear_bit
byte_table = refl

pub set_bit-lt : (b j : ℕ) → b < 256 → j < 8 → set_bit b j < 256
set_bit-lt b j hb hj = ground (arith, every_byte_lem byte_case byte_table b j 0 hb hj (omega arith))

pub clear_bit-lt : (b j : ℕ) → b < 256 → j < 8 → clear_bit b j < 256
clear_bit-lt b j hb hj =
    ground (arith, every_byte_lem byte_case byte_table b j 0 hb hj (omega arith))

pub test_bit-zero : (k : ℕ) → test_bit 0 k ≡ false
unfolding test_bit
test_bit-zero k = ground (arith, bit_and-bitwise 0 (2 ^ k))
