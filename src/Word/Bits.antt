-- ===== src/Word/Bits.antt =====
-- Laws of `bit_and` and `bit_or` at variables, by one binary digit at a time.
use Prim.Native.Nat.{digits, bit_and-bitwise, bit_or-bitwise}
use native.Mathlib.Nat.{pow-suc}
use terracotta_os.Prelude.{
  ℕ, zero, suc, ◌+◌, ◌*◌, ◌/◌, ◌%◌, ◌^◌, ◌≤◌, ◌<◌, min, max, bit_and, bit_or, ◌≡◌, refl, sym, ap,
  ◌∙◌, arith,
}

-- An operation on digits: `z` is applied where the first number has run out.
module _ (z : ℕ → ℕ) (f : ℕ → ℕ → ℕ) where
  -- The count of rounds is of no matter once it reaches the first number.
  rounds_irrelevant : (n a b : ℕ) → a ≤ n → (m : ℕ) → a ≤ m → digits z f n a b ≡ digits z f m a b
  rounds_irrelevant zero zero b p zero q = refl
  rounds_irrelevant zero zero b p (suc m) q = refl
  rounds_irrelevant zero (suc a) b p m q = absurd (omega arith)
  rounds_irrelevant (suc n) zero b p zero q = refl
  rounds_irrelevant (suc n) zero b p (suc m) q = refl
  rounds_irrelevant (suc n) (suc a) b p zero q = absurd (omega arith)
  rounds_irrelevant (suc n) (suc a) b p (suc m) q =
      rw (rounds_irrelevant n (suc a / 2) (b / 2) (omega arith) m (omega arith)) refl

  digits_step :
      ((b : ℕ) → z b ≡ z (b / 2) * 2 + f 0 (b % 2))
      → (a b : ℕ) → digits z f a a b ≡ digits z f (a / 2) (a / 2) (b / 2) * 2 + f (a % 2) (b % 2)
  digits_step ends zero b = ends b
  digits_step ends (suc a) b =
      rw (rounds_irrelevant a (suc a / 2) (b / 2) (omega arith) (suc a / 2) (omega arith)) refl

pub bit_and_step : (a b : ℕ) → bit_and a b ≡ bit_and (a / 2) (b / 2) * 2 + min (a % 2) (b % 2)
bit_and_step a b = omega (
  arith,
  bit_and-bitwise a b,
  bit_and-bitwise (a / 2) (b / 2),
  digits_step (λ b. zero) min (λ b. omega arith) a b,
)

pub bit_or_step : (a b : ℕ) → bit_or a b ≡ bit_or (a / 2) (b / 2) * 2 + max (a % 2) (b % 2)
bit_or_step a b = omega (
  arith,
  bit_or-bitwise a b,
  bit_or-bitwise (a / 2) (b / 2),
  digits_step (λ b. b) max (λ b. omega arith) a b,
)

or_zero_below : (n a : ℕ) → a ≤ n → bit_or a 0 ≡ a
or_zero_below zero zero h = refl
or_zero_below zero (suc a) h = absurd (omega arith)
or_zero_below (suc n) zero h = refl
or_zero_below (suc n) (suc a) h =
    omega (arith, bit_or_step (suc a) 0, or_zero_below n (suc a / 2) (omega arith))

pub bit_or-zero : (a : ℕ) → bit_or a 0 ≡ a
bit_or-zero a = or_zero_below a a (omega arith)

pub double_pow : (q k : ℕ) → q * 2 ^ suc k ≡ 2 * (q * 2 ^ k)
double_pow q k = omega (arith, ap (λ (t : ℕ). q * t) (pow-suc 2 k))

-- `|` of a number whose low `k` bits are clear and one of at most `k` bits is their sum.
pub bit_or-add : (k q r : ℕ) → r < 2 ^ k → bit_or (q * 2 ^ k) r ≡ q * 2 ^ k + r
bit_or-add zero q r h = rw (let e : r ≡ 0 = omega arith in e) (omega (arith, bit_or-zero (q * 1)))
bit_or-add (suc k) q r h =
    let e = double_pow q k in
    let h' : r / 2 < 2 ^ k = omega (arith, pow-suc 2 k) in
    let halves : q * 2 ^ suc k / 2 ≡ q * 2 ^ k = omega arith in
    rw (bit_or_step (q * 2 ^ suc k) r, halves, bit_or-add k q (r / 2) h') (omega arith)

or_comm_below : (n a b : ℕ) → a ≤ n → bit_or a b ≡ bit_or b a
or_comm_below zero zero b h = bit_or-bitwise 0 b ∙ sym (bit_or-zero b)
or_comm_below zero (suc a) b h = absurd (omega arith)
or_comm_below (suc n) zero b h = bit_or-bitwise 0 b ∙ sym (bit_or-zero b)
or_comm_below (suc n) (suc a) b h = omega (
  arith,
  bit_or_step (suc a) b,
  bit_or_step b (suc a),
  or_comm_below n (suc a / 2) (b / 2) (omega arith),
)

pub bit_or_comm : (a b : ℕ) → bit_or a b ≡ bit_or b a
bit_or_comm a b = or_comm_below a a b (omega arith)
