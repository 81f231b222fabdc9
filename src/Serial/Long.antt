-- ===== src/Serial/Long.antt =====
-- The text of `%llu` and `%lld`.
use terracotta_os.Prelude.{
  inl, inr, ℕ, suc, ◌+◌, ◌-◌, ◌^◌, ◌<◌, ◌≤◌, ◌≡◌, refl, sym, ap, ◌∙◌, List, ◌∷◌, false, some, leb,
  ◌==◌, ==_ne, Bool-cases, arith,
}
use terracotta_os.Prelude.Int.{ℤ, pos, negsuc}
use terracotta_os.Serial.{
  Chars, set_char, decimal_digit, rounds, negate, positive_part, is_zero, write_long_signed,
  write_long_unsigned, zero_or_digits,
}
use terracotta_os.Serial.Buffer.{reverse_chars-ended}
use terracotta_os.Serial.Digits.{
  read_from, digits_loop_lem, set_char-AllSet, set_char_self, down-set_char, length-down,
}
use terracotta_os.Serial.Numbers.{
  Reads, decimal_value, decimal-IsDigits, none_set, unsigned_text, zero_or_digits_lem,
}
use terracotta_os.Serial.Signed.{decimal}

-- A decimal text reads back as the number, and has no more digits than it needs.
pub decimal-Reads : (n r : ℕ) → r ≤ 64 → n < 10 ^ r → Reads 10 decimal_value n 0 r (decimal n)
unfolding read_from
decimal-Reads n r lim small =
    let (buf, i, run, far, spells, w) =
      digits_loop_lem (decimal-IsDigits 10 (omega arith) (omega arith)) 64 rounds r n (λ k. 0) 0 lim
        small (omega arith) in
    record {
      value_is = ap (read_from 10 decimal_value 0) (sym spells) ∙ w.reads_back;
      at_least = omega arith;
      at_most = rw (← spells) (omega (arith, length-down buf i));
    }

-- `%llu` sends the decimal digits of any 64-bit value.
pub write_long_unsigned_lem :
    (stack : Chars) (v : ℕ)
    → v < 2 ^ 64
    → write_long_unsigned stack v ≡ some (unsigned_text 10 decimal_digit v)
unfolding write_long_unsigned
write_long_unsigned_lem stack v small =
    let (buf, i, run, le, all, spells, _) =
      zero_or_digits_lem (decimal-IsDigits 10 (omega arith) (omega arith)) refl 32 20 v stack
        (omega arith) (omega arith) (omega arith) (omega arith) in
    let room : leb 32 i ≡ false = ground arith in
    rw (run, room, reverse_chars-ended 32 i buf (omega arith) all, spells) refl

-- The text of a signed number, the least one of 64 bits without a digit.
abbrev pub long_text : ℤ → List ℕ
long_text (pos n) = unsigned_text 10 decimal_digit n
long_text (negsuc n) = b'-' ∷ decimal (positive_part (negate 64 (negsuc n)))

abbrev pub IsLong : ℤ → Type 0
IsLong (pos n) = n < 2 ^ 63
IsLong (negsuc n) = n < 2 ^ 63

-- The loop of `%lld` on what `-v` leaves of a negative number.
negated_long :
    (n : ℕ)
    → n < 2 ^ 63
    → (is_zero (negate 64 (negsuc n)) ≡ false) × (positive_part (negate 64 (negsuc n)) < 2 ^ 64)
unfolding is_zero positive_part negate
negated_long n small = elim (Bool-cases (n + 1 == 2 ^ (64 - 1))) [
  | inl e ↦ rw e (refl, omega arith)
  | inr e ↦ rw e (==_ne (n + 1) 0 (omega arith), omega arith)
]

-- `%lld` sends the decimal digits of a 64-bit value behind its sign.
pub write_long_signed_lem :
    (stack : Chars) (v : ℤ) → IsLong v → write_long_signed stack v ≡ some (long_text v)
unfolding write_long_signed is_zero positive_part zero_or_digits
write_long_signed_lem stack (pos n) small =
    let (buf, i, run, le, all, spells, _) =
      zero_or_digits_lem (decimal-IsDigits 10 (omega arith) (omega arith)) refl 32 20 n stack
        (omega arith) (omega arith) (omega arith) (omega arith) in
    let room : leb 32 i ≡ false = ground arith in
    rw (run, room, reverse_chars-ended 32 i buf (omega arith) all, spells) refl
write_long_signed_lem stack (negsuc n) small =
    let (zero_no, lt) = negated_long n small in
    let (buf, i, run, far, spells, w) =
      digits_loop_lem (decimal-IsDigits 10 (omega arith) (omega arith)) 32 rounds 20
        (positive_part (negate 64 (negsuc n))) stack 0 (omega arith) (omega arith) (omega arith) in
    let room : leb 32 i ≡ false = ground arith in
    let room' : leb 32 (i + 1) ≡ false = ground arith in
    let one : i + 1 ≡ suc i = omega arith in
    let all = set_char-AllSet buf i b'-' (w.all_set (none_set stack)) (omega arith) in
    rw
      (
        zero_no,
        run,
        room,
        room',
        reverse_chars-ended 32 (i + 1) (set_char buf i b'-') (omega arith) all,
        one,
        set_char_self buf i b'-',
        down-set_char buf i b'-' i (omega arith),
        spells,
      )
      refl
