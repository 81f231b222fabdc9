-- ===== src/Serial/Signed.antt =====
-- The functions that write a number with a sign: `serial_i2s`, which pads in front of the sign and
-- keeps the text of its last number, and the text of `%lld`.
use native.Mathlib.Decide.{ℕ_discrete}
use terracotta_os.Prelude.{
  length, ℕ, suc, ◌+◌, ◌-◌, ◌^◌, ◌<◌, ◌≤◌, ◌≡◌, refl, sym, ap, ◌∙◌, inl, inr, List, [], ◌∷◌, Bool,
  true, false, ◌&&◌, Option, some, leb, ◌==◌, ==_ne, ==_iff, Bool-cases, arith,
}
use terracotta_os.Prelude.Options.{bind-some}
use terracotta_os.Prelude.Int.{ℤ, pos, negsuc}
use terracotta_os.Serial.{
  Chars, set_char, digits_loop, pad_loop, terminate, emit_loop, decimal_digit, rounds, ◌>>=◌,
  four_zeros, negate, positive_part, is_zero, I2s, same_int, write_temp, serial_i2s,
  serial_write_uint,
}
use terracotta_os.Serial.Buffer.{down, terminate_lem}
use terracotta_os.Serial.Padding.{pad_loop_lem}
use terracotta_os.Serial.Digits.{
  AllSet, digits_loop_lem, length-down, digits_onto, zeros_onto, set_char-AllSet, set_char_self,
  down-set_char,
}
use terracotta_os.Serial.Numbers.{decimal_value, decimal-IsDigits, none_set}

-- The decimal digits of a number, and a text filled up to four characters.
abbrev pub decimal : ℕ → List ℕ
decimal n = digits_onto 10 decimal_digit rounds n []

abbrev pub padded : List ℕ → List ℕ
padded text = zeros_onto (4 - length text) text

-- The text of an `int` value, the padding in front of the sign.
abbrev pub i2s_text : ℤ → List ℕ
i2s_text (pos n) = padded (decimal n)
i2s_text (negsuc n) = padded (b'-' ∷ decimal (positive_part (negate 32 (negsuc n))))

abbrev pub IsInt : ℤ → Type 0
IsInt (pos n) = n < 2 ^ 31
IsInt (negsuc n) = n < 2 ^ 31

-- What is sent of the text in `temp`.
abbrev pub shown : Chars → Option (List ℕ)
shown temp = emit_loop 16 0 temp

-- Once it has run, `temp` shows the text of the value that was written last.
abbrev pub IsCached : I2s → Type 0
IsCached st = st.initialized ≡ true → shown st.temp ≡ some (i2s_text st.last_value)

-- Padding, turning and ending a text of at most 11 characters.
finished :
    (i : ℕ) (buf : Chars)
    → i ≤ 11
    → AllSet buf i
    → (terminate 16 (pad_loop 4 buf i).0 (pad_loop 4 buf i).1 >>= emit_loop 16 0)
      ≡ some (padded (down buf i))
finished i buf le all =
    let (w, len, pads) = pad_loop_lem decimal_value 10 4 buf i (omega arith) (omega arith) in
    terminate_lem 16 (pad_loop 4 buf i).1 (pad_loop 4 buf i).0 (omega arith) (w.all_set all)
    ∙ ap some (
        ap (down (pad_loop 4 buf i).0) len
        ∙ pads
        ∙ ap (λ n. zeros_onto (4 - n) (down buf i)) (sym (length-down buf i)))

-- The digits of a number of at most ten of them.
ten_digits :
    (n : ℕ) (temp : Chars)
    → n < 2 ^ 32
    → (buf : Chars) × (i : ℕ) × (digits_loop 16 10 decimal_digit rounds n temp 0 ≡ some (buf, i))
      × (i ≤ 10)
      × (down buf i ≡ decimal n)
      × AllSet buf i
ten_digits n temp small =
    let (buf, i, run, far, spells, w) =
      digits_loop_lem (decimal-IsDigits 10 (omega arith) (omega arith)) 16 rounds 10 n temp 0
        (omega arith) (omega arith) (omega arith) in
    (buf, i, run, omega arith, spells, w.all_set (none_set temp))

zero_shown : (temp : Chars) → shown (set_char (four_zeros temp) 4 0) ≡ some (i2s_text (pos 0))
unfolding emit_loop set_char zeros_onto digits_onto
zero_shown temp = refl

magnitude : (n : ℕ) → n < 2 ^ 31 → positive_part (negate 32 (negsuc n)) < 2 ^ 32
unfolding positive_part negate
magnitude n small = elim (Bool-cases (n + 1 == 2 ^ (32 - 1))) [
  | inl e ↦ rw e (omega arith)
  | inr e ↦ rw e (omega arith)
]

-- `temp` is written with the text of the value.
write_temp_lem :
    (value : ℤ) (temp : Chars)
    → IsInt value
    → (temp' : Chars) × (write_temp value temp ≡ some temp') × (shown temp' ≡ some (i2s_text value))
unfolding write_temp is_zero positive_part
write_temp_lem (pos n) temp small = elim (ℕ_discrete n 0) [
  | yes e ↦ (
    set_char (four_zeros temp) 4 0,
    rw ((==_iff n 0).1 e) refl,
    zero_shown temp ∙ ap (λ n. some (i2s_text (pos n))) (sym e),
  )
  | no ne ↦
      let (buf, i, run, far, spells, all) = ten_digits n temp (omega arith) in
      let (temp', run', text) = bind-some _ shown _ (finished i buf (omega arith) all) in
      (temp', rw (==_ne n 0 ne, run) run', rw text (ap (λ l. some (padded l)) spells))
]
write_temp_lem (negsuc n) temp small =
    let (buf, i, run, far, spells, all) =
      ten_digits (positive_part (negate 32 (negsuc n))) temp (magnitude n small) in
    let all' = set_char-AllSet buf i b'-' all (omega arith) in
    let (temp', run', text) =
      bind-some _ shown _ (finished (i + 1) (set_char buf i b'-') (omega arith) all') in
    let room : leb 16 i ≡ false = ground arith in
    let one : i + 1 ≡ suc i = omega arith in
    (
      temp',
      rw (run, room) run',
      rw (text, one, set_char_self buf i b'-', down-set_char buf i b'-' i (omega arith), spells)
          refl,
    )

same_int_lem : (a b : ℤ) → same_int a b ≡ true → a ≡ b
unfolding same_int
same_int_lem (pos m) (pos n) h = ap pos (ground arith)
same_int_lem (pos m) (negsuc n) h = cc
same_int_lem (negsuc m) (pos n) h = cc
same_int_lem (negsuc m) (negsuc n) h = ap negsuc (ground arith)

both-true : (a b : Bool) → a && b ≡ true → (a ≡ true) × (b ≡ true)
both-true true b h = (refl, h)
both-true false b h = cc

-- For an `int`, if the text that `serial_i2s` keeps is that of its last value, the call succeeds,
-- and then `temp` shows the text of the given value, whether it was kept or written anew, and the
-- text kept is again that of the last value. The text of a negative number has its padding in
-- front of the sign.
pub serial_i2s_lem :
    (value : ℤ) (st : I2s)
    → IsInt value
    → IsCached st
    → (st' : I2s) × (serial_i2s value st ≡ some st')
      × (shown st'.temp ≡ some (i2s_text value))
      × IsCached st'
unfolding serial_i2s
serial_i2s_lem value st int ok =
    elim (Bool-cases (st.initialized && same_int value st.last_value)) [
      | inl hit ↦
          let (ran, same) : (st.initialized ≡ true) × (same_int value st.last_value ≡ true) =
            both-true _ _ hit in
          (
            st,
            rw hit refl,
            ok ran ∙ ap (λ v. some (i2s_text v)) (sym (same_int_lem value st.last_value same)),
            ok,
          )
      | inr miss ↦
          let (temp', run, text) = write_temp_lem value st.temp int in
          (
            record { temp = temp'; last_value = value; initialized = true },
            rw (miss, run) refl,
            text,
            λ ran. text,
          )
    ]

zeros_finished :
    (stack : Chars)
    → (terminate 16 (four_zeros stack) 4 >>= emit_loop 16 0) ≡ some (padded (decimal 0))
unfolding pad_loop digits_onto zeros_onto
zeros_finished stack = finished 0 stack (omega arith) (none_set stack)

-- `serial_write_uint` sends the same text.
pub serial_write_uint-text :
    (stack : Chars) (value : ℕ)
    → value < 2 ^ 32
    → serial_write_uint stack value ≡ some (padded (decimal value))
unfolding serial_write_uint
serial_write_uint-text stack value small = elim (ℕ_discrete value 0) [
  | yes e ↦
      rw ((==_iff value 0).1 e) (zeros_finished stack ∙ ap (λ n. some (padded (decimal n))) (sym e))
  | no ne ↦
      let (buf, i, run, far, spells, all) = ten_digits value stack small in
      rw (==_ne value 0 ne, run, finished i buf (omega arith) all, spells) refl
]
