-- ===== src/Serial/Numbers.antt =====
-- The functions that write a number: the text that is sent reads back as the number.
use terracotta_os.Prelude.{
  length, ℕ, ◌+◌, ◌-◌, ◌^◌, ◌<◌, ◌≤◌, ◌≡◌, ◌≢◌, refl, sym, ap, ◌∙◌, inl, inr, List, [], ◌∷◌, Bool,
  true, false, none, some, ltb, ◌==◌, ==_ne, ==_iff, if◌then◌else◌, arith,
}
use native.Mathlib.Nat.{zero-mul}
use native.Mathlib.Decide.{ℕ_discrete}
use terracotta_os.Serial.{
  Chars, set_char, pad_loop, terminate, emit_loop, decimal_digit, hex_digit, rounds,
  serial_write_uint, serial_write_hex, serial_write_octal, ◌>>=◌, four_zeros, zero_or_digits,
}
use terracotta_os.Serial.Buffer.{down, terminate_lem, terminate-full}
use terracotta_os.Serial.Padding.{pad_loop_lem}
use terracotta_os.Serial.Digits.{
  digits_onto, set_char_self, set_char-AllSet, IsDigits, read_from, AllSet, digits_loop_lem,
  digits_loop_long, length-down,
}

-- The value of a digit up to 9, and of a digit of either case.
abbrev pub decimal_value : ℕ → ℕ
decimal_value c = c - b'0'

abbrev pub hex_value : ℕ → ℕ
hex_value c = if ltb c b'A' then c - b'0' else if ltb c b'a' then c - b'A' + 10 else c - b'a' + 10

pub decimal-IsDigits : (base : ℕ) → 2 ≤ base → base ≤ 10 → IsDigits base decimal_digit decimal_value
decimal-IsDigits base two ten = record {
  several = two;
  reads = λ d lt. omega arith;
  non_zero = λ d lt. omega arith;
}

hex-IsDigits : (uppercase : Bool) → IsDigits 16 (hex_digit uppercase) hex_value
hex-IsDigits true = record {
  several = omega arith;
  reads = λ d lt. ground arith;
  non_zero = λ d lt. ground arith;
}
hex-IsDigits false = record {
  several = omega arith;
  reads = λ d lt. ground arith;
  non_zero = λ d lt. ground arith;
}

-- A text reads back as a value, with a length between two bounds.
pub record Reads (base : ℕ) (value_of : ℕ → ℕ) (value shortest longest : ℕ) (text : List ℕ)
    : Type 0 where
  pub value_is : read_from base value_of 0 text ≡ value
  pub at_least : shortest ≤ length text
  pub at_most : length text ≤ longest

-- What sends the `i` characters of `buf`, last one first, if these read back as a value.
pub sent :
    (base : ℕ) (value_of : ℕ → ℕ) (value shortest longest i : ℕ) (buf : Chars)
    → longest < 16
    → shortest ≤ i
    → i ≤ longest
    → AllSet buf i
    → read_from base value_of 0 (down buf i) ≡ value
    → (text : List ℕ) × ((terminate 16 buf i >>= emit_loop 16 0) ≡ some text)
      × Reads base value_of value shortest longest text
sent base value_of value shortest longest i buf room lo hi all reads = (
  down buf i,
  terminate_lem 16 i buf (omega arith) all,
  record {
    value_is = reads;
    at_least = omega (arith, length-down buf i);
    at_most = omega (arith, length-down buf i);
  },
)

pub none_set : (buf : Chars) → AllSet buf 0
none_set buf k lt = absurd (omega arith)

-- Whatever the array holds at first, `serial_write_uint` of a 32-bit value sends a text of four to
-- ten characters that reads back as the value in decimal.
pub serial_write_uint_lem :
    (stack : Chars) (value : ℕ)
    → value < 2 ^ 32
    → (text : List ℕ) × (serial_write_uint stack value ≡ some text)
      × Reads 10 decimal_value value 4 10 text
unfolding serial_write_uint pad_loop read_from
serial_write_uint_lem stack value small = elim (ℕ_discrete value 0) [
  | yes e ↦
      let (p, len, _) = pad_loop_lem decimal_value 10 4 stack 0 (omega arith) (omega arith) in
      let (text, run, reads) =
        sent 10 decimal_value value 4 10 4 (four_zeros stack) (omega arith) (omega arith)
          (omega arith) (p.all_set (none_set stack)) (p.reads_back ∙ sym e) in
      (text, rw ((==_iff value 0).1 e) run, reads)
  | no ne ↦
      let ds = decimal-IsDigits 10 (omega arith) (omega arith) in
      let (b, i, run, far, _, w) =
        digits_loop_lem ds 16 rounds 10 value stack 0 (omega arith) (omega arith) (omega arith) in
      let (p, len, _) = pad_loop_lem decimal_value 10 4 b i (omega arith) (omega arith) in
      let (text, run', reads) =
        sent 10 decimal_value value 4 10 (pad_loop 4 b i).1 (pad_loop 4 b i).0 (omega arith)
          (omega arith) (omega arith) (p.all_set (w.all_set (none_set stack)))
          (p.reads_back ∙ w.reads_back) in
      (text, rw (==_ne value 0 ne, run) run', reads)
]

-- The digits of a number, at least one.
abbrev pub unsigned_text : ℕ → (ℕ → ℕ) → ℕ → List ℕ
unsigned_text base digit value =
    if value == 0 then b'0' ∷ [] else digits_onto base digit rounds value []

-- The text of a number that is not padded.
pub zero_or_digits_lem :
    {base : ℕ} {digit value_of : ℕ → ℕ}
    → IsDigits base digit value_of
    → digit 0 ≡ b'0'
    → (size r value : ℕ) (stack : Chars) → r < size
    → 1 ≤ r
    → r ≤ 64
    → value < base ^ r
    → (buf : Chars) × (i : ℕ) × (zero_or_digits size base digit value stack ≡ some (buf, i))
      × (i ≤ r)
      × AllSet buf i
      × (down buf i ≡ unsigned_text base digit value)
      × (read_from base value_of 0 (down buf i) ≡ value)
unfolding zero_or_digits read_from
zero_or_digits_lem {base} {digit} {value_of} ds z size r value stack lt one lim small =
    elim (ℕ_discrete value 0) [
      | yes e ↦ (
        set_char stack 0 b'0',
        1,
        rw ((==_iff value 0).1 e) refl,
        one,
        set_char-AllSet stack 0 b'0' (none_set stack) (omega arith),
        rw ((==_iff value 0).1 e, set_char_self stack 0 b'0') refl,
        rw (set_char_self stack 0 b'0', ← z)
            (omega (arith, ds.reads 0 (omega (arith, ds.several)), zero-mul base)),
      )
      | no ne ↦
          let (b, i, run, far, spells, w) =
            digits_loop_lem ds size rounds r value stack 0 (omega arith) small (omega arith) in
          (
            b,
            i,
            rw (==_ne value 0 ne) run,
            omega arith,
            w.all_set (none_set stack),
            rw (==_ne value 0 ne) spells,
            w.reads_back,
          )
    ]

-- `serial_write_octal` sends the octal digits of a 32-bit value.
pub serial_write_octal_lem :
    (stack : Chars) (value : ℕ)
    → value < 2 ^ 32
    → (text : List ℕ) × (serial_write_octal stack value ≡ some text)
      × Reads 8 decimal_value value 0 11 text
unfolding serial_write_octal
serial_write_octal_lem stack value small =
    let (buf, i, run, le, all, _, reads) =
      zero_or_digits_lem (decimal-IsDigits 8 (omega arith) (omega arith)) refl 16 11 value stack
        (omega arith) (omega arith) (omega arith) (omega arith) in
    let (text, run', is) =
      sent 8 decimal_value value 0 11 i buf (omega arith) (omega arith) le all reads in
    (text, rw run run', is)

hex_digit-zero : (uppercase : Bool) → hex_digit uppercase 0 ≡ b'0'
hex_digit-zero true = refl
hex_digit-zero false = refl

-- Whatever the array holds at first and in either case of letters, `serial_write_hex` sends a text
-- of at most fifteen characters that reads back as the value, if the value is below 16 ^ 15; from
-- 16 ^ 15 on it writes past the end of its array.
pub serial_write_hex_lem :
    (stack : Chars) (value : ℕ) (uppercase : Bool)
    → (value < 16 ^ 15
        → (text : List ℕ) × (serial_write_hex stack value uppercase ≡ some text)
          × Reads 16 hex_value value 0 15 text)
      × (16 ^ 15 ≤ value → serial_write_hex stack value uppercase ≡ none)
unfolding serial_write_hex zero_or_digits
serial_write_hex_lem stack value uppercase = (
  λ small.
      let (buf, i, run, le, all, _, reads) =
        zero_or_digits_lem (hex-IsDigits uppercase) (hex_digit-zero uppercase) 16 15 value stack
          (omega arith) (omega arith) (omega arith) small in
      let (text, run', is) =
        sent 16 hex_value value 0 15 i buf (omega arith) (omega arith) le all reads in
      (text, rw run run', is),
  λ large.
      let ne : value ≢ 0 = λ e. omega arith in
      elim (digits_loop_long (hex-IsDigits uppercase) 16 rounds 16 value stack 0 (omega arith)
        large) [
          | inl out ↦ rw (==_ne value 0 ne, out) refl
          | inr (buf, i, run, far) ↦
              rw (==_ne value 0 ne, run, terminate-full 16 i buf (omega arith)) refl
        ],
)

sent_as :
    (i : ℕ) (buf : Chars) (text : List ℕ)
    → i < 16
    → AllSet buf i
    → down buf i ≡ text
    → (terminate 16 buf i >>= emit_loop 16 0) ≡ some text
sent_as i buf text lt all spells = terminate_lem 16 i buf lt all ∙ ap some spells

pub serial_write_octal-text :
    (stack : Chars) (value : ℕ)
    → value < 2 ^ 32
    → serial_write_octal stack value ≡ some (unsigned_text 8 decimal_digit value)
unfolding serial_write_octal
serial_write_octal-text stack value small =
    let (buf, i, run, le, all, spells, _) =
      zero_or_digits_lem (decimal-IsDigits 8 (omega arith) (omega arith)) refl 16 11 value stack
        (omega arith) (omega arith) (omega arith) (omega arith) in
    rw run (sent_as i buf _ (omega arith) all spells)

pub serial_write_hex-text :
    (stack : Chars) (value : ℕ) (uppercase : Bool)
    → value < 16 ^ 15
    → serial_write_hex stack value uppercase ≡ some (unsigned_text 16 (hex_digit uppercase) value)
unfolding serial_write_hex
serial_write_hex-text stack value uppercase small =
    let (buf, i, run, le, all, spells, _) =
      zero_or_digits_lem (hex-IsDigits uppercase) (hex_digit-zero uppercase) 16 15 value stack
        (omega arith) (omega arith) (omega arith) small in
    rw run (sent_as i buf _ (omega arith) all spells)
