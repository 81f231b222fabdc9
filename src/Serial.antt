-- ===== src/Serial.antt =====
-- ASNU/src/Serial/serial.c: numbers as text and the formatted log. A function answers the characters
-- that it writes to the port, in order; the copy of them on the screen is left out.
-- A local array is a function from indices, with what the stack holds at first. A read or a write past
-- its end answers nothing.
pub mod Buffer
pub mod Digits
pub mod Padding
mod Tests
pub mod Numbers
pub mod Format
pub mod Long
pub mod Signed
pub use terracotta_os.Prelude.Options.{◌>>=◌}
use terracotta_os.Prelude.{
  ℕ, zero, suc, ◌+◌, ◌-◌, ◌*◌, ◌/◌, ◌%◌, ◌^◌, List, [], ◌∷◌, ◌++◌, Bool, true, false, ◌&&◌, Option,
  none, some, ltb, leb, ◌==◌, if◌then◌else◌,
}
use terracotta_os.Prelude.Int.{ℤ, pos, negsuc, is_negative}

abbrev pub Chars : Type 0
Chars = ℕ → ℕ

-- `buf[i] = c`
unfoldable pub set_char : Chars → ℕ → ℕ → Chars
set_char buf i c j = if j == i then c else buf j

-- `while (value > 0) { buf[i++] = digit(value % base); value /= base; }` in an array of `size`
-- characters.
pub digits_loop : (size base : ℕ) → (ℕ → ℕ) → (fuel value : ℕ) → Chars → ℕ → Option (Chars × ℕ)
digits_loop size base digit zero value buf i = some (buf, i)
digits_loop size base digit (suc fuel) value buf i =
    let rest =
      digits_loop size base digit fuel (value / base) (set_char buf i (digit (value % base)))
        (i + 1) in
    if value == 0 then some (buf, i) else if leb size i then none else rest

-- `while (i < 4) buf[i++] = '0';` with `left` rounds at most.
pub pad_loop : ℕ → Chars → ℕ → Chars × ℕ
pad_loop zero buf i = (buf, i)
pad_loop (suc left) buf i =
    let rest = pad_loop left (set_char buf i b'0') (i + 1) in if ltb i 4 then rest else (buf, i)

-- `for (; j < i / 2; j++) { char t = buf[j]; buf[j] = buf[i - j - 1]; buf[i - j - 1] = t; }`
pub swap_loop : ℕ → ℕ → ℕ → Chars → Chars
swap_loop i j zero buf = buf
swap_loop i j (suc left) buf =
    swap_loop i (j + 1) left (set_char (set_char buf j (buf (i - j - 1))) (i - j - 1) (buf j))

pub reverse_chars : ℕ → Chars → Chars
unfolding swap_loop
reverse_chars i buf = swap_loop i 0 (i / 2) buf

-- `for (; buf[j]; j++) serial_write_char(buf[j]);` in an array that has `left` characters from `j` on.
pub emit_loop : ℕ → ℕ → Chars → Option (List ℕ)
emit_loop zero j buf = none
emit_loop (suc left) j buf =
    let rest = emit_loop left (j + 1) buf in
    if buf j == 0 then some [] else rest >>= λ text. some (buf j ∷ text)

-- `buf[i] = '\0';` behind the swaps
pub terminate : ℕ → Chars → ℕ → Option Chars
terminate size buf i = if leb size i then none else some (set_char (reverse_chars i buf) i 0)

abbrev pub decimal_digit : ℕ → ℕ
decimal_digit d = b'0' + d

-- `hex[d]`
abbrev pub hex_digit : Bool → ℕ → ℕ
hex_digit uppercase d =
    if ltb d 10 then b'0' + d else if uppercase then b'A' + (d - 10) else b'a' + (d - 10)

-- A value has 64 bits at most, so that 64 rounds divide it down to 0.
abbrev pub rounds : ℕ
rounds = 64

abbrev pub four_zeros : Chars → Chars
four_zeros buf = set_char (set_char (set_char (set_char buf 0 b'0') 1 b'0') 2 b'0') 3 b'0'

pub serial_write_uint : Chars → ℕ → Option (List ℕ)
serial_write_uint stack value = do
  (buf, i) ←
      if value == 0
      then some (four_zeros stack, 4)
      else (digits_loop 16 10 decimal_digit rounds value stack 0 >>= λ (buf, i).
          some (pad_loop 4 buf i))
  buf ← terminate 16 buf i
  emit_loop 16 0 buf

-- `if (value == 0) buf[i++] = '0'; else while (value > 0) ...`
pub zero_or_digits : (size base : ℕ) → (ℕ → ℕ) → ℕ → Chars → Option (Chars × ℕ)
zero_or_digits size base digit value stack =
    if value == 0
    then some (set_char stack 0 b'0', 1)
    else digits_loop size base digit rounds value stack 0

pub serial_write_hex : Chars → ℕ → Bool → Option (List ℕ)
unfolding zero_or_digits
serial_write_hex stack value uppercase = do
  (buf, i) ← zero_or_digits 16 16 (hex_digit uppercase) value stack
  buf ← terminate 16 buf i
  emit_loop 16 0 buf

pub serial_write_octal : Chars → ℕ → Option (List ℕ)
serial_write_octal stack value = do
  (buf, i) ← zero_or_digits 16 8 decimal_digit value stack
  buf ← terminate 16 buf i
  emit_loop 16 0 buf

-- `%llu`: the end is set before the swaps, in an array of 32 characters.
pub write_long_unsigned : Chars → ℕ → Option (List ℕ)
write_long_unsigned stack v = do
  (buf, i) ← zero_or_digits 32 10 decimal_digit v stack
  if leb 32 i then none else emit_loop 32 0 (reverse_chars i (set_char buf i 0))

-- `-v` on `bits` bits, which leaves the least value as it is.
pub negate : ℕ → ℤ → ℤ
negate bits (pos n) = if n == 0 then pos 0 else negsuc (n - 1)
negate bits (negsuc n) = if n + 1 == 2 ^ (bits - 1) then negsuc n else pos (n + 1)

-- What `while (v > 0)` divides: nothing of a negative number.
pub positive_part : ℤ → ℕ
positive_part (pos n) = n
positive_part (negsuc n) = 0

pub is_zero : ℤ → Bool
is_zero v = if is_negative v then false else positive_part v == 0

-- `%lld`
pub write_long_signed : Chars → ℤ → Option (List ℕ)
write_long_signed stack v = do
  let neg = is_negative v
  let v = if neg then negate 64 v else v
  (buf, i) ←
      if is_zero v
      then some (set_char stack 0 b'0', 1)
      else digits_loop 32 10 decimal_digit rounds (positive_part v) stack 0
  (buf, i) ←
      if neg then if leb 32 i then none else some (set_char buf i b'-', i + 1) else some (buf, i)
  if leb 32 i then none else emit_loop 32 0 (reverse_chars i (set_char buf i 0))

-- The static variables of `serial_i2s`.
pub record I2s : Type 0 where
  pub temp : Chars
  pub last_value : ℤ
  pub initialized : Bool

-- `value == last_value`
pub same_int : ℤ → ℤ → Bool
same_int (pos m) (pos n) = m == n
same_int (pos m) (negsuc n) = false
same_int (negsuc m) (pos n) = false
same_int (negsuc m) (negsuc n) = m == n

-- `serial_i2s`, behind the test of the value that was written last: what is written to `temp`.
pub write_temp : ℤ → Chars → Option Chars
write_temp value temp = if is_zero value then some (set_char (four_zeros temp) 4 0) else (do
  let neg = is_negative value
  let value = if neg then negate 32 value else value
  (temp, i) ← digits_loop 16 10 decimal_digit rounds (positive_part value) temp 0
  (temp, i) ←
      if neg then if leb 16 i then none else some (set_char temp i b'-', i + 1) else some (temp, i)
  let (temp, i) = pad_loop 4 temp i
  terminate 16 temp i)

-- The answer of `serial_i2s` is the address of `temp`.
pub serial_i2s : ℤ → I2s → Option I2s
serial_i2s value st =
    if st.initialized && same_int value st.last_value
    then some st
    else write_temp value st.temp >>= λ temp.
        some (record { temp = temp; last_value = value; initialized = true })
