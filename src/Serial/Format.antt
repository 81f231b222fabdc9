-- ===== src/Serial/Format.antt =====
-- ASNU/src/Serial/serial.c: `serial_fwrite`, one character of the format at a time.
-- The bytes that an argument is read from are a 64-bit number, or the text that a pointer leads to.
-- A format that ends inside a directive, a missing argument and one of the other kind answer nothing,
-- since the code reads past the end or from where it may not.
pub mod Spec
pub mod Pieces
pub mod Line
use terracotta_os.Prelude.{
  ℕ, suc, ◌+◌, ◌-◌, ◌%◌, ◌^◌, List, [], ◌∷◌, ◌++◌, Bool, true, false, Option, none, some, ltb, ◌==◌,
  if◌then◌else◌,
}
use terracotta_os.Prelude.Int.{ℤ, pos, negsuc}
use terracotta_os.Serial.{
  Chars, emit_loop, ◌>>=◌, I2s, serial_i2s, serial_write_uint, serial_write_hex, serial_write_octal,
  write_long_signed, write_long_unsigned,
}

pub data Arg : Type 0 where
  word : ℕ → Arg
  pointer : List ℕ → Arg

-- Where the loop stands: outside a directive, behind `%`, behind `%l` or behind `%ll`.
pub data Mode : Type 0 where
  plain : Mode
  percent : Mode
  long : Mode
  long_long : Mode

-- The log: the static variables, the arguments that have not been read, and what was sent.
pub record Log : Type 0 where
  pub i2s : I2s
  pub serial_log_id : ℤ
  pub args : List Arg
  pub sent : List ℕ

-- The signed number that a word of `bits` bits stands for.
unfoldable pub to_signed : ℕ → ℕ → ℤ
to_signed bits w =
    let v = w % 2 ^ bits in if ltb v (2 ^ (bits - 1)) then pos v else negsuc (2 ^ bits - v - 1)

abbrev pub send : List ℕ → Log → Log
send text log = record log { sent = log.sent ++ text }

pub serial_write_char : ℕ → Log → Log
serial_write_char c log = send (c ∷ []) log

-- `va_arg` of a number, and of a pointer to a text.
pub take_word : List Arg → Log → Option (ℕ × Log)
take_word (word w ∷ args) log = some (w, record log { args = args })
take_word _ log = none

pub take_pointer : List Arg → Log → Option (List ℕ × Log)
take_pointer (pointer text ∷ args) log = some (text, record log { args = args })
take_pointer _ log = none

-- `char* s = serial_i2s(v); for (char* q = s; *q; q++) serial_write_char(*q);`
pub write_i2s : ℤ → Log → Option Log
write_i2s v log = do
  st ← serial_i2s v log.i2s
  text ← emit_loop 16 0 st.temp
  some (send text (record log { i2s = st }))

-- A directive that takes a number, whose text is worked out by `show`.
pub write_word : (ℕ → Option (List ℕ)) → Log → Option (Mode × Log)
write_word show log = do
  (w, log) ← take_word log.args log
  text ← show w
  some (plain, send text log)

pub write_int : Log → Option (Mode × Log)
write_int log = do
  (w, log) ← take_word log.args log
  log ← write_i2s (to_signed 32 w) log
  some (plain, log)

pub write_text : Log → Option (Mode × Log)
write_text log = do (text, log) ← take_pointer log.args log; some (plain, send text log)

-- `switch (*p)` behind `%`
pub directive : Chars → ℕ → Log → Option (Mode × Log)
directive stack c log =
    if c == b'd'
    then write_int log
    else if c == b'i'
    then write_int log
    else if c == b'u'
    then write_word (λ w. serial_write_uint stack (w % 2 ^ 32)) log
    else if c == b'o'
    then write_word (λ w. serial_write_octal stack (w % 2 ^ 32)) log
    else if c == b'x'
    then write_word (λ w. serial_write_hex stack (w % 2 ^ 32) false) log
    else if c == b'X'
    then write_word (λ w. serial_write_hex stack (w % 2 ^ 32) true) log
    else if c == b'c'
    then write_word (λ w. some (w % 2 ^ 8 ∷ [])) log
    else if c == b's'
    then write_text log
    else if c == b'p'
    then write_word (λ w. serial_write_hex stack (w % 2 ^ 64) false) log
    else if c == b'l'
    then some (long, log)
    else if c == b'%'
    then some (plain, serial_write_char b'%' log)
    else some (plain, serial_write_char c (serial_write_char b'%' log))

-- `switch (*p)` behind `%ll`
pub long_directive : Chars → ℕ → Log → Option (Mode × Log)
long_directive stack c log =
    if c == b'u'
    then write_word (λ w. write_long_unsigned stack (w % 2 ^ 64)) log
    else if c == b'd'
    then write_word (λ w. write_long_signed stack (to_signed 64 w)) log
    else some (plain, log)

-- What a character of the format does.
pub step : Chars → ℕ → Mode → Log → Option (Mode × Log)
step stack c plain log =
    if c == b'%' then some (percent, log) else some (plain, serial_write_char c log)
step stack c percent log = directive stack c log
step stack c long log = some (if c == b'l' then long_long else plain, log)
step stack c long_long log = long_directive stack c log

-- The loop over the format.
pub format_loop : Chars → List ℕ → Mode → Log → Option Log
format_loop stack [] plain log = some log
format_loop stack [] percent log = none
format_loop stack [] long log = none
format_loop stack [] long_long log = none
format_loop stack (c ∷ fmt) mode log =
    step stack c mode log >>= λ (mode, log). format_loop stack fmt mode log

-- `serial_log_id++` on 32 bits
pub next_int : ℤ → ℤ
next_int (pos n) = if n + 1 == 2 ^ 31 then negsuc (2 ^ 31 - 1) else pos (n + 1)
next_int (negsuc n) = if n == 0 then pos 0 else negsuc (n - 1)

pub serial_fwrite : Chars → List ℕ → List Arg → Log → Option Log
serial_fwrite stack fmt args log = do
  let log = serial_write_char b'[' (record log { args = args })
  log ← write_i2s log.serial_log_id (record log { serial_log_id = next_int log.serial_log_id })
  let log = serial_write_char b' ' (serial_write_char b']' log)
  log ← format_loop stack fmt plain log
  some (serial_write_char b'\n' log)
