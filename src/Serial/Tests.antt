-- ===== src/Serial/Tests.antt =====
-- Numbers and a formatted line on an array that holds nothing else.
use terracotta_os.Prelude.{
  ℕ, ◌≡◌, ◌≤◌, ◌<◌, ◌^◌, ◌++◌, List, [], ◌∷◌, true, false, some, none, refl, arith,
}
use terracotta_os.Prelude.Int.{pos, negsuc}
use terracotta_os.Serial.{negate, positive_part, Chars, I2s, serial_i2s, serial_write_hex}
use terracotta_os.Serial.Digits.{zeros_onto, digits_onto}
use terracotta_os.Serial.Numbers.{Reads, hex_value, serial_write_hex_lem}
use terracotta_os.Serial.Signed.{IsCached, i2s_text, shown, serial_i2s_lem}
use terracotta_os.Serial.Format.{Log, next_int, serial_fwrite}
use terracotta_os.Serial.Format.Spec.{Piece, literal, int, hex, formats_of, all_args, texts_of}
use terracotta_os.Serial.Format.Line.{line, serial_fwrite_lem}

abbrev empty_stack : Chars
empty_stack k = 0xcc

abbrev unused : I2s
unused = record { temp = λ k. 0; last_value = pos 0; initialized = false }

abbrev seventh : Log
seventh = record { i2s = unused; serial_log_id = pos 7; args = []; sent = b'>' ∷ [] }

-- "n=%d %X" with -5 and 0xbeef
abbrev two_numbers : List Piece
two_numbers =
    literal (b'n' ∷ b'=' ∷ []) ∷ int (0xfffffffb) ∷ literal (b' ' ∷ []) ∷ hex true 0xbeef ∷ []

serial_write_hex_lem_example :
    (0xfeed < 16 ^ 15
      → (text : List ℕ) × (serial_write_hex empty_stack 0xfeed true ≡ some text)
        × Reads 16 hex_value 0xfeed 0 15 text)
    × (16 ^ 15 ≤ 0xfeed → serial_write_hex empty_stack 0xfeed true ≡ none)
serial_write_hex_lem_example = serial_write_hex_lem empty_stack 0xfeed true

serial_i2s_lem_example :
    (st : I2s) × (serial_i2s (negsuc 4) unused ≡ some st)
    × (shown st.temp ≡ some (i2s_text (negsuc 4)))
    × IsCached st
serial_i2s_lem_example = serial_i2s_lem (negsuc 4) unused (omega arith) (λ e. cc)

serial_fwrite_lem_example :
    (log : Log) × (serial_fwrite empty_stack (formats_of two_numbers) (all_args two_numbers) seventh
      ≡ some log)
    × (log.sent ≡ b'>' ∷ [] ++ line (pos 7) (texts_of two_numbers))
    × (log.serial_log_id ≡ next_int (pos 7))
    × IsCached log.i2s
serial_fwrite_lem_example =
    serial_fwrite_lem empty_stack two_numbers seventh
      (((λ e. omega arith), ((λ e. omega arith), tt)), (tt, (((λ e. omega arith), tt), (tt, tt))))
      (λ e. cc) (omega arith)

-- The padding stands in front of the sign: -5 is "00-5".
i2s_text-negative : i2s_text (negsuc 4) ≡ b'0' ∷ b'0' ∷ b'-' ∷ b'5' ∷ []
unfolding zeros_onto digits_onto positive_part negate
i2s_text-negative = refl
