-- ===== src/Serial/Format/Spec.antt =====
-- What a format is made of, and what is to be seen of it.
use terracotta_os.Prelude.{ℕ, ◌%◌, ◌^◌, ◌<◌, ◌≡◌, ◌≢◌, List, [], ◌∷◌, ◌++◌, Bool, true, false}
use terracotta_os.Serial.{decimal_digit, hex_digit}
use terracotta_os.Serial.Numbers.{unsigned_text}
use terracotta_os.Serial.Signed.{IsCached, i2s_text, padded, decimal}
use terracotta_os.Serial.Long.{long_text}
use terracotta_os.Serial.Format.{Arg, word, pointer, Log, to_signed}

-- The parts of a format with the arguments that they take.
pub data Piece : Type 0 where
  literal : List ℕ → Piece
  int : ℕ → Piece
  unsigned : ℕ → Piece
  octal : ℕ → Piece
  hex : Bool → ℕ → Piece
  character : ℕ → Piece
  string : List ℕ → Piece
  hex_address : ℕ → Piece
  long_unsigned : ℕ → Piece
  long_signed : ℕ → Piece
  percent_sign : Piece

-- How a part is written in a format.
unfoldable pub format_of : Piece → List ℕ
format_of (literal text) = text
format_of (int w) = b'%' ∷ b'd' ∷ []
format_of (unsigned w) = b'%' ∷ b'u' ∷ []
format_of (octal w) = b'%' ∷ b'o' ∷ []
format_of (hex true w) = b'%' ∷ b'X' ∷ []
format_of (hex false w) = b'%' ∷ b'x' ∷ []
format_of (character w) = b'%' ∷ b'c' ∷ []
format_of (string text) = b'%' ∷ b's' ∷ []
format_of (hex_address w) = b'%' ∷ b'p' ∷ []
format_of (long_unsigned w) = b'%' ∷ b'l' ∷ b'l' ∷ b'u' ∷ []
format_of (long_signed w) = b'%' ∷ b'l' ∷ b'l' ∷ b'd' ∷ []
format_of percent_sign = b'%' ∷ b'%' ∷ []

-- The argument in front of the others.
unfoldable pub args_onto : Piece → List Arg → List Arg
args_onto (literal text) args = args
args_onto percent_sign args = args
args_onto (string text) args = pointer text ∷ args
args_onto (int w) args = word w ∷ args
args_onto (unsigned w) args = word w ∷ args
args_onto (octal w) args = word w ∷ args
args_onto (hex u w) args = word w ∷ args
args_onto (character w) args = word w ∷ args
args_onto (hex_address w) args = word w ∷ args
args_onto (long_unsigned w) args = word w ∷ args
args_onto (long_signed w) args = word w ∷ args

-- What is to be seen of it.
unfoldable pub text_of : Piece → List ℕ
text_of (literal text) = text
text_of (int w) = i2s_text (to_signed 32 w)
text_of (unsigned w) = padded (decimal (w % 2 ^ 32))
text_of (octal w) = unsigned_text 8 decimal_digit (w % 2 ^ 32)
text_of (hex u w) = unsigned_text 16 (hex_digit u) (w % 2 ^ 32)
text_of (character w) = w % 2 ^ 8 ∷ []
text_of (string text) = text
text_of (hex_address w) = unsigned_text 16 (hex_digit false) (w % 2 ^ 64)
text_of (long_unsigned w) = unsigned_text 10 decimal_digit (w % 2 ^ 64)
text_of (long_signed w) = long_text (to_signed 64 w)
text_of percent_sign = b'%' ∷ []

-- Literal text has no `%`.
abbrev pub IsLiteral : List ℕ → Type 0
IsLiteral [] = Unit
IsLiteral (c ∷ text) = (c ≢ b'%') × IsLiteral text

-- Literal text has no `%`, and an hex_address at most fifteen digits.
abbrev pub IsPiece : Piece → Type 0
IsPiece (literal text) = IsLiteral text
IsPiece (hex_address w) = w % 2 ^ 64 < 16 ^ 15
IsPiece (int w) = Unit
IsPiece (unsigned w) = Unit
IsPiece (octal w) = Unit
IsPiece (hex u w) = Unit
IsPiece (character w) = Unit
IsPiece (string text) = Unit
IsPiece (long_unsigned w) = Unit
IsPiece (long_signed w) = Unit
IsPiece percent_sign = Unit

abbrev pub AllPieces : List Piece → Type 0
AllPieces [] = Unit
AllPieces (p ∷ ps) = IsPiece p × AllPieces ps

abbrev pub formats_of : List Piece → List ℕ
formats_of [] = []
formats_of (p ∷ ps) = format_of p ++ formats_of ps

abbrev pub all_args : List Piece → List Arg
all_args [] = []
all_args (p ∷ ps) = args_onto p (all_args ps)

abbrev pub texts_of : List Piece → List ℕ
texts_of [] = []
texts_of (p ∷ ps) = text_of p ++ texts_of ps

-- From one log to another a text was sent and the arguments in front of `more` were read.
pub record Wrote (text : List ℕ) (more : List Arg) (log log' : Log) : Type 0 where
  pub sends : log'.sent ≡ log.sent ++ text
  pub leaves : log'.args ≡ more
  pub same_id : log'.serial_log_id ≡ log.serial_log_id
  pub cached : IsCached log'.i2s
