-- ===== src/Splash.antt =====
-- ASNU/src/KiSimple.c: `DisplaySplash`, as the list of what it prints. The width and the height are not
-- negative, and the sums with them stay within an `int`. `mark` is the address of the literal `>INF$`.
pub mod Lines
mod Tests
use terracotta_os.Prelude.{
  ℕ, zero, suc, ◌+◌, ◌-◌, ◌/◌, ◌%◌, ◌^◌, List, [], ◌∷◌, ◌++◌, length, Bool, ◌&&◌, Option, none,
  some, ltb, leb, ◌==◌, if◌then◌else◌,
}
use terracotta_os.Prelude.Options.{◌>>=◌}
use terracotta_os.Prelude.Int.{ℤ, sub_ℕ, add_ℕ}
use terracotta_os.Word.{u32_mod}
use terracotta_os.Memory.{Mem, Ptr, null}
use terracotta_os.Str.Strings.{strchr, strlen, strstr}

-- What is printed: the name of the kernel, a move of the cursor, characters, and the grey line.
pub data Print : Type 0 where
  banner : Print
  cursor : ℤ → ℕ → Print
  chars : List ℕ → Print
  grey : List ℕ → Print

-- The first number that an `int` does not hold.
abbrev pub int_bound : ℕ
int_bound = 2 ^ 31

-- The `n` characters from `p` on.
unfoldable pub bytes : Mem → Ptr → ℕ → List ℕ
bytes m p zero = []
bytes m p (suc n) = m p ∷ bytes m (p + 1) n

-- `while (text[i]) { if (text[i] == '\n') lf_count++; i++; }`. Nothing if `i++` leaves an `int`, which
-- is undefined; `lf_count` is never greater than `i`.
pub count_lines : ℕ → Mem → Ptr → (i lf_count : ℕ) → Option ℕ
count_lines zero m text i lf_count = none
count_lines (suc fuel) m text i lf_count =
    let c = m (text + i) in
    let rest = count_lines fuel m text (i + 1) (if c == 10 then lf_count + 1 else lf_count) in
    if c == 0 then some lf_count else if ltb (i + 1) int_bound then rest else none

-- `(int)(end - start)`, for a difference of `n`: its low 32 bits, with a sign. The value if it is not
-- negative and 0 otherwise, and the value if it is negative without its sign.
pub int_part : ℕ → ℕ
int_part n = if ltb (n % u32_mod) int_bound then n % u32_mod else 0

pub negative_part : ℕ → ℕ
negative_part n = if ltb (n % u32_mod) int_bound then 0 else u32_mod - n % u32_mod

-- The end of the line, or of the text.
pub end_of_line : ℕ → Mem → Ptr → Option Ptr
end_of_line fuel m start = do
  e ← strchr fuel m start 10
  if e == null then (strlen fuel m start >>= λ n. some (start + n)) else some e

-- Whether `$INF<` stands at `p`
pub starts_info : Mem → Ptr → Bool
starts_info m p =
    m p == b'$'
    && ((m (p + 1) == b'I' && m (p + 2) == b'N') && (m (p + 3) == b'F' && m (p + 4) == b'<'))

-- What is copied to `info`, an array of 256 characters that are 0 at first, for a length of `n` as an
-- `int`.
pub info_text : Mem → Ptr → ℕ → List ℕ
info_text m p n = if ltb 0 (int_part n) && ltb (int_part n) 256 then bytes m p (int_part n) else []

-- The text from `start` to the mark `>INF$`
pub marked_info : ℕ → Mem → Ptr → Ptr → Option (List ℕ)
marked_info fuel m mark start = do
  e ← strstr fuel m start mark
  if ltb start e then some (info_text m start (e - start)) else some []

-- The line of `n` characters at `start`, in the middle of the screen. With a negative length nothing
-- is printed, to the right of the middle.
pub center_line : Mem → (w : ℕ) (row : ℤ) → (start : Ptr) → (n : ℕ) → List Print
center_line m w row start n =
    cursor row (w / 2 + negative_part n / 2 - int_part n / 2 + 1)
    ∷ chars (bytes m start (int_part n))
    ∷ []

-- What a line that ends at `e` prints, and `next` for the lines behind it.
pub splash_line :
    ℕ
    → Mem
    → (mark : Ptr) (w : ℕ) (center_y : ℤ) → (start e : Ptr) → ℕ
    → (next : Option (List Print × ℕ × Option (List ℕ))) → Option (List Print × ℕ × Option (List ℕ))
splash_line fuel m mark w center_y start e line_num next =
    let line = center_line m w (add_ℕ center_y (line_num + 1)) start (e - start) in
    if leb 4 (int_part (e - start)) && starts_info m start
    then some ([], line_num, some (info_text m (start + 5) (int_part (e - start) - 5)))
    else if m e == 10
    then (if starts_info m (e + 1)
        then (marked_info fuel m mark (e + 6) >>= λ info. some (line, line_num + 1, some info))
        else (next >>= λ (later, n, info). some (line ++ later, n, info)))
    else some (line, line_num + 1, none)

-- The loop over the lines: what it prints, the number of lines, and the text of the grey line.
pub splash_loop :
    ℕ
    → Mem
    → (mark : Ptr) (w : ℕ) (center_y : ℤ) → Ptr
    → ℕ
    → Option (List Print × ℕ × Option (List ℕ))
splash_loop zero m mark w center_y start line_num = none
splash_loop (suc fuel) m mark w center_y start line_num =
    if m start == 0 then some ([], line_num, none) else (do
      e ← end_of_line (suc fuel) m start
      let next = splash_loop fuel m mark w center_y (e + 1) (line_num + 1)
      splash_line (suc fuel) m mark w center_y start e line_num next)

pub grey_line : (w : ℕ) (center_y : ℤ) → ℕ → Option (List ℕ) → List Print
grey_line w center_y line_num none = []
grey_line w center_y line_num (some info) =
    cursor (add_ℕ center_y (line_num + 2)) 1
    ∷ cursor (add_ℕ center_y (line_num + 2)) (w / 2 - length info / 2 + 1)
    ∷ grey info
    ∷ []

pub display_splash : ℕ → Mem → (mark : Ptr) (w h : ℕ) → Ptr → Option (List Print)
display_splash fuel m mark w h text = do
  lf_count ← count_lines fuel m text 0 0
  let center_y = sub_ℕ (h / 2) ((lf_count + 1) / 2)
  (lines, line_num, info) ← splash_loop fuel m mark w center_y text 0
  some (banner ∷ lines ++ grey_line w center_y line_num info)
