-- ===== src/Splash/Tests.antt =====
-- Two lines on a terminal of 80 columns and 25 rows.
use terracotta_os.Prelude.{◌-◌, ◌≡◌, refl, [], ◌∷◌, get_or, length, some, arith}
use terracotta_os.Prelude.Int.{pos}
use terracotta_os.Memory.{Mem}
use terracotta_os.Str.Strings.Texts.{IsText}
use terracotta_os.Splash.{banner, cursor, chars, display_splash}
use terracotta_os.Splash.Lines.{lines_text, display_splash_lem}

abbrev two_lines : Mem
two_lines x = get_or (b'O' ∷ b'S' ∷ 10 ∷ b'!' ∷ 0 ∷ []) (x - 64) 0

two_lines-IsText : IsText two_lines 64 (lines_text (b'O' ∷ b'S' ∷ []) ((b'!' ∷ []) ∷ []))
unfolding lines_text
two_lines-IsText = (
  refl,
  λ e. omega arith,
  (refl, λ e. omega arith, (refl, λ e. omega arith, (refl, λ e. omega arith, refl))),
)

short : length (lines_text (b'O' ∷ b'S' ∷ []) ((b'!' ∷ []) ∷ [])) ≡ 4
unfolding lines_text
short = refl

display_splash_lem_example :
    display_splash 9 two_lines 0 80 25 64
    ≡ some (
        banner
        ∷ cursor (pos 12) 40
        ∷ chars (b'O' ∷ b'S' ∷ [])
        ∷ cursor (pos 13) 41
        ∷ chars (b'!' ∷ [])
        ∷ [])
display_splash_lem_example =
    display_splash_lem 9 two_lines 0 80 25 64 (b'O' ∷ b'S' ∷ []) ((b'!' ∷ []) ∷ []) two_lines-IsText
      (
        ((λ e. omega arith), ((λ e. omega arith), tt)),
        ((λ e. omega arith), ((λ e. omega arith), tt)),
        (((λ e. omega arith), tt), ((λ e. omega arith), tt), (λ e. cc)),
      )
      (λ e. omega arith) (omega (arith, short)) (omega (arith, short))
