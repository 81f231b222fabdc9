-- ===== src/Str/Tests.antt =====
-- The block functions on four bytes that count up, and the functions on strings on short texts.
use terracotta_os.Prelude.{ℕ, ◌+◌, ◌%◌, ◌≡◌, if◌then◌else◌, arith}
use terracotta_os.Memory.{Mem, within}
use terracotta_os.Str.{memset, memmove}
use terracotta_os.Str.Block.{memset_lem, memmove_lem}
use terracotta_os.Prelude.{ℕ, ◌-◌, ◌⊎◌, List, [], ◌∷◌, get_or, some, refl}
use terracotta_os.Prelude.Int.{ℤ}
use terracotta_os.Memory.{Ptr, null, IsBytes}
use terracotta_os.Str.Strings.{strcmp, strcat, strstr, strtok}
use terracotta_os.Str.Strings.Texts.{IsText}
use terracotta_os.Str.Strings.Compare.{Orders, strcmp_lem}
use terracotta_os.Str.Strings.Copy.{Appended, strcat_lem}
use terracotta_os.Str.Strings.Within.{Nowhere, FirstAt, strstr_lem}
use terracotta_os.Str.Strings.Token.{Tokens, strtok_lem}

-- Byte `x` of the first 256 is `x`.
abbrev counting : Mem
counting x = x % 256

memset_lem_example : memset counting 10 0x1ff 4 12 ≡ (if within 10 4 12 then 0xff else 12)
memset_lem_example = memset_lem counting 10 0x1ff 4 12

-- The two blocks overlap, and the copy goes down.
memmove_lem_example : memmove counting 11 10 4 13 ≡ (if within 11 4 13 then 12 else 13)
memmove_lem_example = memmove_lem counting 11 10 4 13 (λ x. omega arith)

-- ", " at 16, "ab,c" at 19, "b," at 24, and zeros behind.
abbrev texts : Mem
texts x =
    get_or (b',' ∷ b' ' ∷ 0 ∷ b'a' ∷ b'b' ∷ b',' ∷ b'c' ∷ 0 ∷ b'b' ∷ b',' ∷ 0 ∷ []) (x - 16) 0 % 256

texts-IsBytes : IsBytes texts
texts-IsBytes x = omega arith

abbrev delimiters : List ℕ
delimiters = b',' ∷ b' ' ∷ []

abbrev letters : List ℕ
letters = b'a' ∷ b'b' ∷ b',' ∷ b'c' ∷ []

abbrev needle : List ℕ
needle = b'b' ∷ b',' ∷ []

delimiters-IsText : IsText texts 16 delimiters
delimiters-IsText = (refl, λ e. omega arith, (refl, λ e. omega arith, refl))

letters-IsText : IsText texts 19 letters
letters-IsText = (
  refl,
  λ e. omega arith,
  (refl, λ e. omega arith, (refl, λ e. omega arith, (refl, λ e. omega arith, refl))),
)

needle-IsText : IsText texts 24 needle
needle-IsText = (refl, λ e. omega arith, (refl, λ e. omega arith, refl))

strcmp_lem_example : (r : ℤ) × (strcmp 9 texts 19 24 ≡ some r) × Orders r letters needle
strcmp_lem_example =
    strcmp_lem 9 texts 19 24 letters needle letters-IsText needle-IsText (omega arith)

strcat_lem_example : (m : Mem) × (strcat 9 texts 40 19 ≡ some m) × Appended texts m 40 [] letters
strcat_lem_example =
    strcat_lem 9 texts 40 19 [] letters texts-IsBytes refl letters-IsText (omega arith)
      (omega arith) (omega arith)

strstr_lem_example :
    ((strstr 9 texts 19 24 ≡ some null) × Nowhere needle letters)
    ⊎ ((k : ℕ) × (strstr 9 texts 19 24 ≡ some (19 + k)) × FirstAt needle letters k)
strstr_lem_example =
    strstr_lem 9 texts 19 24 letters needle letters-IsText needle-IsText (omega arith)

strtok_lem_example :
    (m : Mem) × (next : Ptr) × (start : Ptr) × (strtok 9 texts 0 19 16 ≡ some (m, next, start))
    × Tokens texts 19 delimiters letters m next start
strtok_lem_example =
    strtok_lem 9 texts 0 19 16 19 delimiters letters texts-IsBytes delimiters-IsText
      (λ e. omega arith) refl (λ e. omega arith) letters-IsText (omega arith)
