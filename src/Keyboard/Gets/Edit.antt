-- ===== src/Keyboard/Gets/Edit.antt =====
-- What a line is after the characters that were typed, with backspaces.
use mathlib.Core.Path.{subst}
use terracotta_os.Prelude.{
  ℕ, zero, suc, ◌+◌, ◌<◌, ◌≤◌, ◌≡◌, ◌≢◌, refl, sym, ◌∙◌, List, [], ◌∷◌, length, Option, none, some,
  true, false, ◌||◌, ◌==◌, ==_ne, ltb, if◌then◌else◌, Bool-cases, inl, inr, arith,
}
use terracotta_os.Keyboard.{put}

-- The line that the characters typed leave, last character first, and the characters behind its end.
-- Nothing if there are too few, or a backspace on an empty line.
unfoldable pub edit : (maxlen : ℕ) → (line typed : List ℕ) → Option (List ℕ × List ℕ)
edit maxlen line [] = if ltb (length line + 1) maxlen then none else some (line, [])
edit maxlen line (c ∷ typed) =
    let longer = edit maxlen (c ∷ line) typed in
    let shorter : Option (List ℕ × List ℕ) = elim line [
      | [] ↦ none
      | a ∷ line' ↦ edit maxlen line' typed
    ] in
    if ltb (length line + 1) maxlen
    then if c == 10 || c == 0 then some (line, typed) else if c == 8 then shorter else longer
    else some (line, c ∷ typed)

-- The first `n` characters of an array, last one first.
abbrev pub written : (ℕ → ℕ) → ℕ → List ℕ
written out zero = []
written out (suc n) = out n ∷ written out n

-- The array holds the line, and zeros up to its end.
pub record Holds (maxlen : ℕ) (out : ℕ → ℕ) (line : List ℕ) : Type 0 where
  pub reads : written out (length line) ≡ line
  pub set : (j : ℕ) → j < length line → out j ≢ 0
  pub zeros : (j : ℕ) → length line ≤ j → j < maxlen → out j ≡ 0

written-put : (out : ℕ → ℕ) (i c n : ℕ) → n ≤ i → written (put out i c) n ≡ written out n
unfolding put
written-put out i c zero h = refl
written-put out i c (suc n) h = rw (==_ne n i (omega arith), written-put out i c n (omega arith))

pub Holds-longer :
    {maxlen : ℕ} {out : ℕ → ℕ} {line : List ℕ} (c : ℕ)
    → c ≢ 0
    → Holds maxlen out line
    → Holds maxlen (put out (length line) c) (c ∷ line)
unfolding put
Holds-longer {maxlen} {out} {line} c ne h =
    let self : (length line == length line) ≡ true = ground arith in
    record {
      reads = rw (self, written-put out (length line) c (length line) (omega arith), h.reads) refl;
      set = λ j lt. ground (arith, h.set j);
      zeros = λ j lo hi. ground (arith, h.zeros j);
    }

pub Holds-shorter :
    {maxlen : ℕ} {out : ℕ → ℕ} {line : List ℕ} (a : ℕ)
    → Holds maxlen out (a ∷ line)
    → Holds maxlen (put out (length line) 0) line
unfolding put
Holds-shorter {maxlen} {out} {line} a h =
    let reads = h.reads in
    record {
      reads = written-put out (length line) 0 (length line) (omega arith) ∙ cc;
      set = λ j lt. ground (arith, h.set j);
      zeros = λ j lo hi. ground (arith, h.zeros j);
    }

pub edit_full :
    (maxlen : ℕ) (line typed : List ℕ)
    → ltb (length line + 1) maxlen ≡ false
    → edit maxlen line typed ≡ some (line, typed)
unfolding edit
edit_full maxlen line [] full = rw full refl
edit_full maxlen line (c ∷ typed) full = rw full refl

finished_line :
    (line typed line' left : List ℕ) (n : ℕ)
    → ◌≡◌ {A = Option (List ℕ × List ℕ)} (some (line, typed)) (some (line', left))
    → length line < n
    → length line' < n
finished_line line typed line' left n e small =
    let same : line ≡ line' = cc in subst (λ l. length l < n) same small

shorter_fits :
    (maxlen c : ℕ) (line typed line' left : List ℕ)
    → length line < maxlen
    → ltb (length line + 1) maxlen ≡ true
    → (c == 10 || c == 0) ≡ false
    → (c == 8) ≡ true
    → edit maxlen line (c ∷ typed) ≡ some (line', left)
    → ((shorter : List ℕ)
        → length shorter < maxlen
        → edit maxlen shorter typed ≡ some (line', left)
        → length line' < maxlen)
    → length line' < maxlen
unfolding edit
shorter_fits maxlen c [] typed line' left small room goes_on back e others =
    let stuck : edit maxlen [] (c ∷ typed) ≡ none = rw (room, goes_on, back) refl in absurd cc
shorter_fits maxlen c (a ∷ line) typed line' left small room goes_on back e others =
    let on : edit maxlen (a ∷ line) (c ∷ typed) ≡ edit maxlen line typed =
      rw (room, goes_on, back) refl in
    others line (omega arith) (sym on ∙ e)

-- A line leaves room for its end.
pub edit-fits :
    (maxlen : ℕ) (line typed line' left : List ℕ)
    → length line < maxlen
    → edit maxlen line typed ≡ some (line', left)
    → length line' < maxlen
unfolding edit
edit-fits maxlen line [] line' left small e = elim (Bool-cases (ltb (length line + 1) maxlen)) [
  | inl room ↦ let stuck : edit maxlen line [] ≡ none = rw room refl in absurd cc
  | inr full ↦
      finished_line line [] line' left maxlen (sym (edit_full maxlen line [] full) ∙ e) small
]
edit-fits maxlen line (c ∷ typed) line' left small e =
    elim (Bool-cases (ltb (length line + 1) maxlen)) [
      | inr full ↦
          finished_line line (c ∷ typed) line' left maxlen
            (sym (edit_full maxlen line (c ∷ typed) full) ∙ e) small
      | inl room ↦ elim (Bool-cases (c == 10 || c == 0)) [
        | inl ends ↦
            let done : edit maxlen line (c ∷ typed) ≡ some (line, typed) = rw (room, ends) refl in
            finished_line line typed line' left maxlen (sym done ∙ e) small
        | inr goes_on ↦ elim (Bool-cases (c == 8)) [
          | inl back ↦
              shorter_fits maxlen c line typed line' left small room goes_on back e
                (λ shorter fits on. edit-fits maxlen shorter typed line' left fits on)
          | inr other ↦
              let on : edit maxlen line (c ∷ typed) ≡ edit maxlen (c ∷ line) typed =
                rw (room, goes_on, other) refl in
              edit-fits maxlen (c ∷ line) typed line' left (ground arith) (sym on ∙ e)
        ]
      ]
    ]
