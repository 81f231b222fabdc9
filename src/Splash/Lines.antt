-- ===== src/Splash/Lines.antt =====
-- The lines of a text without a mark, in the middle of the screen.
use mathlib.Core.Path.{subst}
use mathlib.Core.List.{append-nil}
use native.Mathlib.Nat.{zero-add}
use terracotta_os.Prelude.{
  ℕ, zero, suc, ◌+◌, ◌-◌, ◌/◌, ◌^◌, ◌<◌, ◌≡◌, ◌≢◌, inl, inr, refl, sym, ap, ◌∙◌, List, [], ◌∷◌,
  ◌++◌, length, length-append, Bool, true, false, ◌&&◌, Option, none, some, leb, ltb, ◌==◌, ==_ne,
  if◌then◌else◌, arith,
}
use terracotta_os.Prelude.Int.{ℤ, sub_ℕ, add_ℕ}
use terracotta_os.Memory.{Mem, Ptr, null}
use terracotta_os.Str.Strings.Texts.{IsText}
use terracotta_os.Str.Strings.Length.{strlen_lem}
use terracotta_os.Str.Strings.Search.{Lacks, strchr_lem}
use terracotta_os.Str.Strings.Token.{present}
use terracotta_os.Splash.{
  Print, banner, cursor, chars, bytes, count_lines, end_of_line, starts_info, center_line,
  int_bound, int_part, negative_part, splash_line, splash_loop, grey_line, display_splash,
}

-- A text of lines, the first one and the others.
unfoldable pub lines_text : List ℕ → List (List ℕ) → List ℕ
lines_text line [] = line
lines_text line (k ∷ ks) = line ++ (10 ∷ lines_text k ks)

-- No line has a line feed or a `$` in it, and the last one is not empty.
abbrev pub AreLines : List ℕ → List (List ℕ) → Type 0
AreLines line [] = Lacks 10 line × Lacks b'$' line × (line ≢ [])
AreLines line (k ∷ ks) = Lacks 10 line × Lacks b'$' line × AreLines k ks

-- Every line in the middle of its row, from row `n` behind `center_y` on.
abbrev pub rows : (w : ℕ) (center_y : ℤ) → ℕ → List (List ℕ) → List Print
rows w center_y n [] = []
rows w center_y n (line ∷ ls) =
    cursor (add_ℕ center_y (n + 1)) (w / 2 - length line / 2 + 1)
    ∷ chars line
    ∷ rows w center_y (n + 1) ls

same_split :
    (c : ℕ) (us vs line rest : List ℕ)
    → us ++ (c ∷ vs) ≡ line ++ (c ∷ rest)
    → Lacks c us
    → Lacks c line
    → us ≡ line
same_split c [] vs [] rest e lacks lacks' = refl
same_split c [] vs (x ∷ line) rest e lacks (ne, _) = absurd (ne cc)
same_split c (u ∷ us) vs [] rest e (ne, _) lacks' = absurd (ne cc)
same_split c (u ∷ us) vs (x ∷ line) rest e (_, lacks) (_, lacks') =
    let tails : us ++ (c ∷ vs) ≡ line ++ (c ∷ rest) = cc in
    let first : u ≡ x = cc in
    ap (λ l. u ∷ l) (same_split c us vs line rest tails lacks lacks') ∙ ap (λ y. y ∷ line) first

bytes-IsText :
    (m : Mem) (p : Ptr) (line rest : List ℕ)
    → IsText m p (line ++ rest)
    → bytes m p (length line) ≡ line
unfolding bytes
bytes-IsText m p [] rest is = refl
bytes-IsText m p (x ∷ line) rest (here, ne, is) =
    rw (here, bytes-IsText m (p + 1) line rest is) refl

IsText-behind :
    (m : Mem) (p : Ptr) (line rest : List ℕ)
    → IsText m p (line ++ rest)
    → IsText m (p + length line) rest
IsText-behind m p [] rest is = subst (λ q. IsText m q rest) (omega arith) is
IsText-behind m p (x ∷ line) rest (here, ne, is) =
    subst (λ q. IsText m q rest) (omega arith) (IsText-behind m (p + 1) line rest is)

end_of_line-last :
    (fuel : ℕ) (m : Mem) (p : Ptr) (line : List ℕ)
    → IsText m p line
    → Lacks 10 line
    → length line < fuel
    → length line < 2 ^ 32
    → end_of_line fuel m p ≡ some (p + length line)
unfolding end_of_line
end_of_line-last fuel m p line is lacks enough small =
    elim (strchr_lem fuel m p 10 line is enough) [
      | inl (run, _) ↦ rw (run, strlen_lem fuel m p line is enough small) refl
      | inr (us, vs, run, split) ↦
          absurd (subst (λ l. ¬ Lacks 10 l) (sym split.parts) (present 10 us vs) lacks)
    ]

end_of_line-more :
    (fuel : ℕ) (m : Mem) (p : Ptr) (line rest : List ℕ)
    → IsText m p (line ++ (10 ∷ rest))
    → Lacks 10 line
    → length (line ++ (10 ∷ rest)) < fuel
    → p ≢ null
    → end_of_line fuel m p ≡ some (p + length line)
unfolding end_of_line
end_of_line-more fuel m p line rest is lacks enough nz =
    elim (strchr_lem fuel m p 10 (line ++ (10 ∷ rest)) is enough) [
      | inl (run, none_there) ↦ absurd (present 10 line rest none_there)
      | inr (us, vs, run, split) ↦
          let same = same_split 10 us vs line rest (sym split.parts) split.none_before lacks in
          rw (run, same, ==_ne (p + length line) null (λ e. nz (omega arith))) refl
    ]

-- The first character of a text of lines is not 0 and not a `$`.
first_char :
    (m : Mem) (p : Ptr) (line : List ℕ) (ls : List (List ℕ))
    → IsText m p (lines_text line ls)
    → AreLines line ls
    → (m p ≢ 0) × (m p ≢ b'$')
unfolding lines_text
first_char m p [] [] is (_, _, ne) = absurd (ne refl)
first_char m p (x ∷ line) [] (here, nz, is) (_, (no_mark, _), ne) =
    (λ e. nz (sym here ∙ e), λ e. no_mark (sym here ∙ e))
first_char m p [] (k ∷ ks) (here, nz, is) ok = (λ e. nz (sym here ∙ e), λ e. absurd (omega arith))
first_char m p (x ∷ line) (k ∷ ks) (here, nz, is) (_, (no_mark, _), ok) =
    (λ e. nz (sym here ∙ e), λ e. no_mark (sym here ∙ e))

starts_info-other : (m : Mem) (p : Ptr) → m p ≢ b'$' → starts_info m p ≡ false
unfolding starts_info
starts_info-other m p ne = rw (==_ne (m p) b'$' ne) refl

-- A length that an `int` holds.
small_parts : (n : ℕ) → n < 2 ^ 31 → (int_part n ≡ n) × (negative_part n ≡ 0)
unfolding int_part negative_part
small_parts n lt = ground arith

-- A line that an `int` can count, in the middle of its row.
center_line-IsText :
    (m : Mem) (w : ℕ) (row : ℤ) (p : Ptr) (line rest : List ℕ)
    → IsText m p (line ++ rest)
    → length line < 2 ^ 31
    → center_line m w row p (length line)
      ≡ cursor row (w / 2 - length line / 2 + 1) ∷ chars line ∷ []
unfolding center_line
center_line-IsText m w row p line rest is lt =
    let (same, zero_part) = small_parts (length line) lt in
    rw (same, zero_part, bytes-IsText m p line rest is)
      (ap (λ c. cursor row c ∷ chars line ∷ []) (omega arith))

and_no : (a b : Bool) → b ≡ false → (a && b) ≡ false
and_no true b h = h
and_no false b h = refl

splash_line-last :
    (fuel : ℕ) (m : Mem) (mark : Ptr) (w : ℕ) (center_y : ℤ) (p n : ℕ) (line : List ℕ)
    (next : Option (List Print × ℕ × Option (List ℕ)))
    → IsText m p line
    → m p ≢ b'$'
    → length line < 2 ^ 31
    → splash_line fuel m mark w center_y p (p + length line) n next
      ≡ some (rows w center_y n (line ∷ []), n + 1, none)
unfolding splash_line
splash_line-last fuel m mark w center_y p n line next is no_mark lt =
    let wide : p + length line - p ≡ length line = omega arith in
    let whole = subst (IsText m p) (sym (append-nil line)) is in
    let ended : m (p + length line) ≡ 0 = IsText-behind m p line [] whole in
    rw
      (
        wide,
        and_no (leb 4 (int_part (length line))) _ (starts_info-other m p no_mark),
        ended,
        center_line-IsText m w (add_ℕ center_y (n + 1)) p line [] whole lt,
      )
      refl

splash_line-more :
    (fuel : ℕ) (m : Mem) (mark : Ptr) (w : ℕ) (center_y : ℤ) (p n n' : ℕ) (line rest : List ℕ)
    (later : List Print)
    → IsText m p (line ++ (10 ∷ rest))
    → m p ≢ b'$'
    → m (p + length line + 1) ≢ b'$'
    → length line < 2 ^ 31
    → splash_line fuel m mark w center_y p (p + length line) n (some (later, n', none))
      ≡ some (
        cursor (add_ℕ center_y (n + 1)) (w / 2 - length line / 2 + 1) ∷ chars line ∷ later,
        n',
        none,
      )
unfolding splash_line
splash_line-more fuel m mark w center_y p n n' line rest later is no_mark no_mark' lt =
    let wide : p + length line - p ≡ length line = omega arith in
    let ended : m (p + length line) ≡ 10 = (IsText-behind m p line (10 ∷ rest) is).0 in
    rw
      (
        wide,
        and_no (leb 4 (int_part (length line))) _ (starts_info-other m p no_mark),
        ended,
        starts_info-other m (p + length line + 1) no_mark',
        center_line-IsText m w (add_ℕ center_y (n + 1)) p line (10 ∷ rest) is lt,
      )
      refl

splash_loop_lem :
    (fuel : ℕ) (m : Mem) (mark : Ptr) (w : ℕ) (center_y : ℤ) (p n : ℕ) (line : List ℕ)
    (ls : List (List ℕ))
    → IsText m p (lines_text line ls)
    → AreLines line ls
    → p ≢ null
    → length (lines_text line ls) < fuel
    → length (lines_text line ls) < 2 ^ 31
    → splash_loop fuel m mark w center_y p n
      ≡ some (rows w center_y n (line ∷ ls), n + suc (length ls), none)
unfolding splash_loop lines_text
splash_loop_lem zero m mark w center_y p n line ls is ok nz enough small = absurd (omega arith)
splash_loop_lem (suc fuel) m mark w center_y p n line [] is ok nz enough small =
    let (set, no_mark) = first_char m p line [] is ok in
    rw (==_ne (m p) 0 set, end_of_line-last (suc fuel) m p line is ok.0 enough (omega arith))
      (splash_line-last (suc fuel) m mark w center_y p n line _ is no_mark small)
splash_loop_lem (suc fuel) m mark w center_y p n line (k ∷ ks) is ok nz enough small =
    let (set, no_mark) = first_char m p line (k ∷ ks) is ok in
    let (_, _, is') = IsText-behind m p line (10 ∷ lines_text k ks) is in
    let (_, no_mark') = first_char m (p + length line + 1) k ks is' ok.2 in
    let long = length-append line (10 ∷ lines_text k ks) in
    rw
      (
        ==_ne (m p) 0 set,
        end_of_line-more (suc fuel) m p line (lines_text k ks) is ok.0 enough nz,
        splash_loop_lem fuel m mark w center_y (p + length line + 1) (n + 1) k ks is' ok.2
            (λ e. absurd (omega arith)) (omega arith) (omega arith),
      )
      (splash_line-more (suc fuel) m mark w center_y p n _ line (lines_text k ks) _ is no_mark
          no_mark' (omega arith)
        ∙ ap (λ j. some (rows w center_y n (line ∷ k ∷ ks), j, none)) (omega arith))

abbrev feeds : List ℕ → ℕ
feeds [] = 0
feeds (x ∷ xs) = if x == 10 then suc (feeds xs) else feeds xs

count_lines_lem :
    (fuel : ℕ) (m : Mem) (p i count : ℕ) (xs : List ℕ)
    → IsText m (p + i) xs
    → length xs < fuel
    → i + length xs < 2 ^ 31
    → count_lines fuel m p i count ≡ some (count + feeds xs)
unfolding count_lines
count_lines_lem zero m p i count xs is enough small = absurd (omega arith)
count_lines_lem (suc fuel) m p i count [] is enough small = rw is (ap some (omega arith))
count_lines_lem (suc fuel) m p i count (x ∷ xs) (here, ne, is) enough small =
    let inside : ltb (i + 1) int_bound ≡ true = ground arith in
    let is' : IsText m (p + (i + 1)) xs = subst (λ q. IsText m q xs) (omega arith) is in
    rw (here, ==_ne x 0 ne, inside)
      (count_lines_lem fuel m p (i + 1) (if x == 10 then count + 1 else count) xs is' (omega arith)
          (omega arith)
        ∙ ap some (ground arith))

no_feeds : (line : List ℕ) → Lacks 10 line → feeds line ≡ 0
no_feeds [] lacks = refl
no_feeds (x ∷ line) (ne, lacks) = rw (==_ne x 10 ne) (no_feeds line lacks)

feeds-lines_text :
    (line : List ℕ) (ls : List (List ℕ)) → AreLines line ls → feeds (lines_text line ls) ≡ length ls
unfolding lines_text
feeds-lines_text [] [] ok = refl
feeds-lines_text [] (k ∷ ks) ok = ap suc (feeds-lines_text k ks ok.2)
feeds-lines_text (x ∷ line) [] ((ne, lacks), (_, lacks'), _) =
    rw (==_ne x 10 ne) (no_feeds line lacks)
feeds-lines_text (x ∷ line) (k ∷ ks) ((ne, lacks), (_, lacks'), ok) =
    rw (==_ne x 10 ne) (feeds-lines_text line (k ∷ ks) (lacks, lacks', ok))

-- For a text in memory, shorter than 2 GiB and not at `NULL`, of lines without a `$` of which the
-- last is not empty, and fuel for it, `DisplaySplash` prints the name of the kernel and then each
-- line in order, at a row of its own from the middle of the height on and in the middle of the
-- width, and no grey line.
pub display_splash_lem :
    (fuel : ℕ) (m : Mem) (mark : Ptr) (w h : ℕ) (p : Ptr) (line : List ℕ) (ls : List (List ℕ))
    → IsText m p (lines_text line ls)
    → AreLines line ls
    → p ≢ null
    → length (lines_text line ls) < fuel
    → length (lines_text line ls) < 2 ^ 31
    → display_splash fuel m mark w h p
      ≡ some (banner ∷ rows w (sub_ℕ (h / 2) ((length ls + 1) / 2)) 0 (line ∷ ls))
unfolding display_splash grey_line
display_splash_lem fuel m mark w h p line ls is ok nz enough small =
    rw
      (
        count_lines_lem fuel m p 0 0 (lines_text line ls)
            (subst (λ q. IsText m q (lines_text line ls)) (omega arith) is) enough (omega arith),
        feeds-lines_text line ls ok,
        zero-add (length ls),
        splash_loop_lem fuel m mark w (sub_ℕ (h / 2) ((length ls + 1) / 2)) p 0 line ls is ok nz
            enough small,
        append-nil (rows w (sub_ℕ (h / 2) ((length ls + 1) / 2)) 0 (line ∷ ls)),
      )
      refl
