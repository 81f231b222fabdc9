-- ===== src/Keyboard/Gets/Line.antt =====
-- `kbd_gets` leaves the line that was typed.
use mathlib.Core.Path.{subst}
use native.Mathlib.Decide.{ℕ_discrete}
use terracotta_os.Prelude.{
  ℕ, zero, suc, ◌+◌, ◌-◌, ◌<◌, ◌≤◌, ◌≡◌, ◌≢◌, refl, ap, sym, ◌∙◌, List, [], ◌∷◌, length, Option,
  none, some, true, false, ◌||◌, ◌==◌, ==_ne, ltb, Bool-cases, inl, inr, arith,
}
use terracotta_os.Keyboard.{Keyboard, put, take_key, kbd_getc}
use terracotta_os.Keyboard.Ring.{IsValid, contents, length-contents, contents-take_key}
use terracotta_os.Keyboard.Getc.{reading, reading-IsValid, wait_key-ready, kbd_getc-wait}
use terracotta_os.Keyboard.Gets.{gets_char, gets_loop, count_loop, clear_out, kbd_gets}
use terracotta_os.Keyboard.Gets.Edit.{
  edit, Holds, Holds-longer, Holds-shorter, edit_full, edit-fits,
}

-- The oldest character of a queue that holds one.
getc :
    (codes : List ℕ) (k : Keyboard) (c : ℕ) (cs : List ℕ)
    → IsValid k
    → contents k ≡ c ∷ cs
    → (k' : Keyboard) × (kbd_getc codes k ≡ some (c, codes, k')) × IsValid k' × (contents k' ≡ cs)
unfolding take_key
getc codes k c cs v e =
    let ne : k.head ≢ k.tail = λ same. omega (arith, length-contents k, ap length e) in
    let taken = contents-take_key (reading k) (reading-IsValid v) ne in
    let got : c ∷ cs ≡ (take_key (reading k)).0 ∷ contents (take_key (reading k)).1 =
      sym e ∙ taken in
    let in_range = v.head_in in
    (
      (take_key (reading k)).1,
      kbd_getc-wait codes k (wait_key-ready codes (reading k) ne) ∙ cc got,
      record { head_in = in_range; tail_in = omega arith },
      cc got,
    )

-- What the loop answers for a line that is done.
abbrev Done : (fuel maxlen : ℕ) → List ℕ → Keyboard → (ℕ → ℕ) → ℕ → List ℕ → List ℕ → Type 0
Done fuel maxlen codes k out read line left =
    (out' : ℕ → ℕ) × (k' : Keyboard) × (gets_loop fuel maxlen codes k out read
      ≡ some (out', length line, codes, k'))
    × Holds maxlen out' line
    × (contents k' ≡ left)

finish :
    (fuel maxlen : ℕ) (codes : List ℕ) (k k' : Keyboard) (out : ℕ → ℕ)
    (line typed line' left : List ℕ)
    → Holds maxlen out line
    → contents k' ≡ typed
    → ◌≡◌ {A = Option (List ℕ × List ℕ)} (some (line, typed)) (some (line', left))
    → gets_loop fuel maxlen codes k out (length line) ≡ some (out, length line, codes, k')
    → Done fuel maxlen codes k out (length line) line' left
finish fuel maxlen codes k k' out line typed line' left h q e run =
    let same : line ≡ line' = cc in
    (
      out,
      k',
      run ∙ ap (λ l. some (out, length l, codes, k')) same,
      subst (Holds maxlen out) same h,
      q ∙ cc,
    )

not_end : (c : ℕ) → (c == 10 || c == 0) ≡ false → c ≢ 0
not_end c h e = ground arith

-- One character that does not end the line, and then the others.
gets_step :
    (fuel maxlen : ℕ) (codes : List ℕ) (k k₁ : Keyboard) (out out₁ : ℕ → ℕ) (read read₁ c : ℕ)
    (line left : List ℕ)
    → ltb (read + 1) maxlen ≡ true
    → kbd_getc codes k ≡ some (c, codes, k₁)
    → (c == 10 || c == 0) ≡ false
    → gets_char out read c ≡ some (out₁, read₁)
    → Done fuel maxlen codes k₁ out₁ read₁ line left
    → Done (suc fuel) maxlen codes k out read line left
unfolding gets_loop
gets_step fuel maxlen codes k k₁ out out₁ read read₁ c line left room got goes_on next
      (out', k', run, h, q) =
    (out', k', rw (room, got, goes_on, next) run, h, q)

-- A backspace, and then the others.
backspace :
    (fuel maxlen : ℕ) (codes : List ℕ) (k k₁ : Keyboard) (out : ℕ → ℕ)
    (line typed line' left : List ℕ)
    → Holds maxlen out line
    → ltb (length line + 1) maxlen ≡ true
    → kbd_getc codes k ≡ some (8, codes, k₁)
    → edit maxlen line (8 ∷ typed) ≡ some (line', left)
    → ((out₁ : ℕ → ℕ) (shorter : List ℕ)
        → Holds maxlen out₁ shorter
        → edit maxlen shorter typed ≡ some (line', left)
        → Done fuel maxlen codes k₁ out₁ (length shorter) line' left)
    → Done (suc fuel) maxlen codes k out (length line) line' left
unfolding gets_char edit
backspace fuel maxlen codes k k₁ out [] typed line' left h room got e others =
    let stuck : edit maxlen [] (8 ∷ typed) ≡ none = rw room refl in absurd cc
backspace fuel maxlen codes k k₁ out (a ∷ line) typed line' left h room got e others =
    let back : suc (length line) - 1 ≡ length line = omega arith in
    let on : edit maxlen (a ∷ line) (8 ∷ typed) ≡ edit maxlen line typed = rw room refl in
    gets_step fuel maxlen codes k k₁ out (put out (length line) 0) (suc (length line)) (length line)
      8 line' left room got refl (rw (==_ne (suc (length line)) 0 (omega arith), back) refl)
      (others (put out (length line) 0) line (Holds-shorter a h) (sym on ∙ e))

gets_loop_lem :
    (fuel maxlen : ℕ) (codes : List ℕ) (k : Keyboard) (out : ℕ → ℕ) (line typed line' left : List ℕ)
    → IsValid k
    → Holds maxlen out line
    → contents k ≡ typed
    → edit maxlen line typed ≡ some (line', left)
    → length typed < fuel
    → Done fuel maxlen codes k out (length line) line' left
unfolding gets_loop gets_char edit
gets_loop_lem zero maxlen codes k out line typed line' left v h q e enough = absurd (omega arith)
gets_loop_lem (suc fuel) maxlen codes k out line [] line' left v h q e enough =
    elim (Bool-cases (ltb (length line + 1) maxlen)) [
      | inl room ↦ let stuck : edit maxlen line [] ≡ none = rw room refl in absurd cc
      | inr full ↦
          finish (suc fuel) maxlen codes k k out line [] line' left h q
            (sym (edit_full maxlen line [] full) ∙ e) (rw full refl)
    ]
gets_loop_lem (suc fuel) maxlen codes k out line (c ∷ typed) line' left v h q e enough =
    elim (Bool-cases (ltb (length line + 1) maxlen)) [
      | inr full ↦
          finish (suc fuel) maxlen codes k k out line (c ∷ typed) line' left h q
            (sym (edit_full maxlen line (c ∷ typed) full) ∙ e) (rw full refl)
      | inl room ↦
          let (k₁, got, v₁, q₁) = getc codes k c typed v q in
          elim (Bool-cases (c == 10 || c == 0)) [
            | inl ends ↦
                let done : edit maxlen line (c ∷ typed) ≡ some (line, typed) =
                  rw (room, ends) refl in
                finish (suc fuel) maxlen codes k k₁ out line typed line' left h q₁ (sym done ∙ e)
                  (rw (room, got, ends) refl)
            | inr goes_on ↦ elim (ℕ_discrete c 8) [
              | yes at ↦
                  backspace fuel maxlen codes k k₁ out line typed line' left h room
                    (subst (λ x. kbd_getc codes k ≡ some (x, codes, k₁)) at got)
                    (subst (λ x. edit maxlen line (x ∷ typed) ≡ some (line', left)) at e)
                    (λ out₁ shorter h₁ e₁.
                      gets_loop_lem fuel maxlen codes k₁ out₁ shorter typed line' left v₁ h₁ q₁ e₁
                        (omega arith))
              | no ne ↦
                  let on : edit maxlen line (c ∷ typed) ≡ edit maxlen (c ∷ line) typed =
                    rw (room, goes_on, ==_ne c 8 ne) refl in
                  gets_step fuel maxlen codes k k₁ out (put out (length line) c) (length line)
                    (length line + 1) c line' left room got goes_on (rw (==_ne c 8 ne) refl)
                    (subst (λ n. Done fuel maxlen codes k₁ (put out (length line) c) n line' left)
                      (omega arith)
                      (gets_loop_lem fuel maxlen codes k₁ (put out (length line) c) (c ∷ line) typed
                        line' left v₁ (Holds-longer c (not_end c goes_on) h) q₁ (sym on ∙ e)
                        (omega arith)))
            ]
          ]
    ]

count_loop_lem :
    (maxlen left i : ℕ) (out : ℕ → ℕ) (line : List ℕ)
    → Holds maxlen out line
    → length line < maxlen
    → i ≤ length line
    → i + left ≡ maxlen
    → count_loop left i out ≡ some (length line)
unfolding count_loop
count_loop_lem maxlen zero i out line h small le whole = absurd (omega arith)
count_loop_lem maxlen (suc left) i out line h small le whole = elim (ℕ_discrete i (length line)) [
  | yes e ↦ rw (h.zeros i (omega arith) (omega arith)) (ap some e)
  | no ne ↦
      rw (==_ne (out i) 0 (h.set i (omega arith)))
        (count_loop_lem maxlen left (i + 1) out line h small (omega arith) (omega arith))
]

Holds-clear : (maxlen : ℕ) (out : ℕ → ℕ) → Holds maxlen (clear_out maxlen out) []
unfolding clear_out
Holds-clear maxlen out = record {
  reads = refl;
  set = λ j lt. absurd (omega arith);
  zeros = λ j lo hi. ground arith;
}

-- With both cursors inside the ring, an array that is not empty and fuel for the characters that
-- wait, if these complete a line by the rules of `edit`, `kbd_gets` returns the length of that
-- line, leaves the line in the array with zeros behind it, and leaves the characters behind the
-- line's end in the ring.
pub kbd_gets_lem :
    (fuel maxlen : ℕ) (codes : List ℕ) (k : Keyboard) (out : ℕ → ℕ) (line left : List ℕ)
    → IsValid k
    → edit maxlen [] (contents k) ≡ some (line, left)
    → length (contents k) < fuel
    → 0 < maxlen
    → (out' : ℕ → ℕ) × (k' : Keyboard) × (kbd_gets fuel maxlen codes k out
        ≡ some (length line, out', codes, k'))
      × Holds maxlen out' line
      × (contents k' ≡ left)
unfolding kbd_gets
kbd_gets_lem fuel maxlen codes k out line left v e enough room =
    let small = edit-fits maxlen [] (contents k) line left room e in
    let (out', k', run, h, q) =
      gets_loop_lem fuel maxlen codes k (clear_out maxlen out) [] (contents k) line left v
        (Holds-clear maxlen out) refl e enough in
    (
      out',
      k',
      rw (run, count_loop_lem maxlen maxlen 0 out' line h small (omega arith) (omega arith)) refl,
      h,
      q,
    )
