-- ===== src/Keyboard/Tests.antt =====
-- The keyboard driver at concrete states.
use terracotta_os.Prelude.{
  ℕ, ◌≡◌, refl, true, false, ◌&&◌, leb, ◌==◌, if◌then◌else◌, [], ◌∷◌, some, arith,
}
use terracotta_os.Keyboard.Layout.{us_layout_nrml, entry}
use terracotta_os.Keyboard.{
  Keyboard, translate, press, kbd_pushback, take_key, keyboard_driver_main, kbd_getc,
}
use terracotta_os.Keyboard.Ring.{IsValid, contents}
use terracotta_os.Keyboard.Decode.{IsKey}
use terracotta_os.Keyboard.Gets.{kbd_gets}
use terracotta_os.Keyboard.Gets.Edit.{edit, Holds}
use terracotta_os.Keyboard.Gets.Line.{kbd_gets_lem}

abbrev with_cursors : ℕ → ℕ → Keyboard
with_cursors head tail = record {
  buf = λ i. b'x';
  head = head;
  tail = tail;
  buffering_read = false;
  cursor_read = 0;
  shift = false;
  caps = true;
  extended = false;
  ch = 0;
}

-- Nothing waits, and caps lock is on.
abbrev fresh : Keyboard
fresh = with_cursors 0 0

-- Two characters wait, across the end of the buffer.
abbrev wrapped : Keyboard
wrapped = with_cursors 1 65534

fresh-IsValid : IsValid fresh
fresh-IsValid = record { head_in = omega arith; tail_in = omega arith }

wrapped-IsValid : IsValid wrapped
wrapped-IsValid = record { head_in = omega arith; tail_in = omega arith }

-- The key of the letter a.
a-IsKey : IsKey fresh 0x1e
a-IsKey = record {
  plain = refl;
  made = omega arith;
  not_left = omega arith;
  not_right = omega arith;
  not_caps = omega arith;
}

types_capital : translate fresh 0x1e ≡ b'A'
unfolding translate entry us_layout_nrml terracotta_os.Keyboard.Layout.us_layout_caps
types_capital = refl

a_is_letter : (leb b'a' (entry us_layout_nrml 0x1e) && leb (entry us_layout_nrml 0x1e) b'z') ≡ true
unfolding entry us_layout_nrml
a_is_letter = refl

-- "ab", a backspace and the end of a line wait.
abbrev typed_line : Keyboard
typed_line = record (with_cursors 4 0) {
  buf = λ i. if i == 0 then b'a' else if i == 1 then b'b' else if i == 2 then 8 else 10;
}

typed_line-IsValid : IsValid typed_line
typed_line-IsValid = record { head_in = omega arith; tail_in = omega arith }

edited_line : edit 16 [] (contents typed_line) ≡ some (b'a' ∷ [], [])
unfolding edit
edited_line = refl

kbd_gets_lem_example :
    (out : ℕ → ℕ) × (k : Keyboard) × (kbd_gets 9 16 [] typed_line (λ i. 7) ≡ some (1, out, [], k))
    × Holds 16 out (b'a' ∷ [])
    × (contents k ≡ [])
kbd_gets_lem_example =
    kbd_gets_lem 9 16 [] typed_line (λ i. 7) (b'a' ∷ []) [] typed_line-IsValid edited_line
      (omega arith) (omega arith)
