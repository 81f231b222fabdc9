-- ===== src/Keyboard.antt =====
-- ASNU/src/Drivers/PS2Keyboard/driver.c: the ring of typed characters and the decoder of scan codes.
-- The driver's globals are one record. `kbd_getc` waits for interrupts, so it takes the scan codes
-- that arrive meanwhile, and answers nothing if it is still waiting when they run out. The characters
-- that it echoes with `printk` are left out.
pub mod Layout
pub mod Ring
pub mod Decode
pub mod Getc
pub mod Gets
mod Tests
use terracotta_os.Prelude.{
  ℕ, zero, suc, ◌+◌, ◌%◌, ◌^◌, List, [], ◌∷◌, Option, none, some, Bool, true, false, not, ◌&&◌,
  ◌||◌, ltb, leb, ◌==◌, if◌then◌else◌,
}
use terracotta_os.Keyboard.Layout.{us_layout_nrml, us_layout_caps, us_layout_shft, entry}

-- `KBD_BUF_SIZE`
abbrev pub kbd_buf_size : ℕ
kbd_buf_size = 65535

-- The globals of the driver and the statics of `KeyboardDriverMain`. `shift` and `caps` are bytes that
-- hold truth values.
pub record Keyboard : Type 0 where
  pub buf : ℕ → ℕ
  pub head : ℕ
  pub tail : ℕ
  pub buffering_read : Bool
  pub cursor_read : ℕ
  pub shift : Bool
  pub caps : Bool
  pub extended : Bool
  pub ch : ℕ

-- `kbd_drvr_buf[i] = c`
unfoldable pub put : (ℕ → ℕ) → ℕ → ℕ → ℕ → ℕ
put buf i c j = if j == i then c else buf j

-- `OverflowKbdBfr`: every entry of the ring is cleared.
pub overflow_kbd_bfr : Keyboard → Keyboard
overflow_kbd_bfr k = record k {
  head = 0;
  tail = 0;
  buf = λ i. if ltb i kbd_buf_size then 0 else k.buf i;
}

-- `InitKeyboardDriver`
pub init_keyboard_driver : Keyboard → Keyboard
init_keyboard_driver k = record k { head = 0; tail = 0 }

-- `KbdPushback`
pub kbd_pushback : Keyboard → ℕ → Keyboard
unfolding put overflow_kbd_bfr
kbd_pushback k c =
    if c == 8 && k.cursor_read == 0
    then k
    else let next = (k.head + 1) % kbd_buf_size in
      if next == k.tail
      then overflow_kbd_bfr k
      else record k { buf = put k.buf k.head c; head = next }

-- The character of a key press, by `shift` and `caps`.
unfoldable pub translate : Keyboard → ℕ → ℕ
translate k scancode =
    if k.shift
    then entry us_layout_shft scancode
    else if k.caps
        && (leb b'a' (entry us_layout_nrml scancode) && leb (entry us_layout_nrml scancode) b'z')
    then entry us_layout_caps scancode
    else entry us_layout_nrml scancode

-- The end of `KeyboardDriverMain`, after the prefixes, releases and modifiers.
pub press : Keyboard → ℕ → Keyboard
press k scancode =
    let k' = record k { ch = translate k scancode } in
    if k'.ch == 0 then k' else kbd_pushback k' k'.ch

-- `KeyboardDriverMain`. A scan code is a byte, so `scancode & 0x80` tests `0x80 ≤ scancode`, and
-- `scancode & 0x7F` is the remainder by `0x80`. Each way out of the `extended` case does the same.
pub keyboard_driver_main : Keyboard → ℕ → Keyboard
keyboard_driver_main k scancode =
    if scancode == 0xe0
    then record k { extended = true }
    else if k.extended
    then record k { extended = false }
    else if leb 0x80 scancode
    then (if scancode % 0x80 == 0x2a || scancode % 0x80 == 0x36
        then record k { shift = false }
        else k)
    else if scancode == 0x2a || scancode == 0x36
    then record k { shift = true }
    else if scancode == 0x3a
    then record k { caps = not k.caps }
    else press k scancode

-- `while (kbd_buf_head == kbd_buf_tail);` while the scan codes arrive one by one
unfoldable pub wait_key : List ℕ → Keyboard → Option (List ℕ × Keyboard)
wait_key [] k = if k.head == k.tail then none else some ([], k)
wait_key (c ∷ codes) k =
    let later = wait_key codes (keyboard_driver_main k c) in
    if k.head == k.tail then later else some (c ∷ codes, k)

-- `kbd_getc` after the wait
pub take_key : Keyboard → ℕ × Keyboard
take_key k = (
  k.buf k.tail,
  record k {
    tail = (k.tail + 1) % kbd_buf_size;
    buffering_read = false;
    cursor_read = k.cursor_read + 1;
  },
)

-- `kbd_getc`: the character, the scan codes that have not arrived, and the driver.
unfoldable pub kbd_getc : List ℕ → Keyboard → Option (ℕ × List ℕ × Keyboard)
unfolding wait_key take_key
kbd_getc codes k = elim (wait_key codes (record k { buffering_read = true })) [
  | none ↦ none
  | some (rest, k') ↦ some ((take_key k').0, rest, (take_key k').1)
]
