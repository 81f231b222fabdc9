-- ===== src/Keyboard/Decode.antt =====
-- The decoder of scan codes: prefixes, modifiers, the case of letters, and what a key types.
use terracotta_os.Prelude.{
  ℕ, ◌+◌, ◌-◌, ◌<◌, ◌≡◌, ◌≢◌, refl, Bool, true, false, not, ◌&&◌, ◌||◌, leb, ◌==◌, ==_ne,
  if◌then◌else◌, Bool-cases, inl, inr, arith,
}
use terracotta_os.Word.Bytes.{every, every-lt}
use terracotta_os.Keyboard.Layout.{us_layout_nrml, us_layout_caps, us_layout_shft, entry}
use terracotta_os.Keyboard.{Keyboard, translate, press, keyboard_driver_main}
use terracotta_os.Keyboard.Ring.{
  IsValid, contents, arrive, contents-kbd_pushback, kbd_pushback-IsValid,
}

press-IsValid : {k : Keyboard} (scancode : ℕ) → IsValid k → IsValid (press k scancode)
unfolding press
press-IsValid {k} scancode v =
    let moved : IsValid (record k { ch = translate k scancode }) = record {
      head_in = v.head_in;
      tail_in = v.tail_in;
    } in
    ground (arith, kbd_pushback-IsValid (translate k scancode) moved)

-- Whatever scan code arrives, both cursors stay inside the buffer.
pub keyboard_driver_main-IsValid :
    {k : Keyboard} (scancode : ℕ) → IsValid k → IsValid (keyboard_driver_main k scancode)
unfolding keyboard_driver_main
keyboard_driver_main-IsValid {k} scancode v = ground (arith, press-IsValid scancode v)

-- With no prefix pending, the scan code after the prefix 0xe0 is swallowed, whatever it is but
-- another prefix, and the driver is as it was before the two.
pub extended_swallows :
    (k : Keyboard) (scancode : ℕ)
    → k.extended ≡ false
    → scancode ≢ 0xe0
    → keyboard_driver_main (keyboard_driver_main k 0xe0) scancode ≡ k
unfolding keyboard_driver_main
extended_swallows k scancode e ne =
    simp (==_ne scancode 0xe0 ne, keyboard_driver_main) (ground arith)

abbrev is_letter : ℕ → Bool
is_letter c = leb b'a' c && leb c b'z'

-- In both other tables a letter's entry is its capital.
abbrev capital_case : ℕ → Bool
capital_case scancode =
    not (is_letter (entry us_layout_nrml scancode))
    || (entry us_layout_caps scancode + 32 == entry us_layout_nrml scancode
        && entry us_layout_shft scancode + 32 == entry us_layout_nrml scancode)

capital_table : every 128 capital_case ≡ true
unfolding every entry us_layout_nrml us_layout_caps us_layout_shft
capital_table = refl

-- Below scan code 128 the key of a letter types its capital under shift or caps lock, under both
-- as well, and the small letter otherwise.
pub translate_letter :
    (k : Keyboard) (scancode : ℕ)
    → scancode < 128
    → is_letter (entry us_layout_nrml scancode) ≡ true
    → translate k scancode ≡ (
        if k.shift || k.caps
        then entry us_layout_nrml scancode - 32
        else entry us_layout_nrml scancode)
unfolding translate
translate_letter k scancode lt letter =
    ground (arith, every-lt 128 capital_case capital_table scancode lt)

-- A key press that is neither a modifier nor part of an extended sequence.
pub record IsKey (k : Keyboard) (scancode : ℕ) : Type 0 where
  pub plain : k.extended ≡ false
  pub made : scancode < 0x80
  pub not_left : scancode ≢ 0x2a
  pub not_right : scancode ≢ 0x36
  pub not_caps : scancode ≢ 0x3a

prefix_test : (scancode : ℕ) → scancode < 0x80 → (scancode == 0xe0) ≡ false
prefix_test scancode h = ground arith

release_test : (scancode : ℕ) → scancode < 0x80 → leb 0x80 scancode ≡ false
release_test scancode h = ground arith

key-press :
    (k : Keyboard) (scancode : ℕ)
    → IsKey k scancode
    → keyboard_driver_main k scancode ≡ press k scancode
unfolding keyboard_driver_main
key-press k scancode h = simp (
  prefix_test scancode h.made,
  h.plain,
  release_test scancode h.made,
  ==_ne scancode 0x2a h.not_left,
  ==_ne scancode 0x36 h.not_right,
  ==_ne scancode 0x3a h.not_caps,
  keyboard_driver_main,
)

-- With both cursors inside the buffer, the press of a key that is no modifier and no part of an
-- extended sequence adds the character of the key to the queue as a pushback does, or nothing if
-- the key has none.
pub contents-key :
    (k : Keyboard) (scancode : ℕ)
    → IsValid k
    → IsKey k scancode
    → contents (keyboard_driver_main k scancode) ≡ (
        if translate k scancode == 0
        then contents k
        else arrive (contents k) k.cursor_read (translate k scancode))
unfolding press
contents-key k scancode v h =
    let k' : Keyboard = record k { ch = translate k scancode } in
    let moved : IsValid k' = record { head_in = v.head_in; tail_in = v.tail_in } in
    elim (Bool-cases (translate k scancode == 0)) [
      | inl mute ↦ rw (key-press k scancode h, mute, press)
      | inr typed ↦
          rw (key-press k scancode h, typed, press)
            (contents-kbd_pushback k' (translate k scancode) moved)
    ]
