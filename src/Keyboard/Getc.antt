-- ===== src/Keyboard/Getc.antt =====
-- `kbd_getc`: what it returns, and how long it waits.
use terracotta_os.Prelude.{
  ℕ, ◌+◌, ◌≡◌, ◌≢◌, refl, ap, sym, ◌∙◌, List, [], ◌∷◌, length, true, false, ◌&&◌, ◌==◌, ==_ne, some,
  ◌⊎◌, arith,
}
use terracotta_os.Keyboard.{Keyboard, translate, keyboard_driver_main, wait_key, take_key, kbd_getc}
use terracotta_os.Keyboard.Ring.{IsValid, contents, count, length-contents, contents-take_key}
use terracotta_os.Keyboard.Decode.{IsKey, contents-key, keyboard_driver_main-IsValid}

pub wait_key-ready :
    (codes : List ℕ) (k : Keyboard) → k.head ≢ k.tail → wait_key codes k ≡ some (codes, k)
unfolding wait_key
wait_key-ready [] k ne = rw (==_ne k.head k.tail ne)
wait_key-ready (c ∷ codes) k ne = rw (==_ne k.head k.tail ne)

abbrev pub reading : Keyboard → Keyboard
reading k = record k { buffering_read = true }

pub reading-IsValid : {k : Keyboard} → IsValid k → IsValid (reading k)
reading-IsValid v = record { head_in = v.head_in; tail_in = v.tail_in }

wait_key-empty :
    (c : ℕ) (codes : List ℕ) (k : Keyboard)
    → k.head ≡ k.tail
    → wait_key (c ∷ codes) k ≡ wait_key codes (keyboard_driver_main k c)
unfolding wait_key
wait_key-empty c codes k same = let empty : (k.head == k.tail) ≡ true = ground arith in rw empty

pub kbd_getc-wait :
    (codes : List ℕ) (k : Keyboard) {rest : List ℕ} {k' : Keyboard}
    → wait_key codes (reading k) ≡ some (rest, k')
    → kbd_getc codes k ≡ some ((take_key k').0, rest, (take_key k').1)
unfolding kbd_getc
kbd_getc-wait codes k e = rw (e, kbd_getc)

-- With both cursors inside the buffer and a character waiting, `kbd_getc` returns the oldest at
-- once, whatever arrives meanwhile, and counts the read.
pub kbd_getc-oldest :
    (codes : List ℕ) (k : Keyboard)
    → IsValid k
    → k.head ≢ k.tail
    → (c : ℕ) × (k' : Keyboard) × (kbd_getc codes k ≡ some (c, codes, k'))
      × (contents k ≡ c ∷ contents k')
      × (k'.cursor_read ≡ k.cursor_read + 1)
unfolding take_key
kbd_getc-oldest codes k v ne = (
  (take_key (reading k)).0,
  (take_key (reading k)).1,
  kbd_getc-wait codes k (wait_key-ready codes (reading k) ne),
  contents-take_key (reading k) (reading-IsValid v) ne,
  refl,
)

not_empty : (k : Keyboard) (c : ℕ) → contents k ≡ c ∷ [] → k.head ≢ k.tail
not_empty k c e same = absurd (omega (arith, length-contents k, ap length e))

contents_none : (k : Keyboard) → k.head ≡ k.tail → contents k ≡ []
contents_none k same = let e : count k ≡ 0 = omega arith in rw e

dropped_test : (c read : ℕ) → (c ≢ 8) ⊎ (read ≢ 0) → (c == 8 && read == 0) ≡ false
dropped_test c read h = ground arith

-- The first key pressed after a wait has begun is alone in the queue.
contents_first :
    (scancode : ℕ) (k : Keyboard)
    → IsValid k
    → IsKey k scancode
    → k.head ≡ k.tail
    → translate k scancode ≢ 0
    → (translate k scancode ≢ 8) ⊎ (k.cursor_read ≢ 0)
    → contents (keyboard_driver_main (reading k) scancode) ≡ translate k scancode ∷ []
unfolding translate
contents_first scancode k v h same ne typed =
    let key : IsKey (reading k) scancode = record {
      plain = h.plain;
      made = h.made;
      not_left = h.not_left;
      not_right = h.not_right;
      not_caps = h.not_caps;
    } in
    let kept : (translate k scancode == 8 && k.cursor_read == 0) ≡ false = dropped_test _ _ typed in
    contents-key (reading k) scancode (reading-IsValid v) key
    ∙ rw (==_ne _ _ ne, kept, contents_none k same)

-- With both cursors inside the buffer and nothing waiting, `kbd_getc` returns the character of the
-- key that is pressed next, and leaves the queue empty. The key has a character, is no modifier
-- and no part of an extended sequence, and is not a backspace before anything was ever read.
pub kbd_getc-typed :
    (scancode : ℕ) (codes : List ℕ) (k : Keyboard)
    → IsValid k
    → IsKey k scancode
    → k.head ≡ k.tail
    → translate k scancode ≢ 0
    → (translate k scancode ≢ 8) ⊎ (k.cursor_read ≢ 0)
    → (k' : Keyboard) × (kbd_getc (scancode ∷ codes) k ≡ some (translate k scancode, codes, k'))
      × (take_key (keyboard_driver_main (reading k) scancode) ≡ (translate k scancode, k'))
      × (contents k' ≡ [])
kbd_getc-typed scancode codes k v h same ne typed =
    let k₁ : Keyboard = keyboard_driver_main (reading k) scancode in
    let first = contents_first scancode k v h same ne typed in
    let ready = not_empty k₁ (translate k scancode) first in
    let taken =
      contents-take_key k₁ (keyboard_driver_main-IsValid scancode (reading-IsValid v)) ready in
    let got : translate k scancode ∷ [] ≡ (take_key k₁).0 ∷ contents (take_key k₁).1 =
      sym first ∙ taken in
    (
      (take_key k₁).1,
      kbd_getc-wait (scancode ∷ codes) k
            (wait_key-empty scancode codes (reading k) same ∙ wait_key-ready codes k₁ ready)
          ∙ cc got,
      (let char : (take_key k₁).0 ≡ translate k scancode = cc got in
          λ i. (char i, (take_key k₁).1)),
      cc got,
    )
