-- ===== src/Keyboard/Ring.antt =====
-- The ring of typed characters as a queue of at most 65534 of them.
use terracotta_os.Prelude.{
  ℕ, zero, suc, ◌+◌, ◌-◌, ◌%◌, ◌<◌, ◌≡◌, ◌≢◌, refl, ap, sym, ◌∙◌, List, [], ◌∷◌, ◌++◌, length, true,
  false, ◌&&◌, ◌==◌, if◌then◌else◌, Bool-cases, inl, inr, arith,
}
use terracotta_os.Keyboard.{
  Keyboard, kbd_buf_size, put, overflow_kbd_bfr, init_keyboard_driver, kbd_pushback, take_key,
}

-- Both cursors lie inside the buffer.
pub record IsValid (k : Keyboard) : Type 0 where
  pub head_in : k.head < kbd_buf_size
  pub tail_in : k.tail < kbd_buf_size

-- The `n` characters from index `h` on, going round at the end of the buffer.
abbrev pub window : (ℕ → ℕ) → ℕ → ℕ → List ℕ
window buf h zero = []
window buf h (suc n) = buf h ∷ window buf ((h + 1) % kbd_buf_size) n

abbrev pub count : Keyboard → ℕ
count k = (k.head + kbd_buf_size - k.tail) % kbd_buf_size

-- The characters that wait to be read, oldest first.
abbrev pub contents : Keyboard → List ℕ
contents k = window k.buf k.tail (count k)

length-window : (buf : ℕ → ℕ) (h n : ℕ) → length (window buf h n) ≡ n
length-window buf h zero = refl
length-window buf h (suc n) = ap suc (length-window buf ((h + 1) % kbd_buf_size) n)

pub length-contents : (k : Keyboard) → length (contents k) ≡ count k
length-contents k = length-window k.buf k.tail (count k)

put_self : (buf : ℕ → ℕ) (i j c : ℕ) → j ≡ i → put buf i c j ≡ c
unfolding put
put_self buf i j c e = ground arith

put-other : (buf : ℕ → ℕ) (i j c : ℕ) → j ≢ i → put buf i c j ≡ buf j
unfolding put
put-other buf i j c ne = ground arith

-- A character put just past a window makes it longer by one.
window-put :
    (buf : ℕ → ℕ) (c n h i : ℕ)
    → h < kbd_buf_size
    → n < kbd_buf_size
    → i ≡ (h + n) % kbd_buf_size
    → window (put buf i c) h (suc n) ≡ window buf h n ++ (c ∷ [])
window-put buf c zero h i lt small e = rw (put_self buf i h c (omega arith)) refl
window-put buf c (suc n) h i lt small e = rw (put-other buf i h c (omega arith)) (
    ap (λ (xs : List ℕ). buf h ∷ xs)
      (window-put buf c n ((h + 1) % kbd_buf_size) i (omega arith) (omega arith) (omega arith)))

window_split :
    (buf : ℕ → ℕ) (h n : ℕ)
    → n ≢ 0
    → window buf h n ≡ buf h ∷ window buf ((h + 1) % kbd_buf_size) (n - 1)
window_split buf h zero ne = absurd (ne refl)
window_split buf h (suc n) ne = let e : suc n - 1 ≡ n = omega arith in rw e

pub init-IsValid : (k : Keyboard) → IsValid (init_keyboard_driver k)
unfolding init_keyboard_driver
init-IsValid k = omega arith

pub kbd_pushback-IsValid : {k : Keyboard} (c : ℕ) → IsValid k → IsValid (kbd_pushback k c)
unfolding kbd_pushback
kbd_pushback-IsValid c v = ground arith

pub take_key-IsValid : {k : Keyboard} → IsValid k → IsValid (take_key k).1
unfolding take_key
take_key-IsValid v = ground arith

-- What the queue of waiting characters becomes when `c` arrives and `read` characters have been read.
abbrev pub arrive : List ℕ → ℕ → ℕ → List ℕ
arrive q read c =
    if c == 8 && read == 0 then q else if length q == kbd_buf_size - 1 then [] else q ++ (c ∷ [])

contents_pushed :
    (k : Keyboard) (c : ℕ)
    → IsValid k
    → (k.head + 1) % kbd_buf_size ≢ k.tail
    → contents (record k { buf = put k.buf k.head c; head = (k.head + 1) % kbd_buf_size })
      ≡ contents k ++ (c ∷ [])
contents_pushed k c v room =
    let grown : ((k.head + 1) % kbd_buf_size + kbd_buf_size - k.tail) % kbd_buf_size
        ≡ suc (count k) =
      omega arith in
    rw grown (window-put k.buf c (count k) k.tail k.head v.tail_in (omega arith) (omega arith))

-- With both cursors inside the buffer, `KbdPushback` adds the character at the end of the queue; a
-- backspace before anything was ever read is dropped; and a character that finds the queue full
-- empties it and is lost too.
pub contents-kbd_pushback :
    (k : Keyboard) (c : ℕ)
    → IsValid k
    → contents (kbd_pushback k c) ≡ arrive (contents k) k.cursor_read c
unfolding kbd_pushback overflow_kbd_bfr
contents-kbd_pushback k c v = elim (Bool-cases (c == 8 && k.cursor_read == 0)) [
  | inl drop ↦ rw (drop, kbd_pushback)
  | inr keep ↦ elim (Bool-cases ((k.head + 1) % kbd_buf_size == k.tail)) [
    | inl full ↦
        let len : (length (contents k) == kbd_buf_size - 1) ≡ true =
          ground (arith, length-contents k) in
        rw (keep, full, len, kbd_pushback)
    | inr room ↦
        let len : (length (contents k) == kbd_buf_size - 1) ≡ false =
          ground (arith, length-contents k) in
        rw (keep, room, len, kbd_pushback) (contents_pushed k c v (ground arith))
  ]
]

-- With both cursors inside the buffer and a character waiting, `kbd_getc` takes the oldest and
-- leaves the rest in order.
pub contents-take_key :
    (k : Keyboard)
    → IsValid k
    → k.head ≢ k.tail
    → contents k ≡ (take_key k).0 ∷ contents (take_key k).1
unfolding take_key
contents-take_key k v ne =
    let grown : (k.head + kbd_buf_size - (k.tail + 1) % kbd_buf_size) % kbd_buf_size ≡ count k - 1 =
      omega arith in
    window_split k.buf k.tail (count k) (omega arith)
    ∙ ap (λ n. k.buf k.tail ∷ window k.buf ((k.tail + 1) % kbd_buf_size) n) (sym grown)
