-- ===== src/Irq/Typed.antt =====
-- `kbd_getc` of ASNU/src/Drivers/PS2Keyboard/driver.c waits while the interrupts of the timer and of the
-- keyboard arrive.
use terracotta_os.Prelude.{
  ℕ, suc, ◌≡◌, ◌≢◌, refl, ap, ◌∙◌, ◌⊎◌, List, [], ◌∷◌, ◌++◌, length, some, true, false, arith,
}
use terracotta_os.Io.{Bus}
use terracotta_os.Keyboard.{Keyboard, translate, keyboard_driver_main, take_key, kbd_getc}
use terracotta_os.Keyboard.Ring.{IsValid, contents}
use terracotta_os.Keyboard.Decode.{IsKey}
use terracotta_os.Keyboard.Getc.{reading, kbd_getc-typed}
use terracotta_os.Idt.{pic1_command, idt_keyboard_handler}
use terracotta_os.Idt.Pic.{idt_pic_send_eoi-first}
use terracotta_os.Sched.{Control, returns, jumps}
use terracotta_os.Sched.Data.{RegisterState}
use terracotta_os.Pit.Tick.{AfterTick, pit_handler_lem}
use terracotta_os.Irq.{HasPic, System, Event, tick, key, on_timer, on_keyboard, ready, arrive}
use terracotta_os.Irq.Deaf.{switched}

-- The documented behaviour of the keyboard's controller: its data port gives the scan codes in order,
-- one at each read. The end of an interrupt and the delivery of one do not take any.
pub record HasCodes (b : Bus) (c : HasPic b) : Type 0 where
  pub codes : b.Devices → List ℕ
  pub takes :
      (x : ℕ) (xs : List ℕ) (d : b.Devices)
      → codes d ≡ x ∷ xs
      → ((b.inb 0x60 d).0 ≡ x) × (codes (b.inb 0x60 d).1 ≡ xs)
  pub end_keeps : (d : b.Devices) → codes (b.outb pic1_command 0x20 d) ≡ codes d
  pub deliver_keeps : (line : ℕ) (d : b.Devices) → codes (c.deliver line d) ≡ codes d

-- The driver after the scan codes, one after the other.
abbrev pub feed : List ℕ → Keyboard → Keyboard
feed [] k = k
feed (x ∷ xs) k = feed xs (keyboard_driver_main k x)

abbrev pub keys : List Event → ℕ
keys [] = 0
keys (tick cpu ∷ es) = keys es
keys (key ∷ es) = suc (keys es)

module _ (b : Bus) (c : HasPic b) where
  -- Neither line is masked or in service.
  pub record IsOpen (d : b.Devices) : Type 0 where
    pub free_0 : c.in_service d 0 ≡ false
    pub free_1 : c.in_service d 1 ≡ false
    pub unmasked_0 : c.masked d 0 ≡ false
    pub unmasked_1 : c.masked d 1 ≡ false

  abbrev pub run : List Event → System b → System b
  run [] s = s
  run (e ∷ es) s = run es (arrive b c e s)

  -- No tick switches to another process.
  abbrev pub Returns : List Event → System b → Type 0
  Returns [] s = Unit
  Returns (tick cpu ∷ es) s =
      (switched b c (on_timer b c s cpu).0 ≡ false) × Returns es (arrive b c (tick cpu) s)
  Returns (key ∷ es) s = Returns es (arrive b c key s)

  module _ (h : HasCodes b c) where
    end_first :
        (d : b.Devices)
        → IsOpen d
        → IsOpen (b.outb pic1_command 0x20 (c.deliver 0 d))
          × (h.codes (b.outb pic1_command 0x20 (c.deliver 0 d)) ≡ h.codes d)
    end_first d o =
        let d' = c.deliver 0 d in
        let (first, second) = c.ends_first d' (c.deliver_sets 0 d (omega arith)) in
        (
          record {
            free_0 = first;
            free_1 = second ∙ c.deliver_others 0 1 d (omega arith) (omega arith) ∙ o.free_1;
            unmasked_0 = c.masked_end 0 d' ∙ c.masked_deliver 0 0 d ∙ o.unmasked_0;
            unmasked_1 = c.masked_end 1 d' ∙ c.masked_deliver 0 1 d ∙ o.unmasked_1;
          },
          h.end_keeps d' ∙ h.deliver_keeps 0 d,
        )

    after_tick :
        (control : Control)
        → (d after : b.Devices) → switched b c control ≡ false
        → IsOpen d
        → AfterTick b control (c.deliver 0 d) after
        → IsOpen after × (h.codes after ≡ h.codes d)
    after_tick returns d after back o e =
        let e' = e ∙ idt_pic_send_eoi-first b 0 (c.deliver 0 d) (omega arith) in
        rw e' (end_first d o)
    after_tick (jumps regs) d after back o e = absurd (cc)

    -- One tick that comes back.
    tick_lem :
        (s : System b)
        → (cpu : RegisterState) → IsOpen s.devices
        → switched b c (on_timer b c s cpu).0 ≡ false
        → let t = arrive b c (tick cpu) s in
          IsOpen t.devices × (h.codes t.devices ≡ h.codes s.devices) × (t.keyboard ≡ s.keyboard)
    unfolding arrive on_timer
    tick_lem s cpu o back =
        let (control, sched, d', e, ticked, after) =
          pit_handler_lem b s.pit s.sched cpu (c.deliver 0 s.devices) in
        let delivered : ready b c s.devices 0 ≡ true =
          let f = o.free_0 in let u = o.unmasked_0 in ground arith in
        let (open_after, same) = after_tick control s.devices d' (rw e at back) o after in
        rw (delivered, e) (open_after, same, refl)

    -- One interrupt of the keyboard with a code ready.
    key_lem :
        (s : System b)
        → (x : ℕ) → (xs : List ℕ) → IsOpen s.devices
        → h.codes s.devices ≡ x ∷ xs
        → let t = arrive b c key s in
          IsOpen t.devices
          × (h.codes t.devices ≡ xs)
          × (t.keyboard ≡ keyboard_driver_main s.keyboard x)
    unfolding arrive on_keyboard idt_keyboard_handler
    key_lem s x xs o e =
        let d = c.deliver 1 s.devices in
        let (now, rest) = h.takes x xs d (h.deliver_keeps 1 s.devices ∙ e) in
        let d1 = (b.inb 0x60 d).1 in
        let d2 = b.outb pic1_command 0x20 d1 in
        let eoi = idt_pic_send_eoi-first b 1 d1 (omega arith) in
        let free : c.in_service d1 0 ≡ false =
          c.in_keeps 0x60 0 d
          ∙ c.deliver_others 1 0 s.devices (omega arith) (omega arith)
          ∙ o.free_0 in
        let (first, second) = c.ends_second d1 free in
        let (first', second') = c.ends_second d2 first in
        let mask_kept = λ (j : ℕ).
          c.masked_end j d2
          ∙ c.masked_end j d1
          ∙ c.masked_in 0x60 j d
          ∙ c.masked_deliver 1 j s.devices in
        let delivered : ready b c s.devices 1 ≡ true =
          let f = o.free_0 in let g = o.free_1 in let u = o.unmasked_1 in ground arith in
        rw (delivered, eoi)
          (
            record {
              free_0 = first';
              free_1 = second';
              unmasked_0 = mask_kept 0 ∙ o.unmasked_0;
              unmasked_1 = mask_kept 1 ∙ o.unmasked_1;
            },
            h.end_keeps d2 ∙ h.end_keeps d1 ∙ rest,
            ap (keyboard_driver_main s.keyboard) now,
          )

    -- Whatever ticks come between, every scan code reaches the driver, in order, and the lines are open
    -- again.
    pub run_lem :
        (es : List Event)
        → (s : System b) → (typed rest : List ℕ) → IsOpen s.devices
        → h.codes s.devices ≡ typed ++ rest
        → keys es ≡ length typed
        → Returns es s
        → let t = run es s in
          IsOpen t.devices × (h.codes t.devices ≡ rest) × (t.keyboard ≡ feed typed s.keyboard)
    run_lem [] s [] rest o e n r = (o, e, refl)
    run_lem [] s (x ∷ typed) rest o e n r = absurd (omega arith)
    run_lem (tick cpu ∷ es) s typed rest o e n (back, r) =
        let (o', codes, kept) = tick_lem s cpu o back in
        let (done, left, fed) =
          run_lem es (arrive b c (tick cpu) s) typed rest o' (codes ∙ e) n r in
        (done, left, fed ∙ ap (feed typed) kept)
    run_lem (key ∷ es) s [] rest o e n r = absurd (omega arith)
    run_lem (key ∷ es) s (x ∷ typed) rest o e n r =
        let (o', codes, moved) = key_lem s x (typed ++ rest) o e in
        let (done, left, fed) = run_lem es (arrive b c key s) typed rest o' codes (omega arith) r in
        (done, left, fed ∙ ap (feed typed) moved)

    -- On controllers of the documented behaviour, with both lines open, both cursors inside the buffer
    -- and nothing waiting, let ticks of the timer that do not switch to another process and one
    -- interrupt of the keyboard arrive in any order while `kbd_getc` waits. Then the driver is where
    -- `kbd_getc` takes the character of the scan code that came first and returns it, with the later
    -- scan codes still to come, nothing in the buffer and both lines open again. The key has a
    -- character, is no modifier and no part of an extended sequence, and is not a backspace before
    -- anything was ever read.
    pub kbd_getc-arrives :
        (s : System b)
        → (scancode : ℕ) → (codes : List ℕ) → (es : List Event) → IsOpen s.devices
        → h.codes s.devices ≡ scancode ∷ codes
        → IsValid s.keyboard
        → IsKey s.keyboard scancode
        → s.keyboard.head ≡ s.keyboard.tail
        → translate s.keyboard scancode ≢ 0
        → (translate s.keyboard scancode ≢ 8) ⊎ (s.keyboard.cursor_read ≢ 0)
        → keys es ≡ 1
        → Returns es (record s { keyboard = reading s.keyboard })
        → let t = run es (record s { keyboard = reading s.keyboard }) in
          (k : Keyboard) × (take_key t.keyboard ≡ (translate s.keyboard scancode, k))
          × (kbd_getc (scancode ∷ codes) s.keyboard
              ≡ some (translate s.keyboard scancode, codes, k))
          × (contents k ≡ [])
          × (h.codes t.devices ≡ codes)
          × IsOpen t.devices
    kbd_getc-arrives s scancode codes es o e v is_key same ne typed one r =
        let (k, got, taken, none_left) =
          kbd_getc-typed scancode codes s.keyboard v is_key same ne typed in
        let (done, left, fed) =
          run_lem es (record s { keyboard = reading s.keyboard }) (scancode ∷ []) codes o e one r in
        (k, ap take_key fed ∙ taken, got, none_left, left, done)
