-- ===== src/Idt/Init.antt =====
-- `idt_init`: the table that the processor is given, and the lines that it opens.
use terracotta_os.Prelude.{ℕ, ◌^◌, ◌<◌, ◌≤◌, ◌≡◌, ◌∙◌, Bool, false, arith}
use terracotta_os.Word.Bytes.{test_bit}
use terracotta_os.Idt.Pic.{HasMask, idt_irq_clear_mask_lem}
use terracotta_os.Io.{Bus}
use terracotta_os.Idt.{
  Table, idt_set_desc, idt_init_exceptions, idt_init, pic1_data, pic2_data, idt_pic_remap,
  idt_irq_clear_mask, mask_port, mask_bit,
}
use terracotta_os.Idt.Gate.{IsGate, idt_set_desc_lem, idt_init_exceptions_lem}

-- For handlers at 64-bit addresses, after `idt_init` the 32 exceptions have their stubs, interrupt
-- 0x20 has the handler of the timer and 0x21 that of the keyboard, and every later gate is as it
-- was.
pub idt_init_lem :
    (b : Bus) (stubs : ℕ → ℕ) (pit keyboard : ℕ) (idt : Table) (vectors : ℕ → Bool) (d : b.Devices)
    → ((v : ℕ) → stubs v < 2 ^ 64)
    → pit < 2 ^ 64
    → keyboard < 2 ^ 64
    → let idt' = (idt_init b stubs pit keyboard ((idt, vectors), d)).0.0 in
      ((v : ℕ) → v < 32 → IsGate (idt' v) (stubs v))
      × IsGate (idt' 0x20) pit
      × IsGate (idt' 0x21) keyboard
      × ((v : ℕ) → 0x22 ≤ v → idt' v ≡ idt v)
unfolding idt_init
idt_init_lem b stubs pit keyboard idt vectors d hs hp hk =
    let t = (idt_init_exceptions stubs (idt, vectors)).0 in
    let all = idt_init_exceptions_lem stubs hs idt vectors in
    let (pit_at, pit_flags, pit_cs, pit_others) = idt_set_desc_lem t 0x20 pit 0x8e hp in
    let (key_at, key_flags, key_cs, key_others) =
      idt_set_desc_lem (idt_set_desc t 0x20 pit 0x8e) 0x21 keyboard 0x8e hk in
    (
      λ v lt. rw (key_others v (omega arith), pit_others v (omega arith)) ((all v).0 lt).0,
      rw (key_others 0x20 (omega arith)) (pit_at, pit_flags),
      (key_at, key_flags),
      λ v le. key_others v (omega arith) ∙ pit_others v (omega arith) ∙ ((all v).1 (omega arith)).0,
    )

-- After `idt_init` the lines 0 and 1, of the timer and of the keyboard, are open.
pub idt_init-opens :
    (b : Bus) (stubs : ℕ → ℕ) (pit keyboard : ℕ) (s : Table × (ℕ → Bool)) (d : b.Devices)
    (c : HasMask b pic1_data)
    → let d' = (idt_init b stubs pit keyboard (s, d)).1 in
      (test_bit (c.mask d') 0 ≡ false) × (test_bit (c.mask d') 1 ≡ false)
unfolding idt_init mask_port mask_bit
idt_init-opens b stubs pit keyboard s d c =
    let d1 = b.outb pic2_data 0xff (b.outb pic1_data 0xfc (idt_pic_remap b 0x20 0x28 d)) in
    let d2 = idt_irq_clear_mask b 0 d1 in
    (
      ground (
        arith,
        idt_irq_clear_mask_lem b 1 c (omega arith) d2 0 (omega arith),
        idt_irq_clear_mask_lem b 0 c (omega arith) d1 0 (omega arith),
      ),
      ground (arith, idt_irq_clear_mask_lem b 1 c (omega arith) d2 1 (omega arith)),
    )
