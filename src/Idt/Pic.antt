-- ===== src/Idt/Pic.antt =====
-- The interrupt masks of the two controllers.
use terracotta_os.Prelude.{
  ℕ, ◌%◌, ◌^◌, ◌<◌, ◌≡◌, refl, true, false, leb, ◌&&◌, ◌||◌, not, ◌==◌, ==_iff, arith,
}
use native.Mathlib.Nat.{mod-eq_of_lt}
use terracotta_os.Word.Bytes.{
  every, every-lt, test_bit, set_bit, clear_bit, test_bit-set_bit, test_bit-clear_bit, set_bit-lt,
  clear_bit-lt,
}
use terracotta_os.Io.{Bus}
use terracotta_os.Idt.{
  pic1_command, mask_port, mask_bit, ki_irq_set_mask, idt_irq_clear_mask, idt_pic_send_eoi,
}

-- The documented behaviour of an 8259's data port once it is initialised: a read gives the mask and
-- disturbs nothing, a write sets it.
pub record HasMask (b : Bus) (port : ℕ) : Type 0 where
  pub mask : b.Devices → ℕ
  pub is_byte : (d : b.Devices) → mask d < 256
  pub reads : (d : b.Devices) → b.inb port d ≡ (mask d, d)
  pub writes : (v : ℕ) (d : b.Devices) → v < 256 → mask (b.outb port v d) ≡ v

bit_small : (line : ℕ) → line < 16 → mask_bit line < 8
unfolding mask_bit
bit_small line known = ground arith

pow_table : every 8 (λ k. 2 ^ k % 256 == 2 ^ k) ≡ true
unfolding every
pow_table = refl

pow-mod : (k : ℕ) → k < 8 → 2 ^ k % 256 ≡ 2 ^ k
pow-mod k h = (==_iff _ _).0 (every-lt 8 (λ k. 2 ^ k % 256 == 2 ^ k) pow_table k h)

module _ (b : Bus) (line : ℕ) (c : HasMask b (mask_port line)) (known : line < 16) where
  clear_writes :
      (d : b.Devices) → c.mask (idt_irq_clear_mask b line d) ≡ clear_bit (c.mask d) (mask_bit line)
  unfolding idt_irq_clear_mask clear_bit
  clear_writes d =
      rw (idt_irq_clear_mask, c.reads d, pow-mod (mask_bit line) (bit_small line known))
        (c.writes _ d
          (clear_bit-lt (c.mask d) (mask_bit line) (c.is_byte d) (bit_small line known)))

  set_writes :
      (d : b.Devices) → c.mask (ki_irq_set_mask b line d) ≡ set_bit (c.mask d) (mask_bit line)
  unfolding ki_irq_set_mask set_bit
  set_writes d =
      let small = set_bit-lt (c.mask d) (mask_bit line) (c.is_byte d) (bit_small line known) in
      rw (ki_irq_set_mask, c.reads d, mod-eq_of_lt small) (c.writes _ d small)

  -- For a line from 0 to 15 whose controller's data port holds the mask, `idt_irq_clear_mask`
  -- opens the line and leaves the mask of every other line of that controller.
  pub idt_irq_clear_mask_lem :
      (d : b.Devices) (j : ℕ)
      → j < 8
      → test_bit (c.mask (idt_irq_clear_mask b line d)) j
        ≡ (not (mask_bit line == j) && test_bit (c.mask d) j)
  idt_irq_clear_mask_lem d j h =
      rw (clear_writes d)
        (test_bit-clear_bit (c.mask d) (mask_bit line) j (c.is_byte d) (bit_small line known) h)

  -- For a line from 0 to 15 whose controller's data port holds the mask, `KiIrqSetMask` closes the
  -- line and leaves the mask of every other line of that controller.
  pub ki_irq_set_mask_lem :
      (d : b.Devices) (j : ℕ)
      → j < 8
      → test_bit (c.mask (ki_irq_set_mask b line d)) j
        ≡ ((mask_bit line == j) || test_bit (c.mask d) j)
  ki_irq_set_mask_lem d j h =
      rw (set_writes d)
        (test_bit-set_bit (c.mask d) (mask_bit line) j (c.is_byte d) (bit_small line known) h)

-- The end of an interrupt of the first controller goes to that one alone.
pub idt_pic_send_eoi-first :
    (b : Bus) (irq : ℕ) (d : b.Devices)
    → irq < 8
    → idt_pic_send_eoi b irq d ≡ b.outb pic1_command 0x20 d
unfolding idt_pic_send_eoi
idt_pic_send_eoi-first b irq d h = let test : leb 8 irq ≡ false = ground arith in rw test
