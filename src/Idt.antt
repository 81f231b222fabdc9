-- ===== src/Idt.antt =====
-- ASNU/src/IDT/idt.c: the interrupt descriptor table, the exception handler and the two interrupt
-- controllers. Log lines are left out. `lidt`, `cli` and `sti` have no counterpart.
pub mod Gate
pub mod Pic
pub mod Init
pub mod Recovers
mod Tests
use terracotta_os.Prelude.{
  ℕ, zero, suc, ◌+◌, ◌-◌, ◌*◌, ◌/◌, ◌%◌, ◌^◌, bit_or, bit_and, List, [], ◌∷◌, Bool, true, false,
  ◌&&◌, ◌||◌, Option, none, some, ltb, leb, ◌==◌, if◌then◌else◌,
}
use terracotta_os.Io.{Bus, io_wait}
use terracotta_os.Keyboard.{Keyboard, keyboard_driver_main}
use terracotta_os.Vmm.{Vmm, mmap}

-- `idt_entry_t`
pub record IdtEntry : Type 0 where
  pub isr_low : ℕ
  pub kernel_cs : ℕ
  pub ist : ℕ
  pub attributes : ℕ
  pub isr_mid : ℕ
  pub isr_high : ℕ
  pub reserved : ℕ

abbrev pub Table : Type 0
Table = ℕ → IdtEntry

-- `GDT_OFFSET_KERNEL_CODE`
abbrev pub gdt_offset_kernel_code : ℕ
gdt_offset_kernel_code = 8

-- `idt_set_desc`
unfoldable pub idt_set_desc : Table → (vector isr flags : ℕ) → Table
idt_set_desc idt vector isr flags v =
    if v == vector
    then record {
      isr_low = isr % 0x10000;
      kernel_cs = gdt_offset_kernel_code;
      ist = 0;
      attributes = flags;
      isr_mid = isr / 2 ^ 16 % 0x10000;
      isr_high = isr / 2 ^ 32 % 0x1_0000_0000;
      reserved = 0;
    }
    else idt v

-- `idt_init_exceptions` from `vector` on, with `left` rounds to go; `stubs` is `isr_stub_table`, and
-- the second part of the state is `vectors`.
pub exceptions_loop : (ℕ → ℕ) → ℕ → ℕ → Table × (ℕ → Bool) → Table × (ℕ → Bool)
exceptions_loop stubs vector zero s = s
exceptions_loop stubs vector (suc left) (idt, vectors) =
    exceptions_loop stubs (vector + 1) left
      (idt_set_desc idt vector (stubs vector) 0x8e, λ v. if v == vector then true else vectors v)

pub idt_init_exceptions : (ℕ → ℕ) → Table × (ℕ → Bool) → Table × (ℕ → Bool)
idt_init_exceptions stubs s = exceptions_loop stubs 0 32 s

-- The bits for which `PrintPageFaultError` has a message: the array has 16 entries, and those from 6
-- to 14 are `NULL`.
pub has_message : ℕ → Bool
has_message bit = ltb bit 6 || bit == 15

-- `err & (1ULL << bit) && bit < 16`, and the message there is not `NULL`
pub prints : ℕ → ℕ → Bool
prints err bit = err / 2 ^ bit % 2 == 1 && (ltb bit 16 && has_message bit)

-- `PrintPageFaultError` from `bit` on: the bits whose message is printed.
pub page_fault_loop : ℕ → ℕ → ℕ → List ℕ
page_fault_loop err bit zero = []
page_fault_loop err bit (suc left) =
    let rest = page_fault_loop err (bit + 1) left in if prints err bit then bit ∷ rest else rest

pub print_page_fault_error : ℕ → List ℕ
print_page_fault_error err = page_fault_loop err 0 64

-- How `exception_handler` ends.
pub data Outcome : Type 0 where
  halts : Outcome
  resumes : Vmm → Outcome

-- `exception_handler`, for an exception number that is not negative; `cr2` is the address that faulted.
-- `mmap` stops the kernel as well when it has no page for a table.
pub exception_handler : (exception cr2 : ℕ) → Vmm → Outcome
exception_handler exception cr2 v =
    if ltb 31 exception
    then halts
    else if exception == 14
    then (if cr2 == 0 || ltb cr2 0x1000
        then halts
        else elim (mmap v cr2 cr2 3) [ none ↦ halts | some v' ↦ resumes v' ])
    else halts

-- The ports of the controllers.
abbrev pub pic1_command : ℕ
pic1_command = 0x20

abbrev pub pic1_data : ℕ
pic1_data = 0x21

abbrev pub pic2_command : ℕ
pic2_command = 0xa0

abbrev pub pic2_data : ℕ
pic2_data = 0xa1

-- The data port and the bit of an interrupt line. A shift of an `int` by 32 or more is undefined in
-- C; it does not occur for the lines of the two controllers, 0 to 15.
pub mask_port : ℕ → ℕ
mask_port line = if ltb line 8 then pic1_data else pic2_data

pub mask_bit : ℕ → ℕ
mask_bit line = if ltb line 8 then line else line - 8

module _ (b : Bus) where
  open b use {Devices, outb, inb}

  pub idt_pic_send_eoi : ℕ → Devices → Devices
  idt_pic_send_eoi irq d =
      if leb 8 irq
      then outb pic1_command 0x20 (outb pic2_command 0x20 d)
      else outb pic1_command 0x20 d

  -- `ICW1_INIT | ICW1_ICW4` is 0x11, and `ICW4_8086` is 1.
  pub idt_pic_remap : ℕ → ℕ → Devices → Devices
  idt_pic_remap offset1 offset2 d =
      let d = io_wait b (outb pic1_command 0x11 d) in
      let d = io_wait b (outb pic2_command 0x11 d) in
      let d = io_wait b (outb pic1_data (offset1 % 256) d) in
      let d = io_wait b (outb pic2_data (offset2 % 256) d) in
      let d = io_wait b (outb pic1_data 4 d) in
      let d = io_wait b (outb pic2_data 2 d) in
      let d = io_wait b (outb pic1_data 1 d) in
      let d = io_wait b (outb pic2_data 1 d) in outb pic2_data 0 (outb pic1_data 0 d)

  -- `KiIrqSetMask`
  pub ki_irq_set_mask : ℕ → Devices → Devices
  ki_irq_set_mask line d =
      let (value, d) = inb (mask_port line) d in
      outb (mask_port line) (bit_or value (2 ^ mask_bit line) % 256) d

  pub idt_irq_clear_mask : ℕ → Devices → Devices
  idt_irq_clear_mask line d =
      let (value, d) = inb (mask_port line) d in
      outb (mask_port line) (bit_and value (255 - 2 ^ mask_bit line % 256)) d

  -- `idt_init`: the table and `vectors`, and what is written to the controllers. `pit` and `keyboard`
  -- are the addresses of the two handlers.
  pub idt_init :
      (stubs : ℕ → ℕ) (pit keyboard : ℕ)
      → (Table × (ℕ → Bool)) × Devices
      → (Table × (ℕ → Bool)) × Devices
  idt_init stubs pit keyboard (s, d) =
      let (idt, vectors) = idt_init_exceptions stubs s in
      let d = idt_pic_remap 0x20 0x28 d in
      let idt = idt_set_desc (idt_set_desc idt 0x20 pit 0x8e) 0x21 keyboard 0x8e in
      let d = outb pic2_data 0xff (outb pic1_data 0xfc d) in
      ((idt, vectors), idt_irq_clear_mask 1 (idt_irq_clear_mask 0 d))

  -- `idt_keyboard_handler`
  unfoldable pub idt_keyboard_handler : Keyboard → Devices → Keyboard × Devices
  idt_keyboard_handler k d =
      let (sc, d) = inb 0x60 d in
      (keyboard_driver_main k sc, outb pic1_command 0x20 (idt_pic_send_eoi 1 d))
