-- ===== src/Gdt/Segment.antt =====
-- What the processor reads in a descriptor, and the segment that the interrupt gates run in.
use terracotta_os.Prelude.{ℕ, ◌+◌, ◌/◌, ◌%◌, ◌≤◌, ◌≡◌, refl, ◌==◌, arith, true, get_elem?, some}
use terracotta_os.Idt.{Table, idt_set_desc}
use terracotta_os.Gdt.{GdtEntry, descriptor, default_gdt, gdt_init}

-- The bits of a descriptor: present, its ring, a code or data segment, executable, and 64-bit code.
abbrev pub present_bit : GdtEntry → ℕ
present_bit e = e.access_byte / 128 % 2

abbrev pub ring_bits : GdtEntry → ℕ
ring_bits e = e.access_byte / 32 % 4

abbrev pub segment_bit : GdtEntry → ℕ
segment_bit e = e.access_byte / 16 % 2

abbrev pub executable_bit : GdtEntry → ℕ
executable_bit e = e.access_byte / 8 % 2

abbrev pub long_bit : GdtEntry → ℕ
long_bit e = e.limit1_flags / 32 % 2

-- A descriptor of 64-bit code for a ring.
pub record IsCode (ring : ℕ) (e : GdtEntry) : Type 0 where
  pub present : present_bit e ≡ 1
  pub segment : segment_bit e ≡ 1
  pub executable : executable_bit e ≡ 1
  pub long : long_bit e ≡ 1
  pub privilege : ring_bits e ≡ ring

-- The selector that `idt_set_desc` writes into a gate selects a present descriptor of 64-bit code
-- for ring 0 in `DefaultGDT`, asks for ring 0, and lies within the limit that `gdt_init` sets.
pub idt_set_desc-IsCode :
    (idt : Table) (vector isr flags gdt : ℕ)
    → (e : GdtEntry) × (get_elem? default_gdt
          ((idt_set_desc idt vector isr flags vector).kernel_cs / 8)
        ≡ some e)
      × IsCode 0 e
      × ((idt_set_desc idt vector isr flags vector).kernel_cs % 8 ≡ 0)
      × ((idt_set_desc idt vector isr flags vector).kernel_cs + 7 ≤ (gdt_init gdt).size)
unfolding default_gdt idt_set_desc gdt_init
idt_set_desc-IsCode idt vector isr flags gdt =
    let same : (vector == vector) ≡ true = ground arith in
    (
      descriptor 0x9a 0x20,
      rw same refl,
      record { present = refl; segment = refl; executable = refl; long = refl; privilege = refl },
      rw same refl,
      rw same (omega arith),
    )
