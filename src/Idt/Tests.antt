-- ===== src/Idt/Tests.antt =====
-- The descriptor table, the page-fault messages and the masks at concrete values.
use terracotta_os.Prelude.{
  ℕ, ◌+◌, ◌*◌, ◌%◌, ◌^◌, ◌<◌, ◌≤◌, ◌≡◌, ◌≢◌, ◌⊎◌, inl, inr, refl, [], ◌==◌, if◌then◌else◌, arith,
}
use terracotta_os.Io.{Bus}
use terracotta_os.Memory.{Ptr}
use terracotta_os.Pmm
use terracotta_os.Pmm.{bit_count, is_free}
use terracotta_os.Pmm.Bitmap.{IsValid}
use terracotta_os.Pmm.Count.{free_count}
use terracotta_os.Vmm.{Vmm}
use terracotta_os.Vmm.Entry.{zero_word}
use terracotta_os.Vmm.Tree.{IsTree}
use terracotta_os.Idt.Recovers.{Recovers, exception_handler_lem}
use terracotta_os.Idt.{Table, idt_set_desc, halts, exception_handler, mask_port}
use terracotta_os.Idt.Gate.{gate_address, idt_set_desc_lem}
use terracotta_os.Idt.Pic.{HasMask}

abbrev empty_table : Table
empty_table v = record {
  isr_low = 0;
  kernel_cs = 0;
  ist = 0;
  attributes = 0;
  isr_mid = 0;
  isr_high = 0;
  reserved = 0;
}

-- A stub of 16 bytes for each vector.
abbrev stubs : ℕ → ℕ
stubs v = 0xffff_ffff_8000_0000 + v % 256 * 16

stubs-lt : (v : ℕ) → stubs v < 2 ^ 64
stubs-lt v = omega arith

-- The two mask registers and nothing else.
abbrev masks : Bus
masks = record {
  Devices = ℕ × ℕ;
  outb = λ port v d.
      if port == 0x21 then (v % 256, d.1) else if port == 0xa1 then (d.0, v % 256) else d;
  inb = λ port d.
      if port == 0x21 then (d.0 % 256, d) else if port == 0xa1 then (d.1 % 256, d) else (0, d);
  outl = λ port v d. d;
  inl = λ port d. (0, d);
  outw = λ port v d. d;
  inw = λ port d. (0, d);
}

second_port : mask_port 12 ≡ 0xa1
unfolding mask_port
second_port = refl

masks-HasMask : HasMask masks (mask_port 12)
unfolding mask_port
masks-HasMask = record {
  mask = λ d. d.1 % 256;
  is_byte = λ d. omega arith;
  reads = λ d. refl;
  writes = λ v d lt. omega arith;
}

-- Page tables at 0x2000 that are empty, and eight free pages.
abbrev blank : Vmm
blank = record {
  pml4 = 0x2000;
  cr3_phys = 0;
  cr3_virt = 0;
  cr3 = 0;
  flushed = [];
  machine = record {
    file = record {
      base = 0x10_0000;
      length = 0x8000;
      kind = 0;
      flags = 0;
      reserved = 0;
      bitmap_base = 16;
      bitmap_length = 1;
      bitmap_file = record { base = 16; length = 1; kind = 0 };
    };
    mem = λ x. 0;
  };
}

abbrev only_root : Ptr → ℕ
only_root x = if x == 0x2000 then 4 else 0

blank-IsValid : IsValid blank.machine
blank-IsValid = record {
  bytes = λ x. omega arith;
  counted = omega arith;
  mapped = omega arith;
  based = omega arith;
}

blank-IsTree : IsTree 0x2000 blank.machine only_root
blank-IsTree = record {
  top = refl;
  down = λ t n i lv lt pres. let z = zero_word (t + 8 * i) in ground arith;
  aligned = λ t ne. ground arith;
  ends = λ t ne. ground arith;
  off_bitmap = λ t ne. inr (ground arith);
  unfree = λ k lt free. ground arith;
  valid = blank-IsValid;
  base_aligned = refl;
  pages_apart = inl (omega arith);
}

eight_free : free_count blank.machine ≡ 8
unfolding free_count terracotta_os.Pmm.Count.free_from is_free bit_count terracotta_os.Pmm.byte_at
    terracotta_os.Word.Bytes.test_bit
eight_free = refl

abbrev page_fault : ℕ
page_fault = 14

exception_handler_lem_example :
    ((page_fault ≡ 14) × (0x1000 ≤ 0x12_3456) × Recovers page_fault 0x12_3456 blank)
    ⊎ (((page_fault ≢ 14) ⊎ (0x12_3456 < 0x1000))
        × (exception_handler page_fault 0x12_3456 blank ≡ halts))
exception_handler_lem_example =
    exception_handler_lem page_fault 0x12_3456 blank only_root blank-IsTree
      (omega (arith, eight_free)) (omega arith)

idt_set_desc_lem_example :
    let idt' = idt_set_desc empty_table 3 (stubs 3) 0x8e in
    (gate_address (idt' 3) ≡ stubs 3)
    × ((idt' 3).attributes ≡ 0x8e)
    × ((idt' 3).kernel_cs ≡ 8)
    × ((v : ℕ) → v ≢ 3 → idt' v ≡ empty_table v)
idt_set_desc_lem_example = idt_set_desc_lem empty_table 3 (stubs 3) 0x8e (stubs-lt 3)
