-- ===== src/Gdt.antt =====
-- ASNU/src/GDT/GDT.c and GDT.h: the global descriptor table. `load_gdt` is assembly.
pub mod Segment
mod Tests
use terracotta_os.Prelude.{ℕ, ◌-◌, ◌*◌, List, [], ◌∷◌}

-- `GDTEntry`
pub record GdtEntry : Type 0 where
  pub limit0 : ℕ
  pub base0 : ℕ
  pub base1 : ℕ
  pub access_byte : ℕ
  pub limit1_flags : ℕ
  pub base2 : ℕ

abbrev pub descriptor : ℕ → ℕ → GdtEntry
descriptor access flags = record {
  limit0 = 0;
  base0 = 0;
  base1 = 0;
  access_byte = access;
  limit1_flags = flags;
  base2 = 0;
}

-- `DefaultGDT`: nothing, the kernel's code and data, nothing, and the user's code and data.
unfoldable pub default_gdt : List GdtEntry
default_gdt =
    descriptor 0 0
    ∷ descriptor 0x9a 0x20
    ∷ descriptor 0x92 0x20
    ∷ descriptor 0 0
    ∷ descriptor 0xfa 0x20
    ∷ descriptor 0xf2 0x20
    ∷ []

-- `GDTDescriptor`
pub record GdtDescriptor : Type 0 where
  pub size : ℕ
  pub offset : ℕ

-- `gdt_init` up to the load; `gdt` is the address of `DefaultGDT`, six entries of eight bytes.
unfoldable pub gdt_init : ℕ → GdtDescriptor
gdt_init gdt = record { size = 6 * 8 - 1; offset = gdt }
