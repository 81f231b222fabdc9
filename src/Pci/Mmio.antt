-- ===== src/Pci/Mmio.antt =====
-- ASNU/src/PCI/pci.c: `PciGetDeviceMMIORegion`, which looks for the first base address in memory and
-- measures the region by writing ones to it.
pub mod Restored
pub mod Total
pub mod Region
use terracotta_os.Prelude.{
  ℕ, zero, suc, ◌+◌, ◌-◌, ◌*◌, ◌/◌, ◌%◌, ◌^◌, ◌<◌, ◌≡◌, bit_or, Bool, true, false, ◌||◌, ltb, ◌==◌,
  if◌then◌else◌, arith,
}
use terracotta_os.Word.{u32_mod, u64_mod}
use terracotta_os.Word.Bits.{bit_or-add, bit_or-zero}
use terracotta_os.Io.{Bus}
use terracotta_os.Pci.{
  PciDevice, location, Cmd, ◌>>=◌, pure, pci_config_read_dword, pci_config_write_dword,
}

-- `bar & ~0xF`
abbrev pub base_low : ℕ → ℕ
base_low bar = bar - bar % 16

-- `~(size_mask & ~0xF) + 1` in 32 bits
pub size_32 : ℕ → ℕ
size_32 size_mask = (u32_mod - base_low size_mask) % u32_mod

-- The low 32 bits of `~size_mask + 1`, where `size_mask` joins the two halves
pub size_64 : ℕ → ℕ → ℕ
size_64 size_low size_high =
    (u64_mod - bit_or (size_high * 2 ^ 32) (base_low size_low)) % u64_mod % u32_mod

-- A base address that is unused or in the space of the ports.
abbrev pub is_skipped : ℕ → Bool
is_skipped bar = bar == 0 || bar % 2 == 1

-- `bar[i]` as it lies in memory: behind the six base addresses `bar[6]` is the low half of `MMIOBase`,
-- which follows at the next multiple of eight bytes, with no gap.
pub bar_word : PciDevice → ℕ → ℕ
bar_word dev i = if ltb i 6 then dev.bar i else dev.mmio_base % 2 ^ 32

module _ (b : Bus) where
  -- The offset of base address `i`; a `uint8_t` holds it.
  probe_32 : PciDevice → ℕ → Cmd b PciDevice
  probe_32 dev i = do
    _ ← pci_config_write_dword b (location dev) (0x10 + i * 4) 0xffff_ffff
    size_mask ← pci_config_read_dword b (location dev) (0x10 + i * 4)
    _ ← pci_config_write_dword b (location dev) (0x10 + i * 4) (dev.bar i)
    pure (record dev {
      is_64_bit = false;
      mmio_base = base_low (dev.bar i);
      mmio_bar_index = i;
      mmio_size = size_32 size_mask;
    })

  probe_64 : PciDevice → ℕ → Cmd b PciDevice
  probe_64 dev i = do
    _ ← pci_config_write_dword b (location dev) (0x10 + i * 4) 0xffff_ffff
    _ ← pci_config_write_dword b (location dev) (0x10 + (i + 1) * 4) 0xffff_ffff
    size_low ← pci_config_read_dword b (location dev) (0x10 + i * 4)
    size_high ← pci_config_read_dword b (location dev) (0x10 + (i + 1) * 4)
    _ ← pci_config_write_dword b (location dev) (0x10 + i * 4) (dev.bar i)
    _ ← pci_config_write_dword b (location dev) (0x10 + (i + 1) * 4) (bar_word dev (i + 1))
    pure (record dev {
      is_64_bit = true;
      mmio_base = bit_or (bar_word dev (i + 1) * 2 ^ 32) (base_low (dev.bar i));
      mmio_bar_index = i;
      mmio_size = size_64 size_low size_high;
    })

  -- The loop from base address `i` on.
  pub mmio_loop : PciDevice → ℕ → ℕ → Cmd b PciDevice
  mmio_loop dev i zero d =
      (record dev { mmio_base = 0; mmio_size = 0; mmio_bar_index = 0xff; is_64_bit = false }, d)
  mmio_loop dev i (suc left) d =
      let next = mmio_loop dev (i + 1) left in
      (if is_skipped (dev.bar i)
          then next
          else if dev.bar i / 2 % 4 == 2
          then probe_64 dev i
          else probe_32 dev i)
        d

  pub pci_get_device_mmio_region : PciDevice → Cmd b PciDevice
  pci_get_device_mmio_region dev = mmio_loop dev 0 6

-- What a device answers behind ones is the negated size, with up to four flag bits below. For a
-- region of fewer than 4 GiB, a multiple of 16 bytes, both size formulas of
-- `PciGetDeviceMMIORegion` give its size. For a region of `r` times 4 GiB the 64-bit formula gives
-- 0, since the field has 32 bits.
pub region_sizes :
    (q r flags : ℕ)
    → 0 < q
    → q * 16 < 2 ^ 32
    → 0 < r
    → r < 2 ^ 32
    → flags < 16
    → (size_32 (2 ^ 32 - q * 16 + flags) ≡ q * 16)
      × (size_64 (2 ^ 32 - q * 16 + flags) (2 ^ 32 - 1) ≡ q * 16)
      × (size_64 flags (2 ^ 32 - r) ≡ 0)
unfolding size_32 size_64
region_sizes q r flags positive small positive_r small_r low =
    let base : base_low (2 ^ 32 - q * 16 + flags) ≡ 2 ^ 32 - q * 16 = omega arith in
    let joined = bit_or-add 32 (2 ^ 32 - 1) (2 ^ 32 - q * 16) (omega arith) in
    let none_low : base_low flags ≡ 0 = omega arith in
    let high = bit_or-zero ((2 ^ 32 - r) * 2 ^ 32) in
    (omega arith, rw (base, joined) (omega arith), rw (none_low, high) (omega arith))
