-- ===== src/Pci/Mmio/Restored.antt =====
-- ASNU/src/PCI/pci.c: `PciGetDeviceMMIORegion` puts back what it writes.
use terracotta_os.Prelude.{
  ℕ, zero, suc, ◌+◌, ◌*◌, ◌/◌, ◌%◌, ◌<◌, ◌≡◌, refl, ◌∙◌, inl, inr, ◌==◌, ltb, true, arith,
  Bool-cases,
}
use terracotta_os.Io.{Bus}
use terracotta_os.Pci.{
  PciDevice, Location, location, pci_config_read_dword, pci_config_write_dword,
  pci_read_full_device,
}
use terracotta_os.Pci.Mmio.Total.{FitsLast}
use terracotta_os.Pci.Mmio.{
  is_skipped, bar_word, probe_32, probe_64, mmio_loop, pci_get_device_mmio_region,
}
use terracotta_os.Pci.Space.{
  Space, read_dword-keeps, write_dword-stores, full_device-keeps, full_device-HasBars,
  full_device-bar, bar_at, HasBars,
}

module _ (b : Bus) (c : Space b) where
  module _ (dev : PciDevice) (d : b.Devices) (h : HasBars b c dev d) where
    probe_32-restores : (i x : ℕ) → i < 6 → c.config (probe_32 b dev i d).1 x ≡ c.config d x
    unfolding probe_32
    probe_32-restores i x small =
        let l = location dev in
        let o = 0x10 + i * 4 in
        let d1 = (pci_config_write_dword b l o 0xffff_ffff d).1 in
        let d2 = (pci_config_read_dword b l o d1).1 in
        ground (
          arith,
          write_dword-stores b c l i 0xffff_ffff x d small,
          read_dword-keeps b c l o x d1,
          write_dword-stores b c l i (dev.bar i) x d2 small,
          h i small,
          c.held_again l i d small,
        )

    probe_64-restores : (i x : ℕ) → i < 5 → c.config (probe_64 b dev i d).1 x ≡ c.config d x
    unfolding probe_64 bar_word
    probe_64-restores i x small =
        let l = location dev in
        let o = 0x10 + i * 4 in
        let o' = 0x10 + (i + 1) * 4 in
        let d1 = (pci_config_write_dword b l o 0xffff_ffff d).1 in
        let d2 = (pci_config_write_dword b l o' 0xffff_ffff d1).1 in
        let d3 = (pci_config_read_dword b l o d2).1 in
        let d4 = (pci_config_read_dword b l o' d3).1 in
        let d5 = (pci_config_write_dword b l o (dev.bar i) d4).1 in
        let low : i < 6 = omega arith in
        let high : i + 1 < 6 = omega arith in
        let inside : ltb (i + 1) 6 ≡ true = ground arith in
        rw inside (
          ground (
            arith,
            write_dword-stores b c l i 0xffff_ffff x d low,
            write_dword-stores b c l (i + 1) 0xffff_ffff x d1 high,
            read_dword-keeps b c l o x d2,
            read_dword-keeps b c l o' x d3,
            write_dword-stores b c l i (dev.bar i) x d4 low,
            write_dword-stores b c l (i + 1) (dev.bar (i + 1)) x d5 high,
            h i low,
            h (i + 1) high,
            c.held_again l i d low,
            c.held_again l (i + 1) d high,
          ))

    mmio_loop-restores :
        FitsLast (dev.bar 5)
        → (i left x : ℕ) → i + left ≡ 6
        → c.config (mmio_loop b dev i left d).1 x ≡ c.config d x
    unfolding mmio_loop
    mmio_loop-restores fits i zero x e = refl
    mmio_loop-restores fits i (suc left) x e = elim (Bool-cases (is_skipped (dev.bar i))) [
      | inl skip ↦ rw skip (mmio_loop-restores fits (i + 1) left x (omega arith))
      | inr used ↦ elim (Bool-cases (dev.bar i / 2 % 4 == 2)) [
        | inl wide ↦ elim (Bool-cases (i == 5)) [
          | inl last ↦
              let at_last : i ≡ 5 = ground arith in
              absurd (fits (rw (← at_last) used) (rw (← at_last) (ground arith)))
          | inr before ↦ rw (used, wide) (probe_64-restores i x (ground arith))
        ]
        | inr narrow ↦ rw (used, narrow) (probe_32-restores i x (omega arith))
      ]
    ]

  -- On a bus whose base addresses keep what they hold when it is written again, reading a function
  -- and looking for its region leave the whole configuration space as it was, unless the last base
  -- address is one of 64 bits.
  pub mmio_region-restores :
      (l : Location)
      → (d : b.Devices) → (x : ℕ) → FitsLast (c.config d (bar_at l 5))
      → (let (dev, d') = pci_read_full_device b l d in
          c.config (pci_get_device_mmio_region b dev d').1 x ≡ c.config d x)
  unfolding pci_get_device_mmio_region
  mmio_region-restores l d x fits =
      let (dev, d') = pci_read_full_device b l d in
      let last = full_device-bar b c l d 5 (omega arith) in
      mmio_loop-restores dev d' (full_device-HasBars b c l d) (rw last fits) 0 6 x refl
      ∙ full_device-keeps b c l x d
