-- ===== src/Pci/Mmio/Total.antt =====
-- ASNU/src/PCI/pci.c: what `PciGetDeviceMMIORegion` leaves alone in the structure, and when it stays
-- inside `bar`.
use terracotta_os.Prelude.{
  ℕ, zero, suc, ◌+◌, ◌/◌, ◌%◌, ◌≡◌, ◌≢◌, refl, inl, inr, false, ◌==◌, arith, Bool-cases,
}
use terracotta_os.Io.{Bus}
use terracotta_os.Pci.{PciDevice, location}
use terracotta_os.Pci.Mmio.{is_skipped, probe_32, probe_64, mmio_loop, pci_get_device_mmio_region}

-- The last base address is not one of 64 bits, for which there would be no upper half.
abbrev pub FitsLast : ℕ → Type 0
FitsLast bar = is_skipped bar ≡ false → bar / 2 % 4 ≢ 2

-- A structure for the same function.
abbrev pub SameFunction : PciDevice → PciDevice → Type 0
SameFunction dev dev' =
    (location dev' ≡ location dev) × (dev'.header_type_raw ≡ dev.header_type_raw)

module _ (b : Bus) (dev : PciDevice) (d : b.Devices) where
  mmio_loop-SameFunction :
      (i left : ℕ) → i + left ≡ 6 → SameFunction dev (mmio_loop b dev i left d).0
  unfolding mmio_loop probe_32 probe_64
  mmio_loop-SameFunction i zero e = (refl, refl)
  mmio_loop-SameFunction i (suc left) e = elim (Bool-cases (is_skipped (dev.bar i))) [
    | inl skip ↦ rw skip (mmio_loop-SameFunction (i + 1) left (omega arith))
    | inr used ↦ elim (Bool-cases (dev.bar i / 2 % 4 == 2)) [
      | inl wide ↦ rw (used, wide) (refl, refl)
      | inr narrow ↦ rw (used, narrow) (refl, refl)
    ]
  ]

  pub mmio_region-SameFunction : SameFunction dev (pci_get_device_mmio_region b dev d).0
  unfolding pci_get_device_mmio_region
  mmio_region-SameFunction = mmio_loop-SameFunction 0 6 refl
