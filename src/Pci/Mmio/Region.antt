-- ===== src/Pci/Mmio/Region.antt =====
-- ASNU/src/PCI/pci.c: what `PciGetDeviceMMIORegion` finds in a function whose base addresses answer
-- the searches as the bus prescribes.
use terracotta_os.Prelude.{
  ℕ, zero, suc, ◌+◌, ◌-◌, ◌*◌, ◌/◌, ◌%◌, ◌^◌, ◌<◌, ◌≡◌, ◌≢◌, refl, ap, ◌∙◌, Bool, true, false, ◌==◌,
  ltb, if◌then◌else◌, arith,
}
use terracotta_os.Io.{Bus}
use terracotta_os.Word.Bits.{bit_or-add}
use terracotta_os.Pci.{
  PciDevice, Location, location, pci_config_read_dword, pci_config_write_dword,
  pci_read_full_device,
}
use terracotta_os.Pci.Address.{address-sum}
use terracotta_os.Pci.Mmio.{
  base_low, bar_word, region_sizes, is_skipped, probe_32, probe_64, mmio_loop,
  pci_get_device_mmio_region,
}
use terracotta_os.Pci.Space.{
  Space, bar_at, read_dword-config, read_dword-keeps, write_dword-stores, full_device-location,
  full_device-bar,
}

-- What the search says of a region.
abbrev pub Reports : PciDevice → PciDevice → ℕ → ℕ → ℕ → Bool → Type 0
Reports r dev base size index wide =
    r ≡ record dev { mmio_base = base; mmio_size = size; mmio_bar_index = index; is_64_bit = wide }

-- The first base address that is not skipped is number `k`, of 64 bits if `wide`.
pub record IsFirst (bar : ℕ → ℕ) (k : ℕ) (wide : Bool) : Type 0 where
  pub within : k < 6
  pub skipped : (j : ℕ) → j < k → is_skipped (bar j) ≡ true
  pub used : is_skipped (bar k) ≡ false
  pub width : (bar k / 2 % 4 == 2) ≡ wide
  pub paired : wide ≡ true → k < 5

module _ (b : Bus) (dev : PciDevice) (d : b.Devices) (k : ℕ) where
  loop-narrow :
      (gap i left : ℕ)
      → i + gap ≡ k
      → i + left ≡ 6
      → IsFirst dev.bar k false
      → (mmio_loop b dev i left d).0 ≡ (probe_32 b dev k d).0
  unfolding mmio_loop
  loop-narrow gap i zero e n f = let w = f.within in absurd (omega arith)
  loop-narrow zero i (suc left) e n f =
      let here : i ≡ k = omega arith in rw (here, f.used, f.width) refl
  loop-narrow (suc gap) i (suc left) e n f =
      rw (f.skipped i (omega arith)) (loop-narrow gap (i + 1) left (omega arith) (omega arith) f)

  loop-wide :
      (gap i left : ℕ)
      → i + gap ≡ k
      → i + left ≡ 6
      → IsFirst dev.bar k true
      → (mmio_loop b dev i left d).0 ≡ (probe_64 b dev k d).0
  unfolding mmio_loop
  loop-wide gap i zero e n f = let w = f.within in absurd (omega arith)
  loop-wide zero i (suc left) e n f =
      let here : i ≡ k = omega arith in rw (here, f.used, f.width) refl
  loop-wide (suc gap) i (suc left) e n f =
      rw (f.skipped i (omega arith)) (loop-wide gap (i + 1) left (omega arith) (omega arith) f)

-- The address of the region: the base address without its flags, and above it the next one.
abbrev pub region_base : (ℕ → ℕ) → ℕ → Bool → ℕ
region_base bar k wide =
    if wide then bar (k + 1) * 2 ^ 32 + (bar k - bar k % 16) else bar k - bar k % 16

-- What a base address answers behind ones, for a region of `q` times 16 bytes.
abbrev pub AnswersOnes : (stored : ℕ → ℕ → ℕ) → Location → ℕ → ℕ → ℕ → Bool → Type 0
AnswersOnes stored l k q flags wide =
    (stored (bar_at l k) 0xffff_ffff ≡ 2 ^ 32 - q * 16 + flags)
    × (wide ≡ true → stored (bar_at l (k + 1)) 0xffff_ffff ≡ 2 ^ 32 - 1)

module _ (b : Bus) (c : Space b) (dev : PciDevice) (d : b.Devices) (k q flags : ℕ)
    (positive : 0 < q) (small : q * 16 < 2 ^ 32) (few : flags < 16) where
  probe_32-Reports :
      k < 6
      → AnswersOnes c.stored (location dev) k q flags false
      → Reports (probe_32 b dev k d).0 dev (base_low (dev.bar k)) (q * 16) k false
  unfolding probe_32
  probe_32-Reports h (ones, high) =
      let l = location dev in
      let d1 = (pci_config_write_dword b l (0x10 + k * 4) 0xffff_ffff d).1 in
      let mask : (pci_config_read_dword b l (0x10 + k * 4) d1).0 ≡ 2 ^ 32 - q * 16 + flags =
        read_dword-config b c l (0x10 + k * 4) d1
        ∙ ground (arith, write_dword-stores b c l k 0xffff_ffff (bar_at l k) d h) in
      rw mask (rw ((region_sizes q 1 flags positive small (omega arith) (omega arith) few).0) refl)

  probe_64-Reports :
      k < 5
      → dev.bar k < 2 ^ 32
      → bar_at (location dev) k ≢ bar_at (location dev) (k + 1)
      → AnswersOnes c.stored (location dev) k q flags true
      → Reports
          (probe_64 b dev k d).0
          dev
          (dev.bar (k + 1) * 2 ^ 32 + base_low (dev.bar k))
          (q * 16)
          k
          true
  unfolding probe_64 bar_word
  probe_64-Reports h word apart (ones, high) =
      let l = location dev in
      let o = 0x10 + k * 4 in
      let o' = 0x10 + (k + 1) * 4 in
      let d1 = (pci_config_write_dword b l o 0xffff_ffff d).1 in
      let d2 = (pci_config_write_dword b l o' 0xffff_ffff d1).1 in
      let d3 = (pci_config_read_dword b l o d2).1 in
      let ones_high = high refl in
      let low_mask : (pci_config_read_dword b l o d2).0 ≡ 2 ^ 32 - q * 16 + flags =
        read_dword-config b c l o d2
        ∙ ground (
          arith,
          write_dword-stores b c l (k + 1) 0xffff_ffff (bar_at l k) d1 (omega arith),
          write_dword-stores b c l k 0xffff_ffff (bar_at l k) d (omega arith),
        ) in
      let high_mask : (pci_config_read_dword b l o' d3).0 ≡ 2 ^ 32 - 1 =
        read_dword-config b c l o' d3
        ∙ ground (
          arith,
          read_dword-keeps b c l o (bar_at l (k + 1)) d2,
          write_dword-stores b c l (k + 1) 0xffff_ffff (bar_at l (k + 1)) d1 (omega arith),
        ) in
      let inside : ltb (k + 1) 6 ≡ true = ground arith in
      let joined = bit_or-add 32 (dev.bar (k + 1)) (base_low (dev.bar k)) (omega arith) in
      let size = (region_sizes q 1 flags positive small (omega arith) (omega arith) few).1 in
      rw (low_mask, high_mask, inside) (rw (joined, size) refl)

-- The base address `k` of a function and the one behind it are different double words.
bars_apart :
    (l : Location) (k : ℕ)
    → l.bus < 256
    → l.slot < 32
    → l.func < 8
    → k < 5
    → bar_at l k ≢ bar_at l (k + 1)
bars_apart l k hb hs hf h e = absurd (
    omega (
      arith,
      address-sum l.bus l.slot l.func (0x10 + k * 4) hb hs hf (omega arith),
      address-sum l.bus l.slot l.func (0x10 + (k + 1) * 4) hb hs hf (omega arith),
      e,
    ))

module _ (b : Bus) (c : Space b) (dev : PciDevice) (d : b.Devices) (k q flags : ℕ)
    (positive : 0 < q) (small : q * 16 < 2 ^ 32) (few : flags < 16) (word : dev.bar k < 2 ^ 32)
    (apart : k < 5 → bar_at (location dev) k ≢ bar_at (location dev) (k + 1)) where
  region-Reports :
      (wide : Bool)
      → IsFirst dev.bar k wide
      → AnswersOnes c.stored (location dev) k q flags wide
      → Reports
          (pci_get_device_mmio_region b dev d).0
          dev
          (region_base dev.bar k wide)
          (q * 16)
          k
          wide
  unfolding pci_get_device_mmio_region
  region-Reports false f ones =
      loop-narrow b dev d k k 0 6 (omega arith) refl f
      ∙ probe_32-Reports b c dev d k q flags positive small few f.within ones
  region-Reports true f ones =
      let h = f.paired refl in
      loop-wide b dev d k k 0 6 (omega arith) refl f
      ∙ probe_64-Reports b c dev d k q flags positive small few h word (apart h) ones

IsFirst-moved :
    (f g : ℕ → ℕ) (k : ℕ) (wide : Bool)
    → ((j : ℕ) → j < 6 → g j ≡ f j)
    → IsFirst f k wide
    → IsFirst g k wide
IsFirst-moved f g k wide same first =
    let w = first.within in
    record {
      within = w;
      skipped = λ j lt. ap is_skipped (same j (omega arith)) ∙ first.skipped j lt;
      used = ap is_skipped (same k w) ∙ first.used;
      width = ap (λ v. v / 2 % 4 == 2) (same k w) ∙ first.width;
      paired = first.paired;
    }

region_base-moved :
    (f g : ℕ → ℕ) (k : ℕ) (wide : Bool)
    → ((j : ℕ) → j < 6 → g j ≡ f j)
    → IsFirst f k wide
    → region_base g k wide ≡ region_base f k wide
region_base-moved f g k false same first = ap base_low (same k first.within)
region_base-moved f g k true same first =
    let h = first.paired refl in omega (arith, same k first.within, same (k + 1) (omega arith))

module _ (b : Bus) (c : Space b) (l : Location) (d : b.Devices) (k q flags : ℕ) (wide : Bool) where
  -- If the first base address of a function that is neither 0 nor of the ports is number `k`, and
  -- it answers ones as the bus prescribes for a region of `q` times 16 bytes, below 4 GiB, then
  -- `PciGetDeviceMMIORegion` reports the base without its flags, that size, the number `k` and the
  -- width. A base address of 64 bits takes its upper half from the next one, which keeps all ones.
  pub mmio_region_lem :
      l.bus < 256
      → l.slot < 32
      → l.func < 8
      → 0 < q
      → q * 16 < 2 ^ 32
      → flags < 16
      → c.config d (bar_at l k) < 2 ^ 32
      → IsFirst (λ j. c.config d (bar_at l j)) k wide
      → AnswersOnes c.stored l k q flags wide
      → (let (dev, d') = pci_read_full_device b l d in
          Reports
            (pci_get_device_mmio_region b dev d').0
            dev
            (region_base (λ j. c.config d (bar_at l j)) k wide)
            (q * 16)
            k
            wide)
  mmio_region_lem hb hs hf positive small few word first ones =
      let (dev, d') = pci_read_full_device b l d in
      let same = full_device-bar b c l d in
      let at_l = full_device-location b c l d in
      let w = first.within in
      let moved = IsFirst-moved (λ j. c.config d (bar_at l j)) dev.bar k wide same first in
      let r =
        region-Reports b c dev d' k q flags positive small few (rw (same k w) word)
          (λ h. rw at_l (bars_apart l k hb hs hf h)) wide moved (rw at_l ones) in
      r
      ∙ ap
          (λ base. record dev {
            mmio_base = base;
            mmio_size = q * 16;
            mmio_bar_index = k;
            is_64_bit = wide;
          })
          (region_base-moved (λ j. c.config d (bar_at l j)) dev.bar k wide same first)
