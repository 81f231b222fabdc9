-- ===== src/Pci/Listing/Slots.antt =====
-- ASNU/src/PCI/pci.c: the rounds of `PciListDevicesAttached` over the functions of a slot.
use terracotta_os.Prelude.{
  ℕ, suc, ◌+◌, ◌/◌, ◌%◌, ◌^◌, ◌<◌, ◌≡◌, refl, ap, ◌∙◌, List, [], ◌∷◌, true, false, ◌&&◌, ◌==◌,
  arith,
}
use terracotta_os.Word.{u32_mod}
use terracotta_os.Io.{Bus}
use terracotta_os.Pci.{
  PciDevice, Location, address, at, location, Cmd, pci_config_read_word, pci_read_full_device,
}
use terracotta_os.Pci.Reads.{word, byte}
use terracotta_os.Pci.Space.{
  Space, bar_at, read_word-config, read_word-keeps, full_device-location,
  full_device-header_type_raw,
}
use terracotta_os.Pci.Mmio.{pci_get_device_mmio_region}
use terracotta_os.Pci.Mmio.Restored.{mmio_region-restores}
use terracotta_os.Pci.Mmio.Total.{FitsLast, mmio_region-SameFunction}
use terracotta_os.Pci.Listing.{Listing, is_single, list_device, list_funcs}
use terracotta_os.Pci.Listing.Spec.{is_attached}
use terracotta_os.Pci.Listing.Lists.{Shows, Lists, list_device-last, list_device-next}

module _ (b : Bus) (c : Space b) (config : ℕ → ℕ) where
  Lists-moved :
      (m m' : Cmd b Listing)
      → (d d' : b.Devices) → (found : ℕ) → (ls : List Location) → m d ≡ m' d'
      → Lists b c config m' d' found ls
      → Lists b c config m d found ls
  Lists-moved m m' d d' found ls e r = record {
    lines = r.lines;
    answer = ap (λ p. p.0) e ∙ r.answer;
    named = r.named;
    kept = λ x. ap (λ p. c.config p.1 x) e ∙ r.kept x;
  }

  module _ (fits : (l : Location) → FitsLast (config (bar_at l 5))) (bus slot func left found : ℕ)
      (d : b.Devices) (shown : Shows b c config d) (few : found + 1 < u32_mod) where
    abbrev l : Location
    l = at bus slot func

    abbrev asked : ℕ × b.Devices
    asked = pci_config_read_word b l 0 d

    abbrev read : PciDevice × b.Devices
    read = pci_read_full_device b l asked.1

    abbrev measured : PciDevice × b.Devices
    measured = pci_get_device_mmio_region b read.0 read.1

    asked_word : asked.0 ≡ word config l 0
    asked_word = read_word-config b c l 0 d ∙ ap (λ v. v / 2 ^ 0 % 0x1_0000) (shown (address l 0))

    asked-Shows : Shows b c config asked.1
    asked-Shows x = read_word-keeps b c l 0 x d ∙ shown x

    measured-Shows : Shows b c config measured.1
    measured-Shows x =
        mmio_region-restores b c l asked.1 x (rw (asked-Shows (bar_at l 5)) (fits l))
        ∙ asked-Shows x

    -- What the round finds is a structure of the same function, with its header type.
    found_device : (location measured.0 ≡ l) × (measured.0.header_type_raw ≡ byte config l 0x0e)
    found_device =
        let (at_l, header) = mmio_region-SameFunction b read.0 read.1 in
        (
          at_l ∙ full_device-location b c l asked.1,
          header
              ∙ full_device-header_type_raw b c l asked.1
              ∙ ap (λ v. v / 2 ^ 16 % 0x100) (asked-Shows (address l 0x0e)),
        )

    list_funcs-absent :
        is_attached config l ≡ false
        → list_funcs b bus slot func (suc left) found d
          ≡ list_funcs b bus slot (func + 1) left found asked.1
    unfolding list_funcs
    list_funcs-absent h =
        let test : (asked.0 == 0xffff) ≡ true = ground (arith, asked_word) in rw test refl

    list_funcs-present :
        is_attached config l ≡ true
        → list_funcs b bus slot func (suc left) found d
          ≡ list_device b l found
              (λ n. list_funcs b bus slot (func + 1) left n)
              measured.0
              measured.1
    unfolding list_funcs
    list_funcs-present h =
        let test : (asked.0 == 0xffff) ≡ false = ground (arith, asked_word) in rw test refl

    pub skip-Lists :
        (ls : List Location)
        → is_attached config l ≡ false
        → ((d' : b.Devices)
            → Shows b c config d'
            → Lists b c config (list_funcs b bus slot (func + 1) left found) d' found ls)
        → Lists b c config (list_funcs b bus slot func (suc left) found) d found ls
    skip-Lists ls absent k = Lists-moved _ _ _ _ _ _ (list_funcs-absent absent) (k _ asked-Shows)

    pub next-Lists :
        (ls : List Location)
        → is_attached config l ≡ true
        → (func == 0 && is_single (byte config l 0x0e)) ≡ false
        → ((d' : b.Devices)
            → Shows b c config d'
            → Lists b c config
                (list_funcs b bus slot (func + 1) left (found + 1))
                d'
                (found + 1)
                ls)
        → Lists b c config (list_funcs b bus slot func (suc left) found) d found (l ∷ ls)
    next-Lists ls present goes k =
        let (at_l, header) = found_device in
        let more = λ (n : ℕ). list_funcs b bus slot (func + 1) left n in
        let test = ap (λ v. func == 0 && is_single v) header ∙ goes in
        Lists-moved _ (list_device b l found more measured.0) _ _ _ _ (list_funcs-present present) (
          list_device-next b c config l found more measured.0 at_l few measured.1 ls test
            (k _ measured-Shows))

    pub last-Lists :
        is_attached config l ≡ true
        → (func == 0 && is_single (byte config l 0x0e)) ≡ true
        → Lists b c config (list_funcs b bus slot func (suc left) found) d found (l ∷ [])
    last-Lists present ends =
        let (at_l, header) = found_device in
        let more = λ (n : ℕ). list_funcs b bus slot (func + 1) left n in
        let test = ap (λ v. func == 0 && is_single v) header ∙ ends in
        Lists-moved _ (list_device b l found more measured.0) _ _ _ _ (list_funcs-present present) (
          list_device-last b c config l found more measured.0 at_l few measured.1 test
            measured-Shows)
