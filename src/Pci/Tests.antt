-- ===== src/Pci/Tests.antt =====
-- A bus with one function, the network card 8086:100e in slot 3 of bus 0.
use terracotta_os.Prelude.{
  ℕ, ◌*◌, ◌/◌, ◌^◌, ◌≤◌, ◌<◌, ◌≡◌, ◌≢◌, ◌⊎◌, refl, [], ◌∷◌, false, ◌&&◌, ◌==◌, none, if◌then◌else◌,
  length, arith,
}
use terracotta_os.Io.{Bus}
use terracotta_os.Pci.{
  Location, at, address, pci_read_full_device, pci_find_device_by_id, pci_find_device_by_class,
}
use terracotta_os.Pci.Reads.{Answers, word}
use terracotta_os.Pci.Find.{OfAny, find_returns_match, find_by_id-never}
use terracotta_os.Pci.Space.{Space, bar_at}
use terracotta_os.Pci.Mmio.{pci_get_device_mmio_region}
use terracotta_os.Pci.Mmio.Restored.{mmio_region-restores}
use terracotta_os.Pci.Mmio.Region.{Reports, IsFirst, region_base, AnswersOnes, mmio_region_lem}
use terracotta_os.Pci.Mmio.Total.{FitsLast}
use terracotta_os.Pci.Listing.{total_possible, pci_list_devices_attached}
use terracotta_os.Pci.Listing.Spec.{attached, bus_functions, slot_functions, present_functions}
use terracotta_os.Pci.Listing.Lists.{Lists}
use terracotta_os.Pci.Listing.Attached.{list_devices_attached_lem}
use terracotta_os.Pci.Ends.{find_by_id-ends}

-- The identifiers, the class, and ones for a function that is not there.
abbrev card : ℕ → ℕ
card a =
    if a == 0x8000_1800 then 0x100e_8086 else if a == 0x8000_1808 then 0x0200_0000 else 0xffff_ffff

-- The address port is a latch.
abbrev one_card : Bus
one_card = record {
  Devices = ℕ;
  outb = λ port v d. d;
  inb = λ port d. (0, d);
  outl = λ port v d. if port == 0xcf8 then v else d;
  inl = λ port d. if port == 0xcfc then (card d, d) else (0, d);
  outw = λ port v d. d;
  inw = λ port d. (0, d);
}

one_card-Answers : Answers one_card card
one_card-Answers a d = refl

vendor_there : word card (at 0 3 0) 0 ≡ 0x8086
unfolding address
vendor_there = refl

device_there : word card (at 0 3 0) 2 ≡ 0x100e
unfolding address
device_there = refl

no_such : (l : Location) → word card l 0 ≡ 0x10ec → word card l 2 ≢ 0x8139
no_such l v e = ground arith

-- Any subclass.
abbrev any : ℕ
any = 0xff

find_returns_match_example :
    OfAny
      (λ dev. (dev.vendor_id ≡ 0x8086) × (dev.device_id ≡ 0x100e))
      (pci_find_device_by_id one_card 4 0x8086 0x100e 0).0
    × OfAny
        (λ dev. (dev.class_code ≡ 2) × ((any ≡ 0xff) ⊎ (dev.subclass ≡ any)))
        (pci_find_device_by_class one_card 4 2 any 0).0
find_returns_match_example =
    find_returns_match one_card card one_card-Answers 4 0x8086 0x100e 2 any 0

find_by_id-ends_example : (pci_find_device_by_id one_card 1 0x8086 0x100e 0).0 ≢ none
find_by_id-ends_example =
    find_by_id-ends one_card card one_card-Answers 0 3 1 0x8086 0x100e 0 (omega arith) (omega arith)
      (omega arith) (omega arith) vendor_there device_there

find_by_id-never_example : (pci_find_device_by_id one_card 300 0x10ec 0x8139 0).0 ≡ none
find_by_id-never_example =
    find_by_id-never one_card card one_card-Answers 300 0x10ec 0x8139 0 no_such

-- The same card with base address 0, of 128 KiB below 4 GiB, that can be written.
record Card : Type 0 where
  latch : ℕ
  place : ℕ

abbrev bar_address : ℕ
bar_address = 0x8000_1810

abbrev writable : Bus
writable = record {
  Devices = Card;
  outb = λ port v d. d;
  inb = λ port d. (0, d);
  outl = λ port v d.
      if port == 0xcf8
      then record d { latch = v }
      else if port == 0xcfc && d.latch == bar_address
      then record d { place = v / 0x2_0000 }
      else d;
  inl = λ port d. (if d.latch == bar_address then d.place * 0x2_0000 else card d.latch, d);
  outw = λ port v d. d;
  inw = λ port d. (0, d);
}

abbrev writable_config : Card → ℕ → ℕ
writable_config d a = if a == bar_address then d.place * 0x2_0000 else card a

abbrev writable_stored : ℕ → ℕ → ℕ
writable_stored a v = if a == bar_address then v / 0x2_0000 * 0x2_0000 else card a

writable_stores :
    (a v x : ℕ) (d : Card)
    → writable_config (writable.outl 0xcfc v (writable.outl 0xcf8 a d)) x
      ≡ (if x == a then writable_stored a v else writable_config d x)
writable_stores a v x d = ground arith

writable_holds : (a : ℕ) (d : Card) → writable_stored a (writable_config d a) ≡ writable_config d a
writable_holds a d = ground arith

abbrev writable_space : Space writable
writable_space = record {
  config = writable_config;
  stored = writable_stored;
  answers = λ a d. refl;
  read_keeps = λ a x d. refl;
  write_stores = λ l i v x d h. writable_stores (bar_at l i) v x d;
  held_again = λ l i d h. writable_holds (bar_at l i) d;
}

abbrev placed : Card
placed = record { latch = 0; place = 0x7f50 }

writable_FitsLast : (a : ℕ) → FitsLast (writable_config placed a)
writable_FitsLast a used e = ground arith

writable_fits : (l : Location) → FitsLast (writable_config placed (bar_at l 5))
writable_fits l = writable_FitsLast (bar_at l 5)

mmio_region-restores_example :
    let (dev, d) = pci_read_full_device writable (at 0 3 0) placed in
    writable_config (pci_get_device_mmio_region writable dev d).1 bar_address ≡ 0xfea0_0000
mmio_region-restores_example =
    mmio_region-restores writable writable_space (at 0 3 0) placed bar_address
      (writable_fits (at 0 3 0))

placed-IsFirst : IsFirst (λ j. writable_config placed (bar_at (at 0 3 0) j)) 0 false
unfolding address
placed-IsFirst = record {
  within = omega arith;
  skipped = λ j lt. absurd (omega arith);
  used = refl;
  width = refl;
  paired = λ e. cc;
}

placed_small : writable_config placed (bar_at (at 0 3 0) 0) < 2 ^ 32
unfolding address
placed_small = omega arith

placed_ones : AnswersOnes writable_stored (at 0 3 0) 0 0x2000 0 false
unfolding address
placed_ones = (refl, λ e. cc)

mmio_region_lem_example :
    let (dev, d) = pci_read_full_device writable (at 0 3 0) placed in
    Reports
      (pci_get_device_mmio_region writable dev d).0
      dev
      (region_base (λ j. writable_config placed (bar_at (at 0 3 0) j)) 0 false)
      (0x2000 * 16)
      0
      false
mmio_region_lem_example =
    mmio_region_lem writable writable_space (at 0 3 0) placed 0 0x2000 0 false (omega arith)
      (omega arith) (omega arith) (omega arith) (omega arith) (omega arith) placed_small
      placed-IsFirst placed_ones

list_devices_attached_lem_example :
    Lists writable writable_space
      (writable_config placed)
      (pci_list_devices_attached writable)
      placed
      0
      (attached (writable_config placed) 0 8)
    × (length (attached (writable_config placed) 0 8) ≤ total_possible)
list_devices_attached_lem_example =
    list_devices_attached_lem writable writable_space (writable_config placed) placed (λ x. refl)
      writable_fits

-- The card is listed, and alone.
card_listed : attached (writable_config placed) 0 1 ≡ at 0 3 0 ∷ []
unfolding address attached bus_functions slot_functions present_functions
card_listed = refl
