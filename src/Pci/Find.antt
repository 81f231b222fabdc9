-- ===== src/Pci/Find.antt =====
-- ASNU/src/PCI/pci.c: the searches for a device, on a bus whose configuration space does not change
-- while they read it.
use terracotta_os.Prelude.{
  inl, inr, ◌⊎◌, ℕ, zero, suc, ◌+◌, ◌%◌, ◌≡◌, ◌≢◌, refl, ap, sym, ◌∙◌, Bool, true, false, Option,
  none, some, ◌==◌, arith, Bool-cases,
}
use terracotta_os.Io.{Bus}
use terracotta_os.Pci.{
  PciDevice, Location, at, Cmd, pci_config_read_word, pci_config_read_byte, pci_read_full_device,
  scan_funcs, or_else, scan_slots, scan_buses, has_id, has_class, pci_find_device_by_id,
  pci_find_device_by_class,
}
use terracotta_os.Pci.Reads.{
  Answers, word, read_word-word, read_byte-byte, full-vendor_id, full-device_id, full-class_code,
  full-subclass,
}

-- What holds of a device that a search may return.
abbrev pub OfAny : (PciDevice → Type 0) → Option PciDevice → Type 0
OfAny P none = Unit
OfAny P (some dev) = P dev

none_of : (o : Option PciDevice) → OfAny (λ dev. ⊥) o → o ≡ none
none_of none h = refl
none_of (some dev) h = absurd h

module _ (b : Bus) (config : ℕ → ℕ) (h : Answers b config) where
  -- The four ways of a round of the loop over the functions.
  module _ (test : Location → ℕ → Cmd b Bool) (bus slot func left : ℕ) (d : b.Devices) where
    abbrev asked : ℕ × b.Devices
    asked = pci_config_read_word b (at bus slot func) 0 d

    abbrev hit : Bool × b.Devices
    hit = test (at bus slot func) asked.0 asked.1

    scan_funcs-absent :
        (asked.0 == 0xffff) ≡ true
        → scan_funcs b test bus slot func (suc left) d
          ≡ scan_funcs b test bus slot (func + 1) left asked.1
    unfolding scan_funcs
    scan_funcs-absent c = rw (c) refl

    pub scan_funcs-hit :
        (asked.0 == 0xffff) ≡ false
        → hit.0 ≡ true
        → (scan_funcs b test bus slot func (suc left) d).0
          ≡ some (pci_read_full_device b (at bus slot func) hit.1).0
    unfolding scan_funcs
    scan_funcs-hit c t = rw (c, t) refl

    scan_funcs-single :
        (asked.0 == 0xffff) ≡ false
        → hit.0 ≡ false
        → (func == 0) ≡ true
        → scan_funcs b test bus slot func (suc left) d ≡ (none, hit.1)
    unfolding scan_funcs
    scan_funcs-single c t z = rw (c, t, z) refl

    scan_funcs-next :
        (asked.0 == 0xffff) ≡ false
        → hit.0 ≡ false
        → (func == 0) ≡ false
        → scan_funcs b test bus slot func (suc left) d
          ≡ scan_funcs b test bus slot (func + 1) left hit.1
    unfolding scan_funcs
    scan_funcs-next c t z = rw (c, t, z) refl

  -- Whatever holds of every device whose test succeeds holds of the device that the loops return.
  module _ (test : Location → ℕ → Cmd b Bool) (P : PciDevice → Type 0)
      (sound : (l : Location)
        → (d d' : b.Devices) → (test l (word config l 0) d).0 ≡ true
        → P (pci_read_full_device b l d').0) where
    scan_funcs-P :
        (bus slot func left : ℕ)
        → (d : b.Devices) → OfAny P (scan_funcs b test bus slot func left d).0
    unfolding scan_funcs
    scan_funcs-P bus slot func zero d = tt
    scan_funcs-P bus slot func (suc left) d =
        let l = at bus slot func in
        let r = pci_config_read_word b l 0 d in
        let hit = test l r.0 r.1 in
        elim (Bool-cases (r.0 == 0xffff)) [
          | inl c ↦
              rw (scan_funcs-absent test bus slot func left d c)
                (scan_funcs-P bus slot (func + 1) left r.1)
          | inr c ↦ elim (Bool-cases hit.0) [
            | inl t ↦ rw (scan_funcs-hit test bus slot func left d c t) (
                sound l r.1 _
                  (ap (λ x. (test l x r.1).0) (sym (read_word-word b config h l 0 d)) ∙ t))
            | inr t ↦ elim (Bool-cases (func == 0)) [
              | inl z ↦ rw (scan_funcs-single test bus slot func left d c t z) tt
              | inr z ↦
                  rw (scan_funcs-next test bus slot func left d c t z)
                    (scan_funcs-P bus slot (func + 1) left hit.1)
            ]
          ]
        ]

    or_else-P :
        (r : Option PciDevice)
        → (next : Cmd b (Option PciDevice)) → (d : b.Devices) → OfAny P r
        → OfAny P (next d).0
        → OfAny P (or_else b r next d).0
    unfolding or_else
    or_else-P none next d h k = k
    or_else-P (some dev) next d h k = h

    scan_slots-P :
        (bus slot left : ℕ) → (d : b.Devices) → OfAny P (scan_slots b test bus slot left d).0
    unfolding scan_slots
    scan_slots-P bus slot zero d = tt
    scan_slots-P bus slot (suc left) d =
        or_else-P _ _ _ (scan_funcs-P bus slot 0 8 d) (scan_slots-P bus (slot + 1) left _)

    scan_buses-P : (bus fuel : ℕ) → (d : b.Devices) → OfAny P (scan_buses b test bus fuel d).0
    unfolding scan_buses
    scan_buses-P bus zero d = tt
    scan_buses-P bus (suc fuel) d =
        or_else-P _ _ _ (scan_slots-P bus 0 32 d) (scan_buses-P ((bus + 1) % 256) fuel _)

  has_id-full :
      (vendor device : ℕ)
      → (l : Location) → (d d' : b.Devices)
      → (has_id b vendor device l (word config l 0) d).0 ≡ true
      → let dev = (pci_read_full_device b l d').0 in
        (dev.vendor_id ≡ vendor) × (dev.device_id ≡ device)
  unfolding has_id
  has_id-full vendor device l d d' t = ground (
    arith,
    read_word-word b config h l 2 d,
    full-vendor_id b config h l d',
    full-device_id b config h l d',
  )

  has_class-full :
      (class_code subclass : ℕ)
      → (l : Location) → (d d' : b.Devices)
      → (has_class b class_code subclass l (word config l 0) d).0 ≡ true
      → let dev = (pci_read_full_device b l d').0 in
        (dev.class_code ≡ class_code) × ((subclass ≡ 0xff) ⊎ (dev.subclass ≡ subclass))
  unfolding has_class
  has_class-full class_code subclass l d d' t = ground (
    arith,
    read_byte-byte b config h l 0x0b d,
    read_byte-byte b config h l 0x0a (pci_config_read_byte b l 0x0b d).1,
    full-class_code b config h l d',
    full-subclass b config h l d',
  )

  -- On a bus whose configuration space does not change, whatever the searches return matches: by
  -- identifier, the device has the vendor and the device identifier that were asked for; by class,
  -- it has the class, and the subclass unless that was 0xff.
  pub find_returns_match :
      (fuel vendor device class_code subclass : ℕ)
      → (d : b.Devices)
      → OfAny
          (λ dev. (dev.vendor_id ≡ vendor) × (dev.device_id ≡ device))
          (pci_find_device_by_id b fuel vendor device d).0
        × OfAny
            (λ dev. (dev.class_code ≡ class_code) × ((subclass ≡ 0xff) ⊎ (dev.subclass ≡ subclass)))
            (pci_find_device_by_class b fuel class_code subclass d).0
  unfolding pci_find_device_by_id pci_find_device_by_class
  find_returns_match fuel vendor device class_code subclass d = (
    scan_buses-P (has_id b vendor device) _ (λ l d d' t. has_id-full vendor device l d d' t) 0 fuel
        d,
    scan_buses-P (has_class b class_code subclass) _
        (λ l d d' t. has_class-full class_code subclass l d d' t) 0 fuel d,
  )

  -- On a bus whose configuration space does not change, if no device has the identifiers that are
  -- asked for, the search by identifier does not return, however many buses it has searched.
  pub find_by_id-never :
      (fuel vendor device : ℕ)
      → (d : b.Devices) → ((l : Location) → word config l 0 ≡ vendor → word config l 2 ≢ device)
      → (pci_find_device_by_id b fuel vendor device d).0 ≡ none
  unfolding pci_find_device_by_id has_id
  find_by_id-never fuel vendor device d missing = none_of _ (
      scan_buses-P (has_id b vendor device) (λ dev. ⊥)
        (λ l d' d'' t. absurd (ground (arith, read_word-word b config h l 2 d', missing l))) 0 fuel
        d)
