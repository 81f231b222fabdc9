-- ===== src/Pci/Ends.antt =====
-- ASNU/src/PCI/pci.c: the search for a device that is there.
use terracotta_os.Prelude.{
  inl, inr, ◌⊎◌, ℕ, zero, suc, ◌+◌, ◌%◌, ◌<◌, ◌≡◌, ◌≢◌, refl, ap, sym, ◌∙◌, Bool, true, false,
  Option, none, some, ◌==◌, arith, ==_ne,
}
use terracotta_os.Io.{Bus}
use terracotta_os.Pci.{
  PciDevice, Location, at, Cmd, pci_config_read_word, scan_funcs, or_else, scan_slots, scan_buses,
  has_id, pci_find_device_by_id,
}
use terracotta_os.Pci.Reads.{Answers, word, read_word-word}
use terracotta_os.Pci.Find.{scan_funcs-hit}

module _ (b : Bus) (config : ℕ → ℕ) (h : Answers b config) where
  -- The buses below `bus` and the slots below `slot` are searched before function 0 of `slot`. If that
  -- function is there and matches, the search returns a device, given enough buses.
  module _ (test : Location → ℕ → Cmd b Bool) where
    IsSome-scan_funcs :
        (bus slot : ℕ)
        → (d : b.Devices) → (word config (at bus slot 0) 0 == 0xffff) ≡ false
        → ((d' : b.Devices) → (test (at bus slot 0) (word config (at bus slot 0) 0) d').0 ≡ true)
        → (scan_funcs b test bus slot 0 8 d).0 ≢ none
    IsSome-scan_funcs bus slot d there t =
        rw
          (scan_funcs-hit b config h test bus slot 0 7 d
            (ap (λ v. v == 0xffff) (read_word-word b config h (at bus slot 0) 0 d) ∙ there)
            (ap (λ v. (test (at bus slot 0) v (pci_config_read_word b (at bus slot 0) 0 d).1).0)
                (read_word-word b config h (at bus slot 0) 0 d)
              ∙ t _))
          (λ h. ground (arith, h))

    or_else-some :
        (r : Option PciDevice)
        → (next : Cmd b (Option PciDevice)) → (d : b.Devices) → (r ≢ none) ⊎ ((next d).0 ≢ none)
        → (or_else b r next d).0 ≢ none
    unfolding or_else
    or_else-some none next d (inl h) = λ e. h refl
    or_else-some none next d (inr k) = k
    or_else-some (some dev) next d h = λ e. ground (arith, e)

    module _ (bus slot : ℕ) (there : (word config (at bus slot 0) 0 == 0xffff) ≡ false)
        (t : (d : b.Devices)
          → (test (at bus slot 0) (word config (at bus slot 0) 0) d).0 ≡ true) where
      IsSome-scan_slots :
          (k first left : ℕ)
          → (d : b.Devices) → first + k ≡ slot
          → k < left
          → (scan_slots b test bus first left d).0 ≢ none
      unfolding scan_slots
      IsSome-scan_slots k first zero d e h = absurd (omega arith)
      IsSome-scan_slots zero first (suc left) d e h =
          let here : first ≡ slot = omega arith in
          or_else-some _ _ _ (inl (rw here (IsSome-scan_funcs bus slot d there t)))
      IsSome-scan_slots (suc k) first (suc left) d e h =
          or_else-some _ _ _
            (inr (IsSome-scan_slots k (first + 1) left _ (omega arith) (omega arith)))

      IsSome-scan_buses :
          (k first fuel : ℕ)
          → (d : b.Devices) → first + k ≡ bus
          → k < fuel
          → bus < 256
          → slot < 32
          → (scan_buses b test first fuel d).0 ≢ none
      unfolding scan_buses
      IsSome-scan_buses k first zero d e h small low = absurd (omega arith)
      IsSome-scan_buses zero first (suc fuel) d e h small low =
          let here : first ≡ bus = omega arith in
          or_else-some _ _ _ (inl (rw here (IsSome-scan_slots slot 0 32 d (omega arith) low)))
      IsSome-scan_buses (suc k) first (suc fuel) d e h small low = or_else-some _ _ _ (
          inr
            (IsSome-scan_buses k ((first + 1) % 256) fuel _ (omega arith) (omega arith) small low))

  -- On a bus whose configuration space does not change, a device at function 0 of a slot, with the
  -- identifiers that are asked for and a vendor other than 0xffff, ends the search by identifier
  -- with a device, once the buses up to its own have been searched.
  pub find_by_id-ends :
      (bus slot fuel vendor device : ℕ)
      → (d : b.Devices) → bus < 256
      → slot < 32
      → bus < fuel
      → vendor ≢ 0xffff
      → word config (at bus slot 0) 0 ≡ vendor
      → word config (at bus slot 0) 2 ≡ device
      → (pci_find_device_by_id b fuel vendor device d).0 ≢ none
  unfolding pci_find_device_by_id has_id
  find_by_id-ends bus slot fuel vendor device d small low enough ne v e =
      IsSome-scan_buses (has_id b vendor device) bus slot (==_ne _ _ (λ x. ne (sym v ∙ x)))
        (λ d'. ground (arith, read_word-word b config h (at bus slot 0) 2 d')) bus 0 fuel d
        (omega arith) enough small low
