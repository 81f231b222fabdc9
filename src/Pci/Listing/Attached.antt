-- ===== src/Pci/Listing/Attached.antt =====
-- ASNU/src/PCI/pci.c: `PciListDevicesAttached` lists the functions that are there.
use terracotta_os.Prelude.{
  ℕ, zero, suc, ◌+◌, ◌*◌, ◌≤◌, ◌<◌, ◌≢◌, refl, ap, inl, inr, [], arith, Bool-cases, length,
}
use terracotta_os.Word.{u32_mod}
use terracotta_os.Io.{Bus}
use terracotta_os.Pci.{Location, at}
use terracotta_os.Pci.Reads.{byte}
use terracotta_os.Pci.Space.{Space, bar_at}
use terracotta_os.Pci.Mmio.Total.{FitsLast}
use terracotta_os.Pci.Listing.{
  is_single, list_funcs, list_slots, list_buses, total_possible, pci_list_devices_attached,
}
use terracotta_os.Pci.Listing.Spec.{
  places, is_attached, present_functions, slot_functions, bus_functions, attached, length-slot,
  length-bus, length-attached, slot-single, slot-several, slot-absent,
}
use terracotta_os.Pci.Listing.Lists.{Shows, Lists, go_on-Lists}
use terracotta_os.Pci.Listing.Slots.{skip-Lists, next-Lists, last-Lists}

module _ (b : Bus) (c : Space b) (config : ℕ → ℕ) where
  nothing :
      (found : ℕ)
      → (d : b.Devices) → Shows b c config d
      → Lists b c config (λ d'. ((found, []), d')) d found []
  unfolding places
  nothing found d s = record {
    lines = [];
    answer = ap (λ n. (n, [])) (omega arith);
    named = refl;
    kept = s;
  }

  module _ (fits : (l : Location) → FitsLast (config (bar_at l 5))) where
    funcs-Lists :
        (bus slot func left found : ℕ)
        → (d : b.Devices) → func ≢ 0
        → found + left < u32_mod
        → Shows b c config d
        → Lists b c config
            (list_funcs b bus slot func left found)
            d
            found
            (present_functions config bus slot func left)
    unfolding present_functions list_funcs
    funcs-Lists bus slot func zero found d ne few s = nothing found d s
    funcs-Lists bus slot func (suc left) found d ne few s =
        let one : found + 1 < u32_mod = omega arith in
        elim (Bool-cases (is_attached config (at bus slot func))) [
          | inl here ↦ rw here (
              next-Lists b c config fits bus slot func left found d s one _ here (ground arith)
                (λ d' s'.
                  funcs-Lists bus slot (func + 1) left (found + 1) d' (omega arith) (omega arith)
                    s'))
          | inr absent ↦ rw absent (
              skip-Lists b c config fits bus slot func left found d s one _ absent (λ d' s'.
                funcs-Lists bus slot (func + 1) left found d' (omega arith) (omega arith) s'))
        ]

    slot-Lists :
        (bus slot found : ℕ)
        → (d : b.Devices) → found + 8 < u32_mod
        → Shows b c config d
        → Lists b c config
            (list_funcs b bus slot 0 8 found)
            d
            found
            (slot_functions config bus slot)
    slot-Lists bus slot found d few s =
        let one : found + 1 < u32_mod = omega arith in
        elim (Bool-cases (is_attached config (at bus slot 0))) [
          | inl here ↦ elim (Bool-cases (is_single (byte config (at bus slot 0) 0x0e))) [
            | inl single ↦
                rw (slot-single config bus slot here single)
                  (last-Lists b c config fits bus slot 0 7 found d s one here single)
            | inr several ↦ rw (slot-several config bus slot here several) (
                next-Lists b c config fits bus slot 0 7 found d s one _ here several
                  (λ d' s'. funcs-Lists bus slot 1 7 (found + 1) d' (omega arith) (omega arith) s'))
          ]
          | inr absent ↦ rw (slot-absent config bus slot absent) (
              skip-Lists b c config fits bus slot 0 7 found d s one _ absent
                (λ d' s'. funcs-Lists bus slot 1 7 found d' (omega arith) (omega arith) s'))
        ]

    slots-Lists :
        (bus slot left found : ℕ)
        → (d : b.Devices) → found + 8 * left < u32_mod
        → Shows b c config d
        → Lists b c config
            (list_slots b bus slot left found)
            d
            found
            (bus_functions config bus slot left)
    unfolding list_slots bus_functions
    slots-Lists bus slot zero found d few s = nothing found d s
    slots-Lists bus slot (suc left) found d few s =
        let small = length-slot config bus slot in
        go_on-Lists b c config (list_funcs b bus slot 0 8 found)
          (λ n. list_slots b bus (slot + 1) left n) d found _ _
          (slot-Lists bus slot found d (omega arith) s)
          (λ d' s'. slots-Lists bus (slot + 1) left _ d' (omega arith) s')

    buses-Lists :
        (bus left found : ℕ)
        → (d : b.Devices) → found + 256 * left < u32_mod
        → Shows b c config d
        → Lists b c config (list_buses b bus left found) d found (attached config bus left)
    unfolding list_buses attached
    buses-Lists bus zero found d few s = nothing found d s
    buses-Lists bus (suc left) found d few s =
        let small = length-bus config bus 0 32 in
        go_on-Lists b c config (list_slots b bus 0 32 found) (λ n. list_buses b (bus + 1) left n) d
          found _ _ (slots-Lists bus 0 32 found d (omega arith) s)
          (λ d' s'. buses-Lists (bus + 1) left _ d' (omega arith) s')

  -- On a bus whose base addresses keep what they hold when it is written again, with no base address
  -- of 64 bits in the last place, `PciListDevicesAttached` ends. Its lines name the functions of the
  -- first eight buses that are there, in order, and of a slot whose function 0 says that it is the
  -- only one that one alone. `found` ends as their number, at most `total_possible`, and the
  -- configuration space is as it was.
  pub list_devices_attached_lem :
      (d : b.Devices)
      → Shows b c config d
      → ((l : Location) → FitsLast (config (bar_at l 5)))
      → Lists b c config (pci_list_devices_attached b) d 0 (attached config 0 8)
        × (length (attached config 0 8) ≤ total_possible)
  unfolding pci_list_devices_attached
  list_devices_attached_lem d s fits =
      (buses-Lists fits 0 8 0 d (omega arith) s, length-attached config 0 8)
