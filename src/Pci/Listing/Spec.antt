-- ===== src/Pci/Listing/Spec.antt =====
-- ASNU/src/PCI/pci.c: which functions `PciListDevicesAttached` is to list, by the configuration space.
use terracotta_os.Prelude.{
  ℕ, zero, suc, ◌+◌, ◌*◌, ◌≤◌, ◌≡◌, refl, List, [], ◌∷◌, ◌++◌, Bool, true, false, not, ◌&&◌, ◌==◌,
  if◌then◌else◌, ap, length, length-append, arith,
}
use terracotta_os.Pci.{Location, at}
use terracotta_os.Pci.Reads.{word, byte}
use terracotta_os.Pci.Listing.{Printk, identity, place, region, no_region, coverage, is_single}

-- The functions that the lines name, in order.
unfoldable pub places : List Printk → List Location
places [] = []
places (place c s bus slot func ∷ rest) = at bus slot func ∷ places rest
places (identity v i n w ∷ rest) = places rest
places (region a s i ∷ rest) = places rest
places (no_region ∷ rest) = places rest
places (coverage f t ∷ rest) = places rest

pub places-append : (a b : List Printk) → places (a ++ b) ≡ places a ++ places b
unfolding places
places-append [] b = refl
places-append (place c s bus slot func ∷ a) b = ap (λ r. at bus slot func ∷ r) (places-append a b)
places-append (identity v i n w ∷ a) b = places-append a b
places-append (region x s i ∷ a) b = places-append a b
places-append (no_region ∷ a) b = places-append a b
places-append (coverage f t ∷ a) b = places-append a b

module _ (config : ℕ → ℕ) where
  -- A function that is not there answers the vendor 0xffff.
  abbrev pub is_attached : Location → Bool
  is_attached l = not (word config l 0 == 0xffff)

  unfoldable pub present_functions : ℕ → ℕ → ℕ → ℕ → List Location
  present_functions bus slot func zero = []
  present_functions bus slot func (suc left) =
      let rest = present_functions bus slot (func + 1) left in
      if is_attached (at bus slot func) then at bus slot func ∷ rest else rest

  -- The functions of a slot: function 0 alone if it is there and says that it is the only one.
  unfoldable pub slot_functions : ℕ → ℕ → List Location
  slot_functions bus slot =
      if is_attached (at bus slot 0) && is_single (byte config (at bus slot 0) 0x0e)
      then at bus slot 0 ∷ []
      else present_functions bus slot 0 8

  unfoldable pub bus_functions : ℕ → ℕ → ℕ → List Location
  bus_functions bus slot zero = []
  bus_functions bus slot (suc left) = slot_functions bus slot ++ bus_functions bus (slot + 1) left

  unfoldable pub attached : ℕ → ℕ → List Location
  attached bus zero = []
  attached bus (suc left) = bus_functions bus 0 32 ++ attached (bus + 1) left

  length-present : (bus slot func left : ℕ) → length (present_functions bus slot func left) ≤ left
  unfolding present_functions
  length-present bus slot func zero = omega arith
  length-present bus slot func (suc left) = ground (arith, length-present bus slot (func + 1) left)

  pub length-slot : (bus slot : ℕ) → length (slot_functions bus slot) ≤ 8
  unfolding slot_functions
  length-slot bus slot = ground (arith, length-present bus slot 0 8)

  pub slot-single :
      (bus slot : ℕ)
      → is_attached (at bus slot 0) ≡ true
      → is_single (byte config (at bus slot 0) 0x0e) ≡ true
      → slot_functions bus slot ≡ at bus slot 0 ∷ []
  unfolding slot_functions
  slot-single bus slot here single = rw (here, single) refl

  pub slot-several :
      (bus slot : ℕ)
      → is_attached (at bus slot 0) ≡ true
      → is_single (byte config (at bus slot 0) 0x0e) ≡ false
      → slot_functions bus slot ≡ at bus slot 0 ∷ present_functions bus slot 1 7
  unfolding slot_functions present_functions
  slot-several bus slot here single = rw (here, single) refl

  pub slot-absent :
      (bus slot : ℕ)
      → is_attached (at bus slot 0) ≡ false
      → slot_functions bus slot ≡ present_functions bus slot 1 7
  unfolding slot_functions present_functions
  slot-absent bus slot absent = rw absent refl

  pub length-bus : (bus slot left : ℕ) → length (bus_functions bus slot left) ≤ 8 * left
  unfolding bus_functions
  length-bus bus slot zero = omega arith
  length-bus bus slot (suc left) = omega (
    arith,
    length-append (slot_functions bus slot) (bus_functions bus (slot + 1) left),
    length-slot bus slot,
    length-bus bus (slot + 1) left,
  )

  pub length-attached : (bus left : ℕ) → length (attached bus left) ≤ 256 * left
  unfolding attached
  length-attached bus zero = omega arith
  length-attached bus (suc left) = omega (
    arith,
    length-append (bus_functions bus 0 32) (attached (bus + 1) left),
    length-bus bus 0 32,
    length-attached (bus + 1) left,
  )
