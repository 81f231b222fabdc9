-- ===== src/Pci/Listing.antt =====
-- ASNU/src/PCI/pci.c: `PciLogDeviceInfo` and `PciListDevicesAttached`.
-- A call of `printk` is a value with the arguments that follow its format.
pub mod Spec
pub mod Lists
pub mod Slots
pub mod Attached
use Prim.Native.String.{String}
use terracotta_os.Prelude.{
  ℕ, zero, suc, ◌+◌, ◌/◌, ◌%◌, List, [], ◌∷◌, ◌++◌, Bool, true, false, not, ◌&&◌, Option, none,
  some, ltb, ◌==◌, if◌then◌else◌,
}
use terracotta_os.Word.{u32_mod}
use terracotta_os.Io.{Bus}
use terracotta_os.Pci.{
  PciDevice, Location, at, Cmd, ◌>>=◌, pure, pci_config_read_word, pci_read_full_device,
}
use terracotta_os.Pci.Names.{manufacturer, device_name}
use terracotta_os.Pci.Mmio.{pci_get_device_mmio_region}

-- The five formats of the two functions.
pub data Printk : Type 0 where
  identity : (vendor_name : String) (vendor_id : ℕ) (name : String) (wide : Bool) → Printk
  place : (class_code subclass bus slot function : ℕ) → Printk
  region : (base size index : ℕ) → Printk
  no_region : Printk
  coverage : (found total_possible : ℕ) → Printk

pub pci_log_device_info : PciDevice → List Printk
pci_log_device_info dev =
    identity (manufacturer dev.vendor_id) dev.vendor_id (device_name dev.vendor_id dev.device_id)
      dev.is_64_bit
    ∷ place dev.class_code dev.subclass dev.bus dev.slot dev.function
    ∷ (if not (dev.mmio_base == 0) && ltb 0 dev.mmio_size
        then region dev.mmio_base dev.mmio_size dev.mmio_bar_index
        else no_region)
    ∷ []

-- `8 * 32 * 8`
abbrev pub total_possible : ℕ
total_possible = 2048

-- `found` and the calls of `printk`.
abbrev pub Listing : Type 0
Listing = ℕ × List Printk

abbrev pub prepend : List Printk → Listing → Listing
prepend lines (found, more) = (found, lines ++ more)

-- `!(dev.header_type_raw & 0x80)`
abbrev pub is_single : ℕ → Bool
is_single header_type_raw = header_type_raw / 0x80 % 2 == 0

module _ (b : Bus) where
  -- What the innermost loop does with a function that is there; `next` are its later rounds.
  pub list_device : Location → ℕ → (ℕ → Cmd b Listing) → PciDevice → Cmd b Listing
  list_device l found next dev d =
      let found' = (found + 1) % u32_mod in
      let more = next found' in
      let lines = pci_log_device_info dev in
      (if l.func == 0 && is_single dev.header_type_raw
          then pure (found', lines)
          else more >>= λ r. pure (prepend (lines ++ coverage found' total_possible ∷ []) r))
        d

  pub list_funcs : ℕ → ℕ → ℕ → ℕ → ℕ → Cmd b Listing
  list_funcs bus slot func zero found d = ((found, []), d)
  list_funcs bus slot func (suc left) found d =
      let l = at bus slot func in
      let next = λ (n : ℕ). list_funcs bus slot (func + 1) left n in
      (pci_config_read_word b l 0x00 >>= λ vendor.
      if vendor == 0xffff
      then next found
      else pci_read_full_device b l >>= λ dev.
          pci_get_device_mmio_region b dev >>= λ dev'. list_device l found next dev')
        d

  pub go_on : (ℕ → Cmd b Listing) → Listing → Cmd b Listing
  go_on next (found, lines) = next found >>= λ r. pure (prepend lines r)

  pub list_slots : ℕ → ℕ → ℕ → ℕ → Cmd b Listing
  list_slots bus slot zero found d = ((found, []), d)
  list_slots bus slot (suc left) found d =
      let next = λ (n : ℕ). list_slots bus (slot + 1) left n in
      (list_funcs bus slot 0 8 found >>= go_on next) d

  pub list_buses : ℕ → ℕ → ℕ → Cmd b Listing
  list_buses bus zero found d = ((found, []), d)
  list_buses bus (suc left) found d =
      let next = λ (n : ℕ). list_buses (bus + 1) left n in
      (list_slots bus 0 32 found >>= go_on next) d

  pub pci_list_devices_attached : Cmd b Listing
  pci_list_devices_attached = list_buses 0 8 0
