-- ===== src/Pci.antt =====
-- ASNU/src/PCI/pci.c and pci.h: configuration space by way of two ports. Commands are state monadic
-- over the devices of a bus. Log lines are left out.
pub mod Names
pub mod Reads
pub mod Find
pub mod Ends
pub mod Mmio
pub mod Space
pub mod Address
pub mod Listing
mod Tests
use terracotta_os.Prelude.{
  ℕ, zero, suc, ◌+◌, ◌-◌, ◌*◌, ◌/◌, ◌%◌, ◌^◌, bit_or, List, [], ◌∷◌, Bool, true, false, ◌&&◌, ◌||◌,
  Option, none, some, ltb, ◌==◌, if◌then◌else◌,
}
use terracotta_os.Io.{Bus}

-- `PciDevice_t`. `bar` has the entries 0 to 5; `class_type` is `class_code` under another type.
pub record PciDevice : Type 0 where
  pub bus : ℕ
  pub slot : ℕ
  pub function : ℕ
  pub vendor_id : ℕ
  pub device_id : ℕ
  pub command : ℕ
  pub status : ℕ
  pub revision_id : ℕ
  pub prog_if : ℕ
  pub subclass : ℕ
  pub class_code : ℕ
  pub class_type : ℕ
  pub cache_line_size : ℕ
  pub latency_timer : ℕ
  pub header_type_raw : ℕ
  pub header_type : ℕ
  pub bist : ℕ
  pub bar : ℕ → ℕ
  pub mmio_base : ℕ
  pub mmio_size : ℕ
  pub mmio_bar_index : ℕ
  pub is_64_bit : Bool
  pub cardbus_cis_pointer : ℕ
  pub subsystem_vendor_id : ℕ
  pub subsystem_id : ℕ
  pub expansion_rom_base_addr : ℕ
  pub capabilities_pointer : ℕ
  pub interrupt_line : ℕ
  pub interrupt_pin : ℕ
  pub min_grant : ℕ
  pub max_latency : ℕ

-- A function and a byte of its configuration space.
pub record Location : Type 0 where
  pub bus : ℕ
  pub slot : ℕ
  pub func : ℕ

abbrev pub at : ℕ → ℕ → ℕ → Location
at b s f = record { bus = b; slot = s; func = f }

abbrev pub location : PciDevice → Location
location dev = at dev.bus dev.slot dev.function

-- `(bus << 16) | (slot << 11) | (func << 8) | (offset & 0xFC) | 0x80000000`, for an offset below 256
pub address : Location → ℕ → ℕ
address l offset =
    bit_or
      (bit_or (bit_or (bit_or (l.bus * 2 ^ 16) (l.slot * 2 ^ 11)) (l.func * 2 ^ 8))
        (offset - offset % 4))
      0x8000_0000

infixl 5 ◌>>=◌
abbrev pub ◌>>=◌ : {D A B : Type 0} → (D → A × D) → (A → D → B × D) → D → B × D
(m >>= f) d = f (m d).0 (m d).1

abbrev pub pure : {D A : Type 0} → A → D → A × D
pure a d = (a, d)

abbrev pub Cmd : Bus → Type 0 → Type 0
Cmd b A = b.Devices → A × b.Devices

module _ (b : Bus) where
  open b use {Devices, outl, inl}

  pub pci_config_read_dword : Location → ℕ → Cmd b ℕ
  pci_config_read_dword l offset d = inl 0xcfc (outl 0xcf8 (address l offset) d)

  pub pci_config_read_byte : Location → ℕ → Cmd b ℕ
  pci_config_read_byte l offset d =
      let (tmp, d') = inl 0xcfc (outl 0xcf8 (address l offset) d) in
      (tmp / 2 ^ (offset % 4 * 8) % 0x100, d')

  -- `offset & 2` is 2 in the upper half of a double word.
  pub pci_config_read_word : Location → ℕ → Cmd b ℕ
  pci_config_read_word l offset d =
      let (tmp, d') = inl 0xcfc (outl 0xcf8 (address l offset) d) in
      (tmp / 2 ^ (offset % 4 / 2 * 2 * 8) % 0x1_0000, d')

  pub pci_config_write_dword : Location → ℕ → ℕ → Cmd b (Unit {0})
  pci_config_write_dword l offset value d = (tt, outl 0xcfc value (outl 0xcf8 (address l offset) d))

  pub pci_check_vendor : ℕ → ℕ → Cmd b ℕ
  pci_check_vendor bus slot = pci_config_read_word (at bus slot 0) 0

  -- The loop that reads the base addresses, from entry `i` on.
  pub read_bars : Location → ℕ → ℕ → (ℕ → ℕ) → Cmd b (ℕ → ℕ)
  read_bars l i zero bar d = (bar, d)
  read_bars l i (suc left) bar d =
      let (v, d') = pci_config_read_dword l (0x10 + i * 4) d in
      read_bars l (i + 1) left (λ j. if j == i then v else bar j) d'

  -- What `PciReadFullDevice` reads before and behind the base addresses.
  pub read_head : Location → Cmd b PciDevice
  read_head l = do
    vendor_id ← pci_config_read_word l 0x00
    device_id ← pci_config_read_word l 0x02
    command ← pci_config_read_word l 0x04
    status ← pci_config_read_word l 0x06
    revision_id ← pci_config_read_byte l 0x08
    prog_if ← pci_config_read_byte l 0x09
    subclass ← pci_config_read_byte l 0x0a
    class_code ← pci_config_read_byte l 0x0b
    cache_line_size ← pci_config_read_byte l 0x0c
    latency_timer ← pci_config_read_byte l 0x0d
    header_type_raw ← pci_config_read_byte l 0x0e
    bist ← pci_config_read_byte l 0x0f
    pure (record {
      bus = l.bus;
      slot = l.slot;
      function = l.func;
      vendor_id = vendor_id;
      device_id = device_id;
      command = command;
      status = status;
      revision_id = revision_id;
      prog_if = prog_if;
      subclass = subclass;
      class_code = class_code;
      class_type = class_code;
      cache_line_size = cache_line_size;
      latency_timer = latency_timer;
      header_type_raw = header_type_raw;
      header_type = header_type_raw % 0x80;
      bist = bist;
      bar = λ i. 0;
      mmio_base = 0;
      mmio_size = 0;
      mmio_bar_index = 0;
      is_64_bit = false;
      cardbus_cis_pointer = 0;
      subsystem_vendor_id = 0;
      subsystem_id = 0;
      expansion_rom_base_addr = 0;
      capabilities_pointer = 0;
      interrupt_line = 0;
      interrupt_pin = 0;
      min_grant = 0;
      max_latency = 0;
    })

  pub read_tail : Location → PciDevice → Cmd b PciDevice
  read_tail l dev = do
    cardbus_cis_pointer ← pci_config_read_dword l 0x28
    subsystem_vendor_id ← pci_config_read_word l 0x2c
    subsystem_id ← pci_config_read_word l 0x2e
    expansion_rom_base_addr ← pci_config_read_dword l 0x30
    capabilities_pointer ← pci_config_read_byte l 0x34
    interrupt_line ← pci_config_read_byte l 0x3c
    interrupt_pin ← pci_config_read_byte l 0x3d
    min_grant ← pci_config_read_byte l 0x3e
    max_latency ← pci_config_read_byte l 0x3f
    pure (record dev {
      cardbus_cis_pointer = cardbus_cis_pointer;
      subsystem_vendor_id = subsystem_vendor_id;
      subsystem_id = subsystem_id;
      expansion_rom_base_addr = expansion_rom_base_addr;
      capabilities_pointer = capabilities_pointer;
      interrupt_line = interrupt_line;
      interrupt_pin = interrupt_pin;
      min_grant = min_grant;
      max_latency = max_latency;
    })

  pub pci_read_full_device : Location → Cmd b PciDevice
  pci_read_full_device l = do
    dev ← read_head l
    bar ← read_bars l 0 6 dev.bar
    read_tail l (record dev { bar = bar })

  -- `PciDevice_t PCI_DEVICE_NONE` is `none` here.
  pub pci_find_device_by_location : Location → Cmd b (Option PciDevice)
  pci_find_device_by_location l = do
    vendor ← pci_config_read_word l 0x00
    if vendor == 0xffff then pure none else pci_read_full_device l >>= λ dev. pure (some dev)

  -- The loops over the functions, the slots and the buses that the two searches share; they differ in
  -- their test. A loop answers the device it returns, if it returns.
  pub scan_funcs : (Location → ℕ → Cmd b Bool) → ℕ → ℕ → ℕ → ℕ → Cmd b (Option PciDevice)
  scan_funcs test bus slot func zero d = (none, d)
  scan_funcs test bus slot func (suc left) d =
      let l = at bus slot func in
      let next = scan_funcs test bus slot (func + 1) left in
      (pci_config_read_word l 0x00 >>= λ v.
      if v == 0xffff
      then next
      else test l v >>= λ hit.
          if hit
          then (pci_read_full_device l >>= λ dev. pure (some dev))
          else if func == 0
          then pure none
          else next)
        d

  pub or_else : Option PciDevice → Cmd b (Option PciDevice) → Cmd b (Option PciDevice)
  or_else none next = next
  or_else (some dev) next = pure (some dev)

  pub scan_slots : (Location → ℕ → Cmd b Bool) → ℕ → ℕ → ℕ → Cmd b (Option PciDevice)
  scan_slots test bus slot zero d = (none, d)
  scan_slots test bus slot (suc left) d =
      let next = scan_slots test bus (slot + 1) left in
      (scan_funcs test bus slot 0 8 >>= λ r. or_else r next) d

  -- `bus` is a `uint8_t`, so that `bus < 256` always holds and 256 buses later the search is at the
  -- first one again. `fuel` is the number of buses that are searched.
  pub scan_buses : (Location → ℕ → Cmd b Bool) → ℕ → ℕ → Cmd b (Option PciDevice)
  scan_buses test bus zero d = (none, d)
  scan_buses test bus (suc fuel) d =
      let next = scan_buses test ((bus + 1) % 256) fuel in
      (scan_slots test bus 0 32 >>= λ r. or_else r next) d

  -- The two tests, given the vendor that has been read.
  pub has_id : ℕ → ℕ → Location → ℕ → Cmd b Bool
  has_id vendor device l v = do d ← pci_config_read_word l 0x02; pure (v == vendor && d == device)

  pub has_class : ℕ → ℕ → Location → ℕ → Cmd b Bool
  has_class class_code subclass l v = do
    cls ← pci_config_read_byte l 0x0b
    sub ← pci_config_read_byte l 0x0a
    pure (cls == class_code && (subclass == 0xff || sub == subclass))

  pub pci_find_device_by_id : ℕ → ℕ → ℕ → Cmd b (Option PciDevice)
  pci_find_device_by_id fuel vendor device = scan_buses (has_id vendor device) 0 fuel

  pub pci_find_device_by_class : ℕ → ℕ → ℕ → Cmd b (Option PciDevice)
  pci_find_device_by_class fuel class_code subclass =
      scan_buses (has_class class_code subclass) 0 fuel
