-- ===== src/Pci/Reads.antt =====
-- ASNU/src/PCI/pci.c: what the reads answer on a bus whose configuration space does not change while
-- they read it.
use terracotta_os.Prelude.{ℕ, ◌*◌, ◌/◌, ◌%◌, ◌^◌, ◌≡◌, ap}
use terracotta_os.Io.{Bus}
use terracotta_os.Pci.{
  Location, address, pci_config_read_word, pci_config_read_byte, read_head, read_tail,
  pci_read_full_device,
}

-- A read of the data port behind a write of an address answers what `config` has there.
abbrev pub Answers : Bus → (ℕ → ℕ) → Type 0
Answers b config = (a : ℕ) → (d : b.Devices) → (b.inl 0xcfc (b.outl 0xcf8 a d)).0 ≡ config a

-- The word and the byte of a configuration space at an offset.
abbrev pub word : (ℕ → ℕ) → Location → ℕ → ℕ
word config l o = config (address l o) / 2 ^ (o % 4 / 2 * 2 * 8) % 0x1_0000

abbrev pub byte : (ℕ → ℕ) → Location → ℕ → ℕ
byte config l o = config (address l o) / 2 ^ (o % 4 * 8) % 0x100

module _ (b : Bus) (config : ℕ → ℕ) (h : Answers b config) where
  pub read_word-word :
      (l : Location)
      → (o : ℕ) → (d : b.Devices) → (pci_config_read_word b l o d).0 ≡ word config l o
  unfolding pci_config_read_word
  read_word-word l o d = ap (λ x. x / 2 ^ (o % 4 / 2 * 2 * 8) % 0x1_0000) (h (address l o) d)

  pub read_byte-byte :
      (l : Location)
      → (o : ℕ) → (d : b.Devices) → (pci_config_read_byte b l o d).0 ≡ byte config l o
  unfolding pci_config_read_byte
  read_byte-byte l o d = ap (λ x. x / 2 ^ (o % 4 * 8) % 0x100) (h (address l o) d)

  pub full-vendor_id :
      (l : Location) → (d : b.Devices) → (pci_read_full_device b l d).0.vendor_id ≡ word config l 0
  unfolding pci_read_full_device read_head read_tail
  full-vendor_id l d = read_word-word l 0 _

  pub full-class_code :
      (l : Location)
      → (d : b.Devices) → (pci_read_full_device b l d).0.class_code ≡ byte config l 0x0b
  unfolding pci_read_full_device read_head read_tail
  full-class_code l d = read_byte-byte l 0x0b _

  pub full-subclass :
      (l : Location)
      → (d : b.Devices) → (pci_read_full_device b l d).0.subclass ≡ byte config l 0x0a
  unfolding pci_read_full_device read_head read_tail
  full-subclass l d = read_byte-byte l 0x0a _

  pub full-device_id :
      (l : Location) → (d : b.Devices) → (pci_read_full_device b l d).0.device_id ≡ word config l 2
  unfolding pci_read_full_device read_head read_tail
  full-device_id l d = read_word-word l 2 _
