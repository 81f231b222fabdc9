-- ===== src/Pci/Space.antt =====
-- ASNU/src/PCI/pci.c: a bus whose configuration space is written as well as read, and what the
-- accesses do to it.
use terracotta_os.Prelude.{
  ℕ, zero, suc, ◌+◌, ◌*◌, ◌/◌, ◌%◌, ◌^◌, ◌<◌, ◌≡◌, refl, ap, sym, ◌∙◌, ◌==◌, if◌then◌else◌, arith,
}
use terracotta_os.Io.{Bus}
use terracotta_os.Pci.Reads.{byte}
use terracotta_os.Pci.{
  PciDevice, Location, location, address, pci_config_read_dword, pci_config_read_word,
  pci_config_read_byte, pci_config_write_dword, read_bars, read_head, read_tail,
  pci_read_full_device,
}

-- The address of base address `i` of a function.
abbrev pub bar_at : Location → ℕ → ℕ
bar_at l i = address l (0x10 + i * 4)

-- What the searches of `PciGetDeviceMMIORegion` rely on. `config d` is the configuration space by
-- address, and `stored a v` what the base address at `a` keeps of `v`, since some of its bits are
-- fixed. Reads leave the space alone; a write of a base address stores it and leaves the rest alone;
-- and a base address that is written what it holds keeps it.
pub record Space (b : Bus) : Type 0 where
  pub config : b.Devices → ℕ → ℕ
  pub stored : ℕ → ℕ → ℕ
  pub answers : (a : ℕ) → (d : b.Devices) → (b.inl 0xcfc (b.outl 0xcf8 a d)).0 ≡ config d a
  pub read_keeps :
      (a x : ℕ) → (d : b.Devices) → config (b.inl 0xcfc (b.outl 0xcf8 a d)).1 x ≡ config d x
  pub write_stores :
      (l : Location)
      → (i v x : ℕ) → (d : b.Devices) → i < 6
      → config (b.outl 0xcfc v (b.outl 0xcf8 (bar_at l i) d)) x
        ≡ (if x == bar_at l i then stored (bar_at l i) v else config d x)
  pub held_again :
      (l : Location)
      → (i : ℕ) → (d : b.Devices) → i < 6
      → stored (bar_at l i) (config d (bar_at l i)) ≡ config d (bar_at l i)

module _ (b : Bus) (c : Space b) where
  pub read_dword-config :
      (l : Location)
      → (o : ℕ) → (d : b.Devices) → (pci_config_read_dword b l o d).0 ≡ c.config d (address l o)
  unfolding pci_config_read_dword
  read_dword-config l o d = c.answers (address l o) d

  pub read_word-config :
      (l : Location)
      → (o : ℕ) → (d : b.Devices)
      → (pci_config_read_word b l o d).0
        ≡ c.config d (address l o) / 2 ^ (o % 4 / 2 * 2 * 8) % 0x1_0000
  unfolding pci_config_read_word
  read_word-config l o d =
      ap (λ x. x / 2 ^ (o % 4 / 2 * 2 * 8) % 0x1_0000) (c.answers (address l o) d)

  pub read_byte-config :
      (l : Location)
      → (o : ℕ) → (d : b.Devices)
      → (pci_config_read_byte b l o d).0 ≡ c.config d (address l o) / 2 ^ (o % 4 * 8) % 0x100
  unfolding pci_config_read_byte
  read_byte-config l o d = ap (λ x. x / 2 ^ (o % 4 * 8) % 0x100) (c.answers (address l o) d)

  pub read_dword-keeps :
      (l : Location)
      → (o x : ℕ) → (d : b.Devices) → c.config (pci_config_read_dword b l o d).1 x ≡ c.config d x
  unfolding pci_config_read_dword
  read_dword-keeps l o x d = c.read_keeps (address l o) x d

  pub read_word-keeps :
      (l : Location)
      → (o x : ℕ) → (d : b.Devices) → c.config (pci_config_read_word b l o d).1 x ≡ c.config d x
  unfolding pci_config_read_word
  read_word-keeps l o x d = c.read_keeps (address l o) x d

  pub read_byte-keeps :
      (l : Location)
      → (o x : ℕ) → (d : b.Devices) → c.config (pci_config_read_byte b l o d).1 x ≡ c.config d x
  unfolding pci_config_read_byte
  read_byte-keeps l o x d = c.read_keeps (address l o) x d

  pub write_dword-stores :
      (l : Location)
      → (i v x : ℕ) → (d : b.Devices) → i < 6
      → c.config (pci_config_write_dword b l (0x10 + i * 4) v d).1 x
        ≡ (if x == bar_at l i then c.stored (bar_at l i) v else c.config d x)
  unfolding pci_config_write_dword
  write_dword-stores l i v x d h = c.write_stores l i v x d h

  read_bars-keeps :
      (l : Location)
      → (i left : ℕ) → (bar : ℕ → ℕ) → (x : ℕ) → (d : b.Devices)
      → c.config (read_bars b l i left bar d).1 x ≡ c.config d x
  unfolding read_bars
  read_bars-keeps l i zero bar x d = refl
  read_bars-keeps l i (suc left) bar x d =
      read_bars-keeps l (i + 1) left _ x _ ∙ read_dword-keeps l (0x10 + i * 4) x d

  pub full_device-keeps :
      (l : Location)
      → (x : ℕ) → (d : b.Devices) → c.config (pci_read_full_device b l d).1 x ≡ c.config d x
  unfolding pci_read_full_device read_head read_tail
  full_device-keeps l x d =
      simp (read_bars-keeps, read_word-keeps, read_byte-keeps, read_dword-keeps)

  -- The base addresses that the loop reads.
  read_bars-config :
      (l : Location)
      → (i left : ℕ) → (bar : ℕ → ℕ) → (d : b.Devices) → (j : ℕ) → j < i + left
      → (j < i → bar j ≡ c.config d (bar_at l j))
      → (read_bars b l i left bar d).0 j ≡ c.config d (bar_at l j)
  unfolding read_bars
  read_bars-config l i zero bar d j h before = before (omega arith)
  read_bars-config l i (suc left) bar d j h before =
      let kept = read_dword-keeps l (0x10 + i * 4) (bar_at l j) d in
      read_bars-config l (i + 1) left _ _ j (omega arith)
        (λ h'. ground (arith, kept, read_dword-config l (0x10 + i * 4) d, before))
      ∙ kept

  -- The base addresses of a structure are those that its function holds.
  abbrev pub HasBars : PciDevice → b.Devices → Type 0
  HasBars dev d = (j : ℕ) → j < 6 → dev.bar j ≡ c.config d (bar_at (location dev) j)

  pub full_device-location :
      (l : Location) → (d : b.Devices) → location (pci_read_full_device b l d).0 ≡ l
  unfolding pci_read_full_device read_head read_tail
  full_device-location l d = refl

  pub full_device-bar :
      (l : Location)
      → (d : b.Devices) → (j : ℕ) → j < 6
      → (pci_read_full_device b l d).0.bar j ≡ c.config d (bar_at l j)
  unfolding pci_read_full_device read_head read_tail
  full_device-bar l d j h =
      read_bars-config l 0 6 _ _ j h (λ h'. absurd (omega arith))
      ∙ simp (read_word-keeps, read_byte-keeps)

  pub full_device-HasBars :
      (l : Location)
      → (d : b.Devices) → HasBars (pci_read_full_device b l d).0 (pci_read_full_device b l d).1
  full_device-HasBars l d j h =
      full_device-bar l d j h
      ∙ sym (rw (full_device-location l d) (full_device-keeps l (bar_at l j) d))

  pub full_device-header_type_raw :
      (l : Location)
      → (d : b.Devices) → (pci_read_full_device b l d).0.header_type_raw ≡ byte (c.config d) l 0x0e
  unfolding pci_read_full_device read_head read_tail
  full_device-header_type_raw l d =
      read_byte-config l 0x0e _ ∙ simp (read_word-keeps, read_byte-keeps)
