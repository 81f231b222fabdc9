-- ===== src/Xhci/Start.antt =====
-- The start of the host controller.
use native.Mathlib.Decide.{ℕ_discrete}
use terracotta_os.Prelude.{
  ◌⊎◌, inl, inr, ℕ, zero, suc, ◌+◌, ◌*◌, ◌^◌, ◌%◌, ◌<◌, ◌≡◌, refl, none, some, ==_ne, arith,
}
use terracotta_os.Io.{Bus}
use terracotta_os.Idt.Gate.{IsGate, idt_set_desc_lem}
use terracotta_os.Idt.{Table, idt_set_desc, idt_irq_clear_mask}
use terracotta_os.Xhci.{Mmio, Xhci, wait_status, stop_controller, start_controller, x_hci_init}
use terracotta_os.Xhci.Handler.{IsStarted}

module _ (b : Bus) (io : Mmio b) where
  -- The devices after `n` reads of a register, and what the next read answers.
  abbrev pub after : ℕ → ℕ → b.Devices → b.Devices
  after a zero d = d
  after a (suc n) d = after a n (io.read32 a d).1

  abbrev pub answer : ℕ → ℕ → b.Devices → ℕ
  answer a n d = (io.read32 a (after a n d)).0

  -- The wait ends if the bit is clear at some read.
  wait_status-ends :
      (fuel n : ℕ) (x : Xhci) (d : b.Devices)
      → n < fuel
      → answer (x.mmio_base + 4) n d % 2 ≡ 0
      → (d' : b.Devices) × (wait_status b io fuel x d ≡ some d')
  unfolding wait_status
  wait_status-ends zero n x d enough clear = absurd (omega arith)
  wait_status-ends (suc fuel) zero x d enough clear =
      ((io.read32 (x.mmio_base + 4) d).1, rw clear refl)
  wait_status-ends (suc fuel) (suc n) x d enough clear =
      elim (ℕ_discrete ((io.read32 (x.mmio_base + 4) d).0 % 2) 1) [
        | yes set ↦
            let (d', run) =
              wait_status-ends fuel n x (io.read32 (x.mmio_base + 4) d).1 (omega arith) clear in
            (d', rw set run)
        | no other ↦ ((io.read32 (x.mmio_base + 4) d).1, rw (==_ne _ _ other) refl)
      ]

  wait_status-never :
      (fuel : ℕ) (x : Xhci) (d : b.Devices)
      → ((d : b.Devices) → (io.read32 (x.mmio_base + 4) d).0 % 2 ≡ 1)
      → wait_status b io fuel x d ≡ none
  unfolding wait_status
  wait_status-never zero x d set = refl
  wait_status-never (suc fuel) x d set =
      rw (set d) (wait_status-never fuel x (io.read32 (x.mmio_base + 4) d).1 set)

  x_hci_init-never :
      (fuel base irq_line ring_at erst_at handler : ℕ) (x : Xhci) (idt : Table) (d : b.Devices)
      → ((d : b.Devices) → (io.read32 (base + 4) d).0 % 2 ≡ 1)
      → x_hci_init b io fuel base irq_line ring_at erst_at handler x idt d ≡ none
  unfolding x_hci_init stop_controller
  x_hci_init-never fuel base irq_line ring_at erst_at handler x idt d set =
      rw
        (wait_status-never fuel (stop_controller b io base irq_line x d).0
          (stop_controller b io base irq_line x d).1 set)
        refl

  -- If the bit is clear at the read `n` of the status, the controller is started with its ring at the
  -- first entry.
  pub x_hci_init-ends :
      (fuel n base irq_line ring_at erst_at handler : ℕ) (x : Xhci) (idt : Table) (d : b.Devices)
      → n < fuel
      → ring_at % 2 ≡ 0
      → answer (base + 4) n (stop_controller b io base irq_line x d).1 % 2 ≡ 0
      → (x' : Xhci) × (idt' : Table) × (d' : b.Devices) × (x_hci_init b io fuel base irq_line
            ring_at erst_at handler x idt d
          ≡ some (x', idt', d'))
        × IsStarted x'
        × (x'.irq_line ≡ irq_line)
        × (x'.mmio_base ≡ base)
        × (idt' ≡ idt_set_desc idt 0x51 handler 0x8e)
  unfolding x_hci_init stop_controller start_controller
  x_hci_init-ends fuel n base irq_line ring_at erst_at handler x idt d enough even clear =
      let stopped = stop_controller b io base irq_line x d in
      let (d₁, run) = wait_status-ends fuel n stopped.0 stopped.1 enough clear in
      (
        (start_controller b io ring_at erst_at stopped.0 d₁).0,
        idt_set_desc idt 0x51 handler 0x8e,
        idt_irq_clear_mask b 0x51 (start_controller b io ring_at erst_at stopped.0 d₁).1,
        rw run refl,
        record { aligned = even; first_round = refl; in_ring = omega arith },
        refl,
        refl,
        refl,
      )

-- The documented behaviour of the register four bytes behind the base, which `xHciInit` reads as the
-- status: there the capabilities of the controller have its numbers of device slots, interrupters and
-- ports, which do not change.
pub record HasParams (b : Bus) (io : Mmio b) (base : ℕ) : Type 0 where
  pub max_slots : ℕ
  pub max_intrs : ℕ
  pub max_ports : ℕ
  pub slots_byte : max_slots < 256
  pub answers :
      (d : b.Devices)
      → (io.read32 (base + 4) d).0 ≡ max_slots + max_intrs * 2 ^ 8 + max_ports * 2 ^ 24

module _ (b : Bus) (io : Mmio b) (fuel base irq_line ring_at erst_at handler : ℕ) where
  -- `xHciInit` returns, with the ring at its first entry, the line and the base of the device, and the
  -- gate of interrupt 0x51 for the handler.
  abbrev pub Starts : Xhci → Table → b.Devices → Type 0
  Starts x idt d =
      (x' : Xhci) × (idt' : Table) × (d' : b.Devices) × (x_hci_init b io fuel base irq_line ring_at
          erst_at handler x idt d
        ≡ some (x', idt', d'))
      × IsStarted x'
      × (x'.irq_line ≡ irq_line)
      × (x'.mmio_base ≡ base)
      × IsGate (idt' 0x51) handler

  -- On a controller of the documented behaviour, with a ring at an even address, a handler at a
  -- 64-bit one and a wait of at least one read, `xHciInit` returns after one read of the wait if
  -- the number of device slots is even, and the driver is started as `Starts` says. If the number
  -- is odd it does not return, however many reads the wait makes: the register that it waits for
  -- is not the status.
  pub x_hci_init_lem :
      (c : HasParams b io base)
      → (x : Xhci) → (idt : Table) → (d : b.Devices) → 0 < fuel
      → ring_at % 2 ≡ 0
      → handler < 2 ^ 64
      → ((c.max_slots % 2 ≡ 0) × Starts x idt d)
        ⊎ ((c.max_slots % 2 ≡ 1)
            × (x_hci_init b io fuel base irq_line ring_at erst_at handler x idt d ≡ none))
  x_hci_init_lem c x idt d enough even fits = elim (ℕ_discrete (c.max_slots % 2) 0) [
    | yes even_slots ↦
        let stopped = (stop_controller b io base irq_line x d).1 in
        let (x', idt', d', run, started, line, at_base, gates) =
          x_hci_init-ends b io fuel 0 base irq_line ring_at erst_at handler x idt d enough even
            (omega (arith, c.answers stopped)) in
        let (address, flags, cs, others) = idt_set_desc_lem idt 0x51 handler 0x8e fits in
        inl (even_slots, (x', idt', d', run, started, line, at_base, rw gates (address, flags)))
    | no other ↦
        let odd_slots : c.max_slots % 2 ≡ 1 = omega arith in
        inr (
          odd_slots,
          x_hci_init-never b io fuel base irq_line ring_at erst_at handler x idt d
              (λ d'. omega (arith, c.answers d')),
        )
  ]
