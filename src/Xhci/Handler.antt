-- ===== src/Xhci/Handler.antt =====
-- What the interrupt handler of the host controller does with the event ring.
use mathlib.Core.Path.{subst}
use native.Mathlib.Decide.{ℕ_discrete}
use terracotta_os.Prelude.{
  ℕ, suc, ◌+◌, ◌-◌, ◌*◌, ◌/◌, ◌%◌, ◌^◌, ◌<◌, ◌≤◌, ◌≡◌, ◌≢◌, refl, ap, sym, ◌∙◌, Bool, true, false,
  ◌||◌, ltb, ◌==◌, ==_ne, if◌then◌else◌, arith,
}
use terracotta_os.Io.{Bus}
use terracotta_os.Xhci.{
  Mmio, Xhci, ring_word, Step, leaves, finishes, attach, advance, port_status_change, take_event,
  finish_event, xhci_irq_handler, port_count,
}

-- The state of the event ring from the start of the controller on.
pub record IsStarted (x : Xhci) : Type 0 where
  pub aligned : x.phys % 2 ≡ 0
  pub first_round : x.cycle ≡ 1
  pub in_ring : x.index ≤ 14

-- An event may set a flag and changes nothing else.
abbrev SameRing : Xhci → Step → Type 0
SameRing x leaves = Unit
SameRing x (finishes x') = (x'.phys ≡ x.phys) × (x'.cycle ≡ x.cycle) × (x'.index ≡ x.index)

-- A property of both branches holds of a test of any outcome.
if_both {ℓ κ} :
    {A : Type ℓ} (P : A → Type κ) (test : Bool) (yes_case no_case : A)
    → P yes_case
    → P no_case
    → P (if test then yes_case else no_case)
if_both P true yes_case no_case h h' = h
if_both P false yes_case no_case h h' = h'

attach-SameRing : (speed : ℕ) (x : Xhci) → SameRing x (attach speed x)
unfolding attach
attach-SameRing speed x =
    if_both (SameRing x) (speed == 3) _ _
      (if_both (SameRing x) x.have_keyboard _ _ tt (refl, refl, refl))
      (if_both (SameRing x) (speed == 2) _ _
        (if_both (SameRing x) x.have_mouse _ _ tt (refl, refl, refl)) (refl, refl, refl))

module _ (b : Bus) (io : Mmio b) where
  port_status_change-SameRing :
      (trb0 : ℕ) (x : Xhci) (d : b.Devices) → SameRing x (port_status_change b io trb0 x d).0
  unfolding port_status_change
  port_status_change-SameRing trb0 x d =
      let port_id = trb0 / 2 ^ 24 % 256 in
      let r = io.read32 (x.mmio_base + (0x400 + (port_id - 1) * 0x10)) d in
      let no_port : Step × b.Devices = (leaves, d) in
      let attached : Step × b.Devices = (attach (r.0 / 2 ^ 10 % 16) x, r.1) in
      let detached : Step × b.Devices = (finishes x, r.1) in
      if_both (λ (r : Step × b.Devices). SameRing x r.0) (ltb port_id 1 || ltb port_count port_id)
        no_port (if r.0 % 2 == 1 then attached else detached) tt
        (if_both (λ (r : Step × b.Devices). SameRing x r.0) (r.0 % 2 == 1) attached detached
          (attach-SameRing (r.0 / 2 ^ 10 % 16) x) (refl, refl, refl))

  take_event-SameRing :
      (ring : ℕ → ℕ) (x : Xhci) (d : b.Devices) → SameRing x (take_event b io ring x d).0
  unfolding take_event
  take_event-SameRing ring x d =
      if_both (λ (r : Step × b.Devices). SameRing x r.0)
        (ring_word ring x (x.index + 2) / 2 ^ 10 % 64 == 0x20) _ _
        (port_status_change-SameRing (ring_word ring x x.index) x d) (refl, refl, refl)

  finish_event-IsStarted :
      (step : Step) (x : Xhci) (d : b.Devices)
      → IsStarted x
      → x.index ≢ 14
      → SameRing x step
      → IsStarted (finish_event b io step x d).0
  unfolding finish_event advance
  finish_event-IsStarted leaves x d v ne same = v
  finish_event-IsStarted (finishes x') x d v ne (phys, cycle, index) =
      let bound = v.in_ring in
      let next : (x'.index + 1) % 16 ≡ x.index + 1 = omega arith in
      record {
        aligned = ap (λ p. p % 2) phys ∙ v.aligned;
        first_round = rw (next, ==_ne (x.index + 1) 0 (omega arith)) (cycle ∙ v.first_round);
        in_ring = omega arith;
      }

  -- At the entry 14 the handler looks at the word behind the ring, which is its own address.
  pub xhci_irq_handler-deaf :
      (ring : ℕ → ℕ) (x : Xhci) (d : b.Devices)
      → IsStarted x
      → x.index ≡ 14
      → xhci_irq_handler b io ring x d ≡ (x, d)
  unfolding xhci_irq_handler ring_word
  xhci_irq_handler-deaf ring x d v e = let a = v.aligned in rw (e, v.first_round, v.aligned) refl

  working :
      (ring : ℕ → ℕ) (x : Xhci) (d : b.Devices)
      → IsStarted x
      → x.index ≢ 14
      → IsStarted (xhci_irq_handler b io ring x d).0
  unfolding xhci_irq_handler
  working ring x d v ne =
      if_both (λ (r : Xhci × b.Devices). IsStarted r.0)
        (ring_word ring x (x.index + 2) % 2 == x.cycle) _ _
        (finish_event-IsStarted (take_event b io ring x d).0 x (take_event b io ring x d).1 v ne
          (take_event-SameRing ring x d))
        v

  -- From the start of the controller on, with the ring at an even address, the handler keeps the
  -- index of the ring at 14 or below and the cycle at 1, whatever the controller writes into the
  -- ring and whatever its registers answer.
  pub xhci_irq_handler-IsStarted :
      (ring : ℕ → ℕ) (x : Xhci) (d : b.Devices)
      → IsStarted x
      → IsStarted (xhci_irq_handler b io ring x d).0
  xhci_irq_handler-IsStarted ring x d v = elim (ℕ_discrete x.index 14) [
    | yes e ↦ subst (λ r. IsStarted r.0) (sym (xhci_irq_handler-deaf ring x d v e)) v
    | no ne ↦ working ring x d v ne
  ]

  -- While a keyboard is known, the event of another one is not taken off the ring, and the end of the
  -- interrupt is not sent.
  pub xhci_irq_handler-second :
      (ring : ℕ → ℕ) (x : Xhci) (d : b.Devices) (port : ℕ)
      → x.index < 14
      → x.have_keyboard ≡ true
      → ring (x.index + 2) % 2 ≡ x.cycle
      → ring (x.index + 2) / 2 ^ 10 % 64 ≡ 0x20
      → ring x.index / 2 ^ 24 % 256 ≡ suc port
      → port < 8
      → (io.read32 (x.mmio_base + (0x400 + port * 0x10)) d).0 % 2 ≡ 1
      → (io.read32 (x.mmio_base + (0x400 + port * 0x10)) d).0 / 2 ^ 10 % 16 ≡ 3
      → xhci_irq_handler b io ring x d ≡ (x, (io.read32 (x.mmio_base + (0x400 + port * 0x10)) d).1)
  unfolding xhci_irq_handler take_event port_status_change attach ring_word finish_event
  xhci_irq_handler-second ring x d port small have cycle kind id in_range connected speed =
      let here : ltb (x.index + 2) 16 ≡ true = ground arith in
      let here' : ltb x.index 16 ≡ true = ground arith in
      let lo : ltb (suc port) 1 ≡ false = ground arith in
      let hi : ltb 8 (suc port) ≡ false = ground arith in
      let back : suc port - 1 ≡ port = omega arith in
      let same : (x.cycle == x.cycle) ≡ true = ground arith in
      rw (here, cycle, same, kind, here', id, lo, hi, back, connected, speed, have) refl
