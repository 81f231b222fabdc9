-- ===== src/Xhci.antt =====
-- ASNU/src/Drivers/XHCI/driver.c: the USB host controller. Log lines are left out, except the two that
-- tell what kind of device was seen, since a flag is set there.
-- The memory-mapped registers, `KiMMap` and `KiPicSendEoi` are parameters: the last two are not in the
-- repository. The event ring is written by the controller, so that it is an argument.
pub mod Handler
pub mod Start
mod Tests
use terracotta_os.Prelude.{
  ℕ, zero, suc, ◌+◌, ◌-◌, ◌*◌, ◌/◌, ◌%◌, ◌^◌, bit_or, bit_xor, Bool, true, false, ◌||◌, Option,
  none, some, ltb, ◌==◌, not, if◌then◌else◌,
}
use terracotta_os.Prelude.Options.{◌>>=◌}
use terracotta_os.Io.{Bus}
use terracotta_os.Idt.{Table, idt_set_desc, idt_irq_clear_mask}

-- The registers of a device in memory, and the two functions that the repository only calls.
pub record Mmio (b : Bus) : Type 0 where
  pub read8 : ℕ → b.Devices → ℕ × b.Devices
  pub read32 : ℕ → b.Devices → ℕ × b.Devices
  pub write32 : ℕ → ℕ → b.Devices → b.Devices
  pub ki_mmap : ℕ → ℕ → ℕ → b.Devices → b.Devices
  pub ki_pic_send_eoi : ℕ → b.Devices → b.Devices

-- `XHCI_TRB_RING_SIZE` and `XHCI_PORT_COUNT`
abbrev pub trb_ring_size : ℕ
trb_ring_size = 16

abbrev pub port_count : ℕ
port_count = 8

-- The statics of the driver. The entries of `EventRing.ring` are an argument of the handler.
pub record Xhci : Type 0 where
  pub mmio_base : ℕ
  pub runtime_base : ℕ
  pub doorbell_base : ℕ
  pub irq_line : ℕ
  pub phys : ℕ
  pub cycle : ℕ
  pub index : ℕ
  pub ring_segment_base_address : ℕ
  pub ring_segment_size : ℕ
  pub have_keyboard : Bool
  pub have_mouse : Bool

-- The 64-bit word number `k` of `EventRing`: behind the sixteen entries lie `phys` and `cycle`, with
-- zeros up to the next word, and then `index`.
unfoldable pub ring_word : (ℕ → ℕ) → Xhci → ℕ → ℕ
ring_word ring x k =
    if ltb k trb_ring_size
    then ring k
    else if k == 16
    then x.phys
    else if k == 17
    then x.cycle
    else x.index

-- How the handler goes on from an event: it returns at once, or ends the event.
pub data Step : Type 0 where
  leaves : Step
  finishes : Xhci → Step

-- A device at a port that is connected.
pub attach : ℕ → Xhci → Step
attach speed x =
    if speed == 3
    then if x.have_keyboard then leaves else finishes (record x { have_keyboard = true })
    else if speed == 2
    then if x.have_mouse then leaves else finishes (record x { have_mouse = true })
    else finishes x

-- The end of an event: the next entry, with the other cycle when the ring starts again.
pub advance : Xhci → Xhci
advance x =
    let next = (x.index + 1) % trb_ring_size in
    record x { index = next; cycle = if next == 0 then bit_xor x.cycle 1 else x.cycle }

module _ (b : Bus) (io : Mmio b) where
  open b use {Devices}
  open io use {read8, read32, write32, ki_mmap, ki_pic_send_eoi}

  -- `reg[0] |= bit`
  pub set_register : ℕ → ℕ → Devices → Devices
  set_register a bit d = let (v, d) = read32 a d in write32 a (bit_or v bit) d

  -- `TRB_TYPE_PORT_STATUS_CHANGE`
  pub port_status_change : ℕ → Xhci → Devices → Step × Devices
  port_status_change trb0 x d =
      let port_id = trb0 / 2 ^ 24 % 256 in
      let (portsc, d') = read32 (x.mmio_base + (0x400 + (port_id - 1) * 0x10)) d in
      if ltb port_id 1 || ltb port_count port_id
      then (leaves, d)
      else if portsc % 2 == 1
      then (attach (portsc / 2 ^ 10 % 16) x, d')
      else (finishes x, d')

  -- What `XhciIrqHandler` does for an entry, by its type.
  pub take_event : (ℕ → ℕ) → Xhci → Devices → Step × Devices
  take_event ring x d =
      if ring_word ring x (x.index + 2) / 2 ^ 10 % 64 == 0x20
      then port_status_change (ring_word ring x x.index) x d
      else (finishes x, d)

  pub finish_event : Step → Xhci → Devices → Xhci × Devices
  finish_event leaves x d = (x, d)
  finish_event (finishes x') x d =
      (advance x', ki_pic_send_eoi x'.irq_line (set_register (x'.runtime_base + 0x20) 1 d))

  -- `XhciIrqHandler`
  pub xhci_irq_handler : (ℕ → ℕ) → Xhci → Devices → Xhci × Devices
  xhci_irq_handler ring x d =
      if ring_word ring x (x.index + 2) % 2 == x.cycle
      then (let (step, d) = take_event ring x d in finish_event step x d)
      else (x, d)

  -- `while (MmioRead32(XHCI_USBSTS) & 1);`
  pub wait_status : (fuel : ℕ) → Xhci → Devices → Option Devices
  wait_status zero x d = none
  wait_status (suc fuel) x d =
      let (status, d) = read32 (x.mmio_base + 4) d in
      let rest = wait_status fuel x d in if status % 2 == 1 then rest else some d

  -- The loop that maps sixteen pages, with `left` of them to go.
  pub map_registers : ℕ → ℕ → Devices → Devices
  map_registers addr zero d = d
  map_registers addr (suc left) d = map_registers (addr + 0x1000) left (ki_mmap addr addr 3 d)

  -- `xHciInit` up to the wait: what is read of the controller, and the command to stop.
  pub stop_controller : (mmio_base irq_line : ℕ) → Xhci → Devices → Xhci × Devices
  stop_controller base irq_line x d =
      let d = map_registers base 16 d in
      let (cap_length, d) = read8 base d in
      let (dboff, d) = read32 (base + 0x14) d in
      let (rtsoff, d) = read32 (base + 0x18) d in
      let (command, d) = read32 base d in
      (
        record x {
          mmio_base = base;
          irq_line = irq_line;
          runtime_base = base + (rtsoff - rtsoff % 0x20);
          doorbell_base = base + (dboff - dboff % 4);
        },
        write32 base (command - command % 2) d,
      )

  -- Behind the wait: the ring, the interrupter and the command to run. `ring_at` and `erst_at` are the
  -- addresses of `EventRing` and `ErstTable`.
  pub start_controller : (ring_at erst_at : ℕ) → Xhci → Devices → Xhci × Devices
  start_controller ring_at erst_at x d =
      let interrupter = x.runtime_base + 0x20 in
      let d = write32 interrupter (erst_at % 2 ^ 32) d in
      let d = write32 (interrupter + 4) (erst_at / 2 ^ 32 % 2 ^ 32) d in
      let d = set_register interrupter 2 (write32 (interrupter + 8) 1 d) in
      let d = write32 (x.mmio_base + 0x34) 0 (write32 (x.mmio_base + 0x30) 0 d) in
      (
        record x {
          phys = ring_at;
          cycle = 1;
          index = 0;
          ring_segment_base_address = ring_at;
          ring_segment_size = trb_ring_size;
        },
        set_register x.mmio_base 1 (write32 (x.mmio_base + 0x38) 1 d),
      )

  -- `xHciInit`; `handler` is the address of `XhciIrqHandler`.
  pub x_hci_init :
      (fuel mmio_base irq_line ring_at erst_at handler : ℕ)
      → Xhci
      → Table
      → Devices
      → Option (Xhci × Table × Devices)
  x_hci_init fuel mmio_base irq_line ring_at erst_at handler x idt d = do
    let (x, d) = stop_controller mmio_base irq_line x d
    d ← wait_status fuel x d
    let (x, d) = start_controller ring_at erst_at x d
    some (x, idt_set_desc idt 0x51 handler 0x8e, idt_irq_clear_mask b 0x51 d)
