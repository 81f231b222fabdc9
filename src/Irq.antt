-- ===== src/Irq.antt =====
-- The interrupts of the timer and of the keyboard as they arrive: ASNU/src/Drivers/PIT/driver.c and
-- ASNU/src/IDT/idt.c with the interrupt controller in between, from the moment that the kernel waits.
-- The gates are interrupt gates, so that a handler is not interrupted.
pub mod Deaf
pub mod Typed
mod Tests
use terracotta_os.Prelude.{
  ℕ, ◌<◌, ◌≡◌, ◌≢◌, Bool, true, false, not, ◌&&◌, ◌||◌, ◌==◌, if◌then◌else◌,
}
use terracotta_os.Io.{Bus}
use terracotta_os.Keyboard.{Keyboard}
use terracotta_os.Idt.{pic1_command, idt_keyboard_handler}
use terracotta_os.Sched.{Sched, Control}
use terracotta_os.Sched.Data.{RegisterState}
use terracotta_os.Pit.{Pit, pit_handler}

-- The documented behaviour of the first controller on its lines 0 and 1. A line is put in service when
-- it is delivered. The command 0x20 on port 0x20 ends the service of the first line in service. Other
-- ports do not put a line in service or end its service, and the mask is changed by writes alone.
pub record HasPic (b : Bus) : Type 0 where
  pub in_service : b.Devices → ℕ → Bool
  pub masked : b.Devices → ℕ → Bool
  pub deliver : ℕ → b.Devices → b.Devices
  pub deliver_sets : (line : ℕ) (d : b.Devices) → line < 2 → in_service (deliver line d) line ≡ true
  pub deliver_others :
      (line j : ℕ) (d : b.Devices)
      → line < 2
      → j ≢ line
      → in_service (deliver line d) j ≡ in_service d j
  pub ends_first :
      (d : b.Devices)
      → in_service d 0 ≡ true
      → (in_service (b.outb pic1_command 0x20 d) 0 ≡ false)
        × (in_service (b.outb pic1_command 0x20 d) 1 ≡ in_service d 1)
  pub ends_second :
      (d : b.Devices)
      → in_service d 0 ≡ false
      → (in_service (b.outb pic1_command 0x20 d) 0 ≡ false)
        × (in_service (b.outb pic1_command 0x20 d) 1 ≡ false)
  pub out_keeps :
      (port v j : ℕ) (d : b.Devices)
      → port ≢ pic1_command
      → in_service (b.outb port v d) j ≡ in_service d j
  pub in_keeps : (port j : ℕ) (d : b.Devices) → in_service (b.inb port d).1 j ≡ in_service d j
  pub masked_deliver : (line j : ℕ) (d : b.Devices) → masked (deliver line d) j ≡ masked d j
  pub masked_end : (j : ℕ) (d : b.Devices) → masked (b.outb pic1_command 0x20 d) j ≡ masked d j
  pub masked_in : (port j : ℕ) (d : b.Devices) → masked (b.inb port d).1 j ≡ masked d j

-- An interrupt that a device asks for, with what the registers hold when a tick arrives.
pub data Event : Type 0 where
  tick : RegisterState → Event
  key : Event

-- The states of the parts that the two handlers change.
pub record System (b : Bus) : Type 0 where
  pub pit : Pit
  pub sched : Sched
  pub keyboard : Keyboard
  pub devices : b.Devices

module _ (b : Bus) (c : HasPic b) where
  -- `pit_handler` on delivery, with what the registers hold then.
  unfoldable pub on_timer : System b → RegisterState → Control × System b
  on_timer s cpu =
      let (control, pit, sched, d) = pit_handler b s.pit s.sched cpu (c.deliver 0 s.devices) in
      (control, record s { pit = pit; sched = sched; devices = d })

  -- `idt_keyboard_handler` on delivery
  unfoldable pub on_keyboard : System b → System b
  on_keyboard s =
      let (k, d) = idt_keyboard_handler b s.keyboard (c.deliver 1 s.devices) in
      record s { keyboard = k; devices = d }

  -- Whether the controller delivers the line, 0 or 1: it is not masked, and neither it nor a line with
  -- a lower number is in service.
  abbrev pub ready : b.Devices → ℕ → Bool
  ready d line =
      not (c.masked d line) && (not (c.in_service d 0) && (line == 0 || not (c.in_service d line)))

  -- The interrupt, while the processor takes interrupts: handled if the controller delivers it, and
  -- not otherwise.
  unfoldable pub arrive : Event → System b → System b
  arrive (tick cpu) s = if ready s.devices 0 then (on_timer s cpu).1 else s
  arrive key s = if ready s.devices 1 then on_keyboard s else s

  -- What happens next: one of the two interrupts, or a read of a port or a write to another port by the
  -- process that runs.
  pub data Step (s : System b) : System b → Type 0 where
    interrupt : (e : Event) → Step s (arrive e s)
    writes :
        (port v : ℕ) → port ≢ pic1_command → Step s (record s { devices = b.outb port v s.devices })
    reads : (port : ℕ) → Step s (record s { devices = (b.inb port s.devices).1 })

  pub data Reach (s : System b) : System b → Type 0 where
    here : Reach s s
    next : {t u : System b} → Reach s t → Step t u → Reach s u
