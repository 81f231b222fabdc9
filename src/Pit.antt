-- ===== src/Pit.antt =====
-- ASNU/src/Drivers/PIT/driver.c: the timer. `PitTicks` is read by way of what each read gives, since
-- the handler changes it behind the back of a loop.
pub mod Tick
pub mod Wait
mod Tests
use terracotta_os.Prelude.{
  ℕ, zero, suc, ◌+◌, ◌-◌, ◌*◌, ◌/◌, ◌%◌, ◌^◌, Bool, true, false, Option, none, some, ltb, ◌==◌,
  if◌then◌else◌,
}
use terracotta_os.Word.{u64_mod, sub64}
use terracotta_os.Io.{Bus}
use terracotta_os.Idt.{idt_pic_send_eoi}
use terracotta_os.Sched.{Sched, Control, returns, jumps, scheduler_tick}
use terracotta_os.Sched.Data.{RegisterState}

-- `PIT_FREQ` and the two ports
abbrev pub pit_freq : ℕ
pit_freq = 1193182

abbrev pub pit_cmd_port : ℕ
pit_cmd_port = 0x43

abbrev pub pit_channel0_port : ℕ
pit_channel0_port = 0x40

pub record Pit : Type 0 where
  pub pit_ticks : ℕ
  pub pit_tick_freq : ℕ

pub pit_get_ticks : Pit → ℕ
pit_get_ticks pit = pit.pit_ticks

-- `pit_wait_ticks` behind its first read; `ticks i` is what the read number `i` of the counter gives.
pub wait_loop : (ticks : ℕ → ℕ) → (fuel start wanted i : ℕ) → Option ℕ
wait_loop ticks zero start wanted i = none
wait_loop ticks (suc fuel) start wanted i =
    let rest = wait_loop ticks fuel start wanted (i + 1) in
    if ltb (sub64 (ticks i) start) wanted then rest else some (ticks (i + 1))

pub pit_wait_ticks : (ticks : ℕ → ℕ) → (fuel wanted : ℕ) → Option ℕ
pit_wait_ticks ticks fuel wanted = wait_loop ticks fuel (ticks 0) wanted 1

pub pit_wait_ms : (ticks : ℕ → ℕ) → (fuel : ℕ) → Pit → (ms : ℕ) → Option ℕ
pit_wait_ms ticks fuel pit ms = pit_wait_ticks ticks fuel (ms * pit.pit_tick_freq % u64_mod / 1000)

module _ (b : Bus) where
  open b use {Devices, outb}

  -- `pit_handler`: a tick that switches to another process does not come back to the end of the
  -- interrupt.
  unfoldable pub pit_handler :
      Pit → Sched → RegisterState → Devices → Control × Pit × Sched × Devices
  pit_handler pit s cpu d =
      let pit = record pit { pit_ticks = (pit.pit_ticks + 1) % u64_mod } in
      let (control, s) = scheduler_tick s cpu in
      elim control [
        | returns ↦ (returns, pit, s, idt_pic_send_eoi b 0 d)
        | jumps regs ↦ (jumps regs, pit, s, d)
      ]

  -- `pit_init`, which divides by the frequency.
  pub pit_init : (freq : ℕ) → Pit → Devices → Option (Pit × Devices)
  pit_init freq pit d =
      let divisor = pit_freq / freq in
      if freq == 0
      then none
      else some (
        record pit { pit_tick_freq = freq },
        outb pit_channel0_port (divisor / 2 ^ 8 % 256)
            (outb pit_channel0_port (divisor % 256) (outb pit_cmd_port 0x36 d)),
      )
