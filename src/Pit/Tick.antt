-- ===== src/Pit/Tick.antt =====
-- The frequency of the timer, and what a tick does.
use native.Mathlib.Nat.{le-div_iff_mul-le, div-lt_iff_lt-mul}
use terracotta_os.Prelude.{
  ℕ, ◌+◌, ◌*◌, ◌/◌, ◌%◌, ◌^◌, ◌<◌, ◌≤◌, ◌≡◌, ◌≢◌, refl, ap, ◌∙◌, some, arith, ==_ne,
}
use terracotta_os.Io.{Bus}
use terracotta_os.Idt.{idt_pic_send_eoi}
use terracotta_os.Sched.{Sched, Control, returns, jumps, scheduler_tick}
use terracotta_os.Sched.Data.{RegisterState}
use terracotta_os.Pit.{Pit, pit_freq, pit_cmd_port, pit_channel0_port, pit_handler, pit_init}

-- The documented behaviour of channel 0: after the command 0x36 it takes the low and then the high byte
-- of the count that it divides its clock by.
pub record HasCounter (b : Bus) : Type 0 where
  pub count : b.Devices → ℕ
  pub programs :
      (low high : ℕ) (d : b.Devices)
      → low < 256
      → high < 256
      → count (
          b.outb pit_channel0_port high (b.outb pit_channel0_port low (b.outb pit_cmd_port 0x36 d)))
        ≡ low + 256 * high

divisor-lt : (freq : ℕ) → 19 ≤ freq → pit_freq / freq < 2 ^ 16
divisor-lt freq h =
    (div-lt_iff_lt-mul {k = freq} {x = pit_freq} {y = 2 ^ 16} (omega arith)).1 (omega arith)

nearest :
    (freq : ℕ)
    → 0 < freq
    → (pit_freq / freq * freq ≤ pit_freq) × (pit_freq < (pit_freq / freq + 1) * freq)
nearest freq h = (
  (le-div_iff_mul-le {k = freq} {x = pit_freq / freq} {y = pit_freq} h).0 (omega arith),
  (div-lt_iff_lt-mul {k = freq} {x = pit_freq} {y = pit_freq / freq + 1} h).0 (omega arith),
)

-- For a frequency whose divisor has 16 bits, `pit_init` programs the count that comes nearest to it
-- from above.
pub pit_init_lem :
    (b : Bus) (c : HasCounter b) (freq : ℕ) (pit : Pit) (d : b.Devices)
    → 19 ≤ freq
    → freq < 2 ^ 32
    → (d' : b.Devices) × (pit_init b freq pit d ≡ some (record pit { pit_tick_freq = freq }, d'))
      × (c.count d' * freq ≤ pit_freq)
      × (pit_freq < (c.count d' + 1) * freq)
unfolding pit_init
pit_init_lem b c freq pit d slow small =
    let q = pit_freq / freq in
    let below : q < 2 ^ 16 = divisor-lt freq slow in
    let bytes : q % 256 + 256 * (q / 2 ^ 8 % 256) ≡ q = omega arith in
    let set = c.programs (q % 256) (q / 2 ^ 8 % 256) d (omega arith) (omega arith) ∙ bytes in
    (
      b.outb pit_channel0_port (q / 2 ^ 8 % 256)
          (b.outb pit_channel0_port (q % 256) (b.outb pit_cmd_port 0x36 d)),
      rw (==_ne freq 0 (omega arith)) refl,
      rw set (nearest freq (omega arith)).0,
      rw set (nearest freq (omega arith)).1,
    )

-- What a tick did: the end of the interrupt is sent if the process goes on, and is not if another one
-- does.
abbrev pub AfterTick : (b : Bus) → Control → (before after : b.Devices) → Type 0
AfterTick b returns before after = after ≡ idt_pic_send_eoi b 0 before
AfterTick b (jumps regs) before after = after ≡ before

-- A tick is counted, runs the tick of the scheduler, and sends the end of the interrupt exactly if
-- the scheduler comes back; if it switches to another process, nothing is sent.
pub pit_handler_lem :
    (b : Bus) (pit : Pit) (s : Sched) (cpu : RegisterState) (d : b.Devices)
    → (control : Control) × (s' : Sched) × (d' : b.Devices) × (pit_handler b pit s cpu d
        ≡ (control, record pit { pit_ticks = (pit.pit_ticks + 1) % 2 ^ 64 }, s', d'))
      × (scheduler_tick s cpu ≡ (control, s'))
      × AfterTick b control d d'
unfolding pit_handler
pit_handler_lem b pit s cpu d = go (scheduler_tick s cpu) refl
  where
    go :
        (r : Control × Sched)
        → scheduler_tick s cpu ≡ r
        → (control : Control) × (s' : Sched) × (d' : b.Devices) × (pit_handler b pit s cpu d
            ≡ (control, record pit { pit_ticks = (pit.pit_ticks + 1) % 2 ^ 64 }, s', d'))
          × (scheduler_tick s cpu ≡ (control, s'))
          × AfterTick b control d d'
    go (returns, s') e = (
      returns,
      s',
      idt_pic_send_eoi b 0 d,
      rw (pit_handler, ap (λ r. r.0) e, ap (λ r. r.1) e) refl,
      e,
      refl,
    )
    go (jumps regs, s') e =
        (jumps regs, s', d, rw (pit_handler, ap (λ r. r.0) e, ap (λ r. r.1) e) refl, e, refl)

-- A frequency other than 0 can be set.
pub pit_init-some :
    (b : Bus) (freq : ℕ) (pit : Pit) (d : b.Devices)
    → freq ≢ 0
    → (d' : b.Devices) × (pit_init b freq pit d ≡ some (record pit { pit_tick_freq = freq }, d'))
unfolding pit_init
pit_init-some b freq pit d ne =
    let q = pit_freq / freq in
    (
      b.outb pit_channel0_port (q / 2 ^ 8 % 256)
          (b.outb pit_channel0_port (q % 256) (b.outb pit_cmd_port 0x36 d)),
      rw (==_ne freq 0 ne) refl,
    )
