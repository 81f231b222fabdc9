-- ===== src/Pit/Tests.antt =====
-- A counter that keeps the last two bytes, and a scheduler without processes.
use terracotta_os.Prelude.{ℕ, ◌+◌, ◌*◌, refl, ◌==◌, if◌then◌else◌}
use terracotta_os.Io.{Bus}
use terracotta_os.Sched.{Sched, fresh_procedure}
use terracotta_os.Pit.{Pit}
use terracotta_os.Pit.Tick.{HasCounter}

abbrev counter : Bus
counter = record {
  Devices = ℕ × ℕ;
  outb = λ port v d. if port == 0x40 then (d.1, v) else d;
  inb = λ port d. (0, d);
  outl = λ port v d. d;
  inl = λ port d. (0, d);
  outw = λ port v d. d;
  inw = λ port d. (0, d);
}

abbrev counter-HasCounter : HasCounter counter
counter-HasCounter = record { count = λ d. d.0 + 256 * d.1; programs = λ low high d l h. refl }

abbrev stopped : Pit
stopped = record { pit_ticks = 0; pit_tick_freq = 0 }

abbrev fast : Pit
fast = record { pit_ticks = 0; pit_tick_freq = 1000 }

abbrev nothing_to_run : Sched
nothing_to_run = record {
  sched_tick_freq = 1;
  sched_ticks = 0;
  proc_list = λ i. 0;
  proc_count = 0;
  current_proc = 0;
  next_pid = 1;
  procs = λ p. fresh_procedure 0 0 0 0 0;
  machine = record {
    file = record {
      base = 0;
      length = 0;
      kind = 0;
      flags = 0;
      reserved = 0;
      bitmap_base = 0;
      bitmap_length = 0;
      bitmap_file = record { base = 0; length = 0; kind = 0 };
    };
    mem = λ x. 0;
  };
}
