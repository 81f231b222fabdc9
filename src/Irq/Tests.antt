-- ===== src/Irq/Tests.antt =====
-- A controller of two lines with the scan codes of a keyboard, and two processes of which the first runs.
use terracotta_os.Prelude.{
  ℕ, ◌<◌, ◌≡◌, ◌≢◌, refl, inl, inr, List, [], ◌∷◌, some, Bool, true, false, ◌&&◌, ◌==◌,
  if◌then◌else◌, Bool-cases, arith,
}
use terracotta_os.Io.{Bus}
use terracotta_os.Idt.{pic1_command}
use terracotta_os.Keyboard.Layout.{us_layout_nrml, entry}
use terracotta_os.Keyboard.{Keyboard, translate, take_key, kbd_getc}
use terracotta_os.Keyboard.Ring.{contents}
use terracotta_os.Keyboard.Getc.{reading}
use terracotta_os.Sched.Data.{SchedulerState, new, ready, running, Procedure, zero_regs}
use terracotta_os.Sched.{
  scheduler_tick, context_switch, find_next_proc, find_start, find_runnable, is_runnable,
}
use terracotta_os.Pit.{pit_handler}
use terracotta_os.Irq.{HasPic, System, Event, tick, key, on_timer, Reach, here, next, writes}
use terracotta_os.Irq.Deaf.{switched, switch-deaf}
use terracotta_os.Irq.Typed.{HasCodes, IsOpen, run, Returns, kbd_getc-arrives}

-- The lines in service, and the scan codes that port 0x60 gives.
abbrev Lines : Type 0
Lines = Bool × Bool × List ℕ

-- The first line in service, if any, is not any more.
abbrev ended : Lines → Lines
ended (true, second, cs) = (false, second, cs)
ended (false, second, cs) = (false, false, cs)

abbrev read_code : Lines → ℕ × Lines
read_code (first, second, []) = (0, (first, second, []))
read_code (first, second, x ∷ xs) = (x, (first, second, xs))

abbrev two_lines : Bus
two_lines = record {
  Devices = Lines;
  outb = λ port v d. if port == pic1_command && v == 0x20 then ended d else d;
  inb = λ port d. if port == 0x60 then read_code d else (0, d);
  outl = λ port v d. d;
  inl = λ port d. (0, d);
  outw = λ port v d. d;
  inw = λ port d. (0, d);
}

abbrev serving : Lines → ℕ → Bool
serving (first, second, cs) j = if j == 0 then first else j == 1 && second

abbrev delivered : ℕ → Lines → Lines
delivered line (first, second, cs) = if line == 0 then (true, second, cs) else (first, true, cs)

delivered-sets : (line : ℕ) (d : Lines) → line < 2 → serving (delivered line d) line ≡ true
delivered-sets line (first, second, cs) lt = ground arith

delivered-others :
    (line j : ℕ) (d : Lines) → line < 2 → j ≢ line → serving (delivered line d) j ≡ serving d j
delivered-others line j (first, second, cs) lt ne = ground arith

ended-first :
    (d : Lines)
    → serving d 0 ≡ true
    → (serving (ended d) 0 ≡ false) × (serving (ended d) 1 ≡ serving d 1)
ended-first (true, second, cs) busy = (refl, refl)
ended-first (false, second, cs) busy = absurd (cc)

ended-second :
    (d : Lines)
    → serving d 0 ≡ false
    → (serving (ended d) 0 ≡ false) × (serving (ended d) 1 ≡ false)
ended-second (true, second, cs) free = absurd (cc)
ended-second (false, second, cs) free = (refl, refl)

lines-out :
    (port v j : ℕ) (d : Lines)
    → port ≢ pic1_command
    → serving (two_lines.outb port v d) j ≡ serving d j
lines-out port v j d ne =
    let other : (port == pic1_command && v == 0x20) ≡ false = ground arith in rw other refl

read_code-serving : (j : ℕ) (d : Lines) → serving (read_code d).1 j ≡ serving d j
read_code-serving j (first, second, []) = refl
read_code-serving j (first, second, x ∷ xs) = refl

lines-in : (port j : ℕ) (d : Lines) → serving (two_lines.inb port d).1 j ≡ serving d j
lines-in port j d = elim (Bool-cases (port == 0x60)) [
  | inl e ↦ rw e (read_code-serving j d)
  | inr e ↦ rw e refl
]

abbrev two_lines-HasPic : HasPic two_lines
two_lines-HasPic = record {
  in_service = serving;
  masked = λ d j. false;
  deliver = delivered;
  deliver_sets = delivered-sets;
  deliver_others = delivered-others;
  ends_first = ended-first;
  ends_second = ended-second;
  out_keeps = lines-out;
  in_keeps = lines-in;
  masked_deliver = λ line j d. refl;
  masked_end = λ j d. refl;
  masked_in = λ port j d. refl;
}

abbrev waiting_codes : Lines → List ℕ
waiting_codes (first, second, cs) = cs

read_code-takes :
    (x : ℕ) (xs : List ℕ) (d : Lines)
    → waiting_codes d ≡ x ∷ xs
    → ((read_code d).0 ≡ x) × (waiting_codes (read_code d).1 ≡ xs)
read_code-takes x xs (first, second, []) e = absurd (cc)
read_code-takes x xs (first, second, y ∷ ys) e = (cc, cc)

ended-codes : (d : Lines) → waiting_codes (ended d) ≡ waiting_codes d
ended-codes (true, second, cs) = refl
ended-codes (false, second, cs) = refl

delivered-codes : (line : ℕ) (d : Lines) → waiting_codes (delivered line d) ≡ waiting_codes d
delivered-codes line (first, second, cs) = elim (Bool-cases (line == 0)) [
  | inl e ↦ rw e refl
  | inr e ↦ rw e refl
]

abbrev two_lines-HasCodes : HasCodes two_lines two_lines-HasPic
two_lines-HasCodes = record {
  codes = waiting_codes;
  takes = read_code-takes;
  end_keeps = ended-codes;
  deliver_keeps = delivered-codes;
}

abbrev process : ℕ → SchedulerState → Procedure
process pid st = record {
  pid = pid;
  proc_state = st;
  privilege_level = 0;
  thread_id = 0;
  state = record {
    id = pid;
    parent_cpu_id = 0;
    state = new;
    entry_point = 0x5000;
    kernel_stack = 0x9000;
    user_stack = 0xa000;
    pages_mapped = 0;
    time_used_ns = 0;
    time_slice_ns = 0;
    is_kernel_procedure = true;
    regs = zero_regs;
  };
}

abbrev two_procs : System two_lines
two_procs = record {
  pit = record { pit_ticks = 0; pit_tick_freq = 100 };
  sched = record {
    sched_tick_freq = 1;
    sched_ticks = 0;
    proc_list = λ i. if i == 0 then 0x1000 else 0x2000;
    proc_count = 2;
    current_proc = 0x1000;
    next_pid = 3;
    procs = λ p. if p == 0x1000 then process 1 running else process 2 ready;
    machine = record {
      file = record {
        base = 0;
        length = 0;
        kind = 0;
        flags = 0;
        reserved = 0;
        bitmap_base = 0;
        bitmap_length = 0;
        bitmap_file = record { base = 0; length = 0; kind = 0 };
      };
      mem = λ x. 0;
    };
  };
  keyboard = record {
    buf = λ i. 0;
    head = 0;
    tail = 0;
    buffering_read = false;
    cursor_read = 0;
    shift = false;
    caps = false;
    extended = false;
    ch = 0;
  };
  devices = (false, false, []);
}

two_procs_switch :
    switched two_lines two_lines-HasPic (on_timer two_lines two_lines-HasPic two_procs zero_regs).0
    ≡ true
unfolding on_timer pit_handler scheduler_tick context_switch find_next_proc find_start find_runnable
    is_runnable
two_procs_switch = refl

-- The process that the tick has switched to prints a character.
abbrev switched_system : System two_lines
switched_system = (on_timer two_lines two_lines-HasPic two_procs zero_regs).1

abbrev printed : System two_lines
printed = record switched_system { devices = two_lines.outb 0x3f8 b'a' switched_system.devices }

prints_step : Reach two_lines two_lines-HasPic switched_system printed
prints_step = next here (writes 0x3f8 b'a' (omega arith))

switch-deaf_example :
    (printed.pit ≡ switched_system.pit)
    × (printed.sched ≡ switched_system.sched)
    × (printed.keyboard ≡ switched_system.keyboard)
switch-deaf_example =
    switch-deaf two_lines two_lines-HasPic two_procs printed zero_regs two_procs_switch prints_step

-- The key of the letter a is about to be pressed, and every second tick switches.
abbrev pressing : System two_lines
pressing = record two_procs {
  sched = record (two_procs.sched) { sched_tick_freq = 2 };
  devices = (false, false, 0x1e ∷ []);
}

types_a : translate pressing.keyboard 0x1e ≡ b'a'
unfolding translate entry us_layout_nrml
types_a = refl

abbrev arriving : List Event
arriving = tick zero_regs ∷ key ∷ []

arriving-Returns :
    Returns two_lines two_lines-HasPic arriving
      (record pressing { keyboard = reading pressing.keyboard })
unfolding on_timer pit_handler scheduler_tick
arriving-Returns = (refl, tt)

pressing-IsOpen : IsOpen two_lines two_lines-HasPic pressing.devices
pressing-IsOpen = record { free_0 = refl; free_1 = refl; unmasked_0 = refl; unmasked_1 = refl }

kbd_getc-arrives_example :
    let t =
      run two_lines two_lines-HasPic arriving
        (record pressing { keyboard = reading pressing.keyboard }) in
    (k : Keyboard) × (take_key t.keyboard ≡ (translate pressing.keyboard 0x1e, k))
    × (kbd_getc (0x1e ∷ []) pressing.keyboard ≡ some (translate pressing.keyboard 0x1e, [], k))
    × (contents k ≡ [])
    × (waiting_codes t.devices ≡ [])
    × IsOpen two_lines two_lines-HasPic t.devices
kbd_getc-arrives_example =
    kbd_getc-arrives two_lines two_lines-HasPic two_lines-HasCodes pressing 0x1e [] arriving
      pressing-IsOpen refl (record { head_in = omega arith; tail_in = omega arith })
      (record {
        plain = refl;
        made = omega arith;
        not_left = omega arith;
        not_right = omega arith;
        not_caps = omega arith;
      })
      refl (omega (arith, types_a)) (inl (omega (arith, types_a))) refl arriving-Returns
