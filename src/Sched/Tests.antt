-- ===== src/Sched/Tests.antt =====
-- The scheduler with two kernel processes, of which the first runs.
use terracotta_os.Prelude.{
  ℕ, ◌%◌, ◌<◌, ◌≡◌, refl, ◌⊎◌, true, false, ◌==◌, if◌then◌else◌, [], ◌∷◌, arith,
}
use terracotta_os.Memory.{null}
use terracotta_os.Pmm
use terracotta_os.Sched.Data.{
  SchedulerState, new, ready, running, RegisterState, Procedure, zero_regs,
}
use terracotta_os.Sched.{
  Sched, update, set_proc_state, save_prev, is_runnable, find_start, find_runnable, find_next_proc,
  context_switch, scheduler_tick, jumps,
}
use terracotta_os.Sched.Next.{Distinct, nth, runs, find_next_proc_lem}
use terracotta_os.Sched.Inv.{IsValid, switch_to, context_switch-IsValid, switch-other}
use terracotta_os.Sched.Fair.{AllLive, switches, switches_turn}
use terracotta_os.Sched.Resume.{
  regs_of, entry_of, AtEntry, context_switch-entry_point, here, next, ticked,
}

abbrev machine : Pmm.State
machine = record {
  file = record {
    base = 0x10_0000;
    length = 0x8000;
    kind = 0;
    flags = 0;
    reserved = 0;
    bitmap_base = 16;
    bitmap_length = 1;
    bitmap_file = record { base = 16; length = 1; kind = 0 };
  };
  mem = λ x. 0;
}

abbrev process : ℕ → ℕ → SchedulerState → Procedure
process pid entry_point st = record {
  pid = pid;
  proc_state = st;
  privilege_level = 0;
  thread_id = 0;
  state = record {
    id = pid;
    parent_cpu_id = 0;
    state = new;
    entry_point = entry_point;
    kernel_stack = 0x9000;
    user_stack = 0xa000;
    pages_mapped = 0;
    time_used_ns = 0;
    time_slice_ns = 0;
    is_kernel_procedure = true;
    regs = record zero_regs { rip = entry_point; rflags = 0x202; rsp = 0x9ff8 };
  };
}

abbrev two_procs : Sched
two_procs = record {
  sched_tick_freq = 1;
  sched_ticks = 0;
  proc_list = λ i. if i == 0 then 0x1000 else 0x2000;
  proc_count = 2;
  current_proc = 0x1000;
  next_pid = 3;
  procs = λ p. if p == 0x1000 then process 1 0x5000 running else process 2 0x6000 ready;
  machine = machine;
}

-- What the registers hold in the midst of a process.
abbrev midway : RegisterState
midway = record zero_regs { rax = 7; rip = 0x5432; rsp = 0x9f00 }

two_procs-Distinct : Distinct two_procs
two_procs-Distinct i j hi hj e = ground arith

two_procs-IsValid : IsValid two_procs
two_procs-IsValid = record {
  bounded = omega arith;
  distinct = two_procs-Distinct;
  non_null = λ i lt e. ground arith;
  none_current = λ e. absurd (omega arith);
  current_listed = λ ne. (0, omega arith, refl);
  current_runs = λ ne. refl;
  only_current = λ i lt run. ground arith;
}

two_procs-AllLive : AllLive two_procs
two_procs-AllLive i lt = ground arith

first_switch : context_switch two_procs midway ≡ (
  jumps ((switch_to two_procs 0x2000 midway).procs 0x2000).state.regs,
  switch_to two_procs 0x2000 midway,
)
unfolding find_next_proc find_start find_runnable is_runnable
first_switch = switch-other two_procs midway refl (omega arith) (omega arith) (omega arith)

find_next_proc_lem_example :
    ((j : ℕ) → j < 2 → runs two_procs (nth two_procs 1 j) ≡ false)
      × (find_next_proc two_procs ≡ null)
    ⊎ ((k : ℕ) × (k < 2)
        × (find_next_proc two_procs ≡ nth two_procs 1 k)
        × (runs two_procs (nth two_procs 1 k) ≡ true)
        × ((j : ℕ) → j < k → runs two_procs (nth two_procs 1 j) ≡ false))
find_next_proc_lem_example =
    find_next_proc_lem two_procs 0 two_procs-Distinct (omega arith) refl (omega arith)

context_switch-IsValid_example : IsValid (context_switch two_procs midway).1
context_switch-IsValid_example = context_switch-IsValid two_procs midway two_procs-IsValid

switches_turn_example :
    (switches (midway ∷ midway ∷ midway ∷ []) two_procs).current_proc ≡ two_procs.proc_list (3 % 2)
switches_turn_example =
    switches_turn (midway ∷ midway ∷ midway ∷ []) two_procs 0 two_procs-IsValid two_procs-AllLive
      (omega arith) (omega arith) refl

abbrev switched : Sched
switched = switch_to two_procs 0x2000 midway

second_switch : context_switch switched midway ≡ (
  jumps ((switch_to switched 0x1000 midway).procs 0x1000).state.regs,
  switch_to switched 0x1000 midway,
)
unfolding find_next_proc find_start find_runnable is_runnable switch_to set_proc_state save_prev
    update
second_switch = switch-other switched midway refl (omega arith) (omega arith) (omega arith)

second_current : (switch_to switched 0x1000 midway).current_proc ≡ 0x1000
unfolding switch_to
second_current = refl

two_procs-AtEntry : AtEntry two_procs
two_procs-AtEntry p = ground arith

abbrev ticked_once : Sched
ticked_once = (scheduler_tick two_procs midway).1

-- The tick has switched to the second process, and a switch goes back to the first.
after_tick : context_switch ticked_once midway ≡ (
  jumps (regs_of (switch_to ticked_once 0x1000 midway) 0x1000),
  switch_to ticked_once 0x1000 midway,
)
unfolding scheduler_tick context_switch find_next_proc find_start find_runnable is_runnable
    set_proc_state save_prev update switch_to
after_tick = refl

context_switch-entry_point_example :
    (regs_of (switch_to ticked_once 0x1000 midway) 0x1000).rip
    ≡ entry_of
        (switch_to ticked_once 0x1000 midway)
        (switch_to ticked_once 0x1000 midway).current_proc
context_switch-entry_point_example =
    context_switch-entry_point {s = two_procs} {t = ticked_once} midway two_procs-AtEntry
      (next here (ticked midway)) after_tick
