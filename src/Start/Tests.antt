-- ===== src/Start/Tests.antt =====
-- A machine with two usable regions, of one page and of eight.
use terracotta_os.Prelude.{
  ℕ, zero, suc, ◌+◌, ◌%◌, ◌≤◌, ◌≡◌, refl, inl, List, [], ◌∷◌, true, false, some, ◌==◌,
  if◌then◌else◌, get_elem?, length, arith,
}
use terracotta_os.Io.{Bus, hhdm}
use terracotta_os.Pmm
use terracotta_os.Sched.Data.{
  SchedulerState, new, ready, running, RegisterState, Procedure, zero_regs,
}
use terracotta_os.Boot.{MemmapEntry, usable}
use terracotta_os.Start.{Responses, Addresses, Kernel, has_some, can_boot, faults, kmain}
use terracotta_os.Sched.{Sched, context_switch, jumps}
use terracotta_os.Sched.Next.{Distinct}
use terracotta_os.Sched.Inv.{IsValid}
use terracotta_os.Start.Resumed.{first_switches}
use terracotta_os.Start.Processes.{Started}
use terracotta_os.Idt.{pic1_data}
use terracotta_os.Start.Booted.{kmain-first_longest}

abbrev quiet : Bus
quiet = record {
  Devices = ℕ;
  outb = λ port v d. if port == pic1_data then v else d;
  inb = λ port d. (d % 256, d);
  outl = λ port v d. d;
  inl = λ port d. (0, d);
  outw = λ port v d. d;
  inw = λ port d. (0, d);
}

abbrev small_region : MemmapEntry
small_region = record { base = 0x10_0000; length = 0x1000; kind = usable }

abbrev large_region : MemmapEntry
large_region = record { base = 0x20_0000; length = 0x8000; kind = usable }

abbrev answered : List MemmapEntry → Responses
answered entries = record {
  base_revision_supported = true;
  framebuffer_count = some 1;
  memmap = some entries;
  hhdm_offset = some hhdm;
}

abbrev addresses : Addresses
addresses = record {
  gdt = 0x8000;
  isr_stub_table = λ i. 0x9000 + i % 256;
  pit_isr = 0xa000;
  keyboard_isr = 0xb000;
  proc0 = 0xc000;
  proc1 = 0xd000;
}

abbrev empty_machine : Pmm.State
empty_machine = record {
  file = record {
    base = 0;
    length = 0;
    kind = 0;
    flags = 0;
    reserved = 0;
    bitmap_base = 0;
    bitmap_length = 0;
    bitmap_file = record { base = 0; length = 0; kind = 0 };
  };
  mem = λ x. 0;
}

abbrev no_process : Procedure
no_process = record {
  pid = 0;
  proc_state = new;
  privilege_level = 0;
  thread_id = 0;
  state = record {
    id = 0;
    parent_cpu_id = 0;
    state = new;
    entry_point = 0;
    kernel_stack = 0;
    user_stack = 0;
    pages_mapped = 0;
    time_used_ns = 0;
    time_slice_ns = 0;
    is_kernel_procedure = false;
    regs = zero_regs;
  };
}

abbrev powered : Kernel quiet
powered = record {
  vmm = record {
    pml4 = 0;
    cr3_phys = 0;
    cr3_virt = 0;
    cr3 = 0x5000;
    flushed = [];
    machine = empty_machine;
  };
  gdtr = record { size = 0; offset = 0 };
  pit = record { pit_ticks = 0; pit_tick_freq = 0 };
  idt = (
    λ v. record {
      isr_low = 0;
      kernel_cs = 0;
      ist = 0;
      attributes = 0;
      isr_mid = 0;
      isr_high = 0;
      reserved = 0;
    },
    λ v. false,
  );
  sched = record {
    sched_tick_freq = 10;
    sched_ticks = 0;
    proc_list = λ i. 0;
    proc_count = 0;
    current_proc = 0;
    next_pid = 1;
    procs = λ p. no_process;
    machine = empty_machine;
  };
  devices = 0;
}

abbrev two_regions : List MemmapEntry
two_regions = small_region ∷ large_region ∷ []

can_boot_reversed : can_boot (answered (large_region ∷ small_region ∷ [])) ≡ true
unfolding can_boot has_some
can_boot_reversed = refl

small_shorter :
    (j : ℕ) (e : MemmapEntry)
    → get_elem? (small_region ∷ []) j ≡ some e
    → e.kind ≡ usable
    → e.length ≤ 0x8000
small_shorter zero e at u = ground arith
small_shorter (suc j) e at u = ground arith

kmain-first_longest_example :
    kmain quiet addresses (answered (large_region ∷ small_region ∷ [])) powered ≡ faults
kmain-first_longest_example =
    kmain-first_longest quiet addresses (answered (large_region ∷ small_region ∷ [])) powered
      large_region (small_region ∷ []) hhdm can_boot_reversed refl refl refl small_shorter

-- What `test_sched` leaves when its pages are at 0x10_0000 and on.
abbrev kernel_process : (pid entry_point stack : ℕ) → SchedulerState → Procedure
kernel_process pid entry_point stack st = record no_process {
  pid = pid;
  proc_state = st;
  state = record {
    id = pid;
    parent_cpu_id = 0;
    state = new;
    entry_point = entry_point;
    kernel_stack = stack;
    user_stack = stack + 4096;
    pages_mapped = 0;
    time_used_ns = 0;
    time_slice_ns = 0;
    is_kernel_procedure = true;
    regs = record zero_regs { rip = entry_point; rflags = 0x202; rsp = stack + 4088 };
  };
}

abbrev left_waiting : Sched
left_waiting = record {
  sched_tick_freq = 10;
  sched_ticks = 0;
  proc_list = λ i. if i == 0 then 0x10_4000 else 0x10_5000;
  proc_count = 2;
  current_proc = 0x10_4000;
  next_pid = 3;
  procs = λ p.
      if p == 0x10_4000
      then kernel_process 1 0xc000 0x10_0000 running
      else kernel_process 2 0xd000 0x10_2000 ready;
  machine = empty_machine;
}

left_waiting-Distinct : Distinct left_waiting
left_waiting-Distinct i j hi hj e = ground arith

left_waiting-IsValid : IsValid left_waiting
left_waiting-IsValid = record {
  bounded = omega arith;
  distinct = left_waiting-Distinct;
  non_null = λ i lt e. ground arith;
  none_current = λ e. absurd (omega arith);
  current_listed = λ ne. (0, omega arith, refl);
  current_runs = λ ne. refl;
  only_current = λ i lt run. ground arith;
}

left_waiting-Started : Started 0xc000 0xd000 left_waiting
left_waiting-Started = record {
  p0 = 0x10_4000;
  p1 = 0x10_5000;
  pair = record {
    valid = left_waiting-IsValid;
    two = refl;
    first = refl;
    second = refl;
    current = refl;
    state0 = refl;
    state1 = refl;
  };
  entry0 = refl;
  entry1 = refl;
  pids = (refl, refl);
  stacks = omega arith;
  tops = (refl, refl);
}

-- The registers of `kmain` where it waits.
abbrev waiting : RegisterState
waiting = record zero_regs { rsp = 0x7ff0 }

first_switches_example :
    (r r' : RegisterState) × (u' u'' : Sched) × (context_switch left_waiting waiting
      ≡ (jumps r, u'))
    × (context_switch u' zero_regs ≡ (jumps r', u''))
    × (r.rip ≡ 0xd000)
    × (r.rsp ≡ (left_waiting.procs u'.current_proc).state.kernel_stack + 4088)
    × (r'.rip ≡ 0xc000)
    × (r'.rsp ≡ 0x7ff0)
first_switches_example =
    first_switches 0xc000 0xd000 left_waiting waiting zero_regs left_waiting-Started
