-- ===== src/Sched.antt =====
-- ASNU/src/sched/scheduler.c and scheduler.h: the round-robin scheduler.
-- A `Procedure*` is its address; the structures lie in a store of their own, by address, and the rest
-- of memory is that of `Pmm`. Log lines are left out.
pub mod Data
pub mod Next
pub mod Inv
pub mod Register
pub mod Create
pub mod Fair
pub mod Resume
pub mod Loads
mod Tests
use terracotta_os.Prelude.{
  ℕ, zero, suc, ◌+◌, ◌-◌, ◌*◌, ◌%◌, ◌^◌, Bool, true, false, not, ◌||◌, ltb, leb, ◌==◌,
  if◌then◌else◌,
}
use terracotta_os.Word.{u32_mod, u64_mod, add64, sub64}
use terracotta_os.Memory.{Mem, Ptr, null, store64}
use terracotta_os.Str.{memset}
use terracotta_os.Pmm
use terracotta_os.Pmm.{kalloc}
use terracotta_os.Sched.Data.{
  SchedulerState, new, ready, running, idle, RegisterState, CpuState, Procedure, zero_regs,
}

-- `MAX_PROCS`
abbrev pub max_procs : ℕ
max_procs = 1024

-- The statics of the scheduler, `SchedTickFreq`, the structures, and the memory manager.
pub record Sched : Type 0 where
  pub sched_tick_freq : ℕ
  pub sched_ticks : ℕ
  pub proc_list : ℕ → Ptr
  pub proc_count : ℕ
  pub current_proc : Ptr
  pub next_pid : ℕ
  pub procs : Ptr → Procedure
  pub machine : Pmm.State

-- `*p = v` for a structure, and a write to an entry of `proc_list`
unfoldable pub update {ℓ} : {A : Type ℓ} → (ℕ → A) → ℕ → A → ℕ → A
update f p v q = if q == p then v else f q

pub set_proc_state : Sched → Ptr → SchedulerState → Sched
set_proc_state s p st = record s {
  procs = update s.procs p (let r = s.procs p in record r { proc_state = st });
}

pub scheduler_get_current : Sched → Ptr
scheduler_get_current s = s.current_proc

-- `sizeof(Procedure)`, which is packed
abbrev pub sizeof_procedure : ℕ
sizeof_procedure = 238

-- The structure that `create_proc` fills in, over the zeros of `memset`.
pub fresh_procedure : (pid entry_point privilege_level stack_base stack_size : ℕ) → Procedure
fresh_procedure pid entry_point privilege_level stack_base stack_size = record {
  pid = pid;
  proc_state = new;
  privilege_level = privilege_level % 4;
  thread_id = 0;
  state = record {
    id = pid;
    parent_cpu_id = 0;
    state = new;
    entry_point = entry_point;
    kernel_stack = stack_base;
    user_stack = add64 stack_base stack_size;
    pages_mapped = 0;
    time_used_ns = 0;
    time_slice_ns = 0;
    is_kernel_procedure = privilege_level == 0;
    regs = record zero_regs {
      rip = entry_point;
      rflags = 0x202;
      rsp = sub64 (add64 stack_base stack_size) 8;
    };
  };
}

-- `create_proc`; the arguments and the heap bounds that it does not read are left out.
pub create_proc : Sched → (entry_point privilege_level stack_base stack_size : ℕ) → Ptr × Sched
create_proc s entry_point privilege_level stack_base stack_size =
    let (p, m) = kalloc s.machine sizeof_procedure in
    if p == 0 then (null, record s { machine = m }) else (
      p,
      record s {
        next_pid = (s.next_pid + 1) % u32_mod;
        procs =
            update s.procs p
              (fresh_procedure s.next_pid entry_point privilege_level stack_base stack_size);
        machine = record m {
          mem =
              store64 (memset m.mem p 0 sizeof_procedure) (sub64 (add64 stack_base stack_size) 8) 0;
        };
      },
    )

pub register_proc : Sched → Ptr → Sched
register_proc s proc =
    if leb max_procs s.proc_count
    then s
    else let listed = record s {
      proc_list = update s.proc_list s.proc_count proc;
      proc_count = s.proc_count + 1;
    } in
      let s' = set_proc_state listed proc ready in
      if s'.current_proc == 0
      then set_proc_state (record s' { current_proc = proc }) proc running
      else s'

pub scheduler_init : Sched → Sched
scheduler_init s = record s { proc_count = 0; current_proc = null; next_pid = 1 }

-- The first loop of `find_next_proc`, from `i` on: where the search starts.
unfoldable pub find_start : Sched → ℕ → ℕ → ℕ
find_start s i zero = 0
find_start s i (suc left) =
    let rest = find_start s (i + 1) left in
    if s.proc_list i == s.current_proc then (i + 1) % s.proc_count else rest

unfoldable pub is_runnable : SchedulerState → Bool
is_runnable ready = true
is_runnable idle = true
is_runnable _ = false

-- The second loop: the first runnable process from `start` on, round the list.
unfoldable pub find_runnable : Sched → ℕ → ℕ → ℕ → Ptr
find_runnable s start i zero = null
find_runnable s start i (suc left) =
    let rest = find_runnable s start (i + 1) left in
    let p = s.proc_list ((start + i) % s.proc_count) in
    if is_runnable (s.procs p).proc_state then p else rest

unfoldable pub find_next_proc : Sched → Ptr
find_next_proc s =
    if s.proc_count == 0
    then null
    else find_runnable s (if s.current_proc == 0 then 0 else find_start s 0 s.proc_count) 0
        s.proc_count

-- What the first `asm` block writes into a structure, from the registers of the processor.
pub save_regs : RegisterState → RegisterState → RegisterState
save_regs saved cpu = record saved {
  rax = cpu.rax;
  rbx = cpu.rbx;
  rcx = cpu.rcx;
  rdx = cpu.rdx;
  rsi = cpu.rsi;
  rdi = cpu.rdi;
  rbp = cpu.rbp;
  rsp = cpu.rsp;
  r8 = cpu.r8;
  r9 = cpu.r9;
  r10 = cpu.r10;
  r11 = cpu.r11;
  r12 = cpu.r12;
  r13 = cpu.r13;
  r14 = cpu.r14;
  r15 = cpu.r15;
  rflags = cpu.rflags;
}

-- Where the processor goes on: after the call, or at `rip` with the registers loaded from a structure.
pub data Control : Type 0 where
  returns : Control
  jumps : RegisterState → Control

pub save_prev : Sched → Ptr → RegisterState → Sched
save_prev s prev cpu =
    let r = s.procs prev in
    let c = r.state in
    record s {
      procs =
          update s.procs prev
            (record r { proc_state = ready; state = record c { regs = save_regs c.regs cpu } });
    }

-- `cpu` is what the registers hold at the call.
unfoldable pub context_switch : Sched → RegisterState → Control × Sched
context_switch s cpu =
    let next = find_next_proc s in
    if next == 0 || s.current_proc == next
    then (returns, s)
    else let saved = if s.current_proc == 0 then s else save_prev s s.current_proc cpu in
      let s' = record (set_proc_state saved next running) { current_proc = next } in
      (jumps (s'.procs next).state.regs, s')

-- `SchedTickFreq` is taken not to be 0; the source divides by it.
unfoldable pub scheduler_tick : Sched → RegisterState → Control × Sched
scheduler_tick s cpu =
    let s' = record s { sched_ticks = (s.sched_ticks + 1) % u64_mod } in
    if s'.sched_ticks % s'.sched_tick_freq == 0 then context_switch s' cpu else (returns, s')
