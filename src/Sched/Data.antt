-- ===== src/Sched/Data.antt =====
-- The types of ASNU/src/sched/scheduler.h.
use terracotta_os.Prelude.{ℕ, Bool}

pub data SchedulerState : Type 0 where
  new ready running waiting sleeping terminated suspended idle : SchedulerState

pub record RegisterState : Type 0 where
  pub rax : ℕ
  pub rbx : ℕ
  pub rcx : ℕ
  pub rdx : ℕ
  pub rsi : ℕ
  pub rdi : ℕ
  pub rbp : ℕ
  pub rsp : ℕ
  pub r8 : ℕ
  pub r9 : ℕ
  pub r10 : ℕ
  pub r11 : ℕ
  pub r12 : ℕ
  pub r13 : ℕ
  pub r14 : ℕ
  pub r15 : ℕ
  pub rip : ℕ
  pub rflags : ℕ
  pub cr3 : ℕ
  pub cs : ℕ
  pub ds : ℕ
  pub es : ℕ
  pub fs : ℕ
  pub gs : ℕ
  pub ss : ℕ

pub record CpuState : Type 0 where
  pub id : ℕ
  pub parent_cpu_id : ℕ
  pub state : SchedulerState
  pub entry_point : ℕ
  pub kernel_stack : ℕ
  pub user_stack : ℕ
  pub pages_mapped : ℕ
  pub time_used_ns : ℕ
  pub time_slice_ns : ℕ
  pub is_kernel_procedure : Bool
  pub regs : RegisterState

pub record Procedure : Type 0 where
  pub pid : ℕ
  pub proc_state : SchedulerState
  pub privilege_level : ℕ
  pub thread_id : ℕ
  pub state : CpuState

-- the registers of a structure that `memset` has cleared
abbrev pub zero_regs : RegisterState
zero_regs = record {
  rax = 0;
  rbx = 0;
  rcx = 0;
  rdx = 0;
  rsi = 0;
  rdi = 0;
  rbp = 0;
  rsp = 0;
  r8 = 0;
  r9 = 0;
  r10 = 0;
  r11 = 0;
  r12 = 0;
  r13 = 0;
  r14 = 0;
  r15 = 0;
  rip = 0;
  rflags = 0;
  cr3 = 0;
  cs = 0;
  ds = 0;
  es = 0;
  fs = 0;
  gs = 0;
  ss = 0;
}
