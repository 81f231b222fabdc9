-- ===== src/Sched/Create.antt =====
-- `create_proc` when there is a page for the structure.
use terracotta_os.Prelude.{ℕ, ◌+◌, ◌%◌, ◌≡◌, ◌≢◌, refl, ==_ne, arith}
use terracotta_os.Word.{u32_mod, add64, sub64}
use terracotta_os.Memory.{null, store64}
use terracotta_os.Str.{memset}
use terracotta_os.Pmm.{palloc}
use terracotta_os.Pmm.Alloc.{kalloc-eq-palloc}
use terracotta_os.Sched.{Sched, update, sizeof_procedure, fresh_procedure, create_proc}

-- With a page, `create_proc` returns its address, clears the structure there and fills it in, gives it
-- the next number, and writes the return address at the top of the stack.
pub create_proc_lem :
    (s : Sched) (entry_point privilege_level stack size : ℕ)
    → (palloc s.machine).0 ≢ null
    → let (p, m) = palloc s.machine in
      create_proc s entry_point privilege_level stack size ≡ (
        p,
        record s {
          next_pid = (s.next_pid + 1) % u32_mod;
          procs =
              update s.procs p (fresh_procedure s.next_pid entry_point privilege_level stack size);
          machine = record m {
            mem = store64 (memset m.mem p 0 sizeof_procedure) (sub64 (add64 stack size) 8) 0;
          };
        },
      )
unfolding create_proc
create_proc_lem s entry_point privilege_level stack size ne =
    rw (kalloc-eq-palloc s.machine sizeof_procedure (omega arith), ==_ne _ 0 ne) refl

-- The fields of the new structure that the first run of the process depends on.
pub fresh_procedure_lem :
    (pid entry_point privilege_level stack size : ℕ)
    → let p = fresh_procedure pid entry_point privilege_level stack size in
      (p.pid ≡ pid)
      × (p.state.kernel_stack ≡ stack)
      × (p.state.regs.rip ≡ entry_point)
      × (p.state.regs.rsp ≡ sub64 (add64 stack size) 8)
unfolding fresh_procedure
fresh_procedure_lem pid entry_point privilege_level stack size = (refl, refl, refl, refl)
