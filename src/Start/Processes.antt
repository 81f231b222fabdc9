-- ===== src/Start/Processes.antt =====
-- `test_sched` of ASNU/src/init.c, behind `scheduler_init`.
use terracotta_os.Prelude.{
  ℕ, ◌+◌, ◌%◌, ◌^◌, ◌≤◌, ◌≡◌, ◌≢◌, refl, ap, sym, ◌∙◌, some, ==_ne, ==_iff, arith,
}
use terracotta_os.Word.{u32_mod}
use terracotta_os.Memory.{Ptr, null}
use terracotta_os.Pmm
use terracotta_os.Pmm.{palloc}
use terracotta_os.Pmm.Count.{free_count}
use terracotta_os.Sched.{Sched, update, fresh_procedure, create_proc, register_proc}
use terracotta_os.Sched.Create.{fresh_procedure_lem}
use terracotta_os.Sched.Resume.{regs_of}
use terracotta_os.Start.{test_sched}
use terracotta_os.Start.Pages.{
  IsReady, Held, palloc-Grants, page_apart, page_ends, granted-ne, granted_count, granted-Held,
  Held-kept, Held-other,
}
use terracotta_os.Start.Pair.{IsPair, register-IsPair, registered-pid, registered-state}
use terracotta_os.Start.Created.{Creates, create_proc-Creates}

abbrev after : Pmm.State → Pmm.State
after m = (palloc m).1

abbrev third : Pmm.State → Ptr
third m = (palloc (after (after m))).0

abbrev after_four : Pmm.State → Pmm.State
after_four m = after (after (after (after m)))

-- The four pages for stacks and heaps.
record FourPages (m : Pmm.State) : Type 0 where
  is_ready : IsReady (after_four m)
  left : free_count m ≤ free_count (after_four m) + 4
  stack0 : Held (after_four m) (palloc m).0
  stack1 : Held (after_four m) (third m)
  some0 : (palloc m).0 ≢ null
  some1 : third m ≢ null
  apart : (palloc m).0 ≢ third m
  ends0 : (palloc m).0 + 4096 ≤ 2 ^ 64
  ends1 : third m + 4096 ≤ 2 ^ 64

four_pages : (m : Pmm.State) → IsReady m → 4 ≤ free_count m → FourPages m
four_pages m r free =
    let (k0, g0) = palloc-Grants m r (omega arith) in
    let n0 = granted_count g0 in
    let (k1, g1) = palloc-Grants (after m) g0.is_ready (omega arith) in
    let n1 = granted_count g1 in
    let (k2, g2) = palloc-Grants (after (after m)) g1.is_ready (omega arith) in
    let n2 = granted_count g2 in
    let (k3, g3) = palloc-Grants (after (after (after m))) g2.is_ready (omega arith) in
    let n3 = granted_count g3 in
    let first = Held-kept g1 (granted-Held g0) in
    record {
      is_ready = g3.is_ready;
      left = omega arith;
      stack0 = Held-kept g3 (Held-kept g2 first);
      stack1 = Held-kept g3 (granted-Held g2);
      some0 = granted-ne g0 r;
      some1 = granted-ne g2 g1.is_ready;
      apart = Held-other g2 first;
      ends0 = page_ends m k0 (palloc m).0 r g0.counted g0.address_is;
      ends1 = page_ends (after (after m)) k2 (third m) g1.is_ready g2.counted g2.address_is;
    }

module _ (proc0 proc1 : ℕ) (s : Sched) (r : IsReady s.machine)
    (enough : 6 ≤ free_count s.machine) where
  abbrev stack0 : Ptr
  stack0 = (palloc s.machine).0

  abbrev stack1 : Ptr
  stack1 = third s.machine

  abbrev begun : Sched
  begun = record s { machine = after_four s.machine }

  abbrev one : Ptr × Sched
  one = create_proc begun proc0 0 stack0 4096

  abbrev both : Ptr × Sched
  both = create_proc one.1 proc1 0 stack1 4096

  -- The two structures are made, on pages of their own.
  record Made : Type 0 where
    k0 : ℕ
    k1 : ℕ
    first : Creates begun proc0 stack0 one.0 one.1 k0
    second : Creates one.1 proc1 stack1 both.0 both.1 k1
    some0 : one.0 ≢ null
    some1 : both.0 ≢ null
    apart : one.0 ≢ both.0

  made : Made
  made =
      let f = four_pages s.machine r (omega arith) in
      let left = f.left in
      let h0 = f.stack0 in
      let (k0, c0) =
        create_proc-Creates begun stack0 f.is_ready
          (page_ends (after_four s.machine) h0.place stack0 f.is_ready h0.counted h0.address_is)
          (page_apart (after_four s.machine) h0.place stack0 f.is_ready h0.counted h0.address_is)
          proc0 (omega arith) in
      let n0 = granted_count c0.grants in
      let h1 = Held-kept c0.grants f.stack1 in
      let r1 = c0.grants.is_ready in
      let (k1, c1) =
        create_proc-Creates one.1 stack1 r1
          (page_ends one.1.machine h1.place stack1 r1 h1.counted h1.address_is)
          (page_apart one.1.machine h1.place stack1 r1 h1.counted h1.address_is) proc1
          (omega arith) in
      record {
        k0 = k0;
        k1 = k1;
        first = c0;
        second = c1;
        some0 = granted-ne c0.grants f.is_ready;
        some1 = granted-ne c1.grants r1;
        apart = Held-other c1.grants (granted-Held c0.grants);
      }

  structure0 : both.1.procs one.0 ≡ fresh_procedure s.next_pid proc0 0 stack0 4096
  unfolding update
  structure0 =
      let a = made.apart in
      rw (made.second.fills, ==_ne one.0 both.0 a, made.first.fills, (==_iff one.0 one.0).1 refl)
        refl

  structure1 :
      both.1.procs both.0 ≡ fresh_procedure ((s.next_pid + 1) % u32_mod) proc1 0 stack1 4096
  unfolding update
  structure1 = rw (made.second.fills, (==_iff both.0 both.0).1 refl, made.first.numbers) refl

test_sched-some :
    (proc0 proc1 : ℕ) (s : Sched) (r : IsReady s.machine) (enough : 6 ≤ free_count s.machine)
    → test_sched proc0 proc1 s
      ≡ some (
          register_proc
            (register_proc (both proc0 proc1 s r enough).1 (one proc0 proc1 s r enough).0)
            (both proc0 proc1 s r enough).0)
unfolding test_sched
test_sched-some proc0 proc1 s r enough =
    let f = four_pages s.machine r (omega arith) in
    let m = made proc0 proc1 s r enough in
    rw (==_ne _ 0 f.some0, ==_ne _ 0 f.some1, ==_ne _ 0 m.some0, ==_ne _ 0 m.some1) refl

-- What `test_sched` leaves: the two functions as processes 1 and 2, at their first instruction, on
-- stacks of their own, the first of them running and the second ready.
pub record Started (proc0 proc1 : ℕ) (u : Sched) : Type 0 where
  pub p0 : Ptr
  pub p1 : Ptr
  pub pair : IsPair u p0 p1
  pub entry0 : (regs_of u p0).rip ≡ proc0
  pub entry1 : (regs_of u p1).rip ≡ proc1
  pub pids : ((u.procs p0).pid ≡ 1) × ((u.procs p1).pid ≡ 2)
  pub stacks : (u.procs p0).state.kernel_stack ≢ (u.procs p1).state.kernel_stack
  pub tops :
      ((regs_of u p0).rsp ≡ (u.procs p0).state.kernel_stack + 4088)
      × ((regs_of u p1).rsp ≡ (u.procs p1).state.kernel_stack + 4088)

-- Behind `scheduler_init`, with a valid manager that has six free pages and whose bitmap is apart from
-- its pages, `test_sched` succeeds and leaves what `Started` says.
pub test_sched_lem :
    (proc0 proc1 : ℕ) (s : Sched)
    → IsReady s.machine
    → 6 ≤ free_count s.machine
    → s.proc_count ≡ 0
    → s.current_proc ≡ null
    → s.next_pid ≡ 1
    → (u : Sched) × (test_sched proc0 proc1 s ≡ some u) × Started proc0 proc1 u
test_sched_lem proc0 proc1 s r enough empty idle first_pid =
    let m = made proc0 proc1 s r enough in
    let f = four_pages s.machine r (omega arith) in
    let t = (both proc0 proc1 s r enough).1 in
    let p0 = (one proc0 proc1 s r enough).0 in
    let p1 = (both proc0 proc1 s r enough).0 in
    let c0 = m.first in
    let c1 = m.second in
    let pair =
      register-IsPair t p0 p1 (c1.counts ∙ c0.counts ∙ empty) (c1.currents ∙ c0.currents ∙ idle)
        m.some0 m.some1 m.apart in
    let e0 = structure0 proc0 proc1 s r enough in
    let e1 = structure1 proc0 proc1 s r enough in
    let kept0 = registered-state t p0 p1 p0 ∙ ap (λ p. p.state) e0 in
    let kept1 = registered-state t p0 p1 p1 ∙ ap (λ p. p.state) e1 in
    let (pid0, stack0_is, rip0, rsp0) =
      fresh_procedure_lem s.next_pid proc0 0 (stack0 proc0 proc1 s r enough) 4096 in
    let (pid1, stack1_is, rip1, rsp1) =
      fresh_procedure_lem ((s.next_pid + 1) % u32_mod) proc1 0 (stack1 proc0 proc1 s r enough)
        4096 in
    (
      register_proc (register_proc t p0) p1,
      test_sched-some proc0 proc1 s r enough,
      record {
        p0 = p0;
        p1 = p1;
        pair = pair;
        entry0 = ap (λ c. c.regs.rip) kept0 ∙ rip0;
        entry1 = ap (λ c. c.regs.rip) kept1 ∙ rip1;
        pids = (
          registered-pid t p0 p1 p0 ∙ ap (λ p. p.pid) e0 ∙ pid0 ∙ first_pid,
          registered-pid t p0 p1 p1
              ∙ ap (λ p. p.pid) e1
              ∙ pid1
              ∙ ap (λ n. (n + 1) % u32_mod) first_pid,
        );
        stacks = λ e. f.apart (
            sym stack0_is
            ∙ sym (ap (λ c. c.kernel_stack) kept0)
            ∙ e
            ∙ ap (λ c. c.kernel_stack) kept1
            ∙ stack1_is);
        tops = (
          ap (λ c. c.regs.rsp) kept0
              ∙ rsp0
              ∙ rw (ap (λ c. c.kernel_stack) kept0 ∙ stack0_is) (omega (arith, f.ends0)),
          ap (λ c. c.regs.rsp) kept1
              ∙ rsp1
              ∙ rw (ap (λ c. c.kernel_stack) kept1 ∙ stack1_is) (omega (arith, f.ends1)),
        );
      },
    )
