-- ===== src/Start/Resumed.antt =====
-- The first two switches behind `test_sched`: where the two processes come to run.
use terracotta_os.Prelude.{ℕ, ◌+◌, ◌≡◌, ◌≢◌, ap, sym, ◌∙◌, [], ◌∷◌, arith}
use terracotta_os.Memory.{Ptr}
use terracotta_os.Sched.Data.{RegisterState}
use terracotta_os.Sched.{Sched, jumps, context_switch}
use terracotta_os.Sched.Inv.{IsValid, context_switch-IsValid}
use terracotta_os.Sched.Fair.{switches}
use terracotta_os.Sched.Resume.{regs_of, switch_back}
use terracotta_os.Sched.Loads.{switch-loads, switch-jumps, save_regs_lem}
use terracotta_os.Start.Processes.{Started}
use terracotta_os.Start.Turns.{pair-turns}

-- A switch to `p`, with the registers that it loads and the scheduler that it leaves.
record SwitchesTo (s : Sched) (cpu : RegisterState) (p : Ptr) : Type 0 where
  loaded : RegisterState
  left : Sched
  switches : context_switch s cpu ≡ (jumps loaded, left)
  valid : IsValid left
  current : left.current_proc ≡ p

switches_to :
    (s : Sched) (cpu : RegisterState) (p : Ptr)
    → IsValid s
    → (context_switch s cpu).1.current_proc ≡ p
    → p ≢ s.current_proc
    → SwitchesTo s cpu p
switches_to s cpu p v at ne =
    let (r, s', e) = switch-jumps s cpu v (λ same. ne (sym at ∙ same)) in
    record {
      loaded = r;
      left = s';
      switches = e;
      valid = rw e at (context_switch-IsValid s cpu v);
      current = sym (ap (λ q. q.1.current_proc) e) ∙ at;
    }

-- Behind `test_sched`, the first switch starts the second process at `proc1`, on its own stack. The
-- second one starts the first process at `proc0`, but with the stack pointer that the processor had
-- at the first switch: the stack that was prepared for it is not used.
pub first_switches :
    (proc0 proc1 : ℕ) (u : Sched) (cpu cpu' : RegisterState)
    → Started proc0 proc1 u
    → (r r' : RegisterState) × (u' u'' : Sched) × (context_switch u cpu ≡ (jumps r, u'))
      × (context_switch u' cpu' ≡ (jumps r', u''))
      × (r.rip ≡ proc1)
      × (r.rsp ≡ (u.procs u'.current_proc).state.kernel_stack + 4088)
      × (r'.rip ≡ proc0)
      × (r'.rsp ≡ cpu.rsp)
unfolding switches
first_switches proc0 proc1 u cpu cpu' s =
    let pair = s.pair in
    let two = pair.two in
    let distinct = pair.valid.distinct 0 1 (omega arith) (omega arith) in
    let apart : s.p1 ≢ s.p0 =
      λ e. absurd (omega (arith, distinct (pair.first ∙ sym e ∙ sym pair.second))) in
    let a =
      switches_to u cpu s.p1 pair.valid (pair-turns u s.p0 s.p1 pair (cpu ∷ []))
        (rw pair.current apart) in
    let turn2 : (context_switch a.left cpu').1.current_proc ≡ s.p0 =
      ap (λ q. (context_switch q.1 cpu').1.current_proc) (sym a.switches)
      ∙ pair-turns u s.p0 s.p1 pair (cpu ∷ cpu' ∷ []) in
    let b = switches_to a.left cpu' s.p0 a.valid turn2 (rw a.current (λ e. apart (sym e))) in
    let loads = switch-loads u a.left cpu a.loaded pair.valid a.switches in
    let back =
      switch_back u a.left b.left cpu cpu' a.loaded b.loaded pair.valid a.switches b.switches
        (b.current ∙ sym pair.current) in
    let (rip, rsp) = save_regs_lem (regs_of u u.current_proc) cpu in
    (
      a.loaded,
      b.loaded,
      a.left,
      b.left,
      a.switches,
      b.switches,
      ap (λ x. x.rip) loads ∙ ap (λ p. (regs_of u p).rip) a.current ∙ s.entry1,
      ap (λ x. x.rsp) loads ∙ rw a.current (s.tops).1,
      ap (λ x. x.rip) back ∙ rip ∙ ap (λ p. (regs_of u p).rip) pair.current ∙ s.entry0,
      ap (λ x. x.rsp) back ∙ rsp,
    )
