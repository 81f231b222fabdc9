-- ===== src/Start/Pair.antt =====
-- `register_proc` for the two processes of `test_sched`.
use terracotta_os.Prelude.{◌≡◌, ◌≢◌, ap, sym, ◌∙◌, arith}
use terracotta_os.Memory.{Ptr, null}
use terracotta_os.Sched.Data.{ready, running}
use terracotta_os.Sched.{Sched, register_proc}
use terracotta_os.Sched.Inv.{IsValid, state_of, empty-IsValid}
use terracotta_os.Sched.Register.{
  register_proc-Registers, register_proc-IsValid, register_proc-kept,
}

-- Two processes in a list that was empty: the first runs, the second waits for its turn.
pub record IsPair (u : Sched) (p0 p1 : Ptr) : Type 0 where
  pub valid : IsValid u
  pub two : u.proc_count ≡ 2
  pub first : u.proc_list 0 ≡ p0
  pub second : u.proc_list 1 ≡ p1
  pub current : u.current_proc ≡ p0
  pub state0 : state_of u p0 ≡ running
  pub state1 : state_of u p1 ≡ ready

pub register-IsPair :
    (t : Sched) (p0 p1 : Ptr)
    → t.proc_count ≡ 0
    → t.current_proc ≡ null
    → p0 ≢ null
    → p1 ≢ null
    → p0 ≢ p1
    → IsPair (register_proc (register_proc t p0) p1) p0 p1
register-IsPair t p0 p1 empty idle some0 some1 apart =
    let u = register_proc t p0 in
    let r = register_proc-Registers t p0 (omega arith) in
    let one : u.proc_count ≡ 1 = omega (arith, r.counts) in
    let head : u.proc_list 0 ≡ p0 = ground (arith, r.lists 0) in
    let cur : u.current_proc ≡ p0 = ground (arith, r.currents) in
    let runs0 : state_of u p0 ≡ running = ground (arith, r.states p0) in
    let v =
      register_proc-IsValid t p0 (empty-IsValid t empty idle) some0
        (λ i lt. absurd (omega arith)) in
    let r' = register_proc-Registers u p1 (omega arith) in
    record {
      valid =
          register_proc-IsValid u p1 v some1
            (λ i lt e. apart (sym head ∙ ap u.proc_list (omega arith) ∙ e));
      two = omega (arith, r'.counts);
      first = ground (arith, r'.lists 0);
      second = ground (arith, r'.lists 1);
      current = ground (arith, r'.currents);
      state0 = ground (arith, r'.states p0);
      state1 = ground (arith, r'.states p1);
    }

-- Both registrations keep the rest of a structure.
module _ (t : Sched) (p0 p1 q : Ptr) where
  abbrev pub registered : Sched
  registered = register_proc (register_proc t p0) p1

  pub registered-pid : (registered.procs q).pid ≡ (t.procs q).pid
  registered-pid = (register_proc-kept (register_proc t p0) p1 q).0 ∙ (register_proc-kept t p0 q).0

  pub registered-state : (registered.procs q).state ≡ (t.procs q).state
  registered-state =
      (register_proc-kept (register_proc t p0) p1 q).1 ∙ (register_proc-kept t p0 q).1
