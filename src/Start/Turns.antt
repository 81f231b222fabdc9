-- ===== src/Start/Turns.antt =====
-- `test_sched` and the ticks that follow: the two processes take turns.
use terracotta_os.Prelude.{
  ℕ, ◌%◌, ◌≤◌, ◌≡◌, ap, sym, ◌∙◌, inl, inr, List, length, some, ◌==◌, if◌then◌else◌, Bool-cases,
  arith,
}
use terracotta_os.Memory.{Ptr, null}
use terracotta_os.Pmm.Count.{free_count}
use terracotta_os.Sched.Data.{RegisterState}
use terracotta_os.Sched.{Sched}
use terracotta_os.Sched.Inv.{state_of}
use terracotta_os.Sched.Fair.{AllLive, switches, switches_turn}
use terracotta_os.Start.{test_sched}
use terracotta_os.Start.Pages.{IsReady}
use terracotta_os.Start.Pair.{IsPair}
use terracotta_os.Start.Processes.{Started, test_sched_lem}

module _ (u : Sched) (p0 p1 : Ptr) (pair : IsPair u p0 p1) where
  pair-AllLive : AllLive u
  pair-AllLive i lt =
      let two = pair.two in
      elim (Bool-cases (i == 0)) [
        | inl e ↦
            let z : i ≡ 0 = ground arith in
            inr (ap (state_of u) (ap u.proc_list z ∙ pair.first) ∙ pair.state0)
        | inr ne ↦
            let z : i ≡ 1 = ground arith in
            inl (ap (state_of u) (ap u.proc_list z ∙ pair.second) ∙ pair.state1)
      ]

  pub pair-turns :
      (cpus : List RegisterState)
      → (switches cpus u).current_proc ≡ (if length cpus % 2 == 0 then p0 else p1)
  pair-turns cpus =
      let turn =
        switches_turn cpus u 0 pair.valid pair-AllLive (omega (arith, pair.two))
          (omega (arith, pair.two)) (pair.first ∙ sym pair.current) in
      let at : (switches cpus u).current_proc ≡ u.proc_list (length cpus % 2) =
        turn ∙ ap u.proc_list (rw pair.two (omega arith)) in
      elim (Bool-cases (length cpus % 2 == 0)) [
        | inl even ↦
            let z : length cpus % 2 ≡ 0 = ground arith in
            rw even (at ∙ ap u.proc_list z ∙ pair.first)
        | inr odd ↦
            let z : length cpus % 2 ≡ 1 = ground arith in
            rw odd (at ∙ ap u.proc_list z ∙ pair.second)
      ]

-- Behind `scheduler_init`, with a valid manager that has six free pages and whose bitmap is apart
-- from its pages, `test_sched` succeeds, and from then on an even number of switches leaves the
-- process of `proc0` current, and an odd number that of `proc1`.
pub test_sched-turns :
    (proc0 proc1 : ℕ) (s : Sched)
    → IsReady s.machine
    → 6 ≤ free_count s.machine
    → s.proc_count ≡ 0
    → s.current_proc ≡ null
    → s.next_pid ≡ 1
    → (u : Sched) × (test_sched proc0 proc1 s ≡ some u)
      × (start : Started proc0 proc1 u) × ((cpus : List RegisterState)
          → (switches cpus u).current_proc ≡ (if length cpus % 2 == 0 then start.p0 else start.p1))
test_sched-turns proc0 proc1 s r enough empty idle first_pid =
    let (u, e, start) = test_sched_lem proc0 proc1 s r enough empty idle first_pid in
    (u, e, start, pair-turns u start.p0 start.p1 start.pair)
