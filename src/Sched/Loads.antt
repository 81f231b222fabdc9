-- ===== src/Sched/Loads.antt =====
-- The registers that a switch loads, and when it switches.
use terracotta_os.Prelude.{◌≡◌, ◌≢◌, refl, ap, sym, ◌∙◌, inl, inr}
use terracotta_os.Sched.Data.{RegisterState}
use terracotta_os.Sched.{Sched, save_regs, jumps, context_switch}
use terracotta_os.Sched.Inv.{IsValid, context_switch-cases}
use terracotta_os.Sched.Resume.{
  regs_of, context_switch-Switches, regs_of-switch_target, current-switch,
}

-- A switch to another process loads what stood in the structure of that process.
pub switch-loads :
    (s s' : Sched) (cpu r : RegisterState)
    → IsValid s
    → context_switch s cpu ≡ (jumps r, s')
    → r ≡ regs_of s s'.current_proc
switch-loads s s' cpu r v e =
    let w = context_switch-Switches s cpu v e in
    let at : s'.current_proc ≡ w.chosen =
      ap (λ (x : Sched). x.current_proc) w.state_is ∙ current-switch s w.chosen cpu in
    w.loads
    ∙ ap (λ (x : Sched). regs_of x w.chosen) w.state_is
    ∙ regs_of-switch_target s w.chosen cpu w.other
    ∙ ap (regs_of s) (sym at)

-- If the current process changes, the switch jumps.
pub switch-jumps :
    (s : Sched) (cpu : RegisterState)
    → IsValid s
    → (context_switch s cpu).1.current_proc ≢ s.current_proc
    → (r : RegisterState) × (s' : Sched) × (context_switch s cpu ≡ (jumps r, s'))
switch-jumps s cpu v ne = elim (context_switch-cases s cpu v) [
  | inl stay ↦ absurd (ne (ap (λ p. p.1.current_proc) stay))
  | inr (c, k, lt, at, small, other, hit, first, move) ↦ (_, _, move)
]

-- The stack pointer is saved, the instruction pointer is not.
pub save_regs_lem :
    (saved cpu : RegisterState)
    → ((save_regs saved cpu).rip ≡ saved.rip) × ((save_regs saved cpu).rsp ≡ cpu.rsp)
unfolding save_regs
save_regs_lem saved cpu = (refl, refl)
