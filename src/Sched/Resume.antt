-- ===== src/Sched/Resume.antt =====
-- What a switch saves and restores, and where it resumes a process.
use terracotta_os.Prelude.{
  ℕ, ◌+◌, ◌%◌, ◌≡◌, ◌≢◌, refl, ap, ◌∙◌, sym, inl, inr, ◌||◌, ◌==◌, if◌then◌else◌, Bool-cases, arith,
}
use terracotta_os.Word.{u64_mod}
use terracotta_os.Memory.{Ptr}
use terracotta_os.Pmm.{kalloc}
use terracotta_os.Sched.Data.{SchedulerState, running, RegisterState}
use terracotta_os.Sched.{
  Sched, update, set_proc_state, save_prev, save_regs, register_proc, create_proc, fresh_procedure,
  sizeof_procedure, jumps, find_next_proc, context_switch, scheduler_tick,
}
use terracotta_os.Sched.Next.{nth}
use terracotta_os.Sched.Inv.{IsValid, switch_to, context_switch-cases, context_switch-IsValid}

abbrev pub regs_of : Sched → Ptr → RegisterState
regs_of s p = (s.procs p).state.regs

abbrev pub entry_of : Sched → Ptr → ℕ
entry_of s p = (s.procs p).state.entry_point

regs_of-switch :
    (s : Sched) (next : Ptr) (cpu : RegisterState) (q : Ptr)
    → regs_of (switch_to s next cpu) q
      ≡ (if q == s.current_proc then save_regs (regs_of s q) cpu else regs_of s q)
unfolding switch_to set_proc_state save_prev update
regs_of-switch s next cpu q = ground arith

entry_of-switch :
    (s : Sched) (next : Ptr) (cpu : RegisterState) (q : Ptr)
    → entry_of (switch_to s next cpu) q ≡ entry_of s q
unfolding switch_to set_proc_state save_prev update
entry_of-switch s next cpu q = ground arith

pub current-switch :
    (s : Sched) (next : Ptr) (cpu : RegisterState) → (switch_to s next cpu).current_proc ≡ next
unfolding switch_to
current-switch s next cpu = refl

-- What a switch that happens is: from the current process to another one.
pub record Switches (s : Sched) (cpu r : RegisterState) (s' : Sched) : Type 0 where
  pub chosen : Ptr
  pub other : chosen ≢ s.current_proc
  pub state_is : s' ≡ switch_to s chosen cpu
  pub loads : r ≡ regs_of s' chosen

jumps-injective : {r r' : RegisterState} → jumps r ≡ jumps r' → r ≡ r'
jumps-injective e = cc

pub context_switch-Switches :
    (s : Sched) (cpu : RegisterState) {r : RegisterState} {s' : Sched}
    → IsValid s
    → context_switch s cpu ≡ (jumps r, s')
    → Switches s cpu r s'
context_switch-Switches s cpu v e = elim (context_switch-cases s cpu v) [
  | inl stay ↦ cc
  | inr (c, k, lt, at, small, other, hit, first, move) ↦ record {
    chosen = nth s (c + 1) k;
    other = other;
    state_is = cc;
    loads = cc;
  }
]

pub regs_of-switch_target :
    (s : Sched) (next : Ptr) (cpu : RegisterState)
    → next ≢ s.current_proc
    → regs_of (switch_to s next cpu) next ≡ regs_of s next
regs_of-switch_target s next cpu ne = ground (arith, regs_of-switch s next cpu next)

-- In a valid scheduler a process that is switched away from and then, by the next switch, switched
-- back to gets the general registers and the flags that it had, and the instruction pointer that
-- stood in its structure before.
pub switch_back :
    (s s' s'' : Sched) (cpu cpu' r r' : RegisterState)
    → IsValid s
    → context_switch s cpu ≡ (jumps r, s')
    → context_switch s' cpu' ≡ (jumps r', s'')
    → s''.current_proc ≡ s.current_proc
    → r' ≡ save_regs (regs_of s s.current_proc) cpu
switch_back s s' s'' cpu cpu' r r' v e e' back =
    let w = context_switch-Switches s cpu v e in
    let v' : IsValid s' = rw e at (context_switch-IsValid s cpu v) in
    let w' = context_switch-Switches s' cpu' v' e' in
    let back_to : w'.chosen ≡ s.current_proc =
      sym (ap (λ (x : Sched). x.current_proc) w'.state_is ∙ current-switch s' w'.chosen cpu')
      ∙ back in
    w'.loads
    ∙ ap (λ (x : Sched). regs_of x w'.chosen) w'.state_is
    ∙ regs_of-switch_target s' w'.chosen cpu' w'.other
    ∙ ap (regs_of s') back_to
    ∙ ap (λ (x : Sched). regs_of x s.current_proc) w.state_is
    ∙ ground (arith, regs_of-switch s w.chosen cpu s.current_proc)

-- In every structure the instruction pointer is the entry point.
abbrev pub AtEntry : Sched → Type 0
AtEntry s = (p : Ptr) → (regs_of s p).rip ≡ entry_of s p

-- A tick of the timer, a registration, and the creation of a process.
pub data Step (s : Sched) : Sched → Type 0 where
  ticked : (cpu : RegisterState) → Step s (scheduler_tick s cpu).1
  registered : (p : Ptr) → Step s (register_proc s p)
  created :
      (entry_point privilege_level stack_base stack_size : ℕ)
      → Step s (create_proc s entry_point privilege_level stack_base stack_size).1

pub data Reach (s : Sched) : Sched → Type 0 where
  here : Reach s s
  next : {t u : Sched} → Reach s t → Step t u → Reach s u

set_proc_state-AtEntry :
    (s : Sched) (p : Ptr) (st : SchedulerState) → AtEntry s → AtEntry (set_proc_state s p st)
unfolding set_proc_state update
set_proc_state-AtEntry s p st h q = ground (arith, h q, h p)

save_prev-AtEntry :
    (s : Sched) (p : Ptr) (cpu : RegisterState) → AtEntry s → AtEntry (save_prev s p cpu)
unfolding save_prev save_regs update
save_prev-AtEntry s p cpu h q = ground (arith, h q, h p)

context_switch-AtEntry :
    (s : Sched) (cpu : RegisterState) → AtEntry s → AtEntry (context_switch s cpu).1
unfolding context_switch
context_switch-AtEntry s cpu h =
    elim (Bool-cases (find_next_proc s == 0 || s.current_proc == find_next_proc s)) [
      | inl stay ↦ rw stay h
      | inr move ↦ rw move (elim (Bool-cases (s.current_proc == 0)) [
        | inl idle ↦ rw idle (set_proc_state-AtEntry s (find_next_proc s) running h)
        | inr busy ↦ rw busy (
            set_proc_state-AtEntry (save_prev s s.current_proc cpu) (find_next_proc s) running
              (save_prev-AtEntry s s.current_proc cpu h))
      ])
    ]

register_proc-AtEntry : (s : Sched) (p : Ptr) → AtEntry s → AtEntry (register_proc s p)
unfolding register_proc set_proc_state update
register_proc-AtEntry s p h q = ground (arith, h q, h p)

create_proc-AtEntry :
    (s : Sched) (entry_point privilege_level stack_base stack_size : ℕ)
    → AtEntry s
    → AtEntry (create_proc s entry_point privilege_level stack_base stack_size).1
unfolding create_proc fresh_procedure update
create_proc-AtEntry s entry_point privilege_level stack_base stack_size h =
    elim (Bool-cases ((kalloc s.machine sizeof_procedure).0 == 0)) [
      | inl failed ↦ rw failed h
      | inr done ↦ rw done (λ q. ground (arith, h q))
    ]

Step-AtEntry : {s t : Sched} → Step s t → AtEntry s → AtEntry t
unfolding scheduler_tick
Step-AtEntry {s} (ticked cpu) h =
    let s' : Sched = record s { sched_ticks = (s.sched_ticks + 1) % u64_mod } in
    elim (Bool-cases (s'.sched_ticks % s'.sched_tick_freq == 0)) [
      | inl now ↦ rw now (context_switch-AtEntry s' cpu h)
      | inr later ↦ rw later h
    ]
Step-AtEntry {s} (registered p) h = register_proc-AtEntry s p h
Step-AtEntry {s} (created entry_point privilege_level stack_base stack_size) h =
    create_proc-AtEntry s entry_point privilege_level stack_base stack_size h

-- A jump loads the registers of the process that has become the current one.
context_switch-loads :
    (s : Sched) (cpu : RegisterState) {r : RegisterState} {u : Sched}
    → context_switch s cpu ≡ (jumps r, u)
    → r ≡ regs_of u u.current_proc
unfolding context_switch
context_switch-loads s cpu e =
    elim (Bool-cases (find_next_proc s == 0 || s.current_proc == find_next_proc s)) [
      | inl stay ↦ let e' = (rw stay at e) in cc
      | inr move ↦ let e' = (rw move at e) in cc e'
    ]

pub Reach-AtEntry : {s t : Sched} → AtEntry s → Reach s t → AtEntry t
Reach-AtEntry h here = h
Reach-AtEntry h (next r st) = Step-AtEntry st (Reach-AtEntry h r)

-- If in every structure the saved instruction pointer is the entry point at first, then after any
-- ticks, registrations and creations a switch resumes a process at its entry point: nothing ever
-- saves where the process had got to.
pub context_switch-entry_point :
    {s t : Sched} (cpu : RegisterState) {r : RegisterState} {u : Sched}
    → AtEntry s
    → Reach s t
    → context_switch t cpu ≡ (jumps r, u)
    → r.rip ≡ entry_of u u.current_proc
context_switch-entry_point {t} cpu {u} h reach e =
    let kept : AtEntry u = rw e at (context_switch-AtEntry t cpu (Reach-AtEntry h reach)) in
    ap (λ (x : RegisterState). x.rip) (context_switch-loads t cpu e) ∙ kept u.current_proc
