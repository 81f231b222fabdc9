-- ===== src/Sched/Inv.antt =====
-- The scheduler's invariant, kept by every operation.
use native.Mathlib.Decide.{ℕ_discrete}
use terracotta_os.Prelude.{
  ℕ, ◌+◌, ◌%◌, ◌≤◌, ◌<◌, ◌≡◌, ◌≢◌, refl, ◌∙◌, ◌⊎◌, inl, inr, true, false, ◌||◌, ◌==◌, ==_ne,
  if◌then◌else◌, Bool-cases, arith,
}
use terracotta_os.Word.{u64_mod}
use terracotta_os.Memory.{Ptr, null}
use terracotta_os.Sched.Data.{SchedulerState, ready, running, RegisterState}
use terracotta_os.Sched.{
  Sched, max_procs, update, set_proc_state, scheduler_init, save_prev, find_next_proc, returns,
  jumps, context_switch, scheduler_tick,
}
use terracotta_os.Sched.Next.{Distinct, nth, runs, find_next_proc_lem}

abbrev pub state_of : Sched → Ptr → SchedulerState
state_of s p = (s.procs p).proc_state

-- The list holds at most 1024 different processes, none of them `NULL`. While it is empty there is no
-- current process. Otherwise the current process stands in the list and runs, and no other one in the
-- list runs.
pub record IsValid (s : Sched) : Type 0 where
  pub bounded : s.proc_count ≤ max_procs
  pub distinct : Distinct s
  pub non_null : (i : ℕ) → i < s.proc_count → s.proc_list i ≢ null
  pub none_current : s.proc_count ≡ 0 → s.current_proc ≡ null
  pub current_listed :
      s.proc_count ≢ 0 → (c : ℕ) × (c < s.proc_count) × (s.proc_list c ≡ s.current_proc)
  pub current_runs : s.proc_count ≢ 0 → state_of s s.current_proc ≡ running
  pub only_current :
      (i : ℕ)
      → i < s.proc_count
      → state_of s (s.proc_list i) ≡ running
      → s.proc_list i ≡ s.current_proc

pub scheduler_init_lem :
    (s : Sched)
    → ((scheduler_init s).proc_count ≡ 0)
      × ((scheduler_init s).current_proc ≡ null)
      × ((scheduler_init s).next_pid ≡ 1)
      × ((scheduler_init s).machine ≡ s.machine)
unfolding scheduler_init
scheduler_init_lem s = (refl, refl, refl, refl)

pub empty-IsValid : (s : Sched) → s.proc_count ≡ 0 → s.current_proc ≡ null → IsValid s
empty-IsValid s e idle = record {
  bounded = omega arith;
  distinct = λ i j lt. absurd (omega arith);
  non_null = λ i lt. absurd (omega arith);
  none_current = λ h. idle;
  current_listed = λ ne. absurd (ne e);
  current_runs = λ ne. absurd (ne e);
  only_current = λ i lt. absurd (omega arith);
}

pub scheduler_init-IsValid : (s : Sched) → IsValid (scheduler_init s)
scheduler_init-IsValid s =
    let (empty, idle, first, same) = scheduler_init_lem s in
    empty-IsValid (scheduler_init s) empty idle

-- A switch from the current process to another one that is in the list.
unfoldable pub switch_to : Sched → Ptr → RegisterState → Sched
switch_to s next cpu = record (set_proc_state (save_prev s s.current_proc cpu) next running) {
  current_proc = next;
}

switch-none :
    (s : Sched) (cpu : RegisterState)
    → find_next_proc s ≡ null
    → context_switch s cpu ≡ (returns, s)
unfolding context_switch
switch-none s cpu e = rw (e, context_switch)

switch-same :
    (s : Sched) (cpu : RegisterState)
    → find_next_proc s ≡ s.current_proc
    → context_switch s cpu ≡ (returns, s)
unfolding context_switch
switch-same s cpu e =
    let test : (find_next_proc s == 0 || s.current_proc == find_next_proc s) ≡ true =
      ground arith in
    rw test

pub switch-other :
    (s : Sched) (cpu : RegisterState) {next : Ptr}
    → find_next_proc s ≡ next
    → next ≢ null
    → next ≢ s.current_proc
    → s.current_proc ≢ null
    → context_switch s cpu
      ≡ (jumps ((switch_to s next cpu).procs next).state.regs, switch_to s next cpu)
unfolding context_switch switch_to
switch-other s cpu {next} e some other cur =
    let test : (next == 0 || s.current_proc == next) ≡ false = ground arith in
    rw (e, test, ==_ne s.current_proc 0 cur)

find_next_proc-empty : (s : Sched) → s.proc_count ≡ 0 → find_next_proc s ≡ null
unfolding find_next_proc
find_next_proc-empty s e = let test : (s.proc_count == 0) ≡ true = ground arith in rw test

-- `context_switch` either changes nothing or switches to the process that `find_next_proc` found.
pub context_switch-cases :
    (s : Sched) (cpu : RegisterState)
    → IsValid s
    → (context_switch s cpu ≡ (returns, s))
      ⊎ ((c k : ℕ) × (c < s.proc_count)
          × (s.proc_list c ≡ s.current_proc)
          × (k < s.proc_count)
          × (nth s (c + 1) k ≢ s.current_proc)
          × (runs s (nth s (c + 1) k) ≡ true)
          × ((j : ℕ) → j < k → runs s (nth s (c + 1) j) ≡ false)
          × (context_switch s cpu ≡ (
              let s' = switch_to s (nth s (c + 1) k) cpu in
              (jumps (s'.procs (nth s (c + 1) k)).state.regs, s'))))
context_switch-cases s cpu v = elim (ℕ_discrete s.proc_count 0) [
  | yes e ↦ inl (switch-none s cpu (find_next_proc-empty s e))
  | no ne ↦
      let (c, lt, at) = v.current_listed ne in
      let cur : s.current_proc ≢ null = λ h. v.non_null c lt (at ∙ h) in
      elim (find_next_proc_lem s c v.distinct lt at cur) [
        | inl (all, e) ↦ inl (switch-none s cpu e)
        | inr (k, small, e, hit, first) ↦ elim (ℕ_discrete (nth s (c + 1) k) s.current_proc) [
          | yes same ↦ inl (switch-same s cpu (e ∙ same))
          | no other ↦
              let some : nth s (c + 1) k ≢ null =
                v.non_null ((c + 1 + k) % s.proc_count) (omega arith) in
              inr (c, k, lt, at, small, other, hit, first, switch-other s cpu e some other cur)
        ]
      ]
]

-- What a switch does to the structures: the old process becomes ready, the new one runs, no other
-- changes, and the list stays.
pub state_of-switch :
    (s : Sched) (next : Ptr) (cpu : RegisterState) (q : Ptr)
    → next ≢ s.current_proc
    → state_of (switch_to s next cpu) q
      ≡ (if q == next then running else if q == s.current_proc then ready else state_of s q)
unfolding switch_to set_proc_state save_prev update
state_of-switch s next cpu q ne = ground arith

module _ (s : Sched) (cpu : RegisterState) (v : IsValid s) (i : ℕ) (lt : i < s.proc_count)
    (other : s.proc_list i ≢ s.current_proc) where
  pub switch_to-IsValid : IsValid (switch_to s (s.proc_list i) cpu)
  unfolding switch_to set_proc_state save_prev
  switch_to-IsValid = record {
    bounded = v.bounded;
    distinct = v.distinct;
    non_null = v.non_null;
    none_current = λ e. absurd (omega arith);
    current_listed = λ ne. (i, lt, refl);
    current_runs =
        λ ne. ground (arith, state_of-switch s (s.proc_list i) cpu (s.proc_list i) other);
    only_current = λ j small run. ground (
      arith,
      state_of-switch s (s.proc_list i) cpu (s.proc_list j) other,
      v.only_current j small,
    );
  }

-- A context switch keeps the invariant of the scheduler, whatever the registers hold: the current
-- process of a list that is not empty runs, and no other one of the list does.
pub context_switch-IsValid :
    (s : Sched) (cpu : RegisterState) → IsValid s → IsValid (context_switch s cpu).1
context_switch-IsValid s cpu v = elim (context_switch-cases s cpu v) [
  | inl e ↦ rw e v
  | inr (c, k, lt, at, small, other, hit, first, e) ↦
      rw e (switch_to-IsValid s cpu v ((c + 1 + k) % s.proc_count) (omega arith) other)
]

-- A tick of the timer keeps the invariant of the scheduler, whether it switches or not.
pub scheduler_tick-IsValid :
    (s : Sched) (cpu : RegisterState) → IsValid s → IsValid (scheduler_tick s cpu).1
unfolding scheduler_tick
scheduler_tick-IsValid s cpu v =
    let s' : Sched = record s { sched_ticks = (s.sched_ticks + 1) % u64_mod } in
    let v' : IsValid s' = record {
      bounded = v.bounded;
      distinct = v.distinct;
      non_null = v.non_null;
      none_current = v.none_current;
      current_listed = v.current_listed;
      current_runs = v.current_runs;
      only_current = v.only_current;
    } in
    elim (Bool-cases (s'.sched_ticks % s'.sched_tick_freq == 0)) [
      | inl now ↦ rw now (context_switch-IsValid s' cpu v')
      | inr later ↦ rw later v'
    ]
