-- ===== src/Sched/Register.antt =====
-- `register_proc`: a new process at the end of the list.
use native.Mathlib.Decide.{ℕ_discrete}
use terracotta_os.Prelude.{
  ℕ, ◌+◌, ◌<◌, ◌≡◌, ◌≢◌, refl, ◌∙◌, inl, inr, true, false, leb, ◌==◌, if◌then◌else◌, Bool-cases,
  arith,
}
use terracotta_os.Memory.{Ptr, null}
use terracotta_os.Sched.Data.{ready, running}
use terracotta_os.Sched.{Sched, max_procs, update, set_proc_state, register_proc}
use terracotta_os.Sched.Next.{Distinct}
use terracotta_os.Sched.Inv.{IsValid, state_of}

-- What a registration makes of the scheduler.
pub record Registers (s : Sched) (p : Ptr) (s' : Sched) : Type 0 where
  pub counts : s'.proc_count ≡ s.proc_count + 1
  pub lists : (i : ℕ) → s'.proc_list i ≡ (if i == s.proc_count then p else s.proc_list i)
  pub currents : s'.current_proc ≡ (if s.current_proc == 0 then p else s.current_proc)
  pub states :
      (q : Ptr)
      → state_of s' q
        ≡ (if q == p then (if s.current_proc == 0 then running else ready) else state_of s q)

pub register_proc-Registers :
    (s : Sched) (p : Ptr) → s.proc_count < max_procs → Registers s p (register_proc s p)
unfolding register_proc set_proc_state update
register_proc-Registers s p room =
    let test : leb max_procs s.proc_count ≡ false = ground arith in
    elim (Bool-cases (s.current_proc == 0)) [
      | inl first ↦
          rw (test, first)
            (record {
              counts = refl;
              lists = λ i. refl;
              currents = rw first;
              states = λ q. rw first (ground arith);
            })
      | inr later ↦
          rw (test, later)
            (record {
              counts = refl;
              lists = λ i. refl;
              currents = rw later;
              states = λ q. rw later (ground arith);
            })
    ]

-- The current process is `NULL` only while the list is empty.
current-null : (s : Sched) → IsValid s → s.current_proc ≡ null → s.proc_count ≡ 0
current-null s v e = elim (ℕ_discrete s.proc_count 0) [
  | yes none_listed ↦ none_listed
  | no ne ↦ let (c, lt, at) = v.current_listed ne in absurd (v.non_null c lt (at ∙ e))
]

module _ {s s' : Sched} {p : Ptr} (v : IsValid s) (r : Registers s p s')
    (room : s.proc_count < max_procs) (some : p ≢ null)
    (unlisted : (i : ℕ) → i < s.proc_count → s.proc_list i ≢ p) where
  listed-Distinct : Distinct s'
  listed-Distinct i j hi hj e =
      let counts = r.counts in
      ground (arith, r.lists i, r.lists j, unlisted i, unlisted j, v.distinct i j)

  listed-non_null : (i : ℕ) → i < s'.proc_count → s'.proc_list i ≢ null
  listed-non_null i hi e = let counts = r.counts in ground (arith, r.lists i, v.non_null i)

  listed-current : (c : ℕ) × (c < s'.proc_count) × (s'.proc_list c ≡ s'.current_proc)
  listed-current = elim (ℕ_discrete s.proc_count 0) [
    | yes e ↦ (
      s.proc_count,
      omega (arith, r.counts),
      ground (arith, r.lists s.proc_count, r.currents, v.none_current e),
    )
    | no ne ↦
        let (c, lt, at) = v.current_listed ne in
        let non_null = v.non_null c lt in
        (c, omega (arith, r.counts), ground (arith, r.lists c, r.currents))
  ]

  listed-runs : state_of s' s'.current_proc ≡ running
  listed-runs = elim (ℕ_discrete s.proc_count 0) [
    | yes e ↦ ground (arith, r.states s'.current_proc, r.currents, v.none_current e)
    | no ne ↦
        let (c, lt, at) = v.current_listed ne in
        let non_null = v.non_null c lt in
        let runs = v.current_runs ne in
        let apart = unlisted c lt in
        let cur : s'.current_proc ≡ s.current_proc = ground (arith, r.currents) in
        rw cur (ground (arith, r.states s.current_proc))
  ]

  listed-only :
      (i : ℕ)
      → i < s'.proc_count
      → state_of s' (s'.proc_list i) ≡ running
      → s'.proc_list i ≡ s'.current_proc
  listed-only i hi run =
      let counts = r.counts in
      let same = r.lists i in
      ground
        (arith, r.states (s'.proc_list i), r.currents, v.only_current i, unlisted i, v.non_null i)

register_proc-full :
    (s : Sched) (p : Ptr) → leb max_procs s.proc_count ≡ true → register_proc s p ≡ s
unfolding register_proc
register_proc-full s p full = rw full

-- Registering a process that is not `NULL` and not yet in the list keeps the invariant of the
-- scheduler, also on a full list.
pub register_proc-IsValid :
    (s : Sched) (p : Ptr)
    → IsValid s
    → p ≢ null
    → ((i : ℕ) → i < s.proc_count → s.proc_list i ≢ p)
    → IsValid (register_proc s p)
register_proc-IsValid s p v some unlisted = elim (Bool-cases (leb max_procs s.proc_count)) [
  | inl full ↦ rw (register_proc-full s p full) v
  | inr room ↦
      let lt : s.proc_count < max_procs = ground arith in
      let r = register_proc-Registers s p lt in
      let counts = r.counts in
      record {
        bounded = omega arith;
        distinct = listed-Distinct v r lt some unlisted;
        non_null = listed-non_null v r lt some unlisted;
        none_current = λ e. absurd (omega arith);
        current_listed = λ ne. listed-current v r lt some unlisted;
        current_runs = λ ne. listed-runs v r lt some unlisted;
        only_current = listed-only v r lt some unlisted;
      }
]

-- Of the structures a registration changes the states of the processes only.
pub register_proc-kept :
    (s : Sched) (p q : Ptr)
    → (((register_proc s p).procs q).pid ≡ (s.procs q).pid)
      × (((register_proc s p).procs q).state ≡ (s.procs q).state)
unfolding register_proc set_proc_state update
register_proc-kept s p q = ground arith
