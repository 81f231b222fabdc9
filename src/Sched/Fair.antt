-- ===== src/Sched/Fair.antt =====
-- Round robin: the processes take turns in the order of the list.
use native.Mathlib.Nat.{mod-add-mod, mod-eq_of_lt, mod_self, add-zero}
use native.Mathlib.Decide.{ℕ_discrete, dec_lt}
use terracotta_os.Prelude.{
  ℕ, ◌+◌, ◌%◌, ◌≤◌, ◌<◌, ◌≡◌, ◌≢◌, refl, ap, ◌∙◌, sym, ◌⊎◌, inl, inr, true, arith, List, [], ◌∷◌,
  length,
}
use terracotta_os.Memory.{Ptr, null}
use terracotta_os.Sched.Data.{ready, running, RegisterState}
use terracotta_os.Sched.{
  Sched, is_runnable, save_prev, set_proc_state, find_next_proc, context_switch,
}
use terracotta_os.Sched.Next.{nth, runs, find_next_proc_lem}
use terracotta_os.Sched.Inv.{
  switch-other, IsValid, state_of, switch_to, context_switch-IsValid, state_of-switch,
}

-- Every process of the list is ready or runs.
abbrev pub AllLive : Sched → Type 0
AllLive s =
    (i : ℕ)
    → i < s.proc_count
    → (state_of s (s.proc_list i) ≡ ready) ⊎ (state_of s (s.proc_list i) ≡ running)

-- The list of `t` is that of `s`, its processes are live, and place `c` is current.
pub record IsTurn (s t : Sched) (c : ℕ) : Type 0 where
  pub valid : IsValid t
  pub live : AllLive t
  pub count_kept : t.proc_count ≡ s.proc_count
  pub list_kept : t.proc_list ≡ s.proc_list
  pub place : c < s.proc_count
  pub at : s.proc_list c ≡ t.current_proc

list-switch_to :
    (s : Sched) (p : Ptr) (cpu : RegisterState) → (switch_to s p cpu).proc_list ≡ s.proc_list
unfolding switch_to set_proc_state save_prev
list-switch_to s p cpu = refl

count-switch_to :
    (s : Sched) (p : Ptr) (cpu : RegisterState) → (switch_to s p cpu).proc_count ≡ s.proc_count
unfolding switch_to set_proc_state save_prev
count-switch_to s p cpu = refl

current-switch_to :
    (s : Sched) (p : Ptr) (cpu : RegisterState) → (switch_to s p cpu).current_proc ≡ p
unfolding switch_to
current-switch_to s p cpu = refl

succ_mod_ne : (c n : ℕ) → c < n → 2 ≤ n → (c + 1) % n ≢ c
succ_mod_ne c n lt two e = elim (dec_lt (c + 1) n) [
  | yes h ↦ absurd (omega (arith, mod-eq_of_lt h))
  | no h ↦
      let wraps : c + 1 ≡ n = omega arith in
      let zero_left : (c + 1) % n ≡ 0 = rw wraps (mod_self n) in absurd (omega arith)
]

-- The successor in the round is another process, if there are two.
next_differs :
    (s : Sched) (c : ℕ)
    → IsValid s
    → 2 ≤ s.proc_count
    → c < s.proc_count
    → s.proc_list ((c + 1) % s.proc_count) ≢ s.proc_list c
next_differs s c v two lt e = succ_mod_ne c s.proc_count lt two (v.distinct _ c (omega arith) lt e)

-- The successor is ready, so the search stops there at once.
next_runs :
    (s : Sched) (c : ℕ)
    → IsValid s
    → AllLive s
    → 2 ≤ s.proc_count
    → c < s.proc_count
    → s.proc_list c ≡ s.current_proc
    → runs s (nth s (c + 1) 0) ≡ true
unfolding is_runnable
next_runs s c v live two lt at =
    let i : ℕ = (c + 1 + 0) % s.proc_count in
    let place : i ≡ (c + 1) % s.proc_count = ap (λ n. n % s.proc_count) (omega arith) in
    let other : s.proc_list i ≢ s.current_proc = rw (place, ← at) (next_differs s c v two lt) in
    let small : i < s.proc_count = omega arith in
    elim (live i small) [
      | inl is_ready ↦ rw is_ready
      | inr is_running ↦ absurd (other (v.only_current i small is_running))
    ]

live-switch_to :
    (s : Sched) (p : Ptr) (cpu : RegisterState)
    → AllLive s
    → p ≢ s.current_proc
    → AllLive (switch_to s p cpu)
unfolding switch_to set_proc_state save_prev
live-switch_to s p cpu live ne i lt =
    ground (arith, live i, state_of-switch s p cpu (s.proc_list i) ne)

-- With two live processes or more the search finds the next one of the list.
find_next_proc-live :
    (s : Sched) (c : ℕ)
    → IsValid s
    → AllLive s
    → 2 ≤ s.proc_count
    → c < s.proc_count
    → s.proc_list c ≡ s.current_proc
    → find_next_proc s ≡ s.proc_list ((c + 1) % s.proc_count)
find_next_proc-live s c v live two lt at =
    let hit = next_runs s c v live two lt at in
    let cur : s.current_proc ≢ null = λ e. v.non_null c lt (at ∙ e) in
    elim (find_next_proc_lem s c v.distinct lt at cur) [
      | inl (all, e) ↦ cc (all 0 (omega arith))
      | inr (k, small, e, run, first) ↦ elim (ℕ_discrete k 0) [
        | yes zero_steps ↦ e ∙ ap (λ n. s.proc_list (n % s.proc_count)) (omega arith)
        | no ne ↦ cc (first 0 (omega arith))
      ]
    ]

switch_next :
    (s : Sched) (c : ℕ) (cpu : RegisterState)
    → IsValid s
    → AllLive s
    → 2 ≤ s.proc_count
    → c < s.proc_count
    → s.proc_list c ≡ s.current_proc
    → IsTurn s (context_switch s cpu).1 ((c + 1) % s.proc_count)
switch_next s c cpu v live two lt at =
    let next : Ptr = s.proc_list ((c + 1) % s.proc_count) in
    let other : next ≢ s.current_proc = rw (← at) (next_differs s c v two lt) in
    let some : next ≢ null = v.non_null _ (omega arith) in
    let cur : s.current_proc ≢ null = λ e. v.non_null c lt (at ∙ e) in
    let e = switch-other s cpu (find_next_proc-live s c v live two lt at) some other cur in
    record {
      valid = context_switch-IsValid s cpu v;
      live = rw e (live-switch_to s next cpu live other);
      count_kept = rw e (count-switch_to s next cpu);
      list_kept = rw e (list-switch_to s next cpu);
      place = omega arith;
      at = rw e (sym (current-switch_to s next cpu));
    }

-- Switches one after another, each with what the registers hold then.
unfoldable pub switches : List RegisterState → Sched → Sched
switches [] s = s
switches (cpu ∷ rest) s = switches rest (context_switch s cpu).1

-- Round robin: in a valid scheduler with two processes or more, all of them ready or running, `n`
-- switches give the processor to the process `n` places further round the list than the current
-- one.
pub switches_turn :
    (cpus : List RegisterState) (s : Sched) (c : ℕ)
    → IsValid s
    → AllLive s
    → 2 ≤ s.proc_count
    → c < s.proc_count
    → s.proc_list c ≡ s.current_proc
    → (switches cpus s).current_proc ≡ s.proc_list ((c + length cpus) % s.proc_count)
unfolding switches
switches_turn [] s c v live two lt at =
    let e : (c + 0) % s.proc_count ≡ c =
      ap (λ n. n % s.proc_count) (add-zero c) ∙ mod-eq_of_lt lt in
    rw e (sym at)
switches_turn (cpu ∷ rest) s c v live two lt at =
    let t = switch_next s c cpu v live two lt at in
    let ih =
      switches_turn rest (context_switch s cpu).1 ((c + 1) % s.proc_count) t.valid t.live
        (rw t.count_kept two) (rw t.count_kept t.place) (rw t.list_kept t.at) in
    ih
    ∙ rw (t.count_kept, t.list_kept)
        (ap s.proc_list (
          mod-add-mod (c + 1) s.proc_count (length rest)
          ∙ ap (λ n. n % s.proc_count) (omega arith)))
