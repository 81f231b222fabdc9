-- ===== src/Sched/Next.antt =====
-- `find_next_proc`: the first runnable process after the current one, going round the list.
use native.Mathlib.Decide.{ℕ_discrete}
use native.Mathlib.Nat.{mod-add-mod}
use terracotta_os.Prelude.{
  ℕ, zero, suc, ◌+◌, ◌%◌, ◌≤◌, ◌<◌, ◌≡◌, ◌≢◌, refl, ap, ◌∙◌, sym, ◌⊎◌, inl, inr, Bool, true, false,
  ◌==◌, ==_ne, ==_iff, Bool-cases, arith,
}
use terracotta_os.Memory.{Ptr, null}
use terracotta_os.Sched.{Sched, find_start, is_runnable, find_runnable, find_next_proc}

-- The `i`-th process of the search from `start` on.
abbrev pub nth : Sched → ℕ → ℕ → Ptr
nth s start i = s.proc_list ((start + i) % s.proc_count)

abbrev pub runs : Sched → Ptr → Bool
runs s p = is_runnable (s.procs p).proc_state

-- The search from `i` on, over `left` processes.
find_runnable-cases :
    (s : Sched) (start i left : ℕ)
    → ((j : ℕ) → i ≤ j → j < i + left → runs s (nth s start j) ≡ false)
        × (find_runnable s start i left ≡ null)
      ⊎ ((k : ℕ) × (i ≤ k)
          × (k < i + left)
          × (find_runnable s start i left ≡ nth s start k)
          × (runs s (nth s start k) ≡ true)
          × ((j : ℕ) → i ≤ j → j < k → runs s (nth s start j) ≡ false))
unfolding find_runnable
find_runnable-cases s start i zero = inl (λ j lo hi. absurd (omega arith), refl)
find_runnable-cases s start i (suc left) = elim (Bool-cases (runs s (nth s start i))) [
  | inl hit ↦ inr (i, omega arith, omega arith, rw hit, hit, λ j lo hi. absurd (omega arith))
  | inr miss ↦ elim (find_runnable-cases s start (i + 1) left) [
    | inl (all, e) ↦ inl (
      λ j lo hi. elim (ℕ_discrete i j) [
        | yes same ↦ rw (← same) miss
        | no ne ↦ all j (omega arith) (omega arith)
      ],
      rw miss e,
    )
    | inr (k, lo, hi, e, hit, first) ↦ inr (
      k,
      omega arith,
      omega arith,
      rw miss e,
      hit,
      λ j below above. elim (ℕ_discrete i j) [
        | yes same ↦ rw (← same) miss
        | no ne ↦ first j (omega arith) above
      ],
    )
  ]
]

-- No process stands twice in the list.
abbrev pub Distinct : Sched → Type 0
Distinct s = (i j : ℕ) → i < s.proc_count → j < s.proc_count → s.proc_list i ≡ s.proc_list j → i ≡ j

find_start-lem :
    (s : Sched) (i left c : ℕ)
    → Distinct s
    → i + left ≡ s.proc_count
    → i ≤ c
    → c < s.proc_count
    → s.proc_list c ≡ s.current_proc
    → find_start s i left ≡ (c + 1) % s.proc_count
unfolding find_start
find_start-lem s i zero c d e lo hi at = absurd (omega arith)
find_start-lem s i (suc left) c d e lo hi at = elim (ℕ_discrete i c) [
  | yes same ↦
      let hit : (s.proc_list i == s.current_proc) ≡ true = (==_iff _ _).1 (rw same at) in
      rw (hit, same)
  | no ne ↦
      let miss : (s.proc_list i == s.current_proc) ≡ false =
        ==_ne _ _ (λ h. ne (d i c (omega arith) hi (h ∙ sym at))) in
      rw miss (find_start-lem s (i + 1) left c d (omega arith) (omega arith) hi at)
]

nth-mod : (s : Sched) (a j : ℕ) → nth s (a % s.proc_count) j ≡ nth s a j
nth-mod s a j = ap s.proc_list (mod-add-mod a s.proc_count j)

find_next_proc-start :
    (s : Sched) (c : ℕ)
    → Distinct s
    → c < s.proc_count
    → s.proc_list c ≡ s.current_proc
    → s.current_proc ≢ null
    → find_next_proc s ≡ find_runnable s ((c + 1) % s.proc_count) 0 s.proc_count
unfolding find_next_proc
find_next_proc-start s c d hi at ne =
    let some_listed : (s.proc_count == 0) ≡ false = ground arith in
    rw (
      some_listed,
      ==_ne _ _ ne,
      find_start-lem s 0 s.proc_count c d (omega arith) (omega arith) hi at,
    )

-- With different processes in the list and the current one, not `NULL`, at place `c`,
-- `find_next_proc` goes round the list from the place after it. It returns the first process that
-- is ready or idle, or `NULL` if there is none.
pub find_next_proc_lem :
    (s : Sched) (c : ℕ)
    → Distinct s
    → c < s.proc_count
    → s.proc_list c ≡ s.current_proc
    → s.current_proc ≢ null
    → ((j : ℕ) → j < s.proc_count → runs s (nth s (c + 1) j) ≡ false) × (find_next_proc s ≡ null)
      ⊎ ((k : ℕ) × (k < s.proc_count)
          × (find_next_proc s ≡ nth s (c + 1) k)
          × (runs s (nth s (c + 1) k) ≡ true)
          × ((j : ℕ) → j < k → runs s (nth s (c + 1) j) ≡ false))
find_next_proc_lem s c d hi at ne =
    let start = find_next_proc-start s c d hi at ne in
    let same = nth-mod s (c + 1) in
    elim (find_runnable-cases s ((c + 1) % s.proc_count) 0 s.proc_count) [
      | inl (all, e) ↦ inl (λ j lt. rw (same j) at (all j (omega arith) (omega arith)), start ∙ e)
      | inr (k, lo, lt, e, hit, first) ↦ inr (
        k,
        omega arith,
        start ∙ e ∙ same k,
        rw (same k) at hit,
        λ j h. rw (same j) at (first j (omega arith) h),
      )
    ]
