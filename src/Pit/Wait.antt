-- ===== src/Pit/Wait.antt =====
-- Waiting for the timer.
use terracotta_os.Prelude.{
  ℕ, zero, suc, ◌+◌, ◌-◌, ◌*◌, ◌/◌, ◌%◌, ◌^◌, ◌<◌, ◌≤◌, ◌≡◌, refl, Option, some, ltb, arith,
  Bool-cases, inl, inr,
}
use mathlib.Core.Path.{subst}
use native.Mathlib.Decide.{ℕ_discrete}
use terracotta_os.Word.{u64_mod, sub64}
use terracotta_os.Pit.{Pit, wait_loop, pit_wait_ticks, pit_wait_ms}

-- A read `k` that is late enough, with the answer of the loop at the read behind it.
abbrev pub Waited : (ticks : ℕ → ℕ) → (start wanted i more : ℕ) → Option ℕ → Type 0
Waited ticks start wanted i more answer =
    (k : ℕ) × (answer ≡ some (ticks (k + 1)))
    × (i ≤ k)
    × (k ≤ i + more)
    × (wanted ≤ sub64 (ticks k) start)

wait_loop_lem :
    (ticks : ℕ → ℕ) (fuel start wanted i more : ℕ)
    → more < fuel
    → wanted ≤ sub64 (ticks (i + more)) start
    → Waited ticks start wanted i more (wait_loop ticks fuel start wanted i)
unfolding wait_loop
wait_loop_lem ticks zero start wanted i more enough late = absurd (omega arith)
wait_loop_lem ticks (suc fuel) start wanted i more enough late =
    elim (Bool-cases (ltb (sub64 (ticks i) start) wanted)) [
      | inr over ↦ (i, rw over refl, omega arith, omega arith, ground arith)
      | inl early ↦ elim (ℕ_discrete more 0) [
        | yes e ↦
            let here : i + more ≡ i = omega arith in
            let late' : wanted ≤ sub64 (ticks i) start =
              subst (λ j. wanted ≤ sub64 (ticks j) start) here late in
            absurd (ground arith)
        | no ne ↦
            let on : i + more ≡ i + 1 + (more - 1) = omega arith in
            let (k, run, lo, hi, enough_ticks) =
              wait_loop_lem ticks fuel start wanted (i + 1) (more - 1) (omega arith)
                (subst (λ j. wanted ≤ sub64 (ticks j) start) on late) in
            (k, rw early run, omega arith, omega arith, enough_ticks)
      ]
    ]

-- If the counter has gone far enough at its read `n`, `pit_wait_ms` returns, after a read up to that one
-- at which it had.
pub pit_wait_ms_lem :
    (ticks : ℕ → ℕ) (fuel : ℕ) (pit : Pit) (ms n : ℕ)
    → n < fuel
    → 1 ≤ n
    → ms * pit.pit_tick_freq < 2 ^ 64
    → ms * pit.pit_tick_freq / 1000 ≤ sub64 (ticks n) (ticks 0)
    → (k : ℕ) × (pit_wait_ms ticks fuel pit ms ≡ some (ticks (k + 1)))
      × (1 ≤ k)
      × (k ≤ n)
      × (ms * pit.pit_tick_freq / 1000 ≤ sub64 (ticks k) (ticks 0))
unfolding pit_wait_ms pit_wait_ticks
pit_wait_ms_lem ticks fuel pit ms n enough one small late =
    let whole : ms * pit.pit_tick_freq % u64_mod ≡ ms * pit.pit_tick_freq = omega arith in
    let at : n ≡ 1 + (n - 1) = omega arith in
    let (k, run, lo, hi, enough_ticks) =
      wait_loop_lem ticks fuel (ticks 0) (ms * pit.pit_tick_freq / 1000) 1 (n - 1) (omega arith)
        (subst (λ j. ms * pit.pit_tick_freq / 1000 ≤ sub64 (ticks j) (ticks 0)) at late) in
    (k, rw whole run, lo, omega arith, enough_ticks)
