-- ===== src/Pmm/Count.antt =====
-- The number of free pages.
use native.Mathlib.Decide.{ℕ_discrete}
use terracotta_os.Prelude.{
  ℕ, zero, suc, ◌+◌, ◌<◌, ◌≤◌, ◌≡◌, ◌≢◌, refl, true, false, if◌then◌else◌, arith,
}
use terracotta_os.Pmm.{State, bit_count, is_free}
use terracotta_os.Pmm.Alloc.{IsFull}

-- The free pages among those numbered from `i` on, `left` of them.
unfoldable pub free_from : State → ℕ → ℕ → ℕ
free_from s i zero = 0
free_from s i (suc left) = (if is_free s i then 1 else 0) + free_from s (i + 1) left

unfoldable pub free_count : State → ℕ
free_count s = free_from s 0 (bit_count s)

free_from-none :
    (s : State) (i left : ℕ)
    → ((j : ℕ) → i ≤ j → j < i + left → is_free s j ≡ false)
    → free_from s i left ≡ 0
unfolding free_from
free_from-none s i zero h = refl
free_from-none s i (suc left) h =
    let rest = free_from-none s (i + 1) left (λ j lo hi. h j (omega arith) (omega arith)) in
    let here = h i (omega arith) (omega arith) in ground arith

pub free_count-IsFull : (s : State) → IsFull s → free_count s ≡ 0
unfolding free_count
free_count-IsFull s full = free_from-none s 0 (bit_count s) (λ j lo hi. full j (omega arith))

free_from-same :
    (s s' : State) (i left : ℕ)
    → ((j : ℕ) → i ≤ j → j < i + left → is_free s' j ≡ is_free s j)
    → free_from s' i left ≡ free_from s i left
unfolding free_from
free_from-same s s' i zero h = refl
free_from-same s s' i (suc left) h = rw (
  h i (omega arith) (omega arith),
  free_from-same s s' (i + 1) left (λ j lo hi. h j (omega arith) (omega arith)),
)

free_from-but_one :
    (s s' : State) (k i left : ℕ)
    → ((j : ℕ) → i ≤ j → j < i + left → j ≢ k → is_free s' j ≡ is_free s j)
    → free_from s i left ≤ free_from s' i left + 1
unfolding free_from
free_from-but_one s s' k i zero h = omega arith
free_from-but_one s s' k i (suc left) h = elim (ℕ_discrete i k) [
  | yes here ↦
      let rest =
        free_from-same s s' (i + 1) left
          (λ j lo hi. h j (omega arith) (omega arith) (omega arith)) in
      ground arith
  | no other ↦
      let rest =
        free_from-but_one s s' k (i + 1) left (λ j lo hi. h j (omega arith) (omega arith)) in
      let same = h i (omega arith) (omega arith) other in ground arith
]

-- If only the mark of page `k` has changed, one free page at most has gone.
pub free_count-but_one :
    (s s' : State) (k : ℕ)
    → bit_count s' ≡ bit_count s
    → ((j : ℕ) → j < bit_count s → j ≢ k → is_free s' j ≡ is_free s j)
    → free_count s ≤ free_count s' + 1
unfolding free_count
free_count-but_one s s' k e h =
    rw e (free_from-but_one s s' k 0 (bit_count s) (λ j lo hi. h j (omega arith)))

free_from-all :
    (s : State) (i left : ℕ)
    → ((j : ℕ) → i ≤ j → j < i + left → is_free s j ≡ true)
    → free_from s i left ≡ left
unfolding free_from
free_from-all s i zero h = refl
free_from-all s i (suc left) h =
    let rest = free_from-all s (i + 1) left (λ j lo hi. h j (omega arith) (omega arith)) in
    let here = h i (omega arith) (omega arith) in ground arith

-- If every page is free, all are counted.
pub free_count-all :
    (s : State) → ((j : ℕ) → j < bit_count s → is_free s j ≡ true) → free_count s ≡ bit_count s
unfolding free_count
free_count-all s h = free_from-all s 0 (bit_count s) (λ j lo hi. h j (omega arith))
