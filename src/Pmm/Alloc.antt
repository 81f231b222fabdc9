-- ===== src/Pmm/Alloc.antt =====
-- `kalloc` and `palloc`: the first free page, or nothing when every page is taken.
use terracotta_os.Prelude.{
  ℕ, zero, suc, ◌+◌, ◌*◌, ◌≤◌, ◌<◌, ◌≡◌, ◌≢◌, refl, ◌⊎◌, inl, inr, true, false, ◌==◌, ==_ne,
  if◌then◌else◌, Bool-cases, arith,
}
use native.Mathlib.Decide.{ℕ_discrete}
use terracotta_os.Memory.{Ptr, null, store}
use terracotta_os.Pmm.{
  State, bit_count, byte_at, is_free, take, page, kalloc_loop, kalloc, uint64_max, palloc_loop,
  palloc,
}
use terracotta_os.Pmm.Bitmap.{IsValid, is_free-take, take-IsValid}

-- Page `k` is the first free one among those numbered from `i` on, `left` of them.
abbrev IsFirst : State → ℕ → ℕ → ℕ → Type 0
IsFirst s i left k =
    (i ≤ k)
    × (k < i + left)
    × (is_free s k ≡ true)
    × ((j : ℕ) → i ≤ j → j < k → is_free s j ≡ false)

abbrev NoneFree : State → ℕ → ℕ → Type 0
NoneFree s i left = (j : ℕ) → i ≤ j → j < i + left → is_free s j ≡ false

-- One search decides both loops.
search_pages :
    (s : State) (i left : ℕ)
    → NoneFree s i left
        × (palloc_loop s i left ≡ (uint64_max, s))
        × (kalloc_loop s i left ≡ (null, s))
      ⊎ ((k : ℕ) × IsFirst s i left k
          × (palloc_loop s i left ≡ (k, take s k))
          × (kalloc_loop s i left ≡ (page s k, take s k)))
unfolding palloc_loop kalloc_loop
search_pages s i zero = inl (λ j lo hi. absurd (omega arith), refl, refl)
search_pages s i (suc left) = elim (Bool-cases (is_free s i)) [
  | inl free ↦
      inr (i, (omega arith, omega arith, free, λ j lo hi. absurd (omega arith)), rw free, rw free)
  | inr used ↦ elim (search_pages s (i + 1) left) [
    | inl (none_free, p, q) ↦ inl (
      λ j lo hi. elim (ℕ_discrete i j) [
        | yes e ↦ rw (← e) used
        | no ne ↦ none_free j (omega arith) (omega arith)
      ],
      rw used p,
      rw used q,
    )
    | inr (k, (lo, hi, free, first), p, q) ↦ inr (
      k,
      (
        omega arith,
        omega arith,
        free,
        λ j below above. elim (ℕ_discrete i j) [
          | yes e ↦ rw (← e) used
          | no ne ↦ first j (omega arith) above
        ],
      ),
      rw used p,
      rw used q,
    )
  ]
]

abbrev pub IsFull : State → Type 0
IsFull s = (j : ℕ) → j < bit_count s → is_free s j ≡ false

-- Page `k` is the lowest free one.
abbrev pub IsLowest : State → ℕ → Type 0
IsLowest s k = (k < bit_count s) × (is_free s k ≡ true) × ((j : ℕ) → j < k → is_free s j ≡ false)

pub palloc-cases :
    (s : State)
    → IsFull s × (palloc s ≡ (null, s))
      ⊎ ((k : ℕ) × IsLowest s k × (palloc s ≡ (page s k, take s k)))
unfolding palloc bit_count take
palloc-cases s = elim (search_pages s 0 (bit_count s)) [
  | inl (none_free, p, q) ↦ inl (λ j h. none_free j (omega arith) (omega arith), rw p)
  | inr (k, (lo, hi, free, first), p, q) ↦ inr (
    k,
    (omega arith, free, λ j h. first j (omega arith) h),
    rw p (rw (==_ne k uint64_max (omega arith))),
  )
]

-- A request of any size but 0 is served by `kalloc` exactly as `palloc` serves it: one page.
pub kalloc-eq-palloc : (s : State) (size : ℕ) → size ≢ 0 → kalloc s size ≡ palloc s
unfolding kalloc palloc bit_count take
kalloc-eq-palloc s size h = elim (search_pages s 0 (bit_count s)) [
  | inl (none_free, p, q) ↦ rw (==_ne size 0 h, p, q) refl
  | inr (k, (lo, hi, free, first), p, q) ↦
      rw (==_ne size 0 h, p, q) (rw (==_ne k uint64_max (omega arith)))
]

pub palloc-IsValid : (s : State) → IsValid s → IsValid (palloc s).1
palloc-IsValid s v = elim (palloc-cases s) [
  | inl (full, e) ↦ rw e v
  | inr (k, low, e) ↦ rw e (take-IsValid s k v)
]

pub page-lem : (s : State) (k : ℕ) → IsValid s → k < bit_count s → page s k ≡ s.file.base + k * 4096
unfolding page bit_count
page-lem s k v h = let c = v.counted in let m = v.mapped in omega arith

-- What a successful call leaves behind: `p` is the address of the lowest free page, that page is
-- marked used, every other page keeps its mark, and one byte of memory at most has changed.
pub record Takes (s : State) (p : Ptr) (s' : State) (k : ℕ) : Type 0 where
  pub lowest : IsLowest s k
  pub address_is : p ≡ s.file.base + k * 4096
  pub marks : (j : ℕ) → is_free s' j ≡ (if k == j then false else is_free s j)
  pub keeps : (x : ℕ) → x ≢ byte_at s k → s'.mem x ≡ s.mem x
  pub file_kept : s'.file ≡ s.file

pub take-Takes : (s : State) (k : ℕ) → IsValid s → IsLowest s k → Takes s (page s k) (take s k) k
unfolding take store
take-Takes s k v low = record {
  lowest = low;
  address_is = page-lem s k v low.0;
  marks = λ j. is_free-take s k j v.bytes;
  keeps = λ x ne. ground arith;
  file_kept = refl;
}

-- On a valid state either every page is used, and `palloc` answers `NULL` and changes nothing; or
-- it answers the address of the lowest free page, which is not `NULL`, marks that page and no
-- other as used, changes at most one byte of memory, and keeps the file structure.
pub palloc_lem :
    (s : State)
    → IsValid s
    → IsFull s × (palloc s ≡ (null, s))
      ⊎ ((k : ℕ) × Takes s (palloc s).0 (palloc s).1 k × ((palloc s).0 ≢ null))
palloc_lem s v = elim (palloc-cases s) [
  | inl c ↦ inl c
  | inr (k, low, e) ↦
      let b = v.based in
      inr (k, rw e (take-Takes s k v low), rw e (omega (arith, page-lem s k v low.0)))
]
