-- ===== src/Pmm/Tests.antt =====
-- The manager on two pages: the statements at concrete states.
use terracotta_os.Prelude.{
  ℕ, zero, suc, ◌<◌, ◌≡◌, ◌≢◌, refl, ◌⊎◌, inl, true, false, if◌then◌else◌, ◌==◌, arith,
}
use terracotta_os.Memory.{null, within}
use terracotta_os.Pmm.{
  State, bit_count, is_free, take, bitmap_size, pmm_init, palloc_loop, palloc, page, kalloc, kfree,
  byte_at,
}
use terracotta_os.Pmm.Bitmap.{IsValid}
use terracotta_os.Pmm.Alloc.{IsFull, Takes, take-Takes, kalloc-eq-palloc, palloc_lem}
use terracotta_os.Pmm.Free.{IsApart, kfree_lem}
use terracotta_os.Pmm.Init.{pmm_init_lem}
use terracotta_os.Pmm.Overrun.{palloc_past_end}
use terracotta_os.Pmm.Trace.{System, grant, IsSound, palloc-fresh, here, next, granted}

-- Two pages from 0x1000 on, with the bitmap's byte `marks` at 16.
abbrev two_pages : ℕ → State
two_pages marks = record {
  file = record {
    base = 0x1000;
    length = 0x2000;
    kind = 0;
    flags = 0;
    reserved = 0;
    bitmap_base = 16;
    bitmap_length = 1;
    bitmap_file = record { base = 16; length = 1; kind = 0 };
  };
  mem = λ x. if x == 16 then marks else 0;
}

abbrev start : State
start = two_pages 0

abbrev full : State
full = two_pages 3

two_pages-IsValid : (marks : ℕ) → marks < 256 → IsValid (two_pages marks)
two_pages-IsValid marks h = record {
  bytes = λ x. ground arith;
  counted = omega arith;
  mapped = omega arith;
  based = omega arith;
}

two_pages-IsApart : (marks : ℕ) → IsApart (two_pages marks)
two_pages-IsApart marks = record {
  apart = inl (omega arith);
  ends = omega arith;
  covered = omega arith;
}

first_palloc : (palloc start).0 ≡ 0x1000
unfolding palloc is_free terracotta_os.Word.Bytes.test_bit byte_at take
first_palloc = refl

abbrev nobody : System
nobody = record { state = start; owned = λ k. false }

nobody-IsSound : IsSound nobody
nobody-IsSound = record {
  valid = two_pages-IsValid 0 (omega arith);
  apart = two_pages-IsApart 0;
  marked = λ k lt own. ground arith;
}

palloc_lem_example :
    IsFull start × (palloc start ≡ (null, start))
    ⊎ ((k : ℕ) × Takes start (palloc start).0 (palloc start).1 k × ((palloc start).0 ≢ null))
palloc_lem_example = palloc_lem start (two_pages-IsValid 0 (omega arith))

kalloc-eq-palloc_example : kalloc start 9000 ≡ palloc start
kalloc-eq-palloc_example = kalloc-eq-palloc start 9000 (omega arith)

small : bitmap_size 0x8000 ≡ 1
unfolding bitmap_size
small = refl

pmm_init_lem_example :
    let s = pmm_init start 0x10_0000 0x8000 0x1000 0x1000 in
    IsValid s × IsApart s × ((j : ℕ) → j < bit_count s → is_free s j ≡ true)
pmm_init_lem_example =
    pmm_init_lem start 0x10_0000 0x8000 0x1000 0x1000 (λ x. ground arith)
      (record {
        based = omega arith;
        ends = omega (arith, small);
        fits = omega arith;
        holds = omega (arith, small);
        apart = inl (omega arith);
      })

kfree_lem_example :
    let s' = kfree full 0x2000 in
    ((j : ℕ) → j < bit_count full → is_free s' j ≡ (if 1 == j then true else is_free full j))
    × ((x : ℕ) → within 0x2000 4096 x ≡ true → s'.mem x ≡ 0)
    × (s'.file ≡ full.file)
kfree_lem_example =
    kfree_lem full 1 (two_pages-IsValid 3 (omega arith)) (two_pages-IsApart 3) (omega arith)

two_of_eight : 2 < bit_count full
unfolding bit_count
two_of_eight = omega arith

two_below : 1 < bit_count start
unfolding bit_count
two_below = omega arith

full_used : (j : ℕ) → j < 2 → is_free full j ≡ false
unfolding is_free byte_at terracotta_os.Word.Bytes.test_bit
full_used zero h = refl
full_used (suc zero) h = refl
full_used (suc (suc j)) h = absurd (omega arith)

third_free : is_free full 2 ≡ true
unfolding is_free byte_at terracotta_os.Word.Bytes.test_bit
third_free = refl

first_grant : Takes start (palloc start).0 (palloc start).1 0
unfolding palloc palloc_loop is_free byte_at terracotta_os.Word.Bytes.test_bit take page bit_count
first_grant =
    take-Takes start 0 (two_pages-IsValid 0 (omega arith))
      (omega arith, refl, λ j h. absurd (omega arith))

palloc_past_end_example :
    ((palloc full).0 ≡ 0x3000) × (kfree (palloc full).1 (palloc full).0 ≡ (palloc full).1)
palloc_past_end_example =
    palloc_past_end full 2 (two_pages-IsValid 3 (omega arith)) (two_pages-IsApart 3) refl
      two_of_eight full_used third_free

palloc-fresh_example :
    let u = grant nobody 0 (palloc start).1 in
    IsFull u.state
    ⊎ ((k : ℕ) × Takes u.state (palloc u.state).0 (palloc u.state).1 k × (u.owned k ≡ false))
palloc-fresh_example =
    palloc-fresh {t = nobody} {u = grant nobody 0 (palloc start).1} nobody-IsSound
      (next here (granted 0 first_grant))
