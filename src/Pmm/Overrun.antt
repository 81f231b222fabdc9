-- ===== src/Pmm/Overrun.antt =====
-- The pages past the end of the managed region that the bitmap's last byte stands for.
use terracotta_os.Prelude.{ℕ, ◌+◌, ◌*◌, ◌<◌, ◌≡◌, inl, inr, true, false, arith, refl}
use native.Mathlib.Decide.{dec_lt}
use terracotta_os.Pmm.{State, bit_count, is_free, take, page, palloc, kfree}
use terracotta_os.Pmm.Bitmap.{IsValid}
use terracotta_os.Pmm.Alloc.{palloc-cases, page-lem}
use terracotta_os.Pmm.Free.{IsApart, kfree_outside}

kfree_end :
    (s : State) (k : ℕ) → IsApart s → kfree (take s k) (s.file.base + s.file.length) ≡ take s k
unfolding take
kfree_end s k a =
    kfree_outside (take s k) (s.file.base + s.file.length)
      (record { apart = a.apart; ends = a.ends; covered = a.covered }) (inr (omega arith))

-- On a valid state whose region is `n` whole pages and does not fill the bitmap's last byte, with
-- every managed page in use and page `n` marked free, `palloc` does not answer `NULL`: it hands
-- out the page just past the region, which `kfree` then refuses to take back.
pub palloc_past_end :
    (s : State) (n : ℕ)
    → IsValid s
    → IsApart s
    → s.file.length ≡ n * 4096
    → n < bit_count s
    → ((j : ℕ) → j < n → is_free s j ≡ false)
    → is_free s n ≡ true
    → ((palloc s).0 ≡ s.file.base + s.file.length)
      × (kfree (palloc s).1 (palloc s).0 ≡ (palloc s).1)
palloc_past_end s n v a len lt used free = elim (palloc-cases s) [
  | inl (full, e) ↦ cc (full n lt)
  | inr (k, (below, is, first), e) ↦ elim (dec_lt k n) [
    | yes h ↦ cc (used k h)
    | no h ↦ elim (dec_lt n k) [
      | yes h' ↦ cc (first n h')
      | no h' ↦
          let at = page-lem s k v below in
          let p : page s k ≡ s.file.base + s.file.length = omega arith in
          rw (e, p) (refl, kfree_end s k a)
    ]
  ]
]
