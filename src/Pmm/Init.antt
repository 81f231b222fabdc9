-- ===== src/Pmm/Init.antt =====
-- `pmm_init`: what the manager starts from.
use terracotta_os.Prelude.{ℕ, ◌+◌, ◌*◌, ◌/◌, ◌%◌, ◌^◌, ◌≤◌, ◌<◌, ◌≡◌, refl, ◌⊎◌, true, arith}
use terracotta_os.Word.Bytes.{test_bit-zero}
use terracotta_os.Memory.{IsBytes, within}
use terracotta_os.Str.{memset}
use terracotta_os.Str.Block.{memset_lem, memset-IsBytes}
use terracotta_os.Pmm.{State, bitmap_size, pmm_init, bit_count, byte_at, is_free}
use terracotta_os.Pmm.Bitmap.{IsValid}
use terracotta_os.Pmm.Free.{IsApart}

-- What the caller must hand over: a managed region that ends below the last address with the pages
-- that the bitmap's last byte rounds up to, and a second region apart from it.
pub record IsRegions (base length second second_length : ℕ) : Type 0 where
  pub based : 0 < base
  pub ends : base + bitmap_size length * 8 * 4096 ≤ 2 ^ 64
  pub fits : base + length < 2 ^ 64
  pub holds : bitmap_size length ≤ second_length
  pub apart : (second + second_length ≤ base) ⊎ (base + length ≤ second)

-- After `pmm_init` on regions as `IsRegions` asks for, over a memory of bytes, the manager is
-- valid, its bitmap is apart from the memory that it describes, and every page is free.
pub pmm_init_lem :
    (s : State) (base length second second_length : ℕ)
    → IsBytes s.mem
    → IsRegions base length second second_length
    → IsValid (pmm_init s base length second second_length)
      × IsApart (pmm_init s base length second second_length)
      × ((j : ℕ)
          → j < bit_count (pmm_init s base length second second_length)
          → is_free (pmm_init s base length second second_length) j ≡ true)
unfolding pmm_init bitmap_size is_free bit_count byte_at
pmm_init_lem s base length second second_length b r =
    let ends = r.ends in
    let based = r.based in
    let apart = r.apart in
    let holds = r.holds in
    (
      record {
        bytes = memset-IsBytes _ _ _ _ (memset-IsBytes _ _ _ _ (memset-IsBytes _ _ _ _ b));
        counted = omega arith;
        mapped = ends;
        based = r.based;
      },
      record { apart = omega arith; ends = r.fits; covered = omega arith },
      λ j lt.
          let m =
            memset_lem
              (memset (memset s.mem second 0 ((length / 4096 + 7) / 8)) second 0 second_length)
              second 0 ((length / 4096 + 7) / 8) (second + j / 8) in
          let i : within second ((length / 4096 + 7) / 8) (second + j / 8) ≡ true = ground arith in
          rw (m, i, test_bit-zero (j % 8)),
    )

-- Where the manager stands, and for how many pages it has bits at least.
pub pmm_init-file :
    (s : State) (base length second second_length : ℕ)
    → let f = (pmm_init s base length second second_length).file in
      (f.base ≡ base) × (f.bitmap_base ≡ second) × (f.bitmap_length ≡ bitmap_size length)
unfolding pmm_init
pmm_init-file s base length second second_length = (refl, refl, refl)

pub bitmap_size-ge : (length : ℕ) → length / 4096 ≤ bitmap_size length * 8
unfolding bitmap_size
bitmap_size-ge length = omega arith
