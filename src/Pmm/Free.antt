-- ===== src/Pmm/Free.antt =====
-- `kfree`: what it refuses, and that it undoes an allocation.
use terracotta_os.Prelude.{
  ℕ, ◌+◌, ◌-◌, ◌*◌, ◌/◌, ◌^◌, ◌≤◌, ◌<◌, ◌≡◌, ◌≢◌, ap, ◌⊎◌, inl, inr, true, false, ◌||◌, ltb, leb,
  ◌==◌, if◌then◌else◌, Bool-cases, arith,
}
use terracotta_os.Word.{add64}
use terracotta_os.Memory.{Ptr, null, within, store-IsBytes}
use terracotta_os.Str.{memset}
use terracotta_os.Str.Block.{memset_lem, memset-IsBytes}
use terracotta_os.Pmm.{
  PmmFile, State, bit_count, byte_at, is_free, take, page, palloc, kfree, bitmap_clear_bit,
}
use terracotta_os.Pmm.Bitmap.{IsValid, is_free-take, take-IsValid, is_free-bitmap_clear_bit}
use terracotta_os.Pmm.Alloc.{page-lem, palloc-cases}

-- The bitmap lies outside the memory that it describes, which does not reach past the last address.
pub record IsApart (s : State) : Type 0 where
  pub apart :
      (s.file.bitmap_base + s.file.bitmap_length ≤ s.file.base)
      ⊎ (s.file.base + s.file.length ≤ s.file.bitmap_base)
  pub ends : s.file.base + s.file.length < 2 ^ 64
  pub covered : s.file.length / 4096 ≤ s.file.bitmap_length * 8

pub IsApart-file : {s s' : State} → s'.file ≡ s.file → IsApart s → IsApart s'
IsApart-file e a = record { apart = rw e a.apart; ends = rw e a.ends; covered = rw e a.covered }

pub bit_count-file : (s s' : State) → s'.file ≡ s.file → bit_count s' ≡ bit_count s
unfolding bit_count
bit_count-file s s' e = rw e

-- When the managed memory ends before the last address, `kfree` ignores every pointer that lies
-- below it or behind it.
pub kfree_outside :
    (s : State) (p : Ptr)
    → IsApart s
    → (p < s.file.base) ⊎ (s.file.base + s.file.length ≤ p)
    → kfree s p ≡ s
unfolding kfree
kfree_outside s p a h = let e = a.ends in ground arith

-- Page `k` lies whole in the managed memory.
abbrev pub IsManaged : State → ℕ → Type 0
IsManaged s k = (k + 1) * 4096 ≤ s.file.length

kfree_page :
    (s : State) (k : ℕ)
    → IsValid s
    → IsApart s
    → IsManaged s k
    → kfree s (s.file.base + k * 4096) ≡ (
        let s' = bitmap_clear_bit s k in
        record s' { mem = memset s'.mem (s.file.base + k * 4096) 0 4096 })
unfolding kfree
kfree_page s k v a h =
    let b = v.based in
    let e = a.ends in
    let i : (s.file.base + k * 4096 - s.file.base) / 4096 ≡ k = omega arith in ground arith

-- The bitmap has no byte in a managed page.
byte_at-apart :
    (s : State) (k j : ℕ)
    → IsValid s
    → IsApart s
    → IsManaged s k
    → j < bit_count s
    → within (s.file.base + k * 4096) 4096 (byte_at s j) ≡ false
unfolding byte_at bit_count
byte_at-apart s k j v a h lt = let c = v.counted in let d = a.apart in ground arith

is_free-memset :
    (s : State) (p j : ℕ)
    → within p 4096 (byte_at s j) ≡ false
    → is_free (record s { mem = memset s.mem p 0 4096 }) j ≡ is_free s j
unfolding is_free byte_at
is_free-memset s p j out = rw (memset_lem s.mem p 0 4096 (s.file.bitmap_base + j / 8), out)

pub file-bitmap_clear_bit : (s : State) (i : ℕ) → (bitmap_clear_bit s i).file ≡ s.file
unfolding bitmap_clear_bit
file-bitmap_clear_bit s i = ground arith

byte_at-clear : (s : State) (k j : ℕ) → byte_at (bitmap_clear_bit s k) j ≡ byte_at s j
unfolding byte_at
byte_at-clear s k j = ap (λ (f : PmmFile). f.bitmap_base + j / 8) (file-bitmap_clear_bit s k)

IsManaged-lt : (s : State) (k : ℕ) → IsValid s → IsApart s → IsManaged s k → k < bit_count s
unfolding bit_count
IsManaged-lt s k v a h = let c = v.counted in let d = a.covered in omega arith

clear-IsValid : (s : State) (i : ℕ) → IsValid s → IsValid (bitmap_clear_bit s i)
unfolding bitmap_clear_bit
clear-IsValid s i v = elim (Bool-cases (leb (bit_count s) i)) [
  | inl past ↦ rw past v
  | inr inside ↦ rw inside (record {
    bytes = store-IsBytes _ _ v.bytes;
    counted = v.counted;
    mapped = v.mapped;
    based = v.based;
  })
]

-- On a valid state whose bitmap is apart from the managed memory, freeing a managed page marks
-- that page free, leaves the mark of every other page, clears the page's memory, and keeps the
-- file structure.
pub kfree_lem :
    (s : State) (k : ℕ)
    → IsValid s
    → IsApart s
    → IsManaged s k
    → ((j : ℕ)
        → j < bit_count s
        → is_free (kfree s (s.file.base + k * 4096)) j ≡ (if k == j then true else is_free s j))
      × ((x : ℕ)
          → within (s.file.base + k * 4096) 4096 x ≡ true
          → (kfree s (s.file.base + k * 4096)).mem x ≡ 0)
      × ((kfree s (s.file.base + k * 4096)).file ≡ s.file)
kfree_lem s k v a h = rw (kfree_page s k v a h) (
  λ j lt.
      rw
        (is_free-memset (bitmap_clear_bit s k) (s.file.base + k * 4096) j
          (rw (byte_at-clear s k j) (byte_at-apart s k j v a h lt)))
        (is_free-bitmap_clear_bit s k j v.bytes (IsManaged-lt s k v a h)),
  λ x i. rw (memset_lem (bitmap_clear_bit s k).mem (s.file.base + k * 4096) 0 4096 x, i),
  file-bitmap_clear_bit s k,
)

memset-IsValid :
    (s : State) (p : Ptr) → IsValid s → IsValid (record s { mem = memset s.mem p 0 4096 })
memset-IsValid s p v = record {
  bytes = memset-IsBytes s.mem p 0 4096 v.bytes;
  counted = v.counted;
  mapped = v.mapped;
  based = v.based;
}

pub kfree-IsValid : (s : State) (p : Ptr) → IsValid s → IsValid (kfree s p)
unfolding kfree
kfree-IsValid s p v = elim (Bool-cases (p == 0)) [
  | inl null ↦ rw null v
  | inr q ↦ rw q (elim (Bool-cases (ltb p s.file.base || leb (add64 s.file.base s.file.length) p)) [
    | inl out ↦ rw out v
    | inr inside ↦ rw inside (
        memset-IsValid (bitmap_clear_bit s ((p - s.file.base) / 4096)) p
          (clear-IsValid s ((p - s.file.base) / 4096) v))
  ])
]

kfree-take :
    (s : State) (k j : ℕ)
    → IsValid s
    → IsApart s
    → IsManaged s k
    → is_free s k ≡ true
    → j < bit_count s
    → is_free (kfree (take s k) (s.file.base + k * 4096)) j ≡ is_free s j
unfolding take bit_count
kfree-take s k j v a h free lt =
    let marks =
      (kfree_lem (take s k) k (take-IsValid s k v)
          (record { apart = a.apart; ends = a.ends; covered = a.covered }) h).0
        j lt in
    ground (arith, marks, is_free-take s k j v.bytes)

-- On a valid state whose bitmap is apart from the managed memory, a page that `palloc` has just
-- handed out and that `kfree` takes back leaves every mark as it was, if the page lies in the
-- managed memory.
pub kfree-palloc :
    (s : State) (j : ℕ)
    → IsValid s
    → IsApart s
    → (palloc s).0 ≢ null
    → (palloc s).0 + 4096 ≤ s.file.base + s.file.length
    → j < bit_count s
    → is_free (kfree (palloc s).1 (palloc s).0) j ≡ is_free s j
kfree-palloc s j v a ne fits lt = elim (palloc-cases s) [
  | inl (full, e) ↦ absurd (ne (rw e))
  | inr (k, low, e) ↦
      let at = page-lem s k v low.0 in
      let fits' : page s k + 4096 ≤ s.file.base + s.file.length = rw e at fits in
      rw (e, at) (kfree-take s k j v a (omega arith) low.1 lt)
]
