-- ===== src/Vmm/Tree.antt =====
-- The tables as a graph of four levels, and that a new table fits into it.
use terracotta_os.Prelude.{ℕ, ◌+◌, ◌*◌, ◌%◌, ◌^◌, ◌<◌, ◌≤◌, ◌≡◌, ◌≢◌, ◌∙◌, ap, ◌⊎◌, true, arith}
use terracotta_os.Memory.{Ptr, store64, load64, load64-store64, load64-store64_ne}
use terracotta_os.Str.{memset}
use terracotta_os.Pmm
use terracotta_os.Pmm.{bit_count, byte_at, is_free}
use terracotta_os.Pmm.Bitmap.{IsValid, bit_count_lem, byte_at_lem}
use terracotta_os.Pmm.Alloc.{Takes}
use terracotta_os.Vmm.{slot, is_present, target}
use terracotta_os.Vmm.Entry.{
  table_entry, table_entry_lem, load64-agree, load64-memset, load64-cleared,
}

-- Entry `i` of a table in the memory of the manager.
abbrev pub word_of : Pmm.State → Ptr → ℕ → ℕ
word_of s t i = load64 s.mem (slot t i)

-- `level` is 4 at the root, 3 to 1 at the tables below it, and 0 at all other addresses. The tables are
-- pages apart from the bitmap and from every free page. A present entry of a table of level 2 and above
-- leads to one of the level below.
pub record IsTree (root : Ptr) (s : Pmm.State) (level : Ptr → ℕ) : Type 0 where
  pub top : level root ≡ 4
  pub down :
      (t : Ptr) (n i : ℕ)
      → level t ≡ n + 2
      → i < 512
      → is_present (word_of s t i) ≡ true
      → level (target (word_of s t i)) ≡ n + 1
  pub aligned : (t : Ptr) → level t ≢ 0 → t % 4096 ≡ 0
  pub ends : (t : Ptr) → level t ≢ 0 → t + 4096 ≤ 2 ^ 64
  pub off_bitmap :
      (t : Ptr)
      → level t ≢ 0
      → (t + 4096 ≤ s.file.bitmap_base) ⊎ (s.file.bitmap_base + s.file.bitmap_length ≤ t)
  pub unfree : (k : ℕ) → k < bit_count s → is_free s k ≡ true → level (s.file.base + k * 4096) ≡ 0
  pub valid : IsValid s
  pub base_aligned : s.file.base % 4096 ≡ 0
  pub pages_apart :
      (s.file.bitmap_base + s.file.bitmap_length ≤ s.file.base)
      ⊎ (s.file.base + s.file.bitmap_length * 8 * 4096 ≤ s.file.bitmap_base)

-- What `mmap` makes of the manager's state when it adds a table at `p` as entry `i` of `table`.
abbrev pub linked : Pmm.State → Ptr → ℕ → Ptr → Pmm.State
linked s table i p = record s {
  mem = store64 (memset s.mem p 0 4096) (slot table i) (table_entry p);
}

-- `palloc` has given the page `p` and left `s'`, and a table is to be added there as entry `i` of a
-- table of level `n + 2`.
pub record Adds (root : Ptr) (s : Pmm.State) (level : Ptr → ℕ) (table p : Ptr) (i n : ℕ)
    (s' : Pmm.State) : Type 0 where
  pub place : ℕ
  pub tree : IsTree root s level
  pub at : level table ≡ n + 2
  pub small : i < 512
  pub takes : Takes s p s' place
  pub still_valid : IsValid s'

module _ {root : Ptr} {s s' : Pmm.State} {level : Ptr → ℕ} {table p : Ptr} {i n : ℕ}
    (a : Adds root s level table p i n s') where
  open a use {place, tree, at, small, takes, still_valid}

  pub p-free : level p ≡ 0
  p-free = let low = takes.lowest in rw takes.address_is (tree.unfree place low.0 low.1)

  pub p-aligned : p % 4096 ≡ 0
  p-aligned = let e = takes.address_is in let b = tree.base_aligned in omega arith

  pub p-ends : p + 4096 ≤ 2 ^ 64
  p-ends =
      let e = takes.address_is in
      let low = (takes.lowest).0 in
      let v = tree.valid in let m = v.mapped in omega (arith, bit_count_lem s tree.valid)

  -- The page of a table lies apart from the new one.
  pub p-apart : (t : Ptr) → level t ≢ 0 → (t + 4096 ≤ p) ⊎ (p + 4096 ≤ t)
  p-apart t ne =
      let c = tree.aligned t ne in
      let b = p-aligned in let other : t ≢ p = λ e. ne (ap level e ∙ p-free) in omega arith

  word-taken : (t : Ptr) (j : ℕ) → level t ≢ 0 → j < 512 → word_of s' t j ≡ word_of s t j
  word-taken t j ne lt =
      let off = tree.off_bitmap t ne in
      let inside = byte_at_lem s place tree.valid (takes.lowest).0 in
      load64-agree _ _ _ (λ x lo hi. takes.keeps x (λ e. ground arith))

  -- An entry of a table keeps its value unless it is the one that is set.
  pub word-linked :
      (t : Ptr) (j : ℕ)
      → level t ≢ 0
      → j < 512
      → (t ≢ table) ⊎ (j ≢ i)
      → word_of (linked s' table i p) t j ≡ word_of s t j
  word-linked t j ne lt other =
      let table_ne : level table ≢ 0 = omega arith in
      let ta = tree.aligned table table_ne in
      let tb = tree.aligned t ne in
      let apart = p-apart t ne in
      load64-store64_ne (memset s'.mem p 0 4096) (slot table i) (slot t j) (table_entry p)
        (omega arith)
      ∙ load64-memset s'.mem p (slot t j) (omega arith)
      ∙ word-taken t j ne lt

  pub word-set : word_of (linked s' table i p) table i ≡ table_entry p
  word-set =
      let e = p-ends in
      load64-store64 (memset s'.mem p 0 4096) (slot table i) (table_entry p)
        (table_entry_lem p p-aligned (omega arith)).2

  pub word-new : (j : ℕ) → j < 512 → word_of (linked s' table i p) p j ≡ 0
  word-new j lt =
      let apart = p-apart table (omega arith) in
      load64-store64_ne (memset s'.mem p 0 4096) (slot table i) (slot p j) (table_entry p)
        (omega arith)
      ∙ load64-cleared s'.mem p j lt
