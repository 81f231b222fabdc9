-- ===== src/Vmm/Grow.antt =====
-- Adding a table keeps the graph of the tables in order.
use native.Mathlib.Decide.{ℕ_discrete}
use terracotta_os.Prelude.{
  ℕ, ◌+◌, ◌*◌, ◌<◌, ◌≤◌, ◌≡◌, ◌≢◌, refl, sym, ◌∙◌, ap, ◌⊎◌, inl, inr, true, false, ◌==◌,
  if◌then◌else◌, arith,
}
use terracotta_os.Memory.{Ptr, within, store64-outside, store64-IsBytes}
use terracotta_os.Str.{memset}
use terracotta_os.Str.Block.{memset_lem, memset-IsBytes}
use terracotta_os.Pmm
use terracotta_os.Pmm.{bit_count, byte_at, is_free}
use terracotta_os.Pmm.Bitmap.{IsValid, bit_count_lem, is_free-agree}
use terracotta_os.Pmm.Free.{bit_count-file}
use terracotta_os.Vmm.{slot, is_present, target}
use terracotta_os.Vmm.Entry.{table_entry, table_entry_lem}
use terracotta_os.Vmm.Tree.{
  word_of, IsTree, linked, Adds, p-free, p-aligned, p-ends, word-linked, word-set, word-new,
}

-- The levels with a new table at `p` below a table of level `n + 2`.
abbrev pub relevel : (Ptr → ℕ) → Ptr → ℕ → Ptr → ℕ
relevel level p n x = if x == p then n + 1 else level x

module _ {root : Ptr} {s s' : Pmm.State} {level : Ptr → ℕ} {table p : Ptr} {i n : ℕ}
    (a : Adds root s level table p i n s') where
  open a use {place, tree, at, small, takes, still_valid}

  pub relevel-old : (t : Ptr) → level t ≢ 0 → relevel level p n t ≡ level t
  relevel-old t ne = let f = p-free a in ground (arith)

  keep :
      (t : Ptr) (m j : ℕ)
      → level t ≡ m + 2
      → j < 512
      → is_present (word_of (linked s' table i p) t j) ≡ true
      → (t ≢ table) ⊎ (j ≢ i)
      → relevel level p n (target (word_of (linked s' table i p) t j)) ≡ m + 1
  keep t m j lv lt pres other =
      let e = word-linked a t j (omega arith) lt other in
      let was = tree.down t m j lv lt (ap is_present (sym e) ∙ pres) in
      ap (λ w. relevel level p n (target w)) e
      ∙ relevel-old (target (word_of s t j)) (omega arith)
      ∙ was

  linked-down :
      (t : Ptr) (m j : ℕ)
      → relevel level p n t ≡ m + 2
      → j < 512
      → is_present (word_of (linked s' table i p) t j) ≡ true
      → relevel level p n (target (word_of (linked s' table i p) t j)) ≡ m + 1
  linked-down t m j lv lt pres = elim (ℕ_discrete t p) [
    | yes new ↦
        let e : word_of (linked s' table i p) t j ≡ 0 = rw new (word-new a j lt) in ground arith
    | no old ↦
        let lv' : level t ≡ m + 2 = ground arith in
        elim (ℕ_discrete t table) [
          | no other ↦ keep t m j lv' lt pres (inl other)
          | yes same ↦ elim (ℕ_discrete j i) [
            | no other ↦ keep t m j lv' lt pres (inr other)
            | yes here ↦
                let e : word_of (linked s' table i p) t j ≡ table_entry p =
                  rw (same, here) (word-set a) in
                let back : target (word_of (linked s' table i p) t j) ≡ p =
                  ap target e
                  ∙ (table_entry_lem p (p-aligned a) (let q = p-ends a in omega arith)).1 in
                let levels : level table ≡ m + 2 = ap level (sym same) ∙ lv' in
                ap (relevel level p n) back ∙ ground arith
          ]
        ]
  ]

  -- The bitmap is not touched by the new page and the entry.
  pub linked-mem :
      (x : ℕ)
      → s'.file.bitmap_base ≤ x
      → x < s'.file.bitmap_base + s'.file.bitmap_length
      → (linked s' table i p).mem x ≡ s'.mem x
  linked-mem x lo hi =
      let f = takes.file_kept in
      let lo' : s.file.bitmap_base ≤ x = rw (← f) lo in
      let hi' : x < s.file.bitmap_base + s.file.bitmap_length = rw (← f) hi in
      let off = tree.off_bitmap table (omega arith) in
      let low = (takes.lowest).0 in
      let page_at = takes.address_is in
      let c = bit_count_lem s tree.valid in
      let apart = tree.pages_apart in
      let out : within p 4096 x ≡ false = ground arith in
      store64-outside (memset s'.mem p 0 4096) (slot table i) (table_entry p) x (omega arith)
      ∙ memset_lem s'.mem p 0 4096 x
      ∙ rw out

  linked-IsValid : IsValid (linked s' table i p)
  linked-IsValid = record {
    bytes = store64-IsBytes _ _ (memset-IsBytes s'.mem p 0 4096 still_valid.bytes);
    counted = still_valid.counted;
    mapped = still_valid.mapped;
    based = still_valid.based;
  }

  p-off_bitmap : (p + 4096 ≤ s.file.bitmap_base) ⊎ (s.file.bitmap_base + s.file.bitmap_length ≤ p)
  p-off_bitmap =
      let low = (takes.lowest).0 in
      let page_at = takes.address_is in
      let c = bit_count_lem s tree.valid in let apart = tree.pages_apart in omega arith

  linked-unfree :
      (k : ℕ)
      → k < bit_count (linked s' table i p)
      → is_free (linked s' table i p) k ≡ true
      → relevel level p n (s'.file.base + k * 4096) ≡ 0
  linked-unfree k lt free =
      let lt' : k < bit_count s' = rw (← bit_count-file s' (linked s' table i p) refl) lt in
      let f = takes.file_kept in
      let same = is_free-agree s' (linked s' table i p).mem k still_valid linked-mem lt' in
      let marks = takes.marks k in
      let c = bit_count-file s s' f in
      let e = takes.address_is in
      let free' : is_free s k ≡ true = ground arith in
      let other : k ≢ place = λ q. ground arith in
      let zero_level = tree.unfree k (omega arith) free' in rw f (ground arith)

  pub linked-IsTree : IsTree root (linked s' table i p) (relevel level p n)
  linked-IsTree =
      let f = takes.file_kept in
      record {
        top = relevel-old root (let t = tree.top in omega arith) ∙ tree.top;
        down = linked-down;
        aligned = λ t ne. elim (ℕ_discrete t p) [
          | yes new ↦ rw new (p-aligned a)
          | no old ↦ tree.aligned t (ground arith)
        ];
        ends = λ t ne. elim (ℕ_discrete t p) [
          | yes new ↦ rw new (p-ends a)
          | no old ↦ tree.ends t (ground arith)
        ];
        off_bitmap = λ t ne. elim (ℕ_discrete t p) [
          | yes new ↦ rw (f, new) p-off_bitmap
          | no old ↦ rw f (tree.off_bitmap t (ground arith))
        ];
        unfree = linked-unfree;
        valid = linked-IsValid;
        base_aligned = rw f tree.base_aligned;
        pages_apart = rw f tree.pages_apart;
      }
