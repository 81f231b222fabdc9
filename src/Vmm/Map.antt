-- ===== src/Vmm/Map.antt =====
-- `mmap` and `unmap` as a whole: what the walk of an address finds afterwards.
use terracotta_os.Prelude.{ℕ, ◌+◌, ◌<◌, ◌≤◌, ◌≡◌, ◌≢◌, refl, sym, ◌∙◌, ap, ◌⊎◌, inl, some, arith}
use terracotta_os.Memory.{Ptr, store64, load64-store64_ne, store64-outside, store64-IsBytes}
use terracotta_os.Pmm
use terracotta_os.Pmm.{bit_count, is_free, palloc}
use terracotta_os.Pmm.Bitmap.{is_free-agree}
use terracotta_os.Pmm.Free.{bit_count-file}
use terracotta_os.Vmm.{Vmm, slot, entry, set_entry, is_present, target, find_table}
use terracotta_os.Vmm.Tree.{word_of, IsTree}
use terracotta_os.Vmm.Walk.{Next}

-- A word written into a table of level 1.
abbrev pub written : Pmm.State → Ptr → ℕ → ℕ → Pmm.State
written s pt i e = record s { mem = store64 s.mem (slot pt i) e }

module _ {root : Ptr} {s : Pmm.State} {level : Ptr → ℕ} (tree : IsTree root s level) {pt : Ptr}
    {i : ℕ} (e : ℕ) (at : level pt ≡ 1) (lt : i < 512) where
  pub word-written :
      (t : Ptr) (j : ℕ)
      → level t ≢ 0
      → j < 512
      → (t ≢ pt) ⊎ (j ≢ i)
      → word_of (written s pt i e) t j ≡ word_of s t j
  word-written t j ne small other =
      let a = tree.aligned t ne in
      let b = tree.aligned pt (omega arith) in
      load64-store64_ne s.mem (slot pt i) (slot t j) e (omega arith)

  pub written-mem :
      (x : ℕ)
      → s.file.bitmap_base ≤ x
      → x < s.file.bitmap_base + s.file.bitmap_length
      → (written s pt i e).mem x ≡ s.mem x
  written-mem x lo hi =
      let off = tree.off_bitmap pt (omega arith) in
      store64-outside s.mem (slot pt i) e x (omega arith)

  pub written-IsTree : IsTree root (written s pt i e) level
  written-IsTree =
      let v = tree.valid in
      record {
        top = tree.top;
        down = λ t n j lv small pres.
            let other : t ≢ pt = λ q. let l = ap level q in omega arith in
            let w = word-written t j (omega arith) small (inl other) in
            ap (λ x. level (target x)) w ∙ tree.down t n j lv small (ap is_present (sym w) ∙ pres);
        aligned = tree.aligned;
        ends = tree.ends;
        off_bitmap = tree.off_bitmap;
        unfree = λ k small free.
            let lt' : k < bit_count s = rw (← bit_count-file s (written s pt i e) refl) small in
            tree.unfree k lt'
              (sym (is_free-agree s (written s pt i e).mem k v written-mem lt') ∙ free);
        valid = record {
          bytes = store64-IsBytes _ _ v.bytes;
          counted = v.counted;
          mapped = v.mapped;
          based = v.based;
        };
        base_aligned = tree.base_aligned;
        pages_apart = tree.pages_apart;
      }

pub set_entry-written :
    (v : Vmm) (t : Ptr) (i e : ℕ)
    → set_entry v t i e ≡ record v { machine = written v.machine t i e }
unfolding set_entry
set_entry-written v t i e = refl

pub find_table-word :
    (v v' : Vmm) (t : Ptr) (i : ℕ)
    → word_of v'.machine t i ≡ word_of v.machine t i
    → find_table v' t i ≡ find_table v t i
unfolding find_table entry
find_table-word v v' t i e = rw e

find_table-kept :
    {v : Vmm} {level : Ptr → ℕ} {table : Ptr} {i n : ℕ} {t : Ptr} {v' : Vmm}
    → Next v level table i n t v'
    → (x : Ptr) (j : ℕ) → level x ≢ 0
    → x ≢ table
    → j < 512
    → find_table v' x j ≡ find_table v x j
find_table-kept {v} {v' = v'} N x j ne other lt =
    find_table-word v v' x j (N.kept_words x j ne lt (inl other))

-- The last two writes of `mmap`.
abbrev pub filled : Vmm → Ptr → ℕ → ℕ → Vmm
filled v pt i e = record v { machine = written (written v.machine pt i 0) pt i e }

pub filled-IsTree :
    (v : Vmm) (level : Ptr → ℕ) (pt : Ptr) (i e : ℕ)
    → IsTree v.pml4 v.machine level
    → level pt ≡ 1
    → i < 512
    → IsTree v.pml4 (filled v pt i e).machine level
filled-IsTree v level pt i e tree at lt = written-IsTree (written-IsTree tree 0 at lt) e at lt

pub find_table-filled :
    (v : Vmm) (level : Ptr → ℕ) (pt : Ptr) (i e : ℕ)
    → IsTree v.pml4 v.machine level
    → level pt ≡ 1
    → i < 512
    → (x : Ptr) (j : ℕ) → level x ≢ 0
    → x ≢ pt
    → j < 512
    → find_table (filled v pt i e) x j ≡ find_table v x j
find_table-filled v level pt i e tree at lt x j ne other small =
    find_table-word v (filled v pt i e) x j (
      word-written (written-IsTree tree 0 at lt) e at lt x j ne small (inl other)
      ∙ word-written tree 0 at lt x j ne small (inl other))

module _ {v v3 v2 v1 : Vmm} {level : Ptr → ℕ} {t3 t2 t1 : Ptr} {i4 i3 i2 : ℕ}
    (tree : IsTree v.pml4 v.machine level) (N3 : Next v level v.pml4 i4 2 t3 v3)
    (N2 : Next v3 N3.level' t3 i3 1 t2 v2) (N1 : Next v2 N2.level' t2 i2 0 t1 v1) (lt4 : i4 < 512)
    (lt3 : i3 < 512) (lt2 : i2 < 512) (i1 e : ℕ) (lt1 : i1 < 512) where
  levels :
      (N1.level' v.pml4 ≡ 4)
      × (N1.level' t3 ≡ 3)
      × (N1.level' t2 ≡ 2)
      × (N2.level' v.pml4 ≡ 4)
      × (N2.level' t3 ≡ 3)
      × (N3.level' v.pml4 ≡ 4)
  levels =
      let r3 = N3.kept_levels v.pml4 (let t = tree.top in omega arith) ∙ tree.top in
      let r2 = N2.kept_levels v.pml4 (omega arith) ∙ r3 in
      let s2 = N2.kept_levels t3 (let b = N3.below in omega arith) ∙ N3.below in
      let r1 = N1.kept_levels v.pml4 (omega arith) ∙ r2 in
      let s1 = N1.kept_levels t3 (omega arith) ∙ s2 in
      let q1 = N1.kept_levels t2 (let b = N2.below in omega arith) ∙ N2.below in
      (r1, s1, q1, r2, s2, r3)

  other_level : (f : Ptr → ℕ) {x y : Ptr} → f x ≢ f y → x ≢ y
  other_level f ne e = ne (ap f e)

  pub found4 : find_table (filled v1 t1 i1 e) v.pml4 i4 ≡ some t3
  found4 =
      let (r1, s1, q1, r2, s2, r3) = levels in
      let b1 = N1.below in
      let b2 = N2.below in
      let b3 = N3.below in
      find_table-filled v1 N1.level' t1 i1 e N1.tree b1 lt1 v.pml4 i4 (omega arith)
        (other_level N1.level' (omega arith)) lt4
      ∙ find_table-kept N1 v.pml4 i4 (omega arith) (other_level N2.level' (omega arith)) lt4
      ∙ find_table-kept N2 v.pml4 i4 (omega arith) (other_level N3.level' (omega arith)) lt4
      ∙ N3.found

  pub found3 : find_table (filled v1 t1 i1 e) t3 i3 ≡ some t2
  found3 =
      let (r1, s1, q1, r2, s2, r3) = levels in
      let b1 = N1.below in
      let b2 = N2.below in
      find_table-filled v1 N1.level' t1 i1 e N1.tree b1 lt1 t3 i3 (omega arith)
        (other_level N1.level' (omega arith)) lt3
      ∙ find_table-kept N1 t3 i3 (omega arith) (other_level N2.level' (omega arith)) lt3
      ∙ N2.found

  pub found2 : find_table (filled v1 t1 i1 e) t2 i2 ≡ some t1
  found2 =
      let (r1, s1, q1, r2, s2, r3) = levels in
      let b1 = N1.below in
      find_table-filled v1 N1.level' t1 i1 e N1.tree b1 lt1 t2 i2 (omega arith)
        (other_level N1.level' (omega arith)) lt2
      ∙ N1.found
