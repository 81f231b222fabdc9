-- ===== src/Vmm/Walk.antt =====
-- `mmap` and `unmap` on tables in order: what the walk of an address finds afterwards.
use terracotta_os.Prelude.{
  ℕ, ◌+◌, ◌<◌, ◌≤◌, ◌≡◌, ◌≢◌, refl, ◌∙◌, ap, ◌⊎◌, inl, inr, true, none, some, ==_ne, Bool-cases,
  arith,
}
use terracotta_os.Memory.{Ptr, null}
use terracotta_os.Pmm
use terracotta_os.Pmm.{bit_count, is_free, palloc}
use terracotta_os.Pmm.Bitmap.{is_free-agree}
use terracotta_os.Pmm.Alloc.{IsFull, Takes, palloc_lem, palloc-IsValid}
use terracotta_os.Pmm.Free.{bit_count-file}
use terracotta_os.Pmm.Count.{free_count, free_count-but_one}
use terracotta_os.Vmm.{Vmm, entry, set_entry, is_present, target, add_table, next_table, find_table}
use terracotta_os.Vmm.Entry.{table_entry_lem}
use terracotta_os.Vmm.Tree.{word_of, IsTree, linked, Adds, p-aligned, p-ends, word-linked, word-set}
use terracotta_os.Vmm.Grow.{relevel, relevel-old, linked-mem, linked-IsTree}

-- What a step to the next table leaves: the table `t` that was found or added, of the level below, and
-- the tables in order. Other entries are as before, and one page at most has been taken.
pub record Next (v : Vmm) (level : Ptr → ℕ) (table : Ptr) (i n : ℕ) (t : Ptr) (v' : Vmm)
    : Type 0 where
  pub level' : Ptr → ℕ
  pub tree : IsTree v'.pml4 v'.machine level'
  pub below : level' t ≡ n + 1
  pub kept_levels : (x : Ptr) → level x ≢ 0 → level' x ≡ level x
  pub root_kept : v'.pml4 ≡ v.pml4
  pub found : find_table v' table i ≡ some t
  pub kept_words :
      (x : Ptr) (j : ℕ)
      → level x ≢ 0
      → j < 512
      → (x ≢ table) ⊎ (j ≢ i)
      → word_of v'.machine x j ≡ word_of v.machine x j
  pub taken : free_count v.machine ≤ free_count v'.machine + 1

find_table-present :
    (v : Vmm) (table : Ptr) (i : ℕ)
    → is_present (word_of v.machine table i) ≡ true
    → find_table v table i ≡ some (target (word_of v.machine table i))
unfolding find_table entry
find_table-present v table i h = rw h

linked-count :
    {root : Ptr} {s s' : Pmm.State} {level : Ptr → ℕ} {table p : Ptr} {i n : ℕ}
    → (a : Adds root s level table p i n s') → free_count s ≤ free_count (linked s' table i p) + 1
linked-count {s} {s'} {table} {p} {i} a =
    let f = a.takes.file_kept in
    free_count-but_one s (linked s' table i p) a.place (bit_count-file s (linked s' table i p) f)
      (λ j lt ne.
        let lt' : j < bit_count s' = rw (bit_count-file s s' f) lt in
        is_free-agree s' (linked s' table i p).mem j a.still_valid (linked-mem a) lt'
        ∙ ground (arith, a.takes.marks j))

add_table-full :
    (v : Vmm) (table : Ptr) (i : ℕ)
    → palloc v.machine ≡ (null, v.machine)
    → add_table v table i ≡ none
unfolding add_table
add_table-full v table i e = rw e

add_table-some :
    (v : Vmm) (table : Ptr) (i : ℕ)
    → (palloc v.machine).0 ≢ null
    → let p = (palloc v.machine).0 in
      add_table v table i ≡ some (p, record v { machine = linked (palloc v.machine).1 table i p })
unfolding add_table set_entry
add_table-some v table i ne = let test = ==_ne (palloc v.machine).0 0 ne in rw test

module _ (v : Vmm) (level : Ptr → ℕ) (tree : IsTree v.pml4 v.machine level) (table : Ptr) (i n : ℕ)
    (at : level table ≡ n + 2) (lt : i < 512) where
  Next-present :
      is_present (word_of v.machine table i) ≡ true
      → (next_table v table i ≡ some (target (word_of v.machine table i), v))
        × Next v level table i n (target (word_of v.machine table i)) v
  unfolding next_table entry
  Next-present h = (
    rw h,
    record {
      level' = level;
      tree = tree;
      below = tree.down table n i at lt h;
      kept_levels = λ x ne. refl;
      root_kept = refl;
      found = find_table-present v table i h;
      kept_words = λ x j ne small other. refl;
      taken = omega arith;
    },
  )

  Next-added :
      (k : ℕ)
      → Takes v.machine (palloc v.machine).0 (palloc v.machine).1 k
      → let p = (palloc v.machine).0 in
        Next v level table i n p (record v { machine = linked (palloc v.machine).1 table i p })
  Next-added k takes =
      let p = (palloc v.machine).0 in
      let s' = (palloc v.machine).1 in
      let v' : Vmm = record v { machine = linked s' table i p } in
      let a : Adds v.pml4 v.machine level table p i n s' = record {
        place = k;
        tree = tree;
        at = at;
        small = lt;
        takes = takes;
        still_valid = palloc-IsValid v.machine tree.valid;
      } in
      let e = word-set a in
      let q = p-ends a in
      let (pres, back, fits) = table_entry_lem p (p-aligned a) (omega arith) in
      record {
        level' = relevel level p n;
        tree = linked-IsTree a;
        below = ground arith;
        kept_levels = relevel-old a;
        root_kept = refl;
        found =
            find_table-present v' table i (ap is_present e ∙ pres) ∙ ap some (ap target e ∙ back);
        kept_words = word-linked a;
        taken = linked-count a;
      }

  -- A step finds or adds a table, or fails because no page is free.
  pub next_table-cases :
      ((next_table v table i ≡ none) × IsFull v.machine)
      ⊎ ((t : Ptr) × (v' : Vmm) × (next_table v table i ≡ some (t, v'))
          × Next v level table i n t v')
  unfolding next_table entry
  next_table-cases = elim (Bool-cases (is_present (word_of v.machine table i))) [
    | inl h ↦ inr (target (word_of v.machine table i), v, (Next-present h).0, (Next-present h).1)
    | inr h ↦ elim (palloc_lem v.machine tree.valid) [
      | inl (full, e) ↦ inl (rw h (add_table-full v table i e), full)
      | inr (k, takes, ne) ↦ inr (_, _, rw h (add_table-some v table i ne), Next-added k takes)
    ]
  ]
