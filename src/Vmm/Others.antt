-- ===== src/Vmm/Others.antt =====
-- What `mmap` leaves of the other addresses.
use mathlib.Core.Path.{subst}
use terracotta_os.Prelude.{
  ℕ, ◌+◌, ◌<◌, ◌≤◌, ◌≡◌, ◌≢◌, refl, sym, ◌∙◌, ap, ◌⊎◌, inl, inr, true, Option, some, none,
  Bool-cases, arith,
}
use native.Mathlib.Decide.{ℕ_discrete}
use terracotta_os.Prelude.Options.{bind-some}
use terracotta_os.Memory.{Ptr}
use terracotta_os.Pmm.Bitmap.{is_free-agree}
use terracotta_os.Pmm.Free.{bit_count-file}
use terracotta_os.Pmm.Count.{free_count, free_count-but_one}
use terracotta_os.Vmm.{
  Vmm, entry, is_present, target, leaf, mmap, pml4_index, pdpt_index, pd_index, pt_index,
  next_table, find_table, find_pt,
}
use terracotta_os.Vmm.Tree.{word_of, IsTree}
use terracotta_os.Vmm.Walk.{Next}
use terracotta_os.Vmm.Map.{
  filled, find_table-word, find_table-filled, written-IsTree, written-mem, word-written, found4,
  found3, found2,
}
use terracotta_os.Vmm.Mapped.{walk, walk-steps, mmap-steps, with_steps}

find_table-some :
    (v : Vmm) (t : Ptr) (i : ℕ) (u : Ptr)
    → find_table v t i ≡ some u
    → (is_present (word_of v.machine t i) ≡ true) × (target (word_of v.machine t i) ≡ u)
unfolding find_table entry
find_table-some v t i u e = elim (Bool-cases (is_present (word_of v.machine t i))) [
  | inl yes_it ↦
      let run : find_table v t i ≡ some (target (word_of v.machine t i)) = rw yes_it refl in
      (yes_it, cc)
  | inr no_it ↦ let run : find_table v t i ≡ none = rw no_it refl in absurd cc
]

next_table-present :
    (v : Vmm) (t : Ptr) (i : ℕ)
    → is_present (word_of v.machine t i) ≡ true
    → next_table v t i ≡ some (target (word_of v.machine t i), v)
unfolding next_table entry
next_table-present v t i h = rw h refl

-- The tables on the way of an address, of the levels that they should have.
pub record Way (v : Vmm) (level : Ptr → ℕ) (va : ℕ) (p3 p2 p1 : Ptr) : Type 0 where
  pub step4 : find_table v v.pml4 (pml4_index va) ≡ some p3
  pub step3 : find_table v p3 (pdpt_index va) ≡ some p2
  pub step2 : find_table v p2 (pd_index va) ≡ some p1
  pub level4 : level v.pml4 ≡ 4
  pub level3 : level p3 ≡ 3
  pub level2 : level p2 ≡ 2
  pub level1 : level p1 ≡ 1

module _ {v : Vmm} {level : Ptr → ℕ} {table : Ptr} {i n : ℕ} {t : Ptr} {v' : Vmm}
    (N : Next v level table i n t v') (run : next_table v table i ≡ some (t, v')) where
  -- A step keeps every table that could be found.
  kept_table :
      (x : Ptr) (j : ℕ) (u : Ptr)
      → level x ≢ 0
      → j < 512
      → find_table v x j ≡ some u
      → find_table v' x j ≡ some u
  kept_table x j u ne lt found = elim (ℕ_discrete x table) [
    | no other ↦ find_table-word v v' x j (N.kept_words x j ne lt (inl other)) ∙ found
    | yes e ↦ elim (ℕ_discrete j i) [
      | no other ↦ find_table-word v v' x j (N.kept_words x j ne lt (inr other)) ∙ found
      | yes e' ↦
          let here : find_table v table i ≡ some u =
            subst (λ y. find_table v y i ≡ some u) e
              (subst (λ k. find_table v x k ≡ some u) e' found) in
          let (pres, _) = find_table-some v table i u here in
          let same : ◌≡◌ {A = Option (Ptr × Vmm)} (some (t, v'))
              (some (target (word_of v.machine table i), v)) =
            sym run ∙ next_table-present v table i pres in
          let stays : v ≡ v' = cc in subst (λ w. find_table w x j ≡ some u) stays found
    ]
  ]

  kept-Way : (va : ℕ) (p3 p2 p1 : Ptr) → Way v level va p3 p2 p1 → Way v' N.level' va p3 p2 p1
  kept-Way va p3 p2 p1 w =
      let l4 = w.level4 in
      let l3 = w.level3 in
      let l2 = w.level2 in
      let l1 = w.level1 in
      let root = N.root_kept in
      record {
        step4 =
            ap (λ r. find_table v' r (pml4_index va)) root
            ∙ kept_table v.pml4 (pml4_index va) p3 (omega arith) (omega arith) w.step4;
        step3 = kept_table p3 (pdpt_index va) p2 (omega arith) (omega arith) w.step3;
        step2 = kept_table p2 (pd_index va) p1 (omega arith) (omega arith) w.step2;
        level4 = ap N.level' root ∙ N.kept_levels v.pml4 (omega arith) ∙ l4;
        level3 = N.kept_levels p3 (omega arith) ∙ l3;
        level2 = N.kept_levels p2 (omega arith) ∙ l2;
        level1 = N.kept_levels p1 (omega arith) ∙ l1;
      }

-- The way to a table that is found, on tables in order.
pub found-Way :
    (v : Vmm) (level : Ptr → ℕ) (va : ℕ) (p1 : Ptr)
    → IsTree v.pml4 v.machine level
    → find_pt v va ≡ some p1
    → (p3 : Ptr) × (p2 : Ptr) × Way v level va p3 p2 p1
unfolding find_pt
found-Way v level va p1 tree found =
    let (p3, e4, rest) = bind-some (find_table v v.pml4 (pml4_index va)) _ p1 found in
    let (p2, e3, e2) = bind-some (find_table v p3 (pdpt_index va)) _ p1 rest in
    let (h4, t4) = find_table-some v v.pml4 (pml4_index va) p3 e4 in
    let (h3, t3) = find_table-some v p3 (pdpt_index va) p2 e3 in
    let (h2, t2) = find_table-some v p2 (pd_index va) p1 e2 in
    let l3 = ap level (sym t4) ∙ tree.down v.pml4 2 (pml4_index va) tree.top (omega arith) h4 in
    let l2 = ap level (sym t3) ∙ tree.down p3 1 (pdpt_index va) l3 (omega arith) h3 in
    let l1 = ap level (sym t2) ∙ tree.down p2 0 (pd_index va) l2 (omega arith) h2 in
    (
      p3,
      p2,
      record {
        step4 = e4;
        step3 = e3;
        step2 = e2;
        level4 = tree.top;
        level3 = l3;
        level2 = l2;
        level1 = l1;
      },
    )

pub walk-Way :
    (v : Vmm) (level : Ptr → ℕ) (va : ℕ) (p3 p2 p1 : Ptr)
    → Way v level va p3 p2 p1
    → walk v va ≡ some (word_of v.machine p1 (pt_index va))
walk-Way v level va p3 p2 p1 w = walk-steps v p3 p2 p1 va w.step4 w.step3 w.step2

-- The last writes of `mmap` keep the way, and the entry at its end unless it is the one written.
filled-Way :
    (v : Vmm) (level : Ptr → ℕ) (pt : Ptr) (i e vb : ℕ) (p3 p2 p1 : Ptr)
    → IsTree v.pml4 v.machine level
    → level pt ≡ 1
    → i < 512
    → Way v level vb p3 p2 p1
    → (p1 ≢ pt) ⊎ (pt_index vb ≢ i)
    → walk (filled v pt i e) vb ≡ some (word_of v.machine p1 (pt_index vb))
filled-Way v level pt i e vb p3 p2 p1 tree at lt w other =
    let l4 = w.level4 in
    let l3 = w.level3 in
    let l2 = w.level2 in
    let l1 = w.level1 in
    let apart : (x : Ptr) → 2 ≤ level x → x ≢ pt =
      λ x high q. (let l = ap level q in omega arith) in
    let v' = filled v pt i e in
    walk-steps v' p3 p2 p1 vb
      (find_table-filled v level pt i e tree at lt v.pml4 (pml4_index vb) (omega arith)
          (apart v.pml4 (omega arith)) (omega arith)
        ∙ w.step4)
      (find_table-filled v level pt i e tree at lt p3 (pdpt_index vb) (omega arith)
          (apart p3 (omega arith)) (omega arith)
        ∙ w.step3)
      (find_table-filled v level pt i e tree at lt p2 (pd_index vb) (omega arith)
          (apart p2 (omega arith)) (omega arith)
        ∙ w.step2)
    ∙ ap some (
        word-written (written-IsTree tree 0 at lt) e at lt p1 (pt_index vb) (omega arith)
          (omega arith) other
        ∙ word-written tree 0 at lt p1 (pt_index vb) (omega arith) (omega arith) other)

-- `mmap` returns, with the entry of `va` in a table `t`, and what the walk of `vb` found before it finds
-- again, unless that is the same entry of the same table.
abbrev pub Keeps : Vmm → (va pa flags vb : ℕ) → Ptr → Type 0
Keeps v va pa flags vb u =
    (v' : Vmm) × (t : Ptr) × (mmap v va pa flags ≡ some v')
    × (find_pt v' va ≡ some t)
    × ((u ≢ t) ⊎ (pt_index vb ≢ pt_index va) → walk v' vb ≡ walk v vb)

find_pt-steps :
    (v : Vmm) (t3 t2 t1 : Ptr) (va : ℕ)
    → find_table v v.pml4 (pml4_index va) ≡ some t3
    → find_table v t3 (pdpt_index va) ≡ some t2
    → find_table v t2 (pd_index va) ≡ some t1
    → find_pt v va ≡ some t1
unfolding find_pt
find_pt-steps v t3 t2 t1 va e4 e3 e2 = rw (e4, e3, e2) refl

-- The entry of a table of level 1 is the same after the three steps, whose tables are of higher levels.
kept_leaf :
    {v v3 v2 v1 : Vmm} {level : Ptr → ℕ} {t3 t2 t1 : Ptr} {i4 i3 i2 : ℕ} {p3 p2 : Ptr}
    (N3 : Next v level v.pml4 i4 2 t3 v3)
    → (N2 : Next v3 N3.level' t3 i3 1 t2 v2) → (N1 : Next v2 N2.level' t2 i2 0 t1 v1)
    → (vb : ℕ) (u : Ptr) → Way v level vb p3 p2 u
    → Way v3 N3.level' vb p3 p2 u
    → Way v2 N2.level' vb p3 p2 u
    → word_of v1.machine u (pt_index vb) ≡ word_of v.machine u (pt_index vb)
kept_leaf {v} {v3} {v2} {v1} {level} {t3} {t2} {t1} N3 N2 N1 vb u w w3 w2 =
    let a = w.level1 in
    let b = w3.level1 in
    let c = w2.level1 in
    let root = w.level4 in
    let l3 = N3.below in
    let l2 = N2.below in
    N1.kept_words u (pt_index vb) (omega arith) (omega arith)
      (inl (λ q. (let l = ap N2.level' q in omega arith)))
    ∙ N2.kept_words u (pt_index vb) (omega arith) (omega arith)
        (inl (λ q. (let l = ap N3.level' q in omega arith)))
    ∙ N3.kept_words u (pt_index vb) (omega arith) (omega arith)
        (inl (λ q. (let l = ap level q in omega arith)))

kept :
    (v v3 v2 v1 : Vmm) (level : Ptr → ℕ) (t3 t2 t1 : Ptr) (va pa flags vb : ℕ) (u : Ptr)
    → IsTree v.pml4 v.machine level
    → find_pt v vb ≡ some u
    → next_table v v.pml4 (pml4_index va) ≡ some (t3, v3)
    → next_table v3 t3 (pdpt_index va) ≡ some (t2, v2)
    → next_table v2 t2 (pd_index va) ≡ some (t1, v1)
    → (N3 : Next v level v.pml4 (pml4_index va) 2 t3 v3)
    → (N2 : Next v3 N3.level' t3 (pdpt_index va) 1 t2 v2)
    → (N1 : Next v2 N2.level' t2 (pd_index va) 0 t1 v1) → Keeps v va pa flags vb u
kept v v3 v2 v1 level t3 t2 t1 va pa flags vb u tree found e4 e3 e2 N3 N2 N1 =
    let i = pt_index va in
    let e = leaf pa flags in
    let small : i < 512 = omega arith in
    let v' = filled v1 t1 i e in
    let root : v1.pml4 ≡ v.pml4 = N1.root_kept ∙ N2.root_kept ∙ N3.root_kept in
    let (p3, p2, w) = found-Way v level vb u tree found in
    let w3 = kept-Way N3 e4 vb p3 p2 u w in
    let w2 = kept-Way N2 e3 vb p3 p2 u w3 in
    let w1 = kept-Way N1 e2 vb p3 p2 u w2 in
    let a4 = found4 tree N3 N2 N1 (omega arith) (omega arith) (omega arith) i e small in
    let a3 = found3 tree N3 N2 N1 (omega arith) (omega arith) (omega arith) i e small in
    let a2 = found2 tree N3 N2 N1 (omega arith) (omega arith) (omega arith) i e small in
    (
      v',
      t1,
      mmap-steps v v3 v2 v1 t3 t2 t1 va pa flags e4 e3 e2,
      find_pt-steps v' t3 t2 t1 va (ap (λ r. find_table v' r (pml4_index va)) root ∙ a4) a3 a2,
      λ other.
          filled-Way v1 N1.level' t1 i e vb p3 p2 u N1.tree N1.below small w1 other
          ∙ ap some (kept_leaf N3 N2 N1 vb u w w3 w2)
          ∙ sym (walk-Way v level vb p3 p2 u w),
    )

-- On tables in order with three free pages or more, when the last table `u` on the way of the
-- address `vb` is there, `mmap` of `va` returns, the last table on the way of `va` is there
-- afterwards, and the walk of `vb` ends at the same entry as before, unless the two addresses have
-- the same entry of the same table.
pub mmap-walk :
    (v : Vmm) (level : Ptr → ℕ) (va pa flags vb : ℕ) (u : Ptr)
    → IsTree v.pml4 v.machine level
    → 3 ≤ free_count v.machine
    → find_pt v vb ≡ some u
    → Keeps v va pa flags vb u
mmap-walk v level va pa flags vb u tree enough found =
    with_steps v level va tree enough (λ v3 v2 v1 t3 t2 t1 e4 e3 e2 N3 N2 N1.
      kept v v3 v2 v1 level t3 t2 t1 va pa flags vb u tree found e4 e3 e2 N3 N2 N1)

-- The writes of `mmap` into a table leave the bitmap as it is.
filled-count :
    (v : Vmm) (level : Ptr → ℕ) (pt : Ptr) (i e : ℕ)
    → IsTree v.pml4 v.machine level
    → level pt ≡ 1
    → i < 512
    → free_count v.machine ≤ free_count (filled v pt i e).machine + 1
filled-count v level pt i e tree at lt =
    let s = v.machine in
    let s' = (filled v pt i e).machine in
    free_count-but_one s s' 0 (bit_count-file s s' refl) (λ j small ne.
      is_free-agree s s'.mem j tree.valid
        (λ x lo hi.
          written-mem (written-IsTree tree 0 at lt) e at lt x lo hi
          ∙ written-mem tree 0 at lt x lo hi)
        small)

-- `mmap` takes three pages at most; the bound here is one more.
pub free_count-mmap :
    (v : Vmm) (level : Ptr → ℕ) (va pa flags : ℕ)
    → IsTree v.pml4 v.machine level
    → 3 ≤ free_count v.machine
    → (v' : Vmm) × (mmap v va pa flags ≡ some v')
      × (free_count v.machine ≤ free_count v'.machine + 4)
free_count-mmap v level va pa flags tree enough =
    with_steps v level va tree enough (λ v3 v2 v1 t3 t2 t1 e4 e3 e2 N3 N2 N1.
      let a = N3.taken in
      let b = N2.taken in
      let c = N1.taken in
      let d =
        filled-count v1 N1.level' t1 (pt_index va) (leaf pa flags) N1.tree N1.below (omega arith) in
      (
        filled v1 t1 (pt_index va) (leaf pa flags),
        mmap-steps v v3 v2 v1 t3 t2 t1 va pa flags e4 e3 e2,
        omega arith,
      ))
