-- ===== src/Vmm/Mapped.antt =====
-- The two properties of `mmap` and `unmap`: the page that is mapped, and the page that is not any more.
use terracotta_os.Prelude.{
  ℕ, ◌/◌, ◌%◌, ◌^◌, ◌<◌, ◌≤◌, ◌≡◌, ◌∙◌, ap, inl, inr, true, Option, none, some, arith,
}
use terracotta_os.Memory.{Ptr, load64-store64}
use terracotta_os.Pmm.Count.{free_count, free_count-IsFull}
use terracotta_os.Vmm.{
  Vmm, slot, entry, set_entry, is_present, leaf, mmap, pml4_index, pdpt_index, pd_index, pt_index,
  next_table, find_table, find_pt, ◌>>=◌,
}
use terracotta_os.Vmm.Entry.{leaf_lem}
use terracotta_os.Vmm.Tree.{word_of, IsTree}
use terracotta_os.Vmm.Walk.{Next, next_table-cases}
use terracotta_os.Vmm.Map.{filled, filled-IsTree, found4, found3, found2}

-- The entry at the end of the walk of an address, if the tables on the way are there.
unfoldable pub walk : Vmm → ℕ → Option ℕ
walk v va = find_pt v va >>= λ pt. some (entry v pt (pt_index va))

-- `mmap` once its three steps have gone through.
pub mmap-steps :
    (v v3 v2 v1 : Vmm) (t3 t2 t1 : Ptr) (va pa flags : ℕ)
    → next_table v v.pml4 (pml4_index va) ≡ some (t3, v3)
    → next_table v3 t3 (pdpt_index va) ≡ some (t2, v2)
    → next_table v2 t2 (pd_index va) ≡ some (t1, v1)
    → mmap v va pa flags ≡ some (filled v1 t1 (pt_index va) (leaf pa flags))
unfolding mmap set_entry
mmap-steps v v3 v2 v1 t3 t2 t1 va pa flags e4 e3 e2 = rw (e4, e3, e2)

pub walk-steps :
    (v : Vmm) (t3 t2 t1 : Ptr) (va : ℕ)
    → find_table v v.pml4 (pml4_index va) ≡ some t3
    → find_table v t3 (pdpt_index va) ≡ some t2
    → find_table v t2 (pd_index va) ≡ some t1
    → walk v va ≡ some (word_of v.machine t1 (pt_index va))
unfolding walk find_pt entry
walk-steps v t3 t2 t1 va e4 e3 e2 = rw (e4, e3, e2)

word-filled :
    (v : Vmm) (pt : Ptr) (i e : ℕ) → e < 2 ^ 64 → word_of (filled v pt i e).machine pt i ≡ e
word-filled v pt i e h = load64-store64 _ (slot pt i) e h

-- `mmap` returns, and in what it leaves the walk of `va` ends at a present entry for the frame of `pa`
-- with the given flags, on tables in order.
abbrev pub Maps : Vmm → (va pa flags : ℕ) → Type 0
Maps v va pa flags =
    (v' : Vmm) × (e : ℕ) × (mmap v va pa flags ≡ some v')
    × (walk v' va ≡ some e)
    × (is_present e ≡ true)
    × (e / 4096 ≡ pa / 4096)
    × (e % 4096 / 2 ≡ flags % 4096 / 2)
    × ((level' : Ptr → ℕ) × IsTree v'.pml4 v'.machine level')

mapped :
    (v v3 v2 v1 : Vmm) (level : Ptr → ℕ) (t3 t2 t1 : Ptr) (va pa flags : ℕ)
    → IsTree v.pml4 v.machine level
    → pa < 2 ^ 64
    → next_table v v.pml4 (pml4_index va) ≡ some (t3, v3)
    → next_table v3 t3 (pdpt_index va) ≡ some (t2, v2)
    → next_table v2 t2 (pd_index va) ≡ some (t1, v1)
    → (N3 : Next v level v.pml4 (pml4_index va) 2 t3 v3)
    → (N2 : Next v3 N3.level' t3 (pdpt_index va) 1 t2 v2)
    → (N1 : Next v2 N2.level' t2 (pd_index va) 0 t1 v1) → Maps v va pa flags
mapped v v3 v2 v1 level t3 t2 t1 va pa flags tree fits e4 e3 e2 N3 N2 N1 =
    let i = pt_index va in
    let e = leaf pa flags in
    let small : i < 512 = omega arith in
    let v' = filled v1 t1 i e in
    let root : v1.pml4 ≡ v.pml4 = N1.root_kept ∙ N2.root_kept ∙ N3.root_kept in
    let (pres, frame, bits, lt) = leaf_lem pa flags fits in
    let a4 = found4 tree N3 N2 N1 (omega arith) (omega arith) (omega arith) i e small in
    let a3 = found3 tree N3 N2 N1 (omega arith) (omega arith) (omega arith) i e small in
    let a2 = found2 tree N3 N2 N1 (omega arith) (omega arith) (omega arith) i e small in
    (
      v',
      e,
      mmap-steps v v3 v2 v1 t3 t2 t1 va pa flags e4 e3 e2,
      walk-steps v' t3 t2 t1 va (ap (λ r. find_table v' r (pml4_index va)) root ∙ a4) a3 a2
          ∙ ap some (word-filled v1 t1 i e lt),
      pres,
      frame,
      bits,
      (N1.level', filled-IsTree v1 N1.level' t1 i e N1.tree N1.below small),
    )

-- On tables in order, with three free pages, the three steps go through.
pub with_steps {ℓ} :
    {P : Type ℓ} (v : Vmm) (level : Ptr → ℕ) (va : ℕ)
    → IsTree v.pml4 v.machine level
    → 3 ≤ free_count v.machine
    → ((v3 v2 v1 : Vmm) (t3 t2 t1 : Ptr)
        → next_table v v.pml4 (pml4_index va) ≡ some (t3, v3)
        → next_table v3 t3 (pdpt_index va) ≡ some (t2, v2)
        → next_table v2 t2 (pd_index va) ≡ some (t1, v1)
        → (N3 : Next v level v.pml4 (pml4_index va) 2 t3 v3)
        → (N2 : Next v3 N3.level' t3 (pdpt_index va) 1 t2 v2)
        → (N1 : Next v2 N2.level' t2 (pd_index va) 0 t1 v1) → P)
    → P
with_steps v level va tree enough use_steps =
    elim (next_table-cases v level tree v.pml4 (pml4_index va) 2 tree.top (omega arith)) [
      | inl (e4, full) ↦ absurd (omega (arith, free_count-IsFull v.machine full))
      | inr (t3, v3, e4, N3) ↦
          elim (next_table-cases v3 N3.level' N3.tree t3 (pdpt_index va) 1 N3.below (omega arith)) [
            | inl (e3, full) ↦
                let c = N3.taken in absurd (omega (arith, free_count-IsFull v3.machine full))
            | inr (t2, v2, e3, N2) ↦
                elim (next_table-cases v2 N2.level' N2.tree t2 (pd_index va) 0 N2.below
                  (omega arith)) [
                    | inl (e2, full) ↦
                        let c = N3.taken in
                        let d = N2.taken in
                        absurd (omega (arith, free_count-IsFull v2.machine full))
                    | inr (t1, v1, e2, N1) ↦ use_steps v3 v2 v1 t3 t2 t1 e4 e3 e2 N3 N2 N1
                  ]
          ]
    ]

-- On tables in order, with three free pages or more and a 64-bit physical address, `mmap` maps the
-- page: it returns, the walk of the address ends at an entry that is present, with the frame of
-- the physical address and the flags but for the present bit, and the tables are in order again.
pub mmap_lem :
    (v : Vmm) (level : Ptr → ℕ) (va pa flags : ℕ)
    → IsTree v.pml4 v.machine level
    → 3 ≤ free_count v.machine
    → pa < 2 ^ 64
    → Maps v va pa flags
mmap_lem v level va pa flags tree enough fits =
    with_steps v level va tree enough (λ v3 v2 v1 t3 t2 t1 e4 e3 e2 N3 N2 N1.
      mapped v v3 v2 v1 level t3 t2 t1 va pa flags tree fits e4 e3 e2 N3 N2 N1)

pub walk-none : (v : Vmm) (va : ℕ) → find_pt v va ≡ none → walk v va ≡ none
unfolding walk
walk-none v va e = rw e
