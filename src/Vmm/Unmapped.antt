-- ===== src/Vmm/Unmapped.antt =====
-- `unmap`: the page that is not mapped any more.
use terracotta_os.Prelude.{
  ℕ, ◌+◌, ◌<◌, ◌≡◌, ◌≢◌, refl, ◌∙◌, ap, ◌⊎◌, inl, inr, ◌∷◌, none, some, Bool-cases, Option-cases,
  arith,
}
use terracotta_os.Memory.{Ptr, load64-store64}
use terracotta_os.Vmm.{
  Vmm, slot, entry, set_entry, is_present, unmap, pml4_index, pdpt_index, pd_index, pt_index,
  find_table, find_pt,
}
use terracotta_os.Vmm.Tree.{word_of, IsTree}
use terracotta_os.Vmm.Map.{written, word-written, written-IsTree, find_table-word}
use terracotta_os.Vmm.Mapped.{walk, walk-steps, walk-none}

find_table-level :
    (v : Vmm) {level : Ptr → ℕ} (tree : IsTree v.pml4 v.machine level) (t : Ptr) (n i : ℕ) {x : Ptr}
    → level t ≡ n + 2
    → i < 512
    → find_table v t i ≡ some x
    → level x ≡ n + 1
unfolding find_table entry
find_table-level v {level} tree t n i at lt e =
    elim (Bool-cases (is_present (word_of v.machine t i))) [
      | inl h ↦ let down = tree.down t n i at lt h in let e' = (rw h at e) in cc
      | inr h ↦ let e' = (rw h at e) in cc
    ]

-- The tables on the way of an address.
record Way (v : Vmm) (va : ℕ) (t3 t2 t1 : Ptr) : Type 0 where
  step4 : find_table v v.pml4 (pml4_index va) ≡ some t3
  step3 : find_table v t3 (pdpt_index va) ≡ some t2
  step2 : find_table v t2 (pd_index va) ≡ some t1

find_pt-cases :
    (v : Vmm) (va : ℕ)
    → (find_pt v va ≡ none) ⊎ ((t3 t2 t1 : Ptr) × (find_pt v va ≡ some t1) × Way v va t3 t2 t1)
unfolding find_pt
find_pt-cases v va = elim (Option-cases (find_table v v.pml4 (pml4_index va))) [
  | inl e4 ↦ inl (rw e4)
  | inr (t3, e4) ↦ elim (Option-cases (find_table v t3 (pdpt_index va))) [
    | inl e3 ↦ inl (rw (e4, e3))
    | inr (t2, e3) ↦ elim (Option-cases (find_table v t2 (pd_index va))) [
      | inl e2 ↦ inl (rw (e4, e3, e2))
      | inr (t1, e2) ↦
          inr (t3, t2, t1, rw (e4, e3, e2), record { step4 = e4; step3 = e3; step2 = e2 })
    ]
  ]
]

unmap-none : (v : Vmm) (va : ℕ) → find_pt v va ≡ none → unmap v va ≡ v
unfolding unmap
unmap-none v va e = rw (e, unmap)

abbrev pub cleared : Vmm → ℕ → Ptr → Vmm
cleared v va pt = record v {
  machine = written v.machine pt (pt_index va) 0;
  flushed = va ∷ v.flushed;
}

pub unmap-some :
    (v : Vmm) (va : ℕ) {pt : Ptr} → find_pt v va ≡ some pt → unmap v va ≡ cleared v va pt
unfolding unmap set_entry
unmap-some v va e = rw (e, unmap)

-- On tables in order `unmap` either finds no table at some level on the way and changes nothing, or
-- leaves the entry of the address clear, flushes the address, and leaves the tables in order.
pub unmap_lem :
    (v : Vmm) (level : Ptr → ℕ) (va : ℕ)
    → IsTree v.pml4 v.machine level
    → ((walk v va ≡ none) × (unmap v va ≡ v))
      ⊎ ((walk (unmap v va) va ≡ some 0)
          × ((unmap v va).flushed ≡ va ∷ v.flushed)
          × IsTree (unmap v va).pml4 (unmap v va).machine level)
unmap_lem v level va tree = elim (find_pt-cases v va) [
  | inl missing ↦ inl (walk-none v va missing, unmap-none v va missing)
  | inr (t3, t2, t1, e, way) ↦
      let l3 = find_table-level v tree v.pml4 2 (pml4_index va) tree.top (omega arith) way.step4 in
      let l2 = find_table-level v tree t3 1 (pdpt_index va) l3 (omega arith) way.step3 in
      let l1 = find_table-level v tree t2 0 (pd_index va) l2 (omega arith) way.step2 in
      let lt : pt_index va < 512 = omega arith in
      let top = tree.top in
      let kept =
        λ (x : Ptr) (j : ℕ) (ne : level x ≢ 0) (other : level x ≢ level t1) (small : j < 512).
          find_table-word v (cleared v va t1) x j
            (word-written tree 0 l1 lt x j ne small (inl (λ q. other (ap level q)))) in
      rw (unmap-some v va e) (
        inr (
          walk-steps (cleared v va t1) t3 t2 t1 va
                (kept v.pml4 _ (omega arith) (omega arith) (omega arith) ∙ way.step4)
                (kept t3 _ (omega arith) (omega arith) (omega arith) ∙ way.step3)
                (kept t2 _ (omega arith) (omega arith) (omega arith) ∙ way.step2)
              ∙ ap some (load64-store64 _ (slot t1 (pt_index va)) 0 (omega arith)),
          refl,
          written-IsTree tree 0 l1 lt,
        ))
]
