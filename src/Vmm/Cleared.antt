-- ===== src/Vmm/Cleared.antt =====
-- What `unmap` leaves of the other addresses.
use terracotta_os.Prelude.{ℕ, ◌<◌, ◌≤◌, ◌≡◌, ◌≢◌, sym, ◌∙◌, ap, ◌⊎◌, inl, some, arith}
use terracotta_os.Memory.{Ptr}
use terracotta_os.Vmm.{Vmm, unmap, pt_index, find_pt}
use terracotta_os.Vmm.Tree.{IsTree}
use terracotta_os.Vmm.Map.{word-written, find_table-word}
use terracotta_os.Vmm.Mapped.{walk, walk-steps}
use terracotta_os.Vmm.Others.{found-Way, walk-Way}
use terracotta_os.Vmm.Unmapped.{cleared, unmap-some}

-- On tables in order, when the last table `t` on the way of the address `va` and the last one `u` on the
-- way of `vb` are there, the walk of `vb` ends behind `unmap` of `va` at the same entry as before,
-- unless the two addresses have the same entry of the same table.
pub unmap-walk :
    (v : Vmm) (level : Ptr → ℕ) (va vb : ℕ) (t u : Ptr)
    → IsTree v.pml4 v.machine level
    → find_pt v va ≡ some t
    → find_pt v vb ≡ some u
    → (u ≢ t) ⊎ (pt_index vb ≢ pt_index va)
    → walk (unmap v va) vb ≡ walk v vb
unmap-walk v level va vb t u tree found found' other =
    let (q3, q2, at) = found-Way v level va t tree found in
    let (p3, p2, w) = found-Way v level vb u tree found' in
    let l1 = at.level1 in
    let m4 = w.level4 in
    let m3 = w.level3 in
    let m2 = w.level2 in
    let m1 = w.level1 in
    let kept = λ (x : Ptr) (j : ℕ) (high : 2 ≤ level x) (small : j < 512).
      find_table-word v (cleared v va t) x j (
        word-written tree 0 l1 (omega arith) x j (omega arith) small
          (inl (λ q. (let l = ap level q in omega arith)))) in
    ap (λ y. walk y vb) (unmap-some v va found)
    ∙ walk-steps (cleared v va t) p3 p2 u vb (kept v.pml4 _ (omega arith) (omega arith) ∙ w.step4)
        (kept p3 _ (omega arith) (omega arith) ∙ w.step3)
        (kept p2 _ (omega arith) (omega arith) ∙ w.step2)
    ∙ ap some
        (word-written tree 0 l1 (omega arith) u (pt_index vb) (omega arith) (omega arith) other)
    ∙ sym (walk-Way v level vb p3 p2 u w)
