-- ===== src/Start/Created.antt =====
-- ASNU/src/sched/scheduler.c: `create_proc` on a page for the stack, with a page for the structure.
use terracotta_os.Prelude.{ℕ, ◌+◌, ◌%◌, ◌^◌, ◌≤◌, ◌<◌, ◌≡◌, refl, ◌∙◌, ◌⊎◌, false, arith}
use terracotta_os.Word.{u32_mod, add64, sub64}
use terracotta_os.Memory.{Ptr, within, store64, store64-outside, store64-IsBytes}
use terracotta_os.Str.{memset}
use terracotta_os.Str.Block.{memset_lem, memset-IsBytes}
use terracotta_os.Pmm
use terracotta_os.Pmm.{palloc, kalloc}
use terracotta_os.Pmm.Count.{free_count}
use terracotta_os.Sched.{Sched, update, sizeof_procedure, fresh_procedure, create_proc}
use terracotta_os.Sched.Create.{create_proc_lem}
use terracotta_os.Start.Pages.{
  IsReady, Grants, palloc-Grants, page_apart, granted-ne, granted_written,
}

-- What the creation of a process makes of the scheduler.
pub record Creates (s : Sched) (entry_point stack : ℕ) (p : Ptr) (s' : Sched) (k : ℕ) : Type 0 where
  pub grants : Grants s.machine p s'.machine k
  pub fills : s'.procs ≡ update s.procs p (fresh_procedure s.next_pid entry_point 0 stack 4096)
  pub numbers : s'.next_pid ≡ (s.next_pid + 1) % u32_mod
  pub counts : s'.proc_count ≡ s.proc_count
  pub lists : s'.proc_list ≡ s.proc_list
  pub currents : s'.current_proc ≡ s.current_proc

module _ (s : Sched) (stack : ℕ) (r : IsReady s.machine) (ends : stack + 4096 ≤ 2 ^ 64)
    (apart : (stack + 4096 ≤ s.machine.file.bitmap_base)
      ⊎ (s.machine.file.bitmap_base + s.machine.file.bitmap_length ≤ stack)) where
  -- The structure and the first word of the stack are apart from the bitmap.
  create_proc-Grants :
      {p : Ptr} {m' : Pmm.State} {k : ℕ}
      → Grants s.machine p m' k
      → Grants s.machine p
          (record m' {
            mem = store64 (memset m'.mem p 0 sizeof_procedure) (sub64 (add64 stack 4096) 8) 0;
          })
          k
  create_proc-Grants {p} {m'} {k} g =
      let top : sub64 (add64 stack 4096) 8 ≡ stack + 4088 = omega arith in
      let f = g.file_kept in
      let page = page_apart s.machine k p r g.counted g.address_is in
      granted_written g _
        (store64-IsBytes _ _ (memset-IsBytes m'.mem p 0 sizeof_procedure g.is_ready.valid.bytes))
        (λ x lo hi.
          let lo' : s.machine.file.bitmap_base ≤ x = rw (← f) lo in
          let hi' : x < s.machine.file.bitmap_base + s.machine.file.bitmap_length = rw (← f) hi in
          let out : within p sizeof_procedure x ≡ false = ground arith in
          store64-outside (memset m'.mem p 0 sizeof_procedure) (sub64 (add64 stack 4096) 8) 0 x
            (rw top (omega arith))
          ∙ memset_lem m'.mem p 0 sizeof_procedure x
          ∙ rw out)

  -- With a free page, and a stack of a page that is apart from the bitmap, `create_proc` returns the
  -- address of a page that was free, fills in the structure there, and marks no other page.
  pub create_proc-Creates :
      (entry_point : ℕ)
      → 0 < free_count s.machine
      → let (p, s') = create_proc s entry_point 0 stack 4096 in
        (k : ℕ) × Creates s entry_point stack p s' k
  create_proc-Creates entry_point some =
      let (k, g) = palloc-Grants s.machine r some in
      rw (create_proc_lem s entry_point 0 stack 4096 (granted-ne g r)) (
        k,
        record {
          grants = create_proc-Grants g;
          fills = refl;
          numbers = refl;
          counts = refl;
          lists = refl;
          currents = refl;
        },
      )
