-- ===== src/Idt/Recovers.antt =====
-- What `exception_handler` does with the page tables in order.
use terracotta_os.Prelude.{
  ℕ, ◌/◌, ◌%◌, ◌^◌, ◌≤◌, ◌<◌, ◌≡◌, ◌≢◌, refl, ◌⊎◌, inl, inr, true, false, ◌&&◌, ◌||◌, some, ltb,
  leb, ◌==◌, Bool-cases, arith,
}
use terracotta_os.Memory.{Ptr}
use terracotta_os.Pmm.Count.{free_count}
use terracotta_os.Vmm.{Vmm, is_present}
use terracotta_os.Vmm.Tree.{IsTree}
use terracotta_os.Vmm.Mapped.{walk, mmap_lem}
use terracotta_os.Idt.{halts, resumes, exception_handler}

-- The handler comes back, and then the walk of `address` ends at a present and writable entry for the
-- frame of `address` itself, on tables in order.
abbrev pub Recovers : (exception address : ℕ) → Vmm → Type 0
Recovers exception address v =
    (v' : Vmm) × (e : ℕ) × (exception_handler exception address v ≡ resumes v')
    × (walk v' address ≡ some e)
    × (is_present e ≡ true)
    × (e / 4096 ≡ address / 4096)
    × (e / 2 % 2 ≡ 1)
    × ((level : Ptr → ℕ) × IsTree v'.pml4 v'.machine level)

-- On page tables in order, with three free pages or more, `exception_handler` recovers from a page
-- fault at a 64-bit address past the first page: it comes back with the page of the address mapped to
-- itself, present and writable, and with the tables in order. At an address in the first page, and for
-- every other exception, it halts.
pub exception_handler_lem :
    (exception cr2 : ℕ) (v : Vmm) (level : Ptr → ℕ)
    → IsTree v.pml4 v.machine level
    → 3 ≤ free_count v.machine
    → cr2 < 2 ^ 64
    → ((exception ≡ 14) × (0x1000 ≤ cr2) × Recovers exception cr2 v)
      ⊎ (((exception ≢ 14) ⊎ (cr2 < 0x1000)) × (exception_handler exception cr2 v ≡ halts))
unfolding exception_handler
exception_handler_lem exception cr2 v level tree enough fits =
    let (v', e, run, reached, present, frame, flags, ordered) =
      mmap_lem v level cr2 cr2 3 tree enough fits in
    elim (Bool-cases (exception == 14 && leb 0x1000 cr2)) [
      | inl survived ↦
          let fault : exception ≡ 14 = ground arith in
          let past : 0x1000 ≤ cr2 = ground arith in
          let low : (cr2 == 0 || ltb cr2 0x1000) ≡ false = ground arith in
          inl (
            fault,
            past,
            (v', e, rw (fault, low, run) refl, reached, present, frame, omega arith, ordered),
          )
      | inr lost ↦
          let why : (exception ≢ 14) ⊎ (cr2 < 0x1000) = ground arith in inr (why, ground arith)
    ]
