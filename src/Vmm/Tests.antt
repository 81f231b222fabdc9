-- ===== src/Vmm/Tests.antt =====
-- An empty top table with eight free pages, on which an address is mapped and unmapped again.
use mathlib.Core.Path.{subst}
use terracotta_os.Prelude.{
  ℕ, ◌≤◌, ◌+◌, ◌*◌, ◌≡◌, refl, sym, ◌∙◌, Option, ◌⊎◌, inl, inr, [], ◌∷◌, none, some, ◌==◌,
  if◌then◌else◌, arith,
}
use terracotta_os.Memory.{Ptr}
use terracotta_os.Pmm
use terracotta_os.Pmm.{bit_count, is_free}
use terracotta_os.Pmm.Bitmap.{IsValid}
use terracotta_os.Pmm.Count.{free_count}
use terracotta_os.Vmm.{Vmm, unmap, find_pt}
use terracotta_os.Vmm.Entry.{zero_word}
use terracotta_os.Vmm.Tree.{IsTree}
use terracotta_os.Prelude.Options.{bind-some}
use terracotta_os.Vmm.Cleared.{unmap-walk}
use terracotta_os.Vmm.Others.{Keeps, mmap-walk, free_count-mmap}
use terracotta_os.Vmm.Mapped.{Maps, walk, mmap_lem}
use terracotta_os.Vmm.Unmapped.{unmap_lem}

abbrev machine : Pmm.State
machine = record {
  file = record {
    base = 0x10_0000;
    length = 0x8000;
    kind = 0;
    flags = 0;
    reserved = 0;
    bitmap_base = 16;
    bitmap_length = 1;
    bitmap_file = record { base = 16; length = 1; kind = 0 };
  };
  mem = λ x. 0;
}

abbrev empty_tables : Vmm
empty_tables = record {
  pml4 = 0x2000;
  cr3_phys = 0;
  cr3_virt = 0;
  cr3 = 0;
  flushed = [];
  machine = machine;
}

abbrev only_root : Ptr → ℕ
only_root x = if x == 0x2000 then 4 else 0

machine-IsValid : IsValid machine
machine-IsValid = record {
  bytes = λ x. omega arith;
  counted = omega arith;
  mapped = omega arith;
  based = omega arith;
}

empty_tables-IsTree : IsTree 0x2000 machine only_root
empty_tables-IsTree = record {
  top = refl;
  down = λ t n i lv lt pres. let z = zero_word (t + 8 * i) in ground arith;
  aligned = λ t ne. ground arith;
  ends = λ t ne. ground arith;
  off_bitmap = λ t ne. inr (ground arith);
  unfree = λ k lt free. ground arith;
  valid = machine-IsValid;
  base_aligned = refl;
  pages_apart = inl (omega arith);
}

eight_free : free_count machine ≡ 8
unfolding free_count terracotta_os.Pmm.Count.free_from is_free bit_count terracotta_os.Pmm.byte_at
    terracotta_os.Word.Bytes.test_bit
eight_free = refl

mmap_lem_example : Maps empty_tables 0xffff_9000_1234_5678 0x7654_3210 3
mmap_lem_example =
    mmap_lem empty_tables only_root 0xffff_9000_1234_5678 0x7654_3210 3 empty_tables-IsTree
      (omega (arith, eight_free)) (omega arith)

-- The tables after an address has been mapped.
once : Maps empty_tables 0x40_0000 0x7654_3210 3
once =
    mmap_lem empty_tables only_root 0x40_0000 0x7654_3210 3 empty_tables-IsTree
      (omega (arith, eight_free)) (omega arith)

unmap_lem_example :
    ((walk once.0 0x40_0000 ≡ none) × (unmap once.0 0x40_0000 ≡ once.0))
    ⊎ ((walk (unmap once.0 0x40_0000) 0x40_0000 ≡ some 0)
        × ((unmap once.0 0x40_0000).flushed ≡ 0x40_0000 ∷ (once.0).flushed)
        × IsTree (unmap once.0 0x40_0000).pml4 (unmap once.0 0x40_0000).machine once.7.0)
unmap_lem_example = unmap_lem once.0 once.7.0 0x40_0000 once.7.1

once_free : 3 ≤ free_count (once.0).machine
once_free =
    let (v, run, count) =
      free_count-mmap empty_tables only_root 0x40_0000 0x7654_3210 3 empty_tables-IsTree
        (omega (arith, eight_free)) in
    let both : ◌≡◌ {A = Option Vmm} (some v) (some once.0) = sym run ∙ once.2 in
    let same : v ≡ once.0 = cc both in
    subst (λ w. 3 ≤ free_count w.machine) same (omega (arith, eight_free))

-- The table of the first address, and the next address mapped beside it.
first_table : (t : Ptr) × (find_pt once.0 0x40_0000 ≡ some t)
unfolding walk
first_table = let (t, found, _) = bind-some (find_pt once.0 0x40_0000) _ once.1 once.3 in (t, found)

mmap-walk_example : Keeps once.0 0x40_1000 0x8000 3 0x40_0000 first_table.0
mmap-walk_example =
    mmap-walk once.0 once.7.0 0x40_1000 0x8000 3 0x40_0000 first_table.0 once.7.1 once_free
      first_table.1

-- The address behind it has the same tables.
beside : find_pt once.0 0x40_1000 ≡ some first_table.0
unfolding find_pt
beside = first_table.1

unmap-walk_example : walk (unmap once.0 0x40_0000) 0x40_1000 ≡ walk once.0 0x40_1000
unmap-walk_example =
    unmap-walk once.0 once.7.0 0x40_0000 0x40_1000 first_table.0 first_table.0 once.7.1
      first_table.1 beside (inr (omega arith))
