-- ===== src/Vmm.antt =====
-- ASNU/src/VMM/vmm.c: the four-level page tables.
-- A function that writes through a pointer that `palloc` gave answers nothing if that pointer is `NULL`:
-- the first page is not mapped, and the kernel stops in the page-fault handler.
pub mod Entry
pub mod Tree
pub mod Grow
pub mod Walk
pub mod Map
pub mod Mapped
pub mod Others
pub mod Unmapped
pub mod Cleared
pub mod Init
mod Tests
pub use terracotta_os.Prelude.Options.{◌>>=◌}
use terracotta_os.Prelude.{
  ℕ, ◌+◌, ◌-◌, ◌*◌, ◌/◌, ◌%◌, ◌^◌, bit_or, List, ◌∷◌, Bool, Option, none, some, ◌==◌, if◌then◌else◌,
}
use terracotta_os.Memory.{Ptr, load64, store64}
use terracotta_os.Str.{memset, memcpy}
use terracotta_os.Io.{pa2va, va2pa}
use terracotta_os.Pmm
use terracotta_os.Pmm.{palloc}

-- `PAGE_PRESENT`, `PAGE_RW`
abbrev pub page_present : ℕ
page_present = 1

abbrev pub page_rw : ℕ
page_rw = 2

-- The globals of vmm.c, the register `cr3`, the addresses that `invlpg` has been given, and the memory
-- manager.
pub record Vmm : Type 0 where
  pub pml4 : Ptr
  pub cr3_phys : ℕ
  pub cr3_virt : ℕ
  pub cr3 : ℕ
  pub flushed : List ℕ
  pub machine : Pmm.State

-- The address of entry `i` of a table.
abbrev pub slot : Ptr → ℕ → Ptr
slot table i = table + 8 * i

pub entry : Vmm → Ptr → ℕ → ℕ
entry v table i = load64 v.machine.mem (slot table i)

pub set_entry : Vmm → Ptr → ℕ → ℕ → Vmm
set_entry v table i e =
    let m = v.machine in record v { machine = record m { mem = store64 m.mem (slot table i) e } }

-- `(va >> 39) & 0x1FF` and its fellows
abbrev pub pml4_index : ℕ → ℕ
pml4_index va = va / 2 ^ 39 % 512

abbrev pub pdpt_index : ℕ → ℕ
pdpt_index va = va / 2 ^ 30 % 512

abbrev pub pd_index : ℕ → ℕ
pd_index va = va / 2 ^ 21 % 512

abbrev pub pt_index : ℕ → ℕ
pt_index va = va / 2 ^ 12 % 512

-- `e & PAGE_PRESENT`, and `PA2VAu64(e & ~0xFFF)`
abbrev pub is_present : ℕ → Bool
is_present e = e % 2 == 1

abbrev pub target : ℕ → Ptr
target e = pa2va (e - e % 4096)

pub vmm_init : Vmm → Option Vmm
vmm_init v =
    let (p, m) = palloc v.machine in
    let virt = pa2va v.cr3 in
    if p == 0
    then none
    else some (record v {
      cr3_phys = v.cr3;
      cr3_virt = virt;
      pml4 = p;
      machine = record m { mem = memcpy m.mem p virt 4096 };
      cr3 = va2pa p;
    })

-- The branch of `mmap` for a table that is not there yet: a cleared page, entered as present and
-- writable.
pub add_table : Vmm → Ptr → ℕ → Option (Ptr × Vmm)
add_table v table i =
    let (p, m) = palloc v.machine in
    if p == 0
    then none
    else let v' = record v { machine = record m { mem = memset m.mem p 0 4096 } } in
      some (p, set_entry v' table i (bit_or (bit_or (va2pa p) page_present) page_rw))

-- One of the three like steps of `mmap` from a table to the next one.
pub next_table : Vmm → Ptr → ℕ → Option (Ptr × Vmm)
next_table v table i =
    if is_present (entry v table i) then some (target (entry v table i), v) else add_table v table i

-- The entry that `mmap` writes: `(pa & ~0xFFFUL) | (flags & 0xFFF) | PAGE_PRESENT`.
pub leaf : ℕ → ℕ → ℕ
leaf pa flags = bit_or (bit_or (pa - pa % 4096) (flags % 4096)) page_present

pub mmap : Vmm → (vaddr paddr flags : ℕ) → Option Vmm
mmap v va pa flags = do
  (pdpt, v) ← next_table v v.pml4 (pml4_index va)
  (pd, v) ← next_table v pdpt (pdpt_index va)
  (pt, v) ← next_table v pd (pd_index va)
  some (set_entry (set_entry v pt (pt_index va) 0) pt (pt_index va) (leaf pa flags))

-- A step of `unmap`: the next table if the entry is present.
pub find_table : Vmm → Ptr → ℕ → Option Ptr
find_table v table i =
    if is_present (entry v table i) then some (target (entry v table i)) else none

-- The last table on the way of an address, if the way is there.
pub find_pt : Vmm → ℕ → Option Ptr
find_pt v va = do
  pdpt ← find_table v v.pml4 (pml4_index va)
  pd ← find_table v pdpt (pdpt_index va)
  find_table v pd (pd_index va)

-- `unmap` returns at the first missing table, and else clears the entry and flushes the address.
pub unmap : Vmm → ℕ → Vmm
unmap v va = elim (find_pt v va) [
  | none ↦ v
  | some pt ↦ let v' = set_entry v pt (pt_index va) 0 in record v' { flushed = va ∷ v'.flushed }
]
