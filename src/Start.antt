-- ===== src/Start.antt =====
-- ASNU/src/init.c: the order in which `kmain` starts the parts of the kernel, and `test_sched`.
-- The terminal and the log are left out. Where the kernel would write through `NULL` or read outside
-- the array of entries there is no state: the first page is not mapped, and the kernel stops.
pub mod Pages
pub mod Created
pub mod Pair
pub mod Processes
pub mod Turns
pub mod Parts
pub mod Booted
pub mod Resumed
mod Tests
use terracotta_os.Prelude.Options.{◌>>=◌}
use terracotta_os.Prelude.{
  ℕ, ◌+◌, Bool, true, false, not, ◌&&◌, ◌||◌, List, [], ◌∷◌, Option, none, some, ltb, ◌==◌,
  if◌then◌else◌, length,
}
use terracotta_os.Io.{Bus}
use terracotta_os.Memory.{Ptr}
use terracotta_os.Pmm.{palloc}
use terracotta_os.Vmm.{Vmm, vmm_init}
use terracotta_os.Gdt.{GdtDescriptor, gdt_init}
use terracotta_os.Pit.{Pit, pit_init}
use terracotta_os.Idt.{Table, idt_init}
use terracotta_os.Sched.{Sched, create_proc, register_proc, scheduler_init}
use terracotta_os.Boot.{MemmapEntry, start_pmm}

-- `test_sched`; `proc0` and `proc1` are the addresses of the two functions.
pub test_sched : (proc0 proc1 : ℕ) → Sched → Option Sched
test_sched proc0 proc1 s =
    let (stack0_base, m) = palloc s.machine in
    let (heap0_base, m) = palloc m in
    let (stack1_base, m) = palloc m in
    let (heap1_base, m) = palloc m in
    let (proc0_ptr, s) = create_proc (record s { machine = m }) proc0 0 stack0_base 4096 in
    let (proc1_ptr, s) = create_proc s proc1 0 stack1_base 4096 in
    if (stack0_base == 0 || stack1_base == 0) || (proc0_ptr == 0 || proc1_ptr == 0)
    then none
    else some (register_proc (register_proc s proc0_ptr) proc1_ptr)

-- What the boot loader answers: whether it supports the revision, the number of framebuffers, the map
-- of memory, and the offset of the higher half. `none` is a response that is `NULL`.
pub record Responses : Type 0 where
  pub base_revision_supported : Bool
  pub framebuffer_count : Option ℕ
  pub memmap : Option (List MemmapEntry)
  pub hhdm_offset : Option ℕ

-- The addresses of what `kmain` and the functions that it calls refer to.
pub record Addresses : Type 0 where
  pub gdt : ℕ
  pub isr_stub_table : ℕ → ℕ
  pub pit_isr : ℕ
  pub keyboard_isr : ℕ
  pub proc0 : ℕ
  pub proc1 : ℕ

-- The parts that `kmain` starts. The memory manager is that of `vmm`, and goes to `sched` with it.
pub record Kernel (b : Bus) : Type 0 where
  pub vmm : Vmm
  pub gdtr : GdtDescriptor
  pub pit : Pit
  pub idt : Table × (ℕ → Bool)
  pub sched : Sched
  pub devices : b.Devices

-- `none` is a `NULL`, and for a count less than one.
pub has_some : Option ℕ → Bool
has_some none = false
has_some (some n) = not (n == 0)

-- The four tests at the start of `kmain`, each of which ends in `hcf`.
pub can_boot : Responses → Bool
can_boot r =
    r.base_revision_supported
    && (has_some r.framebuffer_count
        && (has_some (r.memmap >>= λ entries. some (length entries)) && has_some r.hhdm_offset))

-- How `kmain` ends: in one of the four `hcf`, in a fault, or in the last `hcf`, where it waits for
-- interrupts.
pub data BootEnd (b : Bus) : Type 0 where
  refuses : BootEnd b
  faults : BootEnd b
  waits : Kernel b → BootEnd b

module _ (b : Bus) where
  -- From the map of memory on.
  pub start_parts : Addresses → List MemmapEntry → ℕ → Kernel b → Option (Kernel b)
  start_parts a entries offset k = do
    m ← start_pmm entries offset k.vmm.machine
    v ← vmm_init (record k.vmm { machine = m })
    (pit, d) ← pit_init b 100 k.pit k.devices
    let (idt, d) = idt_init b a.isr_stub_table a.pit_isr a.keyboard_isr (k.idt, d)
    s ← test_sched a.proc0 a.proc1 (scheduler_init (record k.sched { machine = v.machine }))
    some (record {
      vmm = record v { machine = s.machine };
      gdtr = gdt_init a.gdt;
      pit = pit;
      idt = idt;
      sched = s;
      devices = d;
    })

  pub ends_as : Option (Kernel b) → BootEnd b
  ends_as none = faults
  ends_as (some k) = waits k

  pub kmain : Addresses → Responses → Kernel b → BootEnd b
  kmain a r k =
      if can_boot r
      then ends_as (do entries ← r.memmap; offset ← r.hhdm_offset; start_parts a entries offset k)
      else refuses
