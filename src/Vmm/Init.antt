-- ===== src/Vmm/Init.antt =====
-- `vmm_init` when there is a page for the tables.
use terracotta_os.Prelude.{◌≡◌, ◌≢◌, refl, ==_ne, some}
use terracotta_os.Memory.{null}
use terracotta_os.Io.{pa2va, va2pa}
use terracotta_os.Str.{memcpy}
use terracotta_os.Pmm.{palloc}
use terracotta_os.Vmm.{Vmm, vmm_init}

-- With a page, `vmm_init` copies the table of the boot loader there, and makes it the current one.
pub vmm_init_lem :
    (v : Vmm)
    → (palloc v.machine).0 ≢ null
    → let (p, m) = palloc v.machine in
      vmm_init v
      ≡ some (record v {
        cr3_phys = v.cr3;
        cr3_virt = pa2va v.cr3;
        pml4 = p;
        machine = record m { mem = memcpy m.mem p (pa2va v.cr3) 4096 };
        cr3 = va2pa p;
      })
unfolding vmm_init
vmm_init_lem v ne = rw (==_ne _ 0 ne) refl
