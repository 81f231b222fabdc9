-- ===== src/Start/Booted.antt =====
-- `kmain` of ASNU/src/init.c from the answers of the boot loader to the two processes.
use terracotta_os.Prelude.Options.{◌>>=◌}
use terracotta_os.Prelude.{
  ℕ, ◌+◌, ◌*◌, ◌≤◌, ◌≡◌, refl, ◌⊎◌, List, ◌∷◌, get_elem?, true, none, some, length,
}
use terracotta_os.Io.{Bus}
use terracotta_os.Memory.{IsBytes}
use terracotta_os.Str.{memcpy}
use terracotta_os.Pmm
use terracotta_os.Pmm.{bitmap_size, pmm_init, bit_count, palloc}
use terracotta_os.Pmm.Init.{IsRegions}
use terracotta_os.Vmm.{Vmm}
use terracotta_os.Pit.{Pit}
use terracotta_os.Sched.{Sched}
use terracotta_os.Boot.{MemmapEntry, usable, start_pmm}
use terracotta_os.Boot.Second.{start_pmm-first_longest}
use terracotta_os.Start.{
  Responses, Addresses, Kernel, can_boot, faults, start_parts, ends_as, kmain,
}

-- What the two regions that the loop picks must be like, at their addresses in the higher half, for
-- the table of the boot loader at `table`.
pub record AreUsable (base length second second_length table : ℕ) : Type 0 where
  pub regions : IsRegions base length second second_length
  pub seven_pages : 7 * 4096 ≤ length
  pub pages_apart :
      (second + bitmap_size length ≤ base) ⊎ (base + bitmap_size length * 8 * 4096 ≤ second)
  pub table_apart : (table + 4096 ≤ base) ⊎ (base + bitmap_size length * 8 * 4096 ≤ table)

module _ (s : Pmm.State) (base length second second_length table : ℕ) (bytes : IsBytes s.mem)
    (u : AreUsable base length second second_length table) where
  abbrev begun : Pmm.State
  begun = pmm_init s base length second second_length

  -- `vmm_init` takes a page, and copies the table into it.
  abbrev mapped : Pmm.State
  mapped = record (palloc begun).1 { mem = memcpy (palloc begun).1.mem (palloc begun).0 table 4096 }

module _ (b : Bus) where
  start_parts-no_second :
      (a : Addresses)
      → (entries : List MemmapEntry) → (offset : ℕ) → (k : Kernel b)
      → start_pmm entries offset k.vmm.machine ≡ none
      → start_parts b a entries offset k ≡ none
  unfolding start_parts
  start_parts-no_second a entries offset k e = rw (e, ◌>>=◌) refl

  kmain-part_missing :
      (a : Addresses)
      → (r : Responses) → (k : Kernel b) → (entries : List MemmapEntry) → (offset : ℕ)
      → can_boot r ≡ true
      → r.memmap ≡ some entries
      → r.hhdm_offset ≡ some offset
      → start_parts b a entries offset k ≡ none
      → kmain b a r k ≡ faults
  unfolding kmain ends_as
  kmain-part_missing a r k entries offset can map higher e =
      rw can (rw (map, ◌>>=◌) (rw (higher, ◌>>=◌) (rw (e, ends_as) refl)))

  -- When the boot loader answers all that `kmain` asks for, with a map whose first entry is usable
  -- and at least as long as every other usable one, `kmain` does not come to wait: it reads outside
  -- the array of entries.
  pub kmain-first_longest :
      (a : Addresses)
      → (r : Responses) → (k : Kernel b) → (first : MemmapEntry) → (rest : List MemmapEntry)
      → (offset : ℕ) → can_boot r ≡ true
      → r.memmap ≡ some (first ∷ rest)
      → r.hhdm_offset ≡ some offset
      → first.kind ≡ usable
      → ((j : ℕ)
          → (e : MemmapEntry) → get_elem? rest j ≡ some e
          → e.kind ≡ usable
          → e.length ≤ first.length)
      → kmain b a r k ≡ faults
  kmain-first_longest a r k first rest offset can map higher u shorter =
      kmain-part_missing a r k (first ∷ rest) offset can map higher (
        start_parts-no_second a (first ∷ rest) offset k
          (start_pmm-first_longest first rest offset k.vmm.machine u shorter))
