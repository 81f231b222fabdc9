-- ===== src/Boot/Tests.antt =====
-- The memory map at start, with three entries.
use terracotta_os.Prelude.{
  ℕ, zero, suc, ◌≤◌, ◌≡◌, ◌≢◌, ◌⊎◌, List, [], ◌∷◌, none, some, get_elem?, arith,
}
use terracotta_os.Pmm
use terracotta_os.Boot.{MemmapEntry, usable, survey}
use terracotta_os.Boot.Regions.{survey-largest}

-- The manager before `pmm_init`.
abbrev no_manager : Pmm.State
no_manager = record {
  file = record {
    base = 0;
    length = 0;
    kind = 0;
    flags = 0;
    reserved = 0;
    bitmap_base = 0;
    bitmap_length = 0;
    bitmap_file = record { base = 0; length = 0; kind = 0 };
  };
  mem = λ x. 0;
}

abbrev region : ℕ → ℕ → ℕ → MemmapEntry
region base length kind = record { base = base; length = length; kind = kind }

abbrev long : MemmapEntry
long = region 0x10_0000 0x80_0000 usable

abbrev others : List MemmapEntry
others = region 0 0x9000 usable ∷ region 0xf000_0000 0x1000_0000 1 ∷ []

survey-largest_example :
    let entries = long ∷ others in
    ((survey entries).largest_entry ≡ none)
      × ((j : ℕ) (e : MemmapEntry) → get_elem? entries j ≡ some e → e.kind ≢ usable)
    ⊎ ((a : ℕ) × (m : MemmapEntry) × ((survey entries).largest_entry ≡ some a)
        × (get_elem? entries a ≡ some m)
        × (m.kind ≡ usable)
        × (m.base ≡ (survey entries).base_largest_entry)
        × ((j : ℕ) (e : MemmapEntry)
            → get_elem? entries j ≡ some e
            → e.kind ≡ usable
            → e.length ≤ m.length))
survey-largest_example = survey-largest (long ∷ others)

others-shorter :
    (j : ℕ) (e : MemmapEntry)
    → get_elem? others j ≡ some e
    → e.kind ≡ usable
    → e.length ≤ long.length
others-shorter zero e at u = ground arith
others-shorter (suc zero) e at u = ground arith
others-shorter (suc (suc j)) e at u = ground arith
