-- ===== src/Boot.antt =====
-- The choice of memory regions in `kmain` of ASNU/src/init.c.
pub mod Regions
pub mod Second
mod Tests
use terracotta_os.Prelude.{
  ℕ, zero, suc, ◌+◌, ◌%◌, ◌^◌, List, [], ◌∷◌, Bool, true, false, ◌&&◌, ◌||◌, Option, none, some,
  ltb, ◌==◌, get_elem?, if◌then◌else◌,
}
use terracotta_os.Word.{add64}
use terracotta_os.Pmm.{pmm_init}
use terracotta_os.Pmm

-- A `struct limine_memmap_entry` of the boot protocol.
pub record MemmapEntry : Type 0 where
  pub base : ℕ
  pub length : ℕ
  pub kind : ℕ

-- `LIMINE_MEMMAP_USABLE`
abbrev pub usable : ℕ
usable = 0

-- The locals of the loop. `none` is the index -1.
pub record Survey : Type 0 where
  pub largest_entry : Option ℕ
  pub second_largest_entry : Option ℕ
  pub base_largest_entry : ℕ
  pub base_second_largest_entry : ℕ
  pub total_memory : ℕ
  pub total_usable_memory : ℕ
  pub total_pmm_memory : ℕ

abbrev pub empty_survey : Survey
empty_survey = record {
  largest_entry = none;
  second_largest_entry = none;
  base_largest_entry = 0;
  base_second_largest_entry = 0;
  total_memory = 0;
  total_usable_memory = 0;
  total_pmm_memory = 0;
}

-- `LargestEntry == -1 || memmap_entry->length > entries[LargestEntry]->length`
unfoldable pub beats : List MemmapEntry → Option ℕ → MemmapEntry → Bool
beats entries none e = true
beats entries (some i) e = elim (get_elem? entries i) [
  | none ↦ false
  | some largest ↦ ltb largest.length e.length
]

-- One round of the loop, at index `i`.
unfoldable pub survey_entry : List MemmapEntry → ℕ → MemmapEntry → Survey → Survey
survey_entry entries i e v =
    let picked =
      if beats entries v.largest_entry e && e.kind == usable
      then record v {
        second_largest_entry = v.largest_entry;
        largest_entry = some i;
        total_pmm_memory = e.length;
        base_second_largest_entry = v.base_largest_entry;
        base_largest_entry = e.base;
      }
      else v in
    record picked {
      total_memory = add64 v.total_memory e.length;
      total_usable_memory =
          if e.kind == usable then add64 v.total_usable_memory e.length else v.total_usable_memory;
    }

unfoldable pub survey_loop : List MemmapEntry → ℕ → List MemmapEntry → Survey → Survey
survey_loop entries i [] v = v
survey_loop entries i (e ∷ rest) v = survey_loop entries (i + 1) rest (survey_entry entries i e v)

unfoldable pub survey : List MemmapEntry → Survey
survey entries = survey_loop entries 0 entries empty_survey

-- `entries[LargestEntry]->length` and `entries[SecondLargestEntry]->length`; nothing stands for a read
-- outside the array.
unfoldable pub entry_length : List MemmapEntry → Option ℕ → Option ℕ
entry_length entries none = none
entry_length entries (some i) = elim (get_elem? entries i) [ none ↦ none | some e ↦ some e.length ]

-- From the map of memory and the offset of the higher half to the call of `pmm_init`.
pub start_pmm : List MemmapEntry → ℕ → Pmm.State → Option Pmm.State
start_pmm entries offset s =
    let v = survey entries in
    elim (entry_length entries v.largest_entry) [
      | none ↦ none
      | some length ↦ elim (entry_length entries v.second_largest_entry) [
        | none ↦ none
        | some second_length ↦ some (
            pmm_init s (add64 v.base_largest_entry offset) length
              (add64 v.base_second_largest_entry offset) second_length)
      ]
    ]
