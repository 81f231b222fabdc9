-- ===== src/Boot/Second.antt =====
-- Memory maps for which the loop of `kmain` finds two regions, and for which it does not.
use terracotta_os.Prelude.{
  ℕ, suc, ◌+◌, ◌≤◌, ◌≡◌, refl, ◌∙◌, inl, inr, List, [], ◌∷◌, true, false, ◌&&◌, Option, none, some,
  ◌==◌, get_elem?, Option-cases, arith,
}
use terracotta_os.Word.{add64}
use terracotta_os.Pmm
use terracotta_os.Pmm.{pmm_init}
use terracotta_os.Boot.{
  MemmapEntry, usable, Survey, empty_survey, beats, survey_entry, survey_loop, survey, entry_length,
  start_pmm,
}

beats-lead :
    (first e : MemmapEntry) (entries : List MemmapEntry) (o : Option ℕ)
    → o ≡ some 0
    → get_elem? entries 0 ≡ some first
    → (e.kind ≡ usable → e.length ≤ first.length)
    → (beats entries o e && e.kind == usable) ≡ false
unfolding beats
beats-lead first e entries o lead at shorter = rw (lead, beats) (rw at (ground arith))

survey_entry-left :
    (entries : List MemmapEntry) (i : ℕ) (e : MemmapEntry) (v : Survey)
    → (beats entries v.largest_entry e && e.kind == usable) ≡ false
    → ((survey_entry entries i e v).largest_entry ≡ v.largest_entry)
      × ((survey_entry entries i e v).second_largest_entry ≡ v.second_largest_entry)
unfolding survey_entry
survey_entry-left entries i e v lose = (rw lose, rw lose)

survey_entry-first :
    (first : MemmapEntry) (entries : List MemmapEntry)
    → first.kind ≡ usable
    → ((survey_entry entries 0 first empty_survey).largest_entry ≡ some 0)
      × ((survey_entry entries 0 first empty_survey).second_largest_entry ≡ none)
unfolding survey_entry beats
survey_entry-first first entries u =
    let test : (first.kind == usable) ≡ true = ground arith in (rw test, rw test)

start_pmm-no_second :
    (entries : List MemmapEntry) (offset : ℕ) (s : Pmm.State)
    → (survey entries).second_largest_entry ≡ none
    → start_pmm entries offset s ≡ none
unfolding start_pmm entry_length
start_pmm-no_second entries offset s e =
    elim (Option-cases (entry_length entries (survey entries).largest_entry)) [
      | inl out ↦ rw (out, start_pmm)
      | inr (n, inside) ↦ rw (inside, start_pmm) (rw (e, entry_length))
    ]

-- Once the first entry leads, shorter ones leave the second place empty.
lead_kept :
    (first : MemmapEntry) (entries : List MemmapEntry) (i : ℕ) (rest : List MemmapEntry)
    (v : Survey)
    → get_elem? entries 0 ≡ some first
    → ((j : ℕ) (e : MemmapEntry)
        → get_elem? rest j ≡ some e
        → e.kind ≡ usable
        → e.length ≤ first.length)
    → v.largest_entry ≡ some 0
    → v.second_largest_entry ≡ none
    → (survey_loop entries i rest v).second_largest_entry ≡ none
unfolding survey_loop
lead_kept first entries i [] v at shorter largest second = second
lead_kept first entries i (e ∷ rest) v at shorter largest second =
    let lose = beats-lead first e entries v.largest_entry largest at (shorter 0 e refl) in
    let (kept, kept') = survey_entry-left entries i e v lose in
    lead_kept first entries (i + 1) rest (survey_entry entries i e v) at
      (λ j e'. shorter (suc j) e') (kept ∙ largest) (kept' ∙ second)

-- When the first entry of the map is usable and no later usable one is longer, the loop finds no
-- second entry, and `kmain` reads outside the array of entries.
pub start_pmm-first_longest :
    (first : MemmapEntry) (rest : List MemmapEntry) (offset : ℕ) (s : Pmm.State)
    → first.kind ≡ usable
    → ((j : ℕ) (e : MemmapEntry)
        → get_elem? rest j ≡ some e
        → e.kind ≡ usable
        → e.length ≤ first.length)
    → start_pmm (first ∷ rest) offset s ≡ none
unfolding survey survey_loop
start_pmm-first_longest first rest offset s u shorter =
    let (lead, alone) = survey_entry-first first (first ∷ rest) u in
    start_pmm-no_second (first ∷ rest) offset s (
      lead_kept first (first ∷ rest) 1 rest (survey_entry (first ∷ rest) 0 first empty_survey) refl
        shorter lead alone)

-- With a largest and a second largest entry inside the map, the manager is started on the two.
pub start_pmm-some :
    (entries : List MemmapEntry) (offset length second_length : ℕ) (s : Pmm.State)
    → entry_length entries (survey entries).largest_entry ≡ some length
    → entry_length entries (survey entries).second_largest_entry ≡ some second_length
    → start_pmm entries offset s
      ≡ some (
          pmm_init s
            (add64 (survey entries).base_largest_entry offset)
            length
            (add64 (survey entries).base_second_largest_entry offset)
            second_length)
unfolding start_pmm
start_pmm-some entries offset length second_length s e e' =
    rw (e, start_pmm) (rw (e', start_pmm) refl)
