-- ===== src/Boot/Regions.antt =====
-- What the loop over the memory map finds.
use native.Mathlib.Decide.{ℕ_discrete, dec_lt}
use terracotta_os.Prelude.{
  ℕ, suc, ◌+◌, ◌-◌, ◌≤◌, ◌<◌, ◌≡◌, ◌≢◌, refl, ap, sym, ◌∙◌, ◌⊎◌, inl, inr, List, [], ◌∷◌, true,
  false, ◌&&◌, Option, none, some, ltb, ◌==◌, get_elem?, Bool-cases, arith,
}
use terracotta_os.Boot.{
  MemmapEntry, usable, Survey, empty_survey, beats, survey_entry, survey_loop, survey,
}

-- Among the first `i` entries: no usable one has been met, or the one at `a` is the longest of them.
abbrev pub Best : List MemmapEntry → ℕ → Option ℕ → ℕ → Type 0
Best entries i none base =
    (j : ℕ) (e : MemmapEntry) → j < i → get_elem? entries j ≡ some e → e.kind ≢ usable
Best entries i (some a) base =
    (m : MemmapEntry) × (get_elem? entries a ≡ some m)
    × (a < i)
    × (m.kind ≡ usable)
    × (m.base ≡ base)
    × ((j : ℕ) (e : MemmapEntry)
        → j < i
        → get_elem? entries j ≡ some e
        → e.kind ≡ usable
        → e.length ≤ m.length)

some_same : {e e' : MemmapEntry} → some e ≡ some e' → e ≡ e'
some_same p = cc

none-some : {e : MemmapEntry} → none ≡ some e → ⊥
none-some p = cc

-- A round in which the entry is taken.
Best-taken :
    (entries : List MemmapEntry) (i : ℕ) (e : MemmapEntry) (o : Option ℕ) (base : ℕ)
    → get_elem? entries i ≡ some e
    → e.kind ≡ usable
    → beats entries o e ≡ true
    → Best entries i o base
    → Best entries (i + 1) (some i) e.base
unfolding beats
Best-taken entries i e none base at is_usable win b = (
  e,
  at,
  omega arith,
  is_usable,
  refl,
  λ j e' lt at' u. elim (ℕ_discrete j i) [
    | yes same ↦
        let same_entry : e' ≡ e = some_same (sym at' ∙ ap (get_elem? entries) same ∙ at) in
        omega (arith, ap (λ (x : MemmapEntry). x.length) same_entry)
    | no ne ↦ absurd (b j e' (omega arith) at' u)
  ],
)
Best-taken entries i e (some a) base at is_usable win (m, at_a, lt_a, u_a, base_a, longest) = (
  e,
  at,
  omega arith,
  is_usable,
  refl,
  λ j e' lt at' u. elim (ℕ_discrete j i) [
    | yes same ↦
        let same_entry : e' ≡ e = some_same (sym at' ∙ ap (get_elem? entries) same ∙ at) in
        omega (arith, ap (λ (x : MemmapEntry). x.length) same_entry)
    | no ne ↦
        let longer : ltb m.length e.length ≡ true = rw (at_a, beats) at win in
        let bound = longest j e' (omega arith) at' u in ground arith
  ],
)

-- A round in which it is not.
Best-left :
    (entries : List MemmapEntry) (i : ℕ) (e : MemmapEntry) (o : Option ℕ) (base : ℕ)
    → get_elem? entries i ≡ some e
    → (beats entries o e && e.kind == usable) ≡ false
    → Best entries i o base
    → Best entries (i + 1) o base
unfolding beats
Best-left entries i e none base at lose b = λ j e' lt at' u. elim (ℕ_discrete j i) [
  | yes same ↦
      let same_entry : e' ≡ e = some_same (sym at' ∙ ap (get_elem? entries) same ∙ at) in
      let kind = ap (λ (x : MemmapEntry). x.kind) same_entry in ground arith
  | no ne ↦ b j e' (omega arith) at' u
]
Best-left entries i e (some a) base at lose (m, at_a, lt_a, u_a, base_a, longest) = (
  m,
  at_a,
  omega arith,
  u_a,
  base_a,
  λ j e' lt at' u. elim (ℕ_discrete j i) [
    | yes same ↦
        let same_entry : e' ≡ e = some_same (sym at' ∙ ap (get_elem? entries) same ∙ at) in
        let kind = ap (λ (x : MemmapEntry). x.kind) same_entry in
        let len = ap (λ (x : MemmapEntry). x.length) same_entry in
        let shorter : (ltb m.length e.length && e.kind == usable) ≡ false =
          rw (at_a, beats) at lose in
        ground arith
    | no ne ↦ longest j e' (omega arith) at' u
  ],
)

Best-round :
    (entries : List MemmapEntry) (i : ℕ) (e : MemmapEntry) (v : Survey)
    → get_elem? entries i ≡ some e
    → Best entries i v.largest_entry v.base_largest_entry
    → Best entries
        (i + 1)
        (survey_entry entries i e v).largest_entry
        (survey_entry entries i e v).base_largest_entry
unfolding survey_entry
Best-round entries i e v at b =
    elim (Bool-cases (beats entries v.largest_entry e && e.kind == usable)) [
      | inl win ↦ rw win (
          Best-taken entries i e v.largest_entry v.base_largest_entry at (ground arith)
            (ground arith) b)
      | inr lose ↦ rw lose (Best-left entries i e v.largest_entry v.base_largest_entry at lose b)
    ]

Best-survey_loop :
    (entries : List MemmapEntry) (i : ℕ) (rest : List MemmapEntry) (v : Survey)
    → ((j : ℕ) → get_elem? rest j ≡ get_elem? entries (i + j))
    → Best entries i v.largest_entry v.base_largest_entry
    → (n : ℕ) × ((j : ℕ) → get_elem? entries (n + j) ≡ none)
      × Best entries n
          (survey_loop entries i rest v).largest_entry
          (survey_loop entries i rest v).base_largest_entry
unfolding survey_loop
Best-survey_loop entries i [] v tail b = (i, λ j. sym (tail j), b)
Best-survey_loop entries i (e ∷ rest) v tail b =
    let at : get_elem? entries i ≡ some e = ap (get_elem? entries) (omega arith) ∙ sym (tail 0) in
    Best-survey_loop entries (i + 1) rest (survey_entry entries i e v)
      (λ j. tail (suc j) ∙ ap (get_elem? entries) (omega arith)) (Best-round entries i e v at b)

largest_of :
    (entries : List MemmapEntry) (n : ℕ) (o : Option ℕ) (base : ℕ)
    → ((j : ℕ) → get_elem? entries (n + j) ≡ none)
    → Best entries n o base
    → (o ≡ none) × ((j : ℕ) (e : MemmapEntry) → get_elem? entries j ≡ some e → e.kind ≢ usable)
      ⊎ ((a : ℕ) × (m : MemmapEntry) × (o ≡ some a)
          × (get_elem? entries a ≡ some m)
          × (m.kind ≡ usable)
          × (m.base ≡ base)
          × ((j : ℕ) (e : MemmapEntry)
              → get_elem? entries j ≡ some e
              → e.kind ≡ usable
              → e.length ≤ m.length))
largest_of entries n none base past b = inl (
  refl,
  λ j e at. elim (dec_lt j n) [
    | yes h ↦ b j e h at
    | no h ↦ absurd (none-some (sym (past (j - n)) ∙ ap (get_elem? entries) (omega arith) ∙ at))
  ],
)
largest_of entries n (some a) base past (m, at_a, lt_a, u_a, base_a, longest) = inr (
  a,
  m,
  refl,
  at_a,
  u_a,
  base_a,
  λ j e at u. elim (dec_lt j n) [
    | yes h ↦ longest j e h at u
    | no h ↦ absurd (none-some (sym (past (j - n)) ∙ ap (get_elem? entries) (omega arith) ∙ at))
  ],
)

-- The loop of `kmain` finds no usable entry only if the map has none. Otherwise it finds the index and
-- the base of a usable entry that is at least as long as every other usable one.
pub survey-largest :
    (entries : List MemmapEntry)
    → ((survey entries).largest_entry ≡ none)
        × ((j : ℕ) (e : MemmapEntry) → get_elem? entries j ≡ some e → e.kind ≢ usable)
      ⊎ ((a : ℕ) × (m : MemmapEntry) × ((survey entries).largest_entry ≡ some a)
          × (get_elem? entries a ≡ some m)
          × (m.kind ≡ usable)
          × (m.base ≡ (survey entries).base_largest_entry)
          × ((j : ℕ) (e : MemmapEntry)
              → get_elem? entries j ≡ some e
              → e.kind ≡ usable
              → e.length ≤ m.length))
unfolding survey
survey-largest entries =
    let (n, past, b) =
      Best-survey_loop entries 0 entries empty_survey (λ j. ap (get_elem? entries) (omega arith))
        (λ j e lt. absurd (omega arith)) in
    largest_of entries n _ _ past b
