-- ===== src/Vmm/Entry.antt =====
-- The entries of the tables: what `mmap` writes into them and what is read out again.
use terracotta_os.Prelude.{
  ℕ, ◌+◌, ◌-◌, ◌*◌, ◌/◌, ◌%◌, ◌^◌, ◌<◌, ◌≤◌, ◌≡◌, ◌∙◌, ap, ◌⊎◌, bit_or, true, false, arith,
}
use terracotta_os.Word.Bits.{bit_or_step, bit_or-add, bit_or-zero}
use terracotta_os.Memory.{Mem, Ptr, load64, within}
use terracotta_os.Str.{memset}
use terracotta_os.Str.Block.{memset_lem}
use terracotta_os.Io.{pa2va, va2pa, pa2va-va2pa}
use terracotta_os.Vmm.{is_present, target, page_present, page_rw, leaf}

-- The entry for a table at `p`, the flags added up.
table_bits : (a : ℕ) → a % 4096 ≡ 0 → bit_or (bit_or a page_present) page_rw ≡ a + 3
table_bits a h =
    let a' : a ≡ a / 2 * 2 ^ 1 = omega arith in
    let first : bit_or a 1 ≡ a + 1 =
      ap (λ x. bit_or x 1) a' ∙ bit_or-add 1 (a / 2) 1 (omega arith) ∙ omega arith in
    let h1 : (a + 1) / 2 ≡ a / 4 * 2 ^ 1 = omega arith in
    let half : bit_or ((a + 1) / 2) 1 ≡ a / 2 + 1 =
      ap (λ x. bit_or x 1) h1 ∙ bit_or-add 1 (a / 4) 1 (omega arith) ∙ omega arith in
    ap (λ x. bit_or x 2) first ∙ omega (arith, bit_or_step (a + 1) 2, half)

va2pa-aligned : (p : ℕ) → p % 4096 ≡ 0 → va2pa p % 4096 ≡ 0
unfolding va2pa
va2pa-aligned p h = omega arith

va2pa-lt : (p : ℕ) → va2pa p < 2 ^ 64
unfolding va2pa
va2pa-lt p = omega arith

abbrev pub table_entry : Ptr → ℕ
table_entry p = bit_or (bit_or (va2pa p) page_present) page_rw

-- The entry that `mmap` writes for a page-aligned table is present and leads back to the table.
pub table_entry_lem :
    (p : Ptr)
    → p % 4096 ≡ 0
    → p < 2 ^ 64
    → (is_present (table_entry p) ≡ true) × (target (table_entry p) ≡ p) × (table_entry p < 2 ^ 64)
table_entry_lem p h lt =
    let a = va2pa-aligned p h in
    let small = va2pa-lt p in
    let e = table_bits (va2pa p) a in
    let low : table_entry p % 2 ≡ 1 = omega arith in
    let cut : table_entry p - table_entry p % 4096 ≡ va2pa p = omega arith in
    (ground arith, ap pa2va cut ∙ (pa2va-va2pa p lt).0, omega arith)

or_one : (x : ℕ) → bit_or x 1 ≡ x / 2 * 2 + 1
or_one x = omega (arith, bit_or_step x 1, bit_or-zero (x / 2))

leaf_sum : (pa flags : ℕ) → leaf pa flags ≡ pa / 4096 * 4096 + (flags % 4096 / 2 * 2 + 1)
unfolding leaf
leaf_sum pa flags =
    let cut : pa - pa % 4096 ≡ pa / 4096 * 2 ^ 12 = omega arith in
    let joined : bit_or (pa - pa % 4096) (flags % 4096) ≡ pa / 4096 * 2 ^ 12 + flags % 4096 =
      ap (λ x. bit_or x (flags % 4096)) cut
      ∙ bit_or-add 12 (pa / 4096) (flags % 4096) (omega arith) in
    ap (λ x. bit_or x 1) joined ∙ or_one _ ∙ omega arith

-- The entry of a page is present, has the frame of the physical address, and the given flags but for
-- the present bit, which is set.
pub leaf_lem :
    (pa flags : ℕ)
    → pa < 2 ^ 64
    → (is_present (leaf pa flags) ≡ true)
      × (leaf pa flags / 4096 ≡ pa / 4096)
      × (leaf pa flags % 4096 / 2 ≡ flags % 4096 / 2)
      × (leaf pa flags < 2 ^ 64)
leaf_lem pa flags h =
    let e = leaf_sum pa flags in
    let odd : leaf pa flags % 2 ≡ 1 = omega arith in
    (ground arith, omega arith, omega arith, omega arith)

-- A word is what its eight bytes are.
pub load64-agree :
    (m m' : Mem) (a : ℕ) → ((x : ℕ) → a ≤ x → x < a + 8 → m x ≡ m' x) → load64 m a ≡ load64 m' a
unfolding load64
load64-agree m m' a h = omega (
  arith,
  h a (omega arith) (omega arith),
  h (a + 1) (omega arith) (omega arith),
  h (a + 2) (omega arith) (omega arith),
  h (a + 3) (omega arith) (omega arith),
  h (a + 4) (omega arith) (omega arith),
  h (a + 5) (omega arith) (omega arith),
  h (a + 6) (omega arith) (omega arith),
  h (a + 7) (omega arith) (omega arith),
)

pub zero_word : (a : ℕ) → load64 (λ x. 0) a ≡ 0
unfolding load64
zero_word a = omega arith

pub load64-memset :
    (m : Mem) (p a : ℕ) → (a + 8 ≤ p) ⊎ (p + 4096 ≤ a) → load64 (memset m p 0 4096) a ≡ load64 m a
load64-memset m p a out = load64-agree _ _ a (λ x lo hi.
    let off : within p 4096 x ≡ false = ground arith in memset_lem m p 0 4096 x ∙ rw off)

pub load64-cleared : (m : Mem) (p i : ℕ) → i < 512 → load64 (memset m p 0 4096) (p + 8 * i) ≡ 0
load64-cleared m p i lt =
    load64-agree _ (λ x. 0) (p + 8 * i)
      (λ x lo hi.
        let inside : within p 4096 x ≡ true = ground arith in memset_lem m p 0 4096 x ∙ rw inside)
    ∙ zero_word (p + 8 * i)
