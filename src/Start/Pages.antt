-- ===== src/Start/Pages.antt =====
-- The pages that the start of the kernel takes, one after another.
use terracotta_os.Prelude.{
  ℕ, ◌+◌, ◌*◌, ◌^◌, ◌≤◌, ◌<◌, ◌≡◌, ◌≢◌, ◌∙◌, ◌⊎◌, inl, inr, true, false, ◌==◌, if◌then◌else◌, arith,
}
use terracotta_os.Memory.{Mem, Ptr, null, IsBytes}
use terracotta_os.Pmm.{State, bit_count, is_free, palloc}
use terracotta_os.Pmm.Bitmap.{IsValid, bit_count_lem, is_free-agree}
use terracotta_os.Pmm.Alloc.{palloc_lem, palloc-IsValid}
use terracotta_os.Pmm.Free.{bit_count-file}
use terracotta_os.Pmm.Count.{free_count, free_count-IsFull, free_count-but_one}

-- A valid manager whose bitmap is apart from all the pages that it counts.
pub record IsReady (m : State) : Type 0 where
  pub valid : IsValid m
  pub pages_apart :
      (m.file.bitmap_base + m.file.bitmap_length ≤ m.file.base)
      ⊎ (m.file.base + m.file.bitmap_length * 8 * 4096 ≤ m.file.bitmap_base)

-- From `m` to `m'` page `k`, at `p`, has been taken; its bytes may have been written.
pub record Grants (m : State) (p : Ptr) (m' : State) (k : ℕ) : Type 0 where
  pub is_ready : IsReady m'
  pub file_kept : m'.file ≡ m.file
  pub counted : k < bit_count m
  pub was_free : is_free m k ≡ true
  pub address_is : p ≡ m.file.base + k * 4096
  pub marks : (j : ℕ) → j < bit_count m → is_free m' j ≡ (if k == j then false else is_free m j)

pub palloc-Grants :
    (m : State) → IsReady m → 0 < free_count m → (k : ℕ) × Grants m (palloc m).0 (palloc m).1 k
palloc-Grants m r some = elim (palloc_lem m r.valid) [
  | inl (full, e) ↦ absurd (omega (arith, free_count-IsFull m full))
  | inr (k, t, ne) ↦
      let f = t.file_kept in
      (
        k,
        record {
          is_ready = record { valid = palloc-IsValid m r.valid; pages_apart = rw f r.pages_apart };
          file_kept = f;
          counted = t.lowest.0;
          was_free = t.lowest.1;
          address_is = t.address_is;
          marks = λ j lt. t.marks j;
        },
      )
]

-- A page that is counted lies whole apart from the bitmap, below the last address.
module _ (m : State) (k : ℕ) (p : Ptr) (r : IsReady m) (counted : k < bit_count m)
    (address_is : p ≡ m.file.base + k * 4096) where
  pub page_apart : (p + 4096 ≤ m.file.bitmap_base) ⊎ (m.file.bitmap_base + m.file.bitmap_length ≤ p)
  page_apart = let a = r.pages_apart in let c = bit_count_lem m r.valid in omega arith

  pub page_ends : p + 4096 ≤ 2 ^ 64
  page_ends = let c = bit_count_lem m r.valid in let mapped = r.valid.mapped in omega arith

module _ {m : State} {p : Ptr} {m' : State} {k : ℕ} (g : Grants m p m' k) where
  pub granted-ne : IsReady m → p ≢ null
  granted-ne r = let b = r.valid.based in omega (arith, g.address_is)

  pub granted_used : is_free m' k ≡ false
  granted_used = ground (arith, g.marks k, g.counted)

  pub granted_keeps : (j : ℕ) → j < bit_count m → is_free m j ≡ false → is_free m' j ≡ false
  granted_keeps j lt used = ground (arith, g.marks j)

  pub granted_count : free_count m ≤ free_count m' + 1
  granted_count =
      free_count-but_one m m' k (bit_count-file m m' g.file_kept)
        (λ j lt ne. ground (arith, g.marks j))

  -- Writes that leave the bitmap alone.
  pub granted_written :
      (mem : Mem)
      → IsBytes mem
      → ((x : ℕ)
          → m'.file.bitmap_base ≤ x
          → x < m'.file.bitmap_base + m'.file.bitmap_length
          → mem x ≡ m'.mem x)
      → Grants m p (record m' { mem = mem }) k
  granted_written mem bytes same = record {
    is_ready = record {
      valid = record {
        bytes = bytes;
        counted = g.is_ready.valid.counted;
        mapped = g.is_ready.valid.mapped;
        based = g.is_ready.valid.based;
      };
      pages_apart = g.is_ready.pages_apart;
    };
    file_kept = g.file_kept;
    counted = g.counted;
    was_free = g.was_free;
    address_is = g.address_is;
    marks = λ j lt.
        is_free-agree m' mem j g.is_ready.valid same (rw (bit_count-file m m' g.file_kept) lt)
        ∙ g.marks j lt;
  }

-- The page at `p` has been taken.
pub record Held (m : State) (p : Ptr) : Type 0 where
  pub place : ℕ
  pub counted : place < bit_count m
  pub used : is_free m place ≡ false
  pub address_is : p ≡ m.file.base + place * 4096

pub granted-Held : {m m' : State} {p : Ptr} {k : ℕ} → Grants m p m' k → Held m' p
granted-Held {m} {m'} {k} g = record {
  place = k;
  counted = rw (bit_count-file m m' g.file_kept) g.counted;
  used = granted_used g;
  address_is = rw g.file_kept g.address_is;
}

-- It stays taken when another one is, which is a different page.
pub Held-kept : {m m' : State} {p q : Ptr} {k : ℕ} → Grants m q m' k → Held m p → Held m' p
Held-kept {m} {m'} g h = record {
  place = h.place;
  counted = rw (bit_count-file m m' g.file_kept) h.counted;
  used = granted_keeps g h.place h.counted h.used;
  address_is = rw g.file_kept h.address_is;
}

pub Held-other : {m m' : State} {p q : Ptr} {k : ℕ} → Grants m q m' k → Held m p → p ≢ q
Held-other {m} {k} g h e =
    let same : h.place ≡ k = omega (arith, g.address_is, h.address_is) in
    let free = g.was_free in let used' : is_free m k ≡ false = rw (← same) h.used in cc
