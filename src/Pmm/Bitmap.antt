-- ===== src/Pmm/Bitmap.antt =====
-- The bitmap of `Pmm` as a set of page numbers: what each update does to every bit.
use terracotta_os.Prelude.{
  ℕ, ◌+◌, ◌*◌, ◌/◌, ◌%◌, ◌^◌, ◌≤◌, ◌<◌, ◌≡◌, ap, not, true, false, ◌&&◌, ltb, ◌==◌, if◌then◌else◌,
  arith,
}
use terracotta_os.Word.Bytes.{
  test_bit, test_bit-set_bit, test_bit-clear_bit, set_bit-lt, clear_bit-lt,
}
use terracotta_os.Memory.{Mem, IsBytes, store, store-IsBytes}
use terracotta_os.Pmm.{State, bit_count, byte_at, is_free, take, bitmap_clear_bit, bitmap_set_bit}

-- The bitmap's bits can be counted, and no address of a page wraps.
pub record IsValid (s : State) : Type 0 where
  pub bytes : IsBytes s.mem
  pub counted : s.file.bitmap_length * 8 < 2 ^ 64
  pub mapped : s.file.base + s.file.bitmap_length * 8 * 4096 ≤ 2 ^ 64
  pub based : 0 < s.file.base

-- Two bits have the same byte and the same place in it only if they are one.
pub same_bit : (i j : ℕ) → i / 8 ≡ j / 8 → i % 8 ≡ j % 8 → i ≡ j
same_bit i j p q = omega arith

-- Taking a page marks it used and leaves the mark of every other page.
pub is_free-take :
    (s : State) (i j : ℕ)
    → IsBytes s.mem
    → is_free (take s i) j ≡ (if i == j then false else is_free s j)
unfolding is_free take byte_at store
is_free-take s i j b = ground (
  arith,
  b (byte_at s i),
  set_bit-lt (s.mem (byte_at s i)) (i % 8),
  test_bit-set_bit (s.mem (byte_at s i)) (i % 8) (j % 8),
)

pub is_free-bitmap_clear_bit :
    (s : State) (i j : ℕ)
    → IsBytes s.mem
    → i < bit_count s
    → is_free (bitmap_clear_bit s i) j ≡ (if i == j then true else is_free s j)
unfolding is_free bitmap_clear_bit byte_at store
is_free-bitmap_clear_bit s i j b h = ground (
  arith,
  b (byte_at s i),
  clear_bit-lt (s.mem (byte_at s i)) (i % 8),
  test_bit-clear_bit (s.mem (byte_at s i)) (i % 8) (j % 8),
)

-- Past the end of the bitmap the setter does nothing; inside it marks one page used.
pub is_free-bitmap_set_bit :
    (s : State) (i j : ℕ)
    → IsBytes s.mem
    → is_free (bitmap_set_bit s i) j
      ≡ (if ltb i (bit_count s) && (i == j) then false else is_free s j)
unfolding bitmap_set_bit
is_free-bitmap_set_bit s i j b = ground (arith, is_free-take s i j b)

pub take-IsValid : (s : State) (i : ℕ) → IsValid s → IsValid (take s i)
unfolding take
take-IsValid s i v = record {
  bytes = store-IsBytes _ _ v.bytes;
  counted = v.counted;
  mapped = v.mapped;
  based = v.based;
}

pub bit_count_lem : (s : State) → IsValid s → bit_count s ≡ s.file.bitmap_length * 8
unfolding bit_count
bit_count_lem s v = let c = v.counted in omega arith

-- The bits of the bitmap stand in its bytes.
pub byte_at_lem :
    (s : State) (k : ℕ)
    → IsValid s
    → k < bit_count s
    → (s.file.bitmap_base ≤ byte_at s k) × (byte_at s k < s.file.bitmap_base + s.file.bitmap_length)
unfolding byte_at
byte_at_lem s k v lt = let c = bit_count_lem s v in (omega arith, omega arith)

-- Memory outside the bitmap does not matter to it.
pub is_free-agree :
    (s : State) (m : Mem) (k : ℕ)
    → IsValid s
    → ((x : ℕ)
        → s.file.bitmap_base ≤ x
        → x < s.file.bitmap_base + s.file.bitmap_length
        → m x ≡ s.mem x)
    → k < bit_count s
    → is_free (record s { mem = m }) k ≡ is_free s k
unfolding is_free byte_at
is_free-agree s m k v same lt =
    let (lo, hi) = byte_at_lem s k v lt in
    ap (λ b. not (test_bit b (k % 8))) (same (s.file.bitmap_base + k / 8) lo hi)
