-- ===== src/Pmm.antt =====
-- ASNU/src/PMM/pmm.c: the physical memory manager, a bitmap of 4 KiB pages in the kernel's memory.
-- The state is the manager's file structure and the memory that holds the bitmap. Log lines are left
-- out, and so are the parameters of `pmm_init` that are only logged.
pub mod Bitmap
pub mod Alloc
pub mod Free
pub mod Init
pub mod Overrun
pub mod Count
pub mod Trace
mod Tests
use terracotta_os.Prelude.{
  ℕ, zero, suc, ◌+◌, ◌-◌, ◌*◌, ◌/◌, ◌%◌, ◌^◌, Bool, true, false, not, ◌||◌, ltb, leb, ◌==◌,
  if◌then◌else◌,
}
use terracotta_os.Word.{u64_mod, add64, mul64}
use terracotta_os.Word.Bytes.{test_bit, set_bit, clear_bit}
use terracotta_os.Memory.{Mem, Ptr, null, store}
use terracotta_os.Str.{memset}

pub record BitmapFile : Type 0 where
  pub base : ℕ
  pub length : ℕ
  pub kind : ℕ

-- `kind` is the field `type`.
pub record PmmFile : Type 0 where
  pub base : ℕ
  pub length : ℕ
  pub kind : ℕ
  pub flags : ℕ
  pub reserved : ℕ
  pub bitmap_base : ℕ
  pub bitmap_length : ℕ
  pub bitmap_file : BitmapFile

-- `*pmm_file` and the memory
pub record State : Type 0 where
  pub file : PmmFile
  pub mem : Mem

-- `((largest_length / 4096) + 7) / 8`
unfoldable pub bitmap_size : ℕ → ℕ
bitmap_size length = (length / 4096 + 7) / 8

pub pmm_init :
    State → (largest_base largest_length second_largest_base second_largest_length : ℕ) → State
pmm_init s largest_base largest_length second_base second_length = record {
  file = record {
    base = largest_base;
    length = largest_length;
    kind = 0;
    flags = 0;
    reserved = 0;
    bitmap_base = second_base;
    bitmap_length = bitmap_size largest_length;
    bitmap_file = record { base = second_base; length = bitmap_size largest_length; kind = 0 };
  };
  mem =
      memset
        (memset (memset s.mem second_base 0 (bitmap_size largest_length)) second_base 0
          second_length)
        second_base 0 (bitmap_size largest_length);
}

-- `pmm_file->bitmap_length * 8`
unfoldable pub bit_count : State → ℕ
bit_count s = mul64 s.file.bitmap_length 8

-- the byte of the bitmap that holds bit `i`
unfoldable pub byte_at : State → ℕ → Ptr
byte_at s i = s.file.bitmap_base + i / 8

-- `(bm[i / 8] & (uint8_t)(1u << (i % 8))) == 0`
unfoldable pub is_free : State → ℕ → Bool
is_free s i = not (test_bit (s.mem (byte_at s i)) (i % 8))

-- `bm[i / 8] |= (uint8_t)(1u << (i % 8))`
pub take : State → ℕ → State
unfolding byte_at
take s i = record s { mem = store s.mem (byte_at s i) (set_bit (s.mem (byte_at s i)) (i % 8)) }

pub bitmap_set_bit : State → ℕ → State
unfolding take bit_count
bitmap_set_bit s index = if leb (bit_count s) index then s else take s index

pub bitmap_clear_bit : State → ℕ → State
unfolding byte_at bit_count
bitmap_clear_bit s index = if leb (bit_count s) index then s else record s {
  mem = store s.mem (byte_at s index) (clear_bit (s.mem (byte_at s index)) (index % 8));
}

-- `(void*)(pmm_file->base + (i * 4096))`
pub page : State → ℕ → Ptr
page s i = add64 s.file.base (mul64 i 4096)

-- The loop of `kalloc` from `i` on, with `left` rounds to go.
pub kalloc_loop : State → ℕ → ℕ → Ptr × State
kalloc_loop s i zero = (null, s)
kalloc_loop s i (suc left) =
    let rest = kalloc_loop s (i + 1) left in if is_free s i then (page s i, take s i) else rest

-- `pages_needed` is computed and not used.
pub kalloc : State → ℕ → Ptr × State
unfolding kalloc_loop bit_count
kalloc s size = if size == 0 then (null, s) else kalloc_loop s 0 (bit_count s)

abbrev pub uint64_max : ℕ
uint64_max = u64_mod - 1

-- The loop of `palloc`: the index that it leaves, and the state.
pub palloc_loop : State → ℕ → ℕ → ℕ × State
palloc_loop s i zero = (uint64_max, s)
palloc_loop s i (suc left) =
    let rest = palloc_loop s (i + 1) left in if is_free s i then (i, take s i) else rest

pub palloc : State → Ptr × State
unfolding palloc_loop bit_count page
palloc s =
    let (index, s') = palloc_loop s 0 (bit_count s) in
    if index == uint64_max then (null, s') else (page s' index, s')

pub kfree : State → Ptr → State
unfolding bitmap_clear_bit
kfree s p =
    if p == 0
    then s
    else if ltb p s.file.base || leb (add64 s.file.base s.file.length) p
    then s
    else let s' = bitmap_clear_bit s ((p - s.file.base) / 4096) in
      record s' { mem = memset s'.mem p 0 4096 }
