-- ===== src/Memory.antt =====
-- The memory that the kernel's pointers read and write: one byte at each address. A pointer is its
-- address. `p[i]` adds the index without a wrap, since no C object spans the end of the addresses.
use terracotta_os.Prelude.{
  ℕ, ◌+◌, ◌*◌, ◌/◌, ◌%◌, ◌^◌, ◌<◌, ◌≤◌, ◌≡◌, Bool, true, ◌&&◌, ltb, leb, ◌==◌, arith, if◌then◌else◌,
  ◌-◌, ◌⊎◌,
}

abbrev pub Mem : Type 0
Mem = ℕ → ℕ

abbrev pub Ptr : Type 0
Ptr = ℕ

abbrev pub null : Ptr
null = 0

-- `*(uint8_t*)a = v`
unfoldable pub store : Mem → Ptr → ℕ → Mem
store m a v x = if x == a then v % 256 else m x

-- Every address holds a byte.
abbrev pub IsBytes : Mem → Type 0
IsBytes m = (x : ℕ) → m x < 256

-- `x` lies in the `n` bytes from `a` on.
abbrev pub within : Ptr → ℕ → Ptr → Bool
within a n x = leb a x && ltb x (a + n)

pub store-IsBytes : {m : Mem} (a v : ℕ) → IsBytes m → IsBytes (store m a v)
unfolding store
store-IsBytes a v h x = ground (arith, h x)

-- A little-endian 64-bit word.
unfoldable pub load64 : Mem → Ptr → ℕ
load64 m a =
    m a
    + 256 * m (a + 1)
    + 256 ^ 2 * m (a + 2)
    + 256 ^ 3 * m (a + 3)
    + 256 ^ 4 * m (a + 4)
    + 256 ^ 5 * m (a + 5)
    + 256 ^ 6 * m (a + 6)
    + 256 ^ 7 * m (a + 7)

unfoldable pub store64 : Mem → Ptr → ℕ → Mem
unfolding store
store64 m a v x = if within a 8 x then v / 256 ^ (x - a) % 256 else m x

store64-inside : (m : Mem) (a v k : ℕ) → k < 8 → store64 m a v (a + k) ≡ v / 256 ^ k % 256
unfolding store64
store64-inside m a v k h =
    let e : a + k - a ≡ k = omega arith in
    let i : within a 8 (a + k) ≡ true = ground arith in rw (i, e)

store64-first : (m : Mem) (a v : ℕ) → store64 m a v a ≡ v % 256
unfolding store64
store64-first m a v =
    let e : a - a ≡ 0 = omega arith in
    let i : within a 8 a ≡ true = ground arith in rw (i, e) (omega arith)

pub store64-outside : (m : Mem) (a v x : ℕ) → (x < a) ⊎ (a + 8 ≤ x) → store64 m a v x ≡ m x
unfolding store64
store64-outside m a v x h = ground arith

pub store64-IsBytes : {m : Mem} (a v : ℕ) → IsBytes m → IsBytes (store64 m a v)
unfolding store64
store64-IsBytes a v h x = ground (arith, h x)

bytes_sum :
    (v : ℕ)
    → v < 2 ^ 64
    → v % 256
        + 256 * (v / 256 ^ 1 % 256)
        + 256 ^ 2 * (v / 256 ^ 2 % 256)
        + 256 ^ 3 * (v / 256 ^ 3 % 256)
        + 256 ^ 4 * (v / 256 ^ 4 % 256)
        + 256 ^ 5 * (v / 256 ^ 5 % 256)
        + 256 ^ 6 * (v / 256 ^ 6 % 256)
        + 256 ^ 7 * (v / 256 ^ 7 % 256)
      ≡ v
bytes_sum v h = omega arith

pub load64-store64 : (m : Mem) (a v : ℕ) → v < 2 ^ 64 → load64 (store64 m a v) a ≡ v
unfolding load64
load64-store64 m a v h =
    rw
      (
        store64-first m a v,
        store64-inside m a v 1 (omega arith),
        store64-inside m a v 2 (omega arith),
        store64-inside m a v 3 (omega arith),
        store64-inside m a v 4 (omega arith),
        store64-inside m a v 5 (omega arith),
        store64-inside m a v 6 (omega arith),
        store64-inside m a v 7 (omega arith),
      )
      (bytes_sum v h)

pub load64-store64_ne :
    (m : Mem) (a b v : ℕ) → (a + 8 ≤ b) ⊎ (b + 8 ≤ a) → load64 (store64 m a v) b ≡ load64 m b
unfolding load64
load64-store64_ne m a b v h = rw (
  store64-outside m a v b (omega arith),
  store64-outside m a v (b + 1) (omega arith),
  store64-outside m a v (b + 2) (omega arith),
  store64-outside m a v (b + 3) (omega arith),
  store64-outside m a v (b + 4) (omega arith),
  store64-outside m a v (b + 5) (omega arith),
  store64-outside m a v (b + 6) (omega arith),
  store64-outside m a v (b + 7) (omega arith),
)
