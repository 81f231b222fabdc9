-- ===== src/Str/Block.antt =====
-- What the block functions leave in memory, address by address.
use native.Mathlib.Decide.{ℕ_discrete}
use terracotta_os.Prelude.{
  ℕ, zero, suc, ◌+◌, ◌-◌, ◌%◌, ◌≤◌, ◌<◌, ◌≡◌, refl, ◌⊎◌, inl, inr, ltb, ◌≢◌, ==_iff, ==_ne,
  if◌then◌else◌, Bool-cases, arith,
}
use terracotta_os.Prelude.Int.{pos, negsuc}
use terracotta_os.Memory.{Mem, Ptr, store, within, IsBytes, store-IsBytes}
use terracotta_os.Str.{
  memset_loop, memset, copy_up, copy_down, memcpy, memmove, memcmp_loop, memcmp,
}

memset_loop_lem :
    (m : Mem) (p c i left x : ℕ)
    → memset_loop m p c i left x ≡ (if within (p + i) left x then c % 256 else m x)
unfolding memset_loop store
memset_loop_lem m p c i zero x = ground arith
memset_loop_lem m p c i (suc left) x =
    ground (arith, memset_loop_lem (store m (p + i) c) p c (i + 1) left x)

pub memset_lem :
    (m : Mem) (s c n x : ℕ) → memset m s c n x ≡ (if within s n x then c % 256 else m x)
unfolding memset
memset_lem m s c n x = ground (arith, memset_loop_lem m s c 0 n x)

pub memset-IsBytes : (m : Mem) (s c n : ℕ) → IsBytes m → IsBytes (memset m s c n)
memset-IsBytes m s c n h x = ground (arith, memset_lem m s c n x, h x)

-- Copying upwards is right unless the destination begins inside the source.
copy_up_lem :
    (m : Mem) (dest src i left x : ℕ)
    → IsBytes m
    → (dest ≤ src) ⊎ (src + i + left ≤ dest + i)
    → copy_up m dest src i left x ≡ (if within (dest + i) left x then m (src + (x - dest)) else m x)
unfolding copy_up store
copy_up_lem m dest src i zero x b h = ground arith
copy_up_lem m dest src i (suc left) x b h = ground (
  arith,
  b (src + i),
  copy_up_lem (store m (dest + i) (m (src + i))) dest src (i + 1) left x
      (store-IsBytes (dest + i) (m (src + i)) b) (omega arith),
)

copy_down_lem :
    (m : Mem) (dest src i x : ℕ)
    → IsBytes m
    → src ≤ dest
    → copy_down m dest src i x ≡ (if within dest i x then m (src + (x - dest)) else m x)
unfolding copy_down store
copy_down_lem m dest src zero x b h = ground arith
copy_down_lem m dest src (suc i) x b h = ground (
  arith,
  b (src + i),
  copy_down_lem (store m (dest + i) (m (src + i))) dest src i x
      (store-IsBytes (dest + i) (m (src + i)) b) h,
)

-- `memcpy` of blocks that do not overlap, which `restrict` demands, gives each byte of the
-- destination the byte of the source, and changes no other byte.
pub memcpy_lem :
    (m : Mem) (dest src n x : ℕ)
    → IsBytes m
    → (dest + n ≤ src) ⊎ (src + n ≤ dest)
    → memcpy m dest src n x ≡ (if within dest n x then m (src + (x - dest)) else m x)
unfolding memcpy
memcpy_lem m dest src n x b h = ground (arith, copy_up_lem m dest src 0 n x b (omega arith))

-- On a memory of bytes `memmove` copies the block as it was, wherever the two blocks lie: each
-- byte of the destination is the byte that the source held before the call, and no other byte
-- changes.
pub memmove_lem :
    (m : Mem) (dest src n x : ℕ)
    → IsBytes m
    → memmove m dest src n x ≡ (if within dest n x then m (src + (x - dest)) else m x)
unfolding memmove
memmove_lem m dest src n x b = elim (Bool-cases (ltb dest src)) [
  | inl below ↦ rw below (ground (arith, copy_up_lem m dest src 0 n x b (inl (ground arith))))
  | inr above ↦ rw above (elim (Bool-cases (ltb src dest)) [
    | inl over ↦ rw over (copy_down_lem m dest src n x b (ground arith))
    | inr same ↦ rw same (let e : src ≡ dest = ground arith in rw e (ground (arith)))
  ])
]

-- The blocks agree below offset `k`.
abbrev pub Agree : Mem → Ptr → Ptr → ℕ → Type 0
Agree m p1 p2 k = (j : ℕ) → j < k → m (p1 + j) ≡ m (p2 + j)

memcmp_loop_eq :
    (m : Mem) (p1 p2 i left : ℕ) → Agree m p1 p2 (i + left) → memcmp_loop m p1 p2 i left ≡ pos 0
unfolding memcmp_loop
memcmp_loop_eq m p1 p2 i zero h = refl
memcmp_loop_eq m p1 p2 i (suc left) h =
    ground (arith, h i, memcmp_loop_eq m p1 p2 (i + 1) left (λ j lt. h j (omega arith)))

-- The loop stops at the first difference, if there is one ahead.
memcmp_loop_ne :
    (m : Mem) (p1 p2 i left k : ℕ)
    → i ≤ k
    → k < i + left
    → Agree m p1 p2 k
    → m (p1 + k) ≢ m (p2 + k)
    → memcmp_loop m p1 p2 i left ≡ (if ltb (m (p1 + k)) (m (p2 + k)) then negsuc 0 else pos 1)
unfolding memcmp_loop
memcmp_loop_ne m p1 p2 i zero k lo hi h ne = absurd (omega arith)
memcmp_loop_ne m p1 p2 i (suc left) k lo hi h ne = elim (ℕ_discrete i k) [
  | yes e ↦ rw e (rw (==_ne _ _ ne, memcmp_loop))
  | no d ↦
      rw ((==_iff _ _).1 (h i (omega arith)), memcmp_loop)
        (memcmp_loop_ne m p1 p2 (i + 1) left k (omega arith) (omega arith) h ne)
]

-- `memcmp` is 0 on equal blocks. Otherwise the first offset at which they differ decides: -1 if the
-- first block has the smaller byte there, 1 if the second has.
pub memcmp_lem :
    (m : Mem) (s1 s2 n : ℕ)
    → (Agree m s1 s2 n → memcmp m s1 s2 n ≡ pos 0)
      × ((k : ℕ)
          → k < n
          → Agree m s1 s2 k
          → m (s1 + k) ≢ m (s2 + k)
          → memcmp m s1 s2 n ≡ (if ltb (m (s1 + k)) (m (s2 + k)) then negsuc 0 else pos 1))
unfolding memcmp
memcmp_lem m s1 s2 n = (
  λ h. memcmp_loop_eq m s1 s2 0 n (λ j lt. h j (omega arith)),
  λ k lt h ne. memcmp_loop_ne m s1 s2 0 n k (omega arith) (omega arith) h ne,
)
