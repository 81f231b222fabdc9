-- ===== src/Str.antt =====
-- ASNU/src/string.c, the functions on blocks of memory: `memcpy`, `memset`, `memmove`, `memcmp`.
-- A counted loop recurs on the rounds that are left.
pub mod Block
pub mod Strings
mod Tests
use terracotta_os.Prelude.{ℕ, zero, suc, ◌+◌, ◌-◌, ◌%◌, Bool, true, false, ltb, ◌==◌, if◌then◌else◌}
use terracotta_os.Prelude.Int.{ℤ, pos, negsuc}
use terracotta_os.Memory.{Mem, Ptr, store}

-- `for (; i < n; i++) p[i] = (uint8_t)c;` with `left` rounds to go
pub memset_loop : Mem → Ptr → ℕ → ℕ → ℕ → Mem
memset_loop m p c i zero = m
memset_loop m p c i (suc left) = memset_loop (store m (p + i) c) p c (i + 1) left

unfoldable pub memset : Mem → Ptr → ℕ → ℕ → Mem
unfolding memset_loop
memset m s c n = memset_loop m s c 0 n

-- `for (; i < n; i++) pdest[i] = psrc[i];`
pub copy_up : Mem → Ptr → Ptr → ℕ → ℕ → Mem
copy_up m dest src i zero = m
copy_up m dest src i (suc left) = copy_up (store m (dest + i) (m (src + i))) dest src (i + 1) left

-- `for (i = n; i > 0; i--) pdest[i-1] = psrc[i-1];`
pub copy_down : Mem → Ptr → Ptr → ℕ → Mem
copy_down m dest src zero = m
copy_down m dest src (suc i) = copy_down (store m (dest + i) (m (src + i))) dest src i

unfoldable pub memcpy : Mem → Ptr → Ptr → ℕ → Mem
unfolding copy_up
memcpy m dest src n = copy_up m dest src 0 n

pub memmove : Mem → Ptr → Ptr → ℕ → Mem
memmove m dest src n =
    if ltb dest src
    then copy_up m dest src 0 n
    else if ltb src dest
    then copy_down m dest src n
    else m

pub memcmp_loop : Mem → Ptr → Ptr → ℕ → ℕ → ℤ
memcmp_loop m p1 p2 i zero = pos 0
memcmp_loop m p1 p2 i (suc left) = elim (m (p1 + i) == m (p2 + i)) [
  | true ↦ memcmp_loop m p1 p2 (i + 1) left
  | false ↦ if ltb (m (p1 + i)) (m (p2 + i)) then negsuc 0 else pos 1
]

pub memcmp : Mem → Ptr → Ptr → ℕ → ℤ
memcmp m s1 s2 n = memcmp_loop m s1 s2 0 n
