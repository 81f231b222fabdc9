-- ===== src/Str/Strings.antt =====
-- ASNU/src/string.c, the functions on strings that end with a 0.
-- A loop that runs until it finds the end takes fuel, and answers nothing if that runs out. A counted
-- loop recurs on the rounds that are left. A `char` is its byte, and `(char)c` is `c % 256`.
pub mod Texts
pub mod Length
pub mod Compare
pub mod Copy
pub mod Bounded
pub mod Search
pub mod Within
pub mod Token
use terracotta_os.Prelude.{
  ℕ, zero, suc, ◌+◌, ◌-◌, ◌%◌, ◌^◌, Bool, true, false, not, ◌&&◌, ◌||◌, Option, none, some, ltb,
  ◌==◌, if◌then◌else◌,
}
use terracotta_os.Prelude.Options.{◌>>=◌}
use terracotta_os.Prelude.Int.{ℤ, pos, sub_ℕ}
use terracotta_os.Memory.{Mem, Ptr, null, store}

-- `while ((*ptr++ = *src++));`
pub strcpy_loop : ℕ → Mem → Ptr → Ptr → Option Mem
strcpy_loop zero m ptr src = none
strcpy_loop (suc fuel) m ptr src =
    let m' = store m ptr (m src) in
    let rest = strcpy_loop fuel m' (ptr + 1) (src + 1) in if m src == 0 then some m' else rest

pub strcpy : ℕ → Mem → Ptr → Ptr → Option Mem
strcpy fuel m dest src = strcpy_loop fuel m dest src

-- `while (i < n) ptr[i++] = '\0';`
pub strncpy_fill : Mem → Ptr → ℕ → ℕ → Mem
strncpy_fill m ptr i zero = m
strncpy_fill m ptr i (suc left) = strncpy_fill (store m (ptr + i) 0) ptr (i + 1) left

-- `while (i < n && src[i]) { ptr[i] = src[i]; i++; }`, and then the loop that fills the rest.
pub strncpy_loop : Mem → Ptr → Ptr → ℕ → ℕ → Mem
unfolding strncpy_fill
strncpy_loop m ptr src i zero = m
strncpy_loop m ptr src i (suc left) =
    let rest = strncpy_loop (store m (ptr + i) (m (src + i))) ptr src (i + 1) left in
    if m (src + i) == 0 then strncpy_fill m ptr i (suc left) else rest

pub strncpy : Mem → Ptr → Ptr → ℕ → Mem
strncpy m dest src n = strncpy_loop m dest src 0 n

-- `while (str[len]) len++;` on a 32-bit length
pub strlen_loop : ℕ → Mem → Ptr → ℕ → Option ℕ
strlen_loop zero m str len = none
strlen_loop (suc fuel) m str len =
    let rest = strlen_loop fuel m str ((len + 1) % 2 ^ 32) in
    if m (str + len) == 0 then some len else rest

pub strlen : ℕ → Mem → Ptr → Option ℕ
strlen fuel m str = strlen_loop fuel m str 0

-- `(unsigned char)*s1 - (unsigned char)*s2` of the first characters that differ or end.
pub strcmp : ℕ → Mem → Ptr → Ptr → Option ℤ
strcmp zero m s1 s2 = none
strcmp (suc fuel) m s1 s2 =
    let rest = strcmp fuel m (s1 + 1) (s2 + 1) in
    if not (m s1 == 0) && (m s1 == m s2) then rest else some (sub_ℕ (m s1) (m s2))

-- `while (i < n && s1[i] && (s1[i] == s2[i])) i++;` and what follows, with `n - i` rounds left
pub strncmp_loop : Mem → Ptr → Ptr → ℕ → ℕ → ℤ
strncmp_loop m s1 s2 i zero = pos 0
strncmp_loop m s1 s2 i (suc left) =
    let rest = strncmp_loop m s1 s2 (i + 1) left in
    if not (m (s1 + i) == 0) && (m (s1 + i) == m (s2 + i))
    then rest
    else sub_ℕ (m (s1 + i)) (m (s2 + i))

pub strncmp : Mem → Ptr → Ptr → ℕ → ℤ
strncmp m s1 s2 n = strncmp_loop m s1 s2 0 n

-- `while (*ptr) ptr++;`
pub end_of : ℕ → Mem → Ptr → Option Ptr
end_of zero m ptr = none
end_of (suc fuel) m ptr =
    let rest = end_of fuel m (ptr + 1) in if m ptr == 0 then some ptr else rest

pub strcat : ℕ → Mem → Ptr → Ptr → Option Mem
strcat fuel m dest src = do ptr ← end_of fuel m dest; strcpy_loop fuel m ptr src

-- `while (i < n && src[i]) *ptr++ = src[i++]; *ptr = '\0';`
pub strncat_loop : Mem → Ptr → Ptr → ℕ → ℕ → Mem
strncat_loop m ptr src i zero = store m ptr 0
strncat_loop m ptr src i (suc left) =
    let rest = strncat_loop (store m ptr (m (src + i))) (ptr + 1) src (i + 1) left in
    if m (src + i) == 0 then store m ptr 0 else rest

pub strncat : ℕ → Mem → Ptr → Ptr → ℕ → Option Mem
strncat fuel m dest src n = do ptr ← end_of fuel m dest; some (strncat_loop m ptr src 0 n)

pub strchr : ℕ → Mem → Ptr → ℕ → Option Ptr
strchr zero m str c = none
strchr (suc fuel) m str c =
    let rest = strchr fuel m (str + 1) c in
    if m str == 0 then some null else if m str == c % 256 then some str else rest

-- `while (*h && *n && (*h == *n)) { h++; n++; }`, and whether the needle has ended.
pub matches : ℕ → Mem → Ptr → Ptr → Option Bool
matches zero m h n = none
matches (suc fuel) m h n =
    let rest = matches fuel m (h + 1) (n + 1) in
    if not (m h == 0) && not (m n == 0) && (m h == m n) then rest else some (m n == 0)

-- `while (*haystack) ...`
pub strstr_loop : ℕ → Mem → Ptr → Ptr → Option Ptr
strstr_loop zero m haystack needle = none
strstr_loop (suc fuel) m haystack needle =
    let rest = strstr_loop fuel m (haystack + 1) needle in
    if m haystack == 0
    then some null
    else (do found ← matches (suc fuel) m haystack needle; if found then some haystack else rest)

pub strstr : ℕ → Mem → Ptr → Ptr → Option Ptr
strstr fuel m haystack needle =
    if m needle == 0 then some haystack else strstr_loop fuel m haystack needle

-- `while (*start && strchr(delim, *start)) start++;`
pub skip_delimiters : ℕ → Mem → Ptr → Ptr → Option Ptr
skip_delimiters zero m start delim = none
skip_delimiters (suc fuel) m start delim =
    let rest = skip_delimiters fuel m (start + 1) delim in
    if m start == 0
    then some start
    else (do d ← strchr (suc fuel) m delim (m start); if d == null then some start else rest)

-- `while (*end && !strchr(delim, *end)) end++;`
pub token_end : ℕ → Mem → Ptr → Ptr → Option Ptr
token_end zero m end delim = none
token_end (suc fuel) m end delim =
    let rest = token_end fuel m (end + 1) delim in
    if m end == 0
    then some end
    else (do d ← strchr (suc fuel) m delim (m end); if d == null then rest else some end)

-- What `strtok` does behind the delimiters.
pub cut_token : ℕ → Mem → Ptr → Ptr → Option (Mem × Ptr × Ptr)
cut_token fuel m start delim = do
  end ← token_end fuel m start delim
  if m end == 0 then some (m, null, start) else some (store m end 0, end + 1, start)

-- `strtok`: from the memory and the static `next` to these and the answer.
pub strtok : ℕ → Mem → Ptr → Ptr → Ptr → Option (Mem × Ptr × Ptr)
strtok fuel m next str delim =
    let next = if str == null then next else str in
    if next == null then some (m, next, null) else (do
      start ← skip_delimiters fuel m next delim
      if m start == 0 then some (m, null, null) else cut_token fuel m start delim)

-- `while (*s) { if (*s == (char)c) last = s; s++; }`
pub strrchr_loop : ℕ → Mem → Ptr → ℕ → Ptr → Option Ptr
strrchr_loop zero m s c last = none
strrchr_loop (suc fuel) m s c last =
    let rest = strrchr_loop fuel m (s + 1) c (if m s == c % 256 then s else last) in
    if m s == 0 then some last else rest

pub strrchr : ℕ → Mem → Ptr → ℕ → Option Ptr
strrchr fuel m s c = strrchr_loop fuel m s c null
