-- ===== src/Str/Strings/Bounded.antt =====
-- `strncpy` writes exactly `n` bytes.
use mathlib.Core.Path.{subst}
use terracotta_os.Prelude.{
  Bool-cases, ℕ, zero, suc, ◌+◌, ◌-◌, ◌<◌, ◌≤◌, ◌≡◌, ◌⊎◌, inl, inr, refl, ◌∙◌, List, [], ◌∷◌,
  length, get_or, true, false, ==_ne, arith, if◌then◌else◌,
}
use native.Mathlib.Decide.{ℕ_discrete}
use terracotta_os.Memory.{Mem, IsBytes, store, store-IsBytes, within}
use terracotta_os.Str.Strings.{strncpy_fill, strncpy_loop, strncpy}
use terracotta_os.Str.Strings.Texts.{IsText}
use terracotta_os.Str.Strings.Copy.{store-IsText}

fill_round :
    (m : Mem) (a b left x : ℕ)
    → b ≡ a + 1
    → (if within b left x then 0 else store m a 0 x) ≡ (if within a (suc left) x then 0 else m x)
unfolding store
fill_round m a b left x e = ground arith

strncpy_fill_lem :
    (m : Mem) (ptr i left x : ℕ)
    → strncpy_fill m ptr i left x ≡ (if within (ptr + i) left x then 0 else m x)
unfolding strncpy_fill
strncpy_fill_lem m ptr i zero x = ground arith
strncpy_fill_lem m ptr i (suc left) x =
    strncpy_fill_lem (store m (ptr + i) 0) ptr (i + 1) left x
    ∙ fill_round m (ptr + i) (ptr + (i + 1)) left x (omega arith)

-- One character of the text, and then the others.
copy_round :
    (m : Mem) (a b left c x : ℕ) (xs : List ℕ)
    → b ≡ a + 1
    → c < 256
    → (if within b left x then get_or xs (x - b) 0 else store m a c x)
      ≡ (if within a (suc left) x then get_or (c ∷ xs) (x - a) 0 else m x)
unfolding store
copy_round m a b left c x xs e byte = elim (ℕ_discrete x a) [
  | yes at ↦
      let out : within b left x ≡ false = ground arith in
      let first : x - a ≡ 0 = omega arith in
      let inside : within a (suc left) x ≡ true = ground arith in
      rw (out, inside, first) (ground arith)
  | no ne ↦ elim (Bool-cases (within b left x)) [
    | inl inside' ↦
        let inside : within a (suc left) x ≡ true = ground arith in
        let next : x - a ≡ suc (x - b) = ground arith in rw (inside', inside, next) refl
    | inr out' ↦
        let out : within a (suc left) x ≡ false = ground arith in rw (out', out) (ground arith)
  ]
]

strncpy_loop_lem :
    (m : Mem) (ptr src i left q x : ℕ) (xs : List ℕ)
    → q ≡ src + i
    → IsBytes m
    → IsText m q xs
    → (ptr + i + left ≤ q) ⊎ (q + length xs < ptr + i)
    → strncpy_loop m ptr src i left x
      ≡ (if within (ptr + i) left x then get_or xs (x - (ptr + i)) 0 else m x)
unfolding strncpy_loop
strncpy_loop_lem m ptr src i zero q x xs at bytes is apart = ground arith
strncpy_loop_lem m ptr src i (suc left) q x [] at bytes is apart =
    rw (← at, is) (strncpy_fill_lem m ptr i (suc left) x)
strncpy_loop_lem m ptr src i (suc left) q x (c ∷ xs) at bytes (here, ne, rest) apart =
    let byte : c < 256 = omega (arith, bytes q) in
    rw (← at, here, ==_ne c 0 ne)
      (strncpy_loop_lem (store m (ptr + i) c) ptr src (i + 1) left (q + 1) x xs (omega arith)
          (store-IsBytes (ptr + i) c bytes)
          (store-IsText m (ptr + i) c (q + 1) xs (omega arith) rest) (omega arith)
        ∙ copy_round m (ptr + i) (ptr + (i + 1)) left c x xs (omega arith) byte)

-- `strncpy` writes the `n` bytes at `dest`: the text of `src` as far as it goes, and then zeros. No
-- other byte changes.
pub strncpy_lem :
    (m : Mem) (dest src n x : ℕ) (xs : List ℕ)
    → IsBytes m
    → IsText m src xs
    → (dest + n ≤ src) ⊎ (src + length xs < dest)
    → strncpy m dest src n x ≡ (if within dest n x then get_or xs (x - dest) 0 else m x)
unfolding strncpy
strncpy_lem m dest src n x xs bytes is apart =
    let at : dest + 0 ≡ dest = omega arith in
    subst (λ p. strncpy_loop m dest src 0 n x ≡ (if within p n x then get_or xs (x - p) 0 else m x))
      at (strncpy_loop_lem m dest src 0 n src x xs (omega arith) bytes is (omega arith))
