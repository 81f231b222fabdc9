-- ===== src/Str/Strings/Compare.antt =====
-- `strcmp` and `strncmp` compare texts in the order of a dictionary.
use native.Mathlib.Decide.{ℕ_discrete}
use mathlib.Core.Path.{subst}
use terracotta_os.Prelude.{
  ℕ, zero, suc, ◌+◌, ◌<◌, ◌≡◌, ◌≢◌, ◌↔◌, ◌⊎◌, inl, inr, refl, ap, List, [], ◌∷◌, length, take, some,
  true, ==_ne, ==_iff, arith, ◌==◌,
}
use terracotta_os.Prelude.Int.{ℤ, pos, sub_ℕ, is_negative}
use terracotta_os.Memory.{Mem, Ptr}
use terracotta_os.Str.Strings.{strcmp, strncmp_loop, strncmp}
use terracotta_os.Str.Strings.Texts.{IsText}

-- `xs` stands before `ys` in a dictionary.
abbrev pub Before : List ℕ → List ℕ → Type 0
Before xs [] = ⊥
Before [] (y ∷ ys) = Unit
Before (x ∷ xs) (y ∷ ys) = (x < y) ⊎ ((x ≡ y) × Before xs ys)

-- How the sign of `r` is the order of two texts.
abbrev pub Orders : ℤ → List ℕ → List ℕ → Type 0
Orders r xs ys = ((r ≡ pos 0) ↔ (xs ≡ ys)) × ((is_negative r ≡ true) ↔ Before xs ys)

-- A character other than 0 before the end, and the end, are in the order of their codes.
differ : (x y : ℕ) (xs ys : List ℕ) → x ≢ y → Orders (sub_ℕ x y) (x ∷ xs) (y ∷ ys)
differ x y xs ys ne =
    ((λ e. ground arith, λ e. absurd (ne cc)), (λ e. ground arith, λ b. ground arith))

same_first : (r : ℤ) (x : ℕ) (xs ys : List ℕ) → Orders r xs ys → Orders r (x ∷ xs) (x ∷ ys)
same_first r x xs ys ((to, from), (down, up)) = (
  (λ e. ap (λ l. x ∷ l) (to e), λ e. from cc),
  (λ e. inr (refl, down e), λ b. elim b [ inl lt ↦ absurd (omega arith) | inr (e, b) ↦ up b ]),
)

both_end : Orders (sub_ℕ 0 0) [] []
both_end = ((λ e. refl, λ e. refl), (λ e. cc, λ b. absurd b))

first_ends : (y : ℕ) (ys : List ℕ) → y ≢ 0 → Orders (sub_ℕ 0 y) [] (y ∷ ys)
first_ends y ys ne = ((λ e. ground arith, λ e. cc), (λ e. tt, λ b. ground arith))

second_ends : (x : ℕ) (xs : List ℕ) → x ≢ 0 → Orders (sub_ℕ x 0) (x ∷ xs) []
second_ends x xs ne = ((λ e. ground arith, λ e. cc), (λ e. ground arith, λ b. absurd b))

-- On two texts in memory, with fuel for the first, `strcmp` returns a number that is 0 exactly if
-- they are the same, and negative exactly if the first stands before the second in a dictionary.
pub strcmp_lem :
    (fuel : ℕ) (m : Mem) (s1 s2 : Ptr) (xs ys : List ℕ)
    → IsText m s1 xs
    → IsText m s2 ys
    → length xs < fuel
    → (r : ℤ) × (strcmp fuel m s1 s2 ≡ some r) × Orders r xs ys
unfolding strcmp
strcmp_lem zero m s1 s2 xs ys is is' enough = absurd (omega arith)
strcmp_lem (suc fuel) m s1 s2 [] [] is is' enough = (sub_ℕ 0 0, rw (is, is') refl, both_end)
strcmp_lem (suc fuel) m s1 s2 [] (y ∷ ys) is (here', ne', rest') enough =
    (sub_ℕ 0 y, rw (is, here') refl, first_ends y ys ne')
strcmp_lem (suc fuel) m s1 s2 (x ∷ xs) [] (here, ne, rest) is' enough =
    (sub_ℕ x 0, rw (here, is', ==_ne x 0 ne) refl, second_ends x xs ne)
strcmp_lem (suc fuel) m s1 s2 (x ∷ xs) (y ∷ ys) (here, ne, rest) (here', ne', rest') enough =
    elim (ℕ_discrete x y) [
      | yes e ↦
          let (r, run, orders) =
            strcmp_lem fuel m (s1 + 1) (s2 + 1) xs ys rest rest' (omega arith) in
          let same : (x == y) ≡ true = (==_iff x y).1 e in
          (
            r,
            rw (here, here', ==_ne x 0 ne, same) run,
            subst (λ z. Orders r (x ∷ xs) (z ∷ ys)) e (same_first r x xs ys orders),
          )
      | no differs ↦ (
        sub_ℕ x y,
        rw (here, here', ==_ne x 0 ne, ==_ne x y differs) refl,
        differ x y xs ys differs,
      )
    ]

strncmp_loop_lem :
    (m : Mem) (s1 s2 i n q q' : ℕ) (xs ys : List ℕ)
    → q ≡ s1 + i
    → q' ≡ s2 + i
    → IsText m q xs
    → IsText m q' ys
    → Orders (strncmp_loop m s1 s2 i n) (take n xs) (take n ys)
unfolding strncmp_loop
strncmp_loop_lem m s1 s2 i zero q q' xs ys at at' is is' = both_end
strncmp_loop_lem m s1 s2 i (suc n) q q' [] [] at at' is is' = rw (← at, ← at', is, is') both_end
strncmp_loop_lem m s1 s2 i (suc n) q q' [] (y ∷ ys) at at' is (here', ne', rest') =
    rw (← at, ← at', is, here') (first_ends y (take n ys) ne')
strncmp_loop_lem m s1 s2 i (suc n) q q' (x ∷ xs) [] at at' (here, ne, rest) is' =
    rw (← at, ← at', here, is', ==_ne x 0 ne) (second_ends x (take n xs) ne)
strncmp_loop_lem m s1 s2 i (suc n) q q' (x ∷ xs) (y ∷ ys) at at' (here, ne, rest)
      (here', ne', rest') =
    elim (ℕ_discrete x y) [
      | yes e ↦
          let orders =
            strncmp_loop_lem m s1 s2 (i + 1) n (q + 1) (q' + 1) xs ys (omega arith) (omega arith)
              rest rest' in
          let same : (x == y) ≡ true = (==_iff x y).1 e in
          rw (← at, ← at', here, here', ==_ne x 0 ne, same)
            (subst (λ z. Orders (strncmp_loop m s1 s2 (i + 1) n) (x ∷ take n xs) (z ∷ take n ys)) e
              (same_first _ x (take n xs) (take n ys) orders))
      | no differs ↦
          rw (← at, ← at', here, here', ==_ne x 0 ne, ==_ne x y differs)
            (differ x y (take n xs) (take n ys) differs)
    ]

-- `strncmp` orders the first `n` characters of two texts.
pub strncmp_lem :
    (m : Mem) (s1 s2 : Ptr) (n : ℕ) (xs ys : List ℕ)
    → IsText m s1 xs
    → IsText m s2 ys
    → Orders (strncmp m s1 s2 n) (take n xs) (take n ys)
unfolding strncmp
strncmp_lem m s1 s2 n xs ys is is' =
    strncmp_loop_lem m s1 s2 0 n s1 s2 xs ys (omega arith) (omega arith) is is'
