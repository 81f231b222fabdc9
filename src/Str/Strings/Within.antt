-- ===== src/Str/Strings/Within.antt =====
-- `strstr` finds the first place of a text in another.
use native.Mathlib.Decide.{ℕ_discrete}
use terracotta_os.Prelude.{
  ℕ, zero, suc, ◌+◌, ◌<◌, ◌≤◌, ◌≡◌, ◌⊎◌, inl, inr, refl, ap, ◌∙◌, List, [], ◌∷◌, length, drop, some,
  true, false, ==_ne, ==_iff, arith, ◌==◌,
}
use terracotta_os.Memory.{Mem, Ptr, null}
use terracotta_os.Str.Strings.{matches, strstr_loop, strstr}
use terracotta_os.Str.Strings.Texts.{IsText}

abbrev pub IsPrefix : List ℕ → List ℕ → Type 0
IsPrefix [] xs = Unit
IsPrefix (y ∷ ys) [] = ⊥
IsPrefix (y ∷ ys) (x ∷ xs) = (x ≡ y) × IsPrefix ys xs

-- `matches` tells whether the needle is a prefix of what is left of the haystack.
matches_lem :
    (fuel : ℕ) (m : Mem) (h n : Ptr) (xs ys : List ℕ)
    → IsText m h xs
    → IsText m n ys
    → length xs < fuel
    → ((matches fuel m h n ≡ some true) × IsPrefix ys xs)
      ⊎ ((matches fuel m h n ≡ some false) × (¬ IsPrefix ys xs))
unfolding matches
matches_lem zero m h n xs ys is is' enough = absurd (omega arith)
matches_lem (suc fuel) m h n [] [] is is' enough = inl (rw (is, is') refl, tt)
matches_lem (suc fuel) m h n (x ∷ xs) [] (here, ne, rest) is' enough =
    inl (rw (here, is', ==_ne x 0 ne) refl, tt)
matches_lem (suc fuel) m h n [] (y ∷ ys) is (here', ne', rest') enough =
    inr (rw (is, here', ==_ne y 0 ne') refl, λ p. p)
matches_lem (suc fuel) m h n (x ∷ xs) (y ∷ ys) (here, ne, rest) (here', ne', rest') enough =
    elim (ℕ_discrete x y) [
      | yes e ↦
          let same : (x == y) ≡ true = (==_iff x y).1 e in
          elim (matches_lem fuel m (h + 1) (n + 1) xs ys rest rest' (omega arith)) [
            | inl (run, p) ↦ inl (rw (here, here', ==_ne x 0 ne, ==_ne y 0 ne', same) run, (e, p))
            | inr (run, q) ↦
                inr (rw (here, here', ==_ne x 0 ne, ==_ne y 0 ne', same) run, λ p. q p.1)
          ]
      | no differs ↦
          inr (
            rw (here, here', ==_ne x 0 ne, ==_ne y 0 ne', ==_ne x y differs) refl,
            λ p. differs p.0,
          )
    ]

-- `ys` starts `k` characters behind the start of `xs`, and at no place before.
pub record FirstAt (ys xs : List ℕ) (k : ℕ) : Type 0 where
  pub inside : k ≤ length xs
  pub here : IsPrefix ys (drop k xs)
  pub not_before : (j : ℕ) → j < k → ¬ IsPrefix ys (drop j xs)

FirstAt-later :
    {ys xs : List ℕ} {k : ℕ} (x : ℕ)
    → (¬ IsPrefix ys (x ∷ xs))
    → FirstAt ys xs k
    → FirstAt ys (x ∷ xs) (suc k)
FirstAt-later {ys} {xs} {k} x not_here first =
    let h = first.inside in record { inside = omega arith; here = first.here; not_before = before }
  where
    before : (j : ℕ) → j < suc k → ¬ IsPrefix ys (drop j (x ∷ xs))
    before zero lt = not_here
    before (suc j) lt = first.not_before j (omega arith)

-- `ys` is nowhere in `xs`.
abbrev pub Nowhere : List ℕ → List ℕ → Type 0
Nowhere ys xs = (k : ℕ) → ¬ IsPrefix ys (drop k xs)

Nowhere-later :
    (y : ℕ) (ys : List ℕ) (x : ℕ) (xs : List ℕ)
    → (¬ IsPrefix (y ∷ ys) (x ∷ xs))
    → Nowhere (y ∷ ys) xs
    → Nowhere (y ∷ ys) (x ∷ xs)
Nowhere-later y ys x xs not_here none_later zero = not_here
Nowhere-later y ys x xs not_here none_later (suc k) = none_later k

Nowhere-empty : (y : ℕ) (ys : List ℕ) → Nowhere (y ∷ ys) []
Nowhere-empty y ys zero = λ p. p
Nowhere-empty y ys (suc k) = λ p. p

strstr_loop_lem :
    (fuel : ℕ) (m : Mem) (haystack needle : Ptr) (xs : List ℕ) (y : ℕ) (ys : List ℕ)
    → IsText m haystack xs
    → IsText m needle (y ∷ ys)
    → length xs < fuel
    → ((strstr_loop fuel m haystack needle ≡ some null) × Nowhere (y ∷ ys) xs)
      ⊎ ((k : ℕ) × (strstr_loop fuel m haystack needle ≡ some (haystack + k))
          × FirstAt (y ∷ ys) xs k)
unfolding strstr_loop
strstr_loop_lem zero m haystack needle xs y ys is is' enough = absurd (omega arith)
strstr_loop_lem (suc fuel) m haystack needle [] y ys is is' enough =
    inl (rw is refl, Nowhere-empty y ys)
strstr_loop_lem (suc fuel) m haystack needle (x ∷ xs) y ys (here, ne, rest) is' enough =
    elim (matches_lem (suc fuel) m haystack needle (x ∷ xs) (y ∷ ys) (here, ne, rest) is' enough) [
      | inl (found, p) ↦ inr (
        0,
        rw (here, ==_ne x 0 ne, found) (ap some (omega arith)),
        record { inside = omega arith; here = p; not_before = λ j lt. absurd (omega arith) },
      )
      | inr (missed, q) ↦
          elim (strstr_loop_lem fuel m (haystack + 1) needle xs y ys rest is' (omega arith)) [
            | inl (run, nowhere) ↦
                inl (rw (here, ==_ne x 0 ne, missed) run, Nowhere-later y ys x xs q nowhere)
            | inr (k, run, first) ↦ inr (
              suc k,
              rw (here, ==_ne x 0 ne, missed) (run ∙ ap some (omega arith)),
              FirstAt-later x q first,
            )
          ]
    ]

-- On two texts in memory, with fuel for the first, `strstr` answers `NULL` if the second is
-- nowhere in the first, and otherwise the first place where it starts.
pub strstr_lem :
    (fuel : ℕ) (m : Mem) (haystack needle : Ptr) (xs ys : List ℕ)
    → IsText m haystack xs
    → IsText m needle ys
    → length xs < fuel
    → ((strstr fuel m haystack needle ≡ some null) × Nowhere ys xs)
      ⊎ ((k : ℕ) × (strstr fuel m haystack needle ≡ some (haystack + k)) × FirstAt ys xs k)
unfolding strstr
strstr_lem fuel m haystack needle xs [] is is' enough = inr (
  0,
  rw is' (ap some (omega arith)),
  record { inside = omega arith; here = tt; not_before = λ j lt. absurd (omega arith) },
)
strstr_lem fuel m haystack needle xs (y ∷ ys) is is' enough =
    rw (is'.0, ==_ne y 0 is'.1) (strstr_loop_lem fuel m haystack needle xs y ys is is' enough)
