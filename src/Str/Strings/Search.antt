-- ===== src/Str/Strings/Search.antt =====
-- `strchr` and `strrchr` find the first and the last place of a character.
use native.Mathlib.Decide.{ℕ_discrete}
use terracotta_os.Prelude.{
  ℕ, zero, suc, ◌+◌, ◌%◌, ◌<◌, ◌≡◌, ◌≢◌, ◌⊎◌, inl, inr, refl, ap, ◌∙◌, List, [], ◌∷◌, ◌++◌, length,
  some, true, ==_ne, ==_iff, arith, ◌==◌,
}
use terracotta_os.Memory.{Mem, Ptr, null}
use terracotta_os.Str.Strings.{strchr, strrchr_loop, strrchr}
use terracotta_os.Str.Strings.Texts.{IsText}

-- A character is not in a text.
abbrev pub Lacks : ℕ → List ℕ → Type 0
Lacks c [] = Unit
Lacks c (x ∷ xs) = (x ≢ c) × Lacks c xs

-- A text is split at the first place of a character, or at the last one.
pub record SplitFirst (c : ℕ) (xs us vs : List ℕ) : Type 0 where
  pub parts : xs ≡ us ++ (c ∷ vs)
  pub none_before : Lacks c us

pub record SplitLast (c : ℕ) (xs us vs : List ℕ) : Type 0 where
  pub parts : xs ≡ us ++ (c ∷ vs)
  pub none_behind : Lacks c vs

-- `strchr` answers NULL if the text lacks the character, and otherwise its first place.
pub strchr_lem :
    (fuel : ℕ) (m : Mem) (str : Ptr) (c : ℕ) (xs : List ℕ)
    → IsText m str xs
    → length xs < fuel
    → ((strchr fuel m str c ≡ some null) × Lacks (c % 256) xs)
      ⊎ ((us : List ℕ) × (vs : List ℕ) × (strchr fuel m str c ≡ some (str + length us))
          × SplitFirst (c % 256) xs us vs)
unfolding strchr
strchr_lem zero m str c xs is enough = absurd (omega arith)
strchr_lem (suc fuel) m str c [] is enough = inl (rw is refl, tt)
strchr_lem (suc fuel) m str c (x ∷ xs) (here, ne, rest) enough = elim (ℕ_discrete x (c % 256)) [
  | yes e ↦
      let same : (x == c % 256) ≡ true = (==_iff x (c % 256)).1 e in
      inr (
        [],
        xs,
        rw (here, ==_ne x 0 ne, same) (ap some (omega arith)),
        record { parts = ap (λ y. y ∷ xs) e; none_before = tt },
      )
  | no differs ↦ elim (strchr_lem fuel m (str + 1) c xs rest (omega arith)) [
    | inl (run, lacks) ↦
        inl (rw (here, ==_ne x 0 ne, ==_ne x (c % 256) differs) run, (differs, lacks))
    | inr (us, vs, run, split) ↦ inr (
      x ∷ us,
      vs,
      rw (here, ==_ne x 0 ne, ==_ne x (c % 256) differs) (run ∙ ap some (omega arith)),
      record { parts = ap (λ l. x ∷ l) split.parts; none_before = (differs, split.none_before) },
    )
  ]
]

later :
    {c : ℕ} {xs us vs : List ℕ} (x : ℕ) → SplitLast c xs us vs → SplitLast c (x ∷ xs) (x ∷ us) vs
later x split = record { parts = ap (λ l. x ∷ l) split.parts; none_behind = split.none_behind }

strrchr_loop_lem :
    (fuel : ℕ) (m : Mem) (s c last : ℕ) (xs : List ℕ)
    → IsText m s xs
    → length xs < fuel
    → ((strrchr_loop fuel m s c last ≡ some last) × Lacks (c % 256) xs)
      ⊎ ((us : List ℕ) × (vs : List ℕ) × (strrchr_loop fuel m s c last ≡ some (s + length us))
          × SplitLast (c % 256) xs us vs)
unfolding strrchr_loop
strrchr_loop_lem zero m s c last xs is enough = absurd (omega arith)
strrchr_loop_lem (suc fuel) m s c last [] is enough = inl (rw is refl, tt)
strrchr_loop_lem (suc fuel) m s c last (x ∷ xs) (here, ne, rest) enough =
    elim (ℕ_discrete x (c % 256)) [
      | yes e ↦
          let same : (x == c % 256) ≡ true = (==_iff x (c % 256)).1 e in
          elim (strrchr_loop_lem fuel m (s + 1) c s xs rest (omega arith)) [
            | inl (run, lacks) ↦ inr (
              [],
              xs,
              rw (here, ==_ne x 0 ne, same) (run ∙ ap some (omega arith)),
              record { parts = ap (λ y. y ∷ xs) e; none_behind = lacks },
            )
            | inr (us, vs, run, split) ↦ inr (
              x ∷ us,
              vs,
              rw (here, ==_ne x 0 ne, same) (run ∙ ap some (omega arith)),
              later x split,
            )
          ]
      | no differs ↦ elim (strrchr_loop_lem fuel m (s + 1) c last xs rest (omega arith)) [
        | inl (run, lacks) ↦
            inl (rw (here, ==_ne x 0 ne, ==_ne x (c % 256) differs) run, (differs, lacks))
        | inr (us, vs, run, split) ↦ inr (
          x ∷ us,
          vs,
          rw (here, ==_ne x 0 ne, ==_ne x (c % 256) differs) (run ∙ ap some (omega arith)),
          later x split,
        )
      ]
    ]

-- `strrchr` answers NULL if the text lacks the character, and otherwise its last place.
pub strrchr_lem :
    (fuel : ℕ) (m : Mem) (s : Ptr) (c : ℕ) (xs : List ℕ)
    → IsText m s xs
    → length xs < fuel
    → ((strrchr fuel m s c ≡ some null) × Lacks (c % 256) xs)
      ⊎ ((us : List ℕ) × (vs : List ℕ) × (strrchr fuel m s c ≡ some (s + length us))
          × SplitLast (c % 256) xs us vs)
unfolding strrchr
strrchr_lem fuel m s c xs is enough = strrchr_loop_lem fuel m s c null xs is enough
