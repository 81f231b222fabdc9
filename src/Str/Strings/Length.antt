-- ===== src/Str/Strings/Length.antt =====
-- `strlen` and the end of a string.
use terracotta_os.Prelude.{
  ℕ, zero, suc, ◌+◌, ◌%◌, ◌^◌, ◌<◌, ◌≡◌, ap, ◌∙◌, List, [], ◌∷◌, length, some, ==_ne, arith,
}
use terracotta_os.Memory.{Mem, Ptr}
use terracotta_os.Str.Strings.{strlen_loop, strlen, end_of}
use terracotta_os.Str.Strings.Texts.{IsText}

strlen_loop_lem :
    (fuel : ℕ) (m : Mem) (str len q : ℕ) (xs : List ℕ)
    → q ≡ str + len
    → IsText m q xs
    → length xs < fuel
    → len + length xs < 2 ^ 32
    → strlen_loop fuel m str len ≡ some (len + length xs)
unfolding strlen_loop
strlen_loop_lem zero m str len q xs at is enough small = absurd (omega arith)
strlen_loop_lem (suc fuel) m str len q [] at is enough small = rw (← at, is) (ap some (omega arith))
strlen_loop_lem (suc fuel) m str len q (x ∷ xs) at (here, ne, rest) enough small =
    let next : (len + 1) % 2 ^ 32 ≡ len + 1 = omega arith in
    rw (← at, here, ==_ne x 0 ne, next)
      (strlen_loop_lem fuel m str (len + 1) (q + 1) xs (omega arith) rest (omega arith)
          (omega arith)
        ∙ ap some (omega arith))

-- `strlen` answers the length of a text that is shorter than 4 GiB.
pub strlen_lem :
    (fuel : ℕ) (m : Mem) (str : Ptr) (xs : List ℕ)
    → IsText m str xs
    → length xs < fuel
    → length xs < 2 ^ 32
    → strlen fuel m str ≡ some (length xs)
unfolding strlen
strlen_lem fuel m str xs is enough small =
    strlen_loop_lem fuel m str 0 str xs (omega arith) is enough (omega arith)
    ∙ ap some (omega arith)

pub end_of_lem :
    (fuel : ℕ) (m : Mem) (p : Ptr) (xs : List ℕ)
    → IsText m p xs
    → length xs < fuel
    → end_of fuel m p ≡ some (p + length xs)
unfolding end_of
end_of_lem zero m p xs is enough = absurd (omega arith)
end_of_lem (suc fuel) m p [] is enough = rw is (ap some (omega arith))
end_of_lem (suc fuel) m p (x ∷ xs) (here, ne, rest) enough =
    rw (here, ==_ne x 0 ne)
      (end_of_lem fuel m (p + 1) xs rest (omega arith) ∙ ap some (omega arith))
