-- ===== src/Str/Strings/Copy.antt =====
-- `strcpy`, `strncpy`, `strcat` and `strncat`: the text that they leave, and that no other byte changes.
use mathlib.Core.Path.{subst}
use terracotta_os.Prelude.{
  ℕ, zero, suc, ◌+◌, ◌<◌, ◌≡◌, ◌≢◌, ◌⊎◌, inl, refl, ◌∙◌, List, [], ◌∷◌, ◌++◌, length, take, some,
  ==_ne, arith,
}
use terracotta_os.Memory.{Mem, Ptr, IsBytes, store, store-IsBytes}
use terracotta_os.Str.Strings.{strcpy_loop, strcpy, strcat, strncat_loop, strncat}
use terracotta_os.Str.Strings.Texts.{IsText, SameOn, SameOn-IsText, store_self, store-other}
use terracotta_os.Str.Strings.Length.{end_of_lem}

-- A text was put at `p`, and no byte but its own has changed.
pub record Copied (m m' : Mem) (p : Ptr) (xs : List ℕ) : Type 0 where
  pub holds : IsText m' p xs
  pub others : (x : ℕ) → (x < p) ⊎ (p + length xs < x) → m' x ≡ m x

-- The `n` bytes and the end of one text are apart from those of another.
abbrev pub AreApart : Ptr → ℕ → Ptr → ℕ → Type 0
AreApart p n q k = (p + n < q) ⊎ (q + k < p)

-- A byte that is stored outside a text leaves it.
pub store-IsText :
    (m : Mem) (a v : ℕ) (p : Ptr) (xs : List ℕ)
    → (a < p) ⊎ (p + length xs < a)
    → IsText m p xs
    → IsText (store m a v) p xs
store-IsText m a v p xs out is =
    SameOn-IsText m (store m a v) p xs is (λ x lo hi. store-other m a v x (omega arith))

Copied-end : (m : Mem) (p : Ptr) → Copied m (store m p 0) p []
Copied-end m p = record {
  holds = store_self m p 0 (omega arith);
  others = λ x out. store-other m p 0 x (omega arith);
}

Copied-more :
    (m m' : Mem) (p c : ℕ) (xs : List ℕ)
    → c < 256
    → c ≢ 0
    → Copied (store m p c) m' (p + 1) xs
    → Copied m m' p (c ∷ xs)
Copied-more m m' p c xs byte ne w = record {
  holds = (w.others p (inl (omega arith)) ∙ store_self m p c byte, ne, w.holds);
  others = λ x out. w.others x (omega arith) ∙ store-other m p c x (omega arith);
}

pub strcpy_loop_lem :
    (fuel : ℕ) (m : Mem) (ptr src : Ptr) (xs : List ℕ)
    → IsBytes m
    → IsText m src xs
    → AreApart ptr (length xs) src (length xs)
    → length xs < fuel
    → (m' : Mem) × (strcpy_loop fuel m ptr src ≡ some m') × Copied m m' ptr xs
unfolding strcpy_loop
strcpy_loop_lem zero m ptr src xs bytes is apart enough = absurd (omega arith)
strcpy_loop_lem (suc fuel) m ptr src [] bytes is apart enough =
    (store m ptr 0, rw is refl, Copied-end m ptr)
strcpy_loop_lem (suc fuel) m ptr src (c ∷ xs) bytes (here, ne, rest) apart enough =
    let byte : c < 256 = omega (arith, bytes src) in
    let (m', run, w) =
      strcpy_loop_lem fuel (store m ptr c) (ptr + 1) (src + 1) xs (store-IsBytes ptr c bytes)
        (store-IsText m ptr c (src + 1) xs (omega arith) rest) (omega arith) (omega arith) in
    (m', rw (here, ==_ne c 0 ne) run, Copied-more m m' ptr c xs byte ne w)

-- `strcpy` puts the text of `src` at `dest`, where the two are apart.
pub strcpy_lem :
    (fuel : ℕ) (m : Mem) (dest src : Ptr) (xs : List ℕ)
    → IsBytes m
    → IsText m src xs
    → AreApart dest (length xs) src (length xs)
    → length xs < fuel
    → (m' : Mem) × (strcpy fuel m dest src ≡ some m') × Copied m m' dest xs
unfolding strcpy
strcpy_lem fuel m dest src xs bytes is apart enough =
    strcpy_loop_lem fuel m dest src xs bytes is apart enough

-- A text and what was put in the place of its end are one text.
pub joined :
    (m m' : Mem) (p : Ptr) (xs ys : List ℕ)
    → IsText m p xs
    → SameOn m m' p (length xs)
    → IsText m' (p + length xs) ys
    → IsText m' p (xs ++ ys)
joined m m' p [] ys is same rest = subst (λ q. IsText m' q ys) (omega arith) rest
joined m m' p (x ∷ xs) ys (here, ne, is) same rest = (
  same p (omega arith) (omega arith) ∙ here,
  ne,
  joined m m' (p + 1) xs ys is (λ y lo hi. same y (omega arith) (omega arith))
      (subst (λ q. IsText m' q ys) (omega arith) rest),
)

-- What follows a text at `dest` is now `ys`, and no byte behind its end or in front of it has changed.
pub record Appended (m m' : Mem) (dest : Ptr) (xs ys : List ℕ) : Type 0 where
  pub holds : IsText m' dest (xs ++ ys)
  pub others : (x : ℕ) → (x < dest + length xs) ⊎ (dest + length xs + length ys < x) → m' x ≡ m x

appended :
    (m m' : Mem) (dest : Ptr) (xs ys : List ℕ)
    → IsText m dest xs
    → Copied m m' (dest + length xs) ys
    → Appended m m' dest xs ys
appended m m' dest xs ys is w = record {
  holds = joined m m' dest xs ys is (λ y lo hi. w.others y (inl hi)) w.holds;
  others = w.others;
}

-- In a memory of bytes, with fuel for both texts and the end of the first apart from the second,
-- `strcat` leaves at `dest` the first text followed by the second, and changes no byte in front of
-- the old end or behind the new one.
pub strcat_lem :
    (fuel : ℕ) (m : Mem) (dest src : Ptr) (xs ys : List ℕ)
    → IsBytes m
    → IsText m dest xs
    → IsText m src ys
    → AreApart (dest + length xs) (length ys) src (length ys)
    → length xs < fuel
    → length ys < fuel
    → (m' : Mem) × (strcat fuel m dest src ≡ some m') × Appended m m' dest xs ys
unfolding strcat
strcat_lem fuel m dest src xs ys bytes is is' apart enough enough' =
    let (m', run, w) = strcpy_loop_lem fuel m (dest + length xs) src ys bytes is' apart enough' in
    (m', rw (end_of_lem fuel m dest xs is enough) run, appended m m' dest xs ys is w)

strncat_loop_lem :
    (m : Mem) (ptr src i left q : ℕ) (ys : List ℕ)
    → q ≡ src + i
    → IsBytes m
    → IsText m q ys
    → AreApart ptr (length (take left ys)) q (length ys)
    → Copied m (strncat_loop m ptr src i left) ptr (take left ys)
unfolding strncat_loop
strncat_loop_lem m ptr src i zero q ys at bytes is apart = Copied-end m ptr
strncat_loop_lem m ptr src i (suc left) q [] at bytes is apart = rw (← at, is) (Copied-end m ptr)
strncat_loop_lem m ptr src i (suc left) q (y ∷ ys) at bytes (here, ne, rest) apart =
    let byte : y < 256 = omega (arith, bytes q) in
    rw (← at, here, ==_ne y 0 ne)
      (Copied-more m _ ptr y (take left ys) byte ne (
        strncat_loop_lem (store m ptr y) (ptr + 1) src (i + 1) left (q + 1) ys (omega arith)
          (store-IsBytes ptr y bytes) (store-IsText m ptr y (q + 1) ys (omega arith) rest)
          (omega arith)))

-- `strncat` puts the first `n` characters of `src` behind the text of `dest`, and an end.
pub strncat_lem :
    (fuel : ℕ) (m : Mem) (dest src : Ptr) (n : ℕ) (xs ys : List ℕ)
    → IsBytes m
    → IsText m dest xs
    → IsText m src ys
    → AreApart (dest + length xs) (length (take n ys)) src (length ys)
    → length xs < fuel
    → (m' : Mem) × (strncat fuel m dest src n ≡ some m') × Appended m m' dest xs (take n ys)
unfolding strncat
strncat_lem fuel m dest src n xs ys bytes is is' apart enough = (
  strncat_loop m (dest + length xs) src 0 n,
  rw (end_of_lem fuel m dest xs is enough) refl,
  appended m _ dest xs (take n ys) is
      (strncat_loop_lem m (dest + length xs) src 0 n src ys (omega arith) bytes is' apart),
)
