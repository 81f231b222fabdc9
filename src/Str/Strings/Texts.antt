-- ===== src/Str/Strings/Texts.antt =====
-- Texts in memory: the characters of a string, and the 0 behind them.
use terracotta_os.Prelude.{ℕ, ◌+◌, ◌<◌, ◌≤◌, ◌≡◌, ◌≢◌, ◌∙◌, List, [], ◌∷◌, length, arith}
use terracotta_os.Memory.{Mem, Ptr, store}

abbrev pub IsText : Mem → Ptr → List ℕ → Type 0
IsText m p [] = m p ≡ 0
IsText m p (x ∷ xs) = (m p ≡ x) × (x ≢ 0) × IsText m (p + 1) xs

-- Two memories agree on the `n` bytes from `p` on.
abbrev pub SameOn : Mem → Mem → Ptr → ℕ → Type 0
SameOn m m' p n = (x : ℕ) → p ≤ x → x < p + n → m' x ≡ m x

-- A text depends on its own bytes alone.
pub SameOn-IsText :
    (m m' : Mem) (p : Ptr) (xs : List ℕ)
    → IsText m p xs
    → SameOn m m' p (length xs + 1)
    → IsText m' p xs
SameOn-IsText m m' p [] is same = same p (omega arith) (omega arith) ∙ is
SameOn-IsText m m' p (x ∷ xs) (here, ne, rest) same = (
  same p (omega arith) (omega arith) ∙ here,
  ne,
  SameOn-IsText m m' (p + 1) xs rest (λ y lo hi. same y (omega arith) (omega arith)),
)

pub store_self : (m : Mem) (a v : ℕ) → v < 256 → store m a v a ≡ v
unfolding store
store_self m a v h = ground arith

pub store-other : (m : Mem) (a v x : ℕ) → x ≢ a → store m a v x ≡ m x
unfolding store
store-other m a v x h = ground arith
