-- ===== src/Serial/Buffer.antt =====
-- The array of characters that a number is written to: the swaps turn it round, and what is sent is
-- its contents from the last one written to the first.
use native.Mathlib.Decide.{ℕ_discrete}
use terracotta_os.Prelude.{
  ◌⊎◌, inl, inr, ==_iff, ℕ, zero, suc, ◌+◌, ◌-◌, ◌*◌, ◌/◌, ◌<◌, ◌≤◌, ◌≡◌, ◌≢◌, refl, ap, ◌∙◌, List,
  [], ◌∷◌, false, none, some, leb, ==_ne, arith,
}
use terracotta_os.Serial.{Chars, set_char, swap_loop, reverse_chars, emit_loop, terminate, ◌>>=◌}

-- The first `n` characters, last one first.
abbrev pub down : Chars → ℕ → List ℕ
down buf zero = []
down buf (suc n) = buf n ∷ down buf n

-- One swap.
abbrev swapped : ℕ → ℕ → Chars → Chars
swapped i j buf = set_char (set_char buf j (buf (i - j - 1))) (i - j - 1) (buf j)

swapped-inside : (i j k : ℕ) (buf : Chars) → k ≢ j → k ≢ i - j - 1 → swapped i j buf k ≡ buf k
unfolding set_char
swapped-inside i j k buf p q = rw (==_ne k (i - j - 1) q, ==_ne k j p)

swapped-ends :
    (i j k : ℕ) (buf : Chars)
    → 2 * j + 2 ≤ i
    → (k ≡ j) ⊎ (k ≡ i - j - 1)
    → swapped i j buf k ≡ buf (i - 1 - k)
unfolding set_char
swapped-ends i j k buf h (inl e) =
    let back : i - j - 1 ≡ i - 1 - k = omega arith in
    rw (==_ne k (i - j - 1) (omega arith), (==_iff k j).1 e, back)
swapped-ends i j k buf h (inr e) =
    let back : j ≡ i - 1 - k = omega arith in rw ((==_iff k (i - j - 1)).1 e) (ap buf back)

-- The swaps from `j` on turn the characters from `j` to `i - j` round and leave the others.
swap_loop_lem :
    (i j left k : ℕ) (buf : Chars)
    → j + left ≡ i / 2
    → (j ≤ k → k < i - j → swap_loop i j left buf k ≡ buf (i - 1 - k))
      × ((k < j) ⊎ (i - j ≤ k) → swap_loop i j left buf k ≡ buf k)
unfolding swap_loop
swap_loop_lem i j zero k buf h = (λ lo hi. ap buf (omega arith), λ out. refl)
swap_loop_lem i j (suc left) k buf h =
    let (inside, outside) = swap_loop_lem i (j + 1) left k (swapped i j buf) (omega arith) in
    (
      λ lo hi. elim (ℕ_discrete k j) [
        | yes e ↦ outside (inl (omega arith)) ∙ swapped-ends i j k buf (omega arith) (inl e)
        | no p ↦ elim (ℕ_discrete k (i - j - 1)) [
          | yes e ↦ outside (inr (omega arith)) ∙ swapped-ends i j k buf (omega arith) (inr e)
          | no q ↦
              inside (omega arith) (omega arith)
              ∙ swapped-inside i j (i - 1 - k) buf (omega arith) (omega arith)
        ]
      ],
      λ out. outside (omega arith) ∙ swapped-inside i j k buf (omega arith) (omega arith),
    )

-- What is sent of an array that holds the `i` characters of `buf` in reverse, from place `j` on.
emit_loop_lem :
    (buf b : Chars) (i m j left : ℕ)
    → j + m ≡ i
    → m < left
    → ((k : ℕ) → k < i → b k ≡ buf (i - 1 - k))
    → b i ≡ 0
    → ((k : ℕ) → k < i → buf k ≢ 0)
    → emit_loop left j b ≡ some (down buf m)
unfolding emit_loop
emit_loop_lem buf b i m j zero e lt turned end ne = absurd (omega arith)
emit_loop_lem buf b i zero j (suc left) e lt turned end ne =
    let at : j ≡ i = omega arith in rw (at, end)
emit_loop_lem buf b i (suc m) j (suc left) e lt turned end ne =
    let here : b j ≡ buf m = turned j (omega arith) ∙ ap buf (omega arith) in
    rw (
      here,
      ==_ne (buf m) 0 (ne m (omega arith)),
      emit_loop_lem buf b i m (j + 1) left (omega arith) (omega arith) turned end ne,
    )

-- Turning, ending and sending `i` characters that are not 0 sends them last one first.
pub terminate_lem :
    (size i : ℕ) (buf : Chars)
    → i < size
    → ((k : ℕ) → k < i → buf k ≢ 0)
    → (terminate size buf i >>= emit_loop size 0) ≡ some (down buf i)
unfolding terminate reverse_chars set_char
terminate_lem size i buf lt ne =
    let room : leb size i ≡ false = ground arith in
    rw room (
      emit_loop_lem buf (set_char (reverse_chars i buf) i 0) i i 0 size (omega arith) lt
        (λ k small. ground (arith, swap_loop_lem i 0 (i / 2) k buf)) (ground arith) ne)

-- The end of an array that is full or overfull cannot be written.
pub terminate-full : (size i : ℕ) (buf : Chars) → size ≤ i → terminate size buf i ≡ none
unfolding terminate
terminate-full size i buf h = ground arith

-- The same if the end is set before the characters are turned round.
pub reverse_chars-ended :
    (size i : ℕ) (buf : Chars)
    → i < size
    → ((k : ℕ) → k < i → buf k ≢ 0)
    → emit_loop size 0 (reverse_chars i (set_char buf i 0)) ≡ some (down buf i)
unfolding reverse_chars set_char
reverse_chars-ended size i buf lt ne =
    emit_loop_lem buf (reverse_chars i (set_char buf i 0)) i i 0 size (omega arith) lt
      (λ k small. ground (arith, swap_loop_lem i 0 (i / 2) k (set_char buf i 0)))
      (ground (arith, swap_loop_lem i 0 (i / 2) i (set_char buf i 0))) ne
