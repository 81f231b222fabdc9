-- ===== src/Serial/Digits.antt =====
-- The loop that takes the digits of a number: what it writes reads back as the number, and how far it
-- writes.
use native.Mathlib.Decide.{ℕ_discrete}
use native.Mathlib.Nat.{
  div-lt_iff_lt-mul, pow-suc, pow-zero, le-div_iff_mul-le, mul-pos, div-add-mod', mod-lt,
}
use terracotta_os.Prelude.{
  length, ℕ, zero, suc, ◌+◌, ◌*◌, ◌/◌, ◌%◌, ◌^◌, ◌<◌, ◌≤◌, ◌≡◌, ◌≢◌, refl, sym, ap, ◌∙◌, ◌⊎◌, inl,
  inr, List, [], ◌∷◌, false, none, some, leb, ◌==◌, ==_ne, ==_iff, Bool-cases, if◌then◌else◌, arith,
}
use terracotta_os.Serial.{Chars, set_char, digits_loop}
use terracotta_os.Serial.Buffer.{down}

pow_positive : (b r : ℕ) → 0 < b → 0 < b ^ r
pow_positive b zero h = omega (arith, pow-zero b)
pow_positive b (suc r) h = rw (pow-suc b r) (mul-pos (pow_positive b r h) h)

-- A digit system: every digit is a character other than 0 and reads back as itself.
pub record IsDigits (base : ℕ) (digit value_of : ℕ → ℕ) : Type 0 where
  pub several : 2 ≤ base
  pub reads : (d : ℕ) → d < base → value_of (digit d) ≡ d
  pub non_zero : (d : ℕ) → d < base → digit d ≢ 0

-- The number that a text stands for, behind one that has been read.
unfoldable pub read_from : (base : ℕ) → (ℕ → ℕ) → ℕ → List ℕ → ℕ
read_from base value_of acc [] = acc
read_from base value_of acc (c ∷ text) = read_from base value_of (acc * base + value_of c) text

-- The digits of a number in front of a text.
unfoldable pub digits_onto : (base : ℕ) → (ℕ → ℕ) → (fuel value : ℕ) → List ℕ → List ℕ
digits_onto base digit zero value text = text
digits_onto base digit (suc fuel) value text =
    let longer = digits_onto base digit fuel (value / base) (digit (value % base) ∷ text) in
    if value == 0 then text else longer

-- Zeros in front of a text.
unfoldable pub zeros_onto : ℕ → List ℕ → List ℕ
zeros_onto zero text = text
zeros_onto (suc n) text = zeros_onto n (b'0' ∷ text)

abbrev pub AllSet : Chars → ℕ → Type 0
AllSet buf i = (k : ℕ) → k < i → buf k ≢ 0

pub down-set_char : (buf : Chars) (i c n : ℕ) → n ≤ i → down (set_char buf i c) n ≡ down buf n
unfolding set_char
down-set_char buf i c zero h = refl
down-set_char buf i c (suc n) h =
    rw (==_ne n i (omega arith), down-set_char buf i c n (omega arith))

pub set_char_self : (buf : Chars) (i c : ℕ) → set_char buf i c i ≡ c
unfolding set_char
set_char_self buf i c = ground arith

pub set_char-AllSet :
    (buf : Chars) (i c : ℕ) → AllSet buf i → c ≢ 0 → AllSet (set_char buf i c) (i + 1)
unfolding set_char
set_char-AllSet buf i c all ne k lt = ground (arith, all k)

-- How `value` may be read off what the loop leaves.
pub record Written (base : ℕ) (value_of : ℕ → ℕ) (value : ℕ) (buf : Chars) (i : ℕ) (buf' : Chars)
    (i' : ℕ) : Type 0 where
  pub grows : i ≤ i'
  pub reads_back :
      read_from base value_of 0 (down buf' i') ≡ read_from base value_of value (down buf i)
  pub all_set : AllSet buf i → AllSet buf' i'

module _ {base : ℕ} {digit value_of : ℕ → ℕ} (ds : IsDigits base digit value_of) where
  digit_step :
      (v : ℕ) (buf : Chars) (i : ℕ)
      → read_from base value_of (v / base) (down (set_char buf i (digit (v % base))) (i + 1))
        ≡ read_from base value_of v (down buf i)
  unfolding read_from
  digit_step v buf i =
      let two = ds.several in
      let e : i + 1 ≡ suc i = omega arith in
      rw (
        e,
        set_char_self buf i (digit (v % base)),
        down-set_char buf i (digit (v % base)) i (omega arith),
        ds.reads (v % base) (mod-lt v (omega arith)),
        div-add-mod' v base,
      )

  shorter : (v r : ℕ) → v < base ^ suc r → v / base < base ^ r
  shorter v r h =
      let two = ds.several in (div-lt_iff_lt-mul (omega arith)).1 (rw (← pow-suc base r) h)

  -- One round, and then the others.
  round-Written :
      (v : ℕ) (buf : Chars) (i : ℕ) (buf' : Chars) (i' : ℕ)
      → Written base value_of (v / base) (set_char buf i (digit (v % base))) (i + 1) buf' i'
      → Written base value_of v buf i buf' i'
  round-Written v buf i buf' i' w =
      let two = ds.several in
      let g = w.grows in
      record {
        grows = omega arith;
        reads_back = w.reads_back ∙ digit_step v buf i;
        all_set = λ all. w.all_set (
            set_char-AllSet buf i (digit (v % base)) all
              (ds.non_zero (v % base) (mod-lt v (omega arith))));
      }

  digits_onto-zero :
      (fuel v : ℕ) (text : List ℕ) → v ≡ 0 → digits_onto base digit fuel v text ≡ text
  unfolding digits_onto
  digits_onto-zero zero v text e = refl
  digits_onto-zero (suc fuel) v text e = rw ((==_iff v 0).1 e)

  digits_onto_step :
      (fuel v : ℕ) (buf : Chars) (i : ℕ)
      → v ≢ 0
      → digits_onto base digit fuel (v / base) (down (set_char buf i (digit (v % base))) (i + 1))
        ≡ digits_onto base digit (suc fuel) v (down buf i)
  unfolding digits_onto
  digits_onto_step fuel v buf i ne =
      let e : i + 1 ≡ suc i = omega arith in
      rw (
        e,
        set_char_self buf i (digit (v % base)),
        down-set_char buf i (digit (v % base)) i (omega arith),
        ==_ne v 0 ne,
      )

  digits_loop-zero :
      (size fuel v : ℕ) (buf : Chars) (i : ℕ)
      → v ≡ 0
      → digits_loop size base digit fuel v buf i ≡ some (buf, i)
  unfolding digits_loop
  digits_loop-zero size zero v buf i e = refl
  digits_loop-zero size (suc fuel) v buf i e = rw ((==_iff v 0).1 e)

  stopped : (v : ℕ) (buf : Chars) (i : ℕ) → v ≡ 0 → Written base value_of v buf i buf i
  stopped v buf i e = record {
    grows = omega arith;
    reads_back = ap (λ x. read_from base value_of x (down buf i)) (omega arith);
    all_set = λ all. all;
  }

  -- A value below `base ^ r` needs `r` places at most.
  pub digits_loop_lem :
      (size fuel r v : ℕ) (buf : Chars) (i : ℕ)
      → r ≤ fuel
      → v < base ^ r
      → i + r ≤ size
      → (buf' : Chars) × (i' : ℕ) × (digits_loop size base digit fuel v buf i ≡ some (buf', i'))
        × (i' ≤ i + r)
        × (down buf' i' ≡ digits_onto base digit fuel v (down buf i))
        × Written base value_of v buf i buf' i'
  unfolding digits_loop read_from
  digits_loop_lem size fuel zero v buf i enough small room =
      let one = pow-zero base in
      (
        buf,
        i,
        digits_loop-zero size fuel v buf i (omega arith),
        omega arith,
        sym (digits_onto-zero fuel v (down buf i) (omega arith)),
        stopped v buf i (omega arith),
      )
  digits_loop_lem size zero (suc r) v buf i enough small room = absurd (omega arith)
  digits_loop_lem size (suc fuel) (suc r) v buf i enough small room = elim (ℕ_discrete v 0) [
    | yes e ↦ (
      buf,
      i,
      digits_loop-zero size (suc fuel) v buf i e,
      omega arith,
      sym (digits_onto-zero (suc fuel) v (down buf i) e),
      stopped v buf i e,
    )
    | no ne ↦
        let more : leb size i ≡ false = ground arith in
        let (buf', i', run, le, spells, w) =
          digits_loop_lem size fuel r (v / base) (set_char buf i (digit (v % base))) (i + 1)
            (omega arith) (shorter v r small) (omega arith) in
        (
          buf',
          i',
          rw (==_ne v 0 ne, more) run,
          omega arith,
          spells ∙ digits_onto_step fuel v buf i ne,
          round-Written v buf i buf' i' w,
        )
  ]

  -- `r` digits or more.
  abbrev pub AtLeast : ℕ → ℕ → Type 0
  AtLeast v zero = Unit
  AtLeast v (suc r) = base ^ r ≤ v

  AtLeast-ne : (v r : ℕ) → AtLeast v (suc r) → v ≢ 0
  AtLeast-ne v r h e =
      let two = ds.several in let p = pow_positive base r (omega arith) in omega arith

  AtLeast-div : (v r : ℕ) → AtLeast v (suc r) → AtLeast (v / base) r
  AtLeast-div v zero h = tt
  AtLeast-div v (suc r) h =
      let two = ds.several in (le-div_iff_mul-le (omega arith)).1 (rw (← pow-suc base r) h)

  -- How the loop goes on from a value other than 0, if the rest of it takes `r'` places or more.
  long_round :
      (size fuel r v : ℕ) (buf : Chars) (i r' : ℕ)
      → v ≢ 0
      → r ≤ r' + 1
      → let next = set_char buf i (digit (v % base)) in
        (digits_loop size base digit fuel (v / base) next (i + 1) ≡ none)
          ⊎ ((buf' : Chars) × (i' : ℕ) × (digits_loop size base digit fuel (v / base) next (i + 1)
                ≡ some (buf', i'))
              × (i + 1 + r' ≤ i'))
        → (digits_loop size base digit (suc fuel) v buf i ≡ none)
          ⊎ ((buf' : Chars) × (i' : ℕ) × (digits_loop size base digit (suc fuel) v buf i
                ≡ some (buf', i'))
              × (i + r ≤ i'))
  unfolding digits_loop
  long_round size fuel r v buf i r' ne le rest = elim (Bool-cases (leb size i)) [
    | inl full ↦ inl (rw (==_ne v 0 ne, full))
    | inr more ↦ elim rest [
      | inl out ↦ inl (rw (==_ne v 0 ne, more) out)
      | inr (buf', i', run, far) ↦ inr (buf', i', rw (==_ne v 0 ne, more) run, omega arith)
    ]
  ]

  -- A value of `r` digits or more takes `r` places or more, or does not fit.
  pub digits_loop_long :
      (size fuel r v : ℕ) (buf : Chars) (i : ℕ)
      → r ≤ fuel
      → AtLeast v r
      → (digits_loop size base digit fuel v buf i ≡ none)
        ⊎ ((buf' : Chars) × (i' : ℕ) × (digits_loop size base digit fuel v buf i ≡ some (buf', i'))
            × (i + r ≤ i'))
  unfolding digits_loop
  digits_loop_long size zero zero v buf i enough large = inr (buf, i, refl, omega arith)
  digits_loop_long size zero (suc r) v buf i enough large = absurd (omega arith)
  digits_loop_long size (suc fuel) zero v buf i enough large = elim (ℕ_discrete v 0) [
    | yes e ↦ inr (buf, i, digits_loop-zero size (suc fuel) v buf i e, omega arith)
    | no ne ↦
        long_round size fuel zero v buf i zero ne (omega arith)
          (digits_loop_long size fuel zero (v / base) _ (i + 1) (omega arith) tt)
  ]
  digits_loop_long size (suc fuel) (suc r) v buf i enough large =
      long_round size fuel (suc r) v buf i r (AtLeast-ne v r large) (omega arith)
        (digits_loop_long size fuel r (v / base) _ (i + 1) (omega arith) (AtLeast-div v r large))

pub length-down : (buf : Chars) (n : ℕ) → length (down buf n) ≡ n
length-down buf zero = refl
length-down buf (suc n) = ap suc (length-down buf n)
