-- ===== src/Serial/Padding.antt =====
-- The zeros that fill a number up to four characters.
use native.Mathlib.Nat.{zero-mul}
use terracotta_os.Prelude.{
  max, ℕ, zero, suc, ◌+◌, ◌-◌, ◌<◌, ◌≤◌, ◌≡◌, refl, ap, ◌∙◌, inl, inr, ltb, Bool-cases, arith,
}
use terracotta_os.Serial.{Chars, set_char, pad_loop}
use terracotta_os.Serial.Buffer.{down}
use terracotta_os.Serial.Digits.{
  read_from, Written, zeros_onto, set_char_self, set_char-AllSet, down-set_char,
}

end_of_padding :
    (buf : Chars) (i : ℕ) → 4 ≤ i → down buf (max i 4) ≡ zeros_onto (4 - i) (down buf i)
unfolding zeros_onto
end_of_padding buf i h =
    let top : max i 4 ≡ i = omega arith in
    let none_left : 4 - i ≡ 0 = omega arith in rw (top, none_left)

round_of_padding :
    (buf : Chars) (i : ℕ)
    → i < 4
    → zeros_onto (4 - (i + 1)) (down (set_char buf i b'0') (i + 1))
      ≡ zeros_onto (4 - i) (down buf i)
unfolding zeros_onto
round_of_padding buf i h =
    let e : i + 1 ≡ suc i = omega arith in
    let left : 4 - i ≡ suc (4 - (i + 1)) = omega arith in
    rw (left, e, set_char_self buf i b'0', down-set_char buf i b'0' i (omega arith))

-- Zeros in front do not change what is read, and bring the length to 4.
pub pad_loop_lem :
    (value_of : ℕ → ℕ) (base left : ℕ) (buf : Chars) (i : ℕ)
    → value_of b'0' ≡ 0
    → 4 ≤ i + left
    → Written base value_of 0 buf i (pad_loop left buf i).0 (pad_loop left buf i).1
      × ((pad_loop left buf i).1 ≡ max i 4)
      × (down (pad_loop left buf i).0 (max i 4) ≡ zeros_onto (4 - i) (down buf i))
unfolding pad_loop read_from
pad_loop_lem value_of base zero buf i z enough = (
  record { grows = omega arith; reads_back = refl; all_set = λ all. all },
  omega arith,
  end_of_padding buf i (omega arith),
)
pad_loop_lem value_of base (suc left) buf i z enough = elim (Bool-cases (ltb i 4)) [
  | inl short ↦
      let (w, e, d) =
        pad_loop_lem value_of base left (set_char buf i b'0') (i + 1) z (omega arith) in
      let lt : i < 4 = ground arith in
      let g = w.grows in
      let one : i + 1 ≡ suc i = omega arith in
      let front : read_from base value_of 0 (down (set_char buf i b'0') (i + 1))
          ≡ read_from base value_of 0 (down buf i) =
        rw (one, set_char_self buf i b'0', down-set_char buf i b'0' i (omega arith), z)
          (ap (λ x. read_from base value_of x (down buf i)) (omega (arith, zero-mul base))) in
      rw short (
        record {
          grows = omega arith;
          reads_back = w.reads_back ∙ front;
          all_set = λ all. w.all_set (set_char-AllSet buf i b'0' all (omega arith));
        },
        omega arith,
        ap (down (pad_loop left (set_char buf i b'0') (i + 1)).0) (omega arith)
            ∙ d
            ∙ round_of_padding buf i lt,
      )
  | inr long ↦ rw long (
    record { grows = omega arith; reads_back = refl; all_set = λ all. all },
    ground arith,
    end_of_padding buf i (ground arith),
  )
]
