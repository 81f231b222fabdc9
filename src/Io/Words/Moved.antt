-- ===== src/Io/Words/Moved.antt =====
-- `insw` and `outsw`: which words they move where.
use terracotta_os.Prelude.{
  ℕ, zero, suc, ◌+◌, ◌-◌, ◌*◌, ◌/◌, ◌%◌, ◌≡◌, refl, ◌∙◌, inl, inr, true, false, ◌==◌, if◌then◌else◌,
  arith, Bool-cases,
}
use terracotta_os.Memory.{Mem, store, within}
use terracotta_os.Io.{Bus}
use terracotta_os.Io.Words.{insw}

module _ (b : Bus) (port : ℕ) where
  -- The devices after `n` reads of the port, and what the next one answers.
  unfoldable pub after_reads : ℕ → b.Devices → b.Devices
  after_reads zero d = d
  after_reads (suc n) d = after_reads n (b.inw port d).1

  abbrev pub answer : ℕ → b.Devices → ℕ
  answer n d = (b.inw port (after_reads n d)).0

  -- The byte of a word at an even or odd place.
  abbrev pub byte_of : ℕ → ℕ → ℕ
  byte_of word k = if k % 2 == 0 then word % 256 else word / 256 % 256

  -- `insw` reads the port `count` times, and puts the words into the `2 * count` bytes from `addr` on,
  -- each with its low byte first. No other byte changes.
  pub insw_lem :
      (addr count : ℕ)
      → (m : Mem) → (d : b.Devices) → (x : ℕ)
      → ((insw b port addr count m d).1 ≡ after_reads count d)
        × ((insw b port addr count m d).0 x ≡ (
            if within addr (2 * count) x
            then byte_of (answer ((x - addr) / 2) d) (x - addr)
            else m x))
  unfolding insw after_reads
  insw_lem addr zero m d x = (refl, ground arith)
  insw_lem addr (suc count) m d x =
      let word = (b.inw port d).0 in
      let d' = (b.inw port d).1 in
      let m' : Mem = store (store m addr word) (addr + 1) (word / 256) in
      let (ends, later) = insw_lem (addr + 2) count m' d' x in
      (
        ends,
        elim (Bool-cases (within addr 2 x)) [
          | inl first ↦
              let half : (x - addr) / 2 ≡ 0 = ground arith in rw half (ground (arith, later))
          | inr other ↦ elim (Bool-cases (within (addr + 2) (2 * count) x)) [
            | inl behind ↦
                let half : (x - addr) / 2 ≡ suc ((x - (addr + 2)) / 2) = ground arith in
                let parity : (x - addr) % 2 ≡ (x - (addr + 2)) % 2 = ground arith in
                let inside : within addr (2 * suc count) x ≡ true = ground arith in
                later ∙ rw (behind, inside, half, parity) refl
            | inr outside ↦
                let out : within addr (2 * suc count) x ≡ false = ground arith in
                later ∙ rw (outside, out) (ground arith)
          ]
        ],
      )
