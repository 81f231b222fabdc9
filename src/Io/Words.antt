-- ===== src/Io/Words.antt =====
-- ASNU/src/KiSimple.c: `insw` and `outsw`, which move words between a port and memory, and `KiPanic`.
-- The direction flag is clear, and a count is not negative.
pub mod Moved
use terracotta_os.Prelude.{
  ℕ, zero, suc, ◌+◌, ◌*◌, ◌/◌, List, [], ◌∷◌, Bool, true, false, ◌==◌, if◌then◌else◌,
}
use terracotta_os.Memory.{Mem, Ptr, store}
use terracotta_os.Io.{Bus}

module _ (b : Bus) (port : ℕ) where
  open b use {Devices, outw, inw}

  -- `insw`, by the instruction `rep insw`: every word goes to the next two bytes.
  pub insw : Ptr → (count : ℕ) → Mem → Devices → Mem × Devices
  unfolding store
  insw addr zero m d = (m, d)
  insw addr (suc count) m d =
      let (word, d) = inw port d in
      insw (addr + 2) count (store (store m addr word) (addr + 1) (word / 256)) d

  -- `outsw`, by the instruction `rep outsw`
  pub outsw : Ptr → (count : ℕ) → Mem → Devices → Devices
  outsw addr zero m d = d
  outsw addr (suc count) m d = outsw (addr + 2) count m (outw port (m addr + 256 * m (addr + 1)) d)

-- What `KiPanic` prints: the text in red or as it is, and the end of the line.
pub data PanicLine : Type 0 where
  red : List ℕ → PanicLine
  plain : List ℕ → PanicLine
  line_feed : PanicLine

pub data PanicEnd : Type 0 where
  halts : PanicEnd
  comes_back : PanicEnd

-- `KiPanic`
pub ki_panic : List ℕ → (halt : ℕ) → List PanicLine × PanicEnd
ki_panic string halt = (
  (if halt == 1 then red string else plain string) ∷ line_feed ∷ [],
  if halt == 0 then comes_back else halts,
)
