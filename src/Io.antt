-- ===== src/Io.antt =====
-- The port input and output of ASNU/src/KiSimple.c, over a bus whose devices are a parameter, and the
-- pure address conversions of that file.
pub mod Words
use terracotta_os.Prelude.{ℕ, ◌^◌, ◌<◌, ◌≡◌, arith}
use terracotta_os.Word.{add64, sub64}

-- What the `in` and `out` instructions do to the devices. The instruction set gives the functions;
-- what the devices answer is theirs.
pub record Bus : Type 1 where
  pub Devices : Type 0
  pub outb : ℕ → ℕ → Devices → Devices
  pub inb : ℕ → Devices → ℕ × Devices
  pub outl : ℕ → ℕ → Devices → Devices
  pub inl : ℕ → Devices → ℕ × Devices
  pub outw : ℕ → ℕ → Devices → Devices
  pub inw : ℕ → Devices → ℕ × Devices

-- `IOWait`
pub io_wait : (b : Bus) → b.Devices → b.Devices
io_wait b d = b.outb 0x80 0 d

-- The start of the higher half, where all physical memory is mapped.
abbrev pub hhdm : ℕ
hhdm = 0xffff_8000_0000_0000

-- `PA2VA` and `PA2VAu64`
unfoldable pub pa2va : ℕ → ℕ
pa2va a = add64 a hhdm

-- `VA2PA` and `VA2PAu64`
unfoldable pub va2pa : ℕ → ℕ
va2pa a = sub64 a hhdm

-- `PA2VA` and `VA2PA` undo each other on 64-bit addresses, also where they wrap.
pub pa2va-va2pa : (a : ℕ) → a < 2 ^ 64 → (pa2va (va2pa a) ≡ a) × (va2pa (pa2va a) ≡ a)
unfolding pa2va va2pa
pa2va-va2pa a h = (omega arith, omega arith)
