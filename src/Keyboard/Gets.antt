-- ===== src/Keyboard/Gets.antt =====
-- ASNU/src/Drivers/PS2Keyboard/driver.c: `kbd_gets`, which reads a line. The escape codes that show and
-- hide the cursor are left out. A write in front of the line answers nothing.
pub mod Edit
pub mod Line
use terracotta_os.Prelude.{
  ℕ, zero, suc, ◌+◌, ◌-◌, List, Option, none, some, Bool, ◌||◌, ltb, leb, ◌==◌, if◌then◌else◌,
}
use terracotta_os.Prelude.Options.{◌>>=◌}
use terracotta_os.Keyboard.{Keyboard, put, kbd_getc}

-- A character that does not end the line: the line and `read` behind it.
pub gets_char : (ℕ → ℕ) → ℕ → ℕ → Option ((ℕ → ℕ) × ℕ)
gets_char out read c =
    if c == 8
    then if read == 0 then none else some (put out (read - 1) 0, read - 1)
    else some (put out read c, read + 1)

-- `while (read < maxlen - 1) ...`
pub gets_loop :
    (fuel maxlen : ℕ) → List ℕ → Keyboard → (ℕ → ℕ) → ℕ → Option ((ℕ → ℕ) × ℕ × List ℕ × Keyboard)
gets_loop zero maxlen codes k out read = none
gets_loop (suc fuel) maxlen codes k out read =
    let on = (do
      (c, codes, k) ← kbd_getc codes k
      let ends = some (out, read, codes, k)
      let goes_on = gets_char out read c >>= λ (out, read). gets_loop fuel maxlen codes k out read
      if c == 10 || c == 0 then ends else goes_on) in
    if ltb (read + 1) maxlen then on else some (out, read, codes, k)

-- `for (int i = 0; out[i] != 0; i++) tmprd++;` from `i` on, in an array with `left` characters from there
pub count_loop : (left i : ℕ) → (ℕ → ℕ) → Option ℕ
count_loop zero i out = none
count_loop (suc left) i out =
    let rest = count_loop left (i + 1) out in if out i == 0 then some i else rest

-- The first loop: the array is cleared.
pub clear_out : ℕ → (ℕ → ℕ) → ℕ → ℕ
clear_out maxlen out i = if ltb i maxlen then 0 else out i

pub kbd_gets :
    (fuel maxlen : ℕ) → List ℕ → Keyboard → (ℕ → ℕ) → Option (ℕ × (ℕ → ℕ) × List ℕ × Keyboard)
kbd_gets fuel maxlen codes k out = do
  (out, read, codes, k) ← gets_loop fuel maxlen codes k (clear_out maxlen out) 0
  tmprd ← count_loop maxlen 0 out
  some (tmprd, out, codes, k)
