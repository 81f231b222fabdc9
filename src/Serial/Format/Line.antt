-- ===== src/Serial/Format/Line.antt =====
-- The line that `serial_fwrite` sends.
use mathlib.Core.List.{append_assoc}
use terracotta_os.Prelude.{
  ℕ, ◌+◌, ◌^◌, ◌≡◌, refl, ◌∙◌, List, [], ◌∷◌, ◌++◌, some, ◌==◌, arith, Bool-cases, inl, inr,
}
use terracotta_os.Prelude.Int.{ℤ, pos, negsuc}
use terracotta_os.Serial.{Chars}
use terracotta_os.Serial.Signed.{IsInt, IsCached, i2s_text}
use terracotta_os.Serial.Format.{Log, send, serial_write_char, next_int, serial_fwrite}
use terracotta_os.Serial.Format.Spec.{Piece, AllPieces, formats_of, all_args, texts_of}
use terracotta_os.Serial.Format.Pieces.{write_i2s_lem, pieces_lem}

-- A line of the log.
abbrev pub line : ℤ → List ℕ → List ℕ
line id text = b'[' ∷ i2s_text id ++ (b']' ∷ b' ' ∷ text) ++ (b'\n' ∷ [])

-- For a format made of literal text without `%` and of the directives, with the arguments that
-- these take and `%p` of at most fifteen digits, whatever the local arrays hold at first: if the
-- log's number is an `int` and the text that `serial_i2s` keeps is that of its last value,
-- `serial_fwrite` sends one line, `[`, the number of the line, `] `, the texts of the parts in
-- order and the end of the line; it counts the line, and the text kept is again that of the last
-- value.
pub serial_fwrite_lem :
    (stack : Chars) (ps : List Piece) (log : Log)
    → AllPieces ps
    → IsCached log.i2s
    → IsInt log.serial_log_id
    → (log' : Log) × (serial_fwrite stack (formats_of ps) (all_args ps) log ≡ some log')
      × (log'.sent ≡ log.sent ++ line log.serial_log_id (texts_of ps))
      × (log'.serial_log_id ≡ next_int log.serial_log_id)
      × IsCached log'.i2s
unfolding serial_fwrite serial_write_char
serial_fwrite_lem stack ps log is ok id =
    let start =
      send (b'[' ∷ [])
        (record log { args = all_args ps; serial_log_id = next_int log.serial_log_id }) in
    let (log₁, run₁, w₁) = write_i2s_lem log.serial_log_id start id ok in
    let (log₂, run₂, w₂) =
      pieces_lem stack ps (send (b' ' ∷ []) (send (b']' ∷ []) log₁)) is w₁.cached w₁.leaves in
    (
      send (b'\n' ∷ []) log₂,
      rw (run₁, run₂) refl,
      rw (w₂.sends, w₁.sends) (simp append_assoc),
      w₂.same_id ∙ w₁.same_id,
      w₂.cached,
    )

-- The next number is a number of the log again.
pub next_int-IsInt : (v : ℤ) → IsInt v → IsInt (next_int v)
unfolding next_int
next_int-IsInt (pos n) small = elim (Bool-cases (n + 1 == 2 ^ 31)) [
  | inl e ↦ rw e (omega arith)
  | inr e ↦ rw e (ground arith)
]
next_int-IsInt (negsuc n) small = elim (Bool-cases (n == 0)) [
  | inl e ↦ rw e (omega arith)
  | inr e ↦ rw e (omega arith)
]
