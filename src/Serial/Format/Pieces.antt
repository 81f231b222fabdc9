-- ===== src/Serial/Format/Pieces.antt =====
-- The loop of `serial_fwrite` over a format that is made of literal text and directives.
use native.Mathlib.Nat.{mod-lt}
use mathlib.Core.List.{append-nil, append_assoc}
use terracotta_os.Prelude.{
  ℕ, ◌-◌, ◌%◌, ◌^◌, ◌<◌, ◌≡◌, refl, sym, ap, ◌∙◌, List, [], ◌∷◌, ◌++◌, true, false, Option, some,
  ltb, ==_ne, arith, Bool-cases, inl, inr,
}
use terracotta_os.Prelude.Int.{ℤ}
use terracotta_os.Serial.{Chars, ◌>>=◌}
use terracotta_os.Serial.Numbers.{serial_write_octal-text, serial_write_hex-text}
use terracotta_os.Serial.Signed.{IsInt, IsCached, i2s_text, serial_i2s_lem, serial_write_uint-text}
use terracotta_os.Serial.Long.{IsLong, write_long_signed_lem, write_long_unsigned_lem}
use terracotta_os.Serial.Format.{
  Arg, word, plain, Log, to_signed, send, serial_write_char, take_word, take_pointer, write_i2s,
  write_word, write_int, write_text, directive, long_directive, step, format_loop,
}
use terracotta_os.Serial.Format.Spec.{
  Piece, literal, int, unsigned, octal, hex, character, string, hex_address, long_unsigned,
  long_signed, percent_sign, format_of, args_onto, text_of, IsLiteral, IsPiece, AllPieces,
  formats_of, all_args, texts_of, Wrote,
}

wrapped : (w m : ℕ) → 0 < m → w % m < m
wrapped w m h = mod-lt w h

to_signed-IsInt : (w : ℕ) → IsInt (to_signed 32 w)
unfolding to_signed
to_signed-IsInt w = elim (Bool-cases (ltb (w % 2 ^ 32) (2 ^ (32 - 1)))) [
  | inl e ↦ rw e (ground arith)
  | inr e ↦ rw e (ground (arith, wrapped w (2 ^ 32) (omega arith)))
]

to_signed-IsLong : (w : ℕ) → IsLong (to_signed 64 w)
unfolding to_signed
to_signed-IsLong w = elim (Bool-cases (ltb (w % 2 ^ 64) (2 ^ (64 - 1)))) [
  | inl e ↦ rw e (ground arith)
  | inr e ↦ rw e (ground (arith, wrapped w (2 ^ 64) (omega arith)))
]

write_word_lem :
    (show : ℕ → Option (List ℕ)) (w : ℕ) (text : List ℕ) (more : List Arg) (log : Log)
    → log.args ≡ word w ∷ more
    → show w ≡ some text
    → write_word show log ≡ some (plain, send text (record log { args = more }))
unfolding write_word take_word
write_word_lem show w text more log given shows = rw (given, shows) refl

-- The number in front of the arguments is written, and the directive is over.
word_piece :
    (stack : Chars) (show : ℕ → Option (List ℕ)) (w : ℕ) (text : List ℕ) (more : List Arg)
    (log : Log) (rest : List ℕ)
    → IsCached log.i2s
    → log.args ≡ word w ∷ more
    → show w ≡ some text
    → (log' : Log) × ((write_word show log >>= λ (mode, log). format_loop stack rest mode log)
        ≡ format_loop stack rest plain log')
      × Wrote text more log log'
word_piece stack show w text more log rest ok given shows = (
  send text (record log { args = more }),
  rw (write_word_lem show w text more log given shows) refl,
  record { sends = refl; leaves = refl; same_id = refl; cached = ok },
)

pub write_i2s_lem :
    (v : ℤ) (log : Log)
    → IsInt v
    → IsCached log.i2s
    → (log' : Log) × (write_i2s v log ≡ some log') × Wrote (i2s_text v) log.args log log'
unfolding write_i2s
write_i2s_lem v log small ok =
    let (st, run, shows, ok') = serial_i2s_lem v log.i2s small ok in
    (
      send (i2s_text v) (record log { i2s = st }),
      rw (run, shows) refl,
      record { sends = refl; leaves = refl; same_id = refl; cached = ok' },
    )

literal_piece :
    (stack : Chars) (text more : List ℕ) (log : Log)
    → IsLiteral text
    → format_loop stack (text ++ more) plain log ≡ format_loop stack more plain (send text log)
unfolding format_loop step serial_write_char
literal_piece stack [] more log lit =
    ap (λ l. format_loop stack more plain (record log { sent = l })) (sym (append-nil log.sent))
literal_piece stack (c ∷ text) more log lit = rw (==_ne c b'%' lit.0) (
    literal_piece stack text more (send (c ∷ []) log) lit.1
    ∙ ap (λ l. format_loop stack more plain (record log { sent = l }))
        (append_assoc log.sent (c ∷ []) text))

-- What a part of the format does, whatever follows it.
piece_lem :
    (stack : Chars) (p : Piece) (more : List Arg) (rest : List ℕ) (log : Log)
    → IsPiece p
    → IsCached log.i2s
    → log.args ≡ args_onto p more
    → (log' : Log) × (format_loop stack (format_of p ++ rest) plain log
        ≡ format_loop stack rest plain log')
      × Wrote (text_of p) more log log'
unfolding format_loop step directive long_directive format_of args_onto text_of write_int write_text
    serial_write_char take_word take_pointer
piece_lem stack (literal text) more rest log lit ok given = (
  send text log,
  literal_piece stack text rest log lit,
  record { sends = refl; leaves = given; same_id = refl; cached = ok },
)
piece_lem stack (int w) more rest log is ok given =
    let (log', run, wrote) =
      write_i2s_lem (to_signed 32 w) (record log { args = more }) (to_signed-IsInt w) ok in
    (
      log',
      rw (given, run) refl,
      record {
        sends = wrote.sends;
        leaves = wrote.leaves;
        same_id = wrote.same_id;
        cached = wrote.cached;
      },
    )
piece_lem stack (unsigned w) more rest log is ok given =
    word_piece stack _ w _ more log rest ok given
      (serial_write_uint-text stack (w % 2 ^ 32) (wrapped w (2 ^ 32) (omega arith)))
piece_lem stack (octal w) more rest log is ok given =
    word_piece stack _ w _ more log rest ok given
      (serial_write_octal-text stack (w % 2 ^ 32) (wrapped w (2 ^ 32) (omega arith)))
piece_lem stack (hex true w) more rest log is ok given =
    word_piece stack _ w _ more log rest ok given (
      serial_write_hex-text stack (w % 2 ^ 32) true
        (omega (arith, wrapped w (2 ^ 32) (omega arith))))
piece_lem stack (hex false w) more rest log is ok given =
    word_piece stack _ w _ more log rest ok given (
      serial_write_hex-text stack (w % 2 ^ 32) false
        (omega (arith, wrapped w (2 ^ 32) (omega arith))))
piece_lem stack (character w) more rest log is ok given =
    word_piece stack _ w _ more log rest ok given refl
piece_lem stack (string text) more rest log is ok given = (
  send text (record log { args = more }),
  rw given refl,
  record { sends = refl; leaves = refl; same_id = refl; cached = ok },
)
piece_lem stack (hex_address w) more rest log is ok given =
    word_piece stack _ w _ more log rest ok given
      (serial_write_hex-text stack (w % 2 ^ 64) false is)
piece_lem stack (long_unsigned w) more rest log is ok given =
    word_piece stack _ w _ more log rest ok given
      (write_long_unsigned_lem stack (w % 2 ^ 64) (wrapped w (2 ^ 64) (omega arith)))
piece_lem stack (long_signed w) more rest log is ok given =
    word_piece stack _ w _ more log rest ok given
      (write_long_signed_lem stack (to_signed 64 w) (to_signed-IsLong w))
piece_lem stack percent_sign more rest log is ok given = (
  send (b'%' ∷ []) log,
  refl,
  record { sends = refl; leaves = given; same_id = refl; cached = ok },
)

-- All the parts, in order.
pub pieces_lem :
    (stack : Chars) (ps : List Piece) (log : Log)
    → AllPieces ps
    → IsCached log.i2s
    → log.args ≡ all_args ps
    → (log' : Log) × (format_loop stack (formats_of ps) plain log ≡ some log')
      × Wrote (texts_of ps) [] log log'
unfolding format_loop
pieces_lem stack [] log is ok given = (
  log,
  refl,
  record { sends = sym (append-nil log.sent); leaves = given; same_id = refl; cached = ok },
)
pieces_lem stack (p ∷ ps) log (is_p, is) ok given =
    let (log', run, w) = piece_lem stack p (all_args ps) (formats_of ps) log is_p ok given in
    let (log'', run', w') = pieces_lem stack ps log' is w.cached w.leaves in
    (
      log'',
      run ∙ run',
      record {
        sends =
            w'.sends
            ∙ ap (λ l. l ++ texts_of ps) w.sends
            ∙ append_assoc log.sent (text_of p) (texts_of ps);
        leaves = w'.leaves;
        same_id = w'.same_id ∙ w.same_id;
        cached = w'.cached;
      },
    )
