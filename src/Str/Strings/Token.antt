-- ===== src/Str/Strings/Token.antt =====
-- `strtok` takes the next token of a text.
use mathlib.Core.Path.{subst}
use mathlib.Core.List.{append-nil}
use terracotta_os.Prelude.{
  ℕ, zero, suc, ◌+◌, ◌%◌, ◌<◌, ◌≡◌, ◌≢◌, ◌⊎◌, inl, inr, refl, sym, ap, ◌∙◌, List, [], ◌∷◌, ◌++◌,
  length, length-append, some, ==_ne, arith, ◌==◌, if◌then◌else◌,
}
use terracotta_os.Memory.{Mem, Ptr, null, IsBytes, store}
use terracotta_os.Str.Strings.{strchr, skip_delimiters, token_end, cut_token, strtok}
use terracotta_os.Str.Strings.Texts.{IsText, store_self, store-other}
use terracotta_os.Str.Strings.Copy.{store-IsText}
use terracotta_os.Str.Strings.Search.{Lacks, strchr_lem}

-- Every character of a text is a delimiter, or none is.
abbrev pub AllIn : List ℕ → List ℕ → Type 0
AllIn ds [] = Unit
AllIn ds (x ∷ xs) = (¬ Lacks x ds) × AllIn ds xs

abbrev pub NoneIn : List ℕ → List ℕ → Type 0
NoneIn ds [] = Unit
NoneIn ds (x ∷ xs) = Lacks x ds × NoneIn ds xs

pub present : (c : ℕ) (us vs : List ℕ) → ¬ Lacks c (us ++ (c ∷ vs))
present c [] vs (ne, _) = ne refl
present c (u ∷ us) vs (_, rest) = present c us vs rest

-- What `strchr(delim, c)` tells of a character that is not 0.
is_delimiter :
    (fuel : ℕ) (m : Mem) (delim c : ℕ) (ds : List ℕ)
    → IsText m delim ds
    → length ds < fuel
    → delim ≢ null
    → c < 256
    → ((strchr fuel m delim c ≡ some null) × Lacks c ds)
      ⊎ ((d : Ptr) × (strchr fuel m delim c ≡ some d) × (d ≢ null) × (¬ Lacks c ds))
is_delimiter fuel m delim c ds is enough ne byte =
    let small : c % 256 ≡ c = omega arith in
    elim (strchr_lem fuel m delim c ds is enough) [
      | inl (run, lacks) ↦ inl (run, subst (λ z. Lacks z ds) small lacks)
      | inr (us, vs, run, split) ↦ inr (
        delim + length us,
        run,
        λ e. ne (omega arith),
        subst (λ z. ¬ Lacks z ds) small
            (subst (λ l. ¬ Lacks (c % 256) l) (sym split.parts) (present (c % 256) us vs)),
      )
    ]

-- What is left of a text behind the delimiters, and behind a token.
abbrev pub Outside : List ℕ → List ℕ → Type 0
Outside ds [] = Unit
Outside ds (x ∷ xs) = Lacks x ds

abbrev pub Inside : List ℕ → List ℕ → Type 0
Inside ds [] = Unit
Inside ds (x ∷ xs) = ¬ Lacks x ds

module _ {m : Mem} {delim : Ptr} (ds : List ℕ) (bytes : IsBytes m) (is_ds : IsText m delim ds)
    (ne : delim ≢ null) where
  skip_lem :
      (fuel : ℕ) (p : Ptr) (xs : List ℕ)
      → IsText m p xs
      → length xs + length ds < fuel
      → (us : List ℕ) × (rest : List ℕ) × (xs ≡ us ++ rest)
        × AllIn ds us
        × Outside ds rest
        × (skip_delimiters fuel m p delim ≡ some (p + length us))
        × IsText m (p + length us) rest
  unfolding skip_delimiters
  skip_lem zero p xs is enough = absurd (omega arith)
  skip_lem (suc fuel) p [] is enough = (
    [],
    [],
    refl,
    tt,
    tt,
    rw is (ap some (omega arith)),
    subst (λ q. IsText m q []) (omega arith) is,
  )
  skip_lem (suc fuel) p (x ∷ xs) (here, nz, is) enough =
      elim (is_delimiter (suc fuel) m delim x ds is_ds (omega arith) ne (omega (arith, bytes p))) [
        | inl (run, lacks) ↦ (
          [],
          x ∷ xs,
          refl,
          tt,
          lacks,
          rw (here, ==_ne x 0 nz, run) (ap some (omega arith)),
          subst (λ q. IsText m q (x ∷ xs)) (omega arith) (here, nz, is),
        )
        | inr (d, run, found, inside) ↦
            let (us, rest, parts, all, out, run', is') =
              skip_lem fuel (p + 1) xs is (omega arith) in
            (
              x ∷ us,
              rest,
              ap (λ l. x ∷ l) parts,
              (inside, all),
              out,
              rw (here, ==_ne x 0 nz, run, ==_ne d null found) (run' ∙ ap some (omega arith)),
              subst (λ q. IsText m q rest) (omega arith) is',
            )
      ]

  token_end_lem :
      (fuel : ℕ) (p : Ptr) (xs : List ℕ)
      → IsText m p xs
      → length xs + length ds < fuel
      → (ts : List ℕ) × (rest : List ℕ) × (xs ≡ ts ++ rest)
        × NoneIn ds ts
        × Inside ds rest
        × (token_end fuel m p delim ≡ some (p + length ts))
        × IsText m (p + length ts) rest
  unfolding token_end
  token_end_lem zero p xs is enough = absurd (omega arith)
  token_end_lem (suc fuel) p [] is enough = (
    [],
    [],
    refl,
    tt,
    tt,
    rw is (ap some (omega arith)),
    subst (λ q. IsText m q []) (omega arith) is,
  )
  token_end_lem (suc fuel) p (x ∷ xs) (here, nz, is) enough =
      elim (is_delimiter (suc fuel) m delim x ds is_ds (omega arith) ne (omega (arith, bytes p))) [
        | inr (d, run, found, inside) ↦ (
          [],
          x ∷ xs,
          refl,
          tt,
          inside,
          rw (here, ==_ne x 0 nz, run, ==_ne d null found) (ap some (omega arith)),
          subst (λ q. IsText m q (x ∷ xs)) (omega arith) (here, nz, is),
        )
        | inl (run, lacks) ↦
            let (ts, rest, parts, all, inside, run', is') =
              token_end_lem fuel (p + 1) xs is (omega arith) in
            (
              x ∷ ts,
              rest,
              ap (λ l. x ∷ l) parts,
              (lacks, all),
              inside,
              rw (here, ==_ne x 0 nz, run) (run' ∙ ap some (omega arith)),
              subst (λ q. IsText m q rest) (omega arith) is',
            )
      ]

-- A text that is cut where `ts` ends.
cut-IsText :
    (m : Mem) (p a : Ptr) (ts rest : List ℕ)
    → a ≡ p + length ts
    → IsText m p (ts ++ rest)
    → IsText (store m a 0) p ts
cut-IsText m p a [] rest at is =
    let e : a ≡ p = omega arith in rw e (store_self m p 0 (omega arith))
cut-IsText m p a (t ∷ ts) rest at (here, ne, is) =
    (store-other m a 0 p (omega arith) ∙ here, ne, cut-IsText m (p + 1) a ts rest (omega arith) is)

-- What a call of `strtok` on the text `xs` at `p` answers: nothing but delimiters, the last token, or a
-- token with a delimiter behind it, which becomes its end.
pub data Tokens (m : Mem) (p : Ptr) (ds xs : List ℕ) : Mem → Ptr → Ptr → Type 0 where
  no_token : AllIn ds xs → Tokens m p ds xs m null null
  last_token :
      (us ts : List ℕ)
      → xs ≡ us ++ ts
      → AllIn ds us
      → ts ≢ []
      → NoneIn ds ts
      → IsText m (p + length us) ts
      → Tokens m p ds xs m null (p + length us)
  token :
      (us ts rest : List ℕ) (d : ℕ)
      → xs ≡ us ++ (ts ++ (d ∷ rest))
      → AllIn ds us
      → ts ≢ []
      → NoneIn ds ts
      → (¬ Lacks d ds)
      → IsText (store m (p + length us + length ts) 0) (p + length us) ts
      → IsText (store m (p + length us + length ts) 0) (p + length us + length ts + 1) rest
      → Tokens m p ds xs
          (store m (p + length us + length ts) 0)
          (p + length us + length ts + 1)
          (p + length us)

-- What `cut_token` makes of a token and what is left behind it.
cut_at :
    (fuel : ℕ) (m : Mem) (p delim : Ptr) (ds us : List ℕ) (c : ℕ) (cs xs ts rest : List ℕ)
    → xs ≡ us ++ (c ∷ cs)
    → AllIn ds us
    → Lacks c ds
    → IsText m (p + length us) (c ∷ cs)
    → c ∷ cs ≡ ts ++ rest
    → NoneIn ds ts
    → Inside ds rest
    → token_end fuel m (p + length us) delim ≡ some (p + length us + length ts)
    → IsText m (p + length us + length ts) rest
    → (m' : Mem) × (next : Ptr) × (start : Ptr) × (cut_token fuel m (p + length us) delim
        ≡ some (m', next, start))
      × Tokens m p ds xs m' next start
unfolding cut_token
cut_at fuel m p delim ds us c cs xs [] [] parts all out is parts' in_token inside run is' =
    absurd cc
cut_at fuel m p delim ds us c cs xs [] (r ∷ rest) parts all out is parts' in_token inside run is' =
    let e : c ≡ r = cc in absurd (inside (subst (λ z. Lacks z ds) e out))
cut_at fuel m p delim ds us c cs xs (t ∷ ts) [] parts all out is parts' in_token inside run is' =
    let whole : c ∷ cs ≡ t ∷ ts = parts' ∙ append-nil (t ∷ ts) in
    (
      m,
      null,
      p + length us,
      rw (run, is') refl,
      last_token us (t ∷ ts) (parts ∙ ap (λ l. us ++ l) whole) all (λ e. cc) in_token
          (subst (λ l. IsText m (p + length us) l) whole is),
    )
cut_at fuel m p delim ds us c cs xs (t ∷ ts) (d ∷ rest) parts all out is parts' in_token inside run
      (here, nz, is') =
    let a = p + length us + length (t ∷ ts) in
    (
      store m a 0,
      a + 1,
      p + length us,
      rw (run, here, ==_ne d 0 nz) refl,
      token us (t ∷ ts) rest d (parts ∙ ap (λ l. us ++ l) parts') all (λ e. cc) in_token inside
          (cut-IsText m (p + length us) a (t ∷ ts) (d ∷ rest) refl
            (subst (λ l. IsText m (p + length us) l) parts' is))
          (store-IsText m a 0 (a + 1) rest (omega arith) is'),
    )

-- What `strtok` does behind the delimiters, which may be all there is.
behind_delimiters :
    (fuel : ℕ) (m : Mem) (p delim : Ptr) (ds us xs rest : List ℕ)
    → IsBytes m
    → IsText m delim ds
    → delim ≢ null
    → xs ≡ us ++ rest
    → AllIn ds us
    → Outside ds rest
    → IsText m (p + length us) rest
    → length rest + length ds < fuel
    → (m' : Mem) × (next : Ptr) × (start : Ptr) × ((if m (p + length us) == 0
          then some (m, null, null)
          else cut_token fuel m (p + length us) delim)
        ≡ some (m', next, start))
      × Tokens m p ds xs m' next start
behind_delimiters fuel m p delim ds us xs [] bytes is_ds ne parts all out is enough =
    (m, null, null, rw is refl, no_token (subst (AllIn ds) (sym (parts ∙ append-nil us)) all))
behind_delimiters fuel m p delim ds us xs (c ∷ cs) bytes is_ds ne parts all out is enough =
    let (ts, rest, parts', in_token, inside, run, is') =
      token_end_lem ds bytes is_ds ne fuel (p + length us) (c ∷ cs) is enough in
    let (m', next, start, run', what) =
      cut_at fuel m p delim ds us c cs xs ts rest parts all out is parts' in_token inside run is' in
    (m', next, start, rw (is.0, ==_ne c 0 is.1) run', what)

-- In a memory of bytes, on a text at an address other than `NULL`, which is given or left by the
-- last call, with delimiters at an address other than `NULL` and fuel for both texts, `strtok`
-- returns what `Tokens` says: nothing if the text has only delimiters; or else the longest run of
-- other characters behind the leading delimiters, as a text of its own, with `next` at `NULL` if
-- it ends the text, and otherwise at the rest behind the delimiter, which has become the end of
-- the token.
pub strtok_lem :
    (fuel : ℕ) (m : Mem) (next str delim p : Ptr) (ds xs : List ℕ)
    → IsBytes m
    → IsText m delim ds
    → delim ≢ null
    → (if str == null then next else str) ≡ p
    → p ≢ null
    → IsText m p xs
    → length xs + length ds < fuel
    → (m' : Mem) × (next' : Ptr) × (start : Ptr) × (strtok fuel m next str delim
        ≡ some (m', next', start))
      × Tokens m p ds xs m' next' start
unfolding strtok
strtok_lem fuel m next str delim p ds xs bytes is_ds ne at nz is enough =
    let (us, rest, parts, all, out, run, is') = skip_lem ds bytes is_ds ne fuel p xs is enough in
    rw (at, ==_ne p null nz, run)
      (behind_delimiters fuel m p delim ds us xs rest bytes is_ds ne parts all out is'
        (omega (arith, ap length parts, length-append us rest)))
