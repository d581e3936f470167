-- ===== src/Tokens/Words.antt =====
-- lib/token.c: names and numbers are read to their last character.
use osdb_dcdb.Prelude.{
  ℕ, suc, ◌+◌, ◌≤◌, ◌<◌, ◌≡◌, refl, Bool, true, false, some, List, [], ◌∷◌, ◌++◌, arith, ◌∙◌, ap,
  sym, length, leb, Bool-cases, ◌⊎◌, inl, inr,
}
use osdb_dcdb.Tokens.{
  TokenType, Mode, ParseItem, next, go, give, outside, identifier, numeric, ident, number, put,
  put_first, char_of, parse_error, too_long,
}
use osdb_dcdb.Tokens.Chars.{is_name, is_alnum, is_alpha, is_digit, is_white, starts_name}
use osdb_dcdb.Tokens.Runs.{front, at_text, next-at_text, run-step, run-give}
use osdb_dcdb.Tokens.Steps.{step, step_identifier, step_numeric, step_outside, grow, run}

abbrev pub All : (ℕ → Bool) → List ℕ → Type 0
All f [] = Unit
All f (x ∷ xs) = (f x ≡ true) × All f xs

-- The characters of a word join the token, the latest first.
abbrev pub join : List ℕ → List ℕ → List ℕ
join [] id = id
join (c ∷ cs) id = join cs (c ∷ id)

abbrev pub with_word : List ℕ → ParseItem → ParseItem
with_word [] pi = pi
with_word (c ∷ w) pi = with_word w (put c pi)

pub with_word-join :
    (w : List ℕ) (pi : ParseItem)
    → with_word w pi ≡ record pi { id = join w pi.id; idx = pi.idx + length w }
with_word-join [] pi = ap (λ i. record pi { idx = i }) (omega arith)
with_word-join (c ∷ w) pi =
    with_word-join w (put c pi)
    ∙ ap (λ i. record pi { id = join w (c ∷ pi.id); idx = i }) (omega arith)

-- A state that adds the characters of a class to the token, and gives it at the first other one.
pub record ReadsWord (m : Mode) (t : TokenType) (f : ℕ → Bool) : Type 0 where
  pub plain : (b : ℕ) → f b ≡ true → char_of b ≡ b
  pub grows :
      (pi : ParseItem) → f pi.ch ≡ true → pi.idx < 1024 → step m pi ≡ go m (next (put pi.ch pi))
  pub ends :
      (pi : ParseItem) → f pi.ch ≡ false → step m pi ≡ give t (put 0 (record pi { keep = true }))
  pub refuses :
      (pi : ParseItem)
      → f pi.ch ≡ true
      → 1024 ≤ pi.idx
      → step m pi ≡ give parse_error (record pi { parse_error = too_long })

identifier-ReadsWord : ReadsWord identifier ident is_name
unfolding is_name is_alnum is_alpha is_digit step step_identifier grow
identifier-ReadsWord = record {
  plain = λ b h. ground arith;
  grows = λ pi h lt. ground arith;
  ends = λ pi h. rw h;
  refuses = λ pi h le. ground arith;
}

numeric-ReadsWord : ReadsWord numeric number is_alnum
unfolding is_alnum is_alpha is_digit step step_numeric grow
numeric-ReadsWord = record {
  plain = λ b h. ground arith;
  grows = λ pi h lt. ground arith;
  ends = λ pi h. rw h;
  refuses = λ pi h le. ground arith;
}

module _ {m : Mode} {t : TokenType} {f : ℕ → Bool} (reads : ReadsWord m t f) where
  run-grows :
      (n c : ℕ) (cs : List ℕ) (pi : ParseItem)
      → f c ≡ true
      → pi.idx < 1024
      → run (suc n) m (at_text (c ∷ cs) pi) ≡ run n m (at_text cs (put c pi))
  run-grows n c cs pi h lt =
      run-step n m m _ _ (reads.grows (at_text (c ∷ cs) pi) (rw (reads.plain c h) h) lt)
      ∙ ap (run n m) (
          ap (λ b. next (put b (at_text (c ∷ cs) pi))) (reads.plain c h)
          ∙ next-at_text cs (put c (at_text (c ∷ cs) pi)))

  run-rest :
      (w ds : List ℕ) (pi : ParseItem)
      → All f w
      → f (front ds) ≡ false
      → pi.idx + length w ≤ 1024
      → run (suc (length w)) m (at_text (w ++ ds) pi)
        ≡ some (t, put 0 (record (at_text ds (with_word w pi)) { keep = true }))
  run-rest [] ds pi a h le = run-give 0 m t _ _ (reads.ends (at_text ds pi) h)
  run-rest (c ∷ w) ds pi a h le =
      run-grows (suc (length w)) c (w ++ ds) pi (a.0) (omega arith)
      ∙ run-rest w ds (put c pi) a.1 h (omega arith)

  run-too_long :
      (w ds : List ℕ) (pi : ParseItem)
      → All f w
      → pi.idx ≤ 1024
      → 1024 < pi.idx + length w
      → (q : ParseItem) × (run (suc (length w)) m (at_text (w ++ ds) pi) ≡ some (parse_error, q))
        × (q.parse_error ≡ too_long)
  run-too_long [] ds pi a le lt = absurd (omega arith)
  run-too_long (c ∷ w) ds pi a le lt =
      let here = at_text (c ∷ w ++ ds) pi in
      let is_f = rw (sym (reads.plain c a.0)) at (a.0) in
      elim (Bool-cases (leb 1024 pi.idx)) [
        | inl full ↦ (
          record here { parse_error = too_long },
          run-give (suc (length w)) m parse_error _ _ (reads.refuses here is_f (ground arith)),
          refl,
        )
        | inr room ↦
            let (q, r, e) = run-too_long w ds (put c pi) a.1 (ground arith) (omega arith) in
            (q, run-grows (suc (length w)) c (w ++ ds) pi (a.0) (ground arith) ∙ r, e)
      ]

  module _ (c : ℕ) (w ds : List ℕ) (pi : ParseItem) (p : char_of c ≡ c)
      (starts : step outside (at_text (c ∷ w ++ ds) pi)
        ≡ go m (next (put_first (char_of c) (at_text (c ∷ w ++ ds) pi))))
      (a : All f w) where
    -- The first character leads from OUTSIDE to the state that reads the rest of the word.
    run-start :
        (n : ℕ)
        → run (suc n) outside (at_text (c ∷ w ++ ds) pi)
          ≡ run n m (at_text (w ++ ds) (put_first c pi))
    run-start n =
        run-step n outside m _ _ starts
        ∙ ap (run n m) (
            ap (λ b. next (put_first b (at_text (c ∷ w ++ ds) pi))) p
            ∙ next-at_text (w ++ ds) (put_first c (at_text (c ∷ w ++ ds) pi)))

    run-word :
        f (front ds) ≡ false
        → length w < 1024
        → run (suc (suc (length w))) outside (at_text (c ∷ w ++ ds) pi)
          ≡ some (
            t,
            record (at_text ds pi) { id = 0 ∷ join w (c ∷ []); idx = length w + 2; keep = true },
          )
    run-word h lt =
        run-start (suc (length w))
        ∙ run-rest w ds (put_first c pi) a h (omega arith)
        ∙ ap (λ q. some (t, put 0 (record (at_text ds q) { keep = true })))
            (with_word-join w (put_first c pi))
        ∙ ap
            (λ i.
              some (t, record (at_text ds pi) { id = 0 ∷ join w (c ∷ []); idx = i; keep = true }))
            (omega arith)

    run-long_word :
        1024 ≤ length w
        → (q : ParseItem) × (run (suc (suc (length w))) outside (at_text (c ∷ w ++ ds) pi)
            ≡ some (parse_error, q))
          × (q.parse_error ≡ too_long)
    run-long_word le =
        let (q, r, e) = run-too_long w ds (put_first c pi) a (omega arith) (omega arith) in
        (q, run-start (suc (length w)) ∙ r, e)

step-name_start :
    (pi : ParseItem)
    → starts_name pi.ch ≡ true
    → step outside pi ≡ go identifier (next (put_first pi.ch pi))
unfolding step step_outside starts_name is_white is_alpha
step-name_start pi h = ground arith

step-digit :
    (pi : ParseItem)
    → is_digit pi.ch ≡ true
    → step outside pi ≡ go numeric (next (put_first pi.ch pi))
unfolding step step_outside starts_name is_white is_alpha is_digit
step-digit pi h = ground arith

char_of-starts : (c : ℕ) → starts_name c ≡ true → char_of c ≡ c
unfolding starts_name is_alpha
char_of-starts c h = ground arith

char_of-digit : (c : ℕ) → is_digit c ≡ true → char_of c ≡ c
unfolding is_digit
char_of-digit c h = ground arith

-- A name of at most 1024 characters is read to its last character: the token is the word with a
-- NUL behind it, the character behind the word is kept for the next token, and the machine takes
-- one step more than the word has characters.
pub run-ident :
    (c : ℕ) (w ds : List ℕ) (pi : ParseItem)
    → starts_name c ≡ true
    → All is_name w
    → is_name (front ds) ≡ false
    → length w < 1024
    → run (suc (suc (length w))) outside (at_text (c ∷ w ++ ds) pi)
      ≡ some (
        ident,
        record (at_text ds pi) { id = 0 ∷ join w (c ∷ []); idx = length w + 2; keep = true },
      )
run-ident c w ds pi s a =
    run-word identifier-ReadsWord c w ds pi (char_of-starts c s)
      (step-name_start (at_text (c ∷ w ++ ds) pi) (rw (char_of-starts c s) s)) a

-- A digit and the letters and digits behind it, at most 1024 characters, are one number, which
-- is given in the same way.
pub run-number :
    (c : ℕ) (w ds : List ℕ) (pi : ParseItem)
    → is_digit c ≡ true
    → All is_alnum w
    → is_alnum (front ds) ≡ false
    → length w < 1024
    → run (suc (suc (length w))) outside (at_text (c ∷ w ++ ds) pi)
      ≡ some (
        number,
        record (at_text ds pi) { id = 0 ∷ join w (c ∷ []); idx = length w + 2; keep = true },
      )
run-number c w ds pi s a =
    run-word numeric-ReadsWord c w ds pi (char_of-digit c s)
      (step-digit (at_text (c ∷ w ++ ds) pi) (rw (char_of-digit c s) s)) a

-- A name or a number of more than 1024 characters is refused.
pub run-long :
    (c : ℕ) (w ds : List ℕ) (pi : ParseItem)
    → ((starts_name c ≡ true) × All is_name w) ⊎ ((is_digit c ≡ true) × All is_alnum w)
    → 1024 ≤ length w
    → (q : ParseItem) × (run (suc (suc (length w))) outside (at_text (c ∷ w ++ ds) pi)
        ≡ some (parse_error, q))
      × (q.parse_error ≡ too_long)
run-long c w ds pi (inl (s, a)) =
    run-long_word identifier-ReadsWord c w ds pi (char_of-starts c s)
      (step-name_start (at_text (c ∷ w ++ ds) pi) (rw (char_of-starts c s) s)) a
run-long c w ds pi (inr (s, a)) =
    run-long_word numeric-ReadsWord c w ds pi (char_of-digit c s)
      (step-digit (at_text (c ∷ w ++ ds) pi) (rw (char_of-digit c s) s)) a
