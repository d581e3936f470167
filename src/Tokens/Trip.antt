-- ===== src/Tokens/Trip.antt =====
-- lib/token.c: words that are written with blanks between them are read back.
use osdb_dcdb.Prelude.{
  ℕ, suc, ◌+◌, ◌≤◌, ◌<◌, ◌≡◌, refl, true, false, some, List, [], ◌∷◌, ◌++◌, arith, ◌==◌, length,
  ◌∙◌, ap,
}
use mathlib.Core.List.{append_assoc}
use osdb_dcdb.Tokens
use osdb_dcdb.Tokens.{
  ParseItem, TokenType, go, give, next, outside, end_of_file, ident, number, put_first,
}
use osdb_dcdb.Tokens.Chars.{eof, is_white, starts_name, is_digit, is_alpha, is_name, is_alnum}
use osdb_dcdb.Tokens.Files.{fresh, init_parser, FileResult, parse_file, after_token, hand_on}
use osdb_dcdb.Tokens.Progress.{entry, get_token-entry, get_token-enough}
use osdb_dcdb.Tokens.Runs.{front, at_text, next-at_text, run-step, run-give}
use osdb_dcdb.Tokens.Steps.{step, step_outside, outside_switch, step_end_of_file, run}
use osdb_dcdb.Tokens.Words.{All, join, run-ident, run-number}

-- The words that a program may write: names and numbers.
pub data Word : Type 0 where
  name digits : ℕ → List ℕ → Word

abbrev pub IsWord : Word → Type 0
IsWord (name c w) = (starts_name c ≡ true) × All is_name w × (length w < 1024)
IsWord (digits c w) = (is_digit c ≡ true) × All is_alnum w × (length w < 1024)

abbrev pub AreWords : List Word → Type 0
AreWords [] = Unit
AreWords (w ∷ ws) = IsWord w × AreWords ws

abbrev pub letters : Word → List ℕ
letters (name c w) = c ∷ w
letters (digits c w) = c ∷ w

-- Every word with a blank before it, and the end of the text behind them.
abbrev pub written : List Word → List ℕ → List ℕ
written [] end = end
written (w ∷ ws) end = b' ' ∷ (letters w ++ written ws end)

-- The token for a word, with the buffer from its end to its start.
abbrev pub token_of : Word → TokenType × List ℕ
token_of (name c w) = (ident, 0 ∷ join w (c ∷ []))
token_of (digits c w) = (number, 0 ∷ join w (c ∷ []))

abbrev pub tokens_of : List Word → List (TokenType × List ℕ)
tokens_of [] = []
tokens_of (w ∷ ws) = token_of w ∷ tokens_of ws

step-blank :
    (cs : List ℕ) (pi : ParseItem)
    → step outside (at_text (b' ' ∷ cs) pi) ≡ go outside (at_text cs pi)
unfolding step step_outside is_white
step-blank cs pi = ap (go outside) (next-at_text cs (at_text (b' ' ∷ cs) pi))

-- What stands behind a word does not belong to it.
front-written :
    (ws : List Word) (end : List ℕ)
    → (front end == eof) ≡ true
    → (is_name (front (written ws end)) ≡ false) × (is_alnum (front (written ws end)) ≡ false)
unfolding is_name is_alnum is_alpha is_digit
front-written [] end h = ground arith
front-written (w ∷ ws) end h = (refl, refl)

after-word :
    (w : Word) (ts : List (TokenType × List ℕ)) (q : ParseItem)
    → q.id ≡ (token_of w).1
    → after_token (some (ts, Tokens.tok_true)) ((token_of w).0) q
      ≡ some (token_of w ∷ ts, Tokens.tok_true)
after-word (name c w) ts q e = ap {B = FileResult} (λ i. some ((ident, i) ∷ ts, Tokens.tok_true)) e
after-word (digits c w) ts q e =
    ap {B = FileResult} (λ i. some ((number, i) ∷ ts, Tokens.tok_true)) e

abbrev Gives : Word → List ℕ → List ℕ → ParseItem → Type 0
Gives w cs ds pi =
    (n : ℕ) × (q : ParseItem) × (run n outside (at_text cs pi) ≡ some ((token_of w).0, q))
    × (q.id ≡ (token_of w).1)
    × (entry q ≡ at_text ds (record q { keep = false }))

run-word :
    (w : Word) (ws : List Word) (end : List ℕ) (pi : ParseItem)
    → IsWord w
    → (front end == eof) ≡ true
    → Gives w (written (w ∷ ws) end) (written ws end) pi
run-word (name c w) ws end pi h e =
    let ds = written ws end in
    (
      suc (suc (suc (length w))),
      record (at_text ds pi) { id = 0 ∷ join w (c ∷ []); idx = length w + 2; keep = true },
      run-step (suc (suc (length w))) outside outside _ _ (step-blank (c ∷ w ++ ds) pi)
          ∙ run-ident c w ds pi h.0 h.1 ((front-written ws end e).0) h.2,
      refl,
      refl,
    )
run-word (digits c w) ws end pi h e =
    let ds = written ws end in
    (
      suc (suc (suc (length w))),
      record (at_text ds pi) { id = 0 ∷ join w (c ∷ []); idx = length w + 2; keep = true },
      run-step (suc (suc (length w))) outside outside _ _ (step-blank (c ∷ w ++ ds) pi)
          ∙ run-number c w ds pi h.0 h.1 ((front-written ws end e).1) h.2,
      refl,
      refl,
    )

step-end : (pi : ParseItem) → (pi.ch == eof) ≡ true → step outside pi ≡ go end_of_file (next pi)
unfolding step step_outside outside_switch is_white starts_name is_digit is_alpha
step-end pi h = ground arith

step-end_of_file :
    (pi : ParseItem)
    → step end_of_file pi
      ≡ give Tokens.done (record pi { id = 0 ∷ b')' ∷ b'F' ∷ b'O' ∷ b'E' ∷ b'(' ∷ [] })
unfolding step step_end_of_file
step-end_of_file pi = refl

-- At the end of the text.
run-end :
    (end : List ℕ) (pi : ParseItem)
    → (front end == eof) ≡ true
    → (q : ParseItem) × (run 2 outside (at_text end pi) ≡ some (Tokens.done, q))
run-end end pi e =
    let p = next (at_text end pi) in
    (
      _,
      run-step 1 outside end_of_file _ _ (step-end (at_text end pi) e)
          ∙ run-give 0 end_of_file Tokens.done p _ (step-end_of_file p),
    )

parse_file-token :
    (n k : ℕ) (pi q : ParseItem) (t : TokenType)
    → run k outside (entry pi) ≡ some (t, q)
    → parse_file (suc n) pi ≡ after_token (parse_file n q) t q
unfolding parse_file
parse_file-token n k pi q t e =
    ap (hand_on (parse_file n)) (get_token-enough k pi (t, q) (get_token-entry k pi ∙ e))

parse_file-words :
    (ws : List Word) (end : List ℕ) (p pi : ParseItem)
    → AreWords ws
    → (front end == eof) ≡ true
    → entry pi ≡ at_text (written ws end) p
    → parse_file (suc (length ws)) pi ≡ some (tokens_of ws, Tokens.tok_true)
parse_file-words [] end p pi a e h =
    let (q, r) = run-end end p e in parse_file-token 0 2 pi q Tokens.done (ap (run 2 outside) h ∙ r)
parse_file-words (w ∷ ws) end p pi a e h =
    let (n, q, r, i, later) = run-word w ws end p (a.0) e in
    parse_file-token (suc (length ws)) n pi q ((token_of w).0) (ap (run n outside) h ∙ r)
    ∙ ap (λ l. after_token l ((token_of w).0) q)
        (parse_file-words ws end (record q { keep = false }) q a.1 e later)
    ∙ after-word w (tokens_of ws) q i

written-append : (ws : List Word) → written ws [] ++ 0 ∷ [] ≡ written ws (0 ∷ [])
written-append [] = refl
written-append (w ∷ ws) =
    ap {B = List ℕ} (λ l. b' ' ∷ l)
      (append_assoc (letters w) (written ws []) (0 ∷ [])
        ∙ ap (λ l. letters w ++ l) (written-append ws))

-- A file of names and numbers, each of at most 1024 characters and with a blank before it: the
-- loop over the file hands on these words, in order and with their kinds, and succeeds.
pub parse_file-written :
    (ws : List Word) (mem : ℕ)
    → AreWords ws
    → 4 ≤ mem
    → (pi : ParseItem) × (init_parser mem (some (some (written ws [])))
        ≡ (some pi, Tokens.no_error))
      × (parse_file (suc (length ws)) pi ≡ some (tokens_of ws, Tokens.tok_true))
unfolding init_parser
parse_file-written ws mem a le = (
  fresh (written ws [] ++ 0 ∷ []),
  ground arith,
  parse_file-words ws (0 ∷ []) (fresh []) (fresh (written ws [] ++ 0 ∷ [])) a refl (
      next-at_text (written ws [] ++ 0 ∷ []) (fresh [])
      ∙ ap (λ cs. at_text cs (fresh [])) (written-append ws)),
)
