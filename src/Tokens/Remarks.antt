-- ===== src/Tokens/Remarks.antt =====
-- lib/token.c: comments, white space and the counting of lines.
use osdb_dcdb.Prelude.{
  ℕ, suc, ◌≡◌, refl, Bool, true, false, ◌&&◌, not, none, List, [], ◌∷◌, ◌++◌, arith, ◌==◌,
  if◌then◌else◌, ◌∙◌, ap, ==_iff, Bool-cases, ◌⊎◌, inl, inr,
}
use osdb_dcdb.Tokens.{
  ParseItem, go, count_line, outside, await_asterisk, remark, await_slash, cpp_remark,
}
use osdb_dcdb.Tokens.Chars.{is_white, starts_name, is_digit, is_alpha}
use osdb_dcdb.Tokens.Runs.{front, at_text, next-at_text, run-step, run-less}
use osdb_dcdb.Tokens.Progress.{run-in_open_remark}
use osdb_dcdb.Tokens.Steps.{
  step, step_outside, outside_switch, step_await_asterisk, step_remark, step_await_slash,
  step_cpp_remark, run,
}

-- A text in which no comment is closed.
abbrev pub open_text : List ℕ → Bool
open_text [] = true
open_text (c ∷ cs) = not (c == b'*' && front cs == b'/') && open_text cs

-- The line feeds of a text are counted, in 32 bits.
abbrev pub count_lines : List ℕ → ParseItem → ParseItem
count_lines [] pi = pi
count_lines (c ∷ cs) pi = count_lines cs (if c == b'\n' then count_line pi else pi)

-- The steps for the text of a comment and its end, and `n` more.
abbrev pub remark_steps : List ℕ → ℕ → ℕ
remark_steps [] n = suc (suc n)
remark_steps (c ∷ cs) n =
    let later = remark_steps cs n in if c == b'*' then suc (suc later) else suc later

abbrev pub line_steps : List ℕ → ℕ → ℕ
line_steps [] n = n
line_steps (c ∷ cs) n = suc (line_steps cs n)

abbrev pub counted : ℕ → ParseItem → ParseItem
counted c pi = if c == b'\n' then count_line pi else pi

step_remark-other :
    (c : ℕ) (cs : List ℕ) (pi : ParseItem)
    → (c == b'*') ≡ false
    → step remark (at_text (c ∷ cs) pi) ≡ go remark (at_text cs (counted c pi))
unfolding step step_remark
step_remark-other c cs pi h =
    let here = at_text (c ∷ cs) pi in
    ground (arith, next-at_text cs here, next-at_text cs (count_line here))

step_remark-star :
    (cs : List ℕ) (pi : ParseItem)
    → step remark (at_text (b'*' ∷ cs) pi) ≡ go await_slash (at_text cs pi)
unfolding step step_remark
step_remark-star cs pi = ap (go await_slash) (next-at_text cs (at_text (b'*' ∷ cs) pi))

step_await_slash-other :
    (cs : List ℕ) (pi : ParseItem)
    → (front cs == b'/') ≡ false
    → step await_slash (at_text cs pi) ≡ go remark (at_text cs pi)
unfolding step step_await_slash
step_await_slash-other cs pi h = rw h

step_await_slash-slash :
    (cs : List ℕ) (pi : ParseItem)
    → step await_slash (at_text (b'/' ∷ cs) pi) ≡ go outside (at_text cs pi)
unfolding step step_await_slash
step_await_slash-slash cs pi = ap (go outside) (next-at_text cs (at_text (b'/' ∷ cs) pi))

run-star :
    (n : ℕ) (cs : List ℕ) (pi : ParseItem)
    → (front cs == b'/') ≡ false
    → run (suc (suc n)) remark (at_text (b'*' ∷ cs) pi) ≡ run n remark (at_text cs pi)
run-star n cs pi h =
    run-step (suc n) remark await_slash _ _ (step_remark-star cs pi)
    ∙ run-step n await_slash remark _ _ (step_await_slash-other cs pi h)

-- One character of a comment, with the character behind it.
run-in_remark :
    (n : ℕ) (c : ℕ) (cs : List ℕ) (pi : ParseItem)
    → (c == b'*' && front cs == b'/') ≡ false
    → run (if c == b'*' then suc (suc n) else suc n) remark (at_text (c ∷ cs) pi)
      ≡ run n remark (at_text cs (counted c pi))
run-in_remark n c cs pi h = elim (Bool-cases (c == b'*')) [
  | inr no_star ↦ rw no_star (run-step n remark remark _ _ (step_remark-other c cs pi no_star))
  | inl star ↦ rw ((==_iff c b'*').0 star) (run-star n cs pi (ground arith))
]

front_open :
    (c : ℕ) (w ds : List ℕ)
    → (c == b'*' && front (w ++ b'*' ∷ []) == b'/') ≡ false
    → (c == b'*' && front (w ++ b'*' ∷ b'/' ∷ ds) == b'/') ≡ false
front_open c [] ds h = ground arith
front_open c (d ∷ w) ds h = h

-- A comment's text is passed over, whatever it holds.
run-remark :
    (n : ℕ) (w ds : List ℕ) (pi : ParseItem)
    → open_text (w ++ b'*' ∷ []) ≡ true
    → run (remark_steps w n) remark (at_text (w ++ b'*' ∷ b'/' ∷ ds) pi)
      ≡ run n outside (at_text ds (count_lines w pi))
run-remark n [] ds pi h =
    run-step (suc n) remark await_slash _ _ (step_remark-star (b'/' ∷ ds) pi)
    ∙ run-step n await_slash outside _ _ (step_await_slash-slash ds pi)
run-remark n (c ∷ w) ds pi h =
    run-in_remark (remark_steps w n) c (w ++ b'*' ∷ b'/' ∷ ds) pi (front_open c w ds (ground arith))
    ∙ run-remark n w ds (counted c pi) (ground arith)

-- At `/` and the character that tells what it begins.
step-slash :
    (cs : List ℕ) (pi : ParseItem)
    → step outside (at_text (b'/' ∷ cs) pi) ≡ go await_asterisk (at_text cs pi)
unfolding step step_outside outside_switch is_white starts_name is_digit is_alpha
step-slash cs pi = ap (go await_asterisk) (next-at_text cs (at_text (b'/' ∷ cs) pi))

step-slash_star :
    (cs : List ℕ) (pi : ParseItem)
    → step await_asterisk (at_text (b'*' ∷ cs) pi) ≡ go remark (at_text cs pi)
unfolding step step_await_asterisk
step-slash_star cs pi = ap (go remark) (next-at_text cs (at_text (b'*' ∷ cs) pi))

step-slash_slash :
    (cs : List ℕ) (pi : ParseItem)
    → step await_asterisk (at_text (b'/' ∷ cs) pi) ≡ go cpp_remark (at_text cs pi)
unfolding step step_await_asterisk
step-slash_slash cs pi = ap (go cpp_remark) (next-at_text cs (at_text (b'/' ∷ cs) pi))

run-open_comment :
    (n : ℕ) (cs : List ℕ) (pi : ParseItem)
    → run (suc (suc n)) outside (at_text (b'/' ∷ b'*' ∷ cs) pi) ≡ run n remark (at_text cs pi)
run-open_comment n cs pi =
    run-step (suc n) outside await_asterisk _ _ (step-slash (b'*' ∷ cs) pi)
    ∙ run-step n await_asterisk remark _ _ (step-slash_star cs pi)

run-open_line_comment :
    (n : ℕ) (cs : List ℕ) (pi : ParseItem)
    → run (suc (suc n)) outside (at_text (b'/' ∷ b'/' ∷ cs) pi) ≡ run n cpp_remark (at_text cs pi)
run-open_line_comment n cs pi =
    run-step (suc n) outside await_asterisk _ _ (step-slash (b'/' ∷ cs) pi)
    ∙ run-step n await_asterisk cpp_remark _ _ (step-slash_slash cs pi)

-- A comment that is closed is as if it were not there: the tokenizer gives the token behind it,
-- with the line feeds of the comment counted.
pub run-comment :
    (n : ℕ) (w ds : List ℕ) (pi : ParseItem)
    → open_text (w ++ b'*' ∷ []) ≡ true
    → run (suc (suc (remark_steps w n))) outside (at_text (b'/' ∷ b'*' ∷ w ++ b'*' ∷ b'/' ∷ ds) pi)
      ≡ run n outside (at_text ds (count_lines w pi))
run-comment n w ds pi h =
    run-open_comment (remark_steps w n) (w ++ b'*' ∷ b'/' ∷ ds) pi ∙ run-remark n w ds pi h

run-never_closed :
    (w : List ℕ) (pi : ParseItem)
    → open_text w ≡ true
    → (n : ℕ) → run n remark (at_text w pi) ≡ none
run-never_closed [] pi h n = run-in_open_remark n remark (at_text [] pi) refl
run-never_closed (c ∷ w) pi h n =
    run-less n (if c == b'*' then suc (suc n) else suc n) remark (at_text (c ∷ w) pi)
      (run-in_remark n c w pi (ground arith) ∙ run-never_closed w (counted c pi) (ground arith) n)
      (ground arith)

abbrev pub line_free : List ℕ → Bool
line_free [] = true
line_free (c ∷ cs) = not (c == b'\n') && line_free cs

step_cpp_remark-other :
    (c : ℕ) (cs : List ℕ) (pi : ParseItem)
    → (c == b'\n') ≡ false
    → step cpp_remark (at_text (c ∷ cs) pi) ≡ go cpp_remark (at_text cs pi)
unfolding step step_cpp_remark
step_cpp_remark-other c cs pi h = ground (arith, next-at_text cs (at_text (c ∷ cs) pi))

step_cpp_remark-newline :
    (cs : List ℕ) (pi : ParseItem)
    → step cpp_remark (at_text (b'\n' ∷ cs) pi) ≡ go outside (at_text cs (count_line pi))
unfolding step step_cpp_remark
step_cpp_remark-newline cs pi =
    ap (go outside) (next-at_text cs (count_line (at_text (b'\n' ∷ cs) pi)))

run-line :
    (n : ℕ) (w ds : List ℕ) (pi : ParseItem)
    → line_free w ≡ true
    → run (line_steps w (suc n)) cpp_remark (at_text (w ++ b'\n' ∷ ds) pi)
      ≡ run n outside (at_text ds (count_line pi))
run-line n [] ds pi h = run-step n cpp_remark outside _ _ (step_cpp_remark-newline ds pi)
run-line n (c ∷ w) ds pi h =
    run-step (line_steps w (suc n)) cpp_remark cpp_remark _ _
      (step_cpp_remark-other c (w ++ b'\n' ∷ ds) pi (ground arith))
    ∙ run-line n w ds pi (ground arith)

run-line_never_ends :
    (w : List ℕ) (pi : ParseItem)
    → line_free w ≡ true
    → (n : ℕ) → run n cpp_remark (at_text w pi) ≡ none
run-line_never_ends [] pi h n = run-in_open_remark n cpp_remark (at_text [] pi) refl
run-line_never_ends (c ∷ w) pi h n =
    run-less n (suc n) cpp_remark (at_text (c ∷ w) pi)
      (run-step n cpp_remark cpp_remark _ _ (step_cpp_remark-other c w pi (ground arith))
        ∙ run-line_never_ends w pi (ground arith) n)
      (omega arith)

-- The rest of a line behind `//` is as if it were not there.
pub run-line_comment :
    (n : ℕ) (w ds : List ℕ) (pi : ParseItem)
    → line_free w ≡ true
    → run (suc (suc (line_steps w (suc n)))) outside (at_text (b'/' ∷ b'/' ∷ w ++ b'\n' ∷ ds) pi)
      ≡ run n outside (at_text ds (count_line pi))
run-line_comment n w ds pi h =
    run-open_line_comment (line_steps w (suc n)) (w ++ b'\n' ∷ ds) pi ∙ run-line n w ds pi h

-- A comment that the text does not close: the tokenizer reads the end of the text again and
-- again, and no number of steps brings a token.
pub run-unclosed :
    (n c : ℕ) (w : List ℕ) (pi : ParseItem)
    → ((c ≡ b'*') × (open_text w ≡ true)) ⊎ ((c ≡ b'/') × (line_free w ≡ true))
    → run n outside (at_text (b'/' ∷ c ∷ w) pi) ≡ none
run-unclosed n c w pi (inl (e, h)) =
    run-less n (suc (suc n)) outside (at_text (b'/' ∷ c ∷ w) pi)
      (rw e (run-open_comment n w pi ∙ run-never_closed w pi h n)) (omega arith)
run-unclosed n c w pi (inr (e, h)) =
    run-less n (suc (suc n)) outside (at_text (b'/' ∷ c ∷ w) pi)
      (rw e (run-open_line_comment n w pi ∙ run-line_never_ends w pi h n)) (omega arith)
