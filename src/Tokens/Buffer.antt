-- ===== src/Tokens/Buffer.antt =====
-- lib/token.c: how much of the buffer `id`, of 1024 bytes, the tokens take.
use osdb_dcdb.Prelude.{
  ℕ, zero, suc, ◌≤◌, ◌≡◌, refl, sym, ◌∙◌, Bool, true, false, Option, none, some, List, [], ◌∷◌,
  ◌==◌, length, arith,
}
use osdb_dcdb.Tokens
use osdb_dcdb.Tokens.{
  TokenType, Mode, ParseItem, Outcome, go, give, next, skip_white, skip_from, put_first, put,
  count_line, outside, await_asterisk, remark, await_slash, cpp_remark, char_of, identifier,
  numeric, char_constant, string_constant, preprocessor, end_of_file,
}
use osdb_dcdb.Tokens.Measure.{next-Reads}
use osdb_dcdb.Tokens.Runs.{next-at_text}
use osdb_dcdb.Tokens.Progress.{join_line-fits, entry, get_token-entry}
use osdb_dcdb.Tokens.Steps.{
  step, step_outside, outside_switch, operator_of, open_string, open_char, grow, step_identifier,
  step_numeric, step_char, step_string, escape_string, join_line, step_preprocessor,
  step_end_of_file, step_await_asterisk, step_remark, step_await_slash, step_cpp_remark, get_token,
  run, resume,
}

-- The characters of the token have been written from the index 0 on, each to the next index.
abbrev pub IsFilled : (limit : ℕ) → ParseItem → Type 0
IsFilled limit pi = (length pi.id ≡ pi.idx) × (pi.idx ≤ limit)

-- What a state has written, and the index at which it may write next.
abbrev pub IsWithin : Mode → ParseItem → Type 0
IsWithin identifier pi = IsFilled 1024 pi
IsWithin numeric pi = IsFilled 1024 pi
IsWithin char_constant pi = IsFilled 1024 pi
IsWithin preprocessor pi = IsFilled 1024 pi
IsWithin _ pi = Unit

-- The latest character that was written is NUL.
abbrev pub ends_nul : List ℕ → Bool
ends_nul [] = false
ends_nul (c ∷ cs) = c == 0

-- A token that is not a string was written to the first 1025 bytes: the last one, the NUL, is at
-- most the one behind the buffer.
abbrev pub FitsWith : TokenType → ParseItem → Type 0
FitsWith Tokens.string pi = Unit
FitsWith Tokens.done pi = Unit
FitsWith Tokens.parse_error pi = Unit
FitsWith _ pi = IsFilled 1025 pi × (ends_nul pi.id ≡ true)

abbrev StaysWithin : Outcome → Type 0
StaysWithin (go m pi) = IsWithin m pi
StaysWithin (give t pi) = FitsWith t pi

-- What comes after a step.
abbrev pub Afterwards : (Mode → ParseItem → Type 0) → Outcome → Type 0
Afterwards P (go m pi) = P m pi
Afterwards P (give t pi) = FitsWith t pi

-- This holds in every state that the run passes, and of the token that it gives.
pub Passes : ℕ → Mode → ParseItem → Type 0
Passes zero m pi = Unit
Passes (suc n) m pi = IsWithin m pi × Afterwards (Passes n) (step m pi)

abbrev ResultFits : Option (TokenType × ParseItem) → Type 0
ResultFits none = Unit
ResultFits (some (t, pi)) = FitsWith t pi

-- Reading writes nothing.
next_id : (pi : ParseItem) → (next pi).id ≡ pi.id
next_id pi = rw (next-at_text pi.rest pi) refl

skip_from_id : (bs : List ℕ) (pi : ParseItem) → (skip_from bs pi).id ≡ pi.id
skip_from_id [] pi = ground arith
skip_from_id (b ∷ bs) pi = ground (arith, skip_from_id bs (record pi { ch = char_of b }))

skip_white_id : (pi : ParseItem) → (skip_white pi).id ≡ pi.id
unfolding skip_white
skip_white_id pi = skip_from_id pi.rest pi

join_line_id : (pi : ParseItem) → (join_line pi).id ≡ pi.id
unfolding join_line
join_line_id pi =
    let q = next pi in
    ground (
      arith,
      next_id pi,
      next_id (count_line q),
      skip_white_id (next (count_line q)),
      skip_white_id q,
    )

step_outside-StaysWithin : (pi : ParseItem) → StaysWithin (step_outside pi)
unfolding step_outside outside_switch operator_of open_string open_char
step_outside-StaysWithin pi =
    let q = next pi in
    let r = next (put_first b'\\' q) in
    let a = next-Reads (put_first pi.ch pi) in
    let b = next-Reads (put_first b'\\' q) in
    let c = next-Reads (put r.ch r) in
    let d = next-Reads (put_first q.ch q) in
    ground (
      arith,
      a.same,
      b.same,
      c.same,
      d.same,
      next_id (put_first pi.ch pi),
      next_id (put_first b'\\' q),
      next_id (put r.ch r),
      next_id (put_first q.ch q),
    )

step-StaysWithin : (m : Mode) (pi : ParseItem) → IsWithin m pi → StaysWithin (step m pi)
unfolding step step_identifier step_numeric step_char step_string escape_string step_preprocessor
    step_end_of_file grow step_await_asterisk step_remark step_await_slash step_cpp_remark
step-StaysWithin outside pi h = step_outside-StaysWithin pi
step-StaysWithin preprocessor pi h =
    let j = join_line pi in
    let a = next-Reads (put pi.ch pi) in
    let b = next-Reads (put j.ch j) in
    ground (
      arith,
      a.same,
      b.same,
      join_line-fits pi,
      join_line_id pi,
      next_id (put pi.ch pi),
      next_id (put j.ch j),
    )
step-StaysWithin await_asterisk pi h =
    let a = next-Reads (put_first b'/' pi) in ground (arith, a.same, next_id (put_first b'/' pi))
step-StaysWithin end_of_file pi h = tt
step-StaysWithin _ pi h =
    let a = next-Reads (put pi.ch pi) in ground (arith, a.same, next_id (put pi.ch pi))

run-ResultFits : (n : ℕ) (m : Mode) (pi : ParseItem) → IsWithin m pi → ResultFits (run n m pi)
unfolding run
run-ResultFits zero m pi h = tt
run-ResultFits (suc n) m pi h =
    elim (step m pi) as (λ o. StaysWithin o → ResultFits (resume (run n) o)) [
      | go m' q ↦ λ w. run-ResultFits n m' q w
      | give t q ↦ λ w. w
    ]
      (step-StaysWithin m pi h)

run-Passes : (n : ℕ) (m : Mode) (pi : ParseItem) → IsWithin m pi → Passes n m pi
unfolding Passes
run-Passes zero m pi h = tt
run-Passes (suc n) m pi h = (
  h,
  elim (step m pi) as (λ o. StaysWithin o → Afterwards (Passes n) o) [
    | go m' q ↦ λ w. run-Passes n m' q w
    | give t q ↦ λ w. w
  ]
      (step-StaysWithin m pi h),
)

-- A token that is neither a string, an error nor the end of the file has been written to `id` from
-- the index 0 on, each character to the next index, with a NUL as the last, and takes at most 1025
-- bytes, whatever the text is: of the buffer of 1024 bytes it can overrun one. In every state on the
-- way that gathers a name, a number, a character constant or a preprocessor line, the characters
-- stand from the index 0 on, and the next index is at most 1024.
pub get_token-FitsWith :
    (n : ℕ) (pi q : ParseItem) (t : TokenType)
    → get_token n pi ≡ some (t, q)
    → FitsWith t q × Passes n outside (entry pi)
get_token-FitsWith n pi q t e = (
  rw (sym (get_token-entry n pi) ∙ e) at (run-ResultFits n outside (entry pi) tt),
  run-Passes n outside (entry pi) tt,
)

-- A name of 1024 characters is accepted, and its NUL is written behind the buffer of 1024 bytes.
-- One of more characters is refused with the error `too_long`.
