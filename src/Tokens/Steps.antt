-- ===== src/Tokens/Steps.antt =====
-- lib/token.c, `getToken`: what each state does, and the run of the machine.
use osdb_dcdb.Prelude.{
  ℕ, zero, suc, Bool, true, false, ◌||◌, Option, none, some, List, [], ◌∷◌, ◌==◌, leb,
  if◌then◌else◌,
}
use osdb_dcdb.Tokens
use osdb_dcdb.Tokens.{
  Mode, ParseItem, Outcome, go, give, next, skip_white, put_first, put, count_line, set_state,
  finish, too_long_error, max_id_size, max_token_size, outside, identifier, numeric, char_constant,
  string_constant, await_asterisk, remark, await_slash, cpp_remark, preprocessor, end_of_file,
}
use osdb_dcdb.Tokens.Chars.{eof, is_white, starts_name, is_digit, is_alnum, is_name}

-- An operator of one character, or of two when the next one is accepted.
unfoldable pub operator_of : (ℕ → Bool) → ParseItem → Outcome
operator_of accepts pi =
    let q = next (put_first pi.ch pi) in
    if accepts q.ch
    then finish false Tokens.operator (put q.ch q)
    else finish true Tokens.operator q

-- `"` in state OUTSIDE.
unfoldable pub open_string : ParseItem → Outcome
open_string pi =
    let q = next pi in
    if q.ch == b'"'
    then give Tokens.string (put_first 0 q)
    else set_state string_constant (put_first q.ch q)

-- `'` in state OUTSIDE.
unfoldable pub open_char : ParseItem → Outcome
open_char pi =
    let q = next pi in
    let r = next (put_first b'\\' q) in
    if q.ch == b'\\'
    then if r.ch == b'\'' then set_state char_constant (put r.ch r) else go char_constant r
    else set_state char_constant (put_first q.ch q)

-- The `switch` of state OUTSIDE.
unfoldable pub outside_switch : ParseItem → Outcome
unfolding operator_of open_char
outside_switch pi =
    if pi.ch == b'#'
    then set_state preprocessor (put_first pi.ch pi)
    else if pi.ch == b'/'
    then set_state await_asterisk pi
    else if pi.ch == b'\''
    then open_char pi
    else if pi.ch == b'\n'
    then set_state outside (count_line pi)
    else if pi.ch == b'\r'
    then set_state outside pi
    else if pi.ch == eof
    then set_state end_of_file pi
    else if pi.ch == b'='
    then operator_of (λ c. c == b'=') pi
    else if pi.ch == b'+'
    then operator_of (λ c. c == b'+' || c == b'=') pi
    else if pi.ch == b'-'
    then operator_of (λ c. c == b'-' || c == b'>' || c == b'=') pi
    else if pi.ch == b'*'
    then operator_of (λ c. c == b'=') pi
    else finish false Tokens.operator (put_first pi.ch pi)

unfoldable pub step_outside : ParseItem → Outcome
unfolding open_string operator_of outside_switch
step_outside pi =
    if is_white pi.ch
    then set_state outside pi
    else if starts_name pi.ch
    then set_state identifier (put_first pi.ch pi)
    else if is_digit pi.ch
    then set_state numeric (put_first pi.ch pi)
    else if pi.ch == b'"'
    then open_string pi
    else if pi.ch == b'!'
    then operator_of (λ c. c == b'=') pi
    else if pi.ch == b'|'
    then operator_of (λ c. c == b'|') pi
    else if pi.ch == b'&'
    then operator_of (λ c. c == b'&') pi
    else if pi.ch == b'>'
    then operator_of (λ c. c == b'=') pi
    else if pi.ch == b'<'
    then operator_of (λ c. c == b'=') pi
    else if pi.ch == b'^'
    then operator_of (λ c. c == b'=') pi
    else outside_switch pi

-- A character joins the token unless it is longer than `limit`.
unfoldable pub grow : ℕ → Mode → ParseItem → Outcome
grow limit m pi = if leb limit pi.idx then too_long_error pi else set_state m (put pi.ch pi)

unfoldable pub step_identifier : ParseItem → Outcome
unfolding grow
step_identifier pi =
    if is_name pi.ch then grow max_id_size identifier pi else finish true Tokens.ident pi

unfoldable pub step_numeric : ParseItem → Outcome
unfolding grow
step_numeric pi =
    if is_alnum pi.ch then grow max_id_size numeric pi else finish true Tokens.number pi

unfoldable pub step_char : ParseItem → Outcome
unfolding grow
step_char pi =
    if pi.ch == b'\'' then finish false Tokens.char_const pi else grow max_id_size char_constant pi

-- `pi->id[pi->idx - 1] == '\\'`
abbrev pub ends_escaped : List ℕ → Bool
ends_escaped [] = false
ends_escaped (c ∷ cs) = c == b'\\'

-- A backslash in a string: a line that goes on, or two characters.
unfoldable pub escape_string : ParseItem → Outcome
escape_string pi =
    let q = next pi in
    if q.ch == b'\n'
    then go string_constant (skip_white (next (count_line q)))
    else set_state string_constant (put q.ch (put b'\\' q))

unfoldable pub step_string : ParseItem → Outcome
unfolding grow escape_string
step_string pi =
    if pi.ch == b'"'
    then if ends_escaped pi.id
      then set_state string_constant (put pi.ch pi)
      else finish false Tokens.string pi
    else if pi.ch == b'\\'
    then escape_string pi
    else if pi.ch == b'\n'
    then give Tokens.parse_error (record pi { parse_error = Tokens.newline })
    else grow max_token_size string_constant pi

unfoldable pub step_await_asterisk : ParseItem → Outcome
step_await_asterisk pi =
    let q = next (put_first b'/' pi) in
    if pi.ch == b'*'
    then set_state remark pi
    else if pi.ch == b'/'
    then set_state cpp_remark pi
    else if q.ch == b'='
    then finish false Tokens.operator (put q.ch q)
    else finish true Tokens.operator q

unfoldable pub step_remark : ParseItem → Outcome
step_remark pi =
    if pi.ch == b'\n'
    then set_state remark (count_line pi)
    else if pi.ch == b'*'
    then set_state await_slash pi
    else set_state remark pi

unfoldable pub step_await_slash : ParseItem → Outcome
step_await_slash pi = if pi.ch == b'/' then set_state outside pi else go remark pi

unfoldable pub step_cpp_remark : ParseItem → Outcome
step_cpp_remark pi =
    if pi.ch == b'\n' then set_state outside (count_line pi) else set_state cpp_remark pi

-- A backslash in a directive: what stands behind it on this line or the next.
unfoldable pub join_line : ParseItem → ParseItem
join_line pi = let q = next pi in skip_white (if q.ch == b'\n' then next (count_line q) else q)

unfoldable pub step_preprocessor : ParseItem → Outcome
unfolding grow join_line
step_preprocessor pi =
    if pi.ch == b'\n'
    then finish false Tokens.preproc (count_line pi)
    else grow max_id_size preprocessor (if pi.ch == b'\\' then join_line pi else pi)

-- `strcpy (pi->id, "(EOF)")`
unfoldable pub step_end_of_file : ParseItem → Outcome
step_end_of_file pi =
    give Tokens.done (record pi { id = 0 ∷ b')' ∷ b'F' ∷ b'O' ∷ b'E' ∷ b'(' ∷ [] })

unfoldable pub step : Mode → ParseItem → Outcome
step outside pi = step_outside pi
step identifier pi = step_identifier pi
step numeric pi = step_numeric pi
step char_constant pi = step_char pi
step string_constant pi = step_string pi
step await_asterisk pi = step_await_asterisk pi
step remark pi = step_remark pi
step await_slash pi = step_await_slash pi
step cpp_remark pi = step_cpp_remark pi
step preprocessor pi = step_preprocessor pi
step end_of_file pi = step_end_of_file pi

abbrev pub TokenResult : Type 0
TokenResult = Option (Tokens.TokenType × ParseItem)

abbrev pub resume : (Mode → ParseItem → TokenResult) → Outcome → TokenResult
resume k (go m pi) = k m pi
resume k (give t pi) = some (t, pi)

-- `none` is a run that takes more steps than `n`.
unfoldable pub run : ℕ → Mode → ParseItem → TokenResult
run zero m pi = none
run (suc n) m pi = resume (run n) (step m pi)

unfoldable pub get_token : ℕ → ParseItem → TokenResult
get_token n pi =
    if pi.keep then run n outside (record pi { keep = false }) else run n outside (next pi)
