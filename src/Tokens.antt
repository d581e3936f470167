-- ===== src/Tokens.antt =====
-- lib/token.c with include/mtoken.h: the tokenizer, a finite state machine of `goto`s. The macros
-- `set_state` and `set_state_keep` jump to a label that reads a character first, or to the one
-- behind the reading. A state here stands at the label behind the reading.
-- `pi->ch` is a char, given by its bits; EOF, the int -1, is kept in it as 255, as where char is
-- signed. The classes of ctype.h are those of the C locale.
pub mod Buffer
pub mod Calm
pub mod Chars
pub mod Files
pub mod Measure
pub mod Progress
pub mod Remarks
pub mod Runs
pub mod Steps
pub mod Trip
pub mod Words
use osdb_dcdb.Prelude.{
  ℕ, ◌+◌, ◌%◌, ◌^◌, Bool, true, false, ◌||◌, List, [], ◌∷◌, ◌==◌, leb, if◌then◌else◌,
}
use osdb_dcdb.Tokens.Chars.{eof, is_white, is_alpha, is_digit, is_alnum}

-- The values of CDBTokenType.
pub data TokenType : Type 0 where
  tok_false tok_true none_token ident number string operator preproc : TokenType
  char_const parse_error done : TokenType

pub data ParseErrorType : Type 0 where
  no_error param no_memory newline no_open too_long end : ParseErrorType

-- The labels of `getToken`.
pub data Mode : Type 0 where
  outside identifier numeric char_constant string_constant await_asterisk : Mode
  remark await_slash cpp_remark preprocessor end_of_file : Mode

-- `id` is what was written to the buffer of that name, the latest first, and `rest` what
-- `get_next_char` may still read. The global variable `parseError` is kept here too.
pub record ParseItem : Type 0 where
  pub id : List ℕ
  pub idx : ℕ
  pub keep : Bool
  pub ch : ℕ
  pub ptoken : TokenType
  pub ttoken : TokenType
  pub lnctr : ℕ
  pub rest : List ℕ
  pub parse_error : ParseErrorType

abbrev pub max_id_size : ℕ
max_id_size = 1024

abbrev pub max_token_size : ℕ
max_token_size = 512

-- What a state does: go on in a state, or return a token.
pub data Outcome : Type 0 where
  go : Mode → ParseItem → Outcome
  give : TokenType → ParseItem → Outcome

-- A character of the buffer: a NUL is the end.
abbrev pub char_of : ℕ → ℕ
char_of b = if b == 0 then eof else b

abbrev pub read_from : List ℕ → ParseItem → ℕ × ParseItem
read_from [] pi = (eof, pi)
read_from (b ∷ bs) pi = (char_of b, record pi { rest = bs })

unfoldable pub get_next_char : ParseItem → ℕ × ParseItem
get_next_char pi = read_from pi.rest pi

-- `pi->ch = get_next_char (pi)`
unfoldable pub next : ParseItem → ParseItem
unfolding get_next_char
next pi = let (c, q) = get_next_char pi in record q { ch = c }

-- `while (iswhite (pi->ch)) pi->ch = get_next_char (pi)`
abbrev pub skip_from : List ℕ → ParseItem → ParseItem
skip_from [] pi =
    if is_white pi.ch then record pi { ch = eof; rest = [] } else record pi { rest = [] }
skip_from (b ∷ bs) pi =
    let later = skip_from bs (record pi { ch = char_of b }) in
    if is_white pi.ch then later else record pi { rest = b ∷ bs }

unfoldable pub skip_white : ParseItem → ParseItem
skip_white pi = skip_from pi.rest pi

-- `pi->id[0] = c; pi->idx = 1;`
abbrev pub put_first : ℕ → ParseItem → ParseItem
put_first c pi = record pi { id = c ∷ []; idx = 1 }

-- `pi->id[pi->idx++] = c;`
abbrev pub put : ℕ → ParseItem → ParseItem
put c pi = record pi { id = c ∷ pi.id; idx = pi.idx + 1 }

abbrev pub count_line : ParseItem → ParseItem
count_line pi = record pi { lnctr = (pi.lnctr + 1) % 2 ^ 32 }

abbrev pub set_state : Mode → ParseItem → Outcome
set_state m pi = go m (next pi)

-- A token ends: whether its last character is kept for the next one.
abbrev pub finish : Bool → TokenType → ParseItem → Outcome
finish keep t pi = give t (put 0 (record pi { keep = keep }))

abbrev pub too_long_error : ParseItem → Outcome
too_long_error pi = give parse_error (record pi { parse_error = too_long })
