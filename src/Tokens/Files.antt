-- ===== src/Tokens/Files.antt =====
-- lib/token.c: the start of a parser on a file and on a string, and `ParseFile`, the loop of the
-- test program. The name of the file, which only messages show, is left out. Of the allocations the first `mem` succeed.
use osdb_dcdb.Prelude.{
  ℕ, zero, suc, Bool, true, false, Option, none, some, List, [], ◌∷◌, ◌++◌, ltb, if◌then◌else◌,
}
use osdb_dcdb.Tokens
use osdb_dcdb.Tokens.{ParseItem, TokenType, ParseErrorType}
use osdb_dcdb.Tokens.Progress.{enough}
use osdb_dcdb.Tokens.Steps.{get_token}

-- The item that both functions fill in, with what can be read from its buffer.
abbrev pub fresh : List ℕ → ParseItem
fresh bytes = record {
  id = [];
  idx = 0;
  keep = false;
  ch = 0;
  ptoken = Tokens.none_token;
  ttoken = Tokens.none_token;
  lnctr = 1;
  rest = bytes;
  parse_error = Tokens.no_error;
}

-- `none` is a missing name, and `some none` a file that cannot be opened. The buffer is the file
-- with a NUL behind it.
unfoldable pub init_parser : ℕ → Option (Option (List ℕ)) → Option ParseItem × ParseErrorType
init_parser mem none = (none, Tokens.param)
init_parser mem (some none) = (none, Tokens.no_open)
init_parser mem (some (some bytes)) =
    if ltb mem 4
    then (none, Tokens.no_memory)
    else (some (fresh (bytes ++ 0 ∷ [])), Tokens.no_error)

-- The buffer is the string with its NUL, but `datasize` counts the NUL: `get_next_char` reads
-- one byte behind the buffer too, which is `beyond`.
unfoldable pub init_str_parser : ℕ → ℕ → Option (List ℕ) → Option ParseItem × ParseErrorType
init_str_parser mem beyond none = (none, Tokens.param)
init_str_parser mem beyond (some parstr) =
    if ltb mem 4
    then (none, Tokens.no_memory)
    else (some (fresh (parstr ++ 0 ∷ beyond ∷ [])), Tokens.no_error)

abbrev is_done : TokenType → Bool
is_done Tokens.done = true
is_done _ = false

abbrev is_error : TokenType → Bool
is_error Tokens.parse_error = true
is_error _ = false

-- What the loop does with a token: the tokens that it hands to `ProcessToken`, and its result.
abbrev pub FileResult : Type 0
FileResult = Option (List (TokenType × List ℕ) × TokenType)

abbrev pub more_tokens : TokenType × List ℕ → FileResult → FileResult
more_tokens x none = none
more_tokens x (some (xs, r)) = some (x ∷ xs, r)

abbrev pub after_token : FileResult → TokenType → ParseItem → FileResult
after_token later t pi =
    if is_done t
    then some ([], Tokens.tok_true)
    else if is_error t
    then some ((t, pi.id) ∷ [], Tokens.tok_false)
    else more_tokens (t, pi.id) later

abbrev pub hand_on : (ParseItem → FileResult) → Option (TokenType × ParseItem) → FileResult
hand_on later none = none
hand_on later (some (t, pi)) = after_token (later pi) t pi

-- At most `n` tokens. Each call of `getToken` has the fuel for any token.
unfoldable pub parse_file : ℕ → ParseItem → FileResult
parse_file zero pi = none
parse_file (suc n) pi = hand_on (parse_file n) (get_token (enough pi) pi)
