-- ===== src/Tests/Tokens.antt =====
-- The tokenizer of token.c on small texts.
use Prim.Native.Char.{code}
use Prim.Native.String.{String}
use osdb_dcdb.Prelude.{
  ℕ, zero, suc, ◌≡◌, refl, Bool, true, some, none, List, [], ◌∷◌, ◌++◌, inl, arith, length,
}
use osdb_dcdb.Tokens
use osdb_dcdb.Tokens.{ParseItem, TokenType, outside, ident, next, get_next_char, skip_white}
use osdb_dcdb.Tokens.Buffer.{FitsWith, Passes, get_token-FitsWith}
use osdb_dcdb.Tokens.Calm.{get_token-gives}
use osdb_dcdb.Tokens.Chars.{is_white, is_alpha, is_digit, is_alnum, is_name, starts_name}
use osdb_dcdb.Tokens.Files.{fresh, init_parser, parse_file, FileResult}
use osdb_dcdb.Tokens.Progress.{entry, enough, get_token-enough}
use osdb_dcdb.Tokens.Remarks.{run-comment, run-unclosed}
use osdb_dcdb.Tokens.Runs.{at_text}
use osdb_dcdb.Tokens.Steps.{
  operator_of, open_string, open_char, outside_switch, step_outside, grow, step_identifier,
  step_numeric, step_char, step_string, escape_string, step_await_asterisk, step_remark,
  step_await_slash, step_cpp_remark, join_line, step_preprocessor, step_end_of_file, step, run,
  get_token,
}
use osdb_dcdb.Tokens.Trip.{name, digits, parse_file-written}
use osdb_dcdb.Tokens.Words.{run-ident, All}

abbrev codes : String → List ℕ
codes String.[] = []
codes (String.◌∷◌ c s) = code c ∷ codes s

-- Opens the machine for the runs below.
machine_run : Unit {0}
unfolding operator_of open_string open_char outside_switch step_outside grow step_identifier
    step_numeric step_char step_string escape_string step_await_asterisk step_remark
    step_await_slash step_cpp_remark join_line step_preprocessor step_end_of_file step run get_token
    next get_next_char skip_white is_white is_alpha is_digit is_alnum is_name starts_name
    init_parser parse_file
machine_run = tt

abbrev tokens_in : String → FileResult
tokens_in s = parse_file 20 (fresh (codes s ++ 0 ∷ []))

condition :
    tokens_in "a<=b"
    ≡ some (
      (ident, 0 ∷ codes "a") ∷ (Tokens.operator, 0 ∷ codes "=<") ∷ (ident, 0 ∷ codes "b") ∷ [],
      Tokens.tok_true,
    )
unfolding machine_run
condition = refl

-- A comment between tokens, a string with an escaped quote, a character, a directive.
several :
    tokens_in "x/*b*/ 12\n\"q\\\"r\"'c'#if 1\n"
    ≡ some (
      (ident, 0 ∷ codes "x")
          ∷ (Tokens.number, 0 ∷ codes "21")
          ∷ (Tokens.string, 0 ∷ codes "r\"\\q")
          ∷ (Tokens.char_const, 0 ∷ codes "c")
          ∷ (Tokens.preproc, 0 ∷ codes "1 fi#")
          ∷ [],
      Tokens.tok_true,
    )
unfolding machine_run
several = refl

-- The character behind `/` is lost.
division :
    tokens_in "a/b"
    ≡ some ((ident, 0 ∷ codes "a") ∷ (Tokens.operator, 0 ∷ codes "/") ∷ [], Tokens.tok_true)
unfolding machine_run
division = refl

line_break_in_string :
    tokens_in "\"a\n" ≡ some ((Tokens.parse_error, codes "a") ∷ [], Tokens.tok_false)
unfolding machine_run
line_break_in_string = refl

abbrev sample : ParseItem
sample = fresh (codes "max1 + 2")

run-ident_example :
    run 5 outside (at_text (codes "max1 + 2") sample)
    ≡ some (
      ident,
      record (at_text (codes " + 2") sample) { id = 0 ∷ codes "1xam"; idx = 5; keep = true },
    )
unfolding starts_name is_name is_alnum is_alpha is_digit
run-ident_example =
    run-ident b'm' (codes "ax1") (codes " + 2") sample refl (refl, (refl, (refl, tt))) refl
      (omega arith)

repeated : ℕ → ℕ → List ℕ
repeated c zero = []
repeated c (suc n) = c ∷ repeated c n

length-repeated : (c n : ℕ) → length (repeated c n) ≡ n
unfolding repeated
length-repeated c zero = refl
length-repeated c (suc n) = omega (arith, length-repeated c n)

All-repeated : (f : ℕ → Bool) (c n : ℕ) → f c ≡ true → All f (repeated c n)
unfolding repeated
All-repeated f c zero h = tt
All-repeated f c (suc n) h = (h, All-repeated f c n h)

get_token-gives_example :
    (t : TokenType) × (q : ParseItem) × (get_token (enough sample) sample ≡ some (t, q))
get_token-gives_example = get_token-gives sample refl refl

get_token-enough_example :
    get_token (enough sample) sample
    ≡ some (
      ident,
      record sample { ch = b' '; rest = codes "+ 2"; id = 0 ∷ codes "1xam"; idx = 5; keep = true },
    )
unfolding machine_run
get_token-enough_example = get_token-enough 5 sample _ refl

get_token-FitsWith_example :
    FitsWith ident
      (record sample { ch = b' '; rest = codes "+ 2"; id = 0 ∷ codes "1xam"; idx = 5; keep = true })
    × Passes 5 outside (entry sample)
unfolding machine_run
get_token-FitsWith_example = get_token-FitsWith 5 sample _ ident refl

run-comment_example :
    run 7 outside (at_text (codes "/*a\n*/;") sample)
    ≡ run 1 outside (at_text (codes ";") (record sample { lnctr = 2 }))
run-comment_example = run-comment 1 (codes "a\n") (codes ";") sample refl

run-unclosed_example : run 9 outside (at_text (codes "/*a") sample) ≡ none
run-unclosed_example = run-unclosed 9 b'*' (codes "a") sample (inl (refl, refl))

parse_file-written_example :
    (pi : ParseItem) × (init_parser 4 (some (some (codes " let x1 42")))
      ≡ (some pi, Tokens.no_error))
    × (parse_file 4 pi
        ≡ some (
          (ident, 0 ∷ codes "tel") ∷ (ident, 0 ∷ codes "1x") ∷ (Tokens.number, 0 ∷ codes "24") ∷ [],
          Tokens.tok_true,
        ))
unfolding starts_name is_name is_alnum is_alpha is_digit
parse_file-written_example =
    parse_file-written
      (name b'l' (codes "et") ∷ name b'x' (codes "1") ∷ digits b'4' (codes "2") ∷ []) 4
      (
        (refl, (refl, (refl, tt)), omega arith),
        ((refl, (refl, tt), omega arith), ((refl, (refl, tt), omega arith), tt)),
      )
      (omega arith)
