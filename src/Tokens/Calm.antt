-- ===== src/Tokens/Calm.antt =====
-- lib/token.c: without a slash there is no comment, and the tokenizer gives a token.
use osdb_dcdb.Prelude.{
  ℕ, ◌≡◌, refl, Bool, true, false, ◌&&◌, not, some, List, [], ◌∷◌, arith, ◌==◌, ◌∙◌,
}
use osdb_dcdb.Tokens.{
  TokenType, Mode, ParseItem, Outcome, go, give, next, skip_white, skip_from, put_first, put,
  count_line, outside, await_asterisk, remark, await_slash, cpp_remark, char_of, identifier,
  numeric, char_constant, string_constant, preprocessor, end_of_file,
}
use osdb_dcdb.Tokens.Runs.{front, behind, next-at_text}
use osdb_dcdb.Tokens.Steps.{
  step, step_outside, outside_switch, operator_of, open_string, open_char, grow, step_identifier,
  step_numeric, step_char, step_string, escape_string, join_line, step_preprocessor,
  step_end_of_file, get_token,
}
use osdb_dcdb.Tokens.Progress.{
  in_open_remark, LeadsTo, here, by, gives, sticks, entry, enough, get_token-entry, get_token-Ends,
}

abbrev pub slash_free : List ℕ → Bool
slash_free [] = true
slash_free (c ∷ cs) = not (c == b'/') && slash_free cs

abbrev pub is_comment : Mode → Bool
is_comment await_asterisk = true
is_comment remark = true
is_comment await_slash = true
is_comment cpp_remark = true
is_comment _ = false

-- No slash has been read last, and none is left.
abbrev IsCalm : ParseItem → Type 0
IsCalm pi = ((pi.ch == b'/') ≡ false) × (slash_free pi.rest ≡ true)

abbrev KeepsCalm : Outcome → Type 0
KeepsCalm (go m pi) = (is_comment m ≡ false) × IsCalm pi
KeepsCalm (give t pi) = Unit

text-IsCalm :
    (cs : List ℕ)
    → slash_free cs ≡ true
    → ((front cs == b'/') ≡ false) × (slash_free (behind cs) ≡ true)
text-IsCalm [] h = (refl, refl)
text-IsCalm (b ∷ bs) h = ground arith

next-IsCalm : (pi : ParseItem) → slash_free pi.rest ≡ true → IsCalm (next pi)
next-IsCalm pi h = rw (next-at_text pi.rest pi) (text-IsCalm pi.rest h)

skip_from-IsCalm :
    (bs : List ℕ) (pi : ParseItem)
    → (pi.ch == b'/') ≡ false
    → slash_free bs ≡ true
    → IsCalm (skip_from bs pi)
skip_from-IsCalm [] pi h f = ground arith
skip_from-IsCalm (b ∷ bs) pi h f =
    ground (arith, skip_from-IsCalm bs (record pi { ch = char_of b }))

skip_white-IsCalm : (pi : ParseItem) → IsCalm pi → IsCalm (skip_white pi)
unfolding skip_white
skip_white-IsCalm pi h = skip_from-IsCalm pi.rest pi h.0 h.1

step_outside-KeepsCalm : (pi : ParseItem) → IsCalm pi → KeepsCalm (step_outside pi)
unfolding step_outside outside_switch operator_of open_string open_char
step_outside-KeepsCalm pi h =
    let q = next pi in
    let r = next (put_first b'\\' q) in
    ground (
      arith,
      next-IsCalm pi,
      next-IsCalm (put_first pi.ch pi),
      next-IsCalm (count_line pi),
      next-IsCalm (put_first q.ch q),
      next-IsCalm (put_first b'\\' q),
      next-IsCalm (put r.ch r),
    )

step-KeepsCalm :
    (m : Mode) (pi : ParseItem) → is_comment m ≡ false → IsCalm pi → KeepsCalm (step m pi)
unfolding step step_identifier step_numeric step_char step_string escape_string step_preprocessor
    step_end_of_file join_line grow
step-KeepsCalm outside pi c h = step_outside-KeepsCalm pi h
step-KeepsCalm identifier pi c h = ground (arith, next-IsCalm (put pi.ch pi))
step-KeepsCalm numeric pi c h = ground (arith, next-IsCalm (put pi.ch pi))
step-KeepsCalm char_constant pi c h = ground (arith, next-IsCalm (put pi.ch pi))
step-KeepsCalm string_constant pi c h =
    let q = next pi in
    ground (
      arith,
      next-IsCalm pi,
      next-IsCalm (put pi.ch pi),
      next-IsCalm (count_line q),
      skip_white-IsCalm (next (count_line q)),
      next-IsCalm (put q.ch (put b'\\' q)),
    )
step-KeepsCalm preprocessor pi c h =
    let q = next pi in
    let j = join_line pi in
    ground (
      arith,
      next-IsCalm pi,
      next-IsCalm (put pi.ch pi),
      next-IsCalm (count_line q),
      skip_white-IsCalm (next (count_line q)),
      skip_white-IsCalm q,
      next-IsCalm (put j.ch j),
    )
step-KeepsCalm end_of_file pi c h = tt
step-KeepsCalm _ pi c h = cc

LeadsTo-calm :
    (m' : Mode) (q : ParseItem) (m : Mode) (pi : ParseItem)
    → LeadsTo m' q m pi
    → is_comment m ≡ false
    → IsCalm pi
    → is_comment m' ≡ false
LeadsTo-calm m' q m pi here c h = c
LeadsTo-calm m' q m pi (by e l) c h =
    let k = rw e at (step-KeepsCalm m pi c h) in LeadsTo-calm m' q _ _ l k.0 k.1

not-open : (m : Mode) (pi : ParseItem) → is_comment m ≡ false → in_open_remark m pi ≡ false
not-open remark pi c = cc
not-open cpp_remark pi c = cc
not-open _ pi c = refl

entry-IsCalm :
    (pi : ParseItem) → (pi.ch == b'/') ≡ false → slash_free pi.rest ≡ true → IsCalm (entry pi)
entry-IsCalm pi h f = ground (arith, next-IsCalm pi)

-- Where no slash is left to read, and none is kept, `getToken` gives a token: it takes at most
-- four steps for each character that is left and 1035 more.
pub get_token-gives :
    (pi : ParseItem)
    → (pi.ch == b'/') ≡ false
    → slash_free pi.rest ≡ true
    → (t : TokenType) × (q : ParseItem) × (get_token (enough pi) pi ≡ some (t, q))
get_token-gives pi h f = elim (get_token-Ends pi) [
  | gives t q e ↦ (t, q, get_token-entry (enough pi) pi ∙ e)
  | sticks m q l o ↦ absurd (
      ground
        (arith, o, not-open m q (LeadsTo-calm m q outside (entry pi) l refl (entry-IsCalm pi h f))))
]
