-- ===== src/Tokens/Progress.antt =====
-- lib/token.c, `getToken`: it gives a token, unless the text ends in a comment.
use osdb_dcdb.Prelude.{
  ℕ, zero, suc, ◌+◌, ◌*◌, ◌≤◌, ◌<◌, ◌≡◌, refl, Bool, true, false, ◌&&◌, none, some, List, [], ◌∷◌,
  arith, ◌==◌, length, Bool-cases, ◌⊎◌, inl, inr, ap, sym, ◌∙◌, if◌then◌else◌,
}
use osdb_dcdb.Tokens.{
  TokenType, Mode, ParseItem, Outcome, go, give, next, put, count_line, outside, identifier,
  numeric, char_constant, string_constant, await_asterisk, remark, await_slash, cpp_remark,
  preprocessor, end_of_file,
}
use osdb_dcdb.Tokens.Chars.{eof}
use osdb_dcdb.Tokens.Measure.{
  load, is_nil, at_end, size, Lowers, next-Reads, grow-Lowers, step_outside-Lowers, skip_white-fits,
}
use osdb_dcdb.Tokens.Runs.{front, behind, next-at_text, run-step, run-give, run-agree}
use osdb_dcdb.Tokens.Steps.{
  step, step_identifier, step_numeric, step_char, step_string, escape_string, step_await_asterisk,
  step_remark, step_await_slash, step_cpp_remark, join_line, step_preprocessor, step_end_of_file,
  run, get_token,
}

-- In a comment at the end of the text.
abbrev pub in_open_remark : Mode → ParseItem → Bool
in_open_remark remark pi = at_end pi
in_open_remark cpp_remark pi = at_end pi
in_open_remark _ pi = false

escape_string-Lowers :
    (pi : ParseItem) → (pi.ch == eof) ≡ false → Lowers (size string_constant pi) (escape_string pi)
unfolding escape_string
escape_string-Lowers pi h =
    let q = next pi in
    let a = next-Reads pi in
    let b = next-Reads (count_line q) in
    let c = skip_white-fits (next (count_line q)) in
    let d = next-Reads (put q.ch (put b'\\' q)) in
    ground (arith, a.fits, a.same, b.fits, b.same, c, d.fits, d.same)

step_string-Lowers : (pi : ParseItem) → Lowers (size string_constant pi) (step_string pi)
unfolding step_string
step_string-Lowers pi =
    let a = next-Reads (put pi.ch pi) in
    ground (
      arith,
      a.fits,
      a.same,
      escape_string-Lowers pi,
      grow-Lowers 512 string_constant string_constant pi pi (omega arith) refl refl refl
          (omega arith),
    )

step_char-Lowers : (pi : ParseItem) → Lowers (size char_constant pi) (step_char pi)
unfolding step_char
step_char-Lowers pi = ground (
  arith,
  grow-Lowers 1024 char_constant char_constant pi pi (omega arith) refl refl refl (omega arith),
)

step_identifier-Lowers : (pi : ParseItem) → Lowers (size identifier pi) (step_identifier pi)
unfolding step_identifier
step_identifier-Lowers pi =
    ground (
      arith,
      grow-Lowers 1024 identifier identifier pi pi (omega arith) refl refl refl (omega arith),
    )

step_numeric-Lowers : (pi : ParseItem) → Lowers (size numeric pi) (step_numeric pi)
unfolding step_numeric
step_numeric-Lowers pi =
    ground
      (arith, grow-Lowers 1024 numeric numeric pi pi (omega arith) refl refl refl (omega arith))

pub join_line-fits :
    (pi : ParseItem) → (load (join_line pi) ≤ load pi) × ((join_line pi).idx ≡ pi.idx)
unfolding join_line
join_line-fits pi =
    let q = next pi in
    let a = next-Reads pi in
    let b = next-Reads (count_line q) in
    ground (
      arith,
      a.fits,
      a.same,
      b.fits,
      b.same,
      skip_white-fits (next (count_line q)),
      skip_white-fits q,
    )

step_preprocessor-Lowers : (pi : ParseItem) → Lowers (size preprocessor pi) (step_preprocessor pi)
unfolding step_preprocessor
step_preprocessor-Lowers pi =
    let j = join_line-fits pi in
    let stay =
      grow-Lowers 1024 preprocessor preprocessor pi pi (omega arith) refl refl refl (omega arith) in
    let over =
      grow-Lowers 1024 preprocessor preprocessor pi (join_line pi) (j.0) (j.1) refl refl
        (omega arith) in
    ground (arith, stay, over)

step_await_asterisk-Lowers :
    (pi : ParseItem) → Lowers (size await_asterisk pi) (step_await_asterisk pi)
unfolding step_await_asterisk
step_await_asterisk-Lowers pi = let a = next-Reads pi in ground (arith, a.fits, a.same)

step_remark-Lowers : (pi : ParseItem) → at_end pi ≡ false → Lowers (size remark pi) (step_remark pi)
unfolding step_remark
step_remark-Lowers pi h =
    let a = next-Reads pi in
    let b = next-Reads (count_line pi) in ground (arith, a.strict, a.same, b.strict, b.same)

step_cpp_remark-Lowers :
    (pi : ParseItem) → at_end pi ≡ false → Lowers (size cpp_remark pi) (step_cpp_remark pi)
unfolding step_cpp_remark
step_cpp_remark-Lowers pi h =
    let a = next-Reads pi in
    let b = next-Reads (count_line pi) in ground (arith, a.strict, a.same, b.strict, b.same)

step_await_slash-Lowers : (pi : ParseItem) → Lowers (size await_slash pi) (step_await_slash pi)
unfolding step_await_slash
step_await_slash-Lowers pi = let a = next-Reads pi in ground (arith, a.fits, a.same)

-- Every step lowers the measure, but for one in a comment at the end of the text.
step-Lowers :
    (m : Mode) (pi : ParseItem) → in_open_remark m pi ≡ false → Lowers (size m pi) (step m pi)
unfolding step step_end_of_file
step-Lowers outside pi h = step_outside-Lowers pi
step-Lowers identifier pi h = step_identifier-Lowers pi
step-Lowers numeric pi h = step_numeric-Lowers pi
step-Lowers char_constant pi h = step_char-Lowers pi
step-Lowers string_constant pi h = step_string-Lowers pi
step-Lowers await_asterisk pi h = step_await_asterisk-Lowers pi
step-Lowers remark pi h = step_remark-Lowers pi h
step-Lowers await_slash pi h = step_await_slash-Lowers pi
step-Lowers cpp_remark pi h = step_cpp_remark-Lowers pi h
step-Lowers preprocessor pi h = step_preprocessor-Lowers pi
step-Lowers end_of_file pi h = tt

-- The states from which a run comes to the state given first.
pub data LeadsTo (last : Mode) (end : ParseItem) : Mode → ParseItem → Type 0 where
  here : LeadsTo last end last end
  by :
      {m m' : Mode} {pi q : ParseItem}
      → step m pi ≡ go m' q
      → LeadsTo last end m' q
      → LeadsTo last end m pi

-- The run gives a token, or comes to a comment that the end of the text leaves open.
pub data Ends (n : ℕ) (m : Mode) (pi : ParseItem) : Type 0 where
  gives : (t : TokenType) (q : ParseItem) → run n m pi ≡ some (t, q) → Ends n m pi
  sticks :
      (m' : Mode) (q : ParseItem) → LeadsTo m' q m pi → in_open_remark m' q ≡ true → Ends n m pi

Ends-step :
    (n : ℕ) {m m' : Mode} {pi q : ParseItem} → step m pi ≡ go m' q → Ends n m' q → Ends (suc n) m pi
Ends-step n {m} {m'} {pi} {q} e (gives t r g) = gives t r (run-step n m m' pi q e ∙ g)
Ends-step n e (sticks m'' r g o) = sticks m'' r (by e g) o

Outcome-cases :
    (o : Outcome)
    → ((m : Mode) × (pi : ParseItem) × (o ≡ go m pi))
      ⊎ ((t : TokenType) × (pi : ParseItem) × (o ≡ give t pi))
Outcome-cases (go m pi) = inl (m, pi, refl)
Outcome-cases (give t pi) = inr (t, pi, refl)

run-Ends : (n : ℕ) (m : Mode) (pi : ParseItem) → size m pi < n → Ends n m pi
run-Ends zero m pi lt = absurd (omega arith)
run-Ends (suc n) m pi lt = elim (Bool-cases (in_open_remark m pi)) [
  | inl o ↦ sticks m pi here o
  | inr h ↦ elim (Outcome-cases (step m pi)) [
    | inl (m', q, e) ↦ Ends-step n e (run-Ends n m' q (omega (arith, rw e at (step-Lowers m pi h))))
    | inr (t, q, e) ↦ gives t q (run-give n m t pi q e)
  ]
]

at_end-next : (pi : ParseItem) → at_end pi ≡ true → at_end (next pi) ≡ true
at_end-next pi o = rw (next-at_text pi.rest pi) (at_end_text pi.rest pi.ch o)
  where
    at_end_text :
        (cs : List ℕ) (c : ℕ)
        → ((c == eof) && is_nil cs) ≡ true
        → ((front cs == eof) && is_nil (behind cs)) ≡ true
    at_end_text [] c h = refl
    at_end_text (b ∷ bs) c h = ground arith

stays : (m : Mode) (pi : ParseItem) → in_open_remark m pi ≡ true → step m pi ≡ go m (next pi)
unfolding step step_remark step_cpp_remark
stays remark pi o = ground arith
stays cpp_remark pi o = ground arith
stays _ pi o = cc

next-in_open_remark :
    (m : Mode) (pi : ParseItem) → in_open_remark m pi ≡ true → in_open_remark m (next pi) ≡ true
next-in_open_remark remark pi o = at_end-next pi o
next-in_open_remark cpp_remark pi o = at_end-next pi o
next-in_open_remark _ pi o = cc

-- No amount of fuel brings a token there.
pub run-in_open_remark :
    (n : ℕ) (m : Mode) (pi : ParseItem) → in_open_remark m pi ≡ true → run n m pi ≡ none
unfolding run
run-in_open_remark zero m pi o = refl
run-in_open_remark (suc n) m pi o =
    rw (stays m pi o) (run-in_open_remark n m (next pi) (next-in_open_remark m pi o))

-- Nor anywhere on the way to it.
pub run-LeadsTo :
    (m' : Mode) (q : ParseItem) (m : Mode) (pi : ParseItem)
    → LeadsTo m' q m pi
    → in_open_remark m' q ≡ true
    → (n : ℕ) → run n m pi ≡ none
unfolding run
run-LeadsTo m' q m pi here o n = run-in_open_remark n m pi o
run-LeadsTo m' q m pi (by e l) o zero = refl
run-LeadsTo m' q m pi (by e l) o (suc n) = rw e (run-LeadsTo m' q _ _ l o n)

-- Fuel for any token.
abbrev pub enough : ParseItem → ℕ
enough pi = length pi.rest * 4 + 1035

-- The item that the first state of `getToken` sees.
abbrev pub entry : ParseItem → ParseItem
entry pi = if pi.keep then record pi { keep = false } else next pi

pub get_token-entry : (n : ℕ) (pi : ParseItem) → get_token n pi ≡ run n outside (entry pi)
unfolding get_token
get_token-entry n pi = ground arith

size-entry : (pi : ParseItem) → size outside (entry pi) < enough pi
size-entry pi = let a = next-Reads pi in ground (arith, a.fits)

pub get_token-Ends : (pi : ParseItem) → Ends (enough pi) outside (entry pi)
get_token-Ends pi = run-Ends (enough pi) outside (entry pi) (size-entry pi)

-- The fuel `enough` is enough: the tokenizer gives the token that it gives on any other fuel.
pub get_token-enough :
    (n : ℕ) (pi : ParseItem) (r : TokenType × ParseItem)
    → get_token n pi ≡ some r
    → get_token (enough pi) pi ≡ some r
get_token-enough n pi r g = elim (get_token-Ends pi) [
  | gives t q e ↦
      get_token-entry (enough pi) pi
      ∙ e
      ∙ ap some
          (run-agree (enough pi) n outside (entry pi) (t, q) r e (sym (get_token-entry n pi) ∙ g))
  | sticks m q l o ↦ cc (g, get_token-entry n pi, run-LeadsTo m q outside (entry pi) l o n)
]
