-- ===== src/Tokens/Measure.antt =====
-- lib/token.c: what gets smaller at each step of `getToken`.
use osdb_dcdb.Prelude.{
  ℕ, suc, ◌+◌, ◌-◌, ◌*◌, ◌≤◌, ◌<◌, ◌≡◌, refl, Bool, true, false, ◌&&◌, List, [], ◌∷◌, arith, ◌==◌,
  length, ap, if◌then◌else◌,
}
use osdb_dcdb.Tokens.{
  Mode, ParseItem, Outcome, go, give, next, skip_white, skip_from, put_first, put, count_line,
  set_state, char_of, outside, await_asterisk, remark, await_slash, cpp_remark,
}
use osdb_dcdb.Tokens.Chars.{eof, is_white}
use osdb_dcdb.Tokens.Runs.{front, behind, next-at_text}
use osdb_dcdb.Tokens.Steps.{step_outside, outside_switch, operator_of, open_string, open_char, grow}

abbrev pub is_nil : List ℕ → Bool
is_nil [] = true
is_nil _ = false

-- The end of the text has been read, and nothing is left behind it.
abbrev pub at_end : ParseItem → Bool
at_end pi = (pi.ch == eof) && is_nil pi.rest

abbrev pub pending : ℕ → ℕ
pending c = if c == eof then 0 else 1

abbrev pub load : ParseItem → ℕ
load pi = length pi.rest * 2 + pending pi.ch

-- What may still join the token, and more than that while there is none.
abbrev pub budget : Mode → ℕ → ℕ
budget outside i = 1030
budget await_asterisk i = 1030
budget remark i = 1030
budget await_slash i = 1031
budget cpp_remark i = 1030
budget _ i = 1025 - i

abbrev pub size : Mode → ParseItem → ℕ
size m pi = load pi * 2 + budget m pi.idx

abbrev pub Lowers : ℕ → Outcome → Type 0
Lowers n (go m pi) = size m pi < n
Lowers n (give t pi) = Unit

text-load : (cs : List ℕ) → length (behind cs) * 2 + pending (front cs) ≤ length cs * 2
text-load [] = omega arith
text-load (b ∷ bs) = ground arith

text-strict :
    (cs : List ℕ) (c : ℕ)
    → ((c == eof) && is_nil cs) ≡ false
    → length (behind cs) * 2 + pending (front cs) < length cs * 2 + pending c
text-strict [] c h = ground arith
text-strict (b ∷ bs) c h = ground arith

-- Reading on: nothing is added, and a character that is not the end is taken away.
pub record Reads (pi q : ParseItem) : Type 0 where
  pub fits : load q ≤ length pi.rest * 2
  pub same : q.idx ≡ pi.idx
  pub strict : at_end pi ≡ false → load q < load pi

pub next-Reads : (pi : ParseItem) → Reads pi (next pi)
next-Reads pi =
    rw (next-at_text pi.rest pi)
      (record { fits = text-load pi.rest; same = refl; strict = text-strict pi.rest pi.ch })

skip_from-fits :
    (bs : List ℕ) (pi : ParseItem)
    → (load (skip_from bs pi) ≤ length bs * 2 + pending pi.ch) × ((skip_from bs pi).idx ≡ pi.idx)
unfolding is_white
skip_from-fits [] pi = ground arith
skip_from-fits (b ∷ bs) pi = ground (arith, skip_from-fits bs (record pi { ch = char_of b }))

pub skip_white-fits :
    (pi : ParseItem) → (load (skip_white pi) ≤ load pi) × ((skip_white pi).idx ≡ pi.idx)
unfolding skip_white
skip_white-fits pi = skip_from-fits pi.rest pi

-- A state that reads on after a character that is not the end.
set_state-Lowers :
    (m m' : Mode) (pi q : ParseItem)
    → q.rest ≡ pi.rest
    → (pi.ch == eof) ≡ false
    → budget m' q.idx < budget m pi.idx + 2
    → Lowers (size m pi) (set_state m' q)
set_state-Lowers m m' pi q e h lt =
    let r = next-Reads q in rw (r.same) (ground (arith, r.fits, ap (length {A = ℕ}) e))

-- The same after any character, into a state with a smaller budget.
put-Lowers :
    (m m' : Mode) (pi q : ParseItem)
    → q.rest ≡ pi.rest
    → budget m' q.idx < budget m pi.idx
    → Lowers (size m pi) (set_state m' q)
put-Lowers m m' pi q e lt =
    let r = next-Reads q in rw (r.same) (ground (arith, r.fits, ap (length {A = ℕ}) e))

pub grow-Lowers :
    (limit : ℕ) (m m' : Mode) (pi q : ParseItem)
    → load q ≤ load pi
    → q.idx ≡ pi.idx
    → (budget m pi.idx ≡ 1025 - pi.idx)
    → (budget m' (suc pi.idx) ≡ 1025 - suc pi.idx)
    → limit ≤ 1024
    → Lowers (size m pi) (grow limit m' q)
unfolding grow
grow-Lowers limit m m' pi q le e b b' lim =
    let r = next-Reads (put q.ch q) in ground (arith, r.fits, r.same, e, b, b', le, lim)

operator_of-Lowers : (n : ℕ) (f : ℕ → Bool) (pi : ParseItem) → Lowers n (operator_of f pi)
unfolding operator_of
operator_of-Lowers n f pi = ground arith

open_string-Lowers : (pi : ParseItem) → Lowers (size outside pi) (open_string pi)
unfolding open_string
open_string-Lowers pi =
    let r = next-Reads pi in
    let r' = next-Reads (put_first (next pi).ch (next pi)) in
    ground (arith, r.fits, r'.fits, r'.same)

open_char-Lowers : (pi : ParseItem) → Lowers (size outside pi) (open_char pi)
unfolding open_char
open_char-Lowers pi =
    let q = next pi in
    let r = next (put_first b'\\' q) in
    let a = next-Reads pi in
    let b = next-Reads (put_first b'\\' q) in
    let c = next-Reads (put r.ch r) in
    let d = next-Reads (put_first q.ch q) in
    ground (arith, a.fits, b.fits, b.same, c.fits, c.same, d.fits, d.same)

outside_switch-Lowers : (pi : ParseItem) → Lowers (size outside pi) (outside_switch pi)
unfolding outside_switch
outside_switch-Lowers pi =
    let a = next-Reads (put_first pi.ch pi) in
    let b = next-Reads pi in
    let c = next-Reads (count_line pi) in
    ground (
      arith,
      a.fits,
      a.same,
      b.fits,
      b.same,
      c.fits,
      c.same,
      open_char-Lowers pi,
      operator_of-Lowers (size outside pi) (λ c. c == b'=') pi,
    )

pub step_outside-Lowers : (pi : ParseItem) → Lowers (size outside pi) (step_outside pi)
unfolding step_outside is_white
step_outside-Lowers pi =
    let a = next-Reads (put_first pi.ch pi) in
    let b = next-Reads pi in
    ground (
      arith,
      a.fits,
      a.same,
      b.fits,
      b.same,
      open_string-Lowers pi,
      outside_switch-Lowers pi,
      operator_of-Lowers (size outside pi) (λ c. c == b'=') pi,
    )
