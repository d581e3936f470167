-- ===== src/Tokens/Runs.antt =====
-- lib/token.c: the text that is left to read, and what more fuel does to a run.
use osdb_dcdb.Prelude.{
  ℕ, zero, suc, ◌≤◌, ◌≡◌, refl, false, none, some, List, [], ◌∷◌, arith, ◌==◌, Option-cases, inl,
  inr,
}
use osdb_dcdb.Tokens.{TokenType, Mode, ParseItem, go, give, next, get_next_char, char_of}
use osdb_dcdb.Tokens.Chars.{eof}
use osdb_dcdb.Tokens.Steps.{step, run, resume}

-- The character that a text begins with, and the state that has read it.
abbrev pub front : List ℕ → ℕ
front [] = eof
front (b ∷ bs) = char_of b

abbrev pub behind : List ℕ → List ℕ
behind [] = []
behind (b ∷ bs) = bs

abbrev pub at_text : List ℕ → ParseItem → ParseItem
at_text cs pi = record pi { ch = front cs; rest = behind cs }

pub next-at_text : (cs : List ℕ) (pi : ParseItem) → next (record pi { rest = cs }) ≡ at_text cs pi
unfolding next get_next_char
next-at_text [] pi = refl
next-at_text (b ∷ bs) pi = refl

-- A text without the bytes that the tokenizer takes for an end.
abbrev pub IsPlain : ℕ → Type 0
IsPlain b = (b == 0) ≡ false

pub front_plain : (b : ℕ) (bs : List ℕ) → IsPlain b → front (b ∷ bs) ≡ b
front_plain b bs h = rw h

pub run-step :
    (n : ℕ) (m m' : Mode) (p q : ParseItem) → step m p ≡ go m' q → run (suc n) m p ≡ run n m' q
unfolding run
run-step n m m' p q e = rw e

pub run-give :
    (n : ℕ) (m : Mode) (t : TokenType) (p q : ParseItem)
    → step m p ≡ give t q
    → run (suc n) m p ≡ some (t, q)
unfolding run
run-give n m t p q e = rw e

-- A run that gave a token gives it on more fuel.
pub run-more :
    (n k : ℕ) (m : Mode) (p : ParseItem) (r : TokenType × ParseItem)
    → run n m p ≡ some r
    → n ≤ k
    → run k m p ≡ some r
unfolding run
run-more zero k m p r e le = cc
run-more (suc n) zero m p r e le = absurd (omega arith)
run-more (suc n) (suc k) m p r e le =
    elim (step m p) as (λ o. resume (run n) o ≡ some r → resume (run k) o ≡ some r) [
      | give t q ↦ λ h. h
      | go m' q ↦ λ h. run-more n k m' q r h (omega arith)
    ]
      e

-- Two runs that give tokens give the same one.
pub run-agree :
    (n k : ℕ) (m : Mode) (p : ParseItem) (r r' : TokenType × ParseItem)
    → run n m p ≡ some r
    → run k m p ≡ some r'
    → r ≡ r'
unfolding run
run-agree zero k m p r r' e e' = cc
run-agree (suc n) zero m p r r' e e' = cc
run-agree (suc n) (suc k) m p r r' e e' =
    elim (step m p) as (λ o. resume (run n) o ≡ some r → resume (run k) o ≡ some r' → r ≡ r') [
      | give t q ↦ λ h h'. cc
      | go m' q ↦ λ h h'. run-agree n k m' q r r' h h'
    ]
      e e'

pub run-less : (n k : ℕ) (m : Mode) (p : ParseItem) → run k m p ≡ none → n ≤ k → run n m p ≡ none
run-less n k m p e le = elim (Option-cases (run n m p)) [
  | inl h ↦ h
  | inr (r, h) ↦ cc (e, run-more n k m p r h le)
]
