-- ===== src/Prelude/Addresses.antt =====
-- Sequences of addresses without repetition.
use Prim.Native.Nat.{ℕ}
use mathlib.Core.Path.{◌≡◌, refl}
use mathlib.Core.Bool.{Bool, true, false, ◌||◌}
use mathlib.Core.List.{List, [], ◌∷◌, ◌++◌}
use native.Mathlib.Omega.{arith}
use mathlib.Core.Bool.{false≢true}
use mathlib.Core.Path.{ap}
use mathlib.Core.Logic.{inl, inr}
use osdb_dcdb.Prelude.Tests.{◌==◌, ==_iff, Bool-cases}
use osdb_dcdb.Prelude.Lists.{last}

abbrev pub has : ℕ → List ℕ → Bool
has a [] = false
has a (x ∷ xs) = (a == x) || has a xs

abbrev pub Distinct : List ℕ → Type 0
Distinct [] = Unit
Distinct (x ∷ xs) = (has x xs ≡ false) × Distinct xs

pub has-append : (a : ℕ) (xs ys : List ℕ) → has a (xs ++ ys) ≡ (has a xs || has a ys)
has-append a [] ys = refl
has-append a (x ∷ xs) ys = ground (arith, has-append a xs ys)

pub has-last : (x : ℕ) (xs : List ℕ) → has (last x xs) (x ∷ xs) ≡ true
has-last x [] = ground arith
has-last x (y ∷ ys) = ground (arith, has-last y ys)

-- Nothing outside a sequence is its last item.
pub ne-last : (a x : ℕ) (xs : List ℕ) → has a (x ∷ xs) ≡ false → (a == last x xs) ≡ false
ne-last a x [] h = ground arith
ne-last a x (y ∷ ys) h = ne-last a y ys (ground arith)

-- An item that stands between two sequences, with what tells it from the others.
pub Distinct-middle :
    (x : ℕ) (xs ys : List ℕ)
    → Distinct (xs ++ x ∷ ys)
    → (has x xs ≡ false) × (has x ys ≡ false) × Distinct (xs ++ ys)
Distinct-middle x [] ys d = (refl, d.0, d.1)
Distinct-middle x (z ∷ xs) ys d =
    ground (arith, Distinct-middle x xs ys d.1, has-append z xs (x ∷ ys), has-append z xs ys)

pub Distinct-insert :
    (x : ℕ) (xs ys : List ℕ)
    → has x (xs ++ ys) ≡ false
    → Distinct (xs ++ ys)
    → Distinct (xs ++ x ∷ ys)
Distinct-insert x [] ys h d = (h, d)
Distinct-insert x (z ∷ xs) ys h d =
    ground (arith, Distinct-insert x xs ys, has-append z xs (x ∷ ys), has-append z xs ys)

pub Distinct-append : (xs ys : List ℕ) → Distinct (xs ++ ys) → Distinct xs × Distinct ys
Distinct-append [] ys d = (tt, d)
Distinct-append (x ∷ xs) ys d = ground (arith, Distinct-append xs ys d.1, has-append x xs ys)

pub Distinct-last : (a : ℕ) (xs ys : List ℕ) → Distinct (a ∷ xs ++ ys) → has (last a xs) ys ≡ false
Distinct-last a [] ys d = d.0
Distinct-last a (x ∷ xs) ys d = Distinct-last x xs ys d.1

pub ne-last_of_has : (p a : ℕ) (xs : List ℕ) → has p (a ∷ xs) ≡ false → (p == last a xs) ≡ false
ne-last_of_has p a xs h = ne-last p a xs h

-- Where an item of a sequence stands.
pub has-split :
    (c : ℕ) (zs : List ℕ) → has c zs ≡ true → (us : List ℕ) × (vs : List ℕ) × (zs ≡ us ++ c ∷ vs)
has-split c [] h = absurd (false≢true h)
has-split c (z ∷ zs) h = elim (Bool-cases (c == z)) [
  | inl e ↦ ([], zs, ground (arith, ==_iff c z))
  | inr n ↦
      let (us, vs, e) = has-split c zs (ground arith) in
      (z ∷ us, vs, ap {B = List ℕ} (λ r. z ∷ r) e)
]

-- What is in a sequence is not what is outside.
pub has-ne : (a b : ℕ) (zs : List ℕ) → has a zs ≡ true → has b zs ≡ false → (a == b) ≡ false
has-ne a b [] h out = absurd (ground (arith, h))
has-ne a b (z ∷ zs) h out = elim (Bool-cases (a == z)) [
  | inl e ↦ ground (arith, ==_iff a z)
  | inr n ↦ has-ne a b zs (ground arith) (ground arith)
]
