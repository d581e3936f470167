-- ===== src/Links/Order.antt =====
-- What a compare function is to satisfy, and sequences of links in its order.
use osdb_dcdb.Prelude.{
  ℕ, ◌≡◌, refl, Bool, true, List, [], ◌∷◌, ◌++◌, arith, Ordering, is_lt, is_gt, not, if◌then◌else◌,
  last,
}
use osdb_dcdb.Links.{Compare}

abbrev pub swap : Ordering → Ordering
swap Ordering.lt = Ordering.gt
swap Ordering.eq = Ordering.eq
swap Ordering.gt = Ordering.lt

-- A result of at most 0.
abbrev pub le : Compare → ℕ → ℕ → Bool
le cmp a b = not (is_gt (cmp a b))

-- A three-way comparison: exchanging the arguments turns the sign, and `≤` is transitive.
pub record IsOrder (cmp : Compare) : Type 0 where
  pub flip : (a b : ℕ) → cmp b a ≡ swap (cmp a b)
  pub le_trans : (a b c : ℕ) → le cmp a b ≡ true → le cmp b c ≡ true → le cmp a c ≡ true

module _ (cmp : Compare) (dat : ℕ → ℕ) where
  -- No link of the sequence is less than the value.
  abbrev pub Above : ℕ → List ℕ → Type 0
  Above d [] = Unit
  Above d (x ∷ xs) = (le cmp d (dat x) ≡ true) × Above d xs

  -- No link of the sequence is greater than the value.
  abbrev pub Below : ℕ → List ℕ → Type 0
  Below d [] = Unit
  Below d (x ∷ xs) = (le cmp (dat x) d ≡ true) × Below d xs

  abbrev pub Ascending : List ℕ → Type 0
  Ascending [] = Unit
  Ascending (x ∷ xs) = Above (dat x) xs × Ascending xs

  -- The links before the first that is greater than the value, and the others.
  abbrev pub upto : ℕ → List ℕ → List ℕ
  upto d [] = []
  upto d (x ∷ xs) = if is_lt (cmp d (dat x)) then [] else x ∷ upto d xs

  abbrev pub beyond : ℕ → List ℕ → List ℕ
  beyond d [] = []
  beyond d (x ∷ xs) = if is_lt (cmp d (dat x)) then x ∷ xs else beyond d xs

  pub upto-append-beyond : (d : ℕ) (xs : List ℕ) → upto d xs ++ beyond d xs ≡ xs
  upto-append-beyond d [] = refl
  upto-append-beyond d (x ∷ xs) = ground (arith, upto-append-beyond d xs)

  module _ (o : IsOrder cmp) where
    pub Above-mono : (a b : ℕ) (xs : List ℕ) → le cmp a b ≡ true → Above b xs → Above a xs
    Above-mono a b [] h u = tt
    Above-mono a b (x ∷ xs) h u = (o.le_trans a b (dat x) h u.0, Above-mono a b xs h u.1)

    Above-insert :
        (d : ℕ) (x : ℕ) (us vs : List ℕ)
        → le cmp d (dat x) ≡ true
        → Above d (us ++ vs)
        → Above d (us ++ x ∷ vs)
    Above-insert d x [] vs h u = (h, u)
    Above-insert d x (w ∷ us) vs h u = (u.0, Above-insert d x us vs h u.1)

    -- An insertion behind what is not greater and before what is not less keeps the order.
    pub Ascending-insert :
        (x : ℕ) (us vs : List ℕ)
        → Ascending (us ++ vs)
        → Below (dat x) us
        → Above (dat x) vs
        → Ascending (us ++ x ∷ vs)
    Ascending-insert x [] vs a b c = (c, a)
    Ascending-insert x (w ∷ us) vs a b c =
        (Above-insert (dat w) x us vs b.0 a.0, Ascending-insert x us vs a.1 b.1 c)

    pub Below-upto : (d : ℕ) (xs : List ℕ) → Below d (upto d xs)
    Below-upto d [] = tt
    Below-upto d (x ∷ xs) = ground (arith, Below-upto d xs, o.flip d (dat x))

    pub Above-beyond : (d : ℕ) (xs : List ℕ) → Ascending xs → Above d (beyond d xs)
    Above-beyond d [] a = tt
    Above-beyond d (x ∷ xs) a =
        ground (arith, Above-beyond d xs a.1, Above-mono d (dat x) xs, o.flip d (dat x))

    -- Insertion before the first greater link keeps the order.
    pub Ascending-upto :
        (x : ℕ) (xs : List ℕ) → Ascending xs → Ascending (upto (dat x) xs ++ x ∷ beyond (dat x) xs)
    Ascending-upto x xs a =
        Ascending-insert x (upto (dat x) xs) (beyond (dat x) xs) (rw upto-append-beyond a)
          (Below-upto (dat x) xs) (Above-beyond (dat x) xs a)

    Above-last : (d x : ℕ) (xs : List ℕ) → Above d (x ∷ xs) → le cmp d (dat (last x xs)) ≡ true
    Above-last d x [] u = u.0
    Above-last d x (y ∷ ys) u = Above-last d y ys u.1

    -- A value that is not less than the last link belongs behind all of them.
    pub upto-all :
        (d x : ℕ) (xs : List ℕ)
        → Ascending (x ∷ xs)
        → le cmp (dat (last x xs)) d ≡ true
        → (upto d (x ∷ xs) ≡ x ∷ xs) × (beyond d (x ∷ xs) ≡ [])
    upto-all d x [] a h = ground (arith, o.flip d (dat x))
    upto-all d x (y ∷ ys) a h =
        let not_greater : le cmp (dat x) d ≡ true =
          o.le_trans (dat x) (dat (last y ys)) d (Above-last (dat x) y ys a.0) h in
        ground (arith, upto-all d y ys a.1 h, o.flip d (dat x))
