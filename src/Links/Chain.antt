-- ===== src/Links/Chain.antt =====
-- Sequences of links that the `next` and `prev` fields join, and what assignments leave of them.
use mathlib.Core.List.{append_assoc}
use osdb_dcdb.Prelude.{
  ℕ, ◌%◌, ◌≡◌, false, List, [], ◌∷◌, ◌++◌, arith, ◌==◌, length, last, has, has-append, Distinct,
  Distinct-last, ne-last,
}
use osdb_dcdb.Links.{Store, ListHeader, size_mod, set_next, set_prev}

-- From `a` on, `next` leads through the sequence and `prev` leads back.
abbrev pub Linked : Store → ℕ → List ℕ → Type 0
Linked s a [] = Unit
Linked s a (x ∷ xs) = (s.next a ≡ x) × (s.prev x ≡ a) × Linked s x xs

-- The header and the store hold the links of a sequence, between two sentinels.
pub record IsList (s : Store) (lh : ListHeader) (xs : List ℕ) : Type 0 where
  pub chain : Linked s lh.head (xs ++ lh.tail ∷ [])
  pub distinct : Distinct (lh.head ∷ xs ++ lh.tail ∷ [])
  pub counted : lh.number ≡ length xs % size_mod

pub Linked-append :
    (s : Store) (a : ℕ) (xs ys : List ℕ)
    → Linked s a (xs ++ ys)
    → Linked s a xs × Linked s (last a xs) ys
Linked-append s a [] ys l = (tt, l)
Linked-append s a (x ∷ xs) ys l = let r = Linked-append s x xs ys l.2 in ((l.0, l.1, r.0), r.1)

pub Linked-join :
    (s : Store) (a : ℕ) (xs ys : List ℕ)
    → Linked s a xs
    → Linked s (last a xs) ys
    → Linked s a (xs ++ ys)
Linked-join s a [] ys l r = r
Linked-join s a (x ∷ xs) ys l r = (l.0, l.1, Linked-join s x xs ys l.2 r)

pub Linked-set_next :
    (p q : ℕ) (s : Store) (a : ℕ) (xs : List ℕ)
    → has p (a ∷ xs) ≡ false
    → Linked s a xs
    → Linked (set_next p q s) a xs
Linked-set_next p q s a [] h l = tt
Linked-set_next p q s a (x ∷ xs) h l =
    (ground arith, l.1, Linked-set_next p q s x xs (ground arith) l.2)

pub Linked-set_next-last :
    (q : ℕ) (s : Store) (a : ℕ) (xs : List ℕ)
    → Distinct (a ∷ xs)
    → Linked s a xs
    → Linked (set_next (last a xs) q s) a xs
Linked-set_next-last q s a [] d l = tt
Linked-set_next-last q s a (x ∷ xs) d l =
    (ground (arith, ne-last a x xs), l.1, Linked-set_next-last q s x xs d.1 l.2)

pub Linked-set_prev :
    (p q : ℕ) (s : Store) (a : ℕ) (xs : List ℕ)
    → has p xs ≡ false
    → Linked s a xs
    → Linked (set_prev p q s) a xs
Linked-set_prev p q s a [] h l = tt
Linked-set_prev p q s a (x ∷ xs) h l =
    (l.0, ground arith, Linked-set_prev p q s x xs (ground arith) l.2)

pub Linked-freed :
    (done : List ℕ) (s : Store) (a : ℕ) (xs : List ℕ)
    → Linked s a xs
    → Linked (record s { freed = done }) a xs
Linked-freed done s a [] l = tt
Linked-freed done s a (x ∷ xs) l = (l.0, l.1, Linked-freed done s x xs l.2)

module _ {s : Store} {lh : ListHeader} where
  -- Calls of `free` leave the links in place.
  pub IsList-freed : (done xs : List ℕ) → IsList s lh xs → IsList (record s { freed = done }) lh xs
  IsList-freed done xs is = record {
    chain = Linked-freed done s lh.head (xs ++ lh.tail ∷ []) is.chain;
    distinct = is.distinct;
    counted = is.counted;
  }

  -- The sentinels and the links around a place.
  pub next-place :
      (xs ys : List ℕ) (y : ℕ) (rest : List ℕ)
      → IsList s lh (xs ++ ys)
      → ys ++ lh.tail ∷ [] ≡ y ∷ rest
      → (s.next (last lh.head xs) ≡ y) × (s.prev y ≡ last lh.head xs)
  next-place xs ys y rest is e =
      let chain : Linked s lh.head (xs ++ (ys ++ lh.tail ∷ [])) = rw append_assoc at is.chain in
      let back = (Linked-append s lh.head xs (y ∷ rest) (rw e at chain)).1 in (back.0, back.1)

  pub prev-tail : (xs : List ℕ) → IsList s lh xs → s.prev lh.tail ≡ last lh.head xs
  prev-tail xs is = (Linked-append s lh.head xs (lh.tail ∷ []) is.chain).1.1

  pub tail-ne-last :
      (xs ys : List ℕ) → IsList s lh (xs ++ ys) → (last lh.head xs == lh.tail) ≡ false
  tail-ne-last xs ys is =
      let d : Distinct (lh.head ∷ xs ++ (ys ++ lh.tail ∷ [])) = rw append_assoc at is.distinct in
      ground (
        arith,
        has-append (last lh.head xs) ys (lh.tail ∷ []),
        Distinct-last lh.head xs (ys ++ lh.tail ∷ []) d,
      )
