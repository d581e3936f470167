-- ===== src/Links/Places.antt =====
-- Where the links of a list stand: the neighbours of each, and the sentinels around them.
use mathlib.Core.List.{append_assoc}
use osdb_dcdb.Prelude.{
  ℕ, ◌≡◌, refl, false, List, [], ◌∷◌, ◌++◌, arith, ◌==◌, last, has-append, Distinct,
  Distinct-middle,
}
use osdb_dcdb.Links.{Store, ListHeader}
use osdb_dcdb.Links.Chain.{Linked, IsList, Linked-append}

-- The header with another current link holds the same.
abbrev pub standing_at : ListHeader → ℕ → ListHeader
standing_at lh c = record lh { current = c }

pub standing_at-IsList :
    {s : Store} {lh : ListHeader} {zs : List ℕ} (c : ℕ)
    → IsList s lh zs
    → IsList s (standing_at lh c) zs
standing_at-IsList c is = record { chain = is.chain; distinct = is.distinct; counted = is.counted }

-- The first of a sequence, or the tail.
abbrev pub follower : List ℕ → ℕ → ℕ
follower [] t = t
follower (y ∷ ys) t = y

pub follower-rest : (ys : List ℕ) (t : ℕ) → (rest : List ℕ) × (ys ++ t ∷ [] ≡ follower ys t ∷ rest)
follower-rest [] t = ([], refl)
follower-rest (y ∷ ys) t = (ys ++ t ∷ [], refl)

module _ {s : Store} {lh : ListHeader} where
  -- The links around one of a list.
  pub around :
      (x : ℕ) (xs ys : List ℕ)
      → IsList s lh (xs ++ x ∷ ys)
      → (s.prev x ≡ last lh.head xs) × (s.next x ≡ follower ys lh.tail)
  around x xs ys is =
      let chain : Linked s lh.head (xs ++ (x ∷ ys ++ lh.tail ∷ [])) = rw append_assoc at is.chain in
      let (rest, e) = follower-rest ys lh.tail in
      let r = (Linked-append s lh.head xs (x ∷ ys ++ lh.tail ∷ []) chain).1 in
      let r' : Linked s (last lh.head xs) (x ∷ follower ys lh.tail ∷ rest) = rw e at r in
      (r'.1, r'.2.0)

  -- A link is no sentinel, and the list is not empty.
  pub no_sentinel :
      (x : ℕ) (xs ys : List ℕ)
      → IsList s lh (xs ++ x ∷ ys)
      → ((x == lh.head) ≡ false) × ((x == lh.tail) ≡ false)
  no_sentinel x xs ys is =
      let d : Distinct (lh.head ∷ xs ++ (x ∷ ys ++ lh.tail ∷ [])) =
        rw append_assoc at is.distinct in
      let (front, back, _) = Distinct-middle x (lh.head ∷ xs) (ys ++ lh.tail ∷ []) d in
      (ground arith, ground (arith, has-append x ys (lh.tail ∷ [])))

  pub next_head : (xs : List ℕ) → IsList s lh xs → s.next lh.head ≡ follower xs lh.tail
  next_head [] is = is.chain.0
  next_head (x ∷ xs) is = is.chain.0

  pub not_empty :
      (x : ℕ) (xs ys : List ℕ) → IsList s lh (xs ++ x ∷ ys) → (s.next lh.head == lh.tail) ≡ false
  not_empty x [] ys is = rw (is.chain.0) (no_sentinel x [] ys is).1
  not_empty x (z ∷ zs) ys is = rw (is.chain.0) (no_sentinel z [] (zs ++ x ∷ ys) is).1
