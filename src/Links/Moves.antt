-- ===== src/Links/Moves.antt =====
-- `firstLink`, `nextLink` and `prevLink` on the sequence that a list holds.
use mathlib.Core.List.{append_assoc}
use osdb_dcdb.Prelude.{ℕ, zero, suc, ◌≡◌, refl, List, [], ◌∷◌, ◌++◌, ◌∙◌, last-append, ==_self}
use osdb_dcdb.Links.{Store, ListHeader, next_link, prev_link, first_link}
use osdb_dcdb.Links.Chain.{IsList, prev-tail}
use osdb_dcdb.Links.Places.{around, no_sentinel, next_head}

-- `nextLink`, `k` times.
abbrev pub nexts : ℕ → ListHeader → Store → ListHeader
nexts zero lh s = lh
nexts (suc k) lh s = nexts k (next_link lh s).1 s

-- The item `k` places behind `x`, and the last one if there are fewer.
abbrev pub nth : ℕ → List ℕ → ℕ → ℕ
nth x xs zero = x
nth x [] (suc k) = x
nth x (y ∷ ys) (suc k) = nth y ys k

nth-alone : (x k : ℕ) → nth x [] k ≡ x
nth-alone x zero = refl
nth-alone x (suc k) = refl

module _ (s : Store) (lh : ListHeader) where
  abbrev at_link : ℕ → ListHeader
  at_link x = record lh { current = x }

  next_link-at :
      (us : List ℕ) (x : ℕ) (xs : List ℕ)
      → IsList s lh (us ++ x ∷ xs)
      → (next_link (at_link x) s).1 ≡ at_link (nth x xs 1)
  unfolding next_link
  next_link-at us x [] is =
      let end : s.prev lh.tail ≡ x = rw last-append at (prev-tail (us ++ x ∷ []) is) in
      rw ((around x us [] is).1, ==_self, end)
  next_link-at us x (y ∷ ys) is =
      let is' : IsList s lh ((us ++ x ∷ []) ++ y ∷ ys) = rw append_assoc is in
      rw ((around x us (y ∷ ys) is).1, (no_sentinel y (us ++ x ∷ []) ys is').1)

  nexts-nth :
      (k : ℕ) (us : List ℕ) (x : ℕ) (xs : List ℕ)
      → IsList s lh (us ++ x ∷ xs)
      → (nexts k (at_link x) s).current ≡ nth x xs k
  nexts-nth zero us x xs is = refl
  nexts-nth (suc k) us x [] is =
      rw (next_link-at us x [] is, nexts) (nexts-nth k us x [] is ∙ nth-alone x k)
  nexts-nth (suc k) us x (y ∷ ys) is =
      let is' : IsList s lh ((us ++ x ∷ []) ++ y ∷ ys) = rw append_assoc is in
      rw (next_link-at us x (y ∷ ys) is, nexts) (nexts-nth k (us ++ x ∷ []) y ys is')

  -- On a list that is not empty, firstLink and k calls of nextLink lead to the link with the number
  -- k, counted from 0, and to the last link if there are not so many.
  pub first_link-nexts :
      (k x : ℕ) (xs : List ℕ)
      → IsList s lh (x ∷ xs)
      → (nexts k (first_link lh s).1 s).current ≡ nth x xs k
  unfolding first_link
  first_link-nexts k x xs is = rw (next_head (x ∷ xs) is) (nexts-nth k [] x xs is)

  -- With two neighbours in the list and the header on the first of them, nextLink and then prevLink
  -- lead back to it.
  pub prev_link-next_link :
      (us : List ℕ) (x y : ℕ) (ys : List ℕ)
      → IsList s lh (us ++ x ∷ y ∷ ys)
      → lh.current ≡ x
      → ((next_link lh s).1.current ≡ y) × ((prev_link (next_link lh s).1 s).1.current ≡ x)
  unfolding next_link prev_link
  prev_link-next_link us x y ys is c =
      let is' : IsList s lh ((us ++ x ∷ []) ++ y ∷ ys) = rw append_assoc is in
      let on = (around x us (y ∷ ys) is).1 in
      let back : s.prev y ≡ x = rw last-append at (around y (us ++ x ∷ []) ys is').0 in
      let more = (no_sentinel y (us ++ x ∷ []) ys is').1 in
      (rw (c, on, more), rw (c, on, more, back, (no_sentinel x us (y ∷ ys) is).0))
