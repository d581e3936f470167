-- ===== src/Links/Ends.antt =====
-- `removeLink` on a queue, on a stack and on an empty list.
use osdb_dcdb.Prelude.{
  ℕ, ◌<◌, ◌≡◌, refl, inl, inr, true, List, [], ◌∷◌, ◌++◌, arith, Bool-cases, ==_self, length,
  length-append, last, last-append, has, has-append, has-split, some, ◌∙◌, ap,
}
use osdb_dcdb.Links.{Store, ListHeader, ListType, null, remove_start, remove_link, departing}
use osdb_dcdb.Links.Chain.{IsList, prev-tail}
use osdb_dcdb.Links.Remove.{Removed}
use osdb_dcdb.Links.Places.{standing_at, follower, around}
use osdb_dcdb.Links.Depart.{
  IsNext, resting, NotBoth, many-Removed, single-Removed, start_at_sentinel, start_at_link,
  start_next,
}

-- The header stands on a sentinel or on a link of the list.
abbrev pub IsPlaced : ListHeader → List ℕ → Type 0
IsPlaced lh xs = has lh.current (lh.head ∷ xs ++ lh.tail ∷ []) ≡ true

start_placed :
    {s : Store} {lh : ListHeader} (x : ℕ) (xs : List ℕ)
    → IsList s lh (x ∷ xs)
    → IsPlaced lh (x ∷ xs)
    → (c : ℕ) × (us : List ℕ) × (vs : List ℕ) × (x ∷ xs ≡ us ++ c ∷ vs)
      × (remove_start lh s ≡ standing_at lh c)
start_placed {s} {lh} x xs is h = elim (Bool-cases (has lh.current (x ∷ xs))) [
  | inl inside ↦
      let (us, vs, e) = has-split lh.current (x ∷ xs) inside in
      (lh.current, us, vs, e, start_at_link us vs (rw e at is))
  | inr outside ↦ (
    x,
    [],
    xs,
    refl,
    start_at_sentinel x xs is (ground (arith, has-append lh.current xs (lh.tail ∷ []))),
  )
]

NotBoth-of_length : (c : ℕ) (us vs zs : List ℕ) → zs ≡ us ++ c ∷ vs → 1 < length zs → NotBoth us vs
NotBoth-of_length c [] [] zs e h = absurd (omega (arith, ap length e))
NotBoth-of_length c [] (v ∷ vs) zs e h = tt
NotBoth-of_length c (u ∷ us) vs zs e h = tt

IsNext-of_placed : (lh : ListHeader) (x : ℕ) → IsPlaced lh (x ∷ []) → IsNext lh x []
IsNext-of_placed lh x h = ground arith

-- Whatever the type says goes, if more than one link is there.
departing-placed :
    {s : Store} {lh : ListHeader} (z : ℕ) (zs : List ℕ) (x c' : ℕ) (xs ys : List ℕ)
    → IsList s lh (xs ++ x ∷ ys)
    → xs ++ x ∷ ys ≡ z ∷ zs
    → IsPlaced lh (xs ++ x ∷ ys)
    → 1 < length (xs ++ x ∷ ys)
    → ((c : ℕ) → departing lh.type (standing_at lh c) s ≡ some (x, c'))
    → Removed x xs ys c' lh s (remove_link lh s)
departing-placed {s} {lh} z zs x c' xs ys is e h two dep =
    let (c, us, vs, e', start) = start_placed z zs (rw e at is) (rw e at h) in
    many-Removed x c c' xs ys us vs is (e ∙ e')
      (NotBoth-of_length c us vs (xs ++ x ∷ ys) (e ∙ e') two) start (dep c)

-- A queue loses its first link, wherever the header stands.
pub remove_link-queued :
    {s : Store} {lh : ListHeader} (x : ℕ) (ys : List ℕ)
    → IsList s lh (x ∷ ys)
    → lh.type ≡ ListType.queued
    → IsPlaced lh (x ∷ ys)
    → Removed x [] ys (resting lh.head [] ys (follower ys lh.tail)) lh s (remove_link lh s)
remove_link-queued {s} {lh} x [] is t h =
    single-Removed x is (start_next x [] [] is (IsNext-of_placed lh x h))
remove_link-queued {s} {lh} x (y ∷ ys) is t h =
    departing-placed x (y ∷ ys) x y [] (y ∷ ys) is refl h (omega arith)
      (λ c. rw (t, is.chain.0, is.chain.2.0))

-- A stack loses its last link, wherever the header stands.
pub remove_link-stacked :
    {s : Store} {lh : ListHeader} (x : ℕ) (xs : List ℕ)
    → IsList s lh (xs ++ x ∷ [])
    → lh.type ≡ ListType.stacked
    → IsPlaced lh (xs ++ x ∷ [])
    → Removed x xs [] (resting lh.head xs [] (last lh.head xs)) lh s (remove_link lh s)
remove_link-stacked {s} {lh} x [] is t h =
    single-Removed x is (start_next x [] [] is (IsNext-of_placed lh x h))
remove_link-stacked {s} {lh} x (w ∷ xs) is t h =
    let end : s.prev lh.tail ≡ x =
      prev-tail (w ∷ xs ++ x ∷ []) is ∙ last-append lh.head x (w ∷ xs) [] in
    departing-placed w (xs ++ x ∷ []) x (last w xs) (w ∷ xs) [] is refl h
      (omega (arith, length-append xs (x ∷ []))) (λ c. rw (t, end, (around x (w ∷ xs) [] is).0))

-- An empty list stays as it is, and NULL comes back.
pub remove_link-nil :
    {s : Store} {lh : ListHeader} → IsList s lh [] → remove_link lh s ≡ (null, lh, s)
unfolding remove_link
remove_link-nil {s} {lh} is = rw (is.chain.0, ==_self lh.tail)
