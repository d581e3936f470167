-- ===== src/Links/Depart.antt =====
-- `removeLink` on a list that is neither a queue nor a stack, and what all types share.
use mathlib.Core.List.{append_assoc}
use osdb_dcdb.Prelude.{
  ℕ, ◌≡◌, refl, ◌⊎◌, inl, inr, Bool, false, ◌&&◌, List, [], ◌∷◌, ◌++◌, arith, ◌==◌, ==_self, has,
  has-append, ne-last, some, sym, ◌∙◌, ap,
}
use osdb_dcdb.Links.{Store, ListHeader, ListType, remove_start, remove_link, departing}
use osdb_dcdb.Links.Chain.{IsList}
use osdb_dcdb.Links.Remove.{Removed, departing-Removed, only-Removed}
use osdb_dcdb.Links.Places.{
  standing_at, standing_at-IsList, follower, follower-rest, around, no_sentinel, not_empty,
}

-- The test for the only link.
abbrev pub alone : ListHeader → Store → Bool
alone l t = t.prev l.current == l.head && t.next l.current == l.tail

module _ {s : Store} {lh : ListHeader} where
  not_alone_before :
      (c u : ℕ) (us vs : List ℕ)
      → IsList s lh (u ∷ us ++ c ∷ vs)
      → alone (standing_at lh c) s ≡ false
  not_alone_before c u us vs is =
      let before = (around c (u ∷ us) vs is).0 in
      let apart : has lh.head (u ∷ us) ≡ false =
        ground (
          arith,
          has-append lh.head us (c ∷ vs),
          has-append lh.head (us ++ c ∷ vs) (lh.tail ∷ []),
        ) in
      rw before (ground (arith, ne-last lh.head u us apart))

  not_alone_behind :
      (c v : ℕ) (us vs : List ℕ)
      → IsList s lh (us ++ c ∷ v ∷ vs)
      → alone (standing_at lh c) s ≡ false
  not_alone_behind c v us vs is =
      let after = (around c us (v ∷ vs) is).1 in
      let is' : IsList s lh ((us ++ c ∷ []) ++ v ∷ vs) = rw append_assoc is in
      rw (after, (no_sentinel v (us ++ c ∷ []) vs is').1) (ground arith)

pub from_standing :
    {s : Store} {lh : ListHeader} {x c' : ℕ} {xs ys : List ℕ} {r : ℕ × ListHeader × Store} (c : ℕ)
    → Removed x xs ys c' (standing_at lh c) s r
    → Removed x xs ys c' lh s r
from_standing c r = record {
  returns = r.returns;
  holds = r.holds;
  current = r.current;
  same_head = r.same_head;
  same_tail = r.same_tail;
  same_type = r.same_type;
  same_compare = r.same_compare;
  same_data = r.same_data;
  same_freed = r.same_freed;
  elsewhere = r.elsewhere;
}

-- Two sequences that are not both empty.
abbrev pub NotBoth : List ℕ → List ℕ → Type 0
NotBoth [] [] = ⊥
NotBoth _ _ = Unit

-- The current link `c` stands between `us` and `vs`, and more links are there: `x` goes.
pub many-Removed :
    {s : Store} {lh : ListHeader} (x c c' : ℕ) (xs ys us vs : List ℕ)
    → IsList s lh (xs ++ x ∷ ys)
    → xs ++ x ∷ ys ≡ us ++ c ∷ vs
    → NotBoth us vs
    → remove_start lh s ≡ standing_at lh c
    → departing lh.type (standing_at lh c) s ≡ some (x, c')
    → Removed x xs ys c' lh s (remove_link lh s)
unfolding remove_link
many-Removed {s} {lh} x c c' xs ys us vs is e two start dep =
    rw (start, not_empty x xs ys is, test us vs e two, dep)
      (let (rest, e') = follower-rest ys lh.tail in
        from_standing c (departing-Removed x xs ys (standing_at-IsList c is) c' _ rest e'))
  where
    test :
        (us vs : List ℕ)
        → xs ++ x ∷ ys ≡ us ++ c ∷ vs
        → NotBoth us vs
        → alone (standing_at lh c) s ≡ false
    test [] [] e n = absurd n
    test [] (v ∷ vs) e n = not_alone_behind c v [] vs (rw e at is)
    test (u ∷ us) vs e n = not_alone_before c u us vs (rw e at is)

-- The only link goes, whatever the type.
pub single-Removed :
    {s : Store} {lh : ListHeader} (x : ℕ)
    → IsList s lh (x ∷ [])
    → remove_start lh s ≡ standing_at lh x
    → Removed x [] [] lh.head lh s (remove_link lh s)
unfolding remove_link
single-Removed {s} {lh} x is start =
    let (before, after) = around x [] [] is in
    rw (start, not_empty x [] [] is, before, after, ==_self lh.head, ==_self lh.tail)
      (from_standing x (only-Removed x (standing_at-IsList x is) refl))

-- From a sentinel the removal starts at the first link, and otherwise where the header stands.
pub start_at_sentinel :
    {s : Store} {lh : ListHeader} (x : ℕ) (xs : List ℕ)
    → IsList s lh (x ∷ xs)
    → (lh.current ≡ lh.head) ⊎ (lh.current ≡ lh.tail)
    → remove_start lh s ≡ standing_at lh x
unfolding remove_start
start_at_sentinel {s} {lh} x xs is at = let e = is.chain.0 in ground arith

pub start_at_link :
    {s : Store} {lh : ListHeader} (xs ys : List ℕ)
    → IsList s lh (xs ++ lh.current ∷ ys)
    → remove_start lh s ≡ standing_at lh lh.current
unfolding remove_start
start_at_link {s} {lh} xs ys is =
    let (no_head, no_tail) = no_sentinel lh.current xs ys is in rw (no_head, no_tail)

-- Where the header stands after the removal: on the head if no link is left.
abbrev pub resting : ℕ → List ℕ → List ℕ → ℕ → ℕ
resting h [] [] c = h
resting h _ _ c = c

-- The list types whose removal takes the current link.
abbrev pub TakesCurrent : ListType → Type 0
TakesCurrent ListType.unsorted = Unit
TakesCurrent ListType.sorted = Unit
TakesCurrent ListType.slow_sorted = Unit
TakesCurrent _ = ⊥

-- The current link is `x`, or it is a sentinel and `x` is the first.
abbrev pub IsNext : ListHeader → ℕ → List ℕ → Type 0
IsNext lh x xs = (lh.current ≡ x) ⊎ (xs ≡ []) × ((lh.current ≡ lh.head) ⊎ (lh.current ≡ lh.tail))

departing_current :
    (t : ListType) (lh : ListHeader) (s : Store)
    → TakesCurrent t
    → departing t lh s ≡ some (lh.current, s.next lh.current)
departing_current ListType.unsorted lh s h = refl
departing_current ListType.sorted lh s h = refl
departing_current ListType.slow_sorted lh s h = refl
departing_current ListType.queued lh s h = absurd h
departing_current ListType.stacked lh s h = absurd h
departing_current ListType.unknown_list_type lh s h = absurd h

pub start_next :
    {s : Store} {lh : ListHeader} (x : ℕ) (xs ys : List ℕ)
    → IsList s lh (xs ++ x ∷ ys)
    → IsNext lh x xs
    → remove_start lh s ≡ standing_at lh x
start_next {s} {lh} x xs ys is (inl e) = rw (sym e) (start_at_link xs ys (rw (sym e) at is))
start_next {s} {lh} x xs ys is (inr (e, at)) = start_at_sentinel x ys (rw e at is) at

-- An UNSORTED, SORTED or SLOWSORTED list loses the link where the header stands, and the first from a
-- sentinel; the header goes on to the next link, to the tail, or to the head if none is left.
pub remove_link-current :
    {s : Store} {lh : ListHeader} (x : ℕ) (xs ys : List ℕ)
    → IsList s lh (xs ++ x ∷ ys)
    → TakesCurrent lh.type
    → IsNext lh x xs
    → Removed x xs ys (resting lh.head xs ys (follower ys lh.tail)) lh s (remove_link lh s)
remove_link-current {s} {lh} x [] [] is t n = single-Removed x is (start_next x [] [] is n)
remove_link-current {s} {lh} x [] (y ∷ ys) is t n =
    many-Removed x x y [] (y ∷ ys) [] (y ∷ ys) is refl tt (start_next x [] (y ∷ ys) is n) (
      departing_current lh.type (standing_at lh x) s t
      ∙ ap (λ (z : ℕ). some (x, z)) (around x [] (y ∷ ys) is).1)
remove_link-current {s} {lh} x (w ∷ xs) ys is t n =
    many-Removed x x (follower ys lh.tail) (w ∷ xs) ys (w ∷ xs) ys is refl tt
      (start_next x (w ∷ xs) ys is n)
      (departing_current lh.type (standing_at lh x) s t
        ∙ ap (λ (z : ℕ). some (x, z)) (around x (w ∷ xs) ys is).1)
