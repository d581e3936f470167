-- ===== src/Shells/Search/Scans.antt =====
-- The first equal link of a sequence in order, and the scan that looks for it.
use mathlib.Core.List.{append_assoc}
use osdb_dcdb.Prelude.{
  ℕ, zero, suc, ◌+◌, ◌<◌, ◌≡◌, refl, ap, Distinct, has, has-append, true, false, ◌⊎◌, inl, inr,
  Option, some, List, [], ◌∷◌, ◌++◌, arith, ◌==◌, ==_self, Bool-cases, is_lt, is_eq, is_gt, length,
  last,
}
use osdb_dcdb.Links.{Compare, null}
use osdb_dcdb.Links.Chain.{IsList}
use osdb_dcdb.Links.Order.{IsOrder, le, Above, Ascending}
use osdb_dcdb.Links.Places.{follower, around}
use osdb_dcdb.Shells.{Shell, compared, counted}
use osdb_dcdb.Shells.Search.{Scan, equal, greater, ended, scan_links}
use osdb_dcdb.Shells.Search.Plain.{first_equal}

pub ends_with : (y : ℕ) (ys : List ℕ) → (us : List ℕ) × (us ++ last y ys ∷ [] ≡ y ∷ ys)
ends_with y [] = ([], refl)
ends_with y (w ∷ ws) = let (us, e) = ends_with w ws in (y ∷ us, ap (λ k. y ∷ k) e)

module _ (cmp : Compare) (dat : ℕ → ℕ) (o : IsOrder cmp) (d : ℕ) where
  below_next : (a b : ℕ) → is_lt (cmp d a) ≡ true → le cmp a b ≡ true → is_lt (cmp d b) ≡ true
  below_next a b h k = ground (arith, o.le_trans a b d, o.flip d a, o.flip d b)

  above_before : (a b : ℕ) → is_gt (cmp d b) ≡ true → le cmp a b ≡ true → is_gt (cmp d a) ≡ true
  above_before a b h k = ground (arith, o.le_trans d a b, o.flip d a, o.flip d b)

  pub first_equal-here :
      (x : ℕ) (xs : List ℕ) → is_eq (cmp d (dat x)) ≡ true → first_equal cmp dat d (x ∷ xs) ≡ x
  unfolding first_equal
  first_equal-here x xs e = rw e

  -- Nothing is equal where the first link is greater.
  pub first_equal-above :
      (x : ℕ) (xs : List ℕ)
      → is_lt (cmp d (dat x)) ≡ true
      → Ascending cmp dat (x ∷ xs)
      → first_equal cmp dat d (x ∷ xs) ≡ null
  unfolding first_equal
  first_equal-above x [] lt a = let ne : is_eq (cmp d (dat x)) ≡ false = ground arith in rw ne
  first_equal-above x (y ∷ ys) lt a =
      let ne : is_eq (cmp d (dat x)) ≡ false = ground arith in
      rw ne (first_equal-above y ys (below_next (dat x) (dat y) lt a.0.0) a.1)

  pub Above-member :
      (e l : ℕ) (us zs : List ℕ) → Above cmp dat e (us ++ l ∷ zs) → le cmp e (dat l) ≡ true
  Above-member e l [] zs a = a.0
  Above-member e l (u ∷ us) zs a = Above-member e l us zs a.1

  -- Links before one that is less are passed.
  pub first_equal-behind :
      (us : List ℕ) (l : ℕ) (zs : List ℕ)
      → is_gt (cmp d (dat l)) ≡ true
      → Ascending cmp dat (us ++ l ∷ zs)
      → first_equal cmp dat d (us ++ l ∷ zs) ≡ first_equal cmp dat d (l ∷ zs)
  unfolding first_equal
  first_equal-behind [] l zs gt a = refl
  first_equal-behind (u ∷ us) l zs gt a =
      let more = above_before (dat u) (dat l) gt (Above-member (dat u) l us zs a.0) in
      let ne : is_eq (cmp d (dat u)) ≡ false = ground arith in
      rw ne (first_equal-behind us l zs gt a.1)

  -- Nothing is equal where the last link is less.
  pub first_equal-under :
      (x : ℕ) (xs : List ℕ)
      → is_gt (cmp d (dat (last x xs))) ≡ true
      → Ascending cmp dat (x ∷ xs)
      → first_equal cmp dat d (x ∷ xs) ≡ null
  unfolding first_equal
  first_equal-under x [] gt a = let ne : is_eq (cmp d (dat x)) ≡ false = ground arith in rw ne
  first_equal-under x (y ∷ ys) gt a =
      let (us, e) = ends_with y ys in
      let more =
        above_before (dat x) (dat (last y ys)) gt
          (Above-member (dat x) (last y ys) us [] (rw e a.0)) in
      let ne : is_eq (cmp d (dat x)) ≡ false = ground arith in rw ne (first_equal-under y ys gt a.1)

pub Ascending-behind :
    (cmp : Compare) (dat : ℕ → ℕ) (us zs : List ℕ)
    → Ascending cmp dat (us ++ zs)
    → Ascending cmp dat zs
Ascending-behind cmp dat [] zs a = a
Ascending-behind cmp dat (u ∷ us) zs a = Ascending-behind cmp dat us zs a.1

-- A shell after some more comparisons.
abbrev pub at_count : ℕ → Shell → Shell
at_count m sh = record sh { num_compares = m }

-- What a scan of `zs`, before `vs`, tells of both.
abbrev pub Scanned : ℕ → Shell → List ℕ → List ℕ → Option Scan → Type 0
Scanned lnk sh zs vs r =
    let found = first_equal sh.compare sh.store.data_of (sh.store.data_of lnk) in
    (m : ℕ) × ((r ≡ some (equal (found (zs ++ vs)) (at_count m sh)))
      ⊎ ((g : ℕ) × (r ≡ some (greater g (at_count m sh))) × (found (zs ++ vs) ≡ null))
      ⊎ (r ≡ some (ended (at_count m sh))) × (found (zs ++ vs) ≡ found vs))

follower-ne :
    (z t : ℕ) (zs vs : List ℕ) → has z (zs ++ (vs ++ t ∷ [])) ≡ false → (z == follower vs t) ≡ false
follower-ne z t zs [] h = ground (arith, has-append z zs (t ∷ []))
follower-ne z t zs (v ∷ vs) h = ground (arith, has-append z zs (v ∷ vs ++ t ∷ []))

pub scan_links-Scanned :
    (lnk fuel : ℕ) (sh : Shell) (ws zs vs : List ℕ)
    → IsOrder sh.compare
    → IsList sh.store sh.lh (ws ++ (zs ++ vs))
    → Ascending sh.compare sh.store.data_of (zs ++ vs)
    → Distinct (zs ++ (vs ++ sh.lh.tail ∷ []))
    → length zs < fuel
    → Scanned lnk sh zs vs
        (scan_links fuel lnk (follower vs sh.lh.tail) (follower (zs ++ vs) sh.lh.tail) sh)
unfolding scan_links first_equal
scan_links-Scanned lnk zero sh ws zs vs o is a d h = absurd (omega arith)
scan_links-Scanned lnk (suc fuel) sh ws [] vs o is a d h =
    (sh.num_compares, inr (inr (rw ==_self, refl)))
scan_links-Scanned lnk (suc fuel) sh ws (z ∷ zs) vs o is a d h =
    let dat = sh.store.data_of in
    let more = follower-ne z sh.lh.tail zs vs d.0 in
    let after = (around z ws (zs ++ vs) is).1 in
    let is' : IsList sh.store sh.lh ((ws ++ z ∷ []) ++ (zs ++ vs)) =
      rw (append_assoc ws (z ∷ []) (zs ++ vs)) is in
    elim (Bool-cases (is_eq (compared sh lnk z))) [
      | inl e ↦ (sh.num_compares + 1, inl (rw (more, e)))
      | inr ne ↦ elim (Bool-cases (is_lt (compared sh lnk z))) [
        | inl e ↦
            let none_there = first_equal-above sh.compare dat o (dat lnk) z (zs ++ vs) e a in
            (sh.num_compares + 1, inr (inl (z, rw (more, ne, e), none_there)))
        | inr ge ↦
            let (m, r) =
              scan_links-Scanned lnk fuel (counted sh) (ws ++ z ∷ []) zs vs o is' a.1 d.1
                (omega arith) in
            (m, rw (more, ne, ge, after) r)
      ]
    ]
