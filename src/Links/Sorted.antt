-- ===== src/Links/Sorted.antt =====
-- `insertLink` on a SORTED list, with `findSortedInsert`.
use mathlib.Core.List.{append_assoc, append-nil}
use osdb_dcdb.Prelude.{
  ℕ, zero, suc, ◌<◌, ◌≡◌, refl, ap, true, false, List, [], ◌∷◌, ◌++◌, arith, Bool-cases, is_lt,
  is_eq, length, last, ==_self, Option, some, inl, inr, leb,
}
use osdb_dcdb.Links.{
  Status, Store, ListHeader, Compare, sorted_scan, skip_equal, find_scan, find_sorted_insert,
  insert_sorted, insert_behind, insert_found,
}
use osdb_dcdb.Links.Chain.{IsList, prev-tail, next-place}
use osdb_dcdb.Links.Places.{around, no_sentinel}
use osdb_dcdb.Links.Order.{
  IsOrder, le, Ascending, upto, beyond, upto-append-beyond, upto-all, Ascending-upto,
  Ascending-insert, Above-mono,
}

module _ (cmp : Compare) (d : ℕ) {s : Store} {lh : ListHeader} where
  -- The loop on a short list stops behind the links that are not greater.
  sorted_scan-upto :
      (us : List ℕ) (z : ℕ) (zs : List ℕ) (fuel : ℕ)
      → IsList s lh (us ++ z ∷ zs)
      → length zs < fuel
      → sorted_scan cmp d lh.tail s fuel z
        ≡ some (last lh.head (us ++ upto cmp s.data_of d (z ∷ zs)))
  unfolding sorted_scan
  sorted_scan-upto us z zs zero is h = absurd (omega arith)
  sorted_scan-upto us z [] (suc fuel) is h =
      let (before, after) = around z us [] is in
      elim (Bool-cases (is_lt (cmp d (s.data_of z)))) [
        | inl e ↦ rw (e, before, append-nil)
        | inr e ↦ rw (e, after, ==_self lh.tail) (ap some (prev-tail (us ++ z ∷ []) is))
      ]
  sorted_scan-upto us z (w ∷ ws) (suc fuel) is h =
      let (before, after) = around z us (w ∷ ws) is in
      let is' : IsList s lh ((us ++ z ∷ []) ++ w ∷ ws) = rw append_assoc is in
      let rest : sorted_scan cmp d lh.tail s fuel w
          ≡ some (last lh.head (us ++ z ∷ upto cmp s.data_of d (w ∷ ws))) =
        rw append_assoc at (sorted_scan-upto (us ++ z ∷ []) w ws fuel is' (omega arith)) in
      elim (Bool-cases (is_lt (cmp d (s.data_of z)))) [
        | inl e ↦ rw (e, before, append-nil)
        | inr e ↦ rw (e, after, (no_sentinel w (us ++ z ∷ []) ws is').1) rest
      ]

  module _ (o : IsOrder cmp) where
    -- `skip_equal` on a sequence that ends above the value.
    skip_equal-upto :
        (us : List ℕ) (z : ℕ) (zs : List ℕ) (fuel : ℕ)
        → IsList s lh (us ++ z ∷ zs)
        → Ascending cmp s.data_of (z ∷ zs)
        → le cmp d (s.data_of z) ≡ true
        → is_lt (cmp d (s.data_of (last z zs))) ≡ true
        → length zs < fuel
        → skip_equal cmp d lh.tail s fuel (cmp d (s.data_of z)) z
          ≡ some (last lh.head (us ++ upto cmp s.data_of d (z ∷ zs)))
    unfolding skip_equal
    skip_equal-upto us z zs zero is a below end h = absurd (omega arith)
    skip_equal-upto us z [] (suc fuel) is a below end h =
        let before = (around z us [] is).0 in
        let e : is_eq (cmp d (s.data_of z)) ≡ false = ground arith in
        rw (e, end, before, append-nil)
    skip_equal-upto us z (w ∷ ws) (suc fuel) is a below end h =
        let (before, after) = around z us (w ∷ ws) is in
        let is' : IsList s lh ((us ++ z ∷ []) ++ w ∷ ws) = rw append_assoc is in
        let below' = o.le_trans d (s.data_of z) (s.data_of w) below a.0.0 in
        let rest : skip_equal cmp d lh.tail s fuel (cmp d (s.data_of w)) w
            ≡ some (last lh.head (us ++ z ∷ upto cmp s.data_of d (w ∷ ws))) =
          rw append_assoc at
            (skip_equal-upto (us ++ z ∷ []) w ws fuel is' a.1 below' end (omega arith)) in
        elim (Bool-cases (is_eq (cmp d (s.data_of z)))) [
          | inl e ↦
              let e' : is_lt (cmp d (s.data_of z)) ≡ false = ground arith in
              rw (e, (no_sentinel z us (w ∷ ws) is).1, e', after) rest
          | inr e ↦
              let e' : is_lt (cmp d (s.data_of z)) ≡ true = ground arith in
              rw (e, e', before, append-nil)
        ]

    find_scan-upto :
        (us : List ℕ) (z : ℕ) (zs : List ℕ) (fuel end : ℕ)
        → IsList s lh (us ++ z ∷ zs)
        → Ascending cmp s.data_of (z ∷ zs)
        → is_lt (cmp d (s.data_of (last z zs))) ≡ true
        → suc (length zs) < fuel
        → find_scan cmp d lh.tail end s fuel z
          ≡ some (last lh.head (us ++ upto cmp s.data_of d (z ∷ zs)))
    unfolding find_scan
    find_scan-upto us z zs zero end is a lt h = absurd (omega arith)
    find_scan-upto us z [] (suc fuel) end is a lt h =
        let before = (around z us [] is).0 in
        let e : is_eq (cmp d (s.data_of z)) ≡ false = ground arith in
        rw ((no_sentinel z us [] is).1, e, lt, before, append-nil)
    find_scan-upto us z (w ∷ ws) (suc fuel) end is a lt h =
        let (before, after) = around z us (w ∷ ws) is in
        let is' : IsList s lh ((us ++ z ∷ []) ++ w ∷ ws) = rw append_assoc is in
        let rest : find_scan cmp d lh.tail end s fuel w
            ≡ some (last lh.head (us ++ z ∷ upto cmp s.data_of d (w ∷ ws))) =
          rw append_assoc at
            (find_scan-upto (us ++ z ∷ []) w ws fuel end is' a.1 lt (omega arith)) in
        elim (Bool-cases (is_eq (cmp d (s.data_of z)))) [
          | inl e ↦
              rw ((no_sentinel z us (w ∷ ws) is).1, e)
                (skip_equal-upto us z (w ∷ ws) fuel is a (ground arith) lt (omega arith))
          | inr e ↦ elim (Bool-cases (is_lt (cmp d (s.data_of z)))) [
            | inl e' ↦ rw ((no_sentinel z us (w ∷ ws) is).1, e, e', before, append-nil)
            | inr e' ↦ rw ((no_sentinel z us (w ∷ ws) is).1, e, e', after) rest
          ]
        ]

-- A place in the sequence where the link keeps the order, which the computed insertion takes.
abbrev pub KeepsOrder :
    Compare → ListHeader → ℕ → Store → List ℕ → Option (Status × ListHeader × Store) → Type 0
KeepsOrder cmp lh lnk s xs found =
    (us : List ℕ) × (vs : List ℕ) × (us ++ vs ≡ xs)
    × (found ≡ some (insert_behind lh lnk s (last lh.head us)))
    × Ascending cmp s.data_of (us ++ lnk ∷ vs)

module _ {s : Store} {lh : ListHeader} (cmp : Compare) (o : IsOrder cmp) (lnk : ℕ) where
  many-KeepsOrder :
      (x : ℕ) (xs : List ℕ) (fuel : ℕ)
      → IsList s lh (x ∷ xs)
      → Ascending cmp s.data_of (x ∷ xs)
      → is_lt (cmp (s.data_of lnk) (s.data_of (last x xs))) ≡ true
      → suc (length xs) < fuel
      → KeepsOrder cmp lh lnk s
          (x ∷ xs)
          (insert_found lh lnk s (find_sorted_insert cmp (s.data_of lnk) fuel x (s.prev lh.tail) s))
  unfolding find_sorted_insert
  many-KeepsOrder x xs fuel is a lt h =
      let d = s.data_of lnk in
      let end : s.prev lh.tail ≡ last x xs = prev-tail (x ∷ xs) is in
      let is' : IsList s lh ((x ∷ xs) ++ []) = rw append-nil is in
      let stop : s.next (last x xs) ≡ lh.tail = (next-place (x ∷ xs) [] lh.tail [] is' refl).0 in
      let not_end : is_eq (cmp d (s.data_of (last x xs))) ≡ false = ground arith in
      elim (Bool-cases (is_eq (cmp d (s.data_of x)))) [
        | inl e ↦ (
          x ∷ [],
          xs,
          refl,
          rw (end, not_end, e),
          Ascending-insert cmp s.data_of o lnk (x ∷ []) xs a
              (ground (arith, o.flip d (s.data_of x)))
              (Above-mono cmp s.data_of o d (s.data_of x) xs (ground arith) a.0),
        )
        | inr e ↦ (
          upto cmp s.data_of d (x ∷ xs),
          beyond cmp s.data_of d (x ∷ xs),
          upto-append-beyond cmp s.data_of d (x ∷ xs),
          rw (end, not_end, e, stop, find_scan-upto cmp d o [] x xs fuel (last x xs) is a lt h),
          Ascending-upto cmp s.data_of o lnk (x ∷ xs) a,
        )
      ]

  pub insert_sorted-KeepsOrder :
      (xs : List ℕ) (fuel : ℕ)
      → IsList s lh xs
      → Ascending cmp s.data_of xs
      → length xs < fuel
      → KeepsOrder cmp lh lnk s xs (insert_sorted fuel cmp lh lnk s)
  unfolding insert_sorted
  insert_sorted-KeepsOrder [] fuel is a h =
      ([], [], refl, rw (is.chain.0, ==_self lh.tail), (tt, tt))
  insert_sorted-KeepsOrder (x ∷ xs) fuel is a h =
      let d = s.data_of lnk in
      let more = (no_sentinel x [] xs is).1 in
      elim (Bool-cases (leb lh.number 16)) [
        | inl few ↦ (
          upto cmp s.data_of d (x ∷ xs),
          beyond cmp s.data_of d (x ∷ xs),
          upto-append-beyond cmp s.data_of d (x ∷ xs),
          rw (is.chain.0, more, few, sorted_scan-upto cmp d [] x xs fuel is (omega arith)),
          Ascending-upto cmp s.data_of o lnk (x ∷ xs) a,
        )
        | inr many ↦ elim (Bool-cases (is_lt (cmp d (s.data_of (s.prev lh.tail))))) [
          | inl lt ↦
              let end : s.prev lh.tail ≡ last x xs = prev-tail (x ∷ xs) is in
              rw (is.chain.0, more, many, lt) (many-KeepsOrder x xs fuel is a (rw end at lt) h)
          | inr ge ↦
              let end : s.prev lh.tail ≡ last x xs = prev-tail (x ∷ xs) is in
              let ge' : is_lt (cmp d (s.data_of (last x xs))) ≡ false = rw end at ge in
              let below : le cmp (s.data_of (last x xs)) d ≡ true =
                ground (arith, o.flip d (s.data_of (last x xs))) in
              let all = upto-all cmp s.data_of o d x xs a below in
              let kept = Ascending-upto cmp s.data_of o lnk (x ∷ xs) a in
              (
                x ∷ xs,
                [],
                append-nil (x ∷ xs),
                rw (is.chain.0, more, many, end, ge'),
                rw (all.0, all.1) at kept,
              )
        ]
      ]
