-- ===== src/Links/Slow.antt =====
-- `insertLink` on a SLOWSORTED list.
use mathlib.Core.List.{append_assoc, append-nil}
use osdb_dcdb.Prelude.{
  ℕ, zero, suc, ◌<◌, ◌≡◌, refl, ap, true, List, [], ◌∷◌, ◌++◌, arith, Bool-cases, is_lt, is_gt,
  length, last, ==_self, some, inl, inr,
}
use osdb_dcdb.Links.{Store, ListHeader, Compare, slow_scan, insert_slow_sorted, insert_behind}
use osdb_dcdb.Links.Chain.{IsList, prev-tail}
use osdb_dcdb.Links.Places.{follower, around, no_sentinel, standing_at-IsList}
use osdb_dcdb.Links.Insert.{Inserted, IsOutside, insert_link_here-Inserted}
use osdb_dcdb.Links.Order.{IsOrder, le, Ascending, upto, upto-all}

-- The scan stops behind the links that are not greater.
slow_scan-upto :
    (cmp : Compare) (d : ℕ) {s : Store} {lh : ListHeader} (us zs : List ℕ) (fuel : ℕ)
    → IsList s lh (us ++ zs)
    → length zs < fuel
    → slow_scan cmp d lh.tail s fuel (follower zs lh.tail)
      ≡ some (last lh.head (us ++ upto cmp s.data_of d zs))
unfolding slow_scan
slow_scan-upto cmp d us zs zero is h = absurd (omega arith)
slow_scan-upto cmp d {s} {lh} us [] (suc fuel) is h =
    rw (==_self lh.tail, append-nil) (ap some (prev-tail us (rw append-nil at is)))
slow_scan-upto cmp d {s} {lh} us (z ∷ zs) (suc fuel) is h =
    let (before, after) = around z us zs is in
    let is' : IsList s lh ((us ++ z ∷ []) ++ zs) = rw append_assoc is in
    let rest : slow_scan cmp d lh.tail s fuel (follower zs lh.tail)
        ≡ some (last lh.head (us ++ z ∷ upto cmp s.data_of d zs)) =
      rw append_assoc at (slow_scan-upto cmp d (us ++ z ∷ []) zs fuel is' (omega arith)) in
    elim (Bool-cases (is_lt (cmp d (s.data_of z)))) [
      | inl e ↦ rw ((no_sentinel z us zs is).1, e, before, append-nil)
      | inr e ↦ rw ((no_sentinel z us zs is).1, e, after) rest
    ]

-- An insertion behind `us`, wherever the header stood.
pub insert_behind-Inserted :
    {s : Store} {lh : ListHeader} (lnk : ℕ) (us vs : List ℕ)
    → IsList s lh (us ++ vs)
    → IsOutside lnk lh (us ++ vs)
    → Inserted lnk us vs lh s (insert_behind lh lnk s (last lh.head us))
insert_behind-Inserted {s} {lh} lnk us vs is out =
    let c = last lh.head us in
    let r = insert_link_here-Inserted lnk us vs (standing_at-IsList c is) out (inl refl) in
    record {
      returns = r.returns;
      holds = r.holds;
      current = r.current;
      same_head = r.same_head;
      same_tail = r.same_tail;
      same_type = r.same_type;
      same_compare = r.same_compare;
      same_data = r.same_data;
      same_freed = r.same_freed;
      elsewhere = r.elsewhere;
    }

-- The insertion ends, behind the last link that is not greater.
pub insert_slow_sorted-place :
    {s : Store} {lh : ListHeader} (cmp : Compare) (o : IsOrder cmp) (fuel lnk : ℕ) (xs : List ℕ)
    → IsList s lh xs
    → Ascending cmp s.data_of xs
    → length xs < fuel
    → insert_slow_sorted fuel cmp lh lnk s
      ≡ some (insert_behind lh lnk s (last lh.head (upto cmp s.data_of (s.data_of lnk) xs)))
unfolding insert_slow_sorted
insert_slow_sorted-place {s} {lh} cmp o fuel lnk [] is a f = rw (is.chain.0, ==_self lh.tail)
insert_slow_sorted-place {s} {lh} cmp o fuel lnk (x ∷ xs) is a f =
    let d = s.data_of lnk in
    let more = (no_sentinel x [] xs is).1 in
    let end : s.prev lh.tail ≡ last x xs = prev-tail (x ∷ xs) is in
    let scan = slow_scan-upto cmp d [] (x ∷ xs) fuel is f in
    elim (Bool-cases (is_lt (cmp d (s.data_of x)))) [
      | inl e ↦ rw (e, is.chain.0, more, e)
      | inr e ↦ elim (Bool-cases (is_gt (cmp d (s.data_of (last x xs))))) [
        | inl g ↦
            let below : le cmp (s.data_of (last x xs)) d ≡ true =
              ground (arith, o.flip d (s.data_of (last x xs))) in
            let all = (upto-all cmp s.data_of o d x xs a below).0 in
            rw (all, is.chain.0, more, e, end, g)
        | inr g ↦
            let kept : upto cmp s.data_of d (x ∷ xs) ≡ x ∷ upto cmp s.data_of d xs = rw e in
            rw (kept, is.chain.0, more, e, end, g, rw kept at scan)
      ]
    ]
