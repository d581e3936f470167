-- ===== src/Index/Place.antt =====
-- lib/index.c, `addIndexItem`: where a block that has room takes a new item.
use osdb_dcdb.Prelude.{ℕ, ◌≡◌, Option, List, ◌∷◌, ◌++◌, inl, inr, ◌⊎◌}
use osdb_dcdb.Links.{Status, Compare, Store, ListHeader, ListType, insert_link}
use osdb_dcdb.Links.Laws.{CanSort, InsertsBetween, insert_link-slow_sorted, insert_link-sorted}
use osdb_dcdb.Links.Order.{Ascending, upto, beyond, upto-append-beyond}

-- A compared insertion, of either kind, puts the link somewhere in its order.
abbrev pub InsertsSorted :
    Compare → ℕ → List ℕ → ListHeader → Store → Option (Status × ListHeader × Store) → Type 0
InsertsSorted cmp lnk xs lh s found =
    (us : List ℕ) × (vs : List ℕ) × (us ++ vs ≡ xs)
    × InsertsBetween lnk us vs lh s found
    × Ascending cmp s.data_of (us ++ lnk ∷ vs)

pub insert_link-InsertsSorted :
    (s : Store) (lh : ListHeader) (lnk fuel : ℕ) (cmp : Compare) (xs : List ℕ)
    → CanSort s lh cmp lnk fuel xs
    → (lh.type ≡ ListType.slow_sorted) ⊎ (lh.type ≡ ListType.sorted)
    → InsertsSorted cmp lnk xs lh s (insert_link fuel lh lnk s)
insert_link-InsertsSorted s lh lnk fuel cmp xs can (inl t) =
    let d = s.data_of lnk in
    let (put, kept) = insert_link-slow_sorted s lh lnk fuel cmp xs can t in
    (
      upto cmp s.data_of d xs,
      beyond cmp s.data_of d xs,
      upto-append-beyond cmp s.data_of d xs,
      put,
      kept,
    )
insert_link-InsertsSorted s lh lnk fuel cmp xs can (inr t) =
    insert_link-sorted s lh lnk fuel cmp xs can t
