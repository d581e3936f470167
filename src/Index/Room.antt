-- ===== src/Index/Room.antt =====
-- lib/index.c, `addIndexItem`: a new item in a block that has room.
use osdb_dcdb.Prelude.{
  ℕ, ◌<◌, ◌≡◌, ap, ◌∙◌, false, some, List, [], ◌∷◌, ◌++◌, ◌==◌, ==_iff, has, length, ◌⊎◌, arith,
  if◌then◌else◌,
}
use osdb_dcdb.Blocks.Copies.{new_link}
use osdb_dcdb.Blocks.Records.{new_link-IsList}
use osdb_dcdb.Index.{Index}
use osdb_dcdb.Index.Add.{Done, insert_item, put_item}
use osdb_dcdb.Index.Order.{Less, Greater, Increasing}
use osdb_dcdb.Index.Place.{insert_link-InsertsSorted}
use osdb_dcdb.Cache.{set_block}
use osdb_dcdb.Links.{Status, Compare, Store, ListHeader, ListType}
use osdb_dcdb.Links.Chain.{IsList}
use osdb_dcdb.Links.Insert.{IsOutside, Inserted}
use osdb_dcdb.Links.Order.{IsOrder, Above, Ascending}

-- The data of a new link, and those of all others.
abbrev pub with_data : (lnk ki : ℕ) → (ℕ → ℕ) → ℕ → ℕ
with_data lnk ki dat a = if a == lnk then ki else dat a

module _ (cmp : Compare) (dat : ℕ → ℕ) (lnk ki : ℕ) where
  pub Less-with_data :
      (d : ℕ) (xs : List ℕ)
      → has lnk xs ≡ false
      → Less cmp dat d xs
      → Less cmp (with_data lnk ki dat) d xs
  Less-with_data d [] out l = tt
  Less-with_data d (x ∷ xs) out l = (
    ground (arith, ==_iff x lnk, ==_iff lnk x, out, l.0),
    Less-with_data d xs (ground (arith, out)) l.1,
  )

  pub Greater-with_data :
      (d : ℕ) (xs : List ℕ)
      → has lnk xs ≡ false
      → Greater cmp dat d xs
      → Greater cmp (with_data lnk ki dat) d xs
  Greater-with_data d [] out g = tt
  Greater-with_data d (x ∷ xs) out g = (
    ground (arith, ==_iff x lnk, ==_iff lnk x, out, g.0),
    Greater-with_data d xs (ground (arith, out)) g.1,
  )

  Above-with_data :
      (d : ℕ) (xs : List ℕ)
      → has lnk xs ≡ false
      → Greater cmp dat d xs
      → Above cmp (with_data lnk ki dat) d xs
  Above-with_data d [] out g = tt
  Above-with_data d (x ∷ xs) out g = (
    ground (arith, ==_iff x lnk, ==_iff lnk x, out, g.0),
    Above-with_data d xs (ground (arith, out)) g.1,
  )

  Greater-front : (d : ℕ) (xs ys : List ℕ) → Greater cmp dat d (xs ++ ys) → Greater cmp dat d xs
  Greater-front d [] ys g = tt
  Greater-front d (x ∷ xs) ys g = (g.0, Greater-front d xs ys g.1)

  -- The items of a block, before those of others.
  pub Ascending-with_data :
      (xs ys : List ℕ)
      → has lnk xs ≡ false
      → Increasing cmp dat (xs ++ ys)
      → Ascending cmp (with_data lnk ki dat) xs
  Ascending-with_data [] ys out i = tt
  Ascending-with_data (x ∷ xs) ys out i =
      let other : with_data lnk ki dat x ≡ dat x =
        ground (arith, ==_iff x lnk, ==_iff lnk x, out) in
      (
        rw other
            (Above-with_data (dat x) xs (ground (arith, out)) (Greater-front (dat x) xs ys i.0)),
        Ascending-with_data xs ys (ground (arith, out)) i.1,
      )

-- The block at `p` has a sorted list, in which one more item fits.
pub record HasRoom (idx : Index) (lnk p : ℕ) (xs : List ℕ) : Type 0 where
  pub sorted :
      ((idx.cache.blocks p).key_item_list.type ≡ ListType.slow_sorted)
      ⊎ ((idx.cache.blocks p).key_item_list.type ≡ ListType.sorted)
  pub compared : (idx.cache.blocks p).key_item_list.compare ≡ some idx.inx.compare
  pub outside : IsOutside lnk (idx.cache.blocks p).key_item_list xs
  pub room : length xs < (idx.cache.blocks p).num_max_items

-- The list of the block at `p`, and the store, are others.
abbrev pub with_list : (p : ℕ) → ListHeader → Store → Index → Index
with_list p lh s idx =
    let cache = record idx.cache { heap = record idx.cache.heap { store = s } } in
    record idx { cache = set_block p (record (idx.cache.blocks p) { key_item_list = lh }) cache }

-- The item of the new link is in the list, in its order.
pub record Placed (fuel lnk ki p : ℕ) (idx : Index) (xs : List ℕ) : Type 0 where
  pub us : List ℕ
  pub vs : List ℕ
  pub whole : us ++ vs ≡ xs
  pub left : Status × ListHeader × Store
  pub runs :
      (go : Index → Done) → insert_item fuel lnk ki p go idx ≡ go (with_list p left.1 left.2 idx)
  pub put :
      Inserted lnk us vs
        (idx.cache.blocks p).key_item_list
        (new_link lnk ki idx.cache.heap.store)
        left
  pub ascending :
      Ascending idx.inx.compare (with_data lnk ki idx.cache.heap.store.data_of) (us ++ lnk ∷ vs)

pub insert_item-Placed :
    (fuel lnk ki p : ℕ) (idx : Index) (xs : List ℕ)
    → IsOrder idx.inx.compare
    → IsList idx.cache.heap.store (idx.cache.blocks p).key_item_list xs
    → HasRoom idx lnk p xs
    → Ascending idx.inx.compare (with_data lnk ki idx.cache.heap.store.data_of) xs
    → length xs < fuel
    → Placed fuel lnk ki p idx xs
insert_item-Placed fuel lnk ki p idx xs order is room ascending enough =
    let lh = (idx.cache.blocks p).key_item_list in
    let s = new_link lnk ki idx.cache.heap.store in
    let (us, vs, whole, ((st, lh', s'), run, put), kept) =
      insert_link-InsertsSorted s lh lnk fuel idx.inx.compare xs
        (record {
          holds = new_link-IsList lnk ki is room.outside;
          compared = room.compared;
          order = order;
          ascending = ascending;
          outside = room.outside;
          enough = enough;
        })
        room.sorted in
    record {
      us = us;
      vs = vs;
      whole = whole;
      left = (st, lh', s');
      runs = λ go.
          ap (put_item p go idx) run ∙ ap (λ t. put_item p go idx (some (t, lh', s'))) put.returns;
      put = put;
      ascending = kept;
    }
