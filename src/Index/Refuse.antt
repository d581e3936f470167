-- ===== src/Index/Refuse.antt =====
-- lib/index.c, `addIndexItem`: what a unique index refuses.
use osdb_dcdb.Prelude.{
  ℕ, ◌≡◌, refl, ap, ◌∙◌, true, false, is_lt, some, List, [], ◌∷◌, ◌==◌, ==_self, has, has-ne,
  has-append, arith,
}
use osdb_dcdb.Blocks.Copies.{next_address, allocated, new_link}
use osdb_dcdb.Blocks.Records.{new_link-IsList}
use osdb_dcdb.Cache
use osdb_dcdb.Cache.{DbIndex, IdxErrorType}
use osdb_dcdb.Cache.Touch.{Uses}
use osdb_dcdb.Index.{Index, item_of, search_exact_index_item}
use osdb_dcdb.Index.Add.{add_index_item, add_checked}
use osdb_dcdb.Index.Choice.{AllNames}
use osdb_dcdb.Index.Exact.{CanSearch, search_exact_index_item-first_equal}
use osdb_dcdb.Index.Leaves.{Leaf, Keeps, Chained-kept}
use osdb_dcdb.Index.Listing.{all_items}
use osdb_dcdb.Links.{error, Compare, null}
use osdb_dcdb.Links.Insert.{IsOutside}
use osdb_dcdb.Shells.Search.Plain.{first_equal}

AllNames-same :
    (cmp : Compare) (dat keys keys' n n' : ℕ → ℕ) (ks : List ℕ) (fs : List Leaf)
    → ((k : ℕ) → has k ks ≡ true → (keys' k ≡ keys k) × (n' k ≡ n k))
    → AllNames cmp dat keys n ks fs
    → AllNames cmp dat keys' n' ks fs
AllNames-same cmp dat keys keys' n n' [] [] same ns = tt
AllNames-same cmp dat keys keys' n n' [] (f ∷ fs) same ns = absurd ns
AllNames-same cmp dat keys keys' n n' (k ∷ ks) [] same ns = absurd ns
AllNames-same cmp dat keys keys' n n' (k ∷ ks) (f ∷ fs) same ns =
    let here = same k (ground (arith, ==_self k)) in
    (
      record {
        real = ns.0.real;
        number = here.1 ∙ ns.0.number;
        key = λ d. ap (cmp d) here.0 ∙ ns.0.key d;
      },
      AllNames-same cmp dat keys keys' n n' ks fs (λ a h. same a (ground (arith, h))) ns.1,
    )

-- The link for the new item, in the store of the shell.
abbrev pub with_link : (lnk ki : ℕ) → Index → Index
with_link lnk ki idx =
    let i = record idx { cache = record idx.cache { heap = allocated idx.cache.heap } } in
    record i { inx = record i.inx { store = new_link lnk ki i.inx.store } }

other_data :
    (lnk ki : ℕ) (idx : Index) (ks : List ℕ)
    → IsOutside lnk idx.inx.lh ks
    → (a : ℕ) → has a ks ≡ true
    → (with_link lnk ki idx).inx.store.data_of a ≡ idx.inx.store.data_of a
other_data lnk ki idx ks out a h =
    let apart : has lnk ks ≡ false =
      ground (arith, out, has-append lnk ks (idx.inx.lh.tail ∷ [])) in
    rw (has-ne a lnk ks h apart) refl

pub with_link-CanSearch :
    (fuel lnk ki : ℕ) (idx : Index) (f : Leaf) (fs : List Leaf) (k : ℕ) (ks : List ℕ)
    → CanSearch fuel idx f fs k ks
    → IsOutside lnk idx.inx.lh (k ∷ ks)
    → CanSearch fuel (with_link lnk ki idx) f fs k ks
with_link-CanSearch fuel lnk ki idx f fs k ks can out =
    let uses : Uses (with_link lnk ki idx).cache can.order = record {
      links = can.uses.links;
      holds = can.uses.holds;
      real = can.uses.real;
      named = can.uses.named;
    } in
    let keeps : Keeps idx.cache (with_link lnk ki idx).cache can.uses uses = record {
      numbers = λ a. refl;
      lists = λ a. refl;
      bytes = λ a. refl;
      same_data = refl;
      elsewhere = λ a h. record { next = refl; prev = refl; data_of = refl };
      outside = λ a h. h;
      members = λ a h. h;
      orders = λ n h. h;
    } in
    record {
      order = can.order;
      uses = uses;
      distinct = can.distinct;
      enough = can.enough;
      chained = Chained-kept (f ∷ fs) keeps can.chained;
      lawful = can.lawful;
      increasing = can.increasing;
      shell = new_link-IsList lnk ki can.shell out;
      bare = can.bare;
      calm = can.calm;
      few_blocks = can.few_blocks;
      few_items = can.few_items;
      names =
          AllNames-same idx.inx.compare idx.cache.heap.store.data_of idx.inx.store.data_of
            (with_link lnk ki idx).inx.store.data_of (λ l. item_of (idx.inx.store.data_of l) idx)
            (λ l. item_of ((with_link lnk ki idx).inx.store.data_of l) idx) (k ∷ ks) (f ∷ fs)
            (λ a h.
              let e = other_data lnk ki idx (k ∷ ks) out a h in (e, ap (λ d. item_of d idx) e))
            can.names;
    }

pub with_link-CanSearch-links :
    (fuel lnk ki : ℕ) (idx : Index) (f : Leaf) (fs : List Leaf) (k : ℕ) (ks : List ℕ)
    (can : CanSearch fuel idx f fs k ks) (out : IsOutside lnk idx.inx.lh (k ∷ ks))
    → (with_link-CanSearch fuel lnk ki idx f fs k ks can out).uses.links ≡ can.uses.links
unfolding with_link-CanSearch
with_link-CanSearch-links fuel lnk ki idx f fs k ks can out = refl

-- In an index as for the exact search, with an item that is equal to the new one and a first key
-- that is not greater, and with memory for a link that is not in the shell, addIndexItem refuses
-- the new item with IDX_UNIQUE.
pub add_index_item-unique :
    (fuel : ℕ) (idx : Index) (ki : ℕ) (f : Leaf) (fs : List Leaf) (k : ℕ) (ks : List ℕ)
    → CanSearch fuel idx f fs k ks
    → idx.cache.hdr.is_unique ≡ true
    → (idx.inx.lh.number == 0) ≡ false
    → is_lt (idx.inx.compare ki (idx.inx.store.data_of k)) ≡ false
    → (next_address idx.cache.heap.supply == null) ≡ false
    → IsOutside (next_address idx.cache.heap.supply) idx.inx.lh (k ∷ ks)
    → (first_equal idx.inx.compare idx.cache.heap.store.data_of ki (all_items (f ∷ fs)) == null)
      ≡ false
    → (r : Index) × (add_index_item fuel idx ki ≡ some (error, r))
      × (r.cache.idx_error ≡ Cache.unique)
unfolding add_index_item
add_index_item-unique fuel idx ki f fs k ks can unique some_blocks not_first memory out equal =
    let lnk = next_address idx.cache.heap.supply in
    let now = with_link lnk ki idx in
    let (r, run, _) =
      search_exact_index_item-first_equal fuel lnk now f fs k ks
        (with_link-CanSearch fuel lnk ki idx f fs k ks can out) unique in
    let key : now.inx.store.data_of lnk ≡ ki = rw (==_self lnk) refl in
    let found =
      first_equal idx.inx.compare idx.cache.heap.store.data_of (now.inx.store.data_of lnk)
        (all_items (f ∷ fs)) in
    let some_item : (found == null) ≡ false =
      ap
        (λ d.
          first_equal idx.inx.compare idx.cache.heap.store.data_of d (all_items (f ∷ fs)) == null)
        key
      ∙ equal in
    let start : add_index_item fuel idx ki
        ≡ add_checked fuel ki lnk (search_exact_index_item fuel now lnk) =
      rw (some_blocks, can.shell.chain.0, not_first, memory, unique) refl in
    (
      record r { cache = record r.cache { idx_error = Cache.unique } },
      start ∙ ap (add_checked fuel ki lnk) run ∙ rw some_item refl,
      refl,
    )
