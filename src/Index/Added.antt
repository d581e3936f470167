-- ===== src/Index/Added.antt =====
-- lib/index.c, `addIndexItem`: a new item of an index that is not unique, in a block with room.
use osdb_dcdb.Prelude.{
  ℕ, ◌^◌, ◌%◌, ◌+◌, ◌≡◌, refl, sym, ap, ◌∙◌, false, is_lt, some, none, List, [], ◌∷◌, ◌++◌, ◌==◌,
  ==_self, has, has-append, length, arith,
}
use mathlib.Core.Path.{subst}
use osdb_dcdb.Blocks.Copies.{next_address}
use osdb_dcdb.Cache.{get_index_block}
use osdb_dcdb.Index.{Index, item_of}
use osdb_dcdb.Index.Add.{in_block, put_behind, add_new, add_found, add_index_item}
use osdb_dcdb.Index.Choice.{closest-Chosen, all_items-append}
use osdb_dcdb.Index.Exact.{CanSearch, Chained-behind, short_leaf}
use osdb_dcdb.Index.Leaves.{Leaf, items}
use osdb_dcdb.Index.Listing.{all_items}
use osdb_dcdb.Index.Order.{Less, Greater, Increasing, Increasing-append}
use osdb_dcdb.Index.PutIn.{put_in, outside_items}
use osdb_dcdb.Index.Refuse.{with_link, with_link-CanSearch, with_link-CanSearch-links}
use osdb_dcdb.Index.Room.{HasRoom, with_data, Less-with_data, Greater-with_data}
use osdb_dcdb.Links.{ok, null}
use osdb_dcdb.Links.Chain.{IsList}
use osdb_dcdb.Links.Insert.{IsOutside, SameAt}
use osdb_dcdb.Links.Order.{Ascending}
use osdb_dcdb.Shells.Query.Plain.{closest, query_shell_item-plain}

-- Every block has room.
abbrev pub AllRoom : Index → (lnk : ℕ) → List Leaf → Type 0
AllRoom idx lnk [] = Unit
AllRoom idx lnk (f ∷ fs) = HasRoom idx lnk f.place (items f) × AllRoom idx lnk fs

outside_all :
    (idx : Index) (lnk : ℕ) (fs : List Leaf) → AllRoom idx lnk fs → has lnk (all_items fs) ≡ false
outside_all idx lnk [] r = refl
outside_all idx lnk (f ∷ fs) r = ground (
  arith,
  outside_all idx lnk fs r.1,
  outside_items lnk (idx.cache.blocks f.place).key_item_list (items f) r.0.outside,
  has-append lnk (items f) (all_items fs),
)

AllRoom-append :
    (idx : Index) (lnk : ℕ) (gs fs : List Leaf)
    → AllRoom idx lnk (gs ++ fs)
    → AllRoom idx lnk gs × AllRoom idx lnk fs
AllRoom-append idx lnk [] fs r = (tt, r)
AllRoom-append idx lnk (g ∷ gs) fs r =
    let (front, back) = AllRoom-append idx lnk gs fs r.1 in ((r.0, front), back)

-- The item is in the block that it belongs to: after the items that are not greater, before those
-- that are not less, with the blocks before lower and the blocks behind higher. The other blocks
-- are as they were, and so are the fields of all links but the new one, those of its block, and
-- those of the blocks in use.
pub record Added (idx : Index) (in_use : List ℕ) (lnk ki : ℕ) (fs : List Leaf) (r : Index)
    : Type 0 where
  pub before : List Leaf
  pub leaf : Leaf
  pub behind : List Leaf
  pub whole : fs ≡ before ++ leaf ∷ behind
  pub us : List ℕ
  pub vs : List ℕ
  pub parts : us ++ vs ≡ items leaf
  pub holds : IsList r.cache.heap.store (r.cache.blocks leaf.place).key_item_list (us ++ lnk ∷ vs)
  pub same_data : r.cache.heap.store.data_of ≡ with_data lnk ki idx.cache.heap.store.data_of
  pub ascending : Ascending idx.inx.compare r.cache.heap.store.data_of (us ++ lnk ∷ vs)
  pub lower : Less idx.inx.compare r.cache.heap.store.data_of ki (all_items before)
  pub higher : Greater idx.inx.compare r.cache.heap.store.data_of ki (all_items behind)
  pub counted : r.cache.hdr.num_items ≡ (idx.cache.hdr.num_items + 1) % 2 ^ 64
  pub others : (a : ℕ) → (a == leaf.place) ≡ false → r.cache.blocks a ≡ idx.cache.blocks a
  pub elsewhere :
      (a : ℕ)
      → (a == lnk) ≡ false
      → IsOutside a idx.cache.used in_use
      → IsOutside a (idx.cache.blocks leaf.place).key_item_list (items leaf)
      → SameAt idx.cache.heap.store r.cache.heap.store a

AllRoom-same :
    (idx now : Index) (lnk : ℕ) (fs : List Leaf)
    → now.cache.blocks ≡ idx.cache.blocks
    → now.inx.compare ≡ idx.inx.compare
    → AllRoom idx lnk fs
    → AllRoom now lnk fs
AllRoom-same idx now lnk [] b c r = tt
AllRoom-same idx now lnk (f ∷ fs) b c r = (
  record {
    sorted = rw b r.0.sorted;
    compared = rw (b, c) r.0.compared;
    outside = rw b r.0.outside;
    room = rw b r.0.room;
  },
  AllRoom-same idx now lnk fs b c r.1,
)

-- The shell has the link with the item: the call finds the block, and puts the item in.
add_new-Added :
    (fuel lnk ki : ℕ) (now : Index) (f : Leaf) (fs : List Leaf) (k : ℕ) (ks : List ℕ)
    → (can : CanSearch fuel now f fs k ks) → now.inx.store.data_of lnk ≡ ki
    → AllRoom now lnk (f ∷ fs)
    → (r : Index) × (add_new fuel ki lnk now ≡ some (ok, r))
      × Added now can.uses.links lnk ki (f ∷ fs) r
add_new-Added fuel lnk ki now f fs k ks can key rooms =
    let sh = now.inx in
    let d = sh.store.data_of lnk in
    let dat = now.cache.heap.store.data_of in
    let number_of : ℕ → ℕ = λ l. item_of (sh.store.data_of l) now in
    let found = closest sh.compare sh.store.data_of d none (k ∷ ks) in
    let (t, run, same) =
      query_shell_item-plain lnk fuel sh k ks can.shell can.bare can.calm can.few_blocks in
    let c =
      closest-Chosen sh.compare dat sh.store.data_of number_of can.lawful d k ks f fs can.names
        can.increasing in
    let ready = record now { inx = t } in
    let same_compare : t.compare ≡ sh.compare = ap (λ q. q.2) same.same_settings in
    let (rooms_before, room) = AllRoom-append ready lnk c.before (c.leaf ∷ c.behind) (
      subst (AllRoom ready lnk) c.whole
        (AllRoom-same now ready lnk (f ∷ fs) refl same_compare rooms)) in
    let p =
      put_in fuel lnk ki found ready c.leaf c.behind can.uses can.distinct can.enough
        (Chained-behind now.cache can.uses c.before (c.leaf ∷ c.behind) (f ∷ fs) c.whole
          can.chained)
        (rw same_compare can.lawful) (all_items c.behind)
        (Increasing-append t.compare dat (all_items c.before) (all_items (c.leaf ∷ c.behind)) (
          subst (Increasing t.compare dat)
            (ap all_items c.whole
              ∙ all_items-append sh.compare dat sh.store.data_of number_of c.before
                  (c.leaf ∷ c.behind))
            (subst (λ cmp. Increasing cmp dat (all_items (f ∷ fs))) (sym same_compare)
              can.increasing)))
        room.0
        (short_leaf fuel c.before c.leaf c.behind
          (omega (arith, ap (λ gs. length (all_items gs)) c.whole, can.few_items))) in
    let block : item_of (t.store.data_of found) ready ≡ c.leaf.number =
      ap (λ s. item_of (s.data_of found) now) same.same_store ∙ c.names.number in
    (
      p.r,
      ap (add_found fuel ki lnk now) run
          ∙ rw c.names.real (
              ap
                (λ n.
                  in_block (put_behind fuel ki lnk found) ready
                    (get_index_block fuel ready.cache n))
                block)
          ∙ p.returns,
      record {
        before = c.before;
        leaf = c.leaf;
        behind = c.behind;
        whole = c.whole;
        us = p.us;
        vs = p.vs;
        parts = p.parts;
        holds = p.holds;
        same_data = p.same_data;
        ascending =
            subst (λ cmp. Ascending cmp p.r.cache.heap.store.data_of (p.us ++ lnk ∷ p.vs))
              same_compare
              (subst (λ g. Ascending t.compare g (p.us ++ lnk ∷ p.vs)) (sym p.same_data)
                p.ascending);
        lower =
            subst (λ g. Less sh.compare g ki (all_items c.before)) (sym p.same_data)
              (Less-with_data sh.compare dat lnk ki ki (all_items c.before)
                (outside_all ready lnk c.before rooms_before)
                (subst (λ e. Less sh.compare dat e (all_items c.before)) key c.lower));
        higher =
            subst (λ g. Greater sh.compare g ki (all_items c.behind)) (sym p.same_data)
              (Greater-with_data sh.compare dat lnk ki ki (all_items c.behind)
                (outside_all ready lnk c.behind room.1)
                (subst (λ e. Greater sh.compare dat e (all_items c.behind)) key c.higher));
        counted = p.counted;
        others = p.others;
        elsewhere = p.elsewhere;
      },
    )

Added-with_link :
    (lnk ki : ℕ) (idx : Index) (in_use links : List ℕ) (fs : List Leaf) (r : Index)
    → links ≡ in_use
    → Added (with_link lnk ki idx) links lnk ki fs r
    → Added idx in_use lnk ki fs r
Added-with_link lnk ki idx in_use links fs r same a = record {
  before = a.before;
  leaf = a.leaf;
  behind = a.behind;
  whole = a.whole;
  us = a.us;
  vs = a.vs;
  parts = a.parts;
  holds = a.holds;
  same_data = a.same_data;
  ascending = a.ascending;
  lower = a.lower;
  higher = a.higher;
  counted = a.counted;
  others = a.others;
  elsewhere = λ b ne used out. a.elsewhere b ne (rw same used) out;
}

-- In an index that is not unique, with its items in strict order under a lawful compare function,
-- its blocks in memory, with sorted lists and room for an item each, and named by a shell with no
-- nodes, that is not empty, with memory for a link that is in neither the shell nor the blocks,
-- addIndexItem of an item not less than the first key returns _OK_ and leaves what Added says.
pub add_index_item-Added :
    (fuel : ℕ) (idx : Index) (ki : ℕ) (f : Leaf) (fs : List Leaf) (k : ℕ) (ks : List ℕ)
    → (can : CanSearch fuel idx f fs k ks) → idx.cache.hdr.is_unique ≡ false
    → (idx.inx.lh.number == 0) ≡ false
    → is_lt (idx.inx.compare ki (idx.inx.store.data_of k)) ≡ false
    → (next_address idx.cache.heap.supply == null) ≡ false
    → IsOutside (next_address idx.cache.heap.supply) idx.inx.lh (k ∷ ks)
    → AllRoom idx (next_address idx.cache.heap.supply) (f ∷ fs)
    → (r : Index) × (add_index_item fuel idx ki ≡ some (ok, r))
      × Added idx can.uses.links (next_address idx.cache.heap.supply) ki (f ∷ fs) r
unfolding add_index_item
add_index_item-Added fuel idx ki f fs k ks can not_unique some_blocks not_first memory out rooms =
    let lnk = next_address idx.cache.heap.supply in
    let now = with_link lnk ki idx in
    let can' = with_link-CanSearch fuel lnk ki idx f fs k ks can out in
    let key : now.inx.store.data_of lnk ≡ ki = rw (==_self lnk) refl in
    let (r, run, added) =
      add_new-Added fuel lnk ki now f fs k ks can' key
        (AllRoom-same idx now lnk (f ∷ fs) refl refl rooms) in
    let start : add_index_item fuel idx ki ≡ add_new fuel ki lnk now =
      rw (some_blocks, can.shell.chain.0, not_first, memory, not_unique) refl in
    (
      r,
      start ∙ run,
      Added-with_link lnk ki idx can.uses.links can'.uses.links (f ∷ fs) r
          (with_link-CanSearch-links fuel lnk ki idx f fs k ks can out) added,
    )
