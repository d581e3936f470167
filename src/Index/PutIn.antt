-- ===== src/Index/PutIn.antt =====
-- lib/index.c, `addIndexItem`: the item goes into the block that was found, if this has room.
use osdb_dcdb.Prelude.{
  ℕ, ◌^◌, ◌+◌, ◌%◌, ◌<◌, ◌≡◌, refl, sym, ap, ◌∙◌, false, some, List, [], ◌∷◌, ◌++◌, ◌==◌, ==_self,
  has, has-append, Distinct, length, length-append, ltb, arith,
}
use mathlib.Core.Path.{subst}
use native.Mathlib.Nat.{mod-le}
use osdb_dcdb.Blocks.Records.{new_link-SameAt}
use osdb_dcdb.Cache.{DbIndex, IdxErrorType, get_index_block}
use osdb_dcdb.Cache.Split.{set_first}
use osdb_dcdb.Cache.Touch.{Uses}
use osdb_dcdb.Index.{Index}
use osdb_dcdb.Index.Add.{Done, in_block, one_more_item, put_behind, split_over}
use osdb_dcdb.Index.Arrive.{reach}
use osdb_dcdb.Index.Leaves.{Leaf, items, InMemory-kept, Touched-Keeps, next_number, Chained}
use osdb_dcdb.Index.Order.{Increasing}
use osdb_dcdb.Index.Room.{
  HasRoom, Placed, with_list, with_data, insert_item-Placed, Ascending-with_data,
}
use osdb_dcdb.Links.{ok, size_mod, ListHeader}
use osdb_dcdb.Links.Frame.{SameAt-trans}
use osdb_dcdb.Links.Insert.{IsOutside, SameAt}
use osdb_dcdb.Links.Chain.{IsList}
use osdb_dcdb.Links.Order.{IsOrder, Ascending}

-- The call ends with the item counted, and its block the same but for its list and first item.
abbrev pub completed : (p : ℕ) → Index → Index
completed p idx = let i = one_more_item idx in record i { cache = set_first p i.cache }

-- A block with room is not split.
pub Placed-completed :
    (fuel lnk ki p found : ℕ) (idx : Index) (xs : List ℕ) (e : IdxErrorType)
    → HasRoom idx lnk p xs
    → (d : Placed fuel lnk ki p idx xs)
    → split_over fuel p found e (completed p (with_list p d.left.1 d.left.2 idx))
      ≡ some (ok, completed p (with_list p d.left.1 d.left.2 idx))
Placed-completed fuel lnk ki p found idx xs e room d =
    let number : d.left.1.number ≡ length (d.us ++ lnk ∷ d.vs) % size_mod = d.put.holds.counted in
    let fits : ltb (idx.cache.blocks p).num_max_items d.left.1.number ≡ false = ground (
      arith,
      mod-le (length (d.us ++ lnk ∷ d.vs)) size_mod,
      length-append d.us (lnk ∷ d.vs),
      length-append d.us d.vs,
      ap length d.whole,
      room.room,
    ) in
    rw (==_self p, fits) refl

pub outside_items :
    (lnk : ℕ) (lh : ListHeader) (xs : List ℕ) → IsOutside lnk lh xs → has lnk xs ≡ false
outside_items lnk lh xs out = ground (arith, out, has-append lnk xs (lh.tail ∷ []))

beside :
    (a lnk : ℕ) (lh : ListHeader) (xs : List ℕ)
    → (a == lnk) ≡ false
    → IsOutside a lh xs
    → has a (lnk ∷ lh.head ∷ xs ++ lh.tail ∷ []) ≡ false
beside a lnk lh xs ne out = ground (arith, ne, out)

-- The block has been read: the insertion of the item completes the call.
module _ (fuel lnk ki found : ℕ) (idx : Index) (f : Leaf) (fs : List Leaf) {order : List ℕ}
    (u : Uses idx.cache order) (d : Distinct order) (enough : length order < fuel)
    (c : Chained idx.cache u (f ∷ fs)) (o : IsOrder idx.inx.compare) (rest : List ℕ)
    (i : Increasing idx.inx.compare idx.cache.heap.store.data_of (items f ++ rest))
    (room : HasRoom idx lnk f.place (items f)) (short : length (items f) < fuel) where
  pub record PutIn (a : Done) : Type 0 where
    pub r : Index
    pub returns : a ≡ some (ok, r)
    pub us : List ℕ
    pub vs : List ℕ
    pub parts : us ++ vs ≡ items f
    pub holds : IsList r.cache.heap.store (r.cache.blocks f.place).key_item_list (us ++ lnk ∷ vs)
    pub same_data : r.cache.heap.store.data_of ≡ with_data lnk ki idx.cache.heap.store.data_of
    pub ascending :
        Ascending idx.inx.compare (with_data lnk ki idx.cache.heap.store.data_of) (us ++ lnk ∷ vs)
    pub counted : r.cache.hdr.num_items ≡ (idx.cache.hdr.num_items + 1) % 2 ^ 64
    pub others : (a : ℕ) → (a == f.place) ≡ false → r.cache.blocks a ≡ idx.cache.blocks a
    pub elsewhere :
        (a : ℕ)
        → (a == lnk) ≡ false
        → IsOutside a idx.cache.used u.links
        → IsOutside a (idx.cache.blocks f.place).key_item_list (items f)
        → SameAt idx.cache.heap.store r.cache.heap.store a

  in_order :
      (a b : ℕ → ℕ) (xs : List ℕ)
      → a ≡ b
      → Ascending idx.inx.compare (with_data lnk ki a) xs
      → Ascending idx.inx.compare (with_data lnk ki b) xs
  in_order a b xs e = subst (λ dat. Ascending idx.inx.compare (with_data lnk ki dat) xs) e

  pub put_in :
      PutIn (in_block (put_behind fuel ki lnk found) idx (get_index_block fuel idx.cache f.number))
  put_in =
      let (r, run, t) = reach fuel idx.cache f fs u d enough c in
      let now = record idx { cache = r } in
      let m = InMemory-kept (next_number fs) f (Touched-Keeps f.number f.place t) c.1 in
      let same_block : r.blocks f.place ≡ idx.cache.blocks f.place =
        ap (λ (j : DbIndex). j.blocks f.place) t.same_rest in
      let room' : HasRoom now lnk f.place (items f) = record {
        sorted = rw same_block room.sorted;
        compared = rw same_block room.compared;
        outside = rw same_block room.outside;
        room = rw same_block room.room;
      } in
      let ascending =
        Ascending-with_data idx.inx.compare idx.cache.heap.store.data_of lnk ki (items f) rest
          (outside_items lnk (idx.cache.blocks f.place).key_item_list (items f) room.outside) i in
      let p =
        insert_item-Placed fuel lnk ki f.place now (items f) o m.holds room'
          (in_order _ _ (items f) (sym t.same_data) ascending) short in
      let last = completed f.place (with_list f.place p.left.1 p.left.2 now) in
      record {
        r = last;
        returns =
            ap (in_block (put_behind fuel ki lnk found) idx) run
            ∙ rw m.real (
                p.runs (λ j. split_over fuel f.place found IdxErrorType.list (completed f.place j)))
            ∙ Placed-completed fuel lnk ki f.place found now (items f) IdxErrorType.list room' p;
        us = p.us;
        vs = p.vs;
        parts = p.whole;
        holds = rw (==_self f.place) p.put.holds;
        same_data = p.put.same_data ∙ ap (with_data lnk ki) t.same_data;
        ascending = in_order _ _ (p.us ++ lnk ∷ p.vs) t.same_data p.ascending;
        counted = ap (λ (j : DbIndex). (j.hdr.num_items + 1) % 2 ^ 64) t.same_rest;
        others = λ a ne. rw ne (ap (λ (j : DbIndex). j.blocks a) t.same_rest);
        elsewhere = λ a ne used out.
            let out' : IsOutside a (r.blocks f.place).key_item_list (p.us ++ p.vs) =
              rw (same_block, p.whole) out in
            SameAt-trans a (t.elsewhere a used) (
              SameAt-trans a (new_link-SameAt lnk ki a r.heap.store ne) (
                p.put.elsewhere a
                  (beside a lnk (r.blocks f.place).key_item_list (p.us ++ p.vs) ne out')));
      }
