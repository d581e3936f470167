-- ===== src/Cache/Load.antt =====
-- lib/idxblk.c, `getIndexBlock`: what it reads from the file into the memory of a block.
use osdb_dcdb.Prelude.{
  ℕ, ◌+◌, ◌*◌, ◌^◌, ◌<◌, ◌≤◌, ◌≡◌, refl, ap, ◌∙◌, true, false, Bool-cases, some, List, [], ◌∷◌,
  ◌++◌, arith, ◌==◌, ==_self, length, has, has-append, inl, inr,
}
use mathlib.Core.List.{append-nil}
use osdb_dcdb.Blocks.{File, get_file_block}
use osdb_dcdb.Blocks.Copies.{Heap, block_to_list, set_data}
use osdb_dcdb.Blocks.Records.{
  Pair, links, addresses, records, Holds, CanTake, CopiesOut, copy_out-CopiesOut, Linked-set_data,
}
use osdb_dcdb.Blocks.Refine.{IsBlockFile, promised, get_file_block-promised}
use osdb_dcdb.Blocks.Sequence.{get_elem?}
use osdb_dcdb.Cache.{
  DbIndex, IndexHeader, load, loaded, filled, set_block, with_store, with_items, block_read,
  returned, through_int, block_header_size, compare_of,
}
use osdb_dcdb.Cache.Number.{get_number}
use osdb_dcdb.Links.{Status, ok, Store, ListHeader, ListType}
use osdb_dcdb.Links.Chain.{IsList}
use osdb_dcdb.Links.Frame.{IsList-SameOn}
use osdb_dcdb.Links.Insert.{Inserted, IsOutside, SameAt}
use osdb_dcdb.Links.Laws.{insert_link-end}

-- The addresses of a list, with its sentinels.
abbrev pub places : ListHeader → List ℕ → List ℕ
places lh xs = lh.head ∷ xs ++ lh.tail ∷ []

-- The block `p`, whose list of items is empty, can be filled from the block `bytes` of the file:
-- its items fit in it, and there is memory for them, at addresses that are apart from the list of blocks in use.
pub record CanLoad (idx : DbIndex) (lnk p n : ℕ) (bs : List (List ℕ)) (bytes : List ℕ)
    (qs : List Pair) (more xs : List ℕ) : Type 0 where
  pub file : IsBlockFile idx.hdr.block_size bs idx.file
  pub there : get_elem? bs n ≡ some bytes
  pub near : n * idx.hdr.block_size < 2 ^ 63
  pub sized : length (idx.blocks p).blk ≡ idx.hdr.block_size
  pub some_items : (idx.hdr.item_size == 0) ≡ false
  pub counted : get_number bytes ≡ length qs
  pub few : length qs < 2 ^ 31
  pub inside : block_header_size + length qs * idx.hdr.item_size ≤ idx.hdr.block_size
  pub empty : IsList idx.heap.store (idx.blocks p).key_item_list []
  pub supply : idx.heap.supply ≡ addresses qs ++ more
  pub can : CanTake (idx.blocks p).key_item_list.head (idx.blocks p).key_item_list.tail [] qs
  pub used : IsList idx.heap.store idx.used xs
  pub queue : idx.used.type ≡ ListType.queued
  pub outside : IsOutside lnk idx.used xs
  pub apart :
      (a : ℕ)
      → has a (places (idx.blocks p).key_item_list (links qs)) ≡ true
      → has a (lnk ∷ places idx.used xs) ≡ false

-- What the call leaves.
pub record Loaded (hdr : IndexHeader) (lnk p n : ℕ) (bytes : List ℕ) (bs : List (List ℕ))
    (qs : List Pair) (xs : List ℕ) (r : DbIndex) : Type 0 where
  pub file : IsBlockFile hdr.block_size bs r.file
  pub used : IsList r.heap.store r.used (xs ++ lnk ∷ [])
  pub block : r.heap.store.data_of lnk ≡ p
  pub number : (r.blocks p).block_number ≡ n
  pub ordered : (r.blocks p).key_item_list.type ≡ ListType.slow_sorted
  pub items : IsList r.heap.store (r.blocks p).key_item_list (links qs)
  pub copies : Holds r.heap qs (records hdr.item_size block_header_size 0 (length qs) bytes)

-- The data of these links and the bytes of all buffers are the same.
pub Holds-same :
    (h h' : Heap) (ps : List Pair) (ts : List (List ℕ))
    → h'.contents ≡ h.contents
    → ((a : ℕ) → has a (links ps) ≡ true → h'.store.data_of a ≡ h.store.data_of a)
    → Holds h ps ts
    → Holds h' ps ts
unfolding Holds
Holds-same h h' [] [] e same hold = tt
Holds-same h h' [] (t ∷ ts) e same hold = absurd hold
Holds-same h h' (q ∷ ps) [] e same hold = absurd hold
Holds-same h h' ((b, l) ∷ ps) (t ∷ ts) e same hold = (
  same l (ground arith) ∙ hold.0,
  ap (λ f. f b) e ∙ hold.1,
  Holds-same h h' ps ts e (λ a m. same a (ground arith)) hold.2,
)

-- The insertion of the link behind the others in use leaves the new items alone.
module _ {idx : DbIndex} {lnk p n : ℕ} {bs : List (List ℕ)} {bytes : List ℕ} {qs : List Pair}
    {more xs : List ℕ} (can : CanLoad idx lnk p n bs bytes qs more xs) where
  abbrev items : ListHeader
  items = (idx.blocks p).key_item_list

  not_used :
      (a : ℕ) → has a (lnk ∷ places idx.used xs) ≡ true → has a (places items (links qs)) ≡ false
  not_used a h = elim (Bool-cases (has a (places (idx.blocks p).key_item_list (links qs)))) [
    | inl inside ↦ absurd (ground (arith, can.apart a inside, h))
    | inr out ↦ out
  ]

  abbrev size : ℕ
  size = idx.hdr.item_size

  module _ {c : ListHeader × Heap}
      (out : CopiesOut bytes size block_header_size 0 [] qs []
        (record items { type = ListType.unsorted })
        idx.heap
        more
        c) where
    abbrev marked : Store
    marked = set_data lnk p c.1.store

    used_marked : IsList marked idx.used xs
    used_marked =
        let is = IsList-SameOn can.used λ a h. out.elsewhere a (not_used a (ground arith)) in
        record {
          chain = Linked-set_data lnk p c.1.store idx.used.head (xs ++ idx.used.tail ∷ []) is.chain;
          distinct = is.distinct;
          counted = is.counted;
        }

    module _ {t : Status × ListHeader × Store} (ins : Inserted lnk xs [] idx.used marked t) where
      items_same : (a : ℕ) → has a (places items (links qs)) ≡ true → SameAt c.1.store t.2 a
      items_same a h =
          let away = can.apart a h in
          let at_t = ins.elsewhere a (rw (append-nil xs) away) in
          record { next = at_t.next; prev = at_t.prev; data_of = at_t.data_of ∙ ground arith }

      items_kept : IsList t.2 c.0 (links qs)
      items_kept =
          IsList-SameOn out.holds λ a h. items_same a (rw (out.same_head, out.same_tail) at h)

      copies_kept :
          Holds (record c.1 { store = t.2 }) qs (records size block_header_size 0 (length qs) bytes)
      copies_kept =
          Holds-same c.1 (record c.1 { store = t.2 }) qs _ refl
            (λ a h.
              (items_same a (ground (arith, has-append a (links qs) (items.tail ∷ [])))).data_of)
            out.copies

loaded-filled :
    (fuel lnk p n : ℕ) (idx : DbIndex) (bytes : List ℕ) (g : File) (k : ℕ)
    → (idx.hdr.item_size == 0) ≡ false
    → get_number bytes ≡ k
    → k < 2 ^ 31
    → loaded fuel lnk p n idx (ok, bytes, g)
      ≡ filled fuel lnk p
          (set_block p (block_read idx.hdr n bytes k (idx.blocks p)) (record idx { file = g }))
          (block_to_list
            (idx.blocks p).key_item_list
            idx.heap
            bytes
            idx.hdr.item_size
            k
            block_header_size)
loaded-filled fuel lnk p n idx bytes g k some_items counted few =
    let same : through_int k ≡ k = ground arith in rw (some_items, counted, same) refl

-- The block is read: the memory of the block `p` has the number, the list of its items holds the
-- records that the block of the file counts, in their order, and its link is the last in use.
pub load-Loaded :
    (fuel : ℕ) {idx : DbIndex} {lnk p n : ℕ} {bs : List (List ℕ)} {bytes : List ℕ} {qs : List Pair}
    {more xs : List ℕ}
    → CanLoad idx lnk p n bs bytes qs more xs
    → (r : DbIndex) × (load fuel lnk p n idx ≡ some (p, r))
      × Loaded idx.hdr lnk p n bytes bs qs xs r
unfolding load block_to_list
load-Loaded fuel {idx} {lnk} {p} {n} {bs} {bytes} {qs} {more} {xs} can =
    let b = idx.blocks p in
    let (answer, file, _) =
      get_file_block-promised idx.file bs b.blk n idx.hdr.block_size can.file can.sized can.near in
    let g = (get_file_block idx.file b.blk n idx.hdr.block_size).2 in
    let read : get_file_block idx.file b.blk n idx.hdr.block_size ≡ (ok, bytes, g) =
      ap (λ a. (a.0, a.1, g)) (answer ∙ ap (promised b.blk) can.there) in
    let start : IsList idx.heap.store (record b.key_item_list { type = ListType.unsorted }) [] =
      record {
        chain = can.empty.chain;
        distinct = can.empty.distinct;
        counted = can.empty.counted;
      } in
    let (c, run, out) =
      copy_out-CopiesOut bytes idx.hdr.item_size block_header_size 0 [] qs [] _ idx.heap more start
        (unfold Holds in tt) refl can.supply can.can in
    let (t, run', ins) =
      insert_link-end (marked can out) idx.used lnk fuel xs (used_marked can out) can.outside
        (inl can.queue) in
    let idx₁ = set_block p (block_read idx.hdr n bytes (length qs) b) (record idx { file = g }) in
    let items' : IsList t.2
        (record c.0 { type = ListType.slow_sorted; compare = some (compare_of idx.hdr) })
        (links qs) =
      let is = items_kept can out ins in
      record { chain = is.chain; distinct = is.distinct; counted = is.counted } in
    (
      with_store t.2 (record (with_items p lnk c.0 c.1 idx₁) { used = t.1 }),
      ap (loaded fuel lnk p n idx) read
          ∙ loaded-filled fuel lnk p n idx bytes g (length qs) can.some_items can.counted can.few
          ∙ ap (filled fuel lnk p idx₁) run
          ∙ ap (returned p (with_items p lnk c.0 c.1 idx₁)) run',
      record {
        file = file;
        used = ins.holds;
        block = ap (λ f. f lnk) ins.same_data ∙ rw (==_self lnk) refl;
        number = rw (==_self p) refl;
        ordered = rw (==_self p) refl;
        items = rw (==_self p) items';
        copies = copies_kept can out ins;
      },
    )
