-- ===== src/Cache/Miss.antt =====
-- lib/idxblk.c, `getIndexBlock` on a block that is not in memory: a block that is in memory is
-- written out, and gives its memory to the one that is read.
use osdb_dcdb.Prelude.{
  ℕ, zero, suc, ◌+◌, ◌*◌, ◌^◌, ◌<◌, ◌≤◌, ◌≡◌, Bool, refl, ap, ◌∙◌, true, false, some, List, [], ◌∷◌,
  ◌++◌, arith, ◌==◌, ==_self, length, has, inl,
}
use osdb_dcdb.Blocks.Records.{Pair, links, addresses, records, CanTake}
use osdb_dcdb.Blocks.Refine.{IsBlockFile}
use osdb_dcdb.Blocks.Sequence.{get_elem?, set}
use osdb_dcdb.Cache.{
  IdxBlock, DbIndex, flush, clear_items, miss, loaded_after, taken, set_block, with_store,
  block_header_size,
}
use osdb_dcdb.Cache.Load.{CanLoad, Loaded, load-Loaded, places}
use osdb_dcdb.Cache.Number.{get_number}
use osdb_dcdb.Cache.WriteBack.{CanFlush, flush-Written}
use osdb_dcdb.Links.{ok, Store, ListHeader, ListType, null, clear_list}
use osdb_dcdb.Blocks.Back.{length-links}
use osdb_dcdb.Links.Chain.{IsList}
use osdb_dcdb.Links.Clear.{Cleared, clear_list-Cleared}
use osdb_dcdb.Links.Frame.{IsList-SameOn}
use osdb_dcdb.Links.Insert.{IsOutside}

-- The block of the link `lnk` can be written out, and its memory can be filled from the block `n`.
pub record CanReplace (idx : DbIndex) (lnk p n : ℕ) (bs : List (List ℕ)) (ps : List Pair)
    (ts : List (List ℕ)) (bytes : List ℕ) (qs : List Pair) (more xs : List ℕ) : Type 0 where
  pub block : idx.heap.store.data_of lnk ≡ p
  pub out : CanFlush idx p bs ps ts
  pub ordered : (idx.blocks p).key_item_list.type ≡ ListType.slow_sorted
  pub real : has null (links ps) ≡ false
  pub other : (n == (idx.blocks p).block_number) ≡ false
  pub there : get_elem? bs n ≡ some bytes
  pub near : n * idx.hdr.block_size < 2 ^ 63
  pub some_items : (idx.hdr.item_size == 0) ≡ false
  pub counted : get_number bytes ≡ length qs
  pub few : length qs < 2 ^ 31
  pub inside : block_header_size + length qs * idx.hdr.item_size ≤ idx.hdr.block_size
  pub supply : idx.heap.supply ≡ addresses qs ++ more
  pub can : CanTake (idx.blocks p).key_item_list.head (idx.blocks p).key_item_list.tail [] qs
  pub apart_out :
      (a : ℕ)
      → has a (lnk ∷ places idx.used xs) ≡ true
      → has a (places (idx.blocks p).key_item_list (links ps)) ≡ false
  pub apart_in :
      (a : ℕ)
      → has a (places (idx.blocks p).key_item_list (links qs)) ≡ true
      → has a (lnk ∷ places idx.used xs) ≡ false

get_elem?-set :
    (n m : ℕ) (b : List ℕ) (bs : List (List ℕ))
    → (n == m) ≡ false
    → get_elem? (set m b bs) n ≡ get_elem? bs n
get_elem?-set n m b [] h = refl
get_elem?-set zero zero b (c ∷ bs) h = absurd (ground (arith, h))
get_elem?-set zero (suc m) b (c ∷ bs) h = refl
get_elem?-set (suc n) zero b (c ∷ bs) h = refl
get_elem?-set (suc n) (suc m) b (c ∷ bs) h = get_elem?-set n m b bs (ground (arith, h))

clear_items-emptied :
    (fuel p : ℕ) (idx : DbIndex) (lh : ListHeader) (s : Store)
    → clear_list fuel (some (idx.blocks p).key_item_list) idx.heap.store ≡ some (ok, some lh, s)
    → clear_items fuel p idx
      ≡ some (ok, set_block p (record (idx.blocks p) { key_item_list = lh }) (with_store s idx))
unfolding clear_items
clear_items-emptied fuel p idx lh s e = rw (clear_items, e) refl

module _ {idx : DbIndex} {lnk p n : ℕ} {bs : List (List ℕ)} {ps : List Pair} {ts : List (List ℕ)}
    {bytes : List ℕ} {qs : List Pair} {more xs : List ℕ}
    (can : CanReplace idx lnk p n bs ps ts bytes qs more xs)
    (used : IsList idx.heap.store idx.used xs) (queue : idx.used.type ≡ ListType.queued)
    (outside : IsOutside lnk idx.used xs) where
  abbrev emptied : List ℕ → ListHeader → IdxBlock
  emptied written lh = record (idx.blocks p) { blk = written; key_item_list = lh }

  -- Whatever else has changed, with the list of the items empty the block can be read.
  ready :
      (now : DbIndex) (written : List ℕ) (lh : ListHeader)
      → now.hdr ≡ idx.hdr
      → now.used ≡ idx.used
      → now.heap.supply ≡ idx.heap.supply
      → now.blocks p ≡ emptied written lh
      → Cleared (links ps) (idx.blocks p).key_item_list idx.heap.store (lh, now.heap.store)
      → length written ≡ idx.hdr.block_size
      → IsBlockFile idx.hdr.block_size (set (idx.blocks p).block_number written bs) now.file
      → CanLoad now lnk p n (set (idx.blocks p).block_number written bs) bytes qs more xs
  ready now written lh hdr same supply at_p done sized file = record {
    file = rw hdr file;
    there = get_elem?-set n (idx.blocks p).block_number written bs can.other ∙ can.there;
    near = rw hdr can.near;
    sized = rw (at_p, hdr) sized;
    some_items = rw hdr can.some_items;
    counted = can.counted;
    few = can.few;
    inside = rw hdr can.inside;
    empty = rw at_p done.empty;
    supply = supply ∙ can.supply;
    can = rw (at_p, done.same_head, done.same_tail) can.can;
    used = rw same (IsList-SameOn used λ a h. done.elsewhere a (can.apart_out a (ground arith)));
    queue = rw same queue;
    outside = rw same outside;
    apart = rw (same, at_p, done.same_head, done.same_tail) can.apart_in;
  }

-- The block that is in memory gives its memory to the block `n`.
pub miss-Loaded :
    (fuel : ℕ) {idx : DbIndex} {lnk p n : ℕ} {bs : List (List ℕ)} {ps : List Pair}
    {ts : List (List ℕ)} {bytes : List ℕ} {qs : List Pair} {more xs : List ℕ} (was_free : Bool)
    → CanReplace idx lnk p n bs ps ts bytes qs more xs
    → IsList idx.heap.store idx.used xs
    → idx.used.type ≡ ListType.queued
    → IsOutside lnk idx.used xs
    → length ps < fuel
    → let b = idx.blocks p in
      (r : DbIndex) × (written : List ℕ) × (miss fuel n (taken was_free lnk idx) ≡ some (p, r))
      × Loaded idx.hdr lnk p n bytes (set b.block_number written bs) qs xs r
      × (get_number written ≡ length ps)
      × (records b.item_size block_header_size 0 (length ps) written ≡ ts)
unfolding miss
miss-Loaded fuel {idx} {lnk} {p} {n} {bs} {ps} {ts} {bytes} {qs} {more} {xs} was_free can used queue
      outside enough =
    let b = idx.blocks p in
    let (written, g, wrote) = flush-Written can.out in
    let (c, run, done) =
      clear_list-Cleared fuel idx.heap.store b.key_item_list (links ps) can.out.items
        (inl (rw can.ordered tt)) can.real (omega (arith, length-links ps, enough)) in
    let idx₁ = record (set_block p (record b { blk = written }) idx) { file = g } in
    let idx₂ = set_block p (record (idx₁.blocks p) { key_item_list = c.0 }) (with_store c.1 idx₁) in
    let clear : clear_items fuel p idx₁ ≡ some (ok, idx₂) =
      clear_items-emptied fuel p idx₁ c.0 c.1 (rw (==_self p) run) in
    let (r, loads, l) = load-Loaded fuel (
      ready can used queue outside idx₂ written c.0 refl refl refl (rw (==_self p) refl) done
        wrote.sized wrote.file) in
    (
      r,
      written,
      ap (λ q. loaded_after fuel lnk q n (clear_items fuel q (flush q idx))) can.block
          ∙ ap (λ i. loaded_after fuel lnk p n (clear_items fuel p i)) wrote.leaves
          ∙ ap (loaded_after fuel lnk p n) clear
          ∙ loads,
      l,
      wrote.number,
      wrote.copies,
    )
