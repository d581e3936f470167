-- ===== src/Cache/Fetch.antt =====
-- lib/idxblk.c, `getIndexBlock` as a whole, on a block that is not in memory.
use osdb_dcdb.Prelude.{
  ℕ, ◌<◌, ◌≡◌, refl, ap, ◌∙◌, Bool-cases, true, false, some, List, [], ◌∷◌, arith, ◌==◌, ==_self,
  length, has, inl, inr,
}
use osdb_dcdb.Blocks.Records.{Pair, links, records}
use osdb_dcdb.Blocks.Sequence.{set}
use osdb_dcdb.Cache.{DbIndex, get_index_block, victim, taken, miss, with_store, block_header_size}
use osdb_dcdb.Cache.Hits.{Lack, find_back-missing, IsOutside-removed}
use osdb_dcdb.Cache.Load.{Loaded, Holds-same, places}
use osdb_dcdb.Cache.Miss.{CanReplace, miss-Loaded}
use osdb_dcdb.Cache.Number.{get_number}
use osdb_dcdb.Cache.Victims.{is_empty-nil, is_empty-cons}
use osdb_dcdb.Cache.WriteBack.{CanFlush}
use osdb_dcdb.Links.{Store, ListHeader, ListType, null, remove_link}
use osdb_dcdb.Links.Chain.{IsList}
use osdb_dcdb.Links.Ends.{IsPlaced, remove_link-queued}
use osdb_dcdb.Links.Frame.{IsList-SameOn}
use osdb_dcdb.Links.Remove.{Removed}

-- The index after the link has left the blocks in use.
abbrev without : ListHeader → Store → DbIndex → DbIndex
without lh s idx = with_store s (record idx { used = lh })

module _ {idx : DbIndex} {lnk p n : ℕ} {bs : List (List ℕ)} {ps : List Pair} {ts : List (List ℕ)}
    {bytes : List ℕ} {qs : List Pair} {more xs : List ℕ}
    (can : CanReplace idx lnk p n bs ps ts bytes qs more xs) where
  -- The items of the block that goes are no links of the blocks in use.
  away :
      (a : ℕ)
      → has a (places (idx.blocks p).key_item_list (links ps)) ≡ true
      → has a (places idx.used (lnk ∷ xs)) ≡ false
  away a h = elim (Bool-cases (has a (lnk ∷ places idx.used xs))) [
    | inl inside ↦ absurd (ground (arith, can.apart_out a inside, h))
    | inr out ↦ ground arith
  ]

  -- The departure of the link from the blocks in use changes nothing of this.
  module _ {c : ℕ} {r : ℕ × ListHeader × Store}
      (gone : Removed lnk [] xs c idx.used idx.heap.store r) where
    can_still_flush : CanFlush (without r.1 r.2 idx) p bs ps ts
    can_still_flush = record {
      file = can.out.file;
      there = can.out.there;
      items = IsList-SameOn can.out.items λ a h. gone.elsewhere a (away a h);
      copies =
          Holds-same idx.heap (record idx.heap { store = r.2 }) ps ts refl
            (λ a h. ap (λ f. f a) gone.same_data) can.out.copies;
      full = can.out.full;
      few = can.out.few;
      sized = can.out.sized;
      fits = can.out.fits;
      small = can.out.small;
      room = can.out.room;
      near = can.out.near;
    }

    can_still : CanReplace (without r.1 r.2 idx) lnk p n bs ps ts bytes qs more xs
    can_still = record {
      block = ap (λ f. f lnk) gone.same_data ∙ can.block;
      out = can_still_flush;
      ordered = can.ordered;
      real = can.real;
      other = can.other;
      there = can.there;
      near = can.near;
      some_items = can.some_items;
      counted = can.counted;
      few = can.few;
      inside = can.inside;
      supply = can.supply;
      can = can.can;
      apart_out = rw (gone.same_head, gone.same_tail) can.apart_out;
      apart_in = rw (gone.same_head, gone.same_tail) can.apart_in;
    }

-- The link of the block that was used least recently is taken.
victim-taken :
    (idx : DbIndex) (lnk : ℕ) (xs : List ℕ)
    → IsList idx.heap.store idx.free []
    → IsList idx.heap.store idx.used (lnk ∷ xs)
    → (remove_link idx.used idx.heap.store).0 ≡ lnk
    → (lnk == null) ≡ false
    → let out = remove_link idx.used idx.heap.store in
      victim idx ≡ taken false lnk (without out.1 out.2 idx)
unfolding victim
victim-taken idx lnk xs free used returns real =
    rw (is_empty-nil free, is_empty-cons lnk xs used, returns, real) refl

-- Where no block is free, the blocks in use are a QUEUED list of other numbers, whose first link
-- is not NULL and whose header stands on a sentinel or one of its links, the fuel is above the
-- number of links and of the items of the first block, and that block can be replaced by the block
-- `n` of the file, the call returns the memory of the first block, filled from the file, with its
-- link behind the others in use. The file has the same blocks, except that the block of the former
-- number counts the former items and has them in their order.
pub get_index_block-Loaded :
    (fuel : ℕ) {idx : DbIndex} {lnk p n : ℕ} {bs : List (List ℕ)} {ps : List Pair}
    {ts : List (List ℕ)} {bytes : List ℕ} {qs : List Pair} {more xs : List ℕ}
    → CanReplace idx lnk p n bs ps ts bytes qs more xs
    → IsList idx.heap.store idx.free []
    → IsList idx.heap.store idx.used (lnk ∷ xs)
    → idx.used.type ≡ ListType.queued
    → IsPlaced idx.used (lnk ∷ xs)
    → (lnk == null) ≡ false
    → Lack idx n (lnk ∷ xs)
    → length (lnk ∷ xs) < fuel
    → length ps < fuel
    → (r : DbIndex) × (written : List ℕ) × (get_index_block fuel idx n ≡ some (p, r))
      × Loaded idx.hdr lnk p n bytes (set (idx.blocks p).block_number written bs) qs xs r
      × (get_number written ≡ length ps)
      × (records (idx.blocks p).item_size block_header_size 0 (length ps) written ≡ ts)
unfolding get_index_block
get_index_block-Loaded fuel {idx} {lnk} {p} {n} {bs} {ps} {ts} {bytes} {qs} {more} {xs} can free
      used queue placed real lack enough enough' =
    let gone = remove_link-queued lnk xs used queue placed in
    let out = remove_link idx.used idx.heap.store in
    let (r, written, run, l, number, copies) =
      miss-Loaded fuel false (can_still can gone) gone.holds (gone.same_type ∙ queue)
        (rw (gone.same_head, gone.same_tail)
          (IsOutside-removed idx.heap.store idx.used lnk [] xs used))
        enough' in
    let start : get_index_block fuel idx n ≡ miss fuel n (victim idx) =
      rw
        (
          is_empty-cons lnk xs used,
          find_back-missing idx n (lnk ∷ xs) fuel used lack enough,
          ==_self idx.used.head,
        )
        refl in
    (
      r,
      written,
      start ∙ ap (miss fuel n) (victim-taken idx lnk xs free used gone.returns real) ∙ run,
      l,
      number,
      copies,
    )
