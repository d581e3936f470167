-- ===== src/Cache/Grow.antt =====
-- lib/idxblk.c, `getNewBlock`: the file gets one more block, with the memory of a free one.
use osdb_dcdb.Prelude.{
  ℕ, ◌≡◌, has-ne, refl, ap, ◌∙◌, Bool-cases, true, false, some, List, [], ◌∷◌, ◌++◌, arith, ◌==◌,
  ==_self, length, has, inl, inr,
}
use mathlib.Core.List.{append-nil}
use osdb_dcdb.Blocks.{File}
use osdb_dcdb.Blocks.Refine.{IsBlockFile, append_file_block-append}
use osdb_dcdb.Blocks.Trip.{Fits}
use osdb_dcdb.Cache.{DbIndex, victim, taken, set_block, with_store, returned}
use osdb_dcdb.Cache.Hits.{IsOutside-removed}
use osdb_dcdb.Cache.Load.{places}
use osdb_dcdb.Cache.New.{get_new_block, new_from, numbered}
use osdb_dcdb.Cache.Victims.{is_empty-nil, is_empty-cons}
use osdb_dcdb.Links.{Store, ListHeader, ListType, remove_link, is_empty_list, insert_link}
use osdb_dcdb.Links.Chain.{IsList}
use osdb_dcdb.Links.Depart.{resting}
use osdb_dcdb.Links.Places.{follower}
use osdb_dcdb.Links.Ends.{IsPlaced, remove_link-queued}
use osdb_dcdb.Links.Frame.{IsList-SameOn}
use osdb_dcdb.Links.Insert.{IsOutside}
use osdb_dcdb.Links.Laws.{insert_link-end}
use osdb_dcdb.Links.Remove.{Removed}

-- The block `p` is the first that is free, and the device has room for it behind the others.
pub record CanGrow (idx : DbIndex) (lnk p : ℕ) (bs : List (List ℕ)) (fs xs : List ℕ) : Type 0 where
  pub block : idx.heap.store.data_of lnk ≡ p
  pub file : IsBlockFile idx.hdr.block_size bs idx.file
  pub fits : Fits idx.file (idx.blocks p).blk (length idx.file.bytes) idx.hdr.block_size
  pub empty : IsList idx.heap.store (idx.blocks p).key_item_list []
  pub free : IsList idx.heap.store idx.free (lnk ∷ fs)
  pub free_queue : idx.free.type ≡ ListType.queued
  pub placed : IsPlaced idx.free (lnk ∷ fs)
  pub used : IsList idx.heap.store idx.used xs
  pub used_queue : idx.used.type ≡ ListType.queued
  pub apart_items :
      (a : ℕ)
      → has a (places (idx.blocks p).key_item_list []) ≡ true
      → has a (places idx.free (lnk ∷ fs)) ≡ false
  pub apart_used :
      (a : ℕ) → has a (places idx.free (lnk ∷ fs)) ≡ true → has a (places idx.used xs) ≡ false

-- What the call leaves.
pub record Grown (idx : DbIndex) (lnk p : ℕ) (bs : List (List ℕ)) (fs xs : List ℕ) (r : DbIndex)
    : Type 0 where
  pub file : IsBlockFile idx.hdr.block_size (bs ++ (idx.blocks p).blk ∷ []) r.file
  pub number : (r.blocks p).block_number ≡ length bs
  pub used : IsList r.heap.store r.used (xs ++ lnk ∷ [])
  pub free : IsList r.heap.store r.free fs

module _ {idx : DbIndex} {lnk p : ℕ} {bs : List (List ℕ)} {fs xs : List ℕ}
    (can : CanGrow idx lnk p bs fs xs) where
  abbrev out : ℕ × ListHeader × Store
  out = remove_link idx.free idx.heap.store

  abbrev taken_out : DbIndex
  taken_out = with_store out.2 (record idx { free = out.1 })

  not_free :
      (a : ℕ) → has a (places idx.used xs) ≡ true → has a (places idx.free (lnk ∷ fs)) ≡ false
  not_free a h = elim (Bool-cases (has a (places idx.free (lnk ∷ fs)))) [
    | inl inside ↦ absurd (ground (arith, can.apart_used a inside, h))
    | inr outside ↦ outside
  ]

  gone :
      Removed lnk [] fs
        (resting idx.free.head [] fs (follower fs idx.free.tail))
        idx.free
        idx.heap.store
        out
  gone = remove_link-queued lnk fs can.free can.free_queue can.placed

  victim-free : victim idx ≡ taken true lnk taken_out
  unfolding victim
  victim-free = rw (is_empty-cons lnk fs can.free, gone.returns) refl

  used_still : IsList out.2 idx.used xs
  used_still = IsList-SameOn can.used λ a h. gone.elsewhere a (not_free a h)

  items_still : is_empty_list (idx.blocks p).key_item_list out.2 ≡ true
  items_still = is_empty-nil (IsList-SameOn can.empty λ a h. gone.elsewhere a (can.apart_items a h))

  IsOutside-used : IsOutside lnk idx.used xs
  IsOutside-used = can.apart_used lnk (ground (arith, ==_self lnk))

  not_lnk_nor_used :
      (a : ℕ)
      → has a (places idx.free fs) ≡ true
      → has a (lnk ∷ idx.used.head ∷ (xs ++ []) ++ idx.used.tail ∷ []) ≡ false
  not_lnk_nor_used a h =
      let apart = can.apart_used a (ground arith) in
      let other : (a == lnk) ≡ false =
        has-ne a lnk (places idx.free fs) h
          (IsOutside-removed idx.heap.store idx.free lnk [] fs can.free) in
      rw (append-nil xs, other) apart

numbered-fits :
    (fuel lnk p n : ℕ) (idx : DbIndex) (g : File)
    → let idx₁ =
        set_block p (record (idx.blocks p) { block_number = n }) (record idx { file = g }) in
      numbered fuel lnk p n idx (some n, g)
      ≡ returned p idx₁ (insert_link fuel idx.used lnk idx.heap.store)
numbered-fits fuel lnk p n idx g = rw (==_self n) refl

-- Where the first free block can be appended, and the caller expects the number of blocks of the
-- file, the call returns that block with the number; its bytes are the last block of the file,
-- its link is the last in use, and the other free links stay free.
pub get_new_block-Grown :
    (fuel : ℕ) {idx : DbIndex} {lnk p : ℕ} {bs : List (List ℕ)} {fs xs : List ℕ}
    → CanGrow idx lnk p bs fs xs
    → (r : DbIndex) × (get_new_block fuel idx (length bs) ≡ some (p, r))
      × Grown idx lnk p bs fs xs r
unfolding get_new_block new_from
get_new_block-Grown fuel {idx} {lnk} {p} {bs} {fs} {xs} can =
    let now = taken_out can in
    let (g, appends, file, room) =
      append_file_block-append idx.file bs (idx.blocks p).blk idx.hdr.block_size can.file
        can.fits in
    let (t, run, ins) =
      insert_link-end now.heap.store idx.used lnk fuel xs (used_still can) (IsOutside-used can)
        (inl can.used_queue) in
    let idx₁ =
      set_block p (record (idx.blocks p) { block_number = length bs }) (record now { file = g }) in
    let block : now.heap.store.data_of lnk ≡ p = ap (λ f. f lnk) (gone can).same_data ∙ can.block in
    (
      record (with_store t.2 idx₁) { used = t.1 },
      ap (new_from fuel (length bs)) (victim-free can)
          ∙ rw (block, items_still can) refl
          ∙ ap (numbered fuel lnk p (length bs) now) appends
          ∙ numbered-fits fuel lnk p (length bs) now g
          ∙ ap (returned p idx₁) run,
      record {
        file = file;
        number = rw (==_self p) refl;
        used = ins.holds;
        free = IsList-SameOn (gone can).holds λ a h.
            ins.elsewhere a
              (not_lnk_nor_used can a (rw ((gone can).same_head, (gone can).same_tail) at h));
      },
    )
