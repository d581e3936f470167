-- ===== src/Cache.antt =====
-- lib/idxblk.c with the types of include/index.h: the blocks of an index that are in memory, in the
-- lists `used` and `free`. An idxBlock is an address, which links have as their data; `blocks` maps
-- addresses to idxBlocks. `fioError`, which this code does not read, is kept with the file and with
-- the heap. The header at the start of a block is read and written where a 64-bit
-- little-endian machine has it: 24 bytes, of which the first 4 are `numKeyItems`, an int; it is given
-- by its 32 bits, and so is `current_size`. What is read behind the end of a block, which C leaves
-- undefined, is cut off here; the theorems about the items of a block suppose that they fit in it.
-- A call gives `none` when a walk over links runs out of fuel, and the address 0 for NULL.
pub mod Fetch
pub mod Flush
pub mod FlushLoop
pub mod Grow
pub mod Halves
pub mod Hits
pub mod Load
pub mod Miss
pub mod New
pub mod Number
pub mod Order
pub mod Split
pub mod Touch
pub mod Victims
pub mod WriteBack
use osdb_dcdb.Prelude.{
  ℕ, zero, suc, ◌+◌, ◌-◌, ◌*◌, ◌/◌, ◌%◌, ◌^◌, Bool, true, false, not, Option, none, some, List, [],
  ◌∷◌, ltb, ◌==◌, if◌then◌else◌,
}
use osdb_dcdb.Blocks.{File, get_file_block, put_file_block, append_file_block}
use osdb_dcdb.Blocks.Copies.{Heap, Copied, set_data, block_to_list, list_to_block}
use osdb_dcdb.Cache.Number.{get_number, set_number}
use osdb_dcdb.Links.{
  Status, ok, error, Store, ListHeader, ListType, Compare, null, is_empty_list, insert_link,
  remove_link, clear_list,
}

pub data IdxErrorType : Type 0 where
  no_error fsystem no_memory list shell ftype unstable items unique sequence dup nexists
        unspecified :
      IdxErrorType

-- `key_item_list` is never NULL in an index that is open.
pub record IdxBlock : Type 0 where
  pub block_number : ℕ
  pub blk : List ℕ
  pub is_dirty : Bool
  pub num_max_items : ℕ
  pub item_size : ℕ
  pub current_size : ℕ
  pub first_item : ℕ
  pub current : ℕ
  pub key_item_list : ListHeader

-- The fields of the index header that the cache reads, with its two compare functions.
pub record IndexHeader : Type 0 where
  pub block_size : ℕ
  pub last_block : ℕ
  pub num_items : ℕ
  pub is_unique : Bool
  pub is_case : Bool
  pub item_size : ℕ
  pub case_compare : Compare
  pub no_case_compare : Compare

pub record DbIndex : Type 0 where
  pub file : File
  pub hdr : IndexHeader
  pub heap : Heap
  pub blocks : ℕ → IdxBlock
  pub free : ListHeader
  pub used : ListHeader
  pub idx_error : IdxErrorType

abbrev pub block_header_size : ℕ
block_header_size = 24

abbrev pub with_store : Store → DbIndex → DbIndex
with_store s idx = record idx { heap = record idx.heap { store = s } }

abbrev pub set_block : ℕ → IdxBlock → DbIndex → DbIndex
set_block p b idx = record idx { blocks = λ a. if a == p then b else idx.blocks a }

abbrev pub Found : Type 0
Found = Option (ℕ × DbIndex)

abbrev pub give_up : IdxErrorType → DbIndex → Found
give_up e idx = some (null, record idx { idx_error = e })

-- The search from the tail: the link of the block, or the head.
unfoldable pub find_back : ℕ → Store → (ℕ → IdxBlock) → (head blknum : ℕ) → ℕ → Option ℕ
find_back zero s blocks head blknum lnk = none
find_back (suc fuel) s blocks head blknum lnk =
    let rest = find_back fuel s blocks head blknum (s.prev lnk) in
    if lnk == head
    then some head
    else if (blocks (s.data_of lnk)).block_number == blknum
    then some lnk
    else rest

-- `insertLink (idx->used, lnk)`, then the block of the link.
abbrev pub returned : ℕ → DbIndex → Option (Status × ListHeader × Store) → Found
returned blk idx none = none
returned blk idx (some (st, lh, s)) = some (blk, with_store s (record idx { used = lh }))

-- The block is in memory: its link goes to the end of the list.
unfoldable pub hit : ℕ → ℕ → DbIndex → Found
hit fuel lnk idx =
    let (l, lh, s) =
      remove_link (record idx.used { type = ListType.unsorted; current = lnk }) idx.heap.store in
    let queue = record lh { type = ListType.queued } in
    if l == null
    then give_up unstable (with_store s (record idx { used = lh }))
    else returned (s.data_of l) (with_store s (record idx { used = queue }))
        (insert_link fuel queue l s)

-- The link that is taken for another block: the first that is free, or else the first in use.
pub data Victim : Type 0 where
  taken : (was_free : Bool) → ℕ → DbIndex → Victim
  refused : IdxErrorType → DbIndex → Victim

unfoldable pub victim : DbIndex → Victim
victim idx =
    let (l, lh, s) = remove_link idx.free idx.heap.store in
    let (l', lh', s') = remove_link idx.used idx.heap.store in
    if not (is_empty_list idx.free idx.heap.store)
    then taken true l (with_store s (record idx { free = lh }))
    else if is_empty_list idx.used idx.heap.store
    then refused unstable idx
    else if l' == null
    then refused list (with_store s' (record idx { used = lh' }))
    else taken false l' (with_store s' (record idx { used = lh' }))

-- A size_t that was kept in an int, or an int, by its 32 bits, as a size_t.
abbrev pub through_int : ℕ → ℕ
through_int n = let low = n % 2 ^ 32 in if ltb low (2 ^ 31) then low else low + (2 ^ 64 - 2 ^ 32)

-- `blk->bhd->numKeyItems = blk->keyItemList->number; listToBlock (..., num, ...);`
unfoldable pub copy_items : (num : ℕ) → ℕ → DbIndex → Status × DbIndex
copy_items num p idx =
    let b = idx.blocks p in
    let blk = set_number (b.key_item_list.number % 2 ^ 32) b.blk in
    let (st, bytes, e) =
      list_to_block b.key_item_list idx.heap blk b.item_size num block_header_size in
    (
      st,
      set_block p (record b { blk = bytes })
          (record idx { heap = record idx.heap { fio_error = e } }),
    )

-- `putFileBlock (idx->fd, blk->blk, blk->blockNumber, idx->hdr->blockSize)`
unfoldable pub put_block : ℕ → DbIndex → Status × DbIndex
put_block p idx =
    let b = idx.blocks p in
    let (st, f) = put_file_block idx.file b.blk b.block_number idx.hdr.block_size in
    (st, record idx { file = f })

-- Both, with no look at their results.
unfoldable pub flush : ℕ → DbIndex → DbIndex
flush p idx =
    let num = through_int (idx.blocks p).key_item_list.number in
    (put_block p (copy_items num p idx).1).1

-- `clearList (blk->keyItemList)`
unfoldable pub clear_items : ℕ → ℕ → DbIndex → Option (Status × DbIndex)
clear_items fuel p idx = elim (clear_list fuel (some (idx.blocks p).key_item_list) idx.heap.store) [
  | none ↦ none
  | some (st, none, s) ↦ some (st, with_store s idx)
  | some (st, some lh, s) ↦
      some (st, set_block p (record (idx.blocks p) { key_item_list = lh }) (with_store s idx))
]

abbrev pub compare_of : IndexHeader → Compare
compare_of hdr = if hdr.is_case then hdr.case_compare else hdr.no_case_compare

-- The list of the items is in order of its compare function, and the link has the block.
abbrev pub with_items : (p lnk : ℕ) → ListHeader → Heap → DbIndex → DbIndex
with_items p lnk lh h idx =
    let items = record lh { type = ListType.slow_sorted; compare = some (compare_of idx.hdr) } in
    set_block p (record (idx.blocks p) { key_item_list = items })
      (record idx { heap = record h { store = set_data lnk p h.store } })

-- The block is filled, and the link of the block goes to `used`.
abbrev pub filled : ℕ → ℕ → ℕ → DbIndex → Copied → Found
filled fuel lnk p idx none = none
filled fuel lnk p idx (some (error, lh, h)) =
    give_up fsystem
      (set_block p (record (idx.blocks p) { key_item_list = lh }) (record idx { heap = h }))
filled fuel lnk p idx (some (ok, lh, h)) =
    let idx₁ = with_items p lnk lh h idx in
    returned p idx₁ (insert_link fuel idx₁.used lnk idx₁.heap.store)

-- The fields of a block that was read: `count` is the number of its items.
abbrev pub block_read :
    IndexHeader → (blknum : ℕ) → (bytes : List ℕ) → (count : ℕ) → IdxBlock → IdxBlock
block_read hdr blknum bytes count b = record b {
  blk = bytes;
  block_number = blknum;
  is_dirty = true;
  item_size = hdr.item_size;
  num_max_items = (hdr.block_size - block_header_size) / hdr.item_size;
  current_size = count * hdr.item_size % 2 ^ 32;
}

-- What follows the reading, whose result comes last. The count of the items is an int, which the
-- call of blockToList turns into a size_t.
abbrev pub loaded : ℕ → (lnk p blknum : ℕ) → DbIndex → Status × List ℕ × File → Found
loaded fuel lnk p blknum idx (error, bytes, f) =
    give_up fsystem (set_block p (record (idx.blocks p) { blk = bytes }) (record idx { file = f }))
loaded fuel lnk p blknum idx (ok, bytes, f) =
    let b = idx.blocks p in
    let size = idx.hdr.item_size in
    let n = get_number bytes in
    let b₁ = record b { blk = bytes; block_number = blknum; is_dirty = true; item_size = size } in
    let idx₁ = set_block p (block_read idx.hdr blknum bytes n b) (record idx { file = f }) in
    if size == 0
    then give_up unstable (set_block p b₁ (record idx { file = f }))
    else filled fuel lnk p idx₁
        (block_to_list b.key_item_list idx.heap bytes size (through_int n) block_header_size)

-- The rest of `getIndexBlock`, from the reading of the block on.
unfoldable pub load : ℕ → (lnk p blknum : ℕ) → DbIndex → Found
load fuel lnk p blknum idx =
    loaded fuel lnk p blknum idx
      (get_file_block idx.file (idx.blocks p).blk blknum idx.hdr.block_size)

abbrev pub loaded_after : ℕ → (lnk p blknum : ℕ) → Option (Status × DbIndex) → Found
loaded_after fuel lnk p blknum none = none
loaded_after fuel lnk p blknum (some (error, idx)) = some (null, idx)
loaded_after fuel lnk p blknum (some (ok, idx)) = load fuel lnk p blknum idx

-- The block is not in memory.
unfoldable pub miss : ℕ → ℕ → Victim → Found
miss fuel blknum (refused e idx) = give_up e idx
miss fuel blknum (taken was_free lnk idx) =
    let p = idx.heap.store.data_of lnk in
    loaded_after fuel lnk p blknum (clear_items fuel p (flush p idx))

abbrev pub searched : ℕ → ℕ → DbIndex → Option ℕ → Found
searched fuel blknum idx none = none
searched fuel blknum idx (some lnk) =
    if lnk == idx.used.head then miss fuel blknum (victim idx) else hit fuel lnk idx

unfoldable pub get_index_block : ℕ → DbIndex → ℕ → Found
get_index_block fuel idx blknum =
    let s = idx.heap.store in
    if is_empty_list idx.used s
    then miss fuel blknum (victim idx)
    else searched fuel blknum idx
        (find_back fuel s idx.blocks idx.used.head blknum (s.prev idx.used.tail))
