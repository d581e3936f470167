-- ===== src/Index.antt =====
-- lib/index.c with the types of include/index.h: searching an index, and going through its items.
-- The shell `inx` has a link for each block of the index, whose data is a keyItem with the first
-- key of the block, and the number of the block as its item. The links of the shell and those of
-- the cache are in two stores. A keyItem is an address, at which the heap of the cache has its
-- bytes, the first 8 of which are the item; the compare function is a function of two addresses.
pub mod Add
pub mod Added
pub mod Arrive
pub mod Choice
pub mod Exact
pub mod Keys
pub mod Leaves
pub mod Listing
pub mod Order
pub mod Place
pub mod PutIn
pub mod Refuse
pub mod Room
pub mod Steps
pub mod Walk
use osdb_dcdb.Prelude.{
  ℕ, zero, suc, Bool, true, false, not, ◌&&◌, Option, none, some, List, Ordering, ◌==◌,
  if◌then◌else◌, is_eq, is_gt,
}
use osdb_dcdb.Blocks.Bytes.{read_at}
use osdb_dcdb.Cache.{
  DbIndex, IdxBlock, IdxErrorType, unstable, sequence, Found, set_block, get_index_block,
}
use osdb_dcdb.Cache.Number.{value}
use osdb_dcdb.Links.{Store, Compare, null}
use osdb_dcdb.Shells.{Shell, compared}
use osdb_dcdb.Shells.Query.{query_shell_item}
use osdb_dcdb.Shells.Search

pub record Index : Type 0 where
  pub cache : DbIndex
  pub inx : Shell
  pub bof : Bool
  pub eof : Bool
  pub current : ℕ
  pub is_sequential : Bool

-- A link or a keyItem, with 0 for NULL.
abbrev pub Answer : Type 0
Answer = Option (ℕ × Index)

-- `bhd->prevBlock` and `bhd->nextBlock`
abbrev pub prev_block : List ℕ → ℕ
prev_block blk = value (read_at 8 8 blk)

abbrev pub next_block : List ℕ → ℕ
next_block blk = value (read_at 16 8 blk)

-- `ki->item`
abbrev pub item_of : ℕ → Index → ℕ
item_of ki idx = value (read_at 0 8 (idx.cache.heap.contents ki))

abbrev pub give_error : IdxErrorType → Index → Answer
give_error e idx = some (null, record idx { cache = record idx.cache { idx_error = e } })

abbrev pub set_cursor : (p lnk : ℕ) → Index → Index
set_cursor p lnk idx = record idx {
  cache = set_block p (record (idx.cache.blocks p) { current = lnk }) idx.cache;
}

-- The index stands on a link of a block.
abbrev pub stand : (p lnk : ℕ) → Index → Index
stand p lnk idx = record (set_cursor p lnk idx) {
  is_sequential = true;
  current = p;
  bof = false;
  eof = false;
}

-- What is done with the block that `getIndexBlock` returns, or when it returns NULL.
abbrev pub on_block : (Index → Answer) → (ℕ → Index → Answer) → Index → Found → Answer
on_block missing go idx none = none
on_block missing go idx (some (p, cache)) =
    let idx₁ = record idx { cache = cache } in if p == null then missing idx₁ else go p idx₁

-- The loops over the items of a block: which link ends them, and why.
pub data ItemScan : Type 0 where
  equal greater : ℕ → ItemScan
  ended : ItemScan

pub scan : ℕ → Compare → (key tail : ℕ) → Store → ℕ → Option ItemScan
scan zero cmp key tail s lnk = none
scan (suc fuel) cmp key tail s lnk =
    let rest = scan fuel cmp key tail s (s.next lnk) in
    let status = cmp (s.data_of lnk) key in
    if lnk == tail
    then some ended
    else if is_eq status
    then some (equal lnk)
    else if is_gt status
    then some (greater lnk)
    else rest

-- The loop that does not stop at a greater item.
pub scan_all : ℕ → Compare → (key tail : ℕ) → Store → ℕ → Option ItemScan
scan_all zero cmp key tail s lnk = none
scan_all (suc fuel) cmp key tail s lnk =
    let rest = scan_all fuel cmp key tail s (s.next lnk) in
    if lnk == tail
    then some ended
    else if is_eq (cmp (s.data_of lnk) key)
    then some (equal lnk)
    else rest

abbrev pub found_at : ℕ → Index → Answer → Option ItemScan → Answer
found_at p idx otherwise none = none
found_at p idx otherwise (some (equal l)) = some (l, stand p l idx)
found_at p idx otherwise (some _) = otherwise

abbrev pub get_block : ℕ → Index → (link : ℕ) → Found
get_block fuel idx link = get_index_block fuel idx.cache (item_of (idx.inx.store.data_of link) idx)

-- `searchExactIndexItem`: the block of the link that the query found.
abbrev pub exact_in : (fuel key p : ℕ) → Index → Answer
exact_in fuel key p idx =
    let s = idx.cache.heap.store in
    let lh = (idx.cache.blocks p).key_item_list in
    found_at p idx (some (null, idx)) (scan_all fuel idx.inx.compare key lh.tail s (s.next lh.head))

abbrev pub exact_at : (fuel key found : ℕ) → Index → Answer
exact_at fuel key found idx =
    on_block (give_error unstable) (exact_in fuel key) idx (get_block fuel idx found)

-- The block before it, and then that one.
abbrev pub exact_before : (fuel key found p : ℕ) → Index → Answer
exact_before fuel key found p idx =
    let s = idx.cache.heap.store in
    let lh = (idx.cache.blocks p).key_item_list in
    found_at p idx (exact_at fuel key found idx)
      (scan fuel idx.inx.compare key lh.tail s (s.next lh.head))

-- An equal key of an index that is not unique may stand in the block before, too.
abbrev pub looks_before : Bool → Shell → (lnk found : ℕ) → Bool
looks_before is_unique sh lnk found =
    not is_unique && is_eq (compared sh lnk found) && not (sh.store.prev found == sh.lh.head)

abbrev pub exact_queried : (fuel lnk : ℕ) → Index → Search.Found → Answer
exact_queried fuel lnk idx none = none
exact_queried fuel lnk idx (some (found, sh)) =
    let idx₁ = record idx { inx = sh } in
    let key = sh.store.data_of lnk in
    if found == null
    then give_error unstable idx₁
    else if looks_before idx.cache.hdr.is_unique sh lnk found
    then on_block (give_error unstable) (exact_before fuel key found) idx₁
        (get_block fuel idx₁ (sh.store.prev found))
    else exact_at fuel key found idx₁

unfoldable pub search_exact_index_item : ℕ → Index → (lnk : ℕ) → Answer
search_exact_index_item fuel idx lnk =
    exact_queried fuel lnk idx (query_shell_item fuel idx.inx lnk)

-- `searchIndexItem`: where the scan of a block ended, but not on a sentinel.
abbrev pub settle : (p found : ℕ) → Index → Answer
settle p found idx =
    let s = idx.cache.heap.store in
    let lh = (idx.cache.blocks p).key_item_list in
    let first = if found == lh.head then s.next lh.head else found in
    let l = if first == lh.tail then s.prev lh.tail else first in
    if l == null then some (null, idx) else some (l, stand p l idx)

abbrev pub near_scanned : ℕ → Index → Option ItemScan → Answer
near_scanned p idx none = none
near_scanned p idx (some (equal l)) = some (l, stand p l idx)
near_scanned p idx (some (greater l)) = settle p (idx.cache.heap.store.prev l) idx
near_scanned p idx (some ended) = settle p (idx.cache.blocks p).key_item_list.tail idx

abbrev pub near_in : (fuel key p : ℕ) → Index → Answer
near_in fuel key p idx =
    let s = idx.cache.heap.store in
    let lh = (idx.cache.blocks p).key_item_list in
    let first = s.next lh.head in
    if first == lh.tail
    then some (null, idx)
    else near_scanned p idx (scan fuel idx.inx.compare key lh.tail s first)

abbrev pub near_at : (fuel key found : ℕ) → Index → Answer
near_at fuel key found idx =
    on_block (give_error unstable) (near_in fuel key) idx (get_block fuel idx found)

abbrev pub near_before : (fuel key found p : ℕ) → Index → Answer
near_before fuel key found p idx =
    let s = idx.cache.heap.store in
    let lh = (idx.cache.blocks p).key_item_list in
    let first = s.next lh.head in
    if first == lh.tail
    then some (null, idx)
    else found_at p idx (near_at fuel key found idx) (scan fuel idx.inx.compare key lh.tail s first)

abbrev pub near_queried : (fuel lnk : ℕ) → Index → Search.Found → Answer
near_queried fuel lnk idx none = none
near_queried fuel lnk idx (some (found, sh)) =
    let idx₁ = record idx { inx = sh } in
    let key = sh.store.data_of lnk in
    if found == null
    then give_error unstable idx₁
    else if looks_before idx.cache.hdr.is_unique sh lnk found
    then on_block (give_error unstable) (near_before fuel key found) idx₁
        (get_block fuel idx₁ (sh.store.prev found))
    else near_at fuel key found idx₁

unfoldable pub search_index_item : ℕ → Index → (lnk : ℕ) → Answer
search_index_item fuel idx lnk = near_queried fuel lnk idx (query_shell_item fuel idx.inx lnk)
