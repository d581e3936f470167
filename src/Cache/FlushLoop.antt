-- ===== src/Cache/FlushLoop.antt =====
-- lib/idxblk.c, `flushIndexBlocks`.
use osdb_dcdb.Prelude.{
  ℕ, zero, suc, Bool, true, false, not, Option, none, some, ◌==◌, if◌then◌else◌,
}
use osdb_dcdb.Cache.{DbIndex, set_block, copy_items, put_block}
use osdb_dcdb.Links.{Status, ok, error, null}

abbrev pub is_error : Status → Bool
is_error error = true
is_error ok = false

abbrev pub set_clean : ℕ → DbIndex → DbIndex
set_clean p idx = set_block p (record (idx.blocks p) { is_dirty = false }) idx

-- The loop of `flushIndexBlocks`: a block that was flushed is met again, and is clean then.
unfoldable pub flush_loop : ℕ → ℕ → DbIndex → Option (Status × DbIndex)
flush_loop zero lnk idx = none
flush_loop (suc fuel) lnk idx =
    let p = idx.heap.store.data_of lnk in
    let (copied, idx₁) = copy_items (idx.blocks p).key_item_list.number p idx in
    let (put, idx₂) = put_block p idx₁ in
    let later = flush_loop fuel (idx.heap.store.next lnk) idx in
    let again = flush_loop fuel lnk (set_clean p idx₂) in
    if lnk == idx.used.tail
    then some (ok, idx)
    else if p == null
    then some (error, idx)
    else if not (idx.blocks p).is_dirty
    then later
    else if is_error copied
    then some (error, idx₁)
    else if is_error put
    then some (error, idx₂)
    else again

unfoldable pub flush_index_blocks : ℕ → DbIndex → Option (Status × DbIndex)
flush_index_blocks fuel idx =
    if idx.used.number == 0
    then some (ok, idx)
    else flush_loop fuel (idx.heap.store.next idx.used.head) idx
