-- ===== src/Cache/New.antt =====
-- lib/idxblk.c, `getNewBlock`.
use osdb_dcdb.Prelude.{ℕ, Option, none, some, ◌==◌, if◌then◌else◌}
use osdb_dcdb.Blocks.{File, append_file_block}
use osdb_dcdb.Cache.{
  DbIndex, fsystem, unstable, Found, give_up, set_block, returned, Victim, victim, refused, taken,
  flush, clear_items,
}
use osdb_dcdb.Links.{Status, ok, error, null, is_empty_list, insert_link}

abbrev pub numbered : ℕ → (lnk p blknum : ℕ) → DbIndex → Option ℕ × File → Found
numbered fuel lnk p blknum idx (none, f) = give_up fsystem (record idx { file = f })
numbered fuel lnk p blknum idx (some new, f) =
    let idx₁ =
      set_block p (record (idx.blocks p) { block_number = new }) (record idx { file = f }) in
    let found = returned p idx₁ (insert_link fuel idx₁.used lnk idx₁.heap.store) in
    if new == blknum then found else give_up unstable (record idx { file = f })

abbrev pub appended : ℕ → (lnk p blknum : ℕ) → Option (Status × DbIndex) → Found
appended fuel lnk p blknum none = none
appended fuel lnk p blknum (some (error, idx)) = some (null, idx)
appended fuel lnk p blknum (some (ok, idx)) =
    numbered fuel lnk p blknum idx
      (append_file_block idx.file (idx.blocks p).blk idx.hdr.block_size)

unfoldable pub new_from : ℕ → ℕ → Victim → Found
new_from fuel blknum (refused e idx) = give_up e idx
new_from fuel blknum (taken was_free lnk idx) =
    let p = idx.heap.store.data_of lnk in
    let idx₁ = if was_free then idx else flush p idx in
    let cleared = clear_items fuel p idx₁ in
    appended fuel lnk p blknum (
      if is_empty_list (idx₁.blocks p).key_item_list idx₁.heap.store
      then some (ok, idx₁)
      else cleared)

unfoldable pub get_new_block : ℕ → DbIndex → ℕ → Found
get_new_block fuel idx blknum = new_from fuel blknum (victim idx)
