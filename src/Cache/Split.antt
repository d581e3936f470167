-- ===== src/Cache/Split.antt =====
-- lib/idxblk.c, `splitBlock`. The code writes through the result of its last call of `getIndexBlock`
-- with no look at it: a write through NULL is a write to the block at the address 0.
use osdb_dcdb.Prelude.{
  ℕ, zero, suc, ◌+◌, ◌*◌, ◌-◌, ◌/◌, ◌%◌, ◌^◌, true, none, some, List, [], ◌∷◌, ltb, ◌==◌,
  if◌then◌else◌,
}
use osdb_dcdb.Blocks.Bytes.{read_at, write_at}
use osdb_dcdb.Cache.{
  DbIndex, IdxErrorType, unstable, list, Found, set_block, with_store, give_up, flush, compare_of,
  block_header_size, get_index_block,
}
use osdb_dcdb.Cache.New.{get_new_block}
use osdb_dcdb.Cache.Number.{value, get_number}
use osdb_dcdb.Links.{
  Store, Status, ok, error, ListHeader, ListType, null, last_link, remove_link, insert_link_here,
}

-- An off_t in the header of a block: `prevBlock` at 8, `nextBlock` at 16.
abbrev pub get_offset : (at : ℕ) → List ℕ → ℕ
get_offset at blk = value (read_at at 8 blk)

abbrev pub bytes_of : (count n : ℕ) → List ℕ
bytes_of zero n = []
bytes_of (suc k) n = n % 256 ∷ bytes_of k (n / 256)

abbrev pub set_offset : (at n : ℕ) → List ℕ → List ℕ
set_offset at n blk = write_at at (bytes_of 8 n) blk

abbrev pub set_items : ℕ → ListHeader → DbIndex → DbIndex
set_items p lh idx = set_block p (record (idx.blocks p) { key_item_list = lh }) idx

abbrev pub set_bytes : ℕ → List ℕ → DbIndex → DbIndex
set_bytes p blk idx = set_block p (record (idx.blocks p) { blk = blk }) idx

-- `num = blk->keyItemList->number; num /= 2;` where a number that an int cannot hold is negative.
abbrev pub half : ℕ → ℕ
half number = let low = number % 2 ^ 32 in if ltb low (2 ^ 31) then low / 2 else 0

pub data Moved : Type 0 where
  moved : DbIndex → Moved
  stopped : IdxErrorType → DbIndex → Moved

abbrev pub put_front : (q : ℕ) → (DbIndex → Moved) → DbIndex → Status × ListHeader × Store → Moved
put_front q go idx (ok, lh, s) = go (with_store s (set_items q lh idx))
put_front q go idx (error, lh, s) = stopped list (with_store s (set_items q lh idx))

-- What follows `removeLink`.
abbrev pub taken_last : (p q : ℕ) → (DbIndex → Moved) → DbIndex → ℕ × ListHeader × Store → Moved
taken_last p q go idx (l, lh, s) =
    let idx₁ = with_store s (set_items p lh idx) in
    let into = (idx₁.blocks q).key_item_list in
    let done = put_front q go idx₁ (insert_link_here (record into { current = into.head }) l s) in
    if l == null then stopped unstable idx₁ else done

-- The last items of `p` go to the front of `q`, one after the other.
unfoldable pub move_items : ℕ → (p q : ℕ) → DbIndex → Moved
move_items zero p q idx = moved idx
move_items (suc num) p q idx =
    let s = idx.heap.store in
    taken_last p q (λ i. move_items num p q i) idx
      (remove_link (last_link (idx.blocks p).key_item_list s).1 s)

-- `firstItem = keyItemList->head->next->data`
abbrev pub set_first : ℕ → DbIndex → DbIndex
set_first p idx =
    let b = idx.blocks p in
    let s = idx.heap.store in
    set_block p (record b { first_item = s.data_of (s.next b.key_item_list.head) }) idx

-- The fields of the new block.
abbrev pub fielded : (q : ℕ) → DbIndex → DbIndex
fielded q idx =
    let b = idx.blocks q in
    set_block q
      (record b {
        num_max_items = (idx.hdr.block_size - block_header_size) / idx.hdr.item_size;
        is_dirty = true;
        item_size = idx.hdr.item_size;
        current_size = idx.hdr.item_size * get_number b.blk % 2 ^ 32;
      })
      idx

-- The numbers in the headers of both blocks.
abbrev pub headers_linked : (p q : ℕ) → DbIndex → DbIndex
headers_linked p q idx =
    let old = (idx.blocks p).blk in
    let idx₁ = set_bytes q (set_offset 8 (idx.blocks p).block_number (idx.blocks q).blk) idx in
    let idx₂ =
      set_bytes q (set_offset 16 (get_offset 16 (idx₁.blocks p).blk) (idx₁.blocks q).blk) idx₁ in
    let idx₃ = set_bytes p (set_offset 16 (idx₂.blocks q).block_number (idx₂.blocks p).blk) idx₂ in
    let b = idx₃.blocks p in
    set_block p (record b { current_size = get_number b.blk * b.item_size }) idx₃

-- `nxtBlock->bhd->prevBlock = returnBlock->blockNumber;`
abbrev pub linked_back : (q : ℕ) → Found → Found
linked_back q none = none
linked_back q (some (nxt, idx)) =
    some (q, set_bytes nxt (set_offset 8 (idx.blocks q).block_number (idx.blocks nxt).blk) idx)

abbrev pub split_moved : (fuel p q next : ℕ) → Moved → Found
split_moved fuel p q next (stopped e idx) = give_up e idx
split_moved fuel p q next (moved idx) =
    let idx₁ = flush q (flush p idx) in
    let items = record (idx₁.blocks q).key_item_list {
      type = ListType.slow_sorted;
      compare = some (compare_of idx.hdr);
    } in
    let idx₂ = set_items q items idx₁ in
    let idx₃ = headers_linked p q (set_first p (set_first q (fielded q idx₂))) in
    let done = linked_back q (get_index_block fuel idx₃ next) in
    if idx.hdr.item_size == 0 then give_up unstable idx₂ else done

-- The new block has been returned.
abbrev pub split_into : (fuel p q next : ℕ) → DbIndex → Found
split_into fuel p q next idx =
    let n = idx.hdr.last_block + 1 in
    let b = idx.blocks q in
    let items = record b.key_item_list { type = ListType.unsorted; compare = none } in
    let idx₁ =
      set_block q (record b { block_number = n; key_item_list = items })
        (record idx { hdr = record idx.hdr { last_block = n } }) in
    let num = half (idx₁.blocks p).key_item_list.number in
    let done = split_moved fuel p q next (move_items num p q idx₁) in
    if num == 0 then give_up unstable idx₁ else done

abbrev pub split_new : (fuel p next : ℕ) → Found → Found
split_new fuel p next none = none
split_new fuel p next (some (q, idx)) =
    let done = split_into fuel p q next idx in if q == null then some (null, idx) else done

unfoldable pub split_block : ℕ → DbIndex → (p : ℕ) → Found
split_block fuel idx p =
    split_new fuel p (get_offset 16 (idx.blocks p).blk)
      (get_new_block fuel idx (idx.hdr.last_block + 1))
