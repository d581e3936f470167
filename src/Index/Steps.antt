-- ===== src/Index/Steps.antt =====
-- lib/index.c: `firstIndexItem`, `lastIndexItem`, `nextIndexItem` and `prevIndexItem`.
use osdb_dcdb.Prelude.{ℕ, true, false, not, some, ◌==◌, if◌then◌else◌}
use osdb_dcdb.Cache.{unstable, sequence, get_index_block}
use osdb_dcdb.Links.{null}
use osdb_dcdb.Index.{
  Index, Answer, give_error, set_cursor, on_block, get_block, prev_block, next_block,
}

abbrev pub first_in : (p : ℕ) → Index → Answer
first_in p idx =
    let lh = (idx.cache.blocks p).key_item_list in
    let s = idx.cache.heap.store in
    let lnk = s.next lh.head in
    let idx₁ = record idx { current = p } in
    if lh.number == 0
    then give_error unstable idx
    else if lnk == lh.tail
    then give_error unstable idx₁
    else some (
      s.data_of lnk,
      record (set_cursor p lnk idx₁) { is_sequential = true; bof = true; eof = false },
    )

unfoldable pub first_index_item : ℕ → Index → Answer
first_index_item fuel idx =
    let first = idx.inx.store.next idx.inx.lh.head in
    let got = on_block (λ i. some (null, i)) first_in idx (get_block fuel idx first) in
    if idx.inx.lh.number == 0 then some (null, idx) else got

abbrev pub last_in : (p : ℕ) → Index → Answer
last_in p idx =
    let lh = (idx.cache.blocks p).key_item_list in
    let s = idx.cache.heap.store in
    let lnk = s.prev lh.tail in
    let idx₁ = record idx { current = p } in
    if lh.number == 0
    then give_error unstable idx
    else if lnk == lh.head
    then give_error unstable idx₁
    else some (
      s.data_of lnk,
      record (set_cursor p lnk idx₁) { is_sequential = true; eof = true; bof = false },
    )

unfoldable pub last_index_item : ℕ → Index → Answer
last_index_item fuel idx =
    let end = idx.inx.store.prev idx.inx.lh.tail in
    let got = on_block (λ i. some (null, i)) last_in idx (get_block fuel idx end) in
    if idx.inx.lh.number == 0 then some (null, idx) else got

-- The first item of the block that follows.
abbrev pub next_in : (p : ℕ) → Index → Answer
next_in p idx =
    let lh = (idx.cache.blocks p).key_item_list in
    let s = idx.cache.heap.store in
    let lnk = s.next lh.head in
    let idx₁ = record idx { current = p } in
    if lnk == lh.tail then give_error unstable idx₁ else some (s.data_of lnk, set_cursor p lnk idx₁)

unfoldable pub next_index_item : ℕ → Index → Answer
next_index_item fuel idx =
    let p = idx.current in
    let b = idx.cache.blocks p in
    let s = idx.cache.heap.store in
    let behind = s.next b.current in
    let lnk = if behind == null then b.current else behind in
    let idx₁ = if b.current == b.key_item_list.head then set_cursor p behind idx else idx in
    let n = next_block b.blk in
    let at_end =
      some (null, record (set_cursor p (s.prev b.key_item_list.tail) idx₁) { eof = true }) in
    let over = on_block (give_error unstable) next_in idx₁ (get_index_block fuel idx₁.cache n) in
    if not idx.is_sequential
    then give_error sequence idx
    else if idx.inx.lh.number == 0
    then some (null, idx)
    else if p == null
    then some (null, idx)
    else if b.current == null
    then some (null, idx)
    else if lnk == b.key_item_list.tail
    then (if n == 0 then at_end else over)
    else some (s.data_of lnk, set_cursor p lnk idx₁)

-- The last item of the block before.
abbrev pub prev_in : (p : ℕ) → Index → Answer
prev_in p idx =
    let lh = (idx.cache.blocks p).key_item_list in
    let s = idx.cache.heap.store in
    let lnk = s.prev lh.tail in
    let idx₁ = record idx { current = p } in
    if lnk == lh.head then give_error unstable idx₁ else some (s.data_of lnk, set_cursor p lnk idx₁)

-- At the first item the code sets `eof`, not `bof`.
unfoldable pub prev_index_item : ℕ → Index → Answer
prev_index_item fuel idx =
    let p = idx.current in
    let b = idx.cache.blocks p in
    let s = idx.cache.heap.store in
    let before = s.prev b.current in
    let lnk = if before == null then b.current else before in
    let n = prev_block b.blk in
    let at_end =
      some (null, record (set_cursor p (s.next b.key_item_list.head) idx) { eof = true }) in
    let over = on_block (give_error unstable) prev_in idx (get_index_block fuel idx.cache n) in
    if not idx.is_sequential
    then give_error sequence idx
    else if idx.inx.lh.number == 0
    then some (null, idx)
    else if p == null
    then some (null, idx)
    else if b.current == null
    then some (null, idx)
    else if lnk == b.key_item_list.head
    then (if n == 0 then at_end else over)
    else some (s.data_of lnk, set_cursor p lnk idx)
