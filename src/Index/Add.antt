-- ===== src/Index/Add.antt =====
-- lib/index.c, `addIndexItem`, from the test whether the index is empty on: the shell `inx` is there.
-- A link is new in the store that it is used in: that of the cache, or that of the shell.
use osdb_dcdb.Prelude.{
  ℕ, ◌^◌, ◌+◌, ◌-◌, ◌/◌, ◌%◌, Bool, true, false, Option, none, some, ◌++◌, ltb, ◌==◌, if◌then◌else◌,
  is_lt,
}
use osdb_dcdb.Blocks.Bytes.{read_at, write_at}
use osdb_dcdb.Blocks.Copies.{next_address, allocated, fill, new_link}
use osdb_dcdb.Cache.{
  IdxErrorType, no_error, no_memory, unstable, list, shell, items, unique, Found, set_block,
  block_header_size, get_index_block,
}
use osdb_dcdb.Cache.New.{get_new_block}
use osdb_dcdb.Cache.Number.{set_number}
use osdb_dcdb.Cache.Split.{bytes_of, set_offset, set_first, split_block}
use osdb_dcdb.Index.{Index, Answer, item_of, search_exact_index_item}
use osdb_dcdb.Links.{Status, ok, error, Store, ListHeader, null, insert_link, insert_link_here}
use osdb_dcdb.Shells.{Shell}
use osdb_dcdb.Shells.Query.{query_shell_item}
use osdb_dcdb.Shells.Restructure.{restructure_shell_nodes}
use osdb_dcdb.Shells.Search

abbrev pub Done : Type 0
Done = Option (Status × Index)

abbrev pub refuse : IdxErrorType → Index → Done
refuse e idx = some (error, record idx { cache = record idx.cache { idx_error = e } })

abbrev pub shell_threshold : ℕ
shell_threshold = 250

abbrev pub min_items_per_block : ℕ
min_items_per_block = 4

-- `malloc`, and the error when it returns NULL.
abbrev pub allocate : (ℕ → Index → Done) → Index → Done
allocate go idx =
    let a = next_address idx.cache.heap.supply in
    let idx₁ = record idx { cache = record idx.cache { heap = allocated idx.cache.heap } } in
    if a == null then refuse no_memory idx₁ else go a idx₁

-- What is done with a block, if there is one.
abbrev pub in_block : (ℕ → Index → Done) → Index → Found → Done
in_block go idx none = none
in_block go idx (some (p, cache)) =
    let idx₁ = record idx { cache = cache } in if p == null then some (error, idx₁) else go p idx₁

-- `insertLink (blk->keyItemList, lnk)`
abbrev pub put_item : (p : ℕ) → (Index → Done) → Index → Option (Status × ListHeader × Store) → Done
put_item p go idx none = none
put_item p go idx (some (st, lh, s)) =
    let cache = record idx.cache { heap = record idx.cache.heap { store = s } } in
    let idx₁ = record idx {
      cache = set_block p (record (idx.cache.blocks p) { key_item_list = lh }) cache;
    } in
    elim st [ ok ↦ go idx₁ | error ↦ refuse list idx₁ ]

abbrev pub insert_item : (fuel lnk ki p : ℕ) → (Index → Done) → Index → Done
insert_item fuel lnk ki p go idx =
    put_item p go idx (
      insert_link fuel (idx.cache.blocks p).key_item_list lnk
        (new_link lnk ki idx.cache.heap.store))

-- `idx->hdr->numItems++`, of an unsigned long.
abbrev pub one_more_item : Index → Index
one_more_item idx = record idx {
  cache = record idx.cache {
    hdr = record idx.cache.hdr { num_items = (idx.cache.hdr.num_items + 1) % 2 ^ 64 };
  };
}

-- The key of the block `p` is entered in the shell, behind the link `place`: its bytes are those of
-- the keyItem `ki`, its item is the number of the block.
abbrev pub enter_key :
    (lnk tree_key size p ki place : ℕ) → IdxErrorType → (Index → Done) → Index → Done
enter_key lnk tree_key size p ki place e go idx =
    let b = idx.cache.blocks p in
    let bytes = bytes_of 8 b.block_number ++ read_at 8 (size - 8) (idx.cache.heap.contents ki) in
    let sh = idx.inx in
    let (st, lh, s) =
      insert_link_here (record sh.lh { current = place }) lnk (new_link lnk tree_key sh.store) in
    let idx₁ = record idx {
      cache = record idx.cache { heap = fill tree_key bytes idx.cache.heap };
      inx = record sh { lh = lh; store = s };
    } in
    elim st [ ok ↦ go idx₁ | error ↦ refuse e idx₁ ]

-- The fields of the first block of the index.
abbrev pub first_block : (p ki : ℕ) → Index → Index
first_block p ki idx =
    let size = idx.cache.hdr.item_size in
    let b = idx.cache.blocks p in
    record idx {
      cache =
          set_block p (record b { item_size = size; current_size = size; first_item = ki })
            idx.cache;
    }

abbrev pub first_header : (p : ℕ) → Index → Index
first_header p idx =
    let b = idx.cache.blocks p in
    record idx {
      cache =
          set_block p
            (record b {
              blk = set_offset 16 0 (set_offset 8 0 (set_number 1 b.blk));
              is_dirty = true;
            })
            idx.cache;
    }

abbrev pub set_max : (p : ℕ) → Index → Index
set_max p idx =
    let max = (idx.cache.hdr.block_size - block_header_size) / idx.cache.hdr.item_size in
    record idx {
      cache = set_block p (record (idx.cache.blocks p) { num_max_items = max }) idx.cache;
    }

abbrev pub first_key : (p ki : ℕ) → Index → Done
first_key p ki idx =
    allocate
      (λ lnk. allocate λ tree_key idx₁.
        enter_key lnk tree_key idx₁.cache.hdr.item_size p ki idx₁.inx.lh.head list
          (λ i. some (ok, one_more_item i)) idx₁)
      idx

abbrev pub first_put : (p ki : ℕ) → Index → Done
first_put p ki idx =
    let idx₁ = first_header p idx in
    let idx₂ = set_max p idx₁ in
    let done = first_key p ki (first_block p ki idx₂) in
    if idx.cache.hdr.item_size == 0
    then refuse unstable idx₁
    else if ltb (idx₂.cache.blocks p).num_max_items min_items_per_block
    then refuse items idx₂
    else done

-- The index is empty.
abbrev pub add_first : (fuel ki p : ℕ) → Index → Done
add_first fuel ki p idx =
    let n = idx.cache.hdr.last_block + 1 in
    let cache =
      set_block p (record (idx.cache.blocks p) { block_number = n })
        (record idx.cache { hdr = record idx.cache.hdr { last_block = n } }) in
    allocate (λ lnk. insert_item fuel lnk ki p (first_put p ki)) (record idx { cache = cache })

abbrev pub rebuilt : Index → Option (Status × Shell) → Done
rebuilt idx none = none
rebuilt idx (some (ok, sh)) = some (ok, record idx { inx = sh })
rebuilt idx (some (error, sh)) = refuse shell (record idx { inx = sh })

abbrev pub restructure : (fuel : ℕ) → Index → Done
restructure fuel idx =
    let done = rebuilt idx (restructure_shell_nodes fuel idx.inx) in
    if idx.inx.lh.number % shell_threshold == 0 then done else some (ok, idx)

-- The block has too many items, and is split.
abbrev pub split_over : (fuel p found : ℕ) → IdxErrorType → Index → Done
split_over fuel p found e idx =
    let b = idx.cache.blocks p in
    let enter : ℕ → Index → Done = λ q. allocate λ tree_key. allocate λ lnk i.
      enter_key lnk tree_key (i.cache.blocks p).item_size q (i.cache.blocks q).first_item found e
        (restructure fuel) i in
    let done = in_block enter idx (split_block fuel idx.cache p) in
    if ltb b.num_max_items b.key_item_list.number then done else some (ok, idx)

-- The first key of the shell changes, but for the last 8 bytes: the code takes off
-- `sizeof (keyItem)`, which is 16.
abbrev pub rename_first : (p ki tree_key : ℕ) → Index → Index
rename_first p ki tree_key idx =
    let b = idx.cache.blocks p in
    let h = idx.cache.heap in
    let bytes = write_at 8 (read_at 8 (b.item_size - 16) (h.contents ki)) (h.contents tree_key) in
    record idx {
      cache =
          set_block p (record b { first_item = ki })
            (record idx.cache { heap = fill tree_key bytes h });
    }

-- The item is less than all others.
abbrev pub add_in_front : (fuel ki found : ℕ) → Index → Done
add_in_front fuel ki found idx =
    let tree_key = idx.inx.store.data_of found in
    let put : ℕ → Index → Done = λ p. allocate λ lnk.
      insert_item fuel lnk ki p
        λ i. split_over fuel p found shell (one_more_item (rename_first p ki tree_key i)) in
    in_block put idx (get_index_block fuel idx.cache (item_of tree_key idx))

-- The item is not less than the first of its block.
abbrev pub put_behind : (fuel ki lnk found p : ℕ) → Index → Done
put_behind fuel ki lnk found p = insert_item fuel lnk ki p λ i.
    let i₁ = one_more_item i in
    split_over fuel p found list (record i₁ { cache = set_first p i₁.cache })

-- The block to which the item belongs has been found.
abbrev pub add_found : (fuel ki lnk : ℕ) → Index → Search.Found → Done
add_found fuel ki lnk idx none = none
add_found fuel ki lnk idx (some (found, sh)) =
    let idx₁ = record idx { inx = sh } in
    let done =
      in_block (put_behind fuel ki lnk found) idx₁
        (get_index_block fuel idx₁.cache (item_of (sh.store.data_of found) idx₁)) in
    if found == null then refuse unstable idx₁ else done

abbrev pub is_fine : IdxErrorType → Bool
is_fine no_error = true
is_fine _ = false

abbrev pub add_new : (fuel ki lnk : ℕ) → Index → Done
add_new fuel ki lnk idx = add_found fuel ki lnk idx (query_shell_item fuel idx.inx lnk)

abbrev pub add_checked : (fuel ki lnk : ℕ) → Answer → Done
add_checked fuel ki lnk none = none
add_checked fuel ki lnk (some (l, idx)) =
    let done = add_new fuel ki lnk idx in
    if l == null
    then (if is_fine idx.cache.idx_error then done else some (error, idx))
    else refuse unique idx

-- The item is not less than the first key.
abbrev pub add_behind : (fuel ki : ℕ) → Index → Done
add_behind fuel ki = allocate λ lnk i.
    let idx = record i { inx = record i.inx { store = new_link lnk ki i.inx.store } } in
    let checked = add_checked fuel ki lnk (search_exact_index_item fuel idx lnk) in
    let done = add_new fuel ki lnk idx in if idx.cache.hdr.is_unique then checked else done

unfoldable pub add_index_item : ℕ → Index → (ki : ℕ) → Done
add_index_item fuel idx ki =
    let found = idx.inx.store.next idx.inx.lh.head in
    let started =
      in_block (add_first fuel ki) idx
        (get_new_block fuel idx.cache (idx.cache.hdr.last_block + 1)) in
    let before = add_in_front fuel ki found idx in
    let behind = add_behind fuel ki idx in
    if idx.inx.lh.number == 0
    then started
    else if is_lt (idx.inx.compare ki (idx.inx.store.data_of found))
    then before
    else behind
