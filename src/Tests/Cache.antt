-- ===== src/Tests/Cache.antt =====
-- The block cache of idxblk.c with two blocks in memory: links 10 and 11 between the sentinels 1
-- and 2, blocks 20 and 21 with the numbers 5 and 6; the sentinels of the free list are 3 and 4.
use osdb_dcdb.Prelude.{
  ℕ, ◌+◌, ◌≡◌, refl, true, false, some, none, List, [], ◌∷◌, arith, ◌==◌, if◌then◌else◌, Ordering,
}
use osdb_dcdb.Blocks
use osdb_dcdb.Blocks.{File}
use osdb_dcdb.Cache
use osdb_dcdb.Cache.{IdxBlock, DbIndex, get_index_block, victim, taken}
use osdb_dcdb.Cache.FlushLoop.{flush_index_blocks}
use osdb_dcdb.Cache.Flush.{Flushed, flush_index_blocks-Flushed}
use osdb_dcdb.Cache.Hits.{number_at}
use osdb_dcdb.Cache.Order.{HaveNumbers, get_index_blocks, get_index_blocks-touch_all}
use osdb_dcdb.Cache.Touch.{Uses}
use osdb_dcdb.Cache.Victims.{victim-first}
use osdb_dcdb.Links
use osdb_dcdb.Links.{ListHeader, ListType, Store}

abbrev queue_of : (head tail number : ℕ) → ListHeader
queue_of head tail number = record {
  list_error = Links.no_error;
  head = head;
  tail = tail;
  current = head;
  type = ListType.queued;
  number = number;
  compare = none;
}

abbrev joined : Store
joined = record {
  next = λ a.
      if a == 1 then 10 else if a == 10 then 11 else if a == 11 then 2 else if a == 3 then 4 else 0;
  prev = λ a.
      if a == 10 then 1 else if a == 11 then 10 else if a == 2 then 11 else if a == 4 then 3 else 0;
  data_of = λ a. a + 10;
  freed = [];
}

abbrev block_of : ℕ → IdxBlock
block_of n = record {
  block_number = n;
  blk = [];
  is_dirty = true;
  num_max_items = 0;
  item_size = 8;
  current_size = 0;
  first_item = 0;
  current = 0;
  key_item_list = queue_of 30 31 0;
}

abbrev cache : DbIndex
cache = record {
  file = record { bytes = []; place = 0; room = 1000; fio_error = Blocks.no_error };
  hdr = record {
    block_size = 512;
    last_block = 6;
    num_items = 1;
    is_unique = true;
    is_case = true;
    item_size = 8;
    case_compare = λ a b. Ordering.eq;
    no_case_compare = λ a b. Ordering.eq;
  };
  heap = record { store = joined; contents = λ a. []; supply = []; fio_error = Blocks.no_error };
  blocks = λ a. block_of (if a == 20 then 5 else 6);
  free = queue_of 3 4 0;
  used = queue_of 1 2 2;
  idx_error = Cache.no_error;
}

cache-Uses : Uses cache (5 ∷ 6 ∷ [])
cache-Uses = record {
  links = 10 ∷ 11 ∷ [];
  holds = record {
    chain = (refl, refl, (refl, refl, (refl, refl, tt)));
    distinct = (refl, (refl, (refl, (refl, tt))));
    counted = refl;
  };
  real = refl;
  named = refl;
}

get_index_blocks-touch_all_example :
    (ps : List ℕ) × (r : DbIndex) × (get_index_blocks 9 cache (5 ∷ 6 ∷ 6 ∷ []) ≡ some (ps, r))
    × Uses r (5 ∷ 6 ∷ [])
    × HaveNumbers cache ps (5 ∷ 6 ∷ 6 ∷ [])
    × (r.blocks ≡ cache.blocks)
    × (r.file ≡ cache.file)
get_index_blocks-touch_all_example =
    get_index_blocks-touch_all 9 cache (5 ∷ 6 ∷ 6 ∷ []) (5 ∷ 6 ∷ []) cache-Uses (refl, (refl, tt))
      (refl, (refl, (refl, tt))) (omega arith)

victim-first_example :
    (l : ℕ) × (r : DbIndex) × (victim cache ≡ taken false l r)
    × (number_at cache l ≡ 5)
    × Uses r (6 ∷ [])
    × (r.blocks ≡ cache.blocks)
victim-first_example =
    victim-first cache 5 (6 ∷ []) cache-Uses
      (record { chain = (refl, refl, tt); distinct = (refl, (refl, tt)); counted = refl }) refl refl

abbrev no_links : DbIndex
no_links = record cache { used = queue_of 3 4 0 }

flush_index_blocks-Flushed_example : Flushed (10 ∷ 11 ∷ []) (flush_index_blocks 5 cache)
unfolding cache-Uses
flush_index_blocks-Flushed_example =
    flush_index_blocks-Flushed 5 cache (10 ∷ 11 ∷ []) cache-Uses.holds (omega arith) (omega arith)
