-- ===== src/Tests/Disk.antt =====
-- The block cache of idxblk.c over a file of two blocks of 40 bytes, with items of 8 bytes. Links 11
-- and 12 are in use between the sentinels 1 and 2, and none is free between 3 and 4. The block of
-- link 11 is at 20, and has the item in the buffer 60, in the list 32, 61, 33.
use osdb_dcdb.Prelude.{
  ℕ, ◌≡◌, refl, true, some, none, List, [], ◌∷◌, ◌++◌, arith, ◌==◌, if◌then◌else◌, Ordering,
}
use osdb_dcdb.Blocks
use osdb_dcdb.Blocks.Records.{records, CanTake, Holds}
use osdb_dcdb.Blocks.Refine.{IsBlockFile}
use osdb_dcdb.Blocks.Sequence.{set}
use osdb_dcdb.Cache
use osdb_dcdb.Cache.{IdxBlock, DbIndex, get_index_block}
use osdb_dcdb.Cache.Fetch.{get_index_block-Loaded}
use osdb_dcdb.Cache.Load.{Loaded}
use osdb_dcdb.Cache.Number.{get_number}
use osdb_dcdb.Cache.Grow.{Grown, get_new_block-Grown}
use osdb_dcdb.Cache.New.{get_new_block}
use osdb_dcdb.Cache.WriteBack.{CanFlush}
use osdb_dcdb.Links
use osdb_dcdb.Links.{ListHeader, ListType, Store}

abbrev zeros : List ℕ
zeros = 0 ∷ 0 ∷ 0 ∷ 0 ∷ 0 ∷ 0 ∷ 0 ∷ 0 ∷ []

abbrev item : List ℕ
item = 1 ∷ 2 ∷ 3 ∷ 4 ∷ 5 ∷ 6 ∷ 7 ∷ 8 ∷ []

abbrev header_of : ℕ → List ℕ
header_of n = n ∷ 0 ∷ 0 ∷ 0 ∷ 0 ∷ 0 ∷ 0 ∷ 0 ∷ zeros ++ zeros

abbrev stored : List ℕ
stored = header_of 1 ++ item ++ zeros

abbrev list_of : (head tail number : ℕ) → ListType → ListHeader
list_of head tail number type = record {
  list_error = Links.no_error;
  head = head;
  tail = tail;
  current = head;
  type = type;
  number = number;
  compare = none;
}

abbrev joined : Store
joined = record {
  next = λ a.
      if a == 1
      then 11
      else if a == 11
      then 12
      else if a == 12
      then 2
      else if a == 3
      then 4
      else if a == 30
      then 31
      else if a == 32
      then 61
      else if a == 61
      then 33
      else 0;
  prev = λ a.
      if a == 11
      then 1
      else if a == 12
      then 11
      else if a == 2
      then 12
      else if a == 4
      then 3
      else if a == 31
      then 30
      else if a == 61
      then 32
      else if a == 33
      then 61
      else 0;
  data_of = λ a. if a == 11 then 20 else if a == 12 then 21 else if a == 61 then 60 else 0;
  freed = [];
}

abbrev block_of : ℕ → ListHeader → IdxBlock
block_of n lh = record {
  block_number = n;
  blk = header_of 0 ++ zeros ++ zeros;
  is_dirty = true;
  num_max_items = 2;
  item_size = 8;
  current_size = 8;
  first_item = 0;
  current = 0;
  key_item_list = lh;
}

abbrev disk : DbIndex
disk = record {
  file = record {
    bytes = header_of 0 ++ zeros ++ zeros ++ stored;
    place = 0;
    room = 80;
    fio_error = Blocks.no_error;
  };
  hdr = record {
    block_size = 40;
    last_block = 1;
    num_items = 1;
    is_unique = true;
    is_case = true;
    item_size = 8;
    case_compare = λ a b. Ordering.eq;
    no_case_compare = λ a b. Ordering.eq;
  };
  heap = record {
    store = joined;
    contents = λ a. if a == 60 then item else [];
    supply = 50 ∷ 51 ∷ [];
    fio_error = Blocks.no_error;
  };
  blocks = λ a.
      if a == 20
      then block_of 0 (list_of 32 33 1 ListType.slow_sorted)
      else block_of 9 (list_of 30 31 0 ListType.slow_sorted);
  free = list_of 3 4 0 ListType.queued;
  used = list_of 1 2 2 ListType.queued;
  idx_error = Cache.no_error;
}

abbrev file_blocks : List (List ℕ)
file_blocks = (header_of 0 ++ zeros ++ zeros) ∷ stored ∷ []

disk-IsBlockFile : IsBlockFile 40 file_blocks disk.file
disk-IsBlockFile = record { holds = refl; full = (refl, (refl, tt)); some_bytes = omega arith }

disk-CanFlush : CanFlush disk 20 file_blocks ((60, 61) ∷ []) (item ∷ [])
unfolding Holds
disk-CanFlush = record {
  file = disk-IsBlockFile;
  there = omega arith;
  items = record {
    chain = (refl, refl, (refl, refl, tt));
    distinct = (refl, (refl, (refl, tt)));
    counted = refl;
  };
  copies = (refl, refl, tt);
  full = (refl, tt);
  few = omega arith;
  sized = refl;
  fits = omega arith;
  small = omega arith;
  room = omega arith;
  near = omega arith;
}

get_index_block-Loaded_example :
    (r : DbIndex) × (written : List ℕ) × (get_index_block 9 disk 1 ≡ some (20, r))
    × Loaded disk.hdr 11 20 1 stored (set 0 written file_blocks) ((50, 51) ∷ []) (12 ∷ []) r
    × (get_number written ≡ 1)
    × (records 8 24 0 1 written ≡ item ∷ [])
unfolding CanTake get_number
get_index_block-Loaded_example =
    get_index_block-Loaded 9 {lnk = 11} {more = []} {xs = 12 ∷ []}
      (record {
        block = refl;
        out = disk-CanFlush;
        ordered = refl;
        real = refl;
        other = refl;
        there = refl;
        near = omega arith;
        some_items = refl;
        counted = refl;
        few = omega arith;
        inside = omega arith;
        supply = refl;
        can = (refl, refl, refl, refl, tt);
        apart_out = λ a h. ground (arith, h);
        apart_in = λ a h. ground (arith, h);
      })
      (record { chain = (refl, refl, tt); distinct = (refl, (refl, tt)); counted = refl })
      (record {
        chain = (refl, refl, (refl, refl, (refl, refl, tt)));
        distinct = (refl, (refl, (refl, (refl, tt))));
        counted = refl;
      })
      refl refl refl (refl, (refl, tt)) (omega arith) (omega arith)

-- The same with a free link, 10, whose block is at 22.
abbrev spare : DbIndex
spare = record disk {
  file = record disk.file { room = 120 };
  heap = record disk.heap {
    store = record joined {
      next = λ a. if a == 3 then 10 else if a == 10 then 4 else joined.next a;
      prev = λ a. if a == 4 then 10 else if a == 10 then 3 else joined.prev a;
      data_of = λ a. if a == 10 then 22 else joined.data_of a;
    };
  };
  free = list_of 3 4 1 ListType.queued;
}

get_new_block-Grown_example :
    (r : DbIndex) × (get_new_block 9 spare 2 ≡ some (22, r))
    × Grown spare 10 22 file_blocks [] (11 ∷ 12 ∷ []) r
get_new_block-Grown_example = get_new_block-Grown 9 (record {
  block = refl;
  file = record { holds = refl; full = (refl, (refl, tt)); some_bytes = omega arith };
  fits = record {
    full = refl;
    some_bytes = omega arith;
    small = omega arith;
    room = omega arith;
    near = omega arith;
  };
  empty = record { chain = (refl, refl, tt); distinct = (refl, (refl, tt)); counted = refl };
  free = record {
    chain = (refl, refl, (refl, refl, tt));
    distinct = (refl, (refl, (refl, tt)));
    counted = refl;
  };
  free_queue = refl;
  placed = refl;
  used = record {
    chain = (refl, refl, (refl, refl, (refl, refl, tt)));
    distinct = (refl, (refl, (refl, (refl, tt))));
    counted = refl;
  };
  used_queue = refl;
  apart_items = λ a h. ground (arith, h);
  apart_used = λ a h. ground (arith, h);
})
