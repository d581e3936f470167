-- ===== src/Tests/Blocks.antt =====
-- Block files of block.c with blocks of two bytes.
use osdb_dcdb.Prelude.{ℕ, ◌≡◌, refl, some, none, List, [], ◌∷◌, arith}
use osdb_dcdb.Blocks
use osdb_dcdb.Blocks.{
  File, get_file_block, put_file_block, append_file_block, file_seek_begin, file_seek_end,
  file_read, file_write,
}
use osdb_dcdb.Blocks.Back.{block_to_list-list_to_block}
use osdb_dcdb.Blocks.Bytes.{read_at}
use osdb_dcdb.Blocks.Calls.{
  Call, get, put, append, read, written, numbered, answers, expected_answers, AreAllowed,
  answers-expected,
}
use osdb_dcdb.Blocks.Control.{create_block_file, open_block_file, close_block_file, close-open}
use osdb_dcdb.Blocks.Copies.{Heap, block_to_list, list_to_block}
use osdb_dcdb.Blocks.Records.{CanTake, Holds, records}
use osdb_dcdb.Blocks.Refine.{IsBlockFile}
use osdb_dcdb.Links.{Status, ok, error, ListHeader, ListType, Store}
use osdb_dcdb.Links.Chain.{IsList}

abbrev pair_file : File
pair_file = record {
  bytes = 1 ∷ 2 ∷ 3 ∷ 4 ∷ [];
  place = 0;
  room = 100;
  fio_error = Blocks.no_error;
}

pair_file-IsBlockFile : IsBlockFile 2 ((1 ∷ 2 ∷ []) ∷ (3 ∷ 4 ∷ []) ∷ []) pair_file
pair_file-IsBlockFile = record { holds = refl; full = (refl, (refl, tt)); some_bytes = omega arith }

file_run : Unit {0}
unfolding get_file_block put_file_block append_file_block file_seek_begin file_seek_end file_read
    file_write create_block_file open_block_file close_block_file
file_run = tt

appended : (append_file_block pair_file (5 ∷ 6 ∷ []) 2).0 ≡ some 2
unfolding file_run
appended = refl

-- A write that the device cuts short is an error.
cut_short : put_file_block (record pair_file { room = 3 }) (5 ∷ 6 ∷ []) 1 2 ≡ (
  error,
  record pair_file {
    bytes = 1 ∷ 2 ∷ 5 ∷ 4 ∷ [];
    place = 3;
    room = 3;
    fio_error = Blocks.unspecified;
  },
)
unfolding file_run
cut_short = refl

abbrev calls : List Call
calls = append (5 ∷ 6 ∷ []) ∷ put 0 (7 ∷ 8 ∷ []) ∷ get 2 (0 ∷ 0 ∷ []) ∷ get 9 (0 ∷ 0 ∷ []) ∷ []

answers-expected_example :
    answers 2 pair_file calls
    ≡ numbered (some 2) ∷ written ok ∷ read (ok, 5 ∷ 6 ∷ []) ∷ read (error, 0 ∷ 0 ∷ []) ∷ []
unfolding expected_answers AreAllowed
answers-expected_example =
    answers-expected 2 pair_file ((1 ∷ 2 ∷ []) ∷ (3 ∷ 4 ∷ []) ∷ []) calls pair_file-IsBlockFile
      (record { small = omega arith; near = omega arith; room = omega arith })
      (refl, ((refl, omega arith), ((refl, omega arith), ((refl, omega arith), tt))))

close-open_example :
    (g : File) × (h : File) × (close_block_file pair_file 2 (9 ∷ 9 ∷ []) ≡ (ok, g))
    × (open_block_file none 100 Blocks.no_error g.bytes 2 (0 ∷ 0 ∷ [])
        ≡ ((some h, Blocks.no_error), 9 ∷ 9 ∷ []))
    × IsBlockFile 2 ((9 ∷ 9 ∷ []) ∷ (3 ∷ 4 ∷ []) ∷ []) h
close-open_example =
    close-open pair_file 2 (1 ∷ 2 ∷ []) (9 ∷ 9 ∷ []) (0 ∷ 0 ∷ []) ((3 ∷ 4 ∷ []) ∷ [])
      Blocks.no_error pair_file-IsBlockFile
      (record { whole = refl; some_bytes = omega arith; small = omega arith; enough = omega arith })
      refl

-- Sentinels 1 and 2, and room for two buffers and two links.
abbrev empty_list : ListHeader
empty_list = record {
  list_error = osdb_dcdb.Links.no_error;
  head = 1;
  tail = 2;
  current = 1;
  type = ListType.unsorted;
  number = 0;
  compare = none;
}

abbrev empty_heap : Heap
empty_heap = record {
  store = record { next = λ a. 2; prev = λ a. 1; data_of = λ a. 0; freed = [] };
  contents = λ a. [];
  supply = 10 ∷ 11 ∷ 12 ∷ 13 ∷ [];
  fio_error = Blocks.no_error;
}

block_to_list-list_to_block_example :
    (r : ListHeader × Heap) × (back : List ℕ) × (block_to_list empty_list empty_heap
        (0 ∷ 1 ∷ 2 ∷ 3 ∷ 4 ∷ [])
        2
        2
        1
      ≡ some (ok, r.0, r.1))
    × IsList r.1.store r.0 (11 ∷ 13 ∷ [])
    × Holds r.1 ((10, 11) ∷ (12, 13) ∷ []) ((1 ∷ 2 ∷ []) ∷ (3 ∷ 4 ∷ []) ∷ [])
    × (list_to_block r.0 r.1 (9 ∷ 9 ∷ 9 ∷ 9 ∷ 9 ∷ 9 ∷ []) 2 2 1 ≡ (ok, back, r.1.fio_error))
    × (records 2 1 0 2 back ≡ (1 ∷ 2 ∷ []) ∷ (3 ∷ 4 ∷ []) ∷ [])
    × (read_at 0 1 back ≡ 9 ∷ [])
unfolding CanTake
block_to_list-list_to_block_example =
    block_to_list-list_to_block (0 ∷ 1 ∷ 2 ∷ 3 ∷ 4 ∷ []) (9 ∷ 9 ∷ 9 ∷ 9 ∷ 9 ∷ 9 ∷ []) 2 1 empty_list
      empty_heap ((10, 11) ∷ (12, 13) ∷ []) []
      (record { chain = (refl, refl, tt); distinct = (refl, (refl, tt)); counted = refl }) refl
      (refl, refl, refl, refl, (refl, refl, refl, refl, tt)) (omega arith) (omega arith)
      (omega arith)
