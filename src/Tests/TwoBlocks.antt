-- ===== src/Tests/TwoBlocks.antt =====
-- An index of two blocks, with the keys a and b in the one, and c in the other. Links 10 and 11 have
-- the blocks 5 and 6 at 20 and 21; the items of block 5 are the links 61 and 62 between 32 and 33,
-- that of block 6 the link 63 between 34 and 35. The shell has the links 43 and 44 for the blocks.
-- The key that is searched for is that of the link 45 or 46.
use osdb_dcdb.Prelude.{
  ℕ, ◌+◌, refl, true, false, some, none, List, [], ◌∷◌, ◌++◌, arith, Bool, ◌==◌, ◌||◌,
  if◌then◌else◌,
}
use osdb_dcdb.Blocks
use osdb_dcdb.Cache
use osdb_dcdb.Cache.{IdxBlock, DbIndex}
use osdb_dcdb.Cache.Touch.{Uses}
use osdb_dcdb.Index.{Index}
use osdb_dcdb.Index.Exact.{CanSearch}
use osdb_dcdb.Index.Keys.{case_compare, case_compare-IsOrder, hash_str}
use osdb_dcdb.Index.Leaves.{Leaf, Chained}
use osdb_dcdb.Links
use osdb_dcdb.Links.{error, ListHeader, ListType, Store, Compare}
use osdb_dcdb.Shells.{Shell, ShellError}

abbrev pub behind : List (ℕ × ℕ) → ℕ → ℕ
behind [] a = 0
behind ((b, c) ∷ ps) a = let rest = behind ps a in if a == b then c else rest

abbrev pub before : List (ℕ × ℕ) → ℕ → ℕ
before [] a = 0
before ((b, c) ∷ ps) a = let rest = before ps a in if a == c then b else rest

abbrev pub joined : List (ℕ × ℕ) → Store
joined ps = record {
  next = behind ps;
  prev = before ps;
  data_of = λ a. if a == 10 then 20 else if a == 11 then 21 else a + 100;
  freed = [];
}

abbrev pub list_of : (head tail number : ℕ) → ListType → ListHeader
list_of head tail number type = record {
  list_error = Links.no_error;
  head = head;
  tail = tail;
  current = head;
  type = type;
  number = number;
  compare = none;
}

abbrev pub number_of : ℕ → List ℕ
number_of n = n ∷ 0 ∷ 0 ∷ 0 ∷ 0 ∷ 0 ∷ 0 ∷ 0 ∷ []

abbrev pub key_of : ℕ → List ℕ
key_of d =
    if d == 161 || d == 143 || d == 145
    then 97 ∷ 0 ∷ []
    else if d == 162 || d == 146
    then 98 ∷ 0 ∷ []
    else 99 ∷ 0 ∷ []

abbrev pub keys : Compare
keys a b = case_compare (key_of a) (key_of b)

abbrev pub block_of : (number next_block : ℕ) → ListHeader → IdxBlock
block_of n next lh = record {
  block_number = n;
  blk = number_of lh.number ++ number_of 0 ++ number_of next;
  is_dirty = true;
  num_max_items = 4;
  item_size = 10;
  current_size = 20;
  first_item = 161;
  current = 0;
  key_item_list = record lh { compare = some keys };
}

abbrev pub in_memory : (u : Bool) → DbIndex
in_memory u = record {
  file = record { bytes = []; place = 0; room = 140; fio_error = Blocks.no_error };
  hdr = record {
    block_size = 64;
    last_block = 6;
    num_items = 3;
    is_unique = u;
    is_case = true;
    item_size = 10;
    case_compare = keys;
    no_case_compare = keys;
  };
  heap = record {
    store = joined (
        (1, 10)
        ∷ (10, 11)
        ∷ (11, 2)
        ∷ (32, 61)
        ∷ (61, 62)
        ∷ (62, 33)
        ∷ (34, 63)
        ∷ (63, 35)
        ∷ (3, 4)
        ∷ []);
    contents = λ d. number_of (if d == 143 then 5 else if d == 144 then 6 else 0) ++ key_of d;
    supply = 47 ∷ [];
    fio_error = Blocks.no_error;
  };
  blocks = λ a.
      if a == 20
      then block_of 5 6 (list_of 32 33 2 ListType.slow_sorted)
      else block_of 6 0 (list_of 34 35 1 ListType.slow_sorted);
  free = list_of 3 4 0 ListType.queued;
  used = list_of 1 2 2 ListType.queued;
  idx_error = Cache.no_error;
}

abbrev pub block_keys : Shell
block_keys = record {
  head = 1;
  tail = 2;
  current = 1;
  shell_error = ShellError.no_err;
  num_nodes = 0;
  is_unique = true;
  manage_allocs = true;
  lh = list_of 41 42 2 ListType.unsorted;
  num_compares = 0;
  thresh = 0;
  num_restruct = 0;
  compare = keys;
  store = joined ((41, 43) ∷ (43, 44) ∷ (44, 42) ∷ []);
  nodes = record {
    next = λ a. 2;
    prev = λ a. 1;
    here = λ a. 0;
    level = λ i a. 0;
    supply = [];
    freed = [];
  };
}

abbrev pub index : (u : Bool) → Index
index u = record {
  cache = in_memory u;
  inx = block_keys;
  bof = false;
  eof = false;
  current = 0;
  is_sequential = false;
}

abbrev pub five : Leaf
five = record { number = 5; place = 20; first = 61; others = 62 ∷ [] }

abbrev pub six : Leaf
six = record { number = 6; place = 21; first = 63; others = [] }

pub index-Uses : (u : Bool) → Uses (in_memory u) (5 ∷ 6 ∷ [])
index-Uses u = record {
  links = 10 ∷ 11 ∷ [];
  holds = record {
    chain = (refl, refl, (refl, refl, (refl, refl, tt)));
    distinct = (refl, (refl, (refl, (refl, tt))));
    counted = refl;
  };
  real = refl;
  named = refl;
}

pub index-Chained : (u : Bool) → Chained (in_memory u) (index-Uses u) (five ∷ six ∷ [])
unfolding index-Uses
index-Chained u = (
  refl,
  record {
    known = refl;
    only = λ l h e. ground (arith, h, e);
    holds = record {
      chain = (refl, refl, (refl, refl, (refl, refl, tt)));
      distinct = (refl, (refl, (refl, (refl, tt))));
      counted = refl;
    };
    next = refl;
    real = refl;
    real_links = refl;
    real_items = refl;
    apart = λ a h. ground (arith, h);
  },
  (
    refl,
    record {
      known = refl;
      only = λ l h e. ground (arith, h, e);
      holds = record {
        chain = (refl, refl, (refl, refl, tt));
        distinct = (refl, (refl, (refl, tt)));
        counted = refl;
      };
      next = refl;
      real = refl;
      real_links = refl;
      real_items = refl;
      apart = λ a h. ground (arith, h);
    },
    tt,
  ),
)

pub index-CanSearch : (u : Bool) → CanSearch 9 (index u) five (six ∷ []) 43 (44 ∷ [])
unfolding case_compare hash_str
index-CanSearch u = record {
  order = 5 ∷ 6 ∷ [];
  uses = index-Uses u;
  distinct = (refl, (refl, tt));
  enough = omega arith;
  chained = index-Chained u;
  lawful = case_compare-IsOrder key_of;
  increasing = ((refl, (refl, tt)), ((refl, tt), (tt, tt)));
  shell = record {
    chain = (refl, refl, (refl, refl, (refl, refl, tt)));
    distinct = (refl, (refl, (refl, (refl, tt))));
    counted = refl;
  };
  bare = refl;
  calm = omega arith;
  few_blocks = omega arith;
  few_items = omega arith;
  names = (
    record { real = refl; number = refl; key = λ d. refl },
    (record { real = refl; number = refl; key = λ d. refl }, tt),
  );
}
