-- ===== src/Tests/Shells.antt =====
-- Shells of sort.c over numbers: the data of a link is a tenth of its address.
use Prim.Native.Nat.{compare}
use osdb_dcdb.Prelude.{
  ℕ, ◌/◌, ◌≡◌, ltb, refl, Bool, true, List, [], ◌∷◌, ◌++◌, arith, zero, suc, ◌==◌, if◌then◌else◌,
  Option, some, none,
}
use osdb_dcdb.Links.{ListType, ListErrorType, Status, ok, error, update}
use osdb_dcdb.Shells.{Shell, ShellError}
use osdb_dcdb.Links.Order.{Ascending}
use osdb_dcdb.Links.Chain.{IsList}
use osdb_dcdb.Tests.Links.{store, links, header, holds, order}
use osdb_dcdb.Shells.Add.Between.{AddsBetween}
use osdb_dcdb.Shells.Add.Plain.{CanAdd, add_shell_item-in_order, add_shell_item-equal_last}
use osdb_dcdb.Shells.Search.Plain.{Finds, first_equal}
use osdb_dcdb.Shells.Search.Single.{find_shell_item-single}
use osdb_dcdb.Shells.Query.Nearest.{query_shell_item-nearest}
use osdb_dcdb.Shells.Search.{find_shell_item}
use osdb_dcdb.Shells.Query.{query_shell_item}
use osdb_dcdb.Shells.Add.{add_shell_item, add_run}

-- Sentinel links 2001 and 2002, sentinel nodes 1 and 2.
abbrev empty_shell : Bool → Shell
empty_shell u = record {
  head = 1;
  tail = 2;
  current = 1;
  shell_error = ShellError.no_err;
  num_nodes = 0;
  is_unique = u;
  manage_allocs = true;
  lh = record {
    list_error = ListErrorType.no_error;
    head = 2001;
    tail = 2002;
    current = 2001;
    type = ListType.unsorted;
    number = 0;
    compare = none;
  };
  num_compares = 0;
  thresh = 0;
  num_restruct = 0;
  compare = compare;
  store = record {
    next = update (λ _. 0) 2001 2002;
    prev = update (λ _. 0) 2002 2001;
    data_of = λ a. if ltb 1000 a then 0 else a / 10;
    freed = [];
  };
  nodes = record {
    next = update (λ _. 0) 1 2;
    prev = update (λ _. 0) 2 1;
    here = λ _. 0;
    level = λ _ _. 0;
    supply = 3 ∷ 4 ∷ 5 ∷ 6 ∷ [];
    freed = [];
  };
}

abbrev fill : List ℕ → Shell → Option (Status × Shell)
fill [] sh = some (ok, sh)
fill (x ∷ xs) sh = elim (add_shell_item 100 sh x) [
  | none ↦ none
  | some (Status.error, t) ↦ some (error, t)
  | some (Status.ok, t) ↦ fill xs t
]

-- The links behind `a`, and before them the number of nodes.
abbrev chain_of : ℕ → ℕ → Shell → List ℕ
chain_of zero a sh = []
chain_of (suc k) a sh = if a == sh.lh.tail then [] else a ∷ chain_of k (sh.store.next a) sh

abbrev shown : Option (Status × Shell) → List ℕ
shown none = []
shown (some (s, sh)) = sh.num_nodes ∷ chain_of 50 (sh.store.next sh.lh.head) sh

abbrev found_in : ℕ → Option (Status × Shell) → Option ℕ
found_in x none = none
found_in x (some (s, sh)) = elim (find_shell_item 100 sh x) [ none ↦ none | some (l, _) ↦ some l ]

abbrev ten : List ℕ
ten = 100 ∷ 200 ∷ 300 ∷ 400 ∷ 500 ∷ 600 ∷ 700 ∷ 800 ∷ 900 ∷ 1000 ∷ []

-- Links go in at their places.
add_run_order : shown (fill (300 ∷ 100 ∷ 200 ∷ []) (empty_shell true)) ≡ 0 ∷ 100 ∷ 200 ∷ 300 ∷ []
unfolding add_run
add_run_order = refl

-- A scan past the ninth link makes a node.
add_run_node :
    shown (fill (ten ++ 950 ∷ []) (empty_shell true))
    ≡ 1 ∷ 100 ∷ 200 ∷ 300 ∷ 400 ∷ 500 ∷ 600 ∷ 700 ∷ 800 ∷ 900 ∷ 950 ∷ 1000 ∷ []
unfolding add_run
add_run_node = refl

-- The first of a shell is refused a second time, the last is not.
add_run_first : shown (fill (100 ∷ 200 ∷ 101 ∷ []) (empty_shell true)) ≡ 0 ∷ 100 ∷ 200 ∷ []
unfolding add_run
add_run_first = refl

add_run_last : shown (fill (100 ∷ 200 ∷ 201 ∷ []) (empty_shell true)) ≡ 0 ∷ 100 ∷ 200 ∷ 201 ∷ []
unfolding add_run
add_run_last = refl

-- With one node, links before the node's link are not found.
find_run_before : found_in 200 (fill (ten ++ 950 ∷ []) (empty_shell true)) ≡ some 0
unfolding add_run
find_run_before = refl

find_run_behind : found_in 700 (fill (ten ++ 950 ∷ []) (empty_shell true)) ≡ some 700
unfolding add_run
find_run_behind = refl

-- The list 10, 11, 12 of the data 100, 110, 120 in a shell with no nodes, and under one node.
abbrev small : Shell
small = record (empty_shell true) { lh = header ListType.unsorted 1; store = store }

abbrev single : Shell
single = record small {
  num_nodes = 1;
  nodes = record small.nodes {
    next = update (update (λ _. 0) 1 3) 3 2;
    prev = update (update (λ _. 0) 2 3) 3 1;
    here = update (λ _. 0) 3 12;
    level = λ _ _. 2;
  };
}

small_holds : IsList small.store small.lh links
small_holds = record {
  chain = (holds ListType.unsorted 1).chain;
  distinct = (holds ListType.unsorted 1).distinct;
  counted = (holds ListType.unsorted 1).counted;
}

can_add : CanAdd small 13 4 links
can_add = record {
  holds = small_holds;
  bare = refl;
  calm = omega arith;
  order = order;
  ascending = ((refl, (refl, tt)), ((refl, tt), (tt, tt)));
  full = (refl, (refl, (refl, tt)));
  outside = refl;
  grow = refl;
  enough = omega arith;
}

-- 13 has the data 115.
add_shell_item-in_order_example :
    AddsBetween 13 (10 ∷ 11 ∷ []) (12 ∷ []) small.lh small.store (add_shell_item 4 small 13)
    × ((10 ∷ 11 ∷ []) ++ 12 ∷ [] ≡ links)
    × Ascending compare store.data_of (10 ∷ 11 ∷ 13 ∷ 12 ∷ [])
add_shell_item-in_order_example = add_shell_item-in_order small 13 4 links can_add refl

query_shell_item-nearest_example : Finds small 11 (query_shell_item 4 small 13)
unfolding first_equal
query_shell_item-nearest_example =
    query_shell_item-nearest 13 4 small 10 (11 ∷ 12 ∷ []) small_holds refl (omega arith)
      (omega arith) order can_add.ascending refl

-- 15 has the data 120.
add_shell_item-equal_last_example :
    AddsBetween 15 links [] small.lh small.store (add_shell_item 4 small 15)
add_shell_item-equal_last_example =
    add_shell_item-equal_last small 15 4 10 (11 ∷ 12 ∷ []) small_holds refl refl (omega arith) refl
      refl refl

-- The link 11 itself is not found.
find_shell_item-single_example : Finds single 0 (find_shell_item 2 single 11)
find_shell_item-single_example =
    find_shell_item-single 11 1 3 10 single (11 ∷ 12 ∷ []) small_holds refl refl refl refl
      (λ i. refl) (omega arith) refl refl refl
