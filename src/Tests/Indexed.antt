-- ===== src/Tests/Indexed.antt =====
-- Removal, search and the round trip through a shell over the ten links of Nodes.
use Prim.Native.Nat.{compare}
use osdb_dcdb.Prelude.{ℕ, ◌≡◌, refl, List, [], ◌∷◌, ◌++◌, arith, some}
use osdb_dcdb.Links.{ListType, update}
use osdb_dcdb.Shells.{Shell}
use osdb_dcdb.Tests.Links.{order}
use osdb_dcdb.Shells.Restructure.Rebuild.{IsIndexed}
use osdb_dcdb.Shells.Remove.{remove_shell_item}
use osdb_dcdb.Shells.Remove.Indexed.{remove_shell_item-indexed}
use osdb_dcdb.Shells.Remove.Plain.{CanRemove, Removes, remove_shell_item-Removes}
use osdb_dcdb.Links.Order.{Ascending}
use osdb_dcdb.Shells.Search.{find_shell_item}
use osdb_dcdb.Shells.Search.Plain.{Finds, first_equal}
use osdb_dcdb.Shells.Search.Indexed.{find_shell_item-indexed}
use osdb_dcdb.Shells.Whole.{built, list2shell, shl2list}
use osdb_dcdb.Shells.Whole.Trip.{CanBuild, list2shell-shl2list}
use osdb_dcdb.Tests.Nodes.{ten_store, ten_header, ten_links, ten_shell, ten_holds}

-- The list under no nodes, and without the link 14.
abbrev no_nodes : Shell
no_nodes = record ten_shell {
  num_nodes = 0;
  nodes = record ten_shell.nodes {
    next = update (λ _. 0) 1 2;
    prev = update (λ _. 0) 2 1;
    here = λ _. 0;
  };
}

abbrev before : List ℕ
before = 10 ∷ 11 ∷ 12 ∷ 13 ∷ []

abbrev behind : List ℕ
behind = 15 ∷ 16 ∷ 17 ∷ 18 ∷ 19 ∷ []

can_remove : CanRemove no_nodes 14 12 before behind [] (3 ∷ []) (4 ∷ 6 ∷ [])
can_remove = record {
  holds = record {
    chain = ten_holds.chain;
    distinct = ten_holds.distinct;
    counted = ten_holds.counted;
  };
  kind = tt;
  nodes = record { chain = (refl, refl, tt); distinct = (refl, (refl, tt)) };
  unique = refl;
  order = order;
  full = refl;
  small = omega arith;
  supply = record { supply = refl; not_null = refl; fresh = (refl, (refl, (refl, tt))) };
  as_many = refl;
  enough = omega arith;
  enough_nodes = omega arith;
}

remove_shell_item-Removes_example :
    Removes 14 no_nodes (before ++ behind) (3 ∷ []) (remove_shell_item 12 no_nodes 14)
remove_shell_item-Removes_example =
    remove_shell_item-Removes no_nodes 14 12 before behind (3 ∷ []) (4 ∷ 6 ∷ []) can_remove

can_build : CanBuild 12 90 1 2 compare ten_header ten_store ten_links (3 ∷ 4 ∷ []) (6 ∷ [])
can_build = record {
  holds = ten_holds;
  compared = refl;
  small = omega arith;
  made = (refl, refl, refl);
  not_null = refl;
  fresh = (refl, (refl, (refl, (refl, tt))));
  as_many = refl;
  enough = omega arith;
}

list2shell-shl2list_example :
    (t : Shell) × (list2shell 12 ten_header ten_store 90 1 2 (3 ∷ 4 ∷ 6 ∷ []) ≡ some (built t))
    × (t.store ≡ ten_store)
    × (t.lh ≡ ten_header)
    × (t.compare ≡ compare)
    × IsIndexed t (3 ∷ 4 ∷ []) (10 ∷ 19 ∷ [])
    × (shl2list 12 90 t
        ≡ some (record ten_header { type = ListType.slow_sorted }, 90 ∷ 2 ∷ 1 ∷ 4 ∷ 3 ∷ []))
list2shell-shl2list_example =
    list2shell-shl2list 12 90 1 2 compare ten_header ten_store ten_links (3 ∷ 4 ∷ []) (6 ∷ [])
      can_build

ten-Ascending : Ascending compare ten_store.data_of ten_links
ten-Ascending = (
  (refl, (refl, (refl, (refl, (refl, (refl, (refl, (refl, (refl, tt))))))))),
  (
    (refl, (refl, (refl, (refl, (refl, (refl, (refl, (refl, tt)))))))),
    (
      (refl, (refl, (refl, (refl, (refl, (refl, (refl, tt))))))),
      (
        (refl, (refl, (refl, (refl, (refl, (refl, tt)))))),
        (
          (refl, (refl, (refl, (refl, (refl, tt))))),
          (
            (refl, (refl, (refl, (refl, tt)))),
            ((refl, (refl, (refl, tt))), ((refl, (refl, tt)), ((refl, tt), (tt, tt)))),
          ),
        ),
      ),
    ),
  ),
)

-- The nodes 3 and 4 on the links 10 and 19.
abbrev indexed_shell : Shell
indexed_shell = record ten_shell {
  num_nodes = 2;
  nodes = record ten_shell.nodes {
    next = update (update (update (λ _. 0) 1 3) 3 4) 4 2;
    prev = update (update (update (λ _. 0) 2 4) 4 3) 3 1;
    here = update (update (λ _. 0) 3 10) 4 19;
    supply = 5 ∷ 6 ∷ [];
  };
}

is_indexed : IsIndexed indexed_shell (3 ∷ 4 ∷ []) (10 ∷ 19 ∷ [])
is_indexed = record {
  nodes = record {
    chain = (refl, refl, (refl, refl, (refl, refl, tt)));
    distinct = (refl, (refl, (refl, (refl, tt))));
  };
  on = (refl, (refl, tt));
  forward = λ j low n h. (refl, ground arith);
}

find_shell_item-indexed_example : Finds indexed_shell 17 (find_shell_item 12 indexed_shell 17)
unfolding first_equal
find_shell_item-indexed_example =
    find_shell_item-indexed 17 12 indexed_shell ten_links (3 ∷ 4 ∷ []) order
      (record {
        chain = ten_holds.chain;
        distinct = ten_holds.distinct;
        counted = ten_holds.counted;
      })
      ten-Ascending is_indexed (omega arith) (omega arith) (omega arith)

indexed_shell-CanRemove : CanRemove indexed_shell 14 12 before behind (3 ∷ 4 ∷ []) (5 ∷ []) (6 ∷ [])
indexed_shell-CanRemove = record {
  holds = can_remove.holds;
  kind = tt;
  nodes = is_indexed.nodes;
  unique = refl;
  order = order;
  full = refl;
  small = omega arith;
  supply = record { supply = refl; not_null = refl; fresh = (refl, (refl, (refl, tt))) };
  as_many = refl;
  enough = omega arith;
  enough_nodes = omega arith;
}

remove_shell_item-indexed_example :
    Removes 14 indexed_shell (before ++ behind) (5 ∷ []) (remove_shell_item 12 indexed_shell 14)
    × Ascending compare ten_store.data_of (before ++ behind)
remove_shell_item-indexed_example =
    remove_shell_item-indexed indexed_shell 14 12 before behind (3 ∷ 4 ∷ []) (5 ∷ []) (6 ∷ [])
      indexed_shell-CanRemove is_indexed ten-Ascending
