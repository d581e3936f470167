-- ===== src/Tests/Nodes.antt =====
-- Restructuring of a shell over ten links: sentinel links 1 and 2, links 10 to 19, sentinel nodes 1
-- and 2, an old node 5.
use Prim.Native.Nat.{compare}
use osdb_dcdb.Prelude.{ℕ, ◌+◌, ◌-◌, refl, List, [], ◌∷◌, arith, ◌==◌, if◌then◌else◌, true, some}
use osdb_dcdb.Links.{Store, ListHeader, ListType, ListErrorType, update}
use osdb_dcdb.Links.Chain.{IsList}
use osdb_dcdb.Shells.{Shell, ShellError}
use osdb_dcdb.Shells.Restructure.{restructure_shell_nodes}
use osdb_dcdb.Shells.Restructure.Nodes.{HasNodes}
use osdb_dcdb.Shells.Restructure.Grow.{CanSupply}
use osdb_dcdb.Shells.Restructure.Laws.{Restructures, restructure_shell_nodes-Restructures}

abbrev pub ten_store : Store
ten_store = record {
  next = λ a. if a == 1 then 10 else if a == 19 then 2 else a + 1;
  prev = λ a. if a == 10 then 1 else if a == 2 then 19 else a - 1;
  data_of = λ a. a;
  freed = [];
}

abbrev pub ten_header : ListHeader
ten_header = record {
  list_error = ListErrorType.no_error;
  head = 1;
  tail = 2;
  current = 1;
  type = ListType.unsorted;
  number = 10;
  compare = some compare;
}

abbrev pub ten_links : List ℕ
ten_links = 10 ∷ 11 ∷ 12 ∷ 13 ∷ 14 ∷ 15 ∷ 16 ∷ 17 ∷ 18 ∷ 19 ∷ []

abbrev pub ten_shell : Shell
ten_shell = record {
  head = 1;
  tail = 2;
  current = 1;
  shell_error = ShellError.no_err;
  num_nodes = 1;
  is_unique = true;
  manage_allocs = true;
  lh = ten_header;
  num_compares = 0;
  thresh = 0;
  num_restruct = 0;
  compare = compare;
  store = ten_store;
  nodes = record {
    next = update (update (λ _. 0) 1 5) 5 2;
    prev = update (update (λ _. 0) 2 5) 5 1;
    here = update (λ _. 0) 5 14;
    level = λ _ _. 2;
    supply = 3 ∷ 4 ∷ 6 ∷ [];
    freed = [];
  };
}

pub ten_holds : IsList ten_store ten_header ten_links
ten_holds = record {
  chain = (
    refl,
    refl,
    (
      refl,
      refl,
      (
        refl,
        refl,
        (
          refl,
          refl,
          (
            refl,
            refl,
            (refl, refl, (refl, refl, (refl, refl, (refl, refl, (refl, refl, (refl, refl, tt)))))),
          ),
        ),
      ),
    ),
  );
  distinct = (
    refl,
    (refl, (refl, (refl, (refl, (refl, (refl, (refl, (refl, (refl, (refl, (refl, tt))))))))))),
  );
  counted = refl;
}

ten_nodes : HasNodes ten_shell (5 ∷ [])
ten_nodes = record { chain = (refl, refl, (refl, refl, tt)); distinct = (refl, (refl, (refl, tt))) }

ten_supply : CanSupply ten_shell [] (3 ∷ 4 ∷ []) (6 ∷ [])
ten_supply = record { supply = refl; not_null = refl; fresh = (refl, (refl, (refl, (refl, tt)))) }

-- The new nodes 3 and 4 stand on the links 10 and 19.
restructure_shell_nodes-Restructures_example :
    Restructures ten_shell
      (5 ∷ [])
      (3 ∷ 4 ∷ [])
      (10 ∷ 19 ∷ [])
      (restructure_shell_nodes 12 ten_shell)
restructure_shell_nodes-Restructures_example =
    restructure_shell_nodes-Restructures 12 ten_shell ten_links (5 ∷ []) (3 ∷ 4 ∷ []) (6 ∷ [])
      ten_holds (omega arith) ten_nodes ten_supply refl (omega arith) (omega arith)
