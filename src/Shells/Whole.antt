-- ===== src/Shells/Whole.antt =====
-- Whole shells: `list2Shell` and `shl2List`, which put nodes above a list and take them away,
-- `delShell`, and `nodeLevels`. The allocations of the header and of the two sentinel nodes are
-- arguments; 0 is NULL. A header that is freed stands in `freed` with the nodes.
pub mod Trip
use osdb_dcdb.Prelude.{
  ℕ, zero, suc, ◌+◌, false, Option, none, some, List, [], ◌∷◌, ◌==◌, if◌then◌else◌, Ordering,
}
use osdb_dcdb.Links.{Status, ListHeader, ListType, Store, Compare, null}
use osdb_dcdb.Shells.{Shell, ShellError, Nodes, set_node_next, set_node_prev}
use osdb_dcdb.Shells.Restructure.{free_nodes, restructure_shell_nodes}

-- `node->level[i]` to the sentinel, counted.
pub count_level : ℕ → (i node counter : ℕ) → Shell → Option ℕ
count_level zero i node counter sh = none
count_level (suc fuel) i node counter sh =
    let rest = count_level fuel i (sh.nodes.level i node) (counter + 1) sh in
    if sh.nodes.level i node == sh.tail then some counter else rest

-- The levels below `k`, from the highest; the counter is not set back between them, and a level
-- without entries counts 0. The list has the highest level first.
pub node_levels : ℕ → (k counter : ℕ) → Shell → Option (List ℕ)
node_levels fuel zero counter sh = some []
node_levels fuel (suc k) counter sh =
    let first = sh.nodes.next sh.head in
    elim (count_level fuel k first counter sh) [
      | none ↦ none
      | some n ↦ elim (node_levels fuel k n sh) [
        | none ↦ none
        | some ns ↦ some ((if sh.nodes.level k first == sh.tail then 0 else n) ∷ ns)
      ]
    ]

-- The dismantling: the nodes, the two sentinels and the header at `p` are freed.
pub dismantle : ℕ → ℕ → Shell → Option (List ℕ)
dismantle fuel p sh = elim (free_nodes fuel (sh.nodes.next sh.head) sh) [
  | none ↦ none
  | some t ↦ some (p ∷ t.tail ∷ t.head ∷ t.nodes.freed)
]

-- `shl2List` of a shell that is not NULL: the list and what is freed.
pub shl2list : ℕ → ℕ → Shell → Option (ListHeader × List ℕ)
shl2list fuel p sh = elim (dismantle fuel p sh) [
  | none ↦ none
  | some freed ↦
      some (record sh.lh { type = ListType.slow_sorted; compare = some sh.compare }, freed)
]

-- The shell that `list2Shell` builds before the restructuring; the fields of the zeroed header and
-- sentinels that it does not set are 0.
unfoldable pub bare_shell :
    Compare → ListHeader → Store → (head tail : ℕ) → (supply : List ℕ) → Shell
bare_shell cmp lh s head tail supply =
    let zeroed : Nodes = record {
      next = λ _. null;
      prev = λ _. null;
      here = λ _. null;
      level = λ _ _. null;
      supply = supply;
      freed = [];
    } in
    let sh : Shell = record {
      head = head;
      tail = tail;
      current = head;
      shell_error = ShellError.no_err;
      num_nodes = 0;
      is_unique = false;
      manage_allocs = false;
      lh = lh;
      num_compares = 0;
      thresh = 0;
      num_restruct = 0;
      compare = cmp;
      store = s;
      nodes = zeroed;
    } in
    set_node_next tail null
      (set_node_prev head null (set_node_prev tail head (set_node_next head tail sh)))

-- What `list2Shell` gives: a shell, or the error, with the shell that it gives to `delShell` if the
-- restructuring failed. `uncompared` is a shell whose compare function is NULL; the one that the
-- `Shell` has in its place is not called by what is done here.
pub data Built : Type 0 where
  built : Shell → Built
  no_memory : Built
  unbuilt : Shell → Built
  uncompared : Shell → Built

abbrev pub after_rebuild : Option (Status × Shell) → Option Built
after_rebuild none = none
after_rebuild (some (Status.ok, sh)) = some (built sh)
after_rebuild (some (Status.error, sh)) = some (unbuilt sh)

abbrev pub no_compare : Option Built → Option Built
no_compare (some (built sh)) = some (uncompared sh)
no_compare found = found

-- `shl->compare = lh->compare`, and the shell over the list.
abbrev pub made_with :
    ℕ → Option Compare → ListHeader → Store → (head tail : ℕ) → (supply : List ℕ) → Option Built
made_with fuel none lh s head tail supply = no_compare (
    after_rebuild
      (restructure_shell_nodes fuel (bare_shell (λ a b. Ordering.eq) lh s head tail supply)))
made_with fuel (some cmp) lh s head tail supply =
    after_rebuild (restructure_shell_nodes fuel (bare_shell cmp lh s head tail supply))

pub list2shell : ℕ → ListHeader → Store → (p head tail : ℕ) → (supply : List ℕ) → Option Built
list2shell fuel lh s p head tail supply =
    let made = made_with fuel lh.compare lh s head tail supply in
    if p == null
    then some no_memory
    else if head == null
    then some no_memory
    else if tail == null
    then some no_memory
    else made
