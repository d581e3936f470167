-- ===== src/Shells/Restructure.antt =====
-- `restructureShellNodes`: the nodes are dropped and built anew over every ninth link, and the
-- levels over every ninth node of the level below.
pub mod Forward
pub mod Grow
pub mod Laws
pub mod Nodes
pub mod Rebuild
use osdb_dcdb.Prelude.{ℕ, zero, suc, ◌+◌, ◌-◌, Option, none, some, ◌==◌, ltb, if◌then◌else◌}
use osdb_dcdb.Links.{Status, ok, error}
use osdb_dcdb.Shells.{
  Shell, restruct, node_level, free_node, new_shell_node, set_level, set_node_next, set_node_prev,
}

-- Step 1, the loop that frees the nodes.
pub free_nodes : ℕ → ℕ → Shell → Option Shell
free_nodes zero node sh = none
free_nodes (suc fuel) node sh =
    let rest = free_nodes fuel (sh.nodes.next node) (free_node node sh) in
    if node == sh.tail then some sh else rest

-- Step 1, the reset.
pub without_nodes : Shell → Shell
without_nodes sh =
    let n = sh.nodes in
    record (set_node_next (sh.tail) 0 (
      set_node_prev (sh.tail) (sh.head)
        (set_node_next (sh.head) (sh.tail) (set_node_prev (sh.head) 0 sh)))) {
          current = sh.head;
          num_nodes = 0;
        }

-- `for (counter = 0; counter < k && p != end; counter++, p = next (p))`
pub advance : (ℕ → ℕ) → ℕ → ℕ → ℕ → ℕ
advance next end zero p = p
advance next end (suc k) p = if p == end then p else advance next end k (next p)

-- Step 2, the loop: a node on every ninth link.
pub add_nodes : ℕ → ℕ → Shell → Option (Status × Shell)
add_nodes zero lnk sh = none
add_nodes (suc fuel) lnk sh =
    let lnk' = advance (sh.store.next) (sh.lh.tail) restruct lnk in
    let made = new_shell_node (sh.nodes.prev (sh.tail)) (sh.tail) lnk' sh in
    let rest = add_nodes fuel lnk' made.1 in
    let go_on : Option (Status × Shell) = elim (made.0) [
      | Status.ok ↦ rest
      | Status.error ↦ some (error, made.1)
    ] in
    if lnk == sh.lh.tail then some (ok, sh) else if lnk' == sh.lh.tail then some (ok, sh) else go_on

-- Step 3, the loop that builds level `i` by walking the nodes with `next`; it counts the entries.
pub build_level : ℕ → ℕ → (ℕ → ℕ) → (node old counter : ℕ) → Shell → Option (ℕ × Shell)
build_level zero i next node old counter sh = none
build_level (suc fuel) i next node old counter sh =
    let node' = advance next (sh.tail) restruct node in
    let rest = build_level fuel i next node' node' (counter + 1) (set_level i old node' sh) in
    if node == sh.tail
    then some (counter, sh)
    else if node' == sh.tail
    then some (counter, sh)
    else rest

-- Step 3, the levels above the first: `i` counts up while `k` of them are left, and `entries` is
-- the number of entries of level `i`.
pub build_levels : ℕ → (k i entries : ℕ) → Shell → Option Shell
build_levels fuel zero i entries sh = some sh
build_levels fuel (suc k) i entries sh =
    let first = sh.nodes.next (sh.head) in
    let built = build_level fuel (i + 1) (sh.nodes.level i) first first 0 sh in
    let skip = build_levels fuel k (i + 1) 0 sh in
    let next : Option Shell = elim built [
      | none ↦ none
      | some (n, sh') ↦ build_levels fuel k (i + 1) n sh'
    ] in
    if ltb restruct entries then next else skip

pub first_level : ℕ → Shell → Option (ℕ × Shell)
first_level fuel sh =
    let first = sh.nodes.next (sh.head) in
    if ltb restruct (sh.num_nodes)
    then build_level fuel 0 (sh.nodes.next) first first 0 sh
    else some (0, sh)

abbrev pub finished : Option Shell → Option (Status × Shell)
finished none = none
finished (some sh) = some (ok, record sh { num_restruct = sh.num_restruct + 1 })

pub indexed : ℕ → Option (ℕ × Shell) → Option (Status × Shell)
indexed fuel none = none
indexed fuel (some (n, sh)) = finished (build_levels fuel (node_level - 1) 0 n sh)

-- What follows step 2.
pub after_nodes : ℕ → Option (Status × Shell) → Option (Status × Shell)
after_nodes fuel none = none
after_nodes fuel (some (Status.error, sh)) = some (error, sh)
after_nodes fuel (some (Status.ok, sh)) = indexed fuel (first_level fuel sh)

pub first_node : ℕ → Status × Shell → Option (Status × Shell)
first_node fuel (Status.error, sh) = some (error, sh)
first_node fuel (Status.ok, sh) = after_nodes fuel (add_nodes fuel (sh.store.next (sh.lh.head)) sh)

pub rebuild : ℕ → Option Shell → Option (Status × Shell)
rebuild fuel none = none
rebuild fuel (some dropped) =
    let sh = without_nodes dropped in
    let lnk = sh.store.next (sh.lh.head) in
    let made = first_node fuel (new_shell_node (sh.head) (sh.tail) lnk sh) in
    if ltb (sh.lh.number) restruct then some (ok, sh) else made

unfoldable pub restructure_shell_nodes : ℕ → Shell → Option (Status × Shell)
restructure_shell_nodes fuel sh = rebuild fuel (free_nodes fuel (sh.nodes.next (sh.head)) sh)

-- All that a run of the restructuring computes with.
unfoldable pub restructure_run : Unit {0}
unfolding new_shell_node free_nodes without_nodes advance add_nodes build_level build_levels
    first_level indexed after_nodes first_node rebuild restructure_shell_nodes
restructure_run = tt
