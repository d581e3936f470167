-- ===== src/Shells.antt =====
-- lib/sort.c, the shell section, with the types of include/sort.h: a list of links in order, and
-- above it a chain of nodes between two sentinel nodes. A node points at a link (`here`) and, for
-- each of ten levels, at a later node.
-- A shell is a value that holds its header, the store of its links and the nodes. `supply` is what
-- the coming calls of `malloc` for a node return; 0, or nothing left, is NULL. The int counters
-- are numbers that do not wrap. A walk takes fuel, and `none` means that it ran out.
pub mod Add
pub mod Memory
pub mod Query
pub mod Remove
pub mod Restructure
pub mod Search
pub mod Start
pub mod Whole
use osdb_dcdb.Prelude.{
  ℕ, zero, suc, ◌+◌, ◌*◌, ◌<◌, Bool, true, false, ◌&&◌, not, Option, none, some, List, [], ◌∷◌,
  ◌==◌, ltb, if◌then◌else◌, is_lt, is_eq, is_gt, Ordering,
}
use osdb_dcdb.Links.{Status, ok, error, Compare, ListHeader, Store, null, update, insert_link_here}

pub data ShellError : Type 0 where
  no_err no_mem param list corrupt unique link_mgr th_create th_join unspecified : ShellError

abbrev pub node_level : ℕ
node_level = 10

abbrev pub midpoint : ℕ
midpoint = 5

abbrev pub outpoint : ℕ
outpoint = 9

abbrev pub restruct : ℕ
restruct = 9

abbrev pub rstruct_thresh : ℕ
rstruct_thresh = 10

abbrev pub outpoint_thresh : ℕ
outpoint_thresh = 6 * (node_level * outpoint)

-- `level i n` is `n->level[i]`.
pub record Nodes : Type 0 where
  pub next : ℕ → ℕ
  pub prev : ℕ → ℕ
  pub here : ℕ → ℕ
  pub level : ℕ → ℕ → ℕ
  pub supply : List ℕ
  pub freed : List ℕ

pub record Shell : Type 0 where
  pub head : ℕ
  pub tail : ℕ
  pub current : ℕ
  pub shell_error : ShellError
  pub num_nodes : ℕ
  pub is_unique : Bool
  pub manage_allocs : Bool
  pub lh : ListHeader
  pub num_compares : ℕ
  pub thresh : ℕ
  pub num_restruct : ℕ
  pub compare : Compare
  pub store : Store
  pub nodes : Nodes

abbrev pub set_shell_error : ShellError → Shell → Shell
set_shell_error e sh = record sh { shell_error = e }

abbrev pub set_current : ℕ → Shell → Shell
set_current n sh = record sh { current = n }

-- `shl->lh->current = c`
abbrev pub set_list_current : ℕ → Shell → Shell
set_list_current c sh = record sh { lh = record (sh.lh) { current = c } }

abbrev pub set_node_next : ℕ → ℕ → Shell → Shell
set_node_next p q sh = record sh { nodes = record (sh.nodes) { next = update (sh.nodes.next) p q } }

abbrev pub set_node_prev : ℕ → ℕ → Shell → Shell
set_node_prev p q sh = record sh { nodes = record (sh.nodes) { prev = update (sh.nodes.prev) p q } }

abbrev pub update_level : (ℕ → ℕ → ℕ) → ℕ → ℕ → ℕ → ℕ → ℕ → ℕ
update_level f i p q j n = if j == i && n == p then q else f j n

-- `p->level[i] = q`
abbrev pub set_level : ℕ → ℕ → ℕ → Shell → Shell
set_level i p q sh = record sh {
  nodes = record (sh.nodes) { level = update_level (sh.nodes.level) i p q };
}

abbrev pub free_node : ℕ → Shell → Shell
free_node p sh = record sh { nodes = record (sh.nodes) { freed = p ∷ sh.nodes.freed } }

-- `status = shl->compare (lnk->data, link->data); shl->numCompares++`
abbrev pub compared : Shell → ℕ → ℕ → Ordering
compared sh lnk link = sh.compare (sh.store.data_of lnk) (sh.store.data_of link)

abbrev pub counted : Shell → Shell
counted sh = record sh { num_compares = sh.num_compares + 1 }

abbrev pub first_of_supply : List ℕ → ℕ
first_of_supply [] = null
first_of_supply (p ∷ ps) = p

abbrev pub rest_of_supply : List ℕ → List ℕ
rest_of_supply [] = []
rest_of_supply (p ∷ ps) = ps

abbrev pub all_levels : (ℕ → ℕ → ℕ) → ℕ → ℕ → ℕ → ℕ → ℕ
all_levels f p q i n = if n == p && ltb i node_level then q else f i n

-- The assignments of `newShellNode` to the node `p` that `malloc` returned.
abbrev pub filled_node : ℕ → (before after here : ℕ) → Shell → Shell
filled_node p before after here sh =
    let n = sh.nodes in
    record sh {
      current = p;
      num_nodes = sh.num_nodes + 1;
      nodes = record n {
        next = update (update (n.next) p after) before p;
        prev = update (update (n.prev) p before) after p;
        here = update (n.here) p here;
        level = all_levels (n.level) p (sh.tail);
        supply = rest_of_supply (n.supply);
      };
    }

unfoldable pub new_shell_node : (before after here : ℕ) → Shell → Status × Shell
new_shell_node before after here sh =
    let p = first_of_supply (sh.nodes.supply) in
    if p == null
    then (
      error,
      set_shell_error no_mem
          (record sh { nodes = record (sh.nodes) { supply = rest_of_supply (sh.nodes.supply) } }),
    )
    else (ok, filled_node p before after here sh)

-- `insertLinkHere (shl->lh, lnk)`, behind the link that is made current.
unfoldable pub insert_at : ℕ → ℕ → Shell → Shell
unfolding insert_link_here
insert_at place lnk sh =
    let (_, lh, s) = insert_link_here (record (sh.lh) { current = place }) lnk (sh.store) in
    record sh { lh = lh; store = s }
