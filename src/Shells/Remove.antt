-- ===== src/Shells/Remove.antt =====
-- `removeShellItem`: the link is searched for, taken from the list, and the nodes are rebuilt.
-- The copy of the list's error to the global `ListError` is left out.
pub mod Indexed
pub mod Plain
use osdb_dcdb.Prelude.{
  ℕ, zero, suc, Bool, true, false, Option, none, some, ◌||◌, ◌==◌, if◌then◌else◌, is_eq,
}
use osdb_dcdb.Links.{Status, null, remove_link}
use osdb_dcdb.Shells.{Shell, ShellError, set_shell_error, compared, counted}
use osdb_dcdb.Shells.Restructure.{restructure_shell_nodes}
use osdb_dcdb.Shells.Search.{Found, find_shell_item}
use osdb_dcdb.Shells.Query.{query_shell_item}

-- `shl->lh->current = lnk; link = removeLink (shl->lh)`
pub take_link : ℕ → Shell → ℕ × Shell
take_link lnk sh =
    let (link, lh, s) = remove_link (record sh.lh { current = lnk }) sh.store in
    (link, record sh { lh = lh; store = s })

-- The status of the restructuring is ignored.
abbrev pub whatever_status : ℕ → Option (Status × Shell) → Found
whatever_status link none = none
whatever_status link (some (_, sh)) = some (link, sh)

-- The removal with the restructuring behind it.
pub remove_rebuilding : ℕ → ℕ → Shell → Found
remove_rebuilding fuel lnk sh =
    let (link, t) = take_link lnk sh in
    let rebuilt = whatever_status link (restructure_shell_nodes fuel t) in
    if link == null then some (null, set_shell_error ShellError.list t) else rebuilt

-- The removal of a link that no node stands on.
pub remove_plainly : ℕ → Shell → Found
remove_plainly lnk sh =
    let (link, t) = take_link lnk sh in
    if link == null then some (null, set_shell_error ShellError.corrupt t) else some (link, t)

-- The loop over the nodes on equal links: does one stand on `lnk`?
pub on_node : ℕ → ℕ → Bool → ℕ → Shell → Option (Bool × Shell)
on_node zero lnk same node sh = none
on_node (suc fuel) lnk same node sh =
    let node' = sh.nodes.next node in
    let again = is_eq (compared sh lnk (sh.nodes.here node')) in
    let rest = on_node fuel lnk again node' (counted sh) in
    if same
    then (if sh.nodes.here node == lnk
        then some (true, sh)
        else if node' == sh.tail || sh.nodes.here node' == null
        then some (false, sh)
        else rest)
    else some (false, sh)

abbrev pub remove_unless_on_node : ℕ → ℕ → Option (Bool × Shell) → Found
remove_unless_on_node fuel lnk none = none
remove_unless_on_node fuel lnk (some (true, sh)) = remove_rebuilding fuel lnk sh
remove_unless_on_node fuel lnk (some (false, sh)) = remove_plainly lnk sh

-- In a shell that is not unique, from the node where the query ended.
pub remove_from_node : ℕ → ℕ → Shell → Found
remove_from_node fuel lnk sh =
    let node = sh.nodes.next sh.current in
    let same = is_eq (compared sh lnk (sh.nodes.here node)) in
    let rebuilt = remove_rebuilding fuel lnk sh in
    let looked = remove_unless_on_node fuel lnk (on_node fuel lnk same node (counted sh)) in
    if sh.nodes.here sh.current == lnk
    then rebuilt
    else if sh.nodes.here node == null
    then remove_plainly lnk sh
    else looked

abbrev pub if_found : (Shell → Found) → Found → Found
if_found k none = none
if_found k (some (link, sh)) =
    let gone = k sh in
    if link == null then some (null, set_shell_error ShellError.corrupt sh) else gone

pub remove_shell_item : ℕ → Shell → ℕ → Found
remove_shell_item fuel sh lnk =
    let ready = record sh { num_compares = 0 } in
    let unique = if_found (remove_rebuilding fuel lnk) (find_shell_item fuel ready lnk) in
    let shared = if_found (remove_from_node fuel lnk) (query_shell_item fuel ready lnk) in
    if sh.is_unique then unique else shared
