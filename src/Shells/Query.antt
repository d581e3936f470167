-- ===== src/Shells/Query.antt =====
-- `queryShellItem`: a link with equal data, or one from which to go on.
pub mod Nearest
pub mod Plain
use osdb_dcdb.Prelude.{ℕ, zero, suc, none, some, ◌==◌, if◌then◌else◌, is_lt, is_eq, is_gt}
use osdb_dcdb.Links.{null}
use osdb_dcdb.Shells.{
  Shell, ShellError, node_level, set_shell_error, set_current, set_list_current, compared, counted,
}
use osdb_dcdb.Shells.Search.{
  Found, Ending, balance, balanced, back_over_equal, descend, walk_parts, walk_from, search_run,
}

-- The link before a greater one, or that one itself if it is the first.
abbrev pub before_greater : ℕ → Shell → ℕ
before_greater link sh = if sh.store.prev link == sh.lh.head then link else sh.store.prev link

-- A shell with no nodes.
pub query_plain : ℕ → ℕ → ℕ → Shell → Found
query_plain zero lnk link sh = none
query_plain (suc fuel) lnk link sh =
    let sh' = counted sh in
    let rest = query_plain fuel lnk (sh.store.next link) sh' in
    if link == sh.lh.tail
    then some (sh.store.prev (sh.lh.tail), sh)
    else if is_eq (compared sh lnk link)
    then some (link, set_list_current link sh')
    else if is_lt (compared sh lnk link)
    then some (before_greater link sh', sh')
    else rest

-- The first of the links equal to the last.
abbrev pub query_of_last : Found → Found
query_of_last none = none
query_of_last (some (link, sh)) =
    let next = sh.store.next link in
    some (if next == sh.lh.tail then link else next, set_current (sh.nodes.prev (sh.tail)) sh)

abbrev pub on_greater : Ending
on_greater node link sh =
    let found = before_greater link sh in (found, set_list_current found (set_current node sh))

abbrev pub on_end : Shell → ℕ × Shell
on_end sh = (sh.store.prev (sh.lh.tail), set_current (sh.nodes.prev (sh.tail)) sh)

-- A shell with nodes.
pub query_indexed : ℕ → ℕ → Shell → Found
query_indexed fuel lnk sh =
    let first = sh.store.next (sh.lh.head) in
    let end = sh.store.prev (sh.lh.tail) in
    let sh₁ = counted sh in
    let sh₂ = counted sh₁ in
    let at_end = query_of_last (back_over_equal fuel lnk end sh₂) in
    let down = descend fuel node_level lnk (sh.nodes.next (sh.head)) sh₂ in
    let walked = walk_from fuel lnk on_greater on_end down in
    if is_eq (compared sh lnk first)
    then some (first, set_current (sh.nodes.next (sh.head)) sh₁)
    else if is_lt (compared sh lnk first)
    then some (first, sh₁)
    else if is_eq (compared sh lnk end)
    then (if sh.is_unique then some (end, sh₂) else at_end)
    else if is_gt (compared sh lnk end)
    then some (end, set_current (sh.nodes.prev (sh.tail)) sh₂)
    else walked

pub query_ready : ℕ → ℕ → Shell → Found
query_ready fuel lnk sh =
    let first = sh.store.next (sh.lh.head) in
    let plain = query_plain fuel lnk first sh in
    let indexed = query_indexed fuel lnk sh in
    if sh.nodes.next (sh.head) == sh.tail
    then (if first == sh.lh.tail then some (null, set_shell_error ShellError.param sh) else plain)
    else indexed

pub query_shell_item : ℕ → Shell → ℕ → Found
query_shell_item fuel sh lnk = balanced (query_ready fuel lnk) (balance fuel sh)

-- All that a run of a query computes with.
unfoldable pub query_run : Unit {0}
unfolding search_run query_plain query_indexed query_ready query_shell_item
query_run = tt
