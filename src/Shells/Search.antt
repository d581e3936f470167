-- ===== src/Shells/Search.antt =====
-- `findShellItem` and `queryShellItem`. The first returns a link with equal data or NULL, the
-- second a link to start from. Both first come down through the levels to a node.
pub mod Descents
pub mod Indexed
pub mod Parts
pub mod Plain
pub mod Scans
pub mod Single
pub mod Walks
use osdb_dcdb.Prelude.{
  ℕ, zero, suc, ◌+◌, Option, none, some, ◌==◌, ltb, if◌then◌else◌, is_lt, is_eq, is_gt,
}
use osdb_dcdb.Links.{Status, null}
use osdb_dcdb.Shells.{
  Shell, node_level, rstruct_thresh, outpoint_thresh, set_current, set_list_current, compared,
  counted,
}
use osdb_dcdb.Shells.Restructure.{restructure_shell_nodes, restructure_run}

-- What a function that returns a link gives: the link, NULL for none, and the shell.
abbrev pub Found : Type 0
Found = Option (ℕ × Shell)

-- The restructuring at the start, after more than ten calls that compared too much.
-- A failure in it ends the call with NULL.
pub balance : ℕ → Shell → Option (Status × Shell)
balance fuel sh =
    let more = record sh { thresh = sh.thresh + 1 } in
    let rebuilt = restructure_shell_nodes fuel (record sh { thresh = 0 }) in
    if ltb outpoint_thresh (sh.num_compares)
    then if ltb rstruct_thresh (sh.thresh + 1) then rebuilt else some (Status.ok, more)
    else some (Status.ok, sh)

abbrev pub balanced : (Shell → Found) → Option (Status × Shell) → Found
balanced k none = none
balanced k (some (Status.error, sh)) = some (null, sh)
balanced k (some (Status.ok, sh)) = k (record sh { num_compares = 0 })

-- The walk back over the links equal to the last: where it stops.
pub back_over_equal : ℕ → ℕ → ℕ → Shell → Found
back_over_equal zero lnk link sh = none
back_over_equal (suc fuel) lnk link sh =
    let sh' = counted sh in
    let rest = back_over_equal fuel lnk (sh.store.prev link) sh' in
    if link == sh.lh.head
    then some (link, sh)
    else if is_eq (compared sh lnk link)
    then rest
    else some (link, sh')

-- One level on the way down: on to the next node while its link is less.
pub descend_level : ℕ → ℕ → (i node : ℕ) → Shell → Found
descend_level zero lnk i node sh = none
descend_level (suc fuel) lnk i node sh =
    let node' = sh.nodes.level i node in
    let sh' = counted sh in
    let rest = descend_level fuel lnk i node' sh' in
    if node' == sh.tail
    then some (node, sh)
    else if is_gt (compared sh lnk (sh.nodes.here node'))
    then rest
    else some (node, sh')

-- The levels below `k`, from the highest.
pub descend : ℕ → (k lnk node : ℕ) → Shell → Found
descend fuel zero lnk node sh = some (node, sh)
descend fuel (suc k) lnk node sh = elim (descend_level fuel lnk k node sh) [
  | none ↦ none
  | some (node', sh') ↦ descend fuel k lnk node' sh'
]

-- What a scan over links meets: an equal link, one that is greater, or the end.
pub data Scan : Type 0 where
  equal : ℕ → Shell → Scan
  greater : ℕ → Shell → Scan
  ended : Shell → Scan

pub scan_links : ℕ → (lnk stop link : ℕ) → Shell → Option Scan
scan_links zero lnk stop link sh = none
scan_links (suc fuel) lnk stop link sh =
    let sh' = counted sh in
    let rest = scan_links fuel lnk stop (sh.store.next link) sh' in
    let o = compared sh lnk link in
    if link == stop
    then some (ended sh)
    else if is_eq o
    then some (equal link sh')
    else if is_lt o
    then some (greater link sh')
    else rest

-- Where a node's part of the list begins: the first node answers for the links before it too.
abbrev pub part_start : Shell → ℕ → ℕ
part_start sh node =
    if node == sh.nodes.next (sh.head) then sh.store.next (sh.lh.head) else sh.nodes.here node

-- How the two functions end at an equal and at a greater link of the part of a node.
abbrev pub Ending : Type 0
Ending = (node link : ℕ) → Shell → ℕ × Shell

abbrev pub on_equal : Ending
on_equal node link sh = (link, set_list_current link (set_current node sh))

-- The loop over the nodes up to the last one, and the scan of the last one's part.
module _ (fuel lnk : ℕ) (on_greater : Ending) (on_end : Shell → ℕ × Shell) where
  pub last_part : ℕ → Shell → Found
  last_part node sh = elim (scan_links fuel lnk (sh.lh.tail) (sh.nodes.here node) sh) [
    | none ↦ none
    | some (equal link sh') ↦ some (on_equal (sh'.nodes.prev (sh'.tail)) link sh')
    | some (greater link sh') ↦ some (on_greater node link sh')
    | some (ended sh') ↦ some (on_end sh')
  ]

  pub walk_parts : ℕ → ℕ → Shell → Found
  walk_parts zero node sh = none
  walk_parts (suc rounds) node sh =
      let node' = sh.nodes.next node in
      let sh' = counted sh in
      let stop = sh.nodes.here node' in
      let skipped = walk_parts rounds node' sh' in
      let scanned : Found = elim (scan_links fuel lnk stop (part_start sh node) sh') [
        | none ↦ none
        | some (equal link t) ↦ some (on_equal node link t)
        | some (greater link t) ↦ some (on_greater node link t)
        | some (ended t) ↦ walk_parts rounds node' t
      ] in
      if node' == sh.tail
      then last_part node sh
      else if is_gt (compared sh lnk stop)
      then skipped
      else scanned

abbrev pub walk_from : ℕ → ℕ → Ending → (Shell → ℕ × Shell) → Found → Found
walk_from fuel lnk on_greater on_end none = none
walk_from fuel lnk on_greater on_end (some (node, sh)) =
    walk_parts fuel lnk on_greater on_end fuel node sh

abbrev pub none_found : Ending
none_found node link sh = (null, sh)

-- A shell with no nodes: the first equal link.
pub find_plain : ℕ → ℕ → ℕ → Shell → Found
find_plain zero lnk link sh = none
find_plain (suc fuel) lnk link sh =
    let sh' = counted sh in
    let rest = find_plain fuel lnk (sh.store.next link) sh' in
    if link == sh.lh.tail
    then some (null, sh)
    else if is_eq (compared sh lnk link)
    then some (link, set_list_current link sh')
    else rest

-- The first of the links equal to the last.
abbrev pub first_of_last : Found → Found
first_of_last none = none
first_of_last (some (link, sh)) =
    some (sh.store.next link, set_current (sh.nodes.prev (sh.tail)) sh)

-- A shell with nodes: the two ends of the list, then the levels.
pub find_indexed : ℕ → ℕ → Shell → Found
find_indexed fuel lnk sh =
    let first = sh.store.next (sh.lh.head) in
    let end = sh.store.prev (sh.lh.tail) in
    let sh₁ = counted sh in
    let sh₂ = counted sh₁ in
    let at_end = first_of_last (back_over_equal fuel lnk end sh₂) in
    let down = descend fuel node_level lnk (sh.nodes.next (sh.head)) sh₂ in
    let walked = walk_from fuel lnk none_found (λ t. (null, t)) down in
    if is_eq (compared sh lnk first)
    then some (first, set_current (sh.nodes.next (sh.head)) sh₁)
    else if is_lt (compared sh lnk first)
    then some (null, sh₁)
    else if is_eq (compared sh lnk end)
    then at_end
    else if is_gt (compared sh lnk end)
    then some (null, sh₂)
    else walked

pub find_ready : ℕ → ℕ → Shell → Found
find_ready fuel lnk sh =
    let plain = find_plain fuel lnk (sh.store.next (sh.lh.head)) sh in
    let indexed = find_indexed fuel lnk sh in
    if sh.nodes.next (sh.head) == sh.tail then plain else indexed

pub find_shell_item : ℕ → Shell → ℕ → Found
find_shell_item fuel sh lnk = balanced (find_ready fuel lnk) (balance fuel sh)

-- All that a run of a search computes with.
unfoldable pub search_run : Unit {0}
unfolding restructure_run balance back_over_equal descend_level descend scan_links last_part
    walk_parts find_plain find_indexed find_ready find_shell_item
search_run = tt
