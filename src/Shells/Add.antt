-- ===== src/Shells/Add.antt =====
-- `addShellItem`.
pub mod Between
pub mod Plain
use osdb_dcdb.Prelude.{
  ℕ, zero, suc, ◌+◌, Bool, true, ◌&&◌, Option, none, some, ◌==◌, not, if◌then◌else◌, is_lt, is_eq,
  is_gt,
}
use osdb_dcdb.Links.{Status, ok, error, null}
use osdb_dcdb.Shells.{
  Shell, ShellError, node_level, midpoint, outpoint, set_shell_error, set_current, set_level,
  compared, counted, new_shell_node, insert_at,
}
use osdb_dcdb.Shells.Search.{balance, search_run}

abbrev pub Added : Type 0
Added = Option (Status × Shell)

abbrev pub failed : ShellError → Shell → Added
failed e sh = some (error, set_shell_error e sh)

abbrev pub inserted : ℕ → ℕ → Shell → Added
inserted place lnk sh = some (ok, insert_at place lnk sh)

-- No nodes, and the data is equal to the first: past the equal links.
pub past_equal : ℕ → ℕ → Bool → ℕ → Shell → Added
past_equal zero lnk same link sh = none
past_equal (suc fuel) lnk same link sh =
    let link' = sh.store.next link in
    let again = is_eq (compared sh lnk (sh.store.next link')) in
    let rest = past_equal fuel lnk again link' (counted sh) in
    if same && not (link' == sh.lh.tail) then rest else inserted link lnk sh

-- The comparison before that loop, unless the data of the next link is NULL.
pub add_equal_first : ℕ → ℕ → ℕ → Shell → Added
add_equal_first fuel lnk link sh =
    let next = sh.store.next link in
    if sh.store.data_of next == 0
    then past_equal fuel lnk true link sh
    else past_equal fuel lnk (is_eq (compared sh lnk next)) link (counted sh)

abbrev pub when_made : (Shell → Added) → Status × Shell → Added
when_made k (Status.ok, sh) = k sh
when_made k (Status.error, sh) = some (error, sh)

-- No nodes: the scan, which makes the first node when it is long.
pub add_scan : ℕ → ℕ → (mid count link : ℕ) → Shell → Added
add_scan zero lnk mid count link sh = none
add_scan (suc fuel) lnk mid count link sh =
    let mid' = if count == midpoint then link else mid in
    let made = if count == outpoint then new_shell_node (sh.head) (sh.tail) mid' sh else (ok, sh) in
    let t = counted made.1 in
    let rest = add_scan fuel lnk mid' (count + 1) (sh.store.next link) t in
    let placed =
      if is_lt (compared sh lnk link) then inserted (sh.store.prev link) lnk t else rest in
    let go_on : Added = elim (made.0) [ Status.ok ↦ placed | Status.error ↦ some made ] in
    if link == sh.lh.tail then failed ShellError.corrupt sh else go_on

-- A shell with no nodes.
pub add_plain : ℕ → ℕ → Shell → Added
add_plain fuel lnk sh =
    let first = sh.store.next (sh.lh.head) in
    let end = sh.store.prev (sh.lh.tail) in
    let sh₁ = counted sh in
    let sh₂ = counted sh₁ in
    let equal = add_equal_first fuel lnk first sh₁ in
    let scan = add_scan fuel lnk null 1 first sh₂ in
    if first == sh.lh.tail
    then inserted (sh.lh.head) lnk sh
    else if is_lt (compared sh lnk first)
    then inserted (sh.lh.head) lnk sh₁
    else if is_eq (compared sh lnk first)
    then (if sh.is_unique then failed ShellError.unique sh₁ else equal)
    else if is_lt (compared sh lnk end)
    then scan
    else inserted end lnk sh₂

-- The node that a descent reaches, or the end of the call.
pub data Descent : Type 0 where
  reached : (node mid : ℕ) → Shell → Descent
  stopped : Status → Shell → Descent

-- After 9 nodes of one level: the fifth becomes an entry of the level above, behind `old`.
abbrev pub promote : (i count mid old : ℕ) → Shell → Shell
promote i count mid old sh =
    if count == outpoint
    then set_level i old mid (set_level i mid (sh.nodes.level i old) sh)
    else sh

-- Level `i` on the way down; `above` is the level that gets a new entry, none for the highest.
pub add_level :
    ℕ → ℕ → (above : Option ℕ) → (i old : ℕ) → (count mid node : ℕ) → Shell → Option Descent
add_level zero lnk above i old count mid node sh = none
add_level (suc fuel) lnk above i old count mid node sh =
    let node' = sh.nodes.level i node in
    let sh' = counted sh in
    let same = is_eq (compared sh lnk (sh.nodes.here node')) in
    let count' = count + 1 in
    let mid' : ℕ = elim above [ none ↦ mid | some j ↦ if count' == midpoint then node' else mid ] in
    let t : Shell = elim above [ none ↦ sh' | some j ↦ promote j count' mid' old sh' ] in
    let rest = add_level fuel lnk above i old count' mid' node' t in
    let checked : Option Descent = elim above [
      | none ↦ rest
      | some j ↦
          if node' == sh.nodes.level i node'
          then some (stopped error (set_shell_error ShellError.corrupt sh'))
          else rest
    ] in
    if node' == sh.tail
    then some (reached node mid sh)
    else if same && sh.is_unique
    then some (stopped error (set_shell_error ShellError.unique sh'))
    else if is_gt (compared sh lnk (sh.nodes.here node'))
    then checked
    else some (reached node mid sh')

-- The levels below `k`, from the highest, which promotes nothing.
pub add_levels : ℕ → (k lnk mid node : ℕ) → Shell → Option Descent
add_levels fuel zero lnk mid node sh = some (reached node mid sh)
add_levels fuel (suc k) lnk mid node sh =
    let above = if suc k == node_level then none else some (suc k) in
    elim (add_level fuel lnk above k node 0 mid node sh) [
      | none ↦ none
      | some (reached node' mid' sh') ↦ add_levels fuel k lnk mid' node' sh'
      | some (stopped status sh') ↦ some (stopped status sh')
    ]

-- The loop over the chain of nodes, to the first whose link is not less.
pub add_nodes_walk : ℕ → ℕ → (old count mid node : ℕ) → Shell → Option Descent
add_nodes_walk zero lnk old count mid node sh = none
add_nodes_walk (suc fuel) lnk old count mid node sh =
    let node' = sh.nodes.next node in
    let sh' = counted sh in
    let o = compared sh lnk (sh.nodes.here node) in
    let mid' = if count + 1 == midpoint then node' else mid in
    let rest =
      add_nodes_walk fuel lnk old (count + 1) mid' node' (promote 0 (count + 1) mid' old sh') in
    if node == sh.tail
    then some (reached node mid sh)
    else if is_eq o && sh.is_unique
    then some (stopped error (set_shell_error ShellError.unique sh'))
    else if is_gt o
    then (if node == node'
        then some (stopped error (set_shell_error ShellError.corrupt sh'))
        else rest)
    else some (reached node mid sh')

-- `insertNode`: the scan of the links before a node.
pub add_part : ℕ → ℕ → (node mid count link : ℕ) → Shell → Added
add_part zero lnk node mid count link sh = none
add_part (suc fuel) lnk node mid count link sh =
    let mid' = if count == midpoint then link else mid in
    let full = count == outpoint in
    let count' = if full then 0 else count in
    let made = if full then new_shell_node (sh.nodes.prev node) node mid' sh else (ok, sh) in
    let t = counted made.1 in
    let o = compared sh lnk link in
    let rest = add_part fuel lnk node mid' (count' + 1) (sh.store.next link) t in
    let placed : Added =
      if is_eq o && sh.is_unique
      then failed ShellError.unique t
      else if is_gt o
      then (if link == sh.store.next link then failed ShellError.corrupt t else rest)
      else inserted (sh.store.prev link) lnk (set_current (t.nodes.prev node) t) in
    let go_on : Added = elim (made.0) [ Status.ok ↦ placed | Status.error ↦ some made ] in
    if link == sh.lh.tail then failed ShellError.corrupt sh else go_on

pub add_before : ℕ → ℕ → Option Descent → Added
add_before fuel lnk none = none
add_before fuel lnk (some (stopped status sh)) = some (status, sh)
add_before fuel lnk (some (reached node mid sh)) =
    let before = sh.nodes.prev node in
    let start = if before == sh.head then sh.store.next (sh.lh.head) else sh.nodes.here before in
    add_part fuel lnk node null 0 start sh

pub add_walk : ℕ → ℕ → Option Descent → Option Descent
add_walk fuel lnk none = none
add_walk fuel lnk (some (stopped status sh)) = some (stopped status sh)
add_walk fuel lnk (some (reached node mid sh)) = add_nodes_walk fuel lnk node 0 mid node sh

-- A shell with nodes.
pub add_indexed : ℕ → ℕ → Shell → Added
add_indexed fuel lnk sh =
    let first = sh.store.next (sh.lh.head) in
    let end = sh.store.prev (sh.lh.tail) in
    let sh₁ = counted sh in
    let sh₂ = counted sh₁ in
    let first_node = sh.nodes.next (sh.head) in
    let down = add_levels fuel node_level lnk null first_node sh₂ in
    let placed = add_before fuel lnk (add_walk fuel lnk down) in
    if is_lt (compared sh lnk first)
    then inserted (sh.lh.head) lnk (set_current first_node sh₁)
    else if is_eq (compared sh lnk first) && sh.is_unique
    then failed ShellError.unique sh₁
    else if is_eq (compared sh lnk first)
    then inserted first lnk (set_current first_node sh₁)
    else if is_eq (compared sh lnk end) && sh.is_unique
    then failed ShellError.unique sh₂
    else if is_lt (compared sh lnk end)
    then placed
    else inserted end lnk (set_current (sh.nodes.prev (sh.tail)) sh₂)

pub add_ready : ℕ → ℕ → Shell → Added
add_ready fuel lnk sh =
    let plain = add_plain fuel lnk sh in
    let indexed = add_indexed fuel lnk sh in
    if sh.nodes.next (sh.head) == sh.tail then plain else indexed

abbrev pub add_balanced : (Shell → Added) → Option (Status × Shell) → Added
add_balanced k none = none
add_balanced k (some (Status.error, sh)) = some (error, sh)
add_balanced k (some (Status.ok, sh)) = k (record sh { num_compares = 0 })

pub add_shell_item : ℕ → Shell → ℕ → Added
add_shell_item fuel sh lnk = add_balanced (add_ready fuel lnk) (balance fuel sh)

-- All that a run of an insertion computes with.
unfoldable pub add_run : Unit {0}
unfolding search_run new_shell_node insert_at past_equal add_equal_first add_scan add_plain
    add_level add_levels add_nodes_walk add_part add_before add_walk add_indexed add_ready
    add_shell_item
add_run = tt
