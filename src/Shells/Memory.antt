-- ===== src/Shells/Memory.antt =====
-- `newShellNode` when the memory is there.
use osdb_dcdb.Prelude.{ℕ, ◌≡◌, false, ◌==◌}
use osdb_dcdb.Links.{ok, null}
use osdb_dcdb.Shells.{Shell, first_of_supply, filled_node, new_shell_node}

-- The next node is there.
abbrev pub CanGrow : Shell → Type 0
CanGrow sh = (first_of_supply sh.nodes.supply == null) ≡ false

pub new_shell_node-ok :
    (before after here : ℕ) (sh : Shell)
    → CanGrow sh
    → new_shell_node before after here sh
      ≡ (ok, filled_node (first_of_supply sh.nodes.supply) before after here sh)
unfolding new_shell_node
new_shell_node-ok before after here sh grow = rw grow
