-- ===== src/Shells/Remove/Indexed.antt =====
-- `removeShellItem` in a unique shell whose nodes stand on every ninth link.
use osdb_dcdb.Prelude.{ℕ, List, ◌∷◌, ◌++◌, [], arith}
use osdb_dcdb.Links.{Compare}
use osdb_dcdb.Links.Order.{Above, Ascending}
use osdb_dcdb.Shells.{Shell}
use osdb_dcdb.Shells.Search.Indexed.{find_shell_item-indexed}
use osdb_dcdb.Shells.Restructure.Rebuild.{IsIndexed}
use osdb_dcdb.Shells.Restructure.Laws.{stops}
use osdb_dcdb.Shells.Remove.{remove_shell_item}
use osdb_dcdb.Shells.Remove.Plain.{CanRemove, Removes, found-Removes}

module _ (cmp : Compare) (dat : ℕ → ℕ) where
  Above-remove :
      (d x : ℕ) (us vs : List ℕ) → Above cmp dat d (us ++ x ∷ vs) → Above cmp dat d (us ++ vs)
  Above-remove d x [] vs a = a.1
  Above-remove d x (u ∷ us) vs a = (a.0, Above-remove d x us vs a.1)

  -- A sequence in order stays so without one of its links.
  Ascending-remove :
      (x : ℕ) (us vs : List ℕ) → Ascending cmp dat (us ++ x ∷ vs) → Ascending cmp dat (us ++ vs)
  Ascending-remove x [] vs a = a.1
  Ascending-remove x (u ∷ us) vs a =
      (Above-remove (dat u) x us vs a.0, Ascending-remove x us vs a.1)

-- In a unique shell in order with nodes on every ninth link and levels that lead to later nodes,
-- where `CanRemove` holds (a lawful compare function, no NULL links, memory and fuel),
-- removeShellItem of a link of the list ends and returns the link; the list
-- holds the others in order, with their data, and has nodes on every ninth link again, or none if
-- there are less than nine.
pub remove_shell_item-indexed :
    (sh : Shell) (x fuel : ℕ) (xs ys ps qs rest : List ℕ)
    → CanRemove sh x fuel xs ys ps qs rest
    → IsIndexed sh ps (stops (xs ++ x ∷ ys))
    → Ascending sh.compare sh.store.data_of (xs ++ x ∷ ys)
    → Removes x sh (xs ++ ys) qs (remove_shell_item fuel sh x)
      × Ascending sh.compare sh.store.data_of (xs ++ ys)
remove_shell_item-indexed sh x fuel xs ys ps qs rest c i a =
    let ready = record sh { num_compares = 0 } in
    let i' : IsIndexed ready ps (stops (xs ++ x ∷ ys)) = record {
      nodes = record { chain = i.nodes.chain; distinct = i.nodes.distinct };
      on = i.on;
      forward = i.forward;
    } in
    (
      found-Removes sh x fuel xs ys ps qs rest c (
          find_shell_item-indexed x fuel ready (xs ++ x ∷ ys) ps c.order c.holds a i' (omega arith)
            c.enough c.enough_nodes),
      Ascending-remove sh.compare sh.store.data_of x xs ys a,
    )
