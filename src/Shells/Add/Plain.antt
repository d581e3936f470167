-- ===== src/Shells/Add/Plain.antt =====
-- `addShellItem` in a shell with no nodes.
use osdb_dcdb.Prelude.{
  ℕ, ◌<◌, ◌≡◌, refl, Bool, true, false, ◌&&◌, List, [], ◌∷◌, ◌++◌, arith, ==_self, Bool-cases,
  if◌then◌else◌, is_lt, is_eq, is_gt, length, last, inl, inr,
}
use mathlib.Core.List.{append-nil}
use osdb_dcdb.Links.{null, Store, ListHeader}
use osdb_dcdb.Links.Chain.{IsList, prev-tail}
use osdb_dcdb.Links.Places.{no_sentinel, next_head}
use osdb_dcdb.Links.Insert.{IsOutside}
use osdb_dcdb.Links.Order.{
  IsOrder, le, Above-mono, Ascending-upto, Ascending, upto, beyond, upto-append-beyond, upto-all,
}
use osdb_dcdb.Shells.{Shell, compared, counted}
use osdb_dcdb.Shells.Add.{Added, add_plain, add_ready, add_shell_item}
use osdb_dcdb.Shells.Search.Plain.{IsCalm, balance-ok}
use osdb_dcdb.Shells.Memory.{CanGrow}
use osdb_dcdb.Shells.Add.Between.{
  AddsBetween, inserted-AddsBetween, add_equal_first-AddsBetween, add_scan-AddsBetween, HasData,
}

-- A list in order in a shell without nodes, and a link and fuel for an insertion.
pub record CanAdd (sh : Shell) (lnk fuel : ℕ) (xs : List ℕ) : Type 0 where
  pub holds : IsList sh.store sh.lh xs
  pub bare : sh.nodes.next sh.head ≡ sh.tail
  pub calm : IsCalm sh
  pub order : IsOrder sh.compare
  pub ascending : Ascending sh.compare sh.store.data_of xs
  pub full : HasData sh.store xs
  pub outside : IsOutside lnk sh.lh xs
  pub grow : CanGrow sh
  pub enough : length xs < fuel

-- A unique shell refuses data that is equal to that of its first link.
abbrev pub refuses : Shell → ℕ → List ℕ → Bool
refuses sh lnk [] = false
refuses sh lnk (x ∷ xs) = sh.is_unique && is_eq (compared sh lnk x)

AddsBetween-unless :
    (lnk : ℕ) (b : Bool) (us vs : List ℕ) (lh : ListHeader) (s : Store) (r refused : Added)
    → b ≡ false
    → AddsBetween lnk us vs lh s r
    → AddsBetween lnk us vs lh s (if b then refused else r)
AddsBetween-unless lnk b us vs lh s r refused e adds = rw e adds

module _ (sh : Shell) (lnk fuel : ℕ) where
  abbrev ready : Shell
  ready = record sh { num_compares = 0 }

  add_shell_item-add_plain :
      sh.nodes.next sh.head ≡ sh.tail
      → IsCalm sh
      → add_shell_item fuel sh lnk ≡ add_plain fuel lnk ready
  unfolding add_shell_item add_ready
  add_shell_item-add_plain bare calm = rw (balance-ok fuel sh calm, bare, ==_self)

  add_plain-AddsBetween :
      (xs : List ℕ)
      → CanAdd sh lnk fuel xs
      → refuses sh lnk xs ≡ false
      → AddsBetween lnk
          (upto sh.compare sh.store.data_of (sh.store.data_of lnk) xs)
          (beyond sh.compare sh.store.data_of (sh.store.data_of lnk) xs)
          sh.lh
          sh.store
          (add_plain fuel lnk ready)
  unfolding add_plain
  add_plain-AddsBetween [] c free =
      rw (next_head [] c.holds, ==_self)
        (inserted-AddsBetween lnk sh.lh.head [] [] ready refl c.holds c.outside)
  add_plain-AddsBetween (x ∷ xs) c free =
      let first : sh.store.next sh.lh.head ≡ x = next_head (x ∷ xs) c.holds in
      let more = (no_sentinel x [] xs c.holds).1 in
      let end : sh.store.prev sh.lh.tail ≡ last x xs = prev-tail (x ∷ xs) c.holds in
      elim (Bool-cases (is_lt (compared sh lnk x))) [
        | inl lt ↦
            rw (first, more, lt)
              (inserted-AddsBetween lnk sh.lh.head [] (x ∷ xs) (counted ready) refl c.holds
                c.outside)
        | inr ge ↦ elim (Bool-cases (is_eq (compared sh lnk x))) [
          | inl eq ↦
              let single : sh.is_unique ≡ false = ground (arith, free) in
              let le : le sh.compare (sh.store.data_of lnk) (sh.store.data_of x) ≡ true =
                ground arith in
              let above =
                Above-mono sh.compare sh.store.data_of c.order (sh.store.data_of lnk)
                  (sh.store.data_of x) xs le c.ascending.0 in
              rw (first, more, ge, eq)
                (AddsBetween-unless lnk sh.is_unique _ _ sh.lh sh.store _ _ single (
                  add_equal_first-AddsBetween lnk fuel (counted ready) x xs c.holds c.outside above
                    c.full.1 (omega (arith, c.enough))))
          | inr gt ↦ elim (Bool-cases (is_lt (compared sh lnk (last x xs)))) [
            | inl below ↦
                rw (first, more, ge, gt, end, below)
                  (rw ge at (
                    add_scan-AddsBetween lnk fuel null 1 (counted (counted ready)) [] (x ∷ xs)
                      c.holds c.outside below (inr c.grow) c.enough))
            | inr above ↦
                let under : le sh.compare (sh.store.data_of (last x xs)) (sh.store.data_of lnk)
                    ≡ true =
                  ground
                    (arith, c.order.flip (sh.store.data_of lnk) (sh.store.data_of (last x xs))) in
                let (all, none_left) =
                  upto-all sh.compare sh.store.data_of c.order (sh.store.data_of lnk) x xs
                    c.ascending under in
                rw (all, none_left, first, more, ge, gt, end, above)
                  (inserted-AddsBetween lnk (last x xs) (x ∷ xs) [] (counted (counted ready)) refl
                    (rw (append-nil (x ∷ xs)) c.holds) (rw (append-nil xs) c.outside))
          ]
        ]
      ]

  -- In a calm shell with no nodes, over a list in order with a lawful compare function, no NULL
  -- data and memory for a node, and with fuel above the list's length, an item from outside that
  -- the shell does not refuse is inserted, and the call ends with _OK_: before the first link with
  -- greater data and behind all others, so that the list is in order again.
  pub add_shell_item-in_order :
      (xs : List ℕ)
      → CanAdd sh lnk fuel xs
      → refuses sh lnk xs ≡ false
      → let us = upto sh.compare sh.store.data_of (sh.store.data_of lnk) xs in
        let vs = beyond sh.compare sh.store.data_of (sh.store.data_of lnk) xs in
        AddsBetween lnk us vs sh.lh sh.store (add_shell_item fuel sh lnk)
        × (us ++ vs ≡ xs)
        × Ascending sh.compare sh.store.data_of (us ++ lnk ∷ vs)
  add_shell_item-in_order xs c free = (
    rw (add_shell_item-add_plain c.bare c.calm) (add_plain-AddsBetween xs c free),
    upto-append-beyond sh.compare sh.store.data_of (sh.store.data_of lnk) xs,
    Ascending-upto sh.compare sh.store.data_of c.order lnk xs c.ascending,
  )

  -- In a calm unique shell with no nodes, an item that is greater than the first one and equal to
  -- the last is accepted: it stands behind the last item, and the call ends with _OK_.
  pub add_shell_item-equal_last :
      (x : ℕ) (xs : List ℕ)
      → IsList sh.store sh.lh (x ∷ xs)
      → IsOutside lnk sh.lh (x ∷ xs)
      → sh.nodes.next sh.head ≡ sh.tail
      → IsCalm sh
      → sh.is_unique ≡ true
      → is_gt (compared sh lnk x) ≡ true
      → is_eq (compared sh lnk (last x xs)) ≡ true
      → AddsBetween lnk (x ∷ xs) [] sh.lh sh.store (add_shell_item fuel sh lnk)
  unfolding add_plain
  add_shell_item-equal_last x xs is out bare calm unique gt eq =
      let first : sh.store.next sh.lh.head ≡ x = next_head (x ∷ xs) is in
      let more = (no_sentinel x [] xs is).1 in
      let end : sh.store.prev sh.lh.tail ≡ last x xs = prev-tail (x ∷ xs) is in
      let ge : is_lt (compared sh lnk x) ≡ false = ground arith in
      let ne : is_eq (compared sh lnk x) ≡ false = ground arith in
      let above : is_lt (compared sh lnk (last x xs)) ≡ false = ground arith in
      rw (add_shell_item-add_plain bare calm, add_plain, first, more, ge, ne, end, above)
        (inserted-AddsBetween lnk (last x xs) (x ∷ xs) [] (counted (counted ready)) refl
          (rw (append-nil (x ∷ xs)) is) (rw (append-nil xs) out))
