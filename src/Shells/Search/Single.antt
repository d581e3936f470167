-- ===== src/Shells/Search/Single.antt =====
-- `findShellItem` in a shell with a single node that has no entries in the levels.
use osdb_dcdb.Prelude.{
  ℕ, zero, suc, ◌≡◌, refl, true, false, some, List, ◌∷◌, arith, ◌==◌, ==_self, is_lt, is_eq, is_gt,
  last,
}
use osdb_dcdb.Links.{null}
use osdb_dcdb.Links.Chain.{IsList, prev-tail}
use osdb_dcdb.Links.Places.{next_head}
use osdb_dcdb.Shells.{Shell, compared, counted, node_level}
use osdb_dcdb.Shells.Search.{
  find_ready, find_shell_item, find_indexed, descend, descend_level, walk_parts, last_part,
  scan_links, none_found, greater,
}
use osdb_dcdb.Shells.Search.Plain.{
  Finds, SameItems-counted, SameItems-ready, SameItems-trans, IsCalm, balance-ok,
}

descend_level-single :
    (fuel i lnk n : ℕ) (sh : Shell)
    → sh.nodes.level i n ≡ sh.tail
    → descend_level (suc fuel) lnk i n sh ≡ some (n, sh)
unfolding descend_level
descend_level-single fuel i lnk n sh top = rw (top, ==_self)

descend-single :
    (fuel k lnk n : ℕ) (sh : Shell)
    → ((i : ℕ) → sh.nodes.level i n ≡ sh.tail)
    → descend (suc fuel) k lnk n sh ≡ some (n, sh)
unfolding descend
descend-single fuel zero lnk n sh top = refl
descend-single fuel (suc k) lnk n sh top =
    rw (descend_level-single fuel k lnk n sh (top k), descend) (descend-single fuel k lnk n sh top)

scan_links-greater :
    (fuel lnk stop link : ℕ) (sh : Shell)
    → (link == stop) ≡ false
    → is_lt (compared sh lnk link) ≡ true
    → scan_links (suc fuel) lnk stop link sh ≡ some (greater link (counted sh))
unfolding scan_links
scan_links-greater fuel lnk stop link sh more lt =
    let e : is_eq (compared sh lnk link) ≡ false = ground arith in rw (more, e, lt)

last_part-greater :
    (fuel lnk node : ℕ) (end : Shell → ℕ × Shell) (sh : Shell)
    → (sh.nodes.here node == sh.lh.tail) ≡ false
    → is_lt (compared sh lnk (sh.nodes.here node)) ≡ true
    → last_part (suc fuel) lnk none_found end node sh ≡ some (null, counted sh)
unfolding last_part
last_part-greater fuel lnk node end sh more lt =
    rw (scan_links-greater fuel lnk sh.lh.tail (sh.nodes.here node) sh more lt, last_part)

-- In a calm shell with a single node, which has no entries in the levels, the search for data
-- greater than that of the first link, less than that of the last link and less than that of the
-- node's link returns NULL, whatever links stand before the node's link.
pub find_shell_item-single :
    (lnk fuel n x : ℕ) (sh : Shell) (xs : List ℕ)
    → IsList sh.store sh.lh (x ∷ xs)
    → sh.nodes.next sh.head ≡ n
    → sh.nodes.next n ≡ sh.tail
    → (n == sh.tail) ≡ false
    → (sh.nodes.here n == sh.lh.tail) ≡ false
    → ((i : ℕ) → sh.nodes.level i n ≡ sh.tail)
    → IsCalm sh
    → is_gt (compared sh lnk x) ≡ true
    → is_lt (compared sh lnk (last x xs)) ≡ true
    → is_lt (compared sh lnk (sh.nodes.here n)) ≡ true
    → Finds sh null (find_shell_item (suc fuel) sh lnk)
unfolding find_shell_item find_ready find_indexed walk_parts
find_shell_item-single lnk fuel n x sh xs is only next node here top calm gt lt before =
    let first : sh.store.next sh.lh.head ≡ x = next_head (x ∷ xs) is in
    let end : sh.store.prev sh.lh.tail ≡ last x xs = prev-tail (x ∷ xs) is in
    let ready = record sh { num_compares = 0 } in
    let above_first : is_eq (compared sh lnk x) ≡ false = ground arith in
    let not_below : is_lt (compared sh lnk x) ≡ false = ground arith in
    let below_end : is_eq (compared sh lnk (last x xs)) ≡ false = ground arith in
    let not_above : is_gt (compared sh lnk (last x xs)) ≡ false = ground arith in
    let not_here : is_eq (compared sh lnk (sh.nodes.here n)) ≡ false = ground arith in
    (
      counted (counted (counted ready)),
      rw (
        balance-ok (suc fuel) sh calm,
        only,
        node,
        first,
        end,
        above_first,
        not_below,
        below_end,
        not_above,
        descend-single fuel node_level lnk n (counted (counted ready)) top,
        next,
        ==_self,
        last_part-greater fuel lnk n (λ t. (null, t)) (counted (counted ready)) here before,
      ),
      SameItems-trans (SameItems-ready sh) (
          SameItems-trans (SameItems-counted ready) (
            SameItems-trans (SameItems-counted (counted ready))
              (SameItems-counted (counted (counted ready))))),
    )
