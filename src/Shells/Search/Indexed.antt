-- ===== src/Shells/Search/Indexed.antt =====
-- `findShellItem` in a shell whose nodes stand on every ninth link.
use osdb_dcdb.Prelude.{
  ℕ, suc, ◌+◌, ◌<◌, ◌≡◌, refl, ap, false, inl, inr, List, [], ◌∷◌, ◌++◌, arith, ◌==◌, Bool-cases,
  ltb, is_lt, is_eq, is_gt, length, length-append, last, Distinct-middle,
}
use osdb_dcdb.Links.Chain.{IsList, prev-tail}
use osdb_dcdb.Links.Order.{IsOrder, Ascending}
use osdb_dcdb.Links.Places.{next_head}
use osdb_dcdb.Shells.{Shell, compared, restruct, set_current}
use osdb_dcdb.Shells.Restructure.Forward.{places}
use osdb_dcdb.Shells.Restructure.Nodes.{each}
use osdb_dcdb.Shells.Restructure.Rebuild.{IsIndexed}
use osdb_dcdb.Shells.Restructure.Laws.{stops}
use osdb_dcdb.Shells.Search.{find_indexed, find_ready, find_shell_item}
use osdb_dcdb.Shells.Search.Plain.{
  first_equal, Finds, SameItems, SameItems-ready, SameItems-trans, IsCalm, balance-ok,
  find_shell_item-plain,
}
use osdb_dcdb.Shells.Search.Scans.{
  at_count, ends_with, first_equal-here, first_equal-above, first_equal-under,
}
use osdb_dcdb.Shells.Search.Walks.{SameItems-at_count, Finds-at_count}
use osdb_dcdb.Shells.Search.Descents.{back_over_equal-last}
use osdb_dcdb.Shells.Search.Parts.{walked-Finds}

SameItems-current : (m n : ℕ) (sh : Shell) → SameItems sh (set_current n (at_count m sh))
SameItems-current m n sh = record {
  same_store = refl;
  same_nodes = refl;
  same_head = refl;
  same_tail = refl;
  same_number = refl;
  same_type = refl;
  same_settings = refl;
}

at_count-IsIndexed :
    (m : ℕ) (sh : Shell) (ps ls : List ℕ) → IsIndexed sh ps ls → IsIndexed (at_count m sh) ps ls
at_count-IsIndexed m sh ps ls i = record {
  nodes = record { chain = i.nodes.chain; distinct = i.nodes.distinct };
  on = i.on;
  forward = i.forward;
}

find_indexed-Finds :
    (lnk fuel : ℕ) (sh : Shell) (x p : ℕ) (xs ps : List ℕ)
    → IsOrder sh.compare
    → IsList sh.store sh.lh (x ∷ xs)
    → Ascending sh.compare sh.store.data_of (x ∷ xs)
    → IsIndexed sh (p ∷ ps) (each 0 (x ∷ xs))
    → suc (length (x ∷ xs)) < fuel
    → length (places sh.tail (p ∷ ps)) < fuel
    → Finds sh
        (first_equal sh.compare sh.store.data_of (sh.store.data_of lnk) (x ∷ xs))
        (find_indexed fuel lnk sh)
unfolding find_indexed
find_indexed-Finds lnk fuel sh x p xs ps o is a i h k =
    let dat = sh.store.data_of in
    let d = dat lnk in
    let y = last x xs in
    let first : sh.store.next sh.lh.head ≡ x = next_head (x ∷ xs) is in
    let end : sh.store.prev sh.lh.tail ≡ y = prev-tail (x ∷ xs) is in
    let start : sh.nodes.next sh.head ≡ p = i.nodes.chain.0 in
    let m = sh.num_compares + 1 in
    elim (Bool-cases (is_eq (compared sh lnk x))) [
      | inl e ↦ (
        set_current p (at_count m sh),
        rw (first, start, e, first_equal-here sh.compare dat o d x xs e),
        SameItems-current m p sh,
      )
      | inr ne ↦ elim (Bool-cases (is_lt (compared sh lnk x))) [
        | inl e ↦
            let none_there = first_equal-above sh.compare dat o d x xs e a in
            (at_count m sh, rw (first, ne, e, none_there), SameItems-at_count m sh)
        | inr ge ↦ elim (Bool-cases (is_eq (compared sh lnk y))) [
          | inl e ↦
              let (us, w) = ends_with x xs in
              let is' : IsList sh.store sh.lh (us ++ y ∷ []) = rw w is in
              let a' : Ascending sh.compare dat (us ++ y ∷ []) = rw w a in
              let size : length (us ++ y ∷ []) ≡ length (x ∷ xs) = ap length w in
              let (l, c, run, next) =
                back_over_equal-last lnk fuel (at_count (m + 1) sh) us y o is' a' e
                  (omega (arith, h, size, length-append us (y ∷ []))) in
              let next' : sh.store.next l ≡ first_equal sh.compare dat d (x ∷ xs) = rw w at next in
              let behind = sh.nodes.prev sh.tail in
              (
                set_current behind (at_count c sh),
                rw (first, ne, ge, end, e, run, next'),
                SameItems-current c behind sh,
              )
          | inr ny ↦ elim (Bool-cases (is_gt (compared sh lnk y))) [
            | inl e ↦
                let none_there = first_equal-under sh.compare dat o d x xs e a in
                (
                  at_count (m + 1) sh,
                  rw (first, ne, ge, end, ny, e, none_there),
                  SameItems-at_count (m + 1) sh,
                )
            | inr le ↦
                rw (first, ne, ge, end, ny, le, start)
                  (Finds-at_count (m + 1) _ sh _ (
                    walked-Finds lnk (at_count (m + 1) sh) x p xs ps o is a
                      (at_count-IsIndexed (m + 1) sh (p ∷ ps) (each 0 (x ∷ xs)) i) fuel
                      (omega (arith, h)) k))
          ]
        ]
      ]
    ]

-- In a calm shell over a list in order, with a lawful compare function, nodes on every ninth link
-- (none if there are less than nine) and levels that lead to later nodes, and with enough fuel, the
-- search ends with the first link whose data is equal, and with NULL if there is none; the items
-- stay as they are.
pub find_shell_item-indexed :
    (lnk fuel : ℕ) (sh : Shell) (xs ps : List ℕ)
    → IsOrder sh.compare
    → IsList sh.store sh.lh xs
    → Ascending sh.compare sh.store.data_of xs
    → IsIndexed sh ps (stops xs)
    → IsCalm sh
    → suc (length xs) < fuel
    → suc (length ps) < fuel
    → Finds sh
        (first_equal sh.compare sh.store.data_of (sh.store.data_of lnk) xs)
        (find_shell_item fuel sh lnk)
unfolding find_shell_item find_ready
find_shell_item-indexed lnk fuel sh xs [] o is a i calm h k =
    find_shell_item-plain lnk fuel sh xs is i.nodes.chain.0 calm (omega (arith, h))
find_shell_item-indexed lnk fuel sh [] (p ∷ ps) o is a i calm h k = absurd i.on
find_shell_item-indexed lnk fuel sh (x ∷ xs) (p ∷ ps) o is a i calm h k =
    elim (Bool-cases (ltb (length (x ∷ xs)) restruct)) [
      | inl e ↦ absurd (rw e at i.on)
      | inr e ↦
          let ready = record sh { num_compares = 0 } in
          let each_nine : stops (x ∷ xs) ≡ each 0 (x ∷ xs) = rw e in
          let i' : IsIndexed sh (p ∷ ps) (each 0 (x ∷ xs)) = rw each_nine at i in
          let other : (p == sh.tail) ≡ false =
            ground (arith, (Distinct-middle sh.tail (p ∷ ps) [] i.nodes.distinct.1).0) in
          let (t, run, same) =
            find_indexed-Finds lnk fuel ready x p xs ps o is a
              (at_count-IsIndexed 0 sh (p ∷ ps) (each 0 (x ∷ xs)) i') h
              (omega (arith, k, length-append ps (sh.tail ∷ []))) in
          (
            t,
            rw (balance-ok fuel sh calm, i.nodes.chain.0, other) run,
            SameItems-trans (SameItems-ready sh) same,
          )
    ]
