-- ===== src/Shells/Search/Walks.antt =====
-- The walk over the nodes, each with its part of the list.
use mathlib.Core.List.{append_assoc, append-nil}
use osdb_dcdb.Prelude.{
  ℕ, zero, suc, ◌+◌, ◌<◌, ◌≡◌, refl, false, inl, inr, some, List, [], ◌∷◌, ◌++◌, arith, ◌==◌,
  ==_self, Bool-cases, is_gt, length, length-append, has, Distinct, Distinct-append,
}
use osdb_dcdb.Links.{null}
use osdb_dcdb.Links.Chain.{Linked, IsList}
use osdb_dcdb.Links.Order.{IsOrder, Ascending}
use osdb_dcdb.Links.Places.{follower}
use osdb_dcdb.Shells.{Shell, compared, counted, set_current, set_list_current}
use osdb_dcdb.Shells.Restructure.Nodes.{joined}
use osdb_dcdb.Shells.Search.{
  Found, walk_parts, last_part, none_found, part_start, scan_links, equal, greater, ended,
}
use osdb_dcdb.Shells.Search.Plain.{first_equal, Finds, SameItems}
use osdb_dcdb.Shells.Search.Scans.{
  at_count, scan_links-Scanned, first_equal-behind, Ascending-behind,
}

-- Each node stands on the first link of its part, and the parts make up the sequence.
abbrev pub Parts : (ℕ → ℕ) → List ℕ → List ℕ → Type 0
Parts here [] zs = zs ≡ []
Parts here (p ∷ ps) zs =
    (part : List ℕ) × (rest : List ℕ) × (zs ≡ here p ∷ part ++ rest) × Parts here ps rest

SameItems-moved :
    (m n link : ℕ) (sh : Shell)
    → SameItems sh (set_list_current link (set_current n (at_count m sh)))
SameItems-moved m n link sh = record {
  same_store = refl;
  same_nodes = refl;
  same_head = refl;
  same_tail = refl;
  same_number = refl;
  same_type = refl;
  same_settings = refl;
}

pub SameItems-at_count : (m : ℕ) (sh : Shell) → SameItems sh (at_count m sh)
SameItems-at_count m sh = record {
  same_store = refl;
  same_nodes = refl;
  same_head = refl;
  same_tail = refl;
  same_number = refl;
  same_type = refl;
  same_settings = refl;
}

abbrev pub nothing : Shell → ℕ × Shell
nothing t = (null, t)

-- The part of the last node.
last_part-Finds :
    (lnk fuel n : ℕ) (sh : Shell) (ws zs : List ℕ)
    → IsOrder sh.compare
    → IsList sh.store sh.lh (ws ++ zs)
    → Ascending sh.compare sh.store.data_of zs
    → follower zs sh.lh.tail ≡ sh.nodes.here n
    → length zs < fuel
    → Finds sh
        (first_equal sh.compare sh.store.data_of (sh.store.data_of lnk) zs)
        (last_part fuel lnk none_found nothing n sh)
unfolding last_part first_equal
last_part-Finds lnk fuel n sh ws zs o is a start h =
    let d : Distinct (zs ++ sh.lh.tail ∷ []) =
      (Distinct-append ws (zs ++ sh.lh.tail ∷ []) (rw append_assoc at is.distinct.1)).1 in
    let (m, scanned) =
      scan_links-Scanned lnk fuel sh ws zs [] o (rw (append-nil zs) is) (rw (append-nil zs) a) d
        h in
    let same : zs ++ [] ≡ zs = append-nil zs in
    let found = first_equal sh.compare sh.store.data_of (sh.store.data_of lnk) zs in
    let end = sh.nodes.prev sh.tail in
    elim scanned [
      | inl e ↦
          let e' : scan_links fuel lnk sh.lh.tail (sh.nodes.here n) sh
              ≡ some (equal found (at_count m sh)) =
            rw (same, start) at e in
          (
            set_list_current found (set_current end (at_count m sh)),
            rw (last_part, e'),
            SameItems-moved m end found sh,
          )
      | inr (inl (g, e, f)) ↦
          let e' : scan_links fuel lnk sh.lh.tail (sh.nodes.here n) sh
              ≡ some (greater g (at_count m sh)) =
            rw (same, start) at e in
          let f' : found ≡ null = rw same at f in
          (at_count m sh, rw (last_part, e', f'), SameItems-at_count m sh)
      | inr (inr (e, f)) ↦
          let e' : scan_links fuel lnk sh.lh.tail (sh.nodes.here n) sh
              ≡ some (ended (at_count m sh)) =
            rw (same, start) at e in
          let f' : found ≡ null = rw same at f in
          (at_count m sh, rw (last_part, e', f'), SameItems-at_count m sh)
    ]

-- In order to go on from a node, its part must begin on its link.
abbrev pub StartsOnLink : Shell → Type 0
StartsOnLink sh = (n : ℕ) → part_start sh n ≡ sh.nodes.here n

pub Finds-at_count :
    (m link : ℕ) (sh : Shell) (r : Found) → Finds (at_count m sh) link r → Finds sh link r
Finds-at_count m link sh r (t, e, same) = (
  t,
  e,
  record {
    same_store = same.same_store;
    same_nodes = same.same_nodes;
    same_head = same.same_head;
    same_tail = same.same_tail;
    same_number = same.same_number;
    same_type = same.same_type;
    same_settings = same.same_settings;
  },
)

-- One node that is not the last, with the walk from the next one.
walk_step-Finds :
    (lnk fuel rounds n v : ℕ) (part more : List ℕ) (sh : Shell) (ws : List ℕ)
    → let found = first_equal sh.compare sh.store.data_of (sh.store.data_of lnk) in
      let us = sh.nodes.here n ∷ part in
      let rest = sh.nodes.here v ∷ more in
      IsOrder sh.compare
      → IsList sh.store sh.lh (ws ++ (us ++ rest))
      → Ascending sh.compare sh.store.data_of (us ++ rest)
      → sh.nodes.next n ≡ v
      → (v == sh.tail) ≡ false
      → part_start sh n ≡ sh.nodes.here n
      → length us < fuel
      → ((m : ℕ)
          → Finds sh (found rest) (walk_parts fuel lnk none_found nothing rounds v (at_count m sh)))
      → Finds sh (found (us ++ rest)) (walk_parts fuel lnk none_found nothing (suc rounds) n sh)
unfolding walk_parts
walk_step-Finds lnk fuel rounds n v part more sh ws o is a next other on h ih =
    let dat = sh.store.data_of in
    let d = dat lnk in
    let us = sh.nodes.here n ∷ part in
    let rest = sh.nodes.here v ∷ more in
    let found = first_equal sh.compare dat d (us ++ rest) in
    let stop = sh.nodes.here v in
    elim (Bool-cases (is_gt (compared sh lnk stop))) [
      | inl gt ↦
          let skip = first_equal-behind sh.compare dat o d us stop more gt a in
          rw (next, other, gt, skip) (ih (sh.num_compares + 1))
      | inr ngt ↦
          let distinct : Distinct ((us ++ rest) ++ sh.lh.tail ∷ []) =
            (Distinct-append ws ((us ++ rest) ++ sh.lh.tail ∷ [])
              (rw append_assoc at is.distinct.1)).1 in
          let (m, scanned) =
            scan_links-Scanned lnk fuel (counted sh) ws us rest o is a
              (rw (append_assoc part rest (sh.lh.tail ∷ [])) at distinct) h in
          elim scanned [
            | inl e ↦ (
              set_list_current found (set_current n (at_count m sh)),
              rw (next, other, ngt, on, e),
              SameItems-moved m n found sh,
            )
            | inr (inl (g, e, f)) ↦
                (at_count m sh, rw (next, other, ngt, on, e, f), SameItems-at_count m sh)
            | inr (inr (e, f)) ↦ rw (next, other, ngt, on, e, next, f) (ih m)
          ]
    ]

walk_last-Finds :
    (lnk fuel rounds n : ℕ) (sh : Shell) (ws zs : List ℕ)
    → IsOrder sh.compare
    → IsList sh.store sh.lh (ws ++ zs)
    → Ascending sh.compare sh.store.data_of zs
    → sh.nodes.next n ≡ sh.tail
    → follower zs sh.lh.tail ≡ sh.nodes.here n
    → length zs < fuel
    → Finds sh
        (first_equal sh.compare sh.store.data_of (sh.store.data_of lnk) zs)
        (walk_parts fuel lnk none_found nothing (suc rounds) n sh)
unfolding walk_parts
walk_last-Finds lnk fuel rounds n sh ws zs o is a next start h =
    rw (next, ==_self) (last_part-Finds lnk fuel n sh ws zs o is a start h)

pub walk_parts-Finds :
    (lnk fuel rounds n : ℕ) (vs : List ℕ) (sh : Shell) (ws zs : List ℕ)
    → IsOrder sh.compare
    → IsList sh.store sh.lh (ws ++ zs)
    → Ascending sh.compare sh.store.data_of zs
    → Linked (joined sh.nodes) n (vs ++ sh.tail ∷ [])
    → has sh.tail vs ≡ false
    → Parts sh.nodes.here (n ∷ vs) zs
    → StartsOnLink sh
    → length zs < fuel
    → length vs < rounds
    → Finds sh
        (first_equal sh.compare sh.store.data_of (sh.store.data_of lnk) zs)
        (walk_parts fuel lnk none_found nothing rounds n sh)
walk_parts-Finds lnk fuel zero n vs sh ws zs o is a l out parts on h k = absurd (omega arith)
walk_parts-Finds lnk fuel (suc rounds) n [] sh ws zs o is a l out (part, rest, e, none_left) on h
      k =
    walk_last-Finds lnk fuel rounds n sh ws zs o is a l.0 (rw e) h
walk_parts-Finds lnk fuel (suc rounds) n (v ∷ vs) sh ws zs o is a l out (part, rest, e, parts) on h
      k =
    let (part', rest', e', parts') = parts in
    let us = sh.nodes.here n ∷ part in
    let more = part' ++ rest' in
    let whole : zs ≡ us ++ (sh.nodes.here v ∷ more) = rw e' at e in
    let is' : IsList sh.store sh.lh (ws ++ (us ++ (sh.nodes.here v ∷ more))) = rw whole at is in
    let a' : Ascending sh.compare sh.store.data_of (us ++ (sh.nodes.here v ∷ more)) =
      rw whole at a in
    let size = length-append us (sh.nodes.here v ∷ more) in
    let h' : length (us ++ (sh.nodes.here v ∷ more)) < fuel = rw whole at h in
    let later : IsList sh.store sh.lh ((ws ++ us) ++ (sh.nodes.here v ∷ more)) =
      rw (append_assoc ws us (sh.nodes.here v ∷ more)) is' in
    rw whole (
      walk_step-Finds lnk fuel rounds n v part more sh ws o is' a' l.0 (ground arith) (on n)
        (omega (arith, h', size))
        (λ m. Finds-at_count m _ sh _ (
          walk_parts-Finds lnk fuel rounds v vs (at_count m sh) (ws ++ us) (sh.nodes.here v ∷ more)
            o later (Ascending-behind sh.compare sh.store.data_of us (sh.nodes.here v ∷ more) a')
            l.2 (ground arith) (part', rest', refl, parts') on (omega (arith, h', size))
            (omega arith))))
