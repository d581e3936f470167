-- ===== src/Shells/Search/Parts.antt =====
-- The parts into which the nodes divide a list, and the walk from the node that a descent reaches.
use mathlib.Core.List.{append_assoc}
use osdb_dcdb.Prelude.{
  ℕ, zero, suc, ◌-◌, ◌<◌, ◌≡◌, refl, ap, sym, ◌∙◌, true, false, inl, inr, List, [], ◌∷◌, ◌++◌,
  arith, ◌==◌, ==_self, ==_iff, Bool-cases, is_gt, length, length-append, has, has-append,
  has-split, Distinct-middle,
}
use osdb_dcdb.Links.Chain.{IsList, Linked, Linked-append}
use osdb_dcdb.Links.Order.{IsOrder, Ascending}
use osdb_dcdb.Links.Places.{next_head}
use osdb_dcdb.Shells.{Shell, compared, node_level, restruct}
use osdb_dcdb.Shells.Restructure.Forward.{places}
use osdb_dcdb.Shells.Restructure.Nodes.{StandOn, drop, each, each-drop, joined}
use osdb_dcdb.Shells.Restructure.Rebuild.{IsIndexed}
use osdb_dcdb.Shells.Search.{walk_from, walk_parts, none_found, descend}
use osdb_dcdb.Shells.Search.Plain.{first_equal, Finds}
use osdb_dcdb.Shells.Search.Scans.{at_count, first_equal-behind, Ascending-behind}
use osdb_dcdb.Shells.Search.Walks.{Parts, StartsOnLink, walk_parts-Finds, nothing, Finds-at_count}
use osdb_dcdb.Shells.Search.Descents.{descend-Reaches}

abbrev take : ℕ → List ℕ → List ℕ
take zero xs = []
take (suc k) [] = []
take (suc k) (x ∷ xs) = x ∷ take k xs

take-append-drop : (k : ℕ) (xs : List ℕ) → xs ≡ take k xs ++ drop k xs
take-append-drop zero xs = refl
take-append-drop (suc k) [] = refl
take-append-drop (suc k) (x ∷ xs) = ap (λ k. x ∷ k) (take-append-drop k xs)

-- Nodes on every ninth link divide the list into parts.
StandOn-Parts : (here : ℕ → ℕ) (ps xs : List ℕ) → StandOn here ps (each 0 xs) → Parts here ps xs
StandOn-Parts here [] [] on = refl
StandOn-Parts here [] (x ∷ xs) on = absurd on
StandOn-Parts here (p ∷ ps) [] on = absurd on
StandOn-Parts here (p ∷ ps) (x ∷ xs) on =
    let later : StandOn here ps (each 0 (drop (restruct - 1) xs)) =
      rw (each-drop (restruct - 1) xs) at on.1 in
    (
      take (restruct - 1) xs,
      drop (restruct - 1) xs,
      rw on.0 (ap (λ k. x ∷ k) (take-append-drop (restruct - 1) xs)),
      StandOn-Parts here ps (drop (restruct - 1) xs) later,
    )

-- The parts before a node, and those from it on.
Parts-split :
    (here : ℕ → ℕ) (us : List ℕ) (n : ℕ) (vs zs : List ℕ)
    → Parts here (us ++ n ∷ vs) zs
    → (front : List ℕ) × (back : List ℕ) × (zs ≡ front ++ here n ∷ back)
      × Parts here (n ∷ vs) (here n ∷ back)
Parts-split here [] n vs zs (part, rest, e, p) = ([], part ++ rest, e, (part, rest, refl, p))
Parts-split here (u ∷ us) n vs zs (part, rest, e, p) =
    let (front, back, e', p') = Parts-split here us n vs rest p in
    (
      here u ∷ part ++ front,
      back,
      e
          ∙ ap (λ k. here u ∷ (part ++ k)) e'
          ∙ ap (λ k. here u ∷ k) (sym (append_assoc part front (here n ∷ back))),
      p',
    )

-- The walk from a node on a lesser link.
walk_inside-Finds :
    (lnk fuel n m : ℕ) (sh : Shell) (ps zs : List ℕ)
    → IsOrder sh.compare
    → IsList sh.store sh.lh zs
    → Ascending sh.compare sh.store.data_of zs
    → Linked (joined sh.nodes) sh.head (ps ++ sh.tail ∷ [])
    → has sh.tail ps ≡ false
    → Parts sh.nodes.here ps zs
    → StartsOnLink sh
    → has n ps ≡ true
    → is_gt (compared sh lnk (sh.nodes.here n)) ≡ true
    → length zs < fuel
    → length ps < fuel
    → Finds sh
        (first_equal sh.compare sh.store.data_of (sh.store.data_of lnk) zs)
        (walk_parts fuel lnk none_found nothing fuel n (at_count m sh))
walk_inside-Finds lnk fuel n m sh ps zs o is a chain out parts starts there gt h k =
    let dat = sh.store.data_of in
    let (us, vs, e) = has-split n ps there in
    let split : Parts sh.nodes.here (us ++ n ∷ vs) zs = rw e at parts in
    let (front, back, e', from_n) = Parts-split sh.nodes.here us n vs zs split in
    let l = sh.nodes.here n in
    let is' : IsList sh.store sh.lh (front ++ l ∷ back) = rw e' at is in
    let a' : Ascending sh.compare dat (front ++ l ∷ back) = rw e' at a in
    let whole : Linked (joined sh.nodes) sh.head (us ++ (n ∷ vs ++ sh.tail ∷ [])) =
      rw append_assoc at (rw e at chain) in
    let behind = (Linked-append (joined sh.nodes) sh.head us (n ∷ vs ++ sh.tail ∷ []) whole).1.2 in
    let out' : has sh.tail (us ++ n ∷ vs) ≡ false = rw e at out in
    let size : length ps ≡ length (us ++ n ∷ vs) = ap length e in
    let h' : length zs ≡ length (front ++ l ∷ back) = ap length e' in
    let skip = first_equal-behind sh.compare dat o (dat lnk) front l back gt a' in
    rw (e', skip)
      (Finds-at_count m _ sh _ (
        walk_parts-Finds lnk fuel fuel n vs (at_count m sh) front (l ∷ back) o is'
          (Ascending-behind sh.compare dat front (l ∷ back) a') behind
          (ground (arith, has-append sh.tail us (n ∷ vs))) from_n starts
          (omega (arith, h, h', length-append front (l ∷ back)))
          (omega (arith, k, size, length-append us (n ∷ vs)))))

module _ (lnk : ℕ) (sh : Shell) (x p : ℕ) (xs ps : List ℕ) (o : IsOrder sh.compare)
    (is : IsList sh.store sh.lh (x ∷ xs)) (a : Ascending sh.compare sh.store.data_of (x ∷ xs))
    (i : IsIndexed sh (p ∷ ps) (each 0 (x ∷ xs))) where
  first_node_lem : sh.nodes.next sh.head ≡ p
  first_node_lem = i.nodes.chain.0

  starts : StartsOnLink sh
  starts n =
      let first : sh.store.next sh.lh.head ≡ x = next_head (x ∷ xs) is in
      elim (Bool-cases (n == p)) [
        | inl e ↦
            let same : n ≡ p = (==_iff n p).0 e in
            rw (same, first_node_lem, ==_self, first) (sym i.on.0)
        | inr e ↦ rw (first_node_lem, e)
      ]

  -- From the node where the descent ends, the walk finds what there is.
  pub walked-Finds :
      (fuel : ℕ)
      → length (x ∷ xs) < fuel
      → length (places sh.tail (p ∷ ps)) < fuel
      → Finds sh
          (first_equal sh.compare sh.store.data_of (sh.store.data_of lnk) (x ∷ xs))
          (walk_from fuel lnk none_found nothing (descend fuel node_level lnk p sh))
  walked-Finds fuel h k =
      let dat = sh.store.data_of in
      let d = dat lnk in
      let parts = StandOn-Parts sh.nodes.here (p ∷ ps) (x ∷ xs) i.on in
      let out : has sh.tail (p ∷ ps) ≡ false =
        (Distinct-middle sh.tail (p ∷ ps) [] i.nodes.distinct.1).0 in
      let (n, m, run, there, less) =
        descend-Reaches lnk fuel node_level p sh (p ∷ ps) i.forward (ground arith) (omega arith)
          k in
      elim less [
        | inl e ↦
            rw (run, e, walk_from)
              (Finds-at_count m _ sh _ (
                walk_parts-Finds lnk fuel fuel p ps (at_count m sh) [] (x ∷ xs) o is a
                  i.nodes.chain.2 (ground arith) parts starts h
                  (omega (arith, k, length-append ps (sh.tail ∷ [])))))
        | inr gt ↦
            rw (run, walk_from)
              (walk_inside-Finds lnk fuel n m sh (p ∷ ps) (x ∷ xs) o is a i.nodes.chain out parts
                starts there gt h (omega (arith, k, length-append ps (sh.tail ∷ []))))
      ]
