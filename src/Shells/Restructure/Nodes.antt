-- ===== src/Shells/Restructure/Nodes.antt =====
-- The chain of nodes, and step 2 of `restructureShellNodes`, which puts one on every ninth link.
use mathlib.Core.List.{append_assoc}
use osdb_dcdb.Prelude.{
  ℕ, zero, suc, ◌-◌, ◌<◌, ◌≤◌, ◌≡◌, refl, ◌∙◌, Bool, true, false, List, [], ◌∷◌, ◌++◌, arith, ◌==◌,
  ==_self, Bool-cases, length, last, has, has-append, Distinct, Distinct-insert, inl, inr,
}
use osdb_dcdb.Links.{ok, null, Compare, Store, ListHeader}
use osdb_dcdb.Links.Chain.{Linked, Linked-append, IsList}
use osdb_dcdb.Links.Places.{follower, around, no_sentinel}
use osdb_dcdb.Links.Insert.{linked_in-Linked}
use osdb_dcdb.Shells.{Shell, Nodes, node_level, restruct, filled_node}
use osdb_dcdb.Shells.Restructure.{advance}

abbrev pub joined : Nodes → Store
joined n = record { next = n.next; prev = n.prev; data_of = λ _. null; freed = [] }

-- What no restructuring changes.
abbrev pub settings : Shell → ℕ × ℕ × Compare × Bool
settings sh = (sh.head, sh.tail, sh.compare, sh.is_unique)

-- The nodes of a shell, in order.
pub record HasNodes (sh : Shell) (ps : List ℕ) : Type 0 where
  pub chain : Linked (joined sh.nodes) sh.head (ps ++ sh.tail ∷ [])
  pub distinct : Distinct (sh.head ∷ ps ++ sh.tail ∷ [])

-- The nodes stand on the links.
abbrev pub StandOn : (ℕ → ℕ) → List ℕ → List ℕ → Type 0
StandOn here [] [] = Unit
StandOn here [] (l ∷ ls) = ⊥
StandOn here (p ∷ ps) [] = ⊥
StandOn here (p ∷ ps) (l ∷ ls) = (here p ≡ l) × StandOn here ps ls

-- No level has an entry.
abbrev pub IsFlat : Shell → List ℕ → Type 0
IsFlat sh ps = (j n : ℕ) → j < node_level → has n ps ≡ true → sh.nodes.level j n ≡ sh.tail

-- All items but the first `k`.
abbrev pub drop : ℕ → List ℕ → List ℕ
drop zero xs = xs
drop (suc k) [] = []
drop (suc k) (x ∷ xs) = drop k xs

-- The items `k`, `k + 9`, `k + 18` and so on.
abbrev pub each : ℕ → List ℕ → List ℕ
each k [] = []
each zero (x ∷ xs) = x ∷ each (restruct - 1) xs
each (suc k) (x ∷ xs) = each k xs

pub each-drop : (k : ℕ) (xs : List ℕ) → each k xs ≡ each 0 (drop k xs)
each-drop zero xs = refl
each-drop (suc k) [] = refl
each-drop (suc k) (x ∷ xs) = each-drop k xs

pub length-drop : (k : ℕ) (xs : List ℕ) → length (drop k xs) ≤ length xs
length-drop zero xs = omega arith
length-drop (suc k) [] = omega arith
length-drop (suc k) (x ∷ xs) = omega (arith, length-drop k xs)

-- `k` links on from a link of a list.
pub advance-drop :
    {s : Store} {lh : ListHeader} (k : ℕ) (us zs : List ℕ)
    → IsList s lh (us ++ zs)
    → (advance s.next lh.tail k (follower zs lh.tail) ≡ follower (drop k zs) lh.tail)
      × (ws : List ℕ) × (ws ++ drop k zs ≡ us ++ zs)
unfolding advance
advance-drop zero us zs is = (refl, us, refl)
advance-drop (suc k) us [] is = (rw ==_self, us, refl)
advance-drop {s} {lh} (suc k) us (z ∷ zs) is =
    let is' : IsList s lh ((us ++ z ∷ []) ++ zs) = rw append_assoc is in
    let (e, ws, whole) = advance-drop k (us ++ z ∷ []) zs is' in
    (
      rw ((no_sentinel z us zs is).1, (around z us zs is).1) e,
      ws,
      whole ∙ append_assoc us (z ∷ []) zs,
    )

pub last_node :
    (sh : Shell) (ps : List ℕ) → HasNodes sh ps → sh.nodes.prev sh.tail ≡ last sh.head ps
last_node sh ps h = (Linked-append (joined sh.nodes) sh.head ps (sh.tail ∷ []) h.chain).1.1

module _ (sh : Shell) (ps : List ℕ) (p l : ℕ) where
  -- The shell with a new last node.
  abbrev pub grown : Shell
  grown = filled_node p (last sh.head ps) sh.tail l sh

  pub grown-HasNodes :
      HasNodes sh ps → has p (sh.head ∷ ps ++ sh.tail ∷ []) ≡ false → HasNodes grown (ps ++ p ∷ [])
  grown-HasNodes h out = record {
    chain =
        rw append_assoc
          (linked_in-Linked (joined sh.nodes) sh.head p sh.tail ps [] h.chain h.distinct out);
    distinct = rw append_assoc (Distinct-insert p (sh.head ∷ ps) (sh.tail ∷ []) out h.distinct);
  }

  pub grown-IsFlat : IsFlat sh ps → IsFlat grown (ps ++ p ∷ [])
  grown-IsFlat flat j n low h = elim (Bool-cases (n == p)) [
    | inl e ↦ ground arith
    | inr e ↦
        let old : has n ps ≡ true = ground (arith, has-append n ps (p ∷ [])) in
        rw e (flat j n low old)
  ]

pub StandOn-grown :
    (here : ℕ → ℕ) (p l : ℕ) (ps ls : List ℕ)
    → StandOn here ps ls
    → has p ps ≡ false
    → StandOn (osdb_dcdb.Links.update here p l) (ps ++ p ∷ []) (ls ++ l ∷ [])
StandOn-grown here p l [] [] on out = (rw ==_self, tt)
StandOn-grown here p l [] (m ∷ ls) on out = absurd on
StandOn-grown here p l (q ∷ ps) [] on out = absurd on
StandOn-grown here p l (q ∷ ps) (m ∷ ls) on out =
    let other : (q == p) ≡ false = ground arith in
    (rw other on.0, StandOn-grown here p l ps ls on.1 (ground arith))
