-- ===== src/Shells/Restructure/Rebuild.antt =====
-- Step 3 of `restructureShellNodes`, over the nodes of step 2, which lead forward.
use osdb_dcdb.Prelude.{
  ℕ, ◌+◌, ◌-◌, ◌<◌, ◌≡◌, refl, true, false, Option, some, List, [], ◌∷◌, ◌++◌, arith, ◌==◌, ==_self,
  ==_iff, Bool-cases, length, has, has-append, Distinct, Distinct-middle, inl, inr,
}
use osdb_dcdb.Links.{Status, ok, Store}
use osdb_dcdb.Links.Chain.{Linked}
use osdb_dcdb.Links.Places.{follower}
use osdb_dcdb.Shells.{Shell, node_level}
use osdb_dcdb.Shells.Restructure.{indexed, after_nodes}
use osdb_dcdb.Shells.Restructure.Forward.{
  pos, places, Forward, AllForward, with_levels, build_levels-end, first_level-ends,
}
use osdb_dcdb.Shells.Restructure.Nodes.{settings, HasNodes, StandOn, joined}
use osdb_dcdb.Shells.Restructure.Grow.{IsGrown}

has-follower : (ps : List ℕ) (tail : ℕ) → has (follower ps tail) (ps ++ tail ∷ []) ≡ true
has-follower [] tail = rw ==_self
has-follower (p ∷ ps) tail = rw ==_self

has-ne : (a b : ℕ) (xs : List ℕ) → has a xs ≡ true → has b xs ≡ false → (a == b) ≡ false
has-ne a b [] h k = ground arith
has-ne a b (x ∷ xs) h k = ground (arith, has-ne a b xs)

pub Linked-follower :
    (s : Store) (a tail : ℕ) (ps : List ℕ)
    → Linked s a (ps ++ tail ∷ [])
    → s.next a ≡ follower ps tail
Linked-follower s a tail [] l = l.0
Linked-follower s a tail (p ∷ ps) l = l.0

-- `next` leads forward.
next-Forward :
    (s : Store) (a tail : ℕ) (ps : List ℕ)
    → Linked s a (ps ++ tail ∷ [])
    → Distinct (ps ++ tail ∷ [])
    → Forward tail ps s.next
next-Forward s a tail [] l d n h = ground arith
next-Forward s a tail (p ∷ ps) l d n h = elim (Bool-cases (n == p)) [
  | inl e ↦
      let same : n ≡ p = ground (arith, ==_iff n p) in
      let there = has-follower ps tail in
      let on : s.next p ≡ follower ps tail = Linked-follower s p tail ps l.2 in
      let other = has-ne (follower ps tail) p (ps ++ tail ∷ []) there d.0 in
      rw (same, on, ==_self) (ground (arith, there), ground (arith, other))
  | inr e ↦
      let (there, later) = next-Forward s p tail ps l.2 d.1 n (ground arith) in
      let other = has-ne (s.next n) p (ps ++ tail ∷ []) there d.0 in
      (ground (arith, there), rw (other, e) (omega (arith, later)))
]

pos-end :
    (n tail : ℕ) (ps : List ℕ)
    → has n ps ≡ true
    → has tail ps ≡ false
    → pos n (ps ++ tail ∷ []) < pos tail (ps ++ tail ∷ [])
pos-end n tail [] h k = ground arith
pos-end n tail (p ∷ ps) h k = ground (arith, pos-end n tail ps)

pub IsGrown-AllForward :
    (sh : Shell) (ps ls : List ℕ) → IsGrown sh ps ls → AllForward sh ps sh.nodes.level
IsGrown-AllForward sh ps ls g j low n h =
    let end : has sh.tail ps ≡ false = (Distinct-middle sh.tail ps [] g.nodes.distinct.1).0 in
    rw (g.flat j n low h)
      (ground (arith, has-append sh.tail ps (sh.tail ∷ [])), pos-end n sh.tail ps h end)

IsGrown-next : (sh : Shell) (ps ls : List ℕ) → IsGrown sh ps ls → Forward sh.tail ps sh.nodes.next
IsGrown-next sh ps ls g =
    next-Forward (joined sh.nodes) sh.head sh.tail ps g.nodes.chain g.nodes.distinct.1

-- The nodes, the links that they stand on, and levels that lead forward.
pub record IsIndexed (sh : Shell) (ps ls : List ℕ) : Type 0 where
  pub nodes : HasNodes sh ps
  pub on : StandOn sh.nodes.here ps ls
  pub forward : AllForward sh ps sh.nodes.level

-- The call ends with _OK_, has left the links alone, and the shell has these nodes.
abbrev pub Indexes : Shell → List ℕ → List ℕ → Option (Status × Shell) → Type 0
Indexes sh ps ls r =
    (t : Shell) × (r ≡ some (ok, t))
    × (t.store ≡ sh.store)
    × (t.lh ≡ sh.lh)
    × (settings t ≡ settings sh)
    × (t.nodes.freed ≡ sh.nodes.freed)
    × IsIndexed t ps ls

-- Step 3, over the nodes of step 2.
pub after_nodes-Indexes :
    (fuel : ℕ) (sh : Shell) (ps ls : List ℕ)
    → IsGrown sh ps ls
    → length (places sh.tail ps) < fuel
    → Indexes sh ps ls (after_nodes fuel (some (ok, sh)))
unfolding after_nodes indexed
after_nodes-Indexes fuel sh ps ls g enough =
    let start : has (sh.nodes.next sh.head) (places sh.tail ps) ≡ true =
      rw (Linked-follower (joined sh.nodes) sh.head sh.tail ps g.nodes.chain)
        (has-follower ps sh.tail) in
    let (c, f, run, all) =
      first_level-ends sh ps fuel start enough sh.nodes.level (IsGrown-next sh ps ls g)
        (IsGrown-AllForward sh ps ls g) in
    let (h, run', all') =
      build_levels-end sh ps fuel start enough (node_level - 1) 0 c f all (omega arith) in
    (
      record (with_levels h sh) { num_restruct = sh.num_restruct + 1 },
      rw (run, run'),
      refl,
      refl,
      refl,
      refl,
      record {
        nodes = record { chain = g.nodes.chain; distinct = g.nodes.distinct };
        on = g.on;
        forward = all';
      },
    )
