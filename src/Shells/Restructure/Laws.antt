-- ===== src/Shells/Restructure/Laws.antt =====
-- `restructureShellNodes` as a whole: the old nodes are freed, and the new ones indexed.
use osdb_dcdb.Prelude.{
  ℕ, zero, suc, ◌-◌, ◌<◌, ◌≤◌, ◌≡◌, refl, ◌∙◌, true, false, Option, some, List, [], ◌∷◌, ◌++◌,
  arith, ◌==◌, ==_self, Bool-cases, ltb, if◌then◌else◌, length, length-append, has, has-append,
  Distinct-middle, inl, inr,
}
use osdb_dcdb.Links.{Status, ok, size_mod}
use osdb_dcdb.Links.Chain.{Linked, IsList}
use osdb_dcdb.Links.Places.{follower, next_head}
use osdb_dcdb.Shells.{Shell, restruct, free_node, new_shell_node}
use osdb_dcdb.Shells.Restructure.{
  free_nodes, without_nodes, first_node, rebuild, restructure_shell_nodes,
}
use osdb_dcdb.Shells.Restructure.Nodes.{settings, HasNodes, joined, each, grown}
use osdb_dcdb.Shells.Restructure.Grow.{List-cases, IsGrown, CanSupply, one_more, add_nodes-Grows}
use osdb_dcdb.Shells.Restructure.Rebuild.{
  Linked-follower, IsIndexed, IsGrown-AllForward, Indexes, after_nodes-Indexes,
}

-- The nodes on top of what was freed before, the last one first.
abbrev pub freed_after : List ℕ → List ℕ → List ℕ
freed_after [] freed = freed
freed_after (p ∷ ps) freed = freed_after ps (p ∷ freed)

abbrev pub with_freed : List ℕ → Shell → Shell
with_freed freed sh = record sh { nodes = record sh.nodes { freed = freed } }

pub free_nodes-ends :
    (fuel a : ℕ) (sh : Shell) (ps : List ℕ)
    → Linked (joined sh.nodes) a (ps ++ sh.tail ∷ [])
    → has sh.tail ps ≡ false
    → length ps < fuel
    → free_nodes fuel (follower ps sh.tail) sh
      ≡ some (with_freed (freed_after ps sh.nodes.freed) sh)
unfolding free_nodes
free_nodes-ends zero a sh ps l out enough = absurd (omega arith)
free_nodes-ends (suc fuel) a sh [] l out enough = rw ==_self
free_nodes-ends (suc fuel) a sh (p ∷ ps) l out enough =
    let other : (p == sh.tail) ≡ false = ground arith in
    let on : sh.nodes.next p ≡ follower ps sh.tail =
      Linked-follower (joined sh.nodes) p sh.tail ps l.2 in
    rw (other, on) (free_nodes-ends fuel p (free_node p sh) ps l.2 (ground arith) (omega arith))

-- The links that get a node: every ninth one from the first on, and none if there are few.
abbrev pub stops : List ℕ → List ℕ
stops xs = if ltb (length xs) restruct then [] else each 0 xs

without_nodes-IsGrown :
    (sh : Shell) → (sh.head == sh.tail) ≡ false → IsGrown (without_nodes sh) [] []
unfolding without_nodes
without_nodes-IsGrown sh apart = record {
  nodes = record {
    chain = (rw (apart, ==_self), rw ==_self, tt);
    distinct = ground (arith, apart);
  };
  on = tt;
  flat = λ j n low h. ground arith;
}

length-each : (k : ℕ) (xs : List ℕ) → length (each k xs) ≤ length xs
length-each k [] = omega arith
length-each zero (x ∷ xs) = omega (arith, length-each (restruct - 1) xs)
length-each (suc k) (x ∷ xs) = omega (arith, length-each k xs)

pub length-stops : (xs : List ℕ) → length (stops xs) ≤ length xs
length-stops xs = elim (Bool-cases (ltb (length xs) restruct)) [
  | inl e ↦ rw e (omega arith)
  | inr e ↦ rw e (length-each 0 xs)
]

-- Steps 2 and 3 over a list that is long enough.
first_node-Indexes :
    (fuel : ℕ) (b : Shell) (x : ℕ) (xs qs rest : List ℕ)
    → IsGrown b [] []
    → IsList b.store b.lh (x ∷ xs)
    → CanSupply b [] qs rest
    → length qs ≡ length (each 0 (x ∷ xs))
    → suc (length (x ∷ xs)) < fuel
    → Indexes b qs
        (each 0 (x ∷ xs))
        (first_node fuel (new_shell_node b.head b.tail (b.store.next b.lh.head) b))
unfolding first_node
first_node-Indexes fuel b x xs [] rest g is c m enough = absurd (omega (arith, m))
first_node-Indexes fuel b x xs (q ∷ qs) rest g is c m enough =
    let (made, g', c') = one_more b [] [] q x qs rest g c in
    let first : b.store.next b.lh.head ≡ x = next_head (x ∷ xs) is in
    let (t, run, same_store, same_lh, same_settings, same_freed, grows) =
      add_nodes-Grows fuel (grown b [] q x) [] (x ∷ xs) (q ∷ []) (x ∷ []) qs rest is g' c'
        (omega (arith, m)) (omega (arith, enough)) in
    let small : length ((q ∷ qs) ++ t.tail ∷ []) < fuel =
      omega (arith, m, enough, length-append (q ∷ qs) (t.tail ∷ []), length-each 0 (x ∷ xs)) in
    let (u, end, a, b', d, c'', indexed) =
      after_nodes-Indexes fuel t (q ∷ qs) (x ∷ each restruct (x ∷ xs)) grows small in
    (
      u,
      rw (first, made, first, run) end,
      a ∙ same_store,
      b' ∙ same_lh,
      d ∙ same_settings,
      c'' ∙ same_freed,
      indexed,
    )

-- The call ends with _OK_, has left the links alone, has freed the nodes `ps`, and the shell has
-- the nodes `qs` on the links `ls`.
abbrev pub Restructures : Shell → (ps qs ls : List ℕ) → Option (Status × Shell) → Type 0
Restructures sh ps qs ls r =
    (t : Shell) × (r ≡ some (ok, t))
    × (t.store ≡ sh.store)
    × (t.lh ≡ sh.lh)
    × (settings t ≡ settings sh)
    × (t.nodes.freed ≡ freed_after ps sh.nodes.freed)
    × IsIndexed t qs ls

-- For a shell with nodes `ps` over a list of less than 2^64 links, with the allocations of new nodes
-- at hand and enough fuel, restructureShellNodes ends with _OK_, frees each of `ps` once, leaves
-- the links alone, and leaves a chain of new nodes that stand on every ninth link from the first on
-- (no nodes if there are less than nine links), where each level leads to later nodes only.
pub restructure_shell_nodes-Restructures :
    (fuel : ℕ) (sh : Shell) (xs ps qs rest : List ℕ)
    → IsList sh.store sh.lh xs
    → length xs < size_mod
    → HasNodes sh ps
    → CanSupply sh [] qs rest
    → length qs ≡ length (stops xs)
    → length ps < fuel
    → suc (length xs) < fuel
    → Restructures sh ps qs (stops xs) (restructure_shell_nodes fuel sh)
unfolding restructure_shell_nodes rebuild without_nodes
restructure_shell_nodes-Restructures fuel sh xs ps qs rest is small h c m enough more =
    let dropped = with_freed (freed_after ps sh.nodes.freed) sh in
    let b = without_nodes dropped in
    let apart : (sh.head == sh.tail) ≡ false =
      ground (arith, h.distinct.0, has-append sh.head ps (sh.tail ∷ [])) in
    let out = (Distinct-middle sh.tail ps [] h.distinct.1).0 in
    let first = Linked-follower (joined sh.nodes) sh.head sh.tail ps h.chain in
    let free = free_nodes-ends fuel sh.head sh ps h.chain out enough in
    let number : sh.lh.number ≡ length xs = omega (arith, is.counted, small) in
    let clean = without_nodes-IsGrown dropped apart in
    elim (Bool-cases (ltb (length xs) restruct)) [
      | inl e ↦
          let few : ltb sh.lh.number restruct ≡ true = rw number e in
          let none_left : stops xs ≡ [] = rw e in
          let unused : qs ≡ [] = elim (List-cases qs) [
            | inl n ↦ n
            | inr (q, rs, n) ↦ absurd (omega (arith, rw (n, none_left) at m))
          ] in
          (
            b,
            rw (first, free, few),
            refl,
            refl,
            refl,
            refl,
            rw (unused, none_left)
                record {
                  nodes = clean.nodes;
                  on = clean.on;
                  forward = IsGrown-AllForward b [] [] clean;
                },
          )
      | inr e ↦ elim (List-cases xs) [
        | inl n ↦ absurd (ground (arith, rw n at e))
        | inr (x, ys, n) ↦
            let many : ltb sh.lh.number restruct ≡ false = rw number e in
            let all : stops xs ≡ each 0 (x ∷ ys) = rw (e, n) in
            let c' : CanSupply b [] qs rest = record {
              supply = c.supply;
              not_null = c.not_null;
              fresh = c.fresh;
            } in
            let (t, run, a, b', d, f, indexed) =
              first_node-Indexes fuel b x ys qs rest clean (rw n at is) c' (rw all at m)
                (rw n at more) in
            (t, rw (first, free, many) run, a, b', d, f, rw all indexed)
      ]
    ]
