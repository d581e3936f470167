-- ===== src/Shells/Restructure/Grow.antt =====
-- Step 2 of `restructureShellNodes`: a node on every ninth link.
use mathlib.Core.List.{append_assoc, append-nil}
use osdb_dcdb.Prelude.{
  ℕ, zero, suc, ◌<◌, ◌≤◌, ◌≡◌, refl, ap, ◌∙◌, false, ◌⊎◌, Option, some, List, [], ◌∷◌, ◌++◌, arith,
  ◌==◌, ==_self, length, last, has, has-append, Distinct, Distinct-middle, inl, inr,
}
use osdb_dcdb.Links.{Status, ok, null}
use osdb_dcdb.Links.Chain.{IsList}
use osdb_dcdb.Links.Places.{follower, no_sentinel}
use osdb_dcdb.Shells.{Shell, restruct, first_of_supply, new_shell_node}
use osdb_dcdb.Shells.Memory.{new_shell_node-ok}
use osdb_dcdb.Shells.Restructure.{add_nodes}
use osdb_dcdb.Shells.Restructure.Nodes.{
  settings, HasNodes, StandOn, IsFlat, drop, each, each-drop, length-drop, advance-drop, last_node,
  grown, grown-HasNodes, grown-IsFlat, StandOn-grown,
}

-- The shell has these nodes, on these links, and no level has an entry.
pub record IsGrown (sh : Shell) (ps ls : List ℕ) : Type 0 where
  pub nodes : HasNodes sh ps
  pub on : StandOn sh.nodes.here ps ls
  pub flat : IsFlat sh ps

-- The coming allocations give nodes that are not there yet.
pub record CanSupply (sh : Shell) (ps qs rest : List ℕ) : Type 0 where
  pub supply : sh.nodes.supply ≡ qs ++ rest
  pub not_null : has null qs ≡ false
  pub fresh : Distinct (sh.head ∷ (ps ++ qs) ++ sh.tail ∷ [])

pub one_more :
    (sh : Shell) (ps ls : List ℕ) (q l : ℕ) (qs rest : List ℕ)
    → IsGrown sh ps ls
    → CanSupply sh ps (q ∷ qs) rest
    → (new_shell_node (last sh.head ps) sh.tail l sh ≡ (ok, grown sh ps q l))
      × IsGrown (grown sh ps q l) (ps ++ q ∷ []) (ls ++ l ∷ [])
      × CanSupply (grown sh ps q l) (ps ++ q ∷ []) qs rest
one_more sh ps ls q l qs rest g c =
    let first : first_of_supply sh.nodes.supply ≡ q = rw c.supply in
    let there : (first_of_supply sh.nodes.supply == null) ≡ false =
      rw c.supply (ground (arith, c.not_null)) in
    let (h, d) = c.fresh in
    let apart =
      Distinct-middle q (sh.head ∷ ps) (qs ++ sh.tail ∷ []) (rw append_assoc at c.fresh) in
    let out : has q (sh.head ∷ ps ++ sh.tail ∷ []) ≡ false =
      ground
        (arith, apart.0, apart.1, has-append q ps (sh.tail ∷ []), has-append q qs (sh.tail ∷ [])) in
    (
      rw (← first) (new_shell_node-ok (last sh.head ps) sh.tail l sh there),
      record {
        nodes = grown-HasNodes sh ps q l g.nodes out;
        on = StandOn-grown sh.nodes.here q l ps ls g.on (ground (arith, apart.0));
        flat = grown-IsFlat sh ps q l g.flat;
      },
      record {
        supply = rw c.supply;
        not_null = ground (arith, c.not_null);
        fresh = rw (append_assoc ps (q ∷ []) qs) c.fresh;
      },
    )

pub List-cases : (zs : List ℕ) → (zs ≡ []) ⊎ ((w : ℕ) × (ws : List ℕ) × (zs ≡ w ∷ ws))
List-cases [] = inl refl
List-cases (w ∷ ws) = inr (w, ws, refl)

-- The loop ends, has left the links alone, and has put the nodes on the links.
abbrev pub Grows : Shell → List ℕ → List ℕ → Option (Status × Shell) → Type 0
Grows sh ps ls r =
    (t : Shell) × (r ≡ some (ok, t))
    × (t.store ≡ sh.store)
    × (t.lh ≡ sh.lh)
    × (settings t ≡ settings sh)
    × (t.nodes.freed ≡ sh.nodes.freed)
    × IsGrown t ps ls

pub add_nodes-Grows :
    (fuel : ℕ) (sh : Shell) (us zs ps ls qs rest : List ℕ)
    → IsList sh.store sh.lh (us ++ zs)
    → IsGrown sh ps ls
    → CanSupply sh ps qs rest
    → length qs ≡ length (each restruct zs)
    → length zs < fuel
    → Grows sh (ps ++ qs) (ls ++ each restruct zs) (add_nodes fuel (follower zs sh.lh.tail) sh)
unfolding add_nodes
add_nodes-Grows zero sh us zs ps ls qs rest is g c m enough = absurd (omega arith)
add_nodes-Grows (suc fuel) sh us [] ps ls (q ∷ qs) rest is g c m enough = absurd (omega (arith, m))
add_nodes-Grows (suc fuel) sh us [] ps ls [] rest is g c m enough =
    (sh, rw ==_self, refl, refl, refl, refl, rw (append-nil ps, append-nil ls) g)
add_nodes-Grows (suc fuel) sh us (z ∷ zs) ps ls qs rest is g c m enough =
    let (on, ws, whole) = advance-drop restruct us (z ∷ zs) is in
    let more = (no_sentinel z us zs is).1 in
    elim (List-cases (drop restruct (z ∷ zs))) [
      | inl e ↦
          let none_left : each restruct (z ∷ zs) ≡ [] =
            each-drop restruct (z ∷ zs) ∙ ap (each 0) e in
          let unused : qs ≡ [] = elim (List-cases qs) [
            | inl n ↦ n
            | inr (q, rs, n) ↦ absurd (omega (arith, rw (n, none_left) at m))
          ] in
          (
            sh,
            rw (more, on, e, ==_self),
            refl,
            refl,
            refl,
            refl,
            rw (unused, none_left, append-nil ps, append-nil ls) g,
          )
      | inr (w, vs, e) ↦
          let go_on : each restruct (z ∷ zs) ≡ w ∷ each restruct (w ∷ vs) =
            each-drop restruct (z ∷ zs) ∙ ap (each 0) e in
          elim (List-cases qs) [
            | inl n ↦ absurd (omega (arith, rw (n, go_on) at m))
            | inr (q, rs, n) ↦
                let here : IsList sh.store sh.lh (ws ++ w ∷ vs) = rw (rw e at whole) is in
                let shorter : length (w ∷ vs) ≤ length zs = rw e at (length-drop 8 zs) in
                let left : length rs ≡ length (each restruct (w ∷ vs)) =
                  omega (arith, rw (n, go_on) at m) in
                let there = (no_sentinel w ws vs here).1 in
                let (made, g', c') = one_more sh ps ls q w rs rest g (rw n at c) in
                let (t, run, a, b, d, f, grows) =
                  add_nodes-Grows fuel (grown sh ps q w) ws (w ∷ vs) (ps ++ q ∷ []) (ls ++ w ∷ [])
                    rs rest here g' c' left (omega (arith, enough)) in
                (
                  t,
                  rw
                      (
                        more,
                        on,
                        e,
                        there,
                        last_node sh ps g.nodes,
                        made,
                        on,
                        e,
                        last_node sh ps g.nodes,
                        made,
                      )
                      run,
                  a,
                  b,
                  d,
                  f,
                  rw (n, go_on)
                      (rw
                        (
                          append_assoc ps (q ∷ []) rs,
                          append_assoc ls (w ∷ []) (each restruct (w ∷ vs)),
                        )
                        at grows),
                )
          ]
    ]
