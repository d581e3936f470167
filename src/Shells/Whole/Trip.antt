-- ===== src/Shells/Whole/Trip.antt =====
-- `list2Shell`, and `shl2List` behind it.
use osdb_dcdb.Prelude.{
  ℕ, suc, ◌<◌, ◌≡◌, refl, sym, ap, ◌∙◌, false, some, List, [], ◌∷◌, ◌++◌, arith, ◌==◌, ==_self,
  length, has, has-append, Distinct, Distinct-middle,
}
use osdb_dcdb.Links.{Store, ListHeader, ListType, Compare, null, size_mod}
use osdb_dcdb.Links.Chain.{IsList}
use osdb_dcdb.Links.Places.{follower}
use osdb_dcdb.Shells.{Shell}
use osdb_dcdb.Shells.Restructure.Nodes.{HasNodes, settings, joined}
use osdb_dcdb.Shells.Restructure.Grow.{CanSupply}
use osdb_dcdb.Shells.Restructure.Rebuild.{IsIndexed, Linked-follower}
use osdb_dcdb.Shells.Restructure.Laws.{
  restructure_shell_nodes-Restructures, free_nodes-ends, stops, length-stops, freed_after,
}
use osdb_dcdb.Shells.Whole.{
  after_rebuild, made_with, built, list2shell, shl2list, dismantle, bare_shell,
}

-- The dismantling of a shell with nodes ends, and frees each node once.
dismantle-ends :
    (fuel p : ℕ) (sh : Shell) (ps : List ℕ)
    → HasNodes sh ps
    → length ps < fuel
    → dismantle fuel p sh ≡ some (p ∷ sh.tail ∷ sh.head ∷ freed_after ps sh.nodes.freed)
unfolding dismantle
dismantle-ends fuel p sh ps h enough =
    let out = (Distinct-middle sh.tail ps [] h.distinct.1).0 in
    let first : sh.nodes.next sh.head ≡ follower ps sh.tail =
      Linked-follower (joined sh.nodes) sh.head sh.tail ps h.chain in
    let free = free_nodes-ends fuel sh.head sh ps h.chain out enough in rw (dismantle, first, free)

shl2list-ends :
    (fuel p : ℕ) (sh : Shell) (ps : List ℕ) (lh : ListHeader) (cmp : Compare) (head tail : ℕ)
    (before : List ℕ)
    → HasNodes sh ps
    → length ps < fuel
    → sh.lh ≡ lh
    → settings sh ≡ (head, tail, cmp, false)
    → sh.nodes.freed ≡ before
    → shl2list fuel p sh
      ≡ some (
        record lh { type = ListType.slow_sorted; compare = some cmp },
        p ∷ tail ∷ head ∷ freed_after ps before,
      )
unfolding shl2list
shl2list-ends fuel p sh ps lh cmp head tail before h enough same_lh same freed =
    let same_head : sh.head ≡ head = ap (λ k. k.0) same in
    let same_tail : sh.tail ≡ tail = ap (λ k. k.1) same in
    let same_compare : sh.compare ≡ cmp = ap (λ k. k.2) same in
    rw (
      shl2list,
      dismantle-ends fuel p sh ps h enough,
      freed,
      same_lh,
      same_head,
      same_tail,
      same_compare,
    )

module _ (fuel p head tail : ℕ) (cmp : Compare) (lh : ListHeader) (s : Store)
    (xs qs rest : List ℕ) where
  -- The conditions under which `list2Shell` builds a shell: memory, and fuel.
  pub record CanBuild : Type 0 where
    pub holds : IsList s lh xs
    pub compared : lh.compare ≡ some cmp
    pub small : length xs < size_mod
    pub made : ((p == null) ≡ false) × ((head == null) ≡ false) × ((tail == null) ≡ false)
    pub not_null : has null qs ≡ false
    pub fresh : Distinct (head ∷ qs ++ tail ∷ [])
    pub as_many : length qs ≡ length (stops xs)
    pub enough : suc (length xs) < fuel

  -- Where a list of less than 2^64 links has a compare function, there is memory, and the fuel is
  -- above the number of links and one more, list2Shell ends and gives a shell over the list,
  -- unchanged, with the list's compare function and with nodes on every ninth link; shl2List of that
  -- shell ends, gives the list back as it was but SLOWSORTED, and frees the header, the two
  -- sentinels and each node once.
  pub list2shell-shl2list :
      CanBuild
      → (t : Shell) × (list2shell fuel lh s p head tail (qs ++ rest) ≡ some (built t))
        × (t.store ≡ s)
        × (t.lh ≡ lh)
        × (t.compare ≡ cmp)
        × IsIndexed t qs (stops xs)
        × (shl2list fuel p t
            ≡ some (record lh { type = ListType.slow_sorted }, p ∷ tail ∷ head ∷ freed_after qs []))
  unfolding list2shell shl2list bare_shell
  list2shell-shl2list c =
      let b = bare_shell cmp lh s head tail (qs ++ rest) in
      let apart : (head == tail) ≡ false =
        ground (arith, c.fresh.0, has-append head qs (tail ∷ [])) in
      let other : (tail == head) ≡ false = ground arith in
      let bare : HasNodes b [] = record {
        chain = (rw (apart, ==_self), rw (other, ==_self), tt);
        distinct = ground (arith, apart);
      } in
      let supply : CanSupply b [] qs rest = record {
        supply = refl;
        not_null = c.not_null;
        fresh = c.fresh;
      } in
      let start : list2shell fuel lh s p head tail (qs ++ rest)
          ≡ made_with fuel lh.compare lh s head tail (qs ++ rest) =
        rw (c.made.0, c.made.1, c.made.2) refl in
      let (t, run, same_store, same_lh, same, freed, indexed) =
        restructure_shell_nodes-Restructures fuel b xs [] qs rest c.holds c.small bare supply
          c.as_many (omega (arith, c.enough)) c.enough in
      (
        t,
        start
            ∙ ap (λ o. made_with fuel o lh s head tail (qs ++ rest)) c.compared
            ∙ ap after_rebuild run,
        same_store,
        same_lh,
        ap (λ k. k.2) same,
        indexed,
        let few : length qs < fuel = omega (arith, c.as_many, c.enough, length-stops xs) in
            shl2list-ends fuel p t qs lh cmp head tail [] indexed.nodes few same_lh same freed
            ∙ ap
                (λ o. some (
                  record lh { type = ListType.slow_sorted; compare = o },
                  p ∷ tail ∷ head ∷ freed_after qs [],
                ))
                (sym c.compared),
      )
