-- ===== src/Links/Laws.antt =====
-- `insertLink` by list type.
use osdb_dcdb.Prelude.{
  ℕ, ◌<◌, ◌≡◌, refl, ◌∙◌, ap, List, [], ◌∷◌, ◌++◌, length, last, Option, some, none, inl, inr, ◌⊎◌,
}
use mathlib.Core.List.{append-nil}
use osdb_dcdb.Links.{
  insert_typed, with_compare, insert_sorted, insert_slow_sorted, Status, Store, ListHeader,
  ListType, Compare, error, insert_link, insert_link_here, insert_behind, last_link,
}
use osdb_dcdb.Links.Chain.{IsList, prev-tail}
use osdb_dcdb.Links.Insert.{Inserted, IsOutside, insert_link_here-Inserted, StandsBehind}
use osdb_dcdb.Links.Order.{IsOrder, Ascending, upto, beyond, upto-append-beyond, Ascending-upto}
use osdb_dcdb.Links.Slow.{insert_slow_sorted-place, insert_behind-Inserted}
use osdb_dcdb.Links.Sorted.{insert_sorted-KeepsOrder}

-- The call ends, and has put the link between the two sequences.
abbrev pub InsertsBetween :
    ℕ → List ℕ → List ℕ → ListHeader → Store → Option (Status × ListHeader × Store) → Type 0
InsertsBetween lnk us vs lh s found =
    (r : Status × ListHeader × Store) × (found ≡ some r) × Inserted lnk us vs lh s r

-- The conditions under which a compared insertion is made.
pub record CanSort (s : Store) (lh : ListHeader) (cmp : Compare) (lnk fuel : ℕ) (xs : List ℕ)
    : Type 0 where
  pub holds : IsList s lh xs
  pub compared : lh.compare ≡ some cmp
  pub order : IsOrder cmp
  pub ascending : Ascending cmp s.data_of xs
  pub outside : IsOutside lnk lh xs
  pub enough : length xs < fuel

module _ (s : Store) (lh : ListHeader) (lnk fuel : ℕ) where
  at_type : (k : ListType) → lh.type ≡ k → insert_link fuel lh lnk s ≡ insert_typed k fuel lh lnk s
  unfolding insert_link
  at_type k t = ap (λ (j : ListType). insert_typed j fuel lh lnk s) t

  at_slow_sorted :
      (cmp : Compare)
      → lh.type ≡ ListType.slow_sorted
      → lh.compare ≡ some cmp
      → insert_link fuel lh lnk s ≡ insert_slow_sorted fuel cmp lh lnk s
  unfolding insert_typed
  at_slow_sorted cmp t c =
      at_type ListType.slow_sorted t
      ∙ ap (with_compare (λ f. insert_slow_sorted fuel f lh lnk s) lh s) c

  at_sorted :
      (cmp : Compare)
      → lh.type ≡ ListType.sorted
      → lh.compare ≡ some cmp
      → insert_link fuel lh lnk s ≡ insert_sorted fuel cmp lh lnk s
  unfolding insert_typed
  at_sorted cmp t c =
      at_type ListType.sorted t ∙ ap (with_compare (λ f. insert_sorted fuel f lh lnk s) lh s) c

  -- A compared insertion with no compare function fails, and changes nothing.
  pub insert_link-no_compare :
      (lh.type ≡ ListType.slow_sorted) ⊎ (lh.type ≡ ListType.sorted)
      → lh.compare ≡ none
      → insert_link fuel lh lnk s ≡ some (error, lh, s)
  unfolding insert_typed
  insert_link-no_compare (inl t) c =
      at_type ListType.slow_sorted t
      ∙ ap (with_compare (λ f. insert_slow_sorted fuel f lh lnk s) lh s) c
  insert_link-no_compare (inr t) c =
      at_type ListType.sorted t ∙ ap (with_compare (λ f. insert_sorted fuel f lh lnk s) lh s) c

  -- A slowly sorted list takes the link before the first greater one, and stays in order.
  pub insert_link-slow_sorted :
      (cmp : Compare) (xs : List ℕ)
      → CanSort s lh cmp lnk fuel xs
      → lh.type ≡ ListType.slow_sorted
      → let d = s.data_of lnk in
        let us = upto cmp s.data_of d xs in
        let vs = beyond cmp s.data_of d xs in
        InsertsBetween lnk us vs lh s (insert_link fuel lh lnk s)
        × Ascending cmp s.data_of (us ++ lnk ∷ vs)
  insert_link-slow_sorted cmp xs c t =
      let d = s.data_of lnk in
      let us = upto cmp s.data_of d xs in
      let vs = beyond cmp s.data_of d xs in
      let whole = upto-append-beyond cmp s.data_of d xs in
      (
        (
          insert_behind lh lnk s (last lh.head us),
          at_slow_sorted cmp t c.compared
              ∙ (insert_slow_sorted-place cmp c.order fuel lnk xs c.holds c.ascending c.enough),
          insert_behind-Inserted lnk us vs (rw whole c.holds) (rw whole c.outside),
        ),
        Ascending-upto cmp s.data_of c.order lnk xs c.ascending,
      )

  -- A sorted list takes the link at some place where it stays in order.
  pub insert_link-sorted :
      (cmp : Compare) (xs : List ℕ)
      → CanSort s lh cmp lnk fuel xs
      → lh.type ≡ ListType.sorted
      → (us : List ℕ) × (vs : List ℕ) × (us ++ vs ≡ xs)
        × InsertsBetween lnk us vs lh s (insert_link fuel lh lnk s)
        × Ascending cmp s.data_of (us ++ lnk ∷ vs)
  insert_link-sorted cmp xs c t =
      let (us, vs, whole, run, kept) =
        insert_sorted-KeepsOrder cmp c.order lnk xs fuel c.holds c.ascending c.enough in
      (
        us,
        vs,
        whole,
        (
          insert_behind lh lnk s (last lh.head us),
          at_sorted cmp t c.compared ∙ run,
          insert_behind-Inserted lnk us vs (rw whole c.holds) (rw whole c.outside),
        ),
        kept,
      )

  -- A queue and a stack take the link at the end.
  pub insert_link-end :
      (xs : List ℕ)
      → IsList s lh xs
      → IsOutside lnk lh xs
      → (lh.type ≡ ListType.queued) ⊎ (lh.type ≡ ListType.stacked)
      → InsertsBetween lnk xs [] lh s (insert_link fuel lh lnk s)
  unfolding insert_typed last_link
  insert_link-end xs is out t =
      let placed : InsertsBetween lnk xs [] lh s (some (insert_behind lh lnk s (s.prev lh.tail))) =
        (
          insert_behind lh lnk s (s.prev lh.tail),
          refl,
          rw (prev-tail xs is)
              (insert_behind-Inserted lnk xs [] (rw append-nil is) (rw append-nil out)),
        ) in
      elim t [
        | inl e ↦ (placed.0, at_type ListType.queued e, placed.2)
        | inr e ↦ (placed.0, at_type ListType.stacked e, placed.2)
      ]

  -- An unsorted list takes the link behind the one where the header stands.
  pub insert_link-unsorted :
      (us vs : List ℕ)
      → IsList s lh (us ++ vs)
      → IsOutside lnk lh (us ++ vs)
      → StandsBehind lh us vs
      → lh.type ≡ ListType.unsorted
      → InsertsBetween lnk us vs lh s (insert_link fuel lh lnk s)
  unfolding insert_typed
  insert_link-unsorted us vs is out place t = (
    insert_link_here lh lnk s,
    at_type ListType.unsorted t,
    insert_link_here-Inserted lnk us vs is out place,
  )
