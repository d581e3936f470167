-- ===== src/Cache/Halves.antt =====
-- lib/idxblk.c, `splitBlock`: which items go to the new block.
use mathlib.Core.List.{append_assoc, append-nil}
use osdb_dcdb.Prelude.{
  ℕ, zero, suc, ◌≡◌, refl, sym, ap, ◌∙◌, true, false, List, [], ◌∷◌, ◌++◌, ◌==◌, ==_self, ==_iff,
  has, has-append, has-ne, last-append, length, length-append, inl, inr, Bool-cases, arith,
}
use osdb_dcdb.Cache.{DbIndex, with_store}
use osdb_dcdb.Cache.Hits.{IsOutside-removed}
use osdb_dcdb.Cache.Load.{places}
use osdb_dcdb.Cache.Split.{Moved, moved, taken_last, put_front, move_items, set_items}
use osdb_dcdb.Links.{Status, ListHeader, Store, null, last_link, remove_link, insert_link_here}
use osdb_dcdb.Links.Chain.{IsList, prev-tail}
use osdb_dcdb.Links.Depart.{TakesCurrent, remove_link-current, from_standing, resting}
use osdb_dcdb.Links.Frame.{IsList-SameOn}
use osdb_dcdb.Links.Insert.{IsOutside, Inserted, insert_link_here-Inserted}
use osdb_dcdb.Links.Remove.{Removed}
use osdb_dcdb.Links.Places.{follower, standing_at, standing_at-IsList}

-- The items of two blocks, in lists that are apart.
pub record Items (idx : DbIndex) (p q : ℕ) (xs zs : List ℕ) : Type 0 where
  pub from : IsList idx.heap.store (idx.blocks p).key_item_list xs
  pub into : IsList idx.heap.store (idx.blocks q).key_item_list zs
  pub takes : TakesCurrent (idx.blocks p).key_item_list.type
  pub apart :
      (a : ℕ)
      → has a (places (idx.blocks p).key_item_list xs) ≡ true
      → has a (places (idx.blocks q).key_item_list zs) ≡ false

-- A sequence that is not empty has a last item.
by_last : (x : ℕ) (xs : List ℕ) → (ys : List ℕ) × (y : ℕ) × (x ∷ xs ≡ ys ++ y ∷ [])
by_last x [] = ([], x, refl)
by_last x (z ∷ xs) = let (ys, y, e) = by_last z xs in (x ∷ ys, y, ap {B = List ℕ} (λ r. x ∷ r) e)

front_apart :
    (a y head : ℕ) (ws : List ℕ) → has a (y ∷ head ∷ ws) ≡ false → has a (head ∷ y ∷ ws) ≡ false
front_apart a y head ws h = ground (arith, h)

module _ (p q : ℕ) (idx : DbIndex) (xs zs : List ℕ) (y : ℕ)
    (it : Items idx p q (xs ++ y ∷ []) zs) where
  abbrev lh : ListHeader
  lh = (idx.blocks p).key_item_list

  abbrev lh' : ListHeader
  lh' = (idx.blocks q).key_item_list

  not_from : (a : ℕ) → has a (places lh' zs) ≡ true → has a (places lh (xs ++ y ∷ [])) ≡ false
  not_from a h = elim (Bool-cases (has a (places lh (xs ++ y ∷ [])))) [
    | inl inside ↦ absurd (ground (arith, it.apart a inside, h))
    | inr out ↦ out
  ]

  -- What stays in `p` is not what is in `q` then.
  stays_apart : (a : ℕ) → has a (places lh xs) ≡ true → has a (y ∷ places lh' zs) ≡ false
  stays_apart a h =
      let whole : has a (places lh (xs ++ y ∷ [])) ≡ true = ground (
        arith,
        has-append a xs (y ∷ []),
        has-append a (xs ++ y ∷ []) (lh.tail ∷ []),
        has-append a xs (lh.tail ∷ []),
      ) in
      let apart : has a (places lh' zs) ≡ false = it.apart a whole in
      let out : has y (places lh xs) ≡ false =
        ap (λ ws. has y (places lh ws)) (sym (append-nil xs))
        ∙ IsOutside-removed idx.heap.store lh y xs [] it.from in
      rw (has-ne a y (places lh xs) h out) apart

  abbrev out : ℕ × ListHeader × Store
  out = remove_link (standing_at lh (idx.heap.store.prev lh.tail)) idx.heap.store

  gone : Removed y xs [] (resting lh.head xs [] (follower [] lh.tail)) lh idx.heap.store out
  gone = from_standing (idx.heap.store.prev lh.tail) (
      remove_link-current y xs [] (standing_at-IsList (idx.heap.store.prev lh.tail) it.from)
        it.takes (inl (prev-tail (xs ++ y ∷ []) it.from ∙ last-append lh.head y xs [])))

  into_still : IsList out.2 (record lh' { current = lh'.head }) zs
  into_still =
      let is = IsList-SameOn it.into λ a h. gone.elsewhere a (not_from a h) in
      record { chain = is.chain; distinct = is.distinct; counted = is.counted }

  y-IsOutside : IsOutside y lh' zs
  y-IsOutside = it.apart y (
      ground
        (arith, ==_self y, has-append y xs (y ∷ []), has-append y (xs ++ y ∷ []) (lh.tail ∷ [])))

  abbrev placed : Status × ListHeader × Store
  placed = insert_link_here (record lh' { current = lh'.head }) y out.2

  ins : Inserted y [] zs (record lh' { current = lh'.head }) out.2 placed
  ins = insert_link_here-Inserted y [] zs into_still y-IsOutside (inl refl)

  from_still : IsList placed.2 out.1 xs
  from_still =
      IsList-SameOn (rw append-nil at gone.holds)
        λ a h. ins.elsewhere a (stays_apart a (rw (gone.same_head, gone.same_tail) at h))

  -- The index with both lists.
  abbrev one_over : DbIndex
  one_over =
      let idx₁ = with_store out.2 (set_items p out.1 idx) in
      with_store placed.2 (set_items q placed.1 idx₁)

  module _ (other : (p == q) ≡ false) where
    other' : (q == p) ≡ false
    other' = ground (arith, ==_iff p q, ==_iff q p)

    at_p : (one_over.blocks p).key_item_list ≡ out.1
    at_p = rw (other, ==_self p) refl

    at_q : (one_over.blocks q).key_item_list ≡ placed.1
    at_q = rw (==_self q) refl

    still_apart :
        (a : ℕ) → has a (places out.1 xs) ≡ true → has a (places placed.1 (y ∷ zs)) ≡ false
    still_apart a h =
        let apart = stays_apart a (rw (gone.same_head, gone.same_tail) at h) in
        let here : has a (lh'.head ∷ y ∷ zs ++ lh'.tail ∷ []) ≡ false =
          front_apart a y lh'.head (zs ++ lh'.tail ∷ []) apart in
        rw (ins.same_head, ins.same_tail) here

    one_over-Items : Items one_over p q xs (y ∷ zs)
    one_over-Items = record {
      from = rw at_p from_still;
      into = rw at_q ins.holds;
      takes = rw at_p (rw gone.same_type it.takes);
      apart = rw (at_p, at_q) still_apart;
    }

    one_over-moves :
        (num : ℕ) → (y == null) ≡ false → move_items (suc num) p q idx ≡ move_items num p q one_over
    unfolding move_items last_link
    one_over-moves num real =
        let go : DbIndex → Moved = λ i. move_items num p q i in
        let idx₁ = with_store out.2 (set_items p out.1 idx) in
        let into_same : (idx₁.blocks q).key_item_list ≡ lh' = rw other' refl in
        ap (λ l. taken_last p q go idx (l, out.1, out.2)) gone.returns
        ∙ rw real refl
        ∙ ap (λ w. put_front q go idx₁ (insert_link_here (record w { current = w.head }) y out.2))
            into_same
        ∙ ap (λ st. put_front q go idx₁ (st, placed.1, placed.2)) ins.returns

real_last :
    (us : List ℕ) (l : ℕ)
    → has null (us ++ l ∷ []) ≡ false
    → ((l == null) ≡ false) × (has null us ≡ false)
real_last us l h = ground (arith, has-append null us (l ∷ []), ==_iff l null, ==_iff null l)

-- As many of the last items of `p` as the loop has rounds go before the items of `q`, in their
-- order, and the others stay in `p`.
pub move_items-splits :
    (num p q : ℕ) (idx : DbIndex) (xs ys zs : List ℕ)
    → (p == q) ≡ false
    → Items idx p q (xs ++ ys) zs
    → length ys ≡ num
    → has null ys ≡ false
    → (r : DbIndex) × (move_items num p q idx ≡ moved r)
      × Items r p q xs (ys ++ zs)
      × (r.heap.store.data_of ≡ idx.heap.store.data_of)
unfolding move_items
move_items-splits zero p q idx xs [] zs other it e real = (idx, refl, rw append-nil at it, refl)
move_items-splits zero p q idx xs (y ∷ ys) zs other it e real = absurd (omega arith)
move_items-splits (suc num) p q idx xs [] zs other it e real = absurd (omega arith)
move_items-splits (suc num) p q idx xs (y ∷ ys) zs other it e real =
    let (us, l, split) = by_last y ys in
    let it' : Items idx p q ((xs ++ us) ++ l ∷ []) zs = rw append_assoc (rw split at it) in
    let reals : ((l == null) ≡ false) × (has null us ≡ false) =
      real_last us l (ap (has null) (sym split) ∙ real) in
    let (r, run, items, same) =
      move_items-splits num p q (one_over p q idx (xs ++ us) zs l it') xs us (l ∷ zs) other
        (one_over-Items p q idx (xs ++ us) zs l it' other)
        (omega (arith, ap length split, length-append us (l ∷ []), e)) (reals.1) in
    let whole : us ++ l ∷ zs ≡ (y ∷ ys) ++ zs =
      sym (append_assoc us (l ∷ []) zs) ∙ ap (λ ws. ws ++ zs) (sym split) in
    let same' =
      (ins p q idx (xs ++ us) zs l it').same_data ∙ (gone p q idx (xs ++ us) zs l it').same_data in
    (
      r,
      one_over-moves p q idx (xs ++ us) zs l it' other num reals.0 ∙ run,
      rw whole at items,
      same ∙ same',
    )
