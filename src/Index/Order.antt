-- ===== src/Index/Order.antt =====
-- The items of an index in the order of its compare function, and the block that a key belongs to.
use osdb_dcdb.Prelude.{
  ℕ, ◌≡◌, refl, true, false, Ordering, is_eq, List, [], ◌∷◌, ◌++◌, arith, Bool-cases, inl, inr,
}
use osdb_dcdb.Index.Leaves.{Leaf, items}
use osdb_dcdb.Index.Listing.{all_items}
use osdb_dcdb.Links.{Compare, null}
use osdb_dcdb.Links.Order.{IsOrder, le}
use osdb_dcdb.Shells.Search.Plain.{first_equal}

module _ (cmp : Compare) (dat : ℕ → ℕ) where
  -- All items are less than the value.
  abbrev pub Less : ℕ → List ℕ → Type 0
  Less d [] = Unit
  Less d (x ∷ xs) = (cmp (dat x) d ≡ Ordering.lt) × Less d xs

  abbrev pub Greater : ℕ → List ℕ → Type 0
  Greater d [] = Unit
  Greater d (x ∷ xs) = (cmp d (dat x) ≡ Ordering.lt) × Greater d xs

  -- In order, and no two equal.
  abbrev pub Increasing : List ℕ → Type 0
  Increasing [] = Unit
  Increasing (x ∷ xs) = Greater (dat x) xs × Increasing xs

  -- No item has the key.
  abbrev pub Lacks : ℕ → List ℕ → Type 0
  Lacks d [] = Unit
  Lacks d (x ∷ xs) = (is_eq (cmp d (dat x)) ≡ false) × Lacks d xs

  pub Less-append : (d : ℕ) (xs ys : List ℕ) → Less d xs → Less d ys → Less d (xs ++ ys)
  Less-append d [] ys a b = b
  Less-append d (x ∷ xs) ys a b = (a.0, Less-append d xs ys a.1 b)

  pub first_equal-behind :
      (d : ℕ) (xs ys : List ℕ)
      → Lacks d xs
      → first_equal cmp dat d (xs ++ ys) ≡ first_equal cmp dat d ys
  unfolding first_equal
  first_equal-behind d [] ys a = refl
  first_equal-behind d (x ∷ xs) ys a = rw a.0 (first_equal-behind d xs ys a.1)

  first_equal-none : (d : ℕ) (xs : List ℕ) → Lacks d xs → first_equal cmp dat d xs ≡ null
  unfolding first_equal
  first_equal-none d [] a = refl
  first_equal-none d (x ∷ xs) a = rw a.0 (first_equal-none d xs a.1)

  pub first_equal-before :
      (d : ℕ) (xs ys : List ℕ)
      → Lacks d ys
      → first_equal cmp dat d (xs ++ ys) ≡ first_equal cmp dat d xs
  unfolding first_equal
  first_equal-before d [] ys a = first_equal-none d ys a
  first_equal-before d (x ∷ xs) ys a = elim (Bool-cases (is_eq (cmp d (dat x)))) [
    | inl e ↦ rw e refl
    | inr ne ↦ rw ne (first_equal-before d xs ys a)
  ]

  Greater-append : (d : ℕ) (xs ys : List ℕ) → Greater d (xs ++ ys) → Greater d ys
  Greater-append d [] ys g = g
  Greater-append d (x ∷ xs) ys g = Greater-append d xs ys g.1

  Greater-head : (d y : ℕ) (xs ys : List ℕ) → Greater d (xs ++ y ∷ ys) → cmp d (dat y) ≡ Ordering.lt
  Greater-head d y xs ys g = (Greater-append d xs (y ∷ ys) g).0

  pub Increasing-append : (xs ys : List ℕ) → Increasing (xs ++ ys) → Increasing ys
  Increasing-append [] ys i = i
  Increasing-append (x ∷ xs) ys i = Increasing-append xs ys i.1

  Increasing-Less : (y : ℕ) (xs ys : List ℕ) → Increasing (xs ++ y ∷ ys) → Less (dat y) xs
  Increasing-Less y [] ys i = tt
  Increasing-Less y (x ∷ xs) ys i = (Greater-head (dat x) y xs ys i.0, Increasing-Less y xs ys i.1)

  module _ (o : IsOrder cmp) where
    Less-le : (d e : ℕ) (xs : List ℕ) → Less e xs → le cmp e d ≡ true → Less d xs
    Less-le d e [] l h = tt
    Less-le d e (x ∷ xs) l h = (
      ground (
        arith,
        o.le_trans d e (dat x),
        o.le_trans e d (dat x),
        o.flip d (dat x),
        o.flip (dat x) e,
        o.flip d e,
        o.flip (dat x) d,
        l.0,
      ),
      Less-le d e xs l.1 h,
    )

    Greater-le : (d e : ℕ) (xs : List ℕ) → Greater e xs → le cmp d e ≡ true → Greater d xs
    Greater-le d e [] g h = tt
    Greater-le d e (x ∷ xs) g h = (
      ground (arith, o.le_trans (dat x) d e, o.flip d (dat x), o.flip e (dat x), g.0),
      Greater-le d e xs g.1 h,
    )

    pub Less-Lacks : (d : ℕ) (xs : List ℕ) → Less d xs → Lacks d xs
    Less-Lacks d [] l = tt
    Less-Lacks d (x ∷ xs) l = (ground (arith, o.flip (dat x) d, l.0), Less-Lacks d xs l.1)

    pub Greater-Lacks : (d : ℕ) (xs : List ℕ) → Greater d xs → Lacks d xs
    Greater-Lacks d [] g = tt
    Greater-Lacks d (x ∷ xs) g = (ground (arith, g.0), Greater-Lacks d xs g.1)

    -- A key that is not above the first item of the blocks is below all later items.
    pub Greater-later :
        (d : ℕ) (f : Leaf) (fs : List Leaf)
        → Increasing (all_items (f ∷ fs))
        → le cmp d (dat f.first) ≡ true
        → Greater d (all_items fs)
    Greater-later d f fs i h =
        Greater-le d (dat f.first) (all_items fs)
          (Greater-append (dat f.first) f.others (all_items fs) i.0) h

    pub Greater-all :
        (d : ℕ) (f : Leaf) (fs : List Leaf)
        → Increasing (all_items (f ∷ fs))
        → cmp d (dat f.first) ≡ Ordering.lt
        → Greater d (all_items (f ∷ fs))
    Greater-all d f fs i h =
        (h, Greater-le d (dat f.first) (f.others ++ all_items fs) i.0 (ground (arith, h)))

    -- A key that is not below the first item of a block is above all items of the block before.
    pub Less-earlier :
        (d : ℕ) (g f : Leaf) (fs : List Leaf)
        → Increasing (all_items (g ∷ f ∷ fs))
        → le cmp (dat f.first) d ≡ true
        → Less d (items g)
    Less-earlier d g f fs i h =
        Less-le d (dat f.first) (items g)
          (Increasing-Less f.first (items g) (f.others ++ all_items fs) i) h
