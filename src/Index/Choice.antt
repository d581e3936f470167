-- ===== src/Index/Choice.antt =====
-- The link of the shell `inx` that a query chooses stands for the only block that can have the key.
use osdb_dcdb.Prelude.{
  ℕ, ◌≡◌, refl, sym, ap, ◌∙◌, false, Bool-cases, is_eq, is_lt, some, none, List, [], ◌∷◌, ◌++◌,
  ◌==◌, arith, inl, inr,
}
use mathlib.Core.List.{append_assoc}
use osdb_dcdb.Index.Leaves.{Leaf, items}
use osdb_dcdb.Index.Listing.{all_items}
use osdb_dcdb.Index.Order.{
  Increasing, Increasing-append, Less, Greater, Less-Lacks, Greater-Lacks, Less-append,
  Greater-later, Greater-all, Less-earlier, first_equal-behind, first_equal-before,
}
use osdb_dcdb.Links.{Compare, null}
use osdb_dcdb.Links.Order.{IsOrder}
use osdb_dcdb.Shells.Query.Plain.{closest}
use osdb_dcdb.Shells.Search.Plain.{first_equal}

-- `dat` gives the data of the items, `keys` that of the links of the shell, and `number_of` the
-- item of a link of the shell.
module _ (cmp : Compare) (dat keys number_of : ℕ → ℕ) where
  -- The link has the number of the block and a key that is equal to that of its first item.
  pub record Names (k : ℕ) (f : Leaf) : Type 0 where
    pub real : (k == null) ≡ false
    pub number : number_of k ≡ f.number
    pub key : (d : ℕ) → cmp d (keys k) ≡ cmp d (dat f.first)

  abbrev pub AllNames : List ℕ → List Leaf → Type 0
  AllNames [] [] = Unit
  AllNames (k ∷ ks) (f ∷ fs) = Names k f × AllNames ks fs
  AllNames _ _ = ⊥

  -- The key belongs to the block `leaf`, which the link `k` names.
  pub record Chosen (d k : ℕ) (fs : List Leaf) : Type 0 where
    pub before : List Leaf
    pub leaf : Leaf
    pub behind : List Leaf
    pub whole : fs ≡ before ++ leaf ∷ behind
    pub names : Names k leaf
    pub lower : Less cmp dat d (all_items before)
    pub higher : Greater cmp dat d (all_items behind)

  pub all_items-append : (fs gs : List Leaf) → all_items (fs ++ gs) ≡ all_items fs ++ all_items gs
  all_items-append [] gs = refl
  all_items-append (f ∷ fs) gs =
      ap (λ r. items f ++ r) (all_items-append fs gs)
      ∙ sym (append_assoc (items f) (all_items fs) (all_items gs))

  module _ (o : IsOrder cmp) where
    -- The first equal item of all blocks is that of the chosen block.
    pub Chosen-first_equal :
        (d k : ℕ) (fs : List Leaf)
        → (c : Chosen d k fs)
        → first_equal cmp dat d (all_items fs) ≡ first_equal cmp dat d (items c.leaf)
    Chosen-first_equal d k fs c =
        ap (λ gs. first_equal cmp dat d (all_items gs)) c.whole
        ∙ ap (first_equal cmp dat d) (all_items-append c.before (c.leaf ∷ c.behind))
        ∙ first_equal-behind cmp dat d (all_items c.before) (all_items (c.leaf ∷ c.behind))
            (Less-Lacks cmp dat o d (all_items c.before) c.lower)
        ∙ first_equal-before cmp dat d (items c.leaf) (all_items c.behind)
            (Greater-Lacks cmp dat o d (all_items c.behind) c.higher)

    Chosen-first :
        (d k : ℕ) (f : Leaf) (fs : List Leaf)
        → Names k f
        → Greater cmp dat d (all_items fs)
        → Chosen d k (f ∷ fs)
    Chosen-first d k f fs names above = record {
      before = [];
      leaf = f;
      behind = fs;
      whole = refl;
      names = names;
      lower = tt;
      higher = above;
    }

    Chosen-later :
        (d k : ℕ) (g : Leaf) (fs : List Leaf)
        → Less cmp dat d (items g)
        → Chosen d k fs
        → Chosen d k (g ∷ fs)
    Chosen-later d k g fs below c = record {
      before = g ∷ c.before;
      leaf = c.leaf;
      behind = c.behind;
      whole = ap {B = List Leaf} (λ r. g ∷ r) c.whole;
      names = c.names;
      lower = Less-append cmp dat d (items g) (all_items c.before) below c.lower;
      higher = c.higher;
    }

    -- The key is above the first item of the block `g`, which the link `b` names.
    closest-behind :
        (d b : ℕ) (g : Leaf) (ks : List ℕ) (fs : List Leaf)
        → Names b g
        → AllNames ks fs
        → Increasing cmp dat (all_items (g ∷ fs))
        → Chosen d (closest cmp keys d (some b) ks) (g ∷ fs)
    unfolding closest
    closest-behind d b g [] [] n ns i = Chosen-first d b g [] n tt
    closest-behind d b g [] (f ∷ fs) n ns i = absurd ns
    closest-behind d b g (k ∷ ks) [] n ns i = absurd ns
    closest-behind d b g (k ∷ ks) (f ∷ fs) n ns i =
        let i' = Increasing-append cmp dat (items g) (all_items (f ∷ fs)) i in
        let key = ns.0.key d in
        elim (Bool-cases (is_eq (cmp d (keys k)))) [
          | inl e ↦ rw e (
              Chosen-later d k g (f ∷ fs)
                (Less-earlier cmp dat o d g f fs i (ground (arith, key, e, o.flip d (dat f.first))))
                (Chosen-first d k f fs ns.0
                  (Greater-later cmp dat o d f fs i' (ground (arith, key, e)))))
          | inr ne ↦ elim (Bool-cases (is_lt (cmp d (keys k)))) [
            | inl e ↦
                rw (ne, e)
                  (Chosen-first d b g (f ∷ fs) n
                    (Greater-all cmp dat o d f fs i' (ground (arith, key, e))))
            | inr ge ↦
                rw (ne, ge)
                  (Chosen-later d _ g (f ∷ fs)
                    (Less-earlier cmp dat o d g f fs i
                      (ground (arith, key, ne, ge, o.flip d (dat f.first))))
                    (closest-behind d k f ks fs ns.0 ns.1 i'))
          ]
        ]

    pub closest-Chosen :
        (d k : ℕ) (ks : List ℕ) (f : Leaf) (fs : List Leaf)
        → AllNames (k ∷ ks) (f ∷ fs)
        → Increasing cmp dat (all_items (f ∷ fs))
        → Chosen d (closest cmp keys d none (k ∷ ks)) (f ∷ fs)
    unfolding closest
    closest-Chosen d k ks f fs ns i =
        let key = ns.0.key d in
        elim (Bool-cases (is_eq (cmp d (keys k)))) [
          | inl e ↦ rw e (
              Chosen-first d k f fs ns.0
                (Greater-later cmp dat o d f fs i (ground (arith, key, e))))
          | inr ne ↦ elim (Bool-cases (is_lt (cmp d (keys k)))) [
            | inl e ↦
                rw (ne, e)
                  (Chosen-first d k f fs ns.0
                    (Greater-later cmp dat o d f fs i (ground (arith, key, e))))
            | inr ge ↦ rw (ne, ge) (closest-behind d k f ks fs ns.0 ns.1 i)
          ]
        ]
