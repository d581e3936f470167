-- ===== src/Shells/Query/Nearest.antt =====
-- `queryShellItem` over a list in order: where the item is, or is to go.
use osdb_dcdb.Prelude.{
  ℕ, ◌<◌, ◌≡◌, refl, true, false, some, none, List, [], ◌∷◌, arith, ◌==◌, ==_iff, has, Bool-cases,
  if◌then◌else◌, is_lt, is_eq, length, last, inl, inr,
}
use mathlib.Core.Path.{subst}
use osdb_dcdb.Links.{null, Compare}
use osdb_dcdb.Links.Chain.{IsList}
use osdb_dcdb.Links.Order.{IsOrder, Above, Ascending, upto}
use osdb_dcdb.Shells.{Shell}
use osdb_dcdb.Shells.Query.{query_shell_item}
use osdb_dcdb.Shells.Query.Plain.{closest, query_shell_item-plain}
use osdb_dcdb.Shells.Search.Plain.{IsCalm, Finds, first_equal}

module _ (cmp : Compare) (dat : ℕ → ℕ) (d : ℕ) where
  -- The first link with the data; if there is none, the last one with less, or else `b`.
  abbrev pub nearest : ℕ → List ℕ → ℕ
  nearest b xs =
      let e = first_equal cmp dat d xs in if e == null then last b (upto cmp dat d xs) else e

  module _ (o : IsOrder cmp) where
    first_equal-Above :
        (e : ℕ) (xs : List ℕ)
        → is_lt (cmp d e) ≡ true
        → Above cmp dat e xs
        → first_equal cmp dat d xs ≡ null
    unfolding first_equal
    first_equal-Above e [] lt a = refl
    first_equal-Above e (x ∷ xs) lt a =
        let ne : is_eq (cmp d (dat x)) ≡ false =
          ground (arith, o.le_trans e (dat x) d, o.flip d e, o.flip d (dat x), a.0, lt) in
        rw ne (first_equal-Above e xs lt a.1)

    closest-nearest :
        (b : ℕ) (xs : List ℕ)
        → Ascending cmp dat xs
        → has null xs ≡ false
        → closest cmp dat d (some b) xs ≡ nearest b xs
    unfolding closest first_equal
    closest-nearest b [] a real = refl
    closest-nearest b (x ∷ xs) a real =
        let real_x : (x == null) ≡ false = ground (arith, real, ==_iff x null, ==_iff null x) in
        elim (Bool-cases (is_eq (cmp d (dat x)))) [
          | inl e ↦ rw (e, real_x) refl
          | inr ne ↦ elim (Bool-cases (is_lt (cmp d (dat x)))) [
            | inl lt ↦ rw (ne, lt, first_equal-Above (dat x) xs lt a.0) refl
            | inr ge ↦ rw (ne, ge) (closest-nearest x xs a.1 (ground (arith, real)))
          ]
        ]

    pub closest-nearest_first :
        (x : ℕ) (xs : List ℕ)
        → Ascending cmp dat (x ∷ xs)
        → has null (x ∷ xs) ≡ false
        → closest cmp dat d none (x ∷ xs) ≡ nearest x (x ∷ xs)
    unfolding closest first_equal
    closest-nearest_first x xs a real =
        let real_x : (x == null) ≡ false = ground (arith, real, ==_iff x null, ==_iff null x) in
        elim (Bool-cases (is_eq (cmp d (dat x)))) [
          | inl e ↦ rw (e, real_x) refl
          | inr ne ↦ elim (Bool-cases (is_lt (cmp d (dat x)))) [
            | inl lt ↦ rw (ne, lt, first_equal-Above (dat x) xs lt a.0) refl
            | inr ge ↦ rw (ne, ge) (closest-nearest x xs a.1 (ground (arith, real)))
          ]
        ]

-- In a calm shell with no nodes over a list in ascending order under a lawful compare function, that
-- is not empty and has no NULL links, and with fuel above its length, the query ends with the first
-- link whose data is equal; if there is none, with the last link whose data is less, and with the
-- first link if there is none of these either; the items stay as they are.
pub query_shell_item-nearest :
    (lnk fuel : ℕ) (sh : Shell) (x : ℕ) (xs : List ℕ)
    → IsList sh.store sh.lh (x ∷ xs)
    → sh.nodes.next sh.head ≡ sh.tail
    → IsCalm sh
    → length (x ∷ xs) < fuel
    → IsOrder sh.compare
    → Ascending sh.compare sh.store.data_of (x ∷ xs)
    → has null (x ∷ xs) ≡ false
    → Finds sh
        (nearest sh.compare sh.store.data_of (sh.store.data_of lnk) x (x ∷ xs))
        (query_shell_item fuel sh lnk)
query_shell_item-nearest lnk fuel sh x xs is bare calm enough o a real =
    subst (λ found. Finds sh found (query_shell_item fuel sh lnk))
      (closest-nearest_first sh.compare sh.store.data_of (sh.store.data_of lnk) o x xs a real)
      (query_shell_item-plain lnk fuel sh x xs is bare calm enough)
