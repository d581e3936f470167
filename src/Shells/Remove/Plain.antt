-- ===== src/Shells/Remove/Plain.antt =====
-- `removeShellItem` in a unique shell with no nodes.
use osdb_dcdb.Prelude.{
  ℕ, suc, ◌<◌, ◌≡◌, refl, ap, ◌∙◌, Bool, true, false, some, List, [], ◌∷◌, ◌++◌, arith, ◌==◌,
  ==_iff, Bool-cases, if◌then◌else◌, is_eq, length, length-append, has, has-append, inl, inr,
}
use osdb_dcdb.Links.{Store, ListHeader, Compare, null, size_mod}
use osdb_dcdb.Links.Chain.{IsList}
use osdb_dcdb.Links.Depart.{remove_link-current, TakesCurrent}
use osdb_dcdb.Links.Places.{standing_at-IsList}
use osdb_dcdb.Links.Order.{IsOrder}
use osdb_dcdb.Shells.{Shell}
use osdb_dcdb.Shells.Search.{Found, find_shell_item}
use osdb_dcdb.Shells.Search.Plain.{Finds, first_equal, find_shell_item-plain}
use osdb_dcdb.Shells.Restructure.Nodes.{HasNodes, settings}
use osdb_dcdb.Shells.Restructure.Grow.{CanSupply}
use osdb_dcdb.Shells.Restructure.Rebuild.{IsIndexed}
use osdb_dcdb.Shells.Restructure.Laws.{stops, restructure_shell_nodes-Restructures}
use osdb_dcdb.Shells.Remove.{take_link, remove_rebuilding, if_found, remove_shell_item}

-- The search for a link of the list finds one.
pub first_equal-found :
    (cmp : Compare) (dat : ℕ → ℕ) (x : ℕ) (zs : List ℕ)
    → is_eq (cmp (dat x) (dat x)) ≡ true
    → has x zs ≡ true
    → has null zs ≡ false
    → (first_equal cmp dat (dat x) zs == null) ≡ false
unfolding first_equal
first_equal-found cmp dat x [] e h n = ground arith
first_equal-found cmp dat x (z ∷ zs) e h n = elim (Bool-cases (is_eq (cmp (dat x) (dat z)))) [
  | inl f ↦ rw f (ground arith)
  | inr f ↦
      let other : (x == z) ≡ false = elim (Bool-cases (x == z)) [
        | inl s ↦ absurd (ground (arith, rw ((==_iff x z).0 s) at e))
        | inr s ↦ s
      ] in
      rw f (first_equal-found cmp dat x zs e (ground arith) (ground arith))
]

-- Every item is equal to itself.
pub IsOrder-self : (cmp : Compare) → IsOrder cmp → (d : ℕ) → is_eq (cmp d d) ≡ true
IsOrder-self cmp o d = ground (arith, o.flip d d)

pub IsList-same :
    {s t : Store} {lh k : ListHeader} (xs : List ℕ)
    → IsList s lh xs
    → t ≡ s
    → k.head ≡ lh.head
    → k.tail ≡ lh.tail
    → k.number ≡ lh.number
    → IsList t k xs
IsList-same xs is a b c d = record {
  chain = rw (a, b, c) is.chain;
  distinct = rw (b, c) is.distinct;
  counted = rw d is.counted;
}

take_link-takes :
    (x : ℕ) (sh : Shell) (xs ys : List ℕ)
    → IsList sh.store sh.lh (xs ++ x ∷ ys)
    → TakesCurrent sh.lh.type
    → ((take_link x sh).0 ≡ x)
      × IsList (take_link x sh).1.store (take_link x sh).1.lh (xs ++ ys)
      × ((take_link x sh).1.nodes ≡ sh.nodes)
      × (settings (take_link x sh).1 ≡ settings sh)
      × ((take_link x sh).1.store.data_of ≡ sh.store.data_of)
unfolding take_link
take_link-takes x sh xs ys is kind =
    let r = remove_link-current x xs ys (standing_at-IsList x is) kind (inl refl) in
    (r.returns, IsList-same (xs ++ ys) r.holds refl refl refl refl, refl, refl, r.same_data)

pub HasNodes-same :
    {sh t : Shell} (ps : List ℕ)
    → HasNodes sh ps
    → t.nodes ≡ sh.nodes
    → settings t ≡ settings sh
    → HasNodes t ps
HasNodes-same {sh} {t} ps h n s =
    let same_head : t.head ≡ sh.head = ap (λ k. k.0) s in
    let same_tail : t.tail ≡ sh.tail = ap (λ k. k.1) s in
    record {
      chain = rw (n, same_head, same_tail) h.chain;
      distinct = rw (same_head, same_tail) h.distinct;
    }

pub CanSupply-same :
    {sh t : Shell} (ps qs rest : List ℕ)
    → CanSupply sh ps qs rest
    → t.nodes ≡ sh.nodes
    → settings t ≡ settings sh
    → CanSupply t ps qs rest
CanSupply-same {sh} {t} ps qs rest c n s =
    let same_head : t.head ≡ sh.head = ap (λ k. k.0) s in
    let same_tail : t.tail ≡ sh.tail = ap (λ k. k.1) s in
    record {
      supply = rw n c.supply;
      not_null = c.not_null;
      fresh = rw (same_head, same_tail) c.fresh;
    }

-- The call ends with the link; the list holds the others, with their data, and the nodes are indexed.
abbrev pub Removes : ℕ → Shell → (zs qs : List ℕ) → Found → Type 0
Removes x sh zs qs r =
    (t : Shell) × (r ≡ some (x, t))
    × IsList t.store t.lh zs
    × (t.store.data_of ≡ sh.store.data_of)
    × IsIndexed t qs (stops zs)

pub remove_rebuilding-Removes :
    (fuel x : ℕ) (sh : Shell) (xs ys ps qs rest : List ℕ)
    → IsList sh.store sh.lh (xs ++ x ∷ ys)
    → TakesCurrent sh.lh.type
    → (x == null) ≡ false
    → length (xs ++ ys) < size_mod
    → HasNodes sh ps
    → CanSupply sh [] qs rest
    → length qs ≡ length (stops (xs ++ ys))
    → length ps < fuel
    → suc (length (xs ++ ys)) < fuel
    → Removes x sh (xs ++ ys) qs (remove_rebuilding fuel x sh)
unfolding remove_rebuilding
remove_rebuilding-Removes fuel x sh xs ys ps qs rest is kind full small h c m few enough =
    let (gone, left, same_nodes, same, same_data) = take_link-takes x sh xs ys is kind in
    let (t, run, a, b, d, f, indexed) =
      restructure_shell_nodes-Restructures fuel (take_link x sh).1 (xs ++ ys) ps qs rest left small
        (HasNodes-same ps h same_nodes same) (CanSupply-same [] qs rest c same_nodes same) m few
        enough in
    (
      t,
      rw (gone, full, run),
      IsList-same (xs ++ ys) left a (ap (λ k. k.head) b) (ap (λ k. k.tail) b)
          (ap (λ k. k.number) b),
      ap (λ k. k.data_of) a ∙ same_data,
      indexed,
    )

pub if_true : (b : Bool) (r q : Found) → b ≡ true → (if b then r else q) ≡ r
if_true b r q e = rw e

pub if_found-some :
    (k : Shell → Found) (link : ℕ) (sh : Shell)
    → (link == null) ≡ false
    → if_found k (some (link, sh)) ≡ k sh
if_found-some k link sh e = rw e

-- What a removal from a unique shell with nodes `ps` needs: a lawful compare function, no NULL
-- links, memory for the new nodes, and fuel.
pub record CanRemove (sh : Shell) (x fuel : ℕ) (xs ys ps qs rest : List ℕ) : Type 0 where
  pub holds : IsList sh.store sh.lh (xs ++ x ∷ ys)
  pub kind : TakesCurrent sh.lh.type
  pub nodes : HasNodes sh ps
  pub unique : sh.is_unique ≡ true
  pub order : IsOrder sh.compare
  pub full : has null (xs ++ x ∷ ys) ≡ false
  pub small : length (xs ++ x ∷ ys) < size_mod
  pub supply : CanSupply sh [] qs rest
  pub as_many : length qs ≡ length (stops (xs ++ ys))
  pub enough : suc (length (xs ++ x ∷ ys)) < fuel
  pub enough_nodes : suc (length ps) < fuel

-- The removal when the search is right.
pub found-Removes :
    (sh : Shell) (x fuel : ℕ) (xs ys ps qs rest : List ℕ)
    → CanRemove sh x fuel xs ys ps qs rest
    → let ready = record sh { num_compares = 0 } in
      Finds ready
        (first_equal sh.compare sh.store.data_of (sh.store.data_of x) (xs ++ x ∷ ys))
        (find_shell_item fuel ready x)
      → Removes x sh (xs ++ ys) qs (remove_shell_item fuel sh x)
unfolding remove_shell_item
found-Removes sh x fuel xs ys ps qs rest c (u, run, same) =
    let counts = length-append xs (x ∷ ys) in
    let fewer = length-append xs ys in
    let inside : has x (xs ++ x ∷ ys) ≡ true = ground (arith, has-append x xs (x ∷ ys)) in
    let none_null : (x == null) ≡ false = ground (arith, c.full, has-append null xs (x ∷ ys)) in
    let there =
      first_equal-found sh.compare sh.store.data_of x (xs ++ x ∷ ys)
        (IsOrder-self sh.compare c.order (sh.store.data_of x)) inside c.full in
    let is =
      IsList-same (xs ++ x ∷ ys) c.holds same.same_store same.same_head same.same_tail
        same.same_number in
    let (t, end, left, kept, indexed) =
      remove_rebuilding-Removes fuel x u xs ys ps qs rest is (rw same.same_type c.kind) none_null
        (omega (arith, c.small, counts, fewer))
        (HasNodes-same ps c.nodes same.same_nodes same.same_settings)
        (CanSupply-same [] qs rest c.supply same.same_nodes same.same_settings) c.as_many
        (omega (arith, c.enough_nodes)) (omega (arith, c.enough, counts, fewer)) in
    (
      t,
      if_true sh.is_unique _ _ c.unique
          ∙ ap (if_found (remove_rebuilding fuel x)) run
          ∙ if_found-some (remove_rebuilding fuel x) _ u there
          ∙ end,
      left,
      kept ∙ ap (λ k. k.data_of) same.same_store,
      indexed,
    )

-- In a unique shell with no nodes, where `CanRemove` holds (a lawful compare function, no NULL
-- links, memory and fuel), removeShellItem of a link of the list ends and returns the link; the list holds the others in order, with their data, and has nodes on
-- every ninth link, or none if there are less than nine.
pub remove_shell_item-Removes :
    (sh : Shell) (x fuel : ℕ) (xs ys qs rest : List ℕ)
    → CanRemove sh x fuel xs ys [] qs rest
    → Removes x sh (xs ++ ys) qs (remove_shell_item fuel sh x)
remove_shell_item-Removes sh x fuel xs ys qs rest c = found-Removes sh x fuel xs ys [] qs rest c (
    find_shell_item-plain x fuel (record sh { num_compares = 0 }) (xs ++ x ∷ ys) c.holds
      c.nodes.chain.0 (omega arith) (omega (arith, c.enough)))
