-- ===== src/Shells/Search/Plain.antt =====
-- `findShellItem` in a shell with no nodes.
use osdb_dcdb.Prelude.{
  ℕ, zero, suc, ◌<◌, ◌≤◌, ◌≡◌, refl, false, some, List, [], ◌∷◌, ◌++◌, arith, ==_self, Bool-cases,
  ltb, if◌then◌else◌, is_eq, length, inl, inr, ◌∙◌,
}
use mathlib.Core.List.{append_assoc}
use osdb_dcdb.Links.{ok, null, Compare}
use osdb_dcdb.Links.Chain.{IsList}
use osdb_dcdb.Links.Places.{follower, around, no_sentinel, next_head}
use osdb_dcdb.Shells.{Shell, compared, counted, set_list_current, outpoint_thresh}
use osdb_dcdb.Shells.Restructure.Nodes.{settings}
use osdb_dcdb.Shells.Search.{Found, balance, find_plain, find_ready, find_shell_item}

-- The first link with data equal to `d`, or NULL.
unfoldable pub first_equal : Compare → (ℕ → ℕ) → ℕ → List ℕ → ℕ
first_equal cmp dat d [] = null
first_equal cmp dat d (x ∷ xs) = if is_eq (cmp d (dat x)) then x else first_equal cmp dat d xs

-- What a search may change: counters and current positions.
pub record SameItems (sh t : Shell) : Type 0 where
  pub same_store : t.store ≡ sh.store
  pub same_nodes : t.nodes ≡ sh.nodes
  pub same_head : t.lh.head ≡ sh.lh.head
  pub same_tail : t.lh.tail ≡ sh.lh.tail
  pub same_number : t.lh.number ≡ sh.lh.number
  pub same_type : t.lh.type ≡ sh.lh.type
  pub same_settings : settings t ≡ settings sh

pub SameItems-refl : (sh : Shell) → SameItems sh sh
SameItems-refl sh = record {
  same_store = refl;
  same_nodes = refl;
  same_head = refl;
  same_tail = refl;
  same_number = refl;
  same_type = refl;
  same_settings = refl;
}

pub SameItems-counted : (sh : Shell) → SameItems sh (counted sh)
SameItems-counted sh = record {
  same_store = refl;
  same_nodes = refl;
  same_head = refl;
  same_tail = refl;
  same_number = refl;
  same_type = refl;
  same_settings = refl;
}

pub SameItems-position : (link : ℕ) (sh : Shell) → SameItems sh (set_list_current link (counted sh))
SameItems-position link sh = record {
  same_store = refl;
  same_nodes = refl;
  same_head = refl;
  same_tail = refl;
  same_number = refl;
  same_type = refl;
  same_settings = refl;
}

pub SameItems-ready : (sh : Shell) → SameItems sh (record sh { num_compares = 0 })
SameItems-ready sh = record {
  same_store = refl;
  same_nodes = refl;
  same_head = refl;
  same_tail = refl;
  same_number = refl;
  same_type = refl;
  same_settings = refl;
}

pub SameItems-trans : {a b c : Shell} → SameItems a b → SameItems b c → SameItems a c
SameItems-trans p q = record {
  same_store = q.same_store ∙ p.same_store;
  same_nodes = q.same_nodes ∙ p.same_nodes;
  same_head = q.same_head ∙ p.same_head;
  same_tail = q.same_tail ∙ p.same_tail;
  same_number = q.same_number ∙ p.same_number;
  same_type = q.same_type ∙ p.same_type;
  same_settings = q.same_settings ∙ p.same_settings;
}

-- The call ends with this link, and has changed nothing but counters and positions.
abbrev pub Finds : Shell → ℕ → Found → Type 0
Finds sh link found = (t : Shell) × (found ≡ some (link, t)) × SameItems sh t

-- Too few comparisons since the last call for a restructuring.
abbrev pub IsCalm : Shell → Type 0
IsCalm sh = sh.num_compares ≤ outpoint_thresh

pub balance-ok : (fuel : ℕ) (sh : Shell) → IsCalm sh → balance fuel sh ≡ some (ok, sh)
unfolding balance
balance-ok fuel sh calm = let e : ltb outpoint_thresh sh.num_compares ≡ false = ground arith in rw e

find_plain-first_equal :
    (lnk fuel : ℕ) (sh : Shell) (us zs : List ℕ)
    → IsList sh.store sh.lh (us ++ zs)
    → length zs < fuel
    → Finds sh
        (first_equal sh.compare sh.store.data_of (sh.store.data_of lnk) zs)
        (find_plain fuel lnk (follower zs sh.lh.tail) sh)
unfolding find_plain first_equal
find_plain-first_equal lnk zero sh us zs is h = absurd (omega arith)
find_plain-first_equal lnk (suc fuel) sh us [] is h = (sh, rw ==_self, SameItems-refl sh)
find_plain-first_equal lnk (suc fuel) sh us (z ∷ zs) is h =
    let after = (around z us zs is).1 in
    let is' : IsList sh.store sh.lh ((us ++ z ∷ []) ++ zs) = rw append_assoc is in
    let (t, run, same) =
      find_plain-first_equal lnk fuel (counted sh) (us ++ z ∷ []) zs is' (omega arith) in
    elim (Bool-cases (is_eq (compared sh lnk z))) [
      | inl e ↦ (
        set_list_current z (counted sh),
        rw ((no_sentinel z us zs is).1, e),
        SameItems-position z sh,
      )
      | inr e ↦ (
        t,
        rw ((no_sentinel z us zs is).1, e, after) run,
        SameItems-trans (SameItems-counted sh) same,
      )
    ]

-- In a calm shell with no nodes the search ends with the first link whose data is equal, and with
-- NULL if there is none; the items stay as they are.
pub find_shell_item-plain :
    (lnk fuel : ℕ) (sh : Shell) (xs : List ℕ)
    → IsList sh.store sh.lh xs
    → sh.nodes.next sh.head ≡ sh.tail
    → IsCalm sh
    → length xs < fuel
    → Finds sh
        (first_equal sh.compare sh.store.data_of (sh.store.data_of lnk) xs)
        (find_shell_item fuel sh lnk)
unfolding find_shell_item find_ready
find_shell_item-plain lnk fuel sh xs is bare calm h =
    let ready = record sh { num_compares = 0 } in
    let (t, run, same) = find_plain-first_equal lnk fuel ready [] xs is h in
    let first : sh.store.next sh.lh.head ≡ follower xs sh.lh.tail = next_head xs is in
    (
      t,
      rw (balance-ok fuel sh calm, bare, ==_self, first) run,
      SameItems-trans (SameItems-ready sh) same,
    )
