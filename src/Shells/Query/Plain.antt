-- ===== src/Shells/Query/Plain.antt =====
-- `queryShellItem` in a shell with no nodes.
use osdb_dcdb.Prelude.{
  ℕ, zero, suc, ◌<◌, ◌≡◌, refl, false, Option, none, some, List, [], ◌∷◌, ◌++◌, arith, ◌==◌,
  ==_self, Bool-cases, if◌then◌else◌, is_lt, is_eq, length, last, last-append, inl, inr, has,
  has-append, ne-last, length-append,
}
use mathlib.Core.List.{append_assoc, append-nil}
use osdb_dcdb.Links.{null, Compare}
use osdb_dcdb.Links.Chain.{IsList, prev-tail}
use osdb_dcdb.Links.Places.{follower, around, no_sentinel, next_head}
use osdb_dcdb.Shells.{Shell, compared, counted, set_list_current}
use osdb_dcdb.Shells.Query.{query_plain, query_ready, query_shell_item, before_greater}
use osdb_dcdb.Shells.Search.Plain.{
  IsCalm, balance-ok, Finds, SameItems-refl, SameItems-counted, SameItems-position, SameItems-ready,
  SameItems-trans,
}

-- The link to go on from: the first with data equal to `d`, else the last before the first greater
-- one, else the first; `before` is the link before the sequence.
unfoldable pub closest : Compare → (ℕ → ℕ) → ℕ → Option ℕ → List ℕ → ℕ
closest cmp dat d none [] = null
closest cmp dat d (some b) [] = b
closest cmp dat d before (x ∷ xs) =
    let greater : ℕ = elim before [ none ↦ x | some b ↦ b ] in
    if is_eq (cmp d (dat x))
    then x
    else if is_lt (cmp d (dat x))
    then greater
    else closest cmp dat d (some x) xs

abbrev last_of : List ℕ → Option ℕ
last_of [] = none
last_of (x ∷ xs) = some (last x xs)

last_of-end : (us : List ℕ) (z : ℕ) → last_of (us ++ z ∷ []) ≡ some z
last_of-end [] z = refl
last_of-end (u ∷ us) z = rw last-append

before_greater-last_of :
    (sh : Shell) (us : List ℕ) (z : ℕ) (zs : List ℕ)
    → IsList sh.store sh.lh (us ++ z ∷ zs)
    → before_greater z sh ≡ elim (last_of us) [ none ↦ z | some b ↦ b ]
before_greater-last_of sh [] z zs is = rw ((around z [] zs is).0, ==_self)
before_greater-last_of sh (u ∷ us) z zs is =
    let out : has sh.lh.head (u ∷ us) ≡ false = ground (
      arith,
      is.distinct.0,
      has-append sh.lh.head (u ∷ us ++ z ∷ zs) (sh.lh.tail ∷ []),
      has-append sh.lh.head (u ∷ us) (z ∷ zs),
    ) in
    let other = ne-last sh.lh.head u us out in
    let apart : (last u us == sh.lh.head) ≡ false = ground arith in
    rw ((around z (u ∷ us) zs is).0, apart)

query_plain-closest :
    (lnk fuel : ℕ) (sh : Shell) (us zs : List ℕ)
    → IsList sh.store sh.lh (us ++ zs)
    → length zs < fuel
    → 0 < length (us ++ zs)
    → Finds sh
        (closest sh.compare sh.store.data_of (sh.store.data_of lnk) (last_of us) zs)
        (query_plain fuel lnk (follower zs sh.lh.tail) sh)
unfolding query_plain closest
query_plain-closest lnk zero sh us zs is h some_link = absurd (omega arith)
query_plain-closest lnk (suc fuel) sh [] [] is h some_link = absurd (omega arith)
query_plain-closest lnk (suc fuel) sh (u ∷ us) [] is h some_link =
    let whole : IsList sh.store sh.lh (u ∷ us) = rw (append-nil (u ∷ us)) at is in
    (sh, rw (==_self, prev-tail (u ∷ us) whole), SameItems-refl sh)
query_plain-closest lnk (suc fuel) sh us (z ∷ zs) is h some_link =
    let more = (no_sentinel z us zs is).1 in
    let after = (around z us zs is).1 in
    let is' : IsList sh.store sh.lh ((us ++ z ∷ []) ++ zs) = rw append_assoc is in
    let (t, run, same) =
      query_plain-closest lnk fuel (counted sh) (us ++ z ∷ []) zs is' (omega arith)
        (omega (arith, length-append (us ++ z ∷ []) zs, length-append us (z ∷ []))) in
    elim (Bool-cases (is_eq (compared sh lnk z))) [
      | inl e ↦ (set_list_current z (counted sh), rw (more, e), SameItems-position z sh)
      | inr ne ↦ elim (Bool-cases (is_lt (compared sh lnk z))) [
        | inl e ↦ (
          counted sh,
          rw (more, ne, e, before_greater-last_of sh us z zs is),
          SameItems-counted sh,
        )
        | inr ge ↦ (
          t,
          rw (more, ne, ge, after) (rw (last_of-end us z) at run),
          SameItems-trans (SameItems-counted sh) same,
        )
      ]
    ]

-- In a calm shell with no nodes over a list that is not empty, in whatever order it is, and with
-- fuel above its length, the query ends with the link that `closest` names; the items stay as they
-- are.
pub query_shell_item-plain :
    (lnk fuel : ℕ) (sh : Shell) (x : ℕ) (xs : List ℕ)
    → IsList sh.store sh.lh (x ∷ xs)
    → sh.nodes.next sh.head ≡ sh.tail
    → IsCalm sh
    → length (x ∷ xs) < fuel
    → Finds sh
        (closest sh.compare sh.store.data_of (sh.store.data_of lnk) none (x ∷ xs))
        (query_shell_item fuel sh lnk)
unfolding query_shell_item query_ready
query_shell_item-plain lnk fuel sh x xs is bare calm h =
    let ready = record sh { num_compares = 0 } in
    let (t, run, same) = query_plain-closest lnk fuel ready [] (x ∷ xs) is h (omega arith) in
    let first : sh.store.next sh.lh.head ≡ x = next_head (x ∷ xs) is in
    let more = (no_sentinel x [] xs is).1 in
    (
      t,
      rw (balance-ok fuel sh calm, bare, ==_self, first, more) run,
      SameItems-trans (SameItems-ready sh) same,
    )
