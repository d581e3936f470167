-- ===== src/Shells/Add/Between.antt =====
-- The loops of `addShellItem` in a shell with no nodes, and where they insert.
use osdb_dcdb.Prelude.{
  ℕ, zero, suc, ◌+◌, ◌<◌, ◌≡◌, refl, Bool, true, false, ◌⊎◌, some, List, [], ◌∷◌, ◌++◌, arith, ◌==◌,
  ==_self, Bool-cases, if◌then◌else◌, is_lt, is_eq, length, last, last-append, inl, inr,
}
use mathlib.Core.Bool.{and-false}
use mathlib.Core.List.{append_assoc, append-nil}
use osdb_dcdb.Links.{ok, null, Store, ListHeader, insert_link_here}
use osdb_dcdb.Links.Chain.{IsList}
use osdb_dcdb.Links.Places.{follower, around, no_sentinel}
use osdb_dcdb.Links.Insert.{Inserted, IsOutside}
use osdb_dcdb.Links.Order.{Above, upto, beyond}
use osdb_dcdb.Links.Slow.{insert_behind-Inserted}
use osdb_dcdb.Shells.{
  Shell, compared, counted, outpoint, midpoint, first_of_supply, filled_node, insert_at,
}
use osdb_dcdb.Shells.Memory.{CanGrow, new_shell_node-ok}
use osdb_dcdb.Shells.Add.{Added, inserted, past_equal, add_equal_first, add_scan}

-- The call ends well, and has put the link between the two sequences of the list.
abbrev pub AddsBetween : ℕ → List ℕ → List ℕ → ListHeader → Store → Added → Type 0
AddsBetween lnk us vs lh s r =
    (t : Shell) × (r ≡ some (ok, t)) × Inserted lnk us vs lh s (ok, t.lh, t.store)

pub inserted-AddsBetween :
    (lnk place : ℕ) (us vs : List ℕ) (sh : Shell)
    → place ≡ last sh.lh.head us
    → IsList sh.store sh.lh (us ++ vs)
    → IsOutside lnk sh.lh (us ++ vs)
    → AddsBetween lnk us vs sh.lh sh.store (inserted place lnk sh)
unfolding insert_at insert_link_here
inserted-AddsBetween lnk place us vs sh e is out =
    let r = insert_behind-Inserted lnk us vs is out in
    (
      insert_at (last sh.lh.head us) lnk sh,
      rw e,
      record {
        returns = refl;
        holds = r.holds;
        current = r.current;
        same_head = r.same_head;
        same_tail = r.same_tail;
        same_type = r.same_type;
        same_compare = r.same_compare;
        same_data = r.same_data;
        same_freed = r.same_freed;
        elsewhere = r.elsewhere;
      },
    )

-- What the loop over equal links knows of the next link.
abbrev Tested : Shell → ℕ → Bool → List ℕ → Type 0
Tested sh lnk same [] = Unit
Tested sh lnk same (z ∷ zs) = same ≡ is_eq (compared sh lnk z)

Tested-follower :
    (sh : Shell) (lnk : ℕ) (zs : List ℕ)
    → Tested sh lnk (is_eq (compared sh lnk (follower zs sh.lh.tail))) zs
Tested-follower sh lnk [] = tt
Tested-follower sh lnk (z ∷ zs) = refl

past_equal-AddsBetween :
    (lnk fuel : ℕ) (same : Bool) (sh : Shell) (us : List ℕ) (w : ℕ) (zs : List ℕ)
    → IsList sh.store sh.lh (us ++ w ∷ zs)
    → IsOutside lnk sh.lh (us ++ w ∷ zs)
    → Above sh.compare sh.store.data_of (sh.store.data_of lnk) zs
    → Tested sh lnk same zs
    → length zs < fuel
    → AddsBetween lnk
        (us ++ w ∷ upto sh.compare sh.store.data_of (sh.store.data_of lnk) zs)
        (beyond sh.compare sh.store.data_of (sh.store.data_of lnk) zs)
        sh.lh
        sh.store
        (past_equal fuel lnk same w sh)
unfolding past_equal
past_equal-AddsBetween lnk zero same sh us w zs is out above t h = absurd (omega arith)
past_equal-AddsBetween lnk (suc fuel) same sh us w [] is out above t h =
    let end = (around w us [] is).1 in
    rw (end, ==_self, and-false same)
      (inserted-AddsBetween lnk w (us ++ w ∷ []) [] sh (rw last-append) (rw append-nil is)
        (rw (append-nil (us ++ w ∷ [])) out))
past_equal-AddsBetween lnk (suc fuel) same sh us w (z ∷ zs) is out above t h =
    let next = (around w us (z ∷ zs) is).1 in
    let is' : IsList sh.store sh.lh ((us ++ w ∷ []) ++ z ∷ zs) = rw append_assoc is in
    let out' : IsOutside lnk sh.lh ((us ++ w ∷ []) ++ z ∷ zs) =
      rw (append_assoc us (w ∷ []) (z ∷ zs)) out in
    let after = (around z (us ++ w ∷ []) zs is').1 in
    let more = (no_sentinel z (us ++ w ∷ []) zs is').1 in
    let again = is_eq (compared sh lnk (follower zs sh.lh.tail)) in
    elim (Bool-cases (is_eq (compared sh lnk z))) [
      | inl e ↦
          let lt : is_lt (compared sh lnk z) ≡ false = ground arith in
          let rest =
            past_equal-AddsBetween lnk fuel again (counted sh) (us ++ w ∷ []) z zs is' out' above.1
              (Tested-follower sh lnk zs) (omega arith) in
          rw (next, t, e, more, after, lt) (rw append_assoc at rest)
      | inr e ↦
          let lt : is_lt (compared sh lnk z) ≡ true = ground (arith, above.0) in
          rw (next, t, e, lt)
            (inserted-AddsBetween lnk w (us ++ w ∷ []) (z ∷ zs) sh (rw last-append) is' out')
    ]

-- No link has NULL for its data.
abbrev pub HasData : Store → List ℕ → Type 0
HasData s [] = Unit
HasData s (x ∷ xs) = ((s.data_of x == null) ≡ false) × HasData s xs

pub add_equal_first-AddsBetween :
    (lnk fuel : ℕ) (sh : Shell) (w : ℕ) (zs : List ℕ)
    → IsList sh.store sh.lh (w ∷ zs)
    → IsOutside lnk sh.lh (w ∷ zs)
    → Above sh.compare sh.store.data_of (sh.store.data_of lnk) zs
    → HasData sh.store zs
    → length zs < fuel
    → AddsBetween lnk
        (w ∷ upto sh.compare sh.store.data_of (sh.store.data_of lnk) zs)
        (beyond sh.compare sh.store.data_of (sh.store.data_of lnk) zs)
        sh.lh
        sh.store
        (add_equal_first fuel lnk w sh)
unfolding add_equal_first
add_equal_first-AddsBetween lnk fuel sh w [] is out above full h =
    elim (Bool-cases (sh.store.data_of sh.lh.tail == 0)) [
      | inl e ↦
          rw ((around w [] [] is).1, e)
            (past_equal-AddsBetween lnk fuel true sh [] w [] is out tt tt h)
      | inr e ↦
          rw ((around w [] [] is).1, e)
            (past_equal-AddsBetween lnk fuel (is_eq (compared sh lnk sh.lh.tail)) (counted sh) [] w
              [] is out tt tt h)
    ]
add_equal_first-AddsBetween lnk fuel sh w (z ∷ zs) is out above full h =
    rw ((around w [] (z ∷ zs) is).1, full.0)
      (past_equal-AddsBetween lnk fuel (is_eq (compared sh lnk z)) (counted sh) [] w (z ∷ zs) is out
        above refl h)

-- A sequence whose last link is greater than `lnk`.
abbrev pub EndsAbove : Shell → ℕ → List ℕ → Type 0
EndsAbove sh lnk [] = ⊥
EndsAbove sh lnk (z ∷ zs) = is_lt (compared sh lnk (last z zs)) ≡ true

EndsAbove-rest :
    (sh : Shell) (lnk z : ℕ) (zs : List ℕ)
    → EndsAbove sh lnk (z ∷ zs)
    → is_lt (compared sh lnk z) ≡ false
    → EndsAbove sh lnk zs
EndsAbove-rest sh lnk z [] above e = ground arith
EndsAbove-rest sh lnk z (y ∷ ys) above e = above

-- One round of the scan, which `rest` goes on.
scan_step-AddsBetween :
    (lnk : ℕ) (sh : Shell) (us : List ℕ) (z : ℕ) (zs : List ℕ) (rest : Added)
    → IsList sh.store sh.lh (us ++ z ∷ zs)
    → IsOutside lnk sh.lh (us ++ z ∷ zs)
    → (is_lt (compared sh lnk z) ≡ false
        → AddsBetween lnk
            ((us ++ z ∷ []) ++ upto sh.compare sh.store.data_of (sh.store.data_of lnk) zs)
            (beyond sh.compare sh.store.data_of (sh.store.data_of lnk) zs)
            sh.lh
            sh.store
            rest)
    → AddsBetween lnk
        (us ++ upto sh.compare sh.store.data_of (sh.store.data_of lnk) (z ∷ zs))
        (beyond sh.compare sh.store.data_of (sh.store.data_of lnk) (z ∷ zs))
        sh.lh
        sh.store
        (if is_lt (compared sh lnk z) then inserted (sh.store.prev z) lnk (counted sh) else rest)
scan_step-AddsBetween lnk sh us z zs rest is out go_on =
    elim (Bool-cases (is_lt (compared sh lnk z))) [
      | inl e ↦
          rw (e, append-nil)
            (inserted-AddsBetween lnk (sh.store.prev z) us (z ∷ zs) (counted sh)
              (around z us zs is).0 is out)
      | inr e ↦ rw e (rw append_assoc at (go_on e))
    ]

pub add_scan-AddsBetween :
    (lnk fuel mid count : ℕ) (sh : Shell) (us zs : List ℕ)
    → IsList sh.store sh.lh (us ++ zs)
    → IsOutside lnk sh.lh (us ++ zs)
    → EndsAbove sh lnk zs
    → (outpoint < count) ⊎ CanGrow sh
    → length zs < fuel
    → AddsBetween lnk
        (us ++ upto sh.compare sh.store.data_of (sh.store.data_of lnk) zs)
        (beyond sh.compare sh.store.data_of (sh.store.data_of lnk) zs)
        sh.lh
        sh.store
        (add_scan fuel lnk mid count (follower zs sh.lh.tail) sh)
unfolding add_scan
add_scan-AddsBetween lnk fuel mid count sh us [] is out above grow h = absurd above
add_scan-AddsBetween lnk zero mid count sh us (z ∷ zs) is out above grow h = absurd (omega arith)
add_scan-AddsBetween lnk (suc fuel) mid count sh us (z ∷ zs) is out above grow h =
    let mid' = if count == midpoint then z else mid in
    let more = (no_sentinel z us zs is).1 in
    let after = (around z us zs is).1 in
    let is' : IsList sh.store sh.lh ((us ++ z ∷ []) ++ zs) = rw append_assoc is in
    let out' : IsOutside lnk sh.lh ((us ++ z ∷ []) ++ zs) = rw (append_assoc us (z ∷ []) zs) out in
    elim (Bool-cases (count == outpoint)) [
      | inl e ↦
          let ready : CanGrow sh = elim grow [ inl o ↦ absurd (ground arith) | inr g ↦ g ] in
          let t = filled_node (first_of_supply sh.nodes.supply) sh.head sh.tail mid' sh in
          rw
            (
              more,
              e,
              new_shell_node-ok sh.head sh.tail mid' sh ready,
              e,
              new_shell_node-ok sh.head sh.tail mid' sh ready,
              after,
            )
            (scan_step-AddsBetween lnk t us z zs _ is out (λ not_below.
              add_scan-AddsBetween lnk fuel mid' (count + 1) (counted t) (us ++ z ∷ []) zs is' out'
                (EndsAbove-rest sh lnk z zs above not_below) (inl (ground arith)) (omega arith)))
      | inr e ↦
          rw (more, e, e, after)
            (scan_step-AddsBetween lnk sh us z zs _ is out (λ not_below.
              add_scan-AddsBetween lnk fuel mid' (count + 1) (counted sh) (us ++ z ∷ []) zs is' out'
                (EndsAbove-rest sh lnk z zs above not_below)
                (elim grow [ inl o ↦ inl (omega arith) | inr g ↦ inr g ]) (omega arith)))
    ]
