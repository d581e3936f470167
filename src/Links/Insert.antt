-- ===== src/Links/Insert.antt =====
-- `insertLinkHere` on the sequence that a list holds.
use osdb_dcdb.Prelude.{
  ℕ, ◌+◌, ◌%◌, ◌≡◌, refl, ◌⊎◌, inl, inr, false, List, [], ◌∷◌, ◌++◌, arith, ◌==◌, Bool-cases,
  ==_self, if◌then◌else◌, length-append, last, has, has-append, Distinct, Distinct-append,
  Distinct-insert, Distinct-last, Distinct-middle, ne-last,
}
use mathlib.Core.List.{append_assoc, append-nil}
use osdb_dcdb.Links.{Status, Store, ListHeader, size_mod, set_next, set_prev, ok, insert_link_here}
use osdb_dcdb.Links.Chain.{
  Linked, IsList, Linked-append, Linked-join, Linked-set_next, Linked-set_next-last,
  Linked-set_prev, next-place, prev-tail, tail-ne-last,
}

-- The four assignments, with `y` for what stood behind the place.
abbrev pub linked_in : ℕ → ℕ → ℕ → Store → Store
linked_in lnk link y s = set_next link lnk (set_prev y lnk (set_next lnk y (set_prev lnk link s)))

pub linked_in-Linked :
    (s : Store) (a lnk y : ℕ) (xs ys : List ℕ)
    → Linked s a (xs ++ y ∷ ys)
    → Distinct (a ∷ xs ++ y ∷ ys)
    → has lnk (a ∷ xs ++ y ∷ ys) ≡ false
    → Linked (linked_in lnk (last a xs) y s) a (xs ++ lnk ∷ y ∷ ys)
linked_in-Linked s a lnk y xs ys l d out =
    let (front, back) = Linked-append s a xs (y ∷ ys) l in
    let link = last a xs in
    let apart = Distinct-append (a ∷ xs) (y ∷ ys) d in
    let here : has link (y ∷ ys) ≡ false = Distinct-last a xs (y ∷ ys) d in
    let out_xs : has lnk (a ∷ xs) ≡ false = ground (arith, has-append lnk xs (y ∷ ys)) in
    let out_ys : has lnk (y ∷ ys) ≡ false = ground (arith, has-append lnk xs (y ∷ ys)) in
    let y_out : has y (a ∷ xs) ≡ false = (Distinct-middle y (a ∷ xs) ys d).0 in
    let ne : (lnk == link) ≡ false = ne-last lnk a xs out_xs in
    let s₁ = set_prev lnk link s in
    let s₂ = set_next lnk y s₁ in
    let s₃ = set_prev y lnk s₂ in
    let front₂ =
      Linked-set_next lnk y s₁ a xs out_xs (Linked-set_prev lnk link s a xs (ground arith) front) in
    let back₂ =
      Linked-set_next lnk y s₁ y ys out_ys
        (Linked-set_prev lnk link s y ys (ground arith) back.2) in
    Linked-join (linked_in lnk link y s) a xs (lnk ∷ y ∷ ys)
      (Linked-set_next-last lnk s₃ a xs apart.0
        (Linked-set_prev y lnk s₂ a xs (ground arith) front₂))
      (
        ground arith,
        ground arith,
        (
          ground arith,
          ground arith,
          Linked-set_next link lnk s₃ y ys here
              (Linked-set_prev y lnk s₂ y ys (Distinct-middle y (a ∷ xs) ys d).1 back₂),
        ),
      )

-- The fields at an address are the same in two stores.
pub record SameAt (s t : Store) (a : ℕ) : Type 0 where
  pub next : t.next a ≡ s.next a
  pub prev : t.prev a ≡ s.prev a
  pub data_of : t.data_of a ≡ s.data_of a

-- What an insertion of `lnk` between `xs` and `ys` returns and leaves.
pub record Inserted (lnk : ℕ) (xs ys : List ℕ) (lh : ListHeader) (s : Store)
    (r : Status × ListHeader × Store) : Type 0 where
  pub returns : r.0 ≡ ok
  pub holds : IsList r.2 r.1 (xs ++ lnk ∷ ys)
  pub current : r.1.current ≡ lnk
  pub same_head : r.1.head ≡ lh.head
  pub same_tail : r.1.tail ≡ lh.tail
  pub same_type : r.1.type ≡ lh.type
  pub same_compare : r.1.compare ≡ lh.compare
  pub same_data : r.2.data_of ≡ s.data_of
  pub same_freed : r.2.freed ≡ s.freed
  pub elsewhere :
      (a : ℕ) → has a (lnk ∷ lh.head ∷ (xs ++ ys) ++ lh.tail ∷ []) ≡ false → SameAt s r.2 a

-- The current link is the last of `xs`, or the head if there is none; or it is the tail.
abbrev pub StandsBehind : ListHeader → List ℕ → List ℕ → Type 0
StandsBehind lh xs ys = (lh.current ≡ last lh.head xs) ⊎ (lh.current ≡ lh.tail) × (ys ≡ [])

-- A link that is no part of the list.
abbrev pub IsOutside : ℕ → ListHeader → List ℕ → Type 0
IsOutside lnk lh xs = has lnk (lh.head ∷ xs ++ lh.tail ∷ []) ≡ false

-- The header that the insertion leaves.
abbrev entered : ℕ → ListHeader → ListHeader
entered lnk lh = record lh { number = (lh.number + 1) % size_mod; current = lnk }

insert_link_here-linked_in :
    (lh : ListHeader) (lnk link y : ℕ) (s : Store)
    → (if lh.current == lh.tail then s.prev lh.current else lh.current) ≡ link
    → s.next link ≡ y
    → insert_link_here lh lnk s ≡ (ok, entered lnk lh, linked_in lnk link y s)
unfolding insert_link_here
insert_link_here-linked_in lh lnk link y s e n = elim (Bool-cases (link == lnk)) [
  | inl same ↦ rw (e, n, same)
  | inr other ↦ rw (e, other, n)
]

linked_in-SameAt :
    (lnk link y a : ℕ) (s : Store)
    → (a == lnk) ≡ false
    → (a == link) ≡ false
    → (a == y) ≡ false
    → SameAt s (linked_in lnk link y s) a
linked_in-SameAt lnk link y a s h h' h'' = record {
  next = ground arith;
  prev = ground arith;
  data_of = refl;
}

module _ {s : Store} {lh : ListHeader} (lnk : ℕ) (xs ys : List ℕ) (is : IsList s lh (xs ++ ys))
    (out : IsOutside lnk lh (xs ++ ys)) where
  linked_in-Inserted :
      (y : ℕ) (rest : List ℕ)
      → ys ++ lh.tail ∷ [] ≡ y ∷ rest
      → Inserted lnk xs ys lh s (ok, entered lnk lh, linked_in lnk (last lh.head xs) y s)
  linked_in-Inserted y rest e =
      let d : Distinct (lh.head ∷ xs ++ (ys ++ lh.tail ∷ [])) = rw append_assoc at is.distinct in
      let o : has lnk (lh.head ∷ xs ++ (ys ++ lh.tail ∷ [])) ≡ false = rw append_assoc at out in
      let chain : Linked s lh.head (xs ++ (ys ++ lh.tail ∷ [])) = rw append_assoc at is.chain in
      record {
        returns = refl;
        holds = record {
          chain =
              rw (append_assoc, e)
                (linked_in-Linked s lh.head lnk y xs rest (rw e at chain) (rw e at d) (rw e at o));
          distinct = rw append_assoc (Distinct-insert lnk (lh.head ∷ xs) (ys ++ lh.tail ∷ []) o d);
          counted = omega (arith, is.counted, length-append xs ys, length-append xs (lnk ∷ ys));
        };
        current = refl;
        same_head = refl;
        same_tail = refl;
        same_type = refl;
        same_compare = refl;
        same_data = refl;
        same_freed = refl;
        elsewhere = λ a h.
            let in_ys : has a (ys ++ lh.tail ∷ []) ≡ false = ground (
              arith,
              has-append a xs ys,
              has-append a (xs ++ ys) (lh.tail ∷ []),
              has-append a ys (lh.tail ∷ []),
            ) in
            let in_xs : has a (lh.head ∷ xs) ≡ false =
              ground (arith, has-append a xs ys, has-append a (xs ++ ys) (lh.tail ∷ [])) in
            linked_in-SameAt lnk (last lh.head xs) y a s (ground arith) (ne-last a lh.head xs in_xs)
              (let at_y : has a (y ∷ rest) ≡ false = rw e at in_ys in ground arith);
      }

-- The insertion puts the link behind the place where the header stands.
pub insert_link_here-Inserted :
    {s : Store} {lh : ListHeader} (lnk : ℕ) (xs ys : List ℕ)
    → IsList s lh (xs ++ ys)
    → IsOutside lnk lh (xs ++ ys)
    → StandsBehind lh xs ys
    → Inserted lnk xs ys lh s (insert_link_here lh lnk s)
insert_link_here-Inserted {s} {lh} lnk xs ys is out place = split ys is out place
  where
    link : ℕ
    link = if lh.current == lh.tail then s.prev lh.current else lh.current

    stands : (zs : List ℕ) → IsList s lh (xs ++ zs) → StandsBehind lh xs zs → link ≡ last lh.head xs
    stands zs is (inl c) = rw (c, tail-ne-last xs zs is)
    stands zs is (inr (c, e)) =
        let whole : IsList s lh xs = rw (e, append-nil) at is in
        rw (c, ==_self) (prev-tail xs whole)

    split :
        (zs : List ℕ)
        → IsList s lh (xs ++ zs)
        → IsOutside lnk lh (xs ++ zs)
        → StandsBehind lh xs zs
        → Inserted lnk xs zs lh s (insert_link_here lh lnk s)
    split [] is out place =
        rw
          (insert_link_here-linked_in lh lnk _ _ s (stands [] is place)
            (next-place xs [] lh.tail [] is refl).0)
          (linked_in-Inserted lnk xs [] is out lh.tail [] refl)
    split (w ∷ ws) is out place =
        rw
          (insert_link_here-linked_in lh lnk _ _ s (stands (w ∷ ws) is place)
            (next-place xs (w ∷ ws) w (ws ++ lh.tail ∷ []) is refl).0)
          (linked_in-Inserted lnk xs (w ∷ ws) is out w (ws ++ lh.tail ∷ []) refl)
