-- ===== src/Links/Remove.antt =====
-- `removeLink` on the sequence that a list holds.
use mathlib.Core.List.{append_assoc}
use osdb_dcdb.Prelude.{
  ℕ, ◌%◌, ◌≡◌, refl, false, List, [], ◌∷◌, ◌++◌, arith, ◌==◌, length, length-append, last, has,
  has-append, Distinct, Distinct-append, Distinct-last, Distinct-middle, ne-last, some,
}
use osdb_dcdb.Links.{
  Store, ListHeader, size_mod, null, set_next, set_prev, unlink, remove_only, remove_departing,
  decrement,
}
use osdb_dcdb.Links.Insert.{SameAt}
use osdb_dcdb.Links.Chain.{
  Linked, IsList, Linked-append, Linked-join, Linked-set_next, Linked-set_next-last,
  Linked-set_prev,
}

-- The four assignments, with `link` before and `y` behind the link that goes.
abbrev linked_out : ℕ → ℕ → ℕ → Store → Store
linked_out x link y s = set_next x null (set_prev x null (set_prev y link (set_next link y s)))

linked_out-Linked :
    (s : Store) (a x y : ℕ) (xs ys : List ℕ)
    → Linked s a (xs ++ x ∷ y ∷ ys)
    → Distinct (a ∷ xs ++ x ∷ y ∷ ys)
    → Linked (linked_out x (last a xs) y s) a (xs ++ y ∷ ys)
linked_out-Linked s a x y xs ys l d =
    let (front, back) = Linked-append s a xs (x ∷ y ∷ ys) l in
    let link = last a xs in
    let (x_front, x_back, d') = Distinct-middle x (a ∷ xs) (y ∷ ys) d in
    let apart = Distinct-append (a ∷ xs) (y ∷ ys) d' in
    let (y_front, y_back, _) = Distinct-middle y (a ∷ xs) ys d' in
    let here : has link (y ∷ ys) ≡ false = Distinct-last a xs (y ∷ ys) d' in
    let ne : (x == link) ≡ false = ne-last x a xs x_front in
    let s₁ = set_next link y s in
    let s₂ = set_prev y link s₁ in
    let s₃ = set_prev x null s₂ in
    let front₃ = Linked-set_prev x null s₂ a xs (ground arith) (
      Linked-set_prev y link s₁ a xs (ground arith)
        (Linked-set_next-last y s a xs apart.0 front)) in
    let back₃ =
      Linked-set_prev x null s₂ y ys (ground arith)
        (Linked-set_prev y link s₁ y ys y_back (Linked-set_next link y s y ys here back.2.2)) in
    Linked-join (linked_out x link y s) a xs (y ∷ ys)
      (Linked-set_next x null s₃ a xs x_front front₃)
      (ground arith, ground arith, Linked-set_next x null s₃ y ys x_back back₃)

-- Only the link that goes and its neighbours change.
linked_out-SameAt :
    (x link y a : ℕ) (s : Store)
    → (a == x) ≡ false
    → (a == link) ≡ false
    → (a == y) ≡ false
    → SameAt s (linked_out x link y s) a
linked_out-SameAt x link y a s at_x at_link at_y = record {
  next = rw (at_x, at_link) refl;
  prev = rw (at_x, at_y) refl;
  data_of = refl;
}

unlink-linked_out :
    (x link y : ℕ) (s : Store)
    → s.prev x ≡ link
    → s.next x ≡ y
    → (x == link) ≡ false
    → unlink x s ≡ linked_out x link y s
unfolding unlink
unlink-linked_out x link y s p n ne = rw (p, n, ne)

split_has :
    (a head tail x : ℕ) (xs ys : List ℕ)
    → has a (head ∷ (xs ++ x ∷ ys) ++ tail ∷ []) ≡ false
    → (has a (head ∷ xs) ≡ false) × ((a == x) ≡ false) × (has a (ys ++ tail ∷ []) ≡ false)
split_has a head tail x xs ys h = ground (
  arith,
  has-append a xs (x ∷ ys),
  has-append a (xs ++ x ∷ ys) (tail ∷ []),
  has-append a ys (tail ∷ []),
)

-- What the removal of `x` from between `xs` and `ys` returns and leaves.
pub record Removed (x : ℕ) (xs ys : List ℕ) (c : ℕ) (lh : ListHeader) (s : Store)
    (r : ℕ × ListHeader × Store) : Type 0 where
  pub returns : r.0 ≡ x
  pub holds : IsList r.2 r.1 (xs ++ ys)
  pub current : r.1.current ≡ c
  pub same_head : r.1.head ≡ lh.head
  pub same_tail : r.1.tail ≡ lh.tail
  pub same_type : r.1.type ≡ lh.type
  pub same_compare : r.1.compare ≡ lh.compare
  pub same_data : r.2.data_of ≡ s.data_of
  pub same_freed : r.2.freed ≡ s.freed
  pub elsewhere :
      (a : ℕ) → has a (lh.head ∷ (xs ++ x ∷ ys) ++ lh.tail ∷ []) ≡ false → SameAt s r.2 a

module _ {s : Store} {lh : ListHeader} (x : ℕ) (xs ys : List ℕ)
    (is : IsList s lh (xs ++ x ∷ ys)) where
  -- One link less, modulo the width of the counter.
  decrement-length : decrement lh ≡ length (xs ++ ys) % size_mod
  decrement-length = omega (arith, is.counted, length-append xs ys, length-append xs (x ∷ ys))

  pub departing-Removed :
      (c y : ℕ) (rest : List ℕ)
      → ys ++ lh.tail ∷ [] ≡ y ∷ rest
      → Removed x xs ys c lh s (remove_departing lh s (some (x, c)))
  unfolding remove_departing
  departing-Removed c y rest e =
      let d : Distinct (lh.head ∷ xs ++ (x ∷ ys ++ lh.tail ∷ [])) =
        rw append_assoc at is.distinct in
      let chain : Linked s lh.head (xs ++ (x ∷ ys ++ lh.tail ∷ [])) = rw append_assoc at is.chain in
      let (x_front, x_back, d') = Distinct-middle x (lh.head ∷ xs) (ys ++ lh.tail ∷ []) d in
      let (_, r) = Linked-append s lh.head xs (x ∷ ys ++ lh.tail ∷ []) chain in
      let r' : Linked s (last lh.head xs) (x ∷ y ∷ rest) = rw e at r in
      rw (unlink-linked_out x (last lh.head xs) y s r'.1 r'.2.0 (ne-last x lh.head xs x_front))
        record {
          returns = refl;
          holds = record {
            chain =
                rw (append_assoc, e)
                  (linked_out-Linked s lh.head x y xs rest (rw e at chain) (rw e at d));
            distinct = rw append_assoc d';
            counted = decrement-length;
          };
          current = refl;
          same_head = refl;
          same_tail = refl;
          same_type = refl;
          same_compare = refl;
          same_data = refl;
          same_freed = refl;
          elsewhere = λ a h.
              let (in_xs, at_x, in_ys) = split_has a lh.head lh.tail x xs ys h in
              linked_out-SameAt x (last lh.head xs) y a s at_x (ne-last a lh.head xs in_xs)
                (let at_y : has a (y ∷ rest) ≡ false = rw e at in_ys in ground arith);
        }

pub only-Removed :
    {s : Store} {lh : ListHeader} (x : ℕ)
    → IsList s lh (x ∷ [])
    → lh.current ≡ x
    → Removed x [] [] lh.head lh s (remove_only lh s)
unfolding remove_only
only-Removed x is c = record {
  returns = c;
  holds = record {
    chain = ground arith;
    distinct = ground arith;
    counted = decrement-length x [] [] is;
  };
  current = refl;
  same_head = refl;
  same_tail = refl;
  same_type = refl;
  same_compare = refl;
  same_data = refl;
  same_freed = refl;
  elsewhere = λ a h. record { next = ground arith; prev = ground arith; data_of = refl };
}
