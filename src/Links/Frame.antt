-- ===== src/Links/Frame.antt =====
-- Lists that share a store: an operation that changes no field of a list's links leaves the list.
use osdb_dcdb.Prelude.{ℕ, ◌≡◌, ◌∙◌, true, List, [], ◌∷◌, ◌++◌, arith, has}
use osdb_dcdb.Links.{Store, ListHeader}
use osdb_dcdb.Links.Chain.{Linked, IsList}
use osdb_dcdb.Links.Insert.{SameAt}

pub SameAt-trans : {s t u : Store} (a : ℕ) → SameAt s t a → SameAt t u a → SameAt s u a
SameAt-trans a h h' = record {
  next = h'.next ∙ h.next;
  prev = h'.prev ∙ h.prev;
  data_of = h'.data_of ∙ h.data_of;
}

-- The fields at all these addresses are the same.
abbrev pub SameOn : Store → Store → List ℕ → Type 0
SameOn s t zs = (a : ℕ) → has a zs ≡ true → SameAt s t a

Linked-SameOn :
    (s t : Store) (a : ℕ) (xs : List ℕ) → SameOn s t (a ∷ xs) → Linked s a xs → Linked t a xs
Linked-SameOn s t a [] same l = tt
Linked-SameOn s t a (x ∷ xs) same l =
    let at_a = same a (ground arith) in
    let at_x = same x (ground arith) in
    (at_a.next ∙ l.0, at_x.prev ∙ l.1, Linked-SameOn s t x xs (λ b h. same b (ground arith)) l.2)

pub IsList-SameOn :
    {s t : Store} {lh : ListHeader} {xs : List ℕ}
    → IsList s lh xs
    → SameOn s t (lh.head ∷ xs ++ lh.tail ∷ [])
    → IsList t lh xs
IsList-SameOn {s} {t} {lh} {xs} is same = record {
  chain = Linked-SameOn s t lh.head (xs ++ lh.tail ∷ []) same is.chain;
  distinct = is.distinct;
  counted = is.counted;
}
