-- ===== src/Blocks/Records.antt =====
-- lib/block.c: `blockToList` and `listToBlock` undo one another.
use osdb_dcdb.Prelude.{
  ℕ, zero, suc, ◌+◌, ◌*◌, ◌≡◌, refl, ap, ◌∙◌, false, some, List, [], ◌∷◌, ◌++◌, arith, ◌==◌, length,
  has, has-append, inl,
}
use mathlib.Core.List.{append_assoc, append-nil}
use osdb_dcdb.Blocks.Bytes.{read_at}
use osdb_dcdb.Blocks.Copies.{Heap, fill, set_data, new_link, copy_out}
use osdb_dcdb.Links.{
  Status, ok, Store, ListHeader, ListType, null, set_next, set_prev, last_link, insert_link,
}
use osdb_dcdb.Links.Chain.{Linked, IsList, Linked-set_next, Linked-set_prev, prev-tail}
use osdb_dcdb.Links.Frame.{SameAt-trans}
use osdb_dcdb.Links.Insert.{Inserted, IsOutside, SameAt}
use osdb_dcdb.Links.Laws.{insert_link-unsorted}
use osdb_dcdb.Links.Places.{standing_at, standing_at-IsList}

-- A buffer and the link that has it as its data.
abbrev pub Pair : Type 0
Pair = ℕ × ℕ

abbrev pub links : List Pair → List ℕ
links [] = []
links ((b, l) ∷ ps) = l ∷ links ps

abbrev pub buffers : List Pair → List ℕ
buffers [] = []
buffers ((b, l) ∷ ps) = b ∷ buffers ps

-- The addresses in the order in which they are allocated.
abbrev pub addresses : List Pair → List ℕ
addresses [] = []
addresses ((b, l) ∷ ps) = b ∷ l ∷ addresses ps

-- The records of a block from the number `i` on.
abbrev pub records : (size offset i n : ℕ) → List ℕ → List (List ℕ)
records size offset i zero blk = []
records size offset i (suc n) blk =
    read_at (offset + i * size) size blk ∷ records size offset (suc i) n blk

-- The links have these buffers with these bytes.
unfoldable pub Holds : Heap → List Pair → List (List ℕ) → Type 0
Holds h [] [] = Unit
Holds h ((b, l) ∷ ps) (t ∷ ts) = (h.store.data_of l ≡ b) × (h.contents b ≡ t) × Holds h ps ts
Holds h _ _ = ⊥

pub Linked-set_data :
    (p d : ℕ) (s : Store) (a : ℕ) (xs : List ℕ) → Linked s a xs → Linked (set_data p d s) a xs
Linked-set_data p d s a [] l = tt
Linked-set_data p d s a (x ∷ xs) l = (l.0, l.1, Linked-set_data p d s x xs l.2)

pub new_link-IsList :
    {s : Store} {lh : ListHeader} {xs : List ℕ} (lnk bp : ℕ)
    → IsList s lh xs
    → IsOutside lnk lh xs
    → IsList (new_link lnk bp s) lh xs
new_link-IsList {s} {lh} {xs} lnk bp is out = record {
  chain =
      Linked-set_data lnk bp (set_prev lnk null (set_next lnk null s)) lh.head (xs ++ lh.tail ∷ [])
        (Linked-set_prev lnk null (set_next lnk null s) lh.head (xs ++ lh.tail ∷ []) (ground arith)
          (Linked-set_next lnk null s lh.head (xs ++ lh.tail ∷ []) out is.chain));
  distinct = is.distinct;
  counted = is.counted;
}

-- Another link and another buffer do not touch what is there.
Holds-new :
    (h : Heap) (ps : List Pair) (ts : List (List ℕ)) (lnk bp : ℕ) (bytes : List ℕ) (s : Store)
    → Holds h ps ts
    → has lnk (links ps) ≡ false
    → has bp (buffers ps) ≡ false
    → s.data_of ≡ (new_link lnk bp h.store).data_of
    → Holds (record (fill bp bytes h) { store = s }) (ps ++ (bp, lnk) ∷ []) (ts ++ bytes ∷ [])
unfolding Holds
Holds-new h [] [] lnk bp bytes s hold out apart e = rw e (ground arith)
Holds-new h [] (t ∷ ts) lnk bp bytes s hold out apart e = absurd hold
Holds-new h (p ∷ ps) [] lnk bp bytes s hold out apart e = absurd hold
Holds-new h ((b, l) ∷ ps) (t ∷ ts) lnk bp bytes s hold out apart e =
    let rest = Holds-new h ps ts lnk bp bytes s hold.2 (ground arith) (ground arith) e in
    (ap (λ f. f l) e ∙ ground arith, ground arith, rest)

-- The pairs can be allocated one after the other, with others there.
unfoldable pub CanTake : (head tail : ℕ) → List Pair → List Pair → Type 0
CanTake head tail ds [] = Unit
CanTake head tail ds ((b, l) ∷ qs) =
    ((b == null) ≡ false)
    × ((l == null) ≡ false)
    × (has l (head ∷ links ds ++ tail ∷ []) ≡ false)
    × (has b (buffers ds) ≡ false)
    × CanTake head tail (ds ++ (b, l) ∷ []) qs

links-append : (ds qs : List Pair) → links (ds ++ qs) ≡ links ds ++ links qs
links-append [] qs = refl
links-append ((b, l) ∷ ds) qs = ap {B = List ℕ} (λ r. l ∷ r) (links-append ds qs)

has-links :
    (l head tail : ℕ) (ds : List Pair)
    → has l (head ∷ links ds ++ tail ∷ []) ≡ false
    → has l (links ds) ≡ false
has-links l head tail ds h = ground (arith, has-append l (links ds) (tail ∷ []))

-- The store after the insertion of one more link.
one_more :
    (s : Store) (lh : ListHeader) (xs : List ℕ) (lnk bp : ℕ)
    → IsList s lh xs
    → IsOutside lnk lh xs
    → lh.type ≡ ListType.unsorted
    → let t = new_link lnk bp s in
      (r : Status × ListHeader × Store) × (insert_link 1 (last_link lh t).1 lnk t ≡ some r)
      × Inserted lnk xs [] (last_link lh t).1 t r
unfolding last_link
one_more s lh xs lnk bp is out unsorted =
    let t = new_link lnk bp s in
    let is' = new_link-IsList lnk bp is out in
    insert_link-unsorted t (standing_at lh (t.prev lh.tail)) lnk 1 xs []
      (rw (append-nil xs) (standing_at-IsList (t.prev lh.tail) is')) (rw (append-nil xs) out)
      (inl (prev-tail xs is')) unsorted

pub new_link-SameAt :
    (lnk bp a : ℕ) (s : Store) → (a == lnk) ≡ false → SameAt s (new_link lnk bp s) a
new_link-SameAt lnk bp a s h = record {
  next = ground arith;
  prev = ground arith;
  data_of = ground arith;
}

not_among :
    (a head tail l b : ℕ) (ds qs : List Pair)
    → has a (head ∷ links (ds ++ (b, l) ∷ qs) ++ tail ∷ []) ≡ false
    → ((a == l) ≡ false) × (has a (l ∷ head ∷ (links ds ++ []) ++ tail ∷ []) ≡ false)
not_among a head tail l b ds qs out = ground (
  arith,
  rw links-append at out,
  has-append a (links ds ++ l ∷ links qs) (tail ∷ []),
  has-append a (links ds) (l ∷ links qs),
  has-append a (links ds ++ []) (tail ∷ []),
  has-append a (links ds) [],
)

-- What a run of copies leaves.
pub record CopiesOut (blk : List ℕ) (size offset i : ℕ) (ds qs : List Pair) (ts : List (List ℕ))
    (lh : ListHeader) (h : Heap) (more : List ℕ) (r : ListHeader × Heap) : Type 0 where
  pub holds : IsList r.1.store r.0 (links (ds ++ qs))
  pub copies : Holds r.1 (ds ++ qs) (ts ++ records size offset i (length qs) blk)
  pub same_head : r.0.head ≡ lh.head
  pub same_tail : r.0.tail ≡ lh.tail
  pub left : r.1.supply ≡ more
  pub elsewhere :
      (a : ℕ)
      → has a (lh.head ∷ links (ds ++ qs) ++ lh.tail ∷ []) ≡ false
      → SameAt h.store r.1.store a

pub copy_out-CopiesOut :
    (blk : List ℕ) (size offset i : ℕ) (ds qs : List Pair) (ts : List (List ℕ)) (lh : ListHeader)
    (h : Heap) (more : List ℕ)
    → IsList h.store lh (links ds)
    → Holds h ds ts
    → lh.type ≡ ListType.unsorted
    → h.supply ≡ addresses qs ++ more
    → CanTake lh.head lh.tail ds qs
    → (r : ListHeader × Heap) × (copy_out blk size offset i (length qs) lh h ≡ some (ok, r.0, r.1))
      × CopiesOut blk size offset i ds qs ts lh h more r
unfolding copy_out CanTake Holds last_link
copy_out-CopiesOut blk size offset i ds [] ts lh h more is hold unsorted supply can = (
  (lh, h),
  refl,
  record {
    holds = rw (append-nil ds) is;
    copies = rw (append-nil ds, append-nil ts) hold;
    same_head = refl;
    same_tail = refl;
    left = supply;
    elsewhere = λ a out. record { next = refl; prev = refl; data_of = refl };
  },
)
copy_out-CopiesOut blk size offset i ds ((b, l) ∷ qs) ts lh h more is hold unsorted supply can =
    let bytes = read_at (offset + i * size) size blk in
    let (r, run, ins) = one_more h.store lh (links ds) l b is can.2 unsorted in
    let h' = record (fill b bytes h) { store = r.2; supply = addresses qs ++ more } in
    let (out, run', rest) =
      copy_out-CopiesOut blk size offset (suc i) (ds ++ (b, l) ∷ []) qs (ts ++ bytes ∷ []) r.1 h'
        more (rw links-append ins.holds)
        (Holds-new (record h { supply = addresses qs ++ more }) ds ts l b bytes r.2 hold
          (has-links l lh.head lh.tail ds can.2) can.3 ins.same_data)
        (ins.same_type ∙ unsorted) refl (rw (ins.same_head, ins.same_tail) can.4) in
    (
      out,
      rw (supply, can.0, can.1, run) run',
      record {
        holds = rw append_assoc at rest.holds;
        copies = rw (append_assoc, append_assoc) at rest.copies;
        same_head = rest.same_head ∙ ins.same_head;
        same_tail = rest.same_tail ∙ ins.same_tail;
        left = rest.left;
        elsewhere = λ a out.
            let apart = not_among a lh.head lh.tail l b ds qs out in
            SameAt-trans a (new_link-SameAt l b a h.store apart.0) (
              SameAt-trans a (ins.elsewhere a apart.1)
                (rest.elsewhere a (rw (ins.same_head, ins.same_tail, append_assoc) out)));
      },
    )
