-- ===== src/Cache/Hits.antt =====
-- lib/idxblk.c, `getIndexBlock`: a block that is in memory becomes the last in use.
use osdb_dcdb.Prelude.{
  ℕ, zero, suc, ◌+◌, ◌≤◌, ◌<◌, ◌≡◌, refl, ap, ◌∙◌, true, false, Option, some, List, [], ◌∷◌, ◌++◌,
  arith, ◌==◌, ==_self, length, last, last-append, has, has-append, Distinct-middle, inl,
}
use mathlib.Core.List.{append_assoc, append-nil}
use osdb_dcdb.Cache.{DbIndex, with_store, find_back, hit, get_index_block}
use osdb_dcdb.Links.{Store, ListHeader, ListType, null, is_empty_list, remove_link}
use osdb_dcdb.Links.Chain.{IsList, prev-tail}
use osdb_dcdb.Links.Depart.{remove_link-current}
use osdb_dcdb.Links.Frame.{SameAt-trans}
use osdb_dcdb.Links.Insert.{IsOutside, SameAt}
use osdb_dcdb.Links.Laws.{insert_link-end}
use osdb_dcdb.Links.Places.{around, no_sentinel, not_empty}

-- The link of the last block with a number, in a list given from its end.
abbrev pub number_at : DbIndex → ℕ → ℕ
number_at idx l = (idx.blocks (idx.heap.store.data_of l)).block_number

-- None of these links has the block.
abbrev pub Lack : DbIndex → ℕ → List ℕ → Type 0
Lack idx n [] = Unit
Lack idx n (l ∷ ls) = ((number_at idx l == n) ≡ false) × Lack idx n ls

-- The walk back over links without the block comes to the one that has it.
abbrev more : List ℕ → ℕ → ℕ
more [] k = k
more (y ∷ ys) k = more ys (suc k)

positive : (k : ℕ) → 0 < k → (j : ℕ) × (k ≡ suc j)
positive zero h = absurd (omega arith)
positive (suc k) h = (k, refl)

more-split :
    (ys : List ℕ) (fuel : ℕ)
    → length ys ≤ fuel
    → (k : ℕ) × (fuel ≡ more ys k) × (fuel ≡ length ys + k)
more-split [] fuel h = (fuel, refl, omega arith)
more-split (y ∷ ys) zero h = absurd (omega arith)
more-split (y ∷ ys) (suc fuel) h =
    let (k, e, sum) = more-split ys (suc fuel) (omega arith) in
    let (j, e') = positive k (omega (arith, sum, h)) in
    (j, e ∙ ap (more ys) e', omega (arith, sum, e'))

module _ (idx : DbIndex) (n : ℕ) where
  abbrev walk : ℕ → ℕ → Option ℕ
  walk fuel lnk = find_back fuel idx.heap.store idx.blocks idx.used.head n lnk

  pass :
      (xs ys zs : List ℕ) (k : ℕ)
      → IsList idx.heap.store idx.used (xs ++ (ys ++ zs))
      → Lack idx n ys
      → walk (more ys k) (last (last idx.used.head xs) ys) ≡ walk k (last idx.used.head xs)
  unfolding find_back
  pass xs [] zs k is lack = refl
  pass xs (y ∷ ys) zs k is lack =
      let is' : IsList idx.heap.store idx.used ((xs ++ y ∷ []) ++ (ys ++ zs)) =
        rw append_assoc is in
      let later = pass (xs ++ y ∷ []) ys zs (suc k) is' lack.1 in
      let before = (around y xs (ys ++ zs) is).0 in
      let no_head = (no_sentinel y xs (ys ++ zs) is).0 in
      rw (last-append idx.used.head y xs []) at later ∙ rw (no_head, lack.0, before) refl

  -- The last link that has the block.
  find_back-found :
      (xs ys : List ℕ) (l fuel : ℕ)
      → IsList idx.heap.store idx.used (xs ++ l ∷ ys)
      → Lack idx n ys
      → (number_at idx l == n) ≡ true
      → length ys < fuel
      → walk fuel (idx.heap.store.prev idx.used.tail) ≡ some l
  unfolding find_back
  find_back-found xs ys l fuel is lack here enough =
      let (k, e, sum) = more-split ys fuel (omega (arith, enough)) in
      let (j, e') = positive k (omega (arith, enough, sum)) in
      let is' : IsList idx.heap.store idx.used ((xs ++ l ∷ []) ++ (ys ++ [])) =
        rw (append_assoc, append-nil) is in
      let at_end : idx.heap.store.prev idx.used.tail ≡ last l ys =
        prev-tail (xs ++ l ∷ ys) is ∙ last-append idx.used.head l xs ys in
      let passed =
        rw (last-append idx.used.head l xs []) at (pass (xs ++ l ∷ []) ys [] k is' lack) in
      let no_head = (no_sentinel l xs ys is).0 in
      rw (at_end, e) (passed ∙ rw (e', no_head, here) refl)

  -- No link has it: the walk ends at the head.
  pub find_back-missing :
      (xs : List ℕ) (fuel : ℕ)
      → IsList idx.heap.store idx.used xs
      → Lack idx n xs
      → length xs < fuel
      → walk fuel (idx.heap.store.prev idx.used.tail) ≡ some idx.used.head
  unfolding find_back
  find_back-missing xs fuel is lack enough =
      let (k, e, sum) = more-split xs fuel (omega (arith, enough)) in
      let (j, e') = positive k (omega (arith, enough, sum)) in
      let passed = pass [] xs [] k (rw append-nil is) lack in
      rw (prev-tail xs is, e) (passed ∙ rw (e', ==_self idx.used.head) refl)

-- What a call leaves that found the block at the link `l`, between `xs` and `ys`.
pub record Hit (idx : DbIndex) (l : ℕ) (xs ys : List ℕ) (r : DbIndex) : Type 0 where
  pub holds : IsList r.heap.store r.used ((xs ++ ys) ++ l ∷ [])
  pub queue : r.used.type ≡ ListType.queued
  pub same_data : r.heap.store.data_of ≡ idx.heap.store.data_of
  pub same_blocks : r.blocks ≡ idx.blocks
  pub same_file : r.file ≡ idx.file
  pub same_rest : r ≡ record idx { used = r.used; heap = record idx.heap { store = r.heap.store } }
  pub same_head : r.used.head ≡ idx.used.head
  pub same_tail : r.used.tail ≡ idx.used.tail
  pub elsewhere :
      (a : ℕ) → IsOutside a idx.used (xs ++ l ∷ ys) → SameAt idx.heap.store r.heap.store a

pub IsOutside-removed :
    (s : Store) (lh : ListHeader) (l : ℕ) (xs ys : List ℕ)
    → IsList s lh (xs ++ l ∷ ys)
    → IsOutside l lh (xs ++ ys)
IsOutside-removed s lh l xs ys is =
    let d =
      Distinct-middle l (lh.head ∷ xs) (ys ++ lh.tail ∷ []) (rw append_assoc at is.distinct) in
    ground (
      arith,
      has-append l xs ys,
      has-append l (xs ++ ys) (lh.tail ∷ []),
      has-append l ys (lh.tail ∷ []),
      d.0,
      d.1,
    )

not_moved :
    (a l head tail : ℕ) (xs ys : List ℕ)
    → has a (head ∷ (xs ++ l ∷ ys) ++ tail ∷ []) ≡ false
    → has a (l ∷ head ∷ (xs ++ ys) ++ tail ∷ []) ≡ false
not_moved a l head tail xs ys h = ground (
  arith,
  has-append a xs (l ∷ ys),
  has-append a (xs ++ l ∷ ys) (tail ∷ []),
  has-append a xs ys,
  has-append a (xs ++ ys) (tail ∷ []),
)

hit-Hit :
    (fuel : ℕ) (idx : DbIndex) (l : ℕ) (xs ys : List ℕ)
    → IsList idx.heap.store idx.used (xs ++ l ∷ ys)
    → (l == null) ≡ false
    → (r : DbIndex) × (hit fuel l idx ≡ some (idx.heap.store.data_of l, r)) × Hit idx l xs ys r
unfolding hit
hit-Hit fuel idx l xs ys is real =
    let s = idx.heap.store in
    let lh = record idx.used { type = ListType.unsorted; current = l } in
    let is' : IsList s lh (xs ++ l ∷ ys) = record {
      chain = is.chain;
      distinct = is.distinct;
      counted = is.counted;
    } in
    let gone = remove_link-current l xs ys is' tt (inl refl) in
    let t = (remove_link lh s).2 in
    let queue = record (remove_link lh s).1 { type = ListType.queued } in
    let holds : IsList t queue (xs ++ ys) = record {
      chain = gone.holds.chain;
      distinct = gone.holds.distinct;
      counted = gone.holds.counted;
    } in
    let out : IsOutside l queue (xs ++ ys) =
      rw (gone.same_head, gone.same_tail) (IsOutside-removed s idx.used l xs ys is) in
    let (r, run, ins) = insert_link-end t queue l fuel (xs ++ ys) holds out (inl refl) in
    (
      with_store r.2 (record idx { used = r.1 }),
      rw (gone.returns, real, run, gone.same_data) refl,
      record {
        holds = ins.holds;
        queue = ins.same_type;
        same_data = ins.same_data ∙ gone.same_data;
        same_blocks = refl;
        same_file = refl;
        same_rest = refl;
        same_head = ins.same_head ∙ gone.same_head;
        same_tail = ins.same_tail ∙ gone.same_tail;
        elsewhere = λ a h. SameAt-trans a (gone.elsewhere a h) (
            ins.elsewhere a (
              rw (append-nil (xs ++ ys), gone.same_head, gone.same_tail)
                (not_moved a l idx.used.head idx.used.tail xs ys h)));
      },
    )

-- A block that is in memory is returned, and its link becomes the last in use; nothing else
-- changes.
pub get_index_block-Hit :
    (fuel : ℕ) (idx : DbIndex) (n l : ℕ) (xs ys : List ℕ)
    → IsList idx.heap.store idx.used (xs ++ l ∷ ys)
    → (l == null) ≡ false
    → (number_at idx l == n) ≡ true
    → Lack idx n ys
    → length ys < fuel
    → (r : DbIndex) × (get_index_block fuel idx n ≡ some (idx.heap.store.data_of l, r))
      × Hit idx l xs ys r
unfolding get_index_block is_empty_list
get_index_block-Hit fuel idx n l xs ys is real here lack enough =
    let (r, run, done) = hit-Hit fuel idx l xs ys is real in
    let some_link = not_empty l xs ys is in
    let no_head = (no_sentinel l xs ys is).0 in
    (r, rw (some_link, find_back-found idx n xs ys l fuel is lack here enough, no_head) run, done)
