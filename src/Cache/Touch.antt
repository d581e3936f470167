-- ===== src/Cache/Touch.antt =====
-- lib/idxblk.c: what a call of `getIndexBlock` leaves for a block that is in memory.
use osdb_dcdb.Prelude.{
  ℕ, suc, ◌<◌, ◌≡◌, refl, ap, sym, ◌∙◌, true, false, some, List, [], ◌∷◌, ◌++◌, arith, ◌==◌, ==_iff,
  ==_self, Bool-cases, length, length-append, has, has-append, Distinct, Distinct-insert, inl, inr,
  if◌then◌else◌,
}
use mathlib.Core.List.{append-nil}
use osdb_dcdb.Cache.{DbIndex, get_index_block}
use osdb_dcdb.Cache.Hits.{number_at, Lack, get_index_block-Hit}
use osdb_dcdb.Links.{null}
use osdb_dcdb.Links.Insert.{IsOutside, SameAt}
use osdb_dcdb.Links.Chain.{IsList}

-- The numbers of the blocks at these links.
abbrev pub numbers : DbIndex → List ℕ → List ℕ
numbers idx [] = []
numbers idx (l ∷ ls) = number_at idx l ∷ numbers idx ls

-- The links in use, each block once.
pub record Uses (idx : DbIndex) (order : List ℕ) : Type 0 where
  pub links : List ℕ
  pub holds : IsList idx.heap.store idx.used links
  pub real : has null links ≡ false
  pub named : numbers idx links ≡ order

-- The abstract cache: a number that is used goes to the end of the order.
abbrev pub without : ℕ → List ℕ → List ℕ
without n [] = []
without n (m ∷ ms) = if n == m then ms else m ∷ without n ms

abbrev pub touch : ℕ → List ℕ → List ℕ
touch n order = without n order ++ n ∷ []

Lack-of_has : (idx : DbIndex) (n : ℕ) (ls : List ℕ) → has n (numbers idx ls) ≡ false → Lack idx n ls
Lack-of_has idx n [] h = tt
Lack-of_has idx n (l ∷ ls) h = (ground arith, Lack-of_has idx n ls (ground arith))

numbers-append :
    (idx : DbIndex) (xs ys : List ℕ) → numbers idx (xs ++ ys) ≡ numbers idx xs ++ numbers idx ys
numbers-append idx [] ys = refl
numbers-append idx (x ∷ xs) ys =
    ap {B = List ℕ} (λ r. number_at idx x ∷ r) (numbers-append idx xs ys)

-- Where the link of a number stands.
link_of :
    (idx : DbIndex) (n : ℕ) (ls : List ℕ)
    → has n (numbers idx ls) ≡ true
    → Distinct (numbers idx ls)
    → (us : List ℕ) × (l : ℕ) × (vs : List ℕ) × (ls ≡ us ++ l ∷ vs)
      × ((number_at idx l == n) ≡ true)
      × Lack idx n vs
      × (numbers idx (us ++ vs) ≡ without n (numbers idx ls))
link_of idx n [] h d = cc
link_of idx n (x ∷ xs) h d = elim (Bool-cases (n == number_at idx x)) [
  | inl e ↦
      let same : number_at idx x ≡ n = ground arith in
      ([], x, xs, refl, ground arith, Lack-of_has idx n xs (rw same at d.0), rw e refl)
  | inr ne ↦
      let (us, l, vs, e, here, lack, rest) = link_of idx n xs (ground arith) d.1 in
      (
        x ∷ us,
        l,
        vs,
        ap {B = List ℕ} (λ r. x ∷ r) e,
        here,
        lack,
        rw ne (ap {B = List ℕ} (λ r. number_at idx x ∷ r) rest),
      )
]

number_at-same :
    (idx r : DbIndex) (l : ℕ)
    → r.heap.store.data_of ≡ idx.heap.store.data_of
    → r.blocks ≡ idx.blocks
    → number_at r l ≡ number_at idx l
number_at-same idx r l d b = rw (d, b) refl

length-numbers : (idx : DbIndex) (ls : List ℕ) → length (numbers idx ls) ≡ length ls
length-numbers idx [] = refl
length-numbers idx (l ∷ ls) = ap suc (length-numbers idx ls)

pub numbers-same :
    (idx r : DbIndex) (ls : List ℕ)
    → r.heap.store.data_of ≡ idx.heap.store.data_of
    → r.blocks ≡ idx.blocks
    → numbers r ls ≡ numbers idx ls
numbers-same idx r [] d b = refl
numbers-same idx r (l ∷ ls) d b =
    ap (λ m. m ∷ numbers r ls) (number_at-same idx r l d b)
    ∙ ap {B = List ℕ} (λ q. number_at idx l ∷ q) (numbers-same idx r ls d b)

has-without : (m n : ℕ) (ms : List ℕ) → has m ms ≡ false → has m (without n ms) ≡ false
has-without m n [] h = h
has-without m n (x ∷ xs) h = ground (arith, has-without m n xs)

has-without_self : (n : ℕ) (ms : List ℕ) → Distinct ms → has n (without n ms) ≡ false
has-without_self n [] d = refl
has-without_self n (x ∷ xs) d = ground (arith, has-without_self n xs, ==_iff n x, d)

Distinct-without : (n : ℕ) (ms : List ℕ) → Distinct ms → Distinct (without n ms)
Distinct-without n [] d = tt
Distinct-without n (x ∷ xs) d = ground (arith, Distinct-without n xs d.1, has-without x n xs d.0)

pub Distinct-touch : (n : ℕ) (ms : List ℕ) → Distinct ms → Distinct (touch n ms)
Distinct-touch n ms d =
    Distinct-insert n (without n ms) [] (rw append-nil (has-without_self n ms d))
      (rw append-nil (Distinct-without n ms d))

has-without_other :
    (m n : ℕ) (ms : List ℕ) → has m ms ≡ true → (m == n) ≡ false → has m (without n ms) ≡ true
has-without_other m n [] h ne = h
has-without_other m n (x ∷ xs) h ne =
    ground (arith, has-without_other m n xs, ==_iff m x, ==_iff n x)

pub has-touch : (m n : ℕ) (ms : List ℕ) → has m ms ≡ true → has m (touch n ms) ≡ true
has-touch m n ms h =
    ground (arith, has-append m (without n ms) (n ∷ []), has-without_other m n ms h)

length-without : (n : ℕ) (ms : List ℕ) → has n ms ≡ true → suc (length (without n ms)) ≡ length ms
length-without n [] h = cc
length-without n (x ∷ xs) h = ground (arith, length-without n xs)

pub length-touch : (n : ℕ) (ms : List ℕ) → has n ms ≡ true → length (touch n ms) ≡ length ms
length-touch n ms h = omega (arith, length-append (without n ms) (n ∷ []), length-without n ms h)

-- What a call leaves that found the block in memory, at the link `link`.
pub record Touched (idx : DbIndex) (n : ℕ) (order : List ℕ) (u : Uses idx order) (p : ℕ)
    (r : DbIndex) : Type 0 where
  pub uses : Uses r (touch n order)
  pub number : (idx.blocks p).block_number ≡ n
  pub link : ℕ
  pub in_use : has link u.links ≡ true
  pub holder : idx.heap.store.data_of link ≡ p
  pub same_rest : r ≡ record idx { used = r.used; heap = record idx.heap { store = r.heap.store } }
  pub same_data : r.heap.store.data_of ≡ idx.heap.store.data_of
  pub elsewhere : (a : ℕ) → IsOutside a idx.used u.links → SameAt idx.heap.store r.heap.store a
  pub outside : (a : ℕ) → IsOutside a idx.used u.links → IsOutside a r.used uses.links
  pub members : (a : ℕ) → has a uses.links ≡ true → has a u.links ≡ true

moved_to_end :
    (a head tail l : ℕ) (us vs : List ℕ)
    → has a (head ∷ (us ++ l ∷ vs) ++ tail ∷ [])
      ≡ has a (head ∷ ((us ++ vs) ++ l ∷ []) ++ tail ∷ [])
moved_to_end a head tail l us vs = ground (
  arith,
  has-append a us (l ∷ vs),
  has-append a us vs,
  has-append a (us ++ vs) (l ∷ []),
  has-append a (us ++ l ∷ vs) (tail ∷ []),
  has-append a ((us ++ vs) ++ l ∷ []) (tail ∷ []),
)

members_moved : (a l : ℕ) (us vs : List ℕ) → has a ((us ++ vs) ++ l ∷ []) ≡ has a (us ++ l ∷ vs)
members_moved a l us vs =
    ground (arith, has-append a us (l ∷ vs), has-append a us vs, has-append a (us ++ vs) (l ∷ []))

-- One call: the block has the number, and the number goes to the end.
pub get_index_block-Touched :
    (fuel : ℕ) (idx : DbIndex) (n : ℕ) (order : List ℕ)
    → (u : Uses idx order) → Distinct order
    → has n order ≡ true
    → length order < fuel
    → (p : ℕ) × (r : DbIndex) × (get_index_block fuel idx n ≡ some (p, r))
      × Touched idx n order u p r
get_index_block-Touched fuel idx n order u d h enough =
    let (us, l, vs, e, here, lack, rest) = link_of idx n u.links (rw u.named h) (rw u.named d) in
    let real : has null (us ++ l ∷ vs) ≡ false = rw e at u.real in
    let counted : length order ≡ length (us ++ l ∷ vs) =
      ap length (sym u.named) ∙ length-numbers idx u.links ∙ ap length e in
    let (r, run, done) =
      get_index_block-Hit fuel idx n l us vs (rw e at u.holds)
        (ground (arith, has-append null us (l ∷ vs))) here lack
        (omega (arith, counted, length-append us (l ∷ vs), enough)) in
    (
      idx.heap.store.data_of l,
      r,
      run,
      record {
        uses = record {
          links = (us ++ vs) ++ l ∷ [];
          holds = done.holds;
          real = rw (members_moved null l us vs) real;
          named =
              numbers-same idx r ((us ++ vs) ++ l ∷ []) done.same_data done.same_blocks
              ∙ numbers-append idx (us ++ vs) (l ∷ [])
              ∙ ap (λ q. q ++ number_at idx l ∷ []) (rest ∙ ap (without n) u.named)
              ∙ ap (λ m. without n order ++ m ∷ []) ((==_iff (number_at idx l) n).0 here);
        };
        number = ground arith;
        link = l;
        in_use = rw e (ground (arith, has-append l us (l ∷ vs), ==_self l));
        holder = refl;
        same_rest = done.same_rest;
        same_data = done.same_data;
        elsewhere = λ a out. done.elsewhere a (rw e at out);
        outside = λ a out.
            let out' : has a (idx.used.head ∷ (us ++ l ∷ vs) ++ idx.used.tail ∷ []) ≡ false =
              rw e at out in
            rw (done.same_head, done.same_tail)
              (rw (moved_to_end a idx.used.head idx.used.tail l us vs) at out');
        members = λ a m. rw e (rw (members_moved a l us vs) at m);
      },
    )
