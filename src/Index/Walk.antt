-- ===== src/Index/Walk.antt =====
-- lib/index.c: `nextIndexItem` goes through the items of the blocks in their order.
use osdb_dcdb.Prelude.{
  ℕ, ◌<◌, ◌≡◌, refl, sym, ap, ◌∙◌, true, false, some, List, [], ◌∷◌, ◌++◌, ◌==◌, ==_self, ==_iff,
  has, has-append, Distinct, length, arith,
}
use osdb_dcdb.Cache.{DbIndex, unstable, get_index_block}
use osdb_dcdb.Cache.Load.{places}
use osdb_dcdb.Cache.Touch.{Uses}
use osdb_dcdb.Index.Arrive.{Arrived, arrive}
use osdb_dcdb.Index.{Index, Answer, set_cursor, next_block, on_block, give_error}
use osdb_dcdb.Index.Leaves.{
  Leaf, items, InMemory, InMemory-kept, at_cursor-Uses, at_cursor-Keeps, next_number, Chained,
  Chained-kept,
}
use osdb_dcdb.Index.Steps.{next_in, next_index_item}
use mathlib.Core.List.{append_assoc}
use osdb_dcdb.Links.{ListHeader, null}
use osdb_dcdb.Links.Chain.{IsList}
use osdb_dcdb.Links.Places.{around, no_sentinel}

-- The index stands in the block `f`, and all blocks that follow are in memory.
pub record Stands (fuel : ℕ) (idx : Index) (f : Leaf) (fs : List Leaf) (x : ℕ) : Type 0 where
  pub order : List ℕ
  pub uses : Uses idx.cache order
  pub distinct : Distinct order
  pub enough : length order < fuel
  pub sequential : idx.is_sequential ≡ true
  pub some_blocks : (idx.inx.lh.number == 0) ≡ false
  pub place : idx.current ≡ f.place
  pub cursor : (idx.cache.blocks f.place).current ≡ x
  pub here : InMemory idx.cache uses (next_number fs) f
  pub rest : Chained idx.cache uses fs

-- What a step leaves that returns an item.
pub record Stepped (fuel : ℕ) (idx : Index) (f : Leaf) (fs : List Leaf) (x : ℕ) (a : Answer)
    : Type 0 where
  pub now : Index
  pub returns : a ≡ some (idx.cache.heap.store.data_of x, now)
  pub stands : Stands fuel now f fs x
  pub same_data : now.cache.heap.store.data_of ≡ idx.cache.heap.store.data_of

real_within :
    (lh : ListHeader) (us vs : List ℕ) (x : ℕ)
    → has null (places lh (us ++ x ∷ vs)) ≡ false
    → ((x == null) ≡ false) × ((lh.head == null) ≡ false) × ((lh.tail == null) ≡ false)
real_within lh us vs x h = ground (
  arith,
  ==_iff x null,
  ==_iff null x,
  ==_iff lh.head null,
  ==_iff null lh.head,
  ==_iff lh.tail null,
  ==_iff null lh.tail,
  has-append null us (x ∷ vs),
  has-append null (us ++ x ∷ vs) (lh.tail ∷ []),
)

module _ {fuel : ℕ} {idx : Index} {f : Leaf} {fs : List Leaf} {x : ℕ}
    (st : Stands fuel idx f fs x) where
  abbrev lh : ListHeader
  lh = (idx.cache.blocks f.place).key_item_list

  pub moved : (y : ℕ) → Stands fuel (set_cursor f.place y idx) f fs y
  moved y = record {
    order = st.order;
    uses = at_cursor-Uses f.place y st.uses;
    distinct = st.distinct;
    enough = st.enough;
    sequential = st.sequential;
    some_blocks = st.some_blocks;
    place = st.place;
    cursor = rw (==_self f.place) refl;
    here = InMemory-kept (next_number fs) f (at_cursor-Keeps f.place y st.uses) st.here;
    rest = Chained-kept fs (at_cursor-Keeps f.place y st.uses) st.rest;
  }

  -- Behind `x` comes `y`.
  pub step_inside :
      (us vs : List ℕ) (y : ℕ)
      → items f ≡ us ++ x ∷ y ∷ vs
      → Stepped fuel idx f fs y (next_index_item fuel idx)
  unfolding next_index_item
  step_inside us vs y e =
      let is : IsList idx.cache.heap.store lh (us ++ x ∷ y ∷ vs) = rw e at st.here.holds in
      let is' : IsList idx.cache.heap.store lh ((us ++ x ∷ []) ++ y ∷ vs) = rw append_assoc is in
      let behind : idx.cache.heap.store.next x ≡ y = (around x us (y ∷ vs) is).1 in
      let real : has null (places lh (us ++ x ∷ y ∷ vs)) ≡ false =
        ap (λ xs. has null (places lh xs)) (sym e) ∙ st.here.real_links in
      let real' : has null (places lh ((us ++ x ∷ []) ++ y ∷ vs)) ≡ false =
        ap (λ xs. has null (places lh xs)) (append_assoc us (x ∷ []) (y ∷ vs)) ∙ real in
      let real_x = (real_within lh us (y ∷ vs) x real).0 in
      let real_y = (real_within lh (us ++ x ∷ []) vs y real').0 in
      let no_head = (no_sentinel x us (y ∷ vs) is).0 in
      let no_tail = (no_sentinel y (us ++ x ∷ []) vs is').1 in
      record {
        now = set_cursor f.place y idx;
        returns =
            rw
              (
                st.sequential, st.some_blocks, st.place, st.here.real, st.cursor, real_x, behind,
                real_y, no_head, no_tail,
              )
              refl;
        stands = moved y;
        same_data = refl;
      }

  -- Behind the last item of the last block comes nothing.
  pub step_end :
      (us : List ℕ)
      → items f ≡ us ++ x ∷ []
      → fs ≡ []
      → next_index_item fuel idx
        ≡ some (
          null,
          record (set_cursor f.place (idx.cache.heap.store.prev lh.tail) idx) { eof = true },
        )
  unfolding next_index_item
  step_end us e last =
      let is : IsList idx.cache.heap.store lh (us ++ x ∷ []) = rw e at st.here.holds in
      let behind : idx.cache.heap.store.next x ≡ lh.tail = (around x us [] is).1 in
      let real : has null (places lh (us ++ x ∷ [])) ≡ false =
        ap (λ xs. has null (places lh xs)) (sym e) ∙ st.here.real_links in
      let (real_x, _, real_tail) = real_within lh us [] x real in
      let no_head = (no_sentinel x us [] is).0 in
      let no_more : next_block (idx.cache.blocks f.place).blk ≡ 0 =
        st.here.next ∙ ap next_number last in
      rw
        (
          st.sequential,
          st.some_blocks,
          st.place,
          st.here.real,
          st.cursor,
          real_x,
          behind,
          real_tail,
          no_head,
          ==_self lh.tail,
          no_more,
        )
        refl

pub standing :
    {fuel : ℕ} {idx : Index} {g : Leaf} {gs : List Leaf} {r : DbIndex}
    → Arrived fuel idx g gs r
    → (now : Index) → now.is_sequential ≡ true
    → (now.inx.lh.number == 0) ≡ false
    → Stands fuel (record now { cache = r; current = g.place }) g gs (r.blocks g.place).current
standing a now sequential some_blocks = record {
  order = a.order;
  uses = a.uses;
  distinct = a.distinct;
  enough = a.enough;
  sequential = sequential;
  some_blocks = some_blocks;
  place = refl;
  cursor = refl;
  here = a.here;
  rest = a.rest;
}

landed : (idx : Index) (p x : ℕ) (cache : DbIndex) → Index
landed idx p x cache = set_cursor p x (record idx { cache = cache; current = p })

-- Behind the last item of a block comes the first of the block that follows.
pub step_over :
    {fuel : ℕ} {idx : Index} {f g : Leaf} {gs : List Leaf} {x : ℕ} (us : List ℕ)
    → Stands fuel idx f (g ∷ gs) x
    → items f ≡ us ++ x ∷ []
    → Stepped fuel idx g gs g.first (next_index_item fuel idx)
unfolding next_index_item landed
step_over {fuel} {idx} {f} {g} {gs} {x} us st e =
    let s = idx.cache.heap.store in
    let is : IsList s (lh st) (us ++ x ∷ []) = rw e at st.here.holds in
    let behind : s.next x ≡ (lh st).tail = (around x us [] is).1 in
    let real : has null (places (lh st) (us ++ x ∷ [])) ≡ false =
      ap (λ xs. has null (places (lh st) xs)) (sym e) ∙ st.here.real_links in
    let (real_x, _, real_tail) = real_within (lh st) us [] x real in
    let no_head = (no_sentinel x us [] is).0 in
    let (r, run, a) = arrive fuel idx g gs st.uses st.distinct st.enough st.rest in
    let no_tail = (no_sentinel g.first [] g.others a.here.holds).1 in
    let more = st.rest.0 in
    let start : next_index_item fuel idx
        ≡ on_block (give_error unstable) next_in idx (get_index_block fuel idx.cache g.number) =
      rw
        (
          st.sequential,
          st.some_blocks,
          st.place,
          st.here.real,
          st.cursor,
          real_x,
          behind,
          real_tail,
          no_head,
          ==_self (lh st).tail,
          st.here.next,
          more,
        )
        refl in
    record {
      now = landed idx g.place g.first r;
      returns =
          start
          ∙ ap (on_block (give_error unstable) next_in idx) run
          ∙ rw (a.here.real, a.here.holds.chain.0, no_tail, a.same_data) refl;
      stands = moved (standing a idx st.sequential st.some_blocks) g.first;
      same_data = a.same_data;
    }
