-- ===== src/Index/Listing.antt =====
-- lib/index.c: `firstIndexItem`, and then `nextIndexItem` until it returns NULL.
use osdb_dcdb.Prelude.{
  ℕ, zero, suc, ◌<◌, ◌≤◌, ◌≡◌, refl, sym, ap, ◌∙◌, true, false, Option, none, some, List, [], ◌∷◌,
  ◌++◌, ◌==◌, has, Distinct, length, if◌then◌else◌, ==_iff, arith,
}
use mathlib.Core.List.{append_assoc}
use osdb_dcdb.Cache.{get_index_block}
use osdb_dcdb.Cache.Touch.{Uses}
use osdb_dcdb.Index.{Index, Answer, set_cursor, item_of, on_block}
use osdb_dcdb.Index.Leaves.{Leaf, items, datas, Chained}
use osdb_dcdb.Index.Steps.{first_in, first_index_item, next_index_item}
use osdb_dcdb.Index.Walk.{Stands, step_inside, step_over, step_end, standing, moved}
use osdb_dcdb.Index.Arrive.{arrive}
use osdb_dcdb.Links.{null, size_mod}
use osdb_dcdb.Links.Places.{no_sentinel}

-- The items that were returned, and the index behind the last call.
abbrev pub Listing : Type 0
Listing = Option (List ℕ × Index)

abbrev listed : ℕ → Listing → Listing
listed ki none = none
listed ki (some (kis, idx)) = some (ki ∷ kis, idx)

abbrev after : (Index → Listing) → Answer → Listing
after later none = none
after later (some (ki, idx)) =
    let rest = listed ki (later idx) in if ki == null then some ([], idx) else rest

unfoldable pub rest_of_index : (steps fuel : ℕ) → Index → Listing
rest_of_index zero fuel idx = none
rest_of_index (suc steps) fuel idx = after (rest_of_index steps fuel) (next_index_item fuel idx)

unfoldable pub whole_index : (steps fuel : ℕ) → Index → Listing
whole_index steps fuel idx = after (rest_of_index steps fuel) (first_index_item fuel idx)

abbrev pub all_items : List Leaf → List ℕ
all_items [] = []
all_items (f ∷ fs) = items f ++ all_items fs

real_item :
    (dat : ℕ → ℕ) (us vs : List ℕ) (y : ℕ)
    → has null (datas dat (us ++ y ∷ vs)) ≡ false
    → (dat y == null) ≡ false
real_item dat [] vs y h = ground (arith, ==_iff (dat y) null, ==_iff null (dat y))
real_item dat (u ∷ us) vs y h = real_item dat us vs y (ground arith)

-- One item more.
one_more :
    (steps fuel : ℕ) (dat : ℕ → ℕ) (y : ℕ) (zs : List ℕ) (idx : Index) (a : Answer)
    → a ≡ some (dat y, idx)
    → (dat y == null) ≡ false
    → (r : Index) × (rest_of_index steps fuel idx ≡ some (datas dat zs, r)) × (r.eof ≡ true)
    → (r : Index) × (after (rest_of_index steps fuel) a ≡ some (datas dat (y ∷ zs), r))
      × (r.eof ≡ true)
one_more steps fuel dat y zs idx a e real (r, run, eof) = (r, rw (e, real, run) refl, eof)

no_more :
    (steps fuel : ℕ) (dat : ℕ → ℕ) (a : Answer) (idx : Index)
    → a ≡ some (null, idx)
    → idx.eof ≡ true
    → (r : Index) × (after (rest_of_index steps fuel) a ≡ some ([], r)) × (r.eof ≡ true)
no_more steps fuel dat a idx e eof = (idx, ap (after (rest_of_index steps fuel)) e, eof)

rest_of_index-listed :
    (steps fuel : ℕ) (dat : ℕ → ℕ) {idx : Index} {f : Leaf} {x : ℕ} (fs : List Leaf)
    (us vs : List ℕ)
    → Stands fuel idx f fs x
    → idx.cache.heap.store.data_of ≡ dat
    → items f ≡ us ++ x ∷ vs
    → length (vs ++ all_items fs) < steps
    → (r : Index) × (rest_of_index steps fuel idx ≡ some (datas dat (vs ++ all_items fs), r))
      × (r.eof ≡ true)
unfolding rest_of_index
rest_of_index-listed zero fuel dat fs us vs st same e enough = absurd (omega arith)
rest_of_index-listed (suc steps) fuel dat [] us [] st same e enough =
    no_more steps fuel dat _ _ (step_end st us e refl) refl
rest_of_index-listed (suc steps) fuel dat {idx} (g ∷ gs) us [] st same e enough =
    let s = step_over us st e in
    let dat_now = s.same_data ∙ same in
    one_more steps fuel dat g.first (g.others ++ all_items gs) s.now (next_index_item fuel idx)
      (s.returns ∙ ap (λ d. some (d g.first, s.now)) same)
      (ap (λ d. d g.first == null) (sym dat_now)
        ∙ real_item s.now.cache.heap.store.data_of [] g.others g.first s.stands.here.real_items)
      (rest_of_index-listed steps fuel dat gs [] g.others s.stands dat_now refl (omega arith))
rest_of_index-listed (suc steps) fuel dat {idx} {f} {x} fs us (y ∷ vs) st same e enough =
    let s = step_inside st us vs y e in
    let dat_now = s.same_data ∙ same in
    let e' : items f ≡ (us ++ x ∷ []) ++ y ∷ vs = e ∙ sym (append_assoc us (x ∷ []) (y ∷ vs)) in
    one_more steps fuel dat y (vs ++ all_items fs) s.now (next_index_item fuel idx)
      (s.returns ∙ ap (λ d. some (d y, s.now)) same)
      (ap (λ d. d y == null) (sym same)
        ∙ real_item idx.cache.heap.store.data_of (us ++ x ∷ []) vs y (
            ap (λ xs. has null (datas idx.cache.heap.store.data_of xs)) (sym e')
            ∙ st.here.real_items))
      (rest_of_index-listed steps fuel dat fs (us ++ x ∷ []) vs s.stands dat_now e' (omega arith))

-- Where the blocks of an index, at least one, are in memory and follow one another, the shell has
-- the number of the first, and the fuel is above the number of blocks in use, firstIndexItem and
-- nextIndexItem return all items, each once and in order, and then NULL with `eof` set.
pub whole_index-listed :
    (steps fuel : ℕ) (idx : Index) (f : Leaf) (fs : List Leaf) {order : List ℕ}
    (u : Uses idx.cache order)
    → Distinct order
    → length order < fuel
    → Chained idx.cache u (f ∷ fs)
    → length (items f) < size_mod
    → (idx.inx.lh.number == 0) ≡ false
    → item_of (idx.inx.store.data_of (idx.inx.store.next idx.inx.lh.head)) idx ≡ f.number
    → length (all_items (f ∷ fs)) ≤ steps
    → (r : Index) × (whole_index steps fuel idx
        ≡ some (datas idx.cache.heap.store.data_of (all_items (f ∷ fs)), r))
      × (r.eof ≡ true)
unfolding whole_index first_index_item
whole_index-listed steps fuel idx f fs u d enough c few some_blocks first room =
    let (r, run, a) = arrive fuel idx f fs u d enough c in
    let now = record idx { is_sequential = true; bof = true; eof = false } in
    let there = set_cursor f.place f.first (record now { cache = r; current = f.place }) in
    let st = moved (standing a now refl some_blocks) f.first in
    let is = a.here.holds in
    let no_tail = (no_sentinel f.first [] f.others is).1 in
    let some_items : ((r.blocks f.place).key_item_list.number == 0) ≡ false =
      ground (arith, is.counted, few) in
    let start : first_index_item fuel idx ≡ some (idx.cache.heap.store.data_of f.first, there) =
      rw some_blocks (
        ap (λ n. on_block (λ i. some (null, i)) first_in idx (get_index_block fuel idx.cache n))
          first
        ∙ ap (on_block (λ i. some (null, i)) first_in idx) run
        ∙ rw (a.here.real, some_items, is.chain.0, no_tail, a.same_data) refl) in
    one_more steps fuel idx.cache.heap.store.data_of f.first (f.others ++ all_items fs) there
      (first_index_item fuel idx) start
      (real_item idx.cache.heap.store.data_of [] f.others f.first c.1.real_items)
      (rest_of_index-listed steps fuel idx.cache.heap.store.data_of fs [] f.others st a.same_data
        refl (omega arith))
