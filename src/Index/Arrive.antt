-- ===== src/Index/Arrive.antt =====
-- lib/index.c: the block that the index goes to with `getIndexBlock`.
use osdb_dcdb.Prelude.{ℕ, ◌<◌, ◌≡◌, sym, ap, ◌∙◌, some, List, ◌∷◌, Distinct, length, arith}
use mathlib.Core.Path.{subst}
use osdb_dcdb.Cache.{DbIndex, get_index_block}
use osdb_dcdb.Cache.Touch.{
  Uses, touch, Touched, Distinct-touch, length-touch, get_index_block-Touched,
}
use osdb_dcdb.Index.{Index}
use osdb_dcdb.Index.Leaves.{
  Leaf, InMemory, InMemory-kept, Touched-Keeps, next_number, Chained, Chained-kept,
}

-- The block `g` has been reached.
pub record Arrived (fuel : ℕ) (idx : Index) (g : Leaf) (gs : List Leaf) (r : DbIndex) : Type 0 where
  pub order : List ℕ
  pub uses : Uses r order
  pub distinct : Distinct order
  pub enough : length order < fuel
  pub here : InMemory r uses (next_number gs) g
  pub rest : Chained r uses gs
  pub same_data : r.heap.store.data_of ≡ idx.cache.heap.store.data_of

-- The block is in memory, and the call finds it at its address.
pub reach :
    (fuel : ℕ) (idx : DbIndex) (g : Leaf) (gs : List Leaf) {order : List ℕ} (u : Uses idx order)
    → Distinct order
    → length order < fuel
    → Chained idx u (g ∷ gs)
    → (r : DbIndex) × (get_index_block fuel idx g.number ≡ some (g.place, r))
      × Touched idx g.number order u g.place r
reach fuel idx g gs {order} u d enough c =
    let (p, r, run, t) = get_index_block-Touched fuel idx g.number order u d c.1.known enough in
    let same_place : p ≡ g.place =
      sym t.holder
      ∙ c.1.only t.link t.in_use (ap (λ q. (idx.blocks q).block_number) t.holder ∙ t.number) in
    (
      r,
      run ∙ ap (λ q. some (q, r)) same_place,
      subst (λ q. Touched idx g.number order u q r) same_place t,
    )

pub arrive :
    (fuel : ℕ) (idx : Index) (g : Leaf) (gs : List Leaf) {order : List ℕ} (u : Uses idx.cache order)
    → Distinct order
    → length order < fuel
    → Chained idx.cache u (g ∷ gs)
    → (r : DbIndex) × (get_index_block fuel idx.cache g.number ≡ some (g.place, r))
      × Arrived fuel idx g gs r
arrive fuel idx g gs {order} u d enough c =
    let (r, run, t) = reach fuel idx.cache g gs u d enough c in
    (
      r,
      run,
      record {
        order = touch g.number order;
        uses = t.uses;
        distinct = Distinct-touch g.number order d;
        enough = omega (arith, length-touch g.number order c.1.known, enough);
        here = InMemory-kept (next_number gs) g (Touched-Keeps g.number g.place t) c.1;
        rest = Chained-kept gs (Touched-Keeps g.number g.place t) c.2;
        same_data = t.same_data;
      },
    )
