-- ===== src/Index/Exact.antt =====
-- lib/index.c, `searchExactIndexItem` in a unique index.
use osdb_dcdb.Prelude.{
  ℕ, zero, suc, ◌<◌, ◌≡◌, refl, sym, ap, ◌∙◌, true, false, Bool-cases, is_eq, none, some, List, [],
  ◌∷◌, ◌++◌, ◌==◌, ==_self, ==_iff, has, has-append, Distinct, length, length-append, if◌then◌else◌,
  inl, inr, ◌⊎◌, arith,
}
use mathlib.Core.List.{append_assoc}
use osdb_dcdb.Cache.{DbIndex, unstable, get_index_block}
use osdb_dcdb.Cache.Load.{places}
use osdb_dcdb.Cache.Touch.{Uses}
use osdb_dcdb.Index.{
  Index, Answer, ItemScan, equal, ended, stand, item_of, scan_all, found_at, exact_in, exact_at,
  exact_queried, on_block, give_error, search_exact_index_item,
}
use osdb_dcdb.Index.Choice.{closest-Chosen, Chosen-first_equal, AllNames}
use osdb_dcdb.Index.Leaves.{Leaf, items, Chained}
use osdb_dcdb.Index.Listing.{all_items}
use osdb_dcdb.Index.Order.{Increasing}
use osdb_dcdb.Index.Arrive.{arrive}
use osdb_dcdb.Links.{Compare, Store, ListHeader, null}
use osdb_dcdb.Links.Chain.{IsList}
use osdb_dcdb.Links.Order.{IsOrder}
use osdb_dcdb.Links.Places.{around, follower, next_head, no_sentinel}
use osdb_dcdb.Shells.Query.Plain.{closest, query_shell_item-plain}
use osdb_dcdb.Shells.Search.Plain.{first_equal, IsCalm}

abbrev scanned : ℕ → ItemScan
scanned l = if l == null then ended else equal l

flip_eq : {cmp : Compare} (a b : ℕ) → IsOrder cmp → is_eq (cmp a b) ≡ is_eq (cmp b a)
flip_eq a b o = ground (arith, o.flip a b)

-- The loop stops at the first equal item.
scan_all-first_equal :
    (fuel : ℕ) (cmp : Compare) (key : ℕ) (s : Store) (lh : ListHeader) (us zs : List ℕ)
    → IsOrder cmp
    → IsList s lh (us ++ zs)
    → has null zs ≡ false
    → length zs < fuel
    → scan_all fuel cmp key lh.tail s (follower zs lh.tail)
      ≡ some (scanned (first_equal cmp s.data_of key zs))
unfolding scan_all first_equal
scan_all-first_equal zero cmp key s lh us zs o is real enough = absurd (omega arith)
scan_all-first_equal (suc fuel) cmp key s lh us [] o is real enough = rw (==_self lh.tail) refl
scan_all-first_equal (suc fuel) cmp key s lh us (z ∷ zs) o is real enough =
    let no_tail = (no_sentinel z us zs is).1 in
    let behind = (around z us zs is).1 in
    let real_z : (z == null) ≡ false = ground (arith, real, ==_iff z null, ==_iff null z) in
    let later =
      scan_all-first_equal fuel cmp key s lh (us ++ z ∷ []) zs o (rw append_assoc is) (ground arith)
        (omega arith) in
    elim (Bool-cases (is_eq (cmp key (s.data_of z)))) [
      | inl e ↦ rw (no_tail, flip_eq (s.data_of z) key o, e, real_z) refl
      | inr ne ↦ rw (no_tail, flip_eq (s.data_of z) key o, ne, behind) later
    ]

-- The index stands on an item, in the middle of it all.
pub record StandsOn (idx : Index) (l : ℕ) : Type 0 where
  pub sequential : idx.is_sequential ≡ true
  pub cursor : (idx.cache.blocks idx.current).current ≡ l
  pub no_begin : idx.bof ≡ false
  pub no_end : idx.eof ≡ false

-- NULL, or an item on which the index stands then.
abbrev pub Gives : ℕ → Answer → Type 0
Gives l a = (r : Index) × (a ≡ some (l, r)) × ((l ≡ null) ⊎ StandsOn r l)

exact_in-Gives :
    (fuel key p : ℕ) (idx : Index) (xs : List ℕ)
    → IsOrder idx.inx.compare
    → IsList idx.cache.heap.store (idx.cache.blocks p).key_item_list xs
    → has null xs ≡ false
    → length xs < fuel
    → Gives
        (first_equal idx.inx.compare idx.cache.heap.store.data_of key xs)
        (exact_in fuel key p idx)
exact_in-Gives fuel key p idx xs o is real enough =
    let l = first_equal idx.inx.compare idx.cache.heap.store.data_of key xs in
    let run =
      scan_all-first_equal fuel idx.inx.compare key idx.cache.heap.store
        (idx.cache.blocks p).key_item_list [] xs o is real enough in
    let scans : exact_in fuel key p idx ≡ found_at p idx (some (null, idx)) (some (scanned l)) =
      rw (next_head xs is, run) refl in
    elim (Bool-cases (l == null)) [
      | inl e ↦ (
        idx,
        scans ∙ rw e (ap (λ q. some (q, idx)) (sym ((==_iff l null).0 e))),
        inl ((==_iff l null).0 e),
      )
      | inr ne ↦ (
        stand p l idx,
        scans ∙ rw ne refl,
        inr (record {
          sequential = refl;
          cursor = rw (==_self p) refl;
          no_begin = refl;
          no_end = refl;
        }),
      )
    ]

Gives-same : {l l' : ℕ} {a : Answer} → l ≡ l' → Gives l a → Gives l' a
Gives-same e (r, run, on) = (
  r,
  run ∙ ap (λ q. some (q, r)) e,
  elim on [
    | inl z ↦ inl (sym e ∙ z)
    | inr st ↦ inr (record {
      sequential = st.sequential;
      cursor = st.cursor ∙ e;
      no_begin = st.no_begin;
      no_end = st.no_end;
    })
  ],
)

links_of_places :
    (lh : ListHeader) (xs : List ℕ) → has null (places lh xs) ≡ false → has null xs ≡ false
links_of_places lh xs h = ground (arith, has-append null xs (lh.tail ∷ []))

exact_at-Gives :
    (fuel key found : ℕ) (idx : Index) (f : Leaf) (fs : List Leaf) {order : List ℕ}
    (u : Uses idx.cache order)
    → Distinct order
    → length order < fuel
    → Chained idx.cache u (f ∷ fs)
    → IsOrder idx.inx.compare
    → item_of (idx.inx.store.data_of found) idx ≡ f.number
    → length (items f) < fuel
    → Gives
        (first_equal idx.inx.compare idx.cache.heap.store.data_of key (items f))
        (exact_at fuel key found idx)
exact_at-Gives fuel key found idx f fs u d enough c o names short =
    let (r, run, a) = arrive fuel idx f fs u d enough c in
    let now = record idx { cache = r } in
    let start : exact_at fuel key found idx ≡ exact_in fuel key f.place now =
      ap
        (λ n.
          on_block (give_error unstable) (exact_in fuel key) idx (get_index_block fuel idx.cache n))
        names
      ∙ ap (on_block (give_error unstable) (exact_in fuel key) idx) run
      ∙ rw a.here.real refl in
    let (t, gives, on) =
      exact_in-Gives fuel key f.place now (items f) o a.here.holds
        (links_of_places (r.blocks f.place).key_item_list (items f) a.here.real_links) short in
    Gives-same (ap (λ dat. first_equal idx.inx.compare dat key (items f)) a.same_data)
      (t, start ∙ gives, on)

Chained-append :
    (idx : DbIndex) {order : List ℕ} (u : Uses idx order) (gs fs : List Leaf)
    → Chained idx u (gs ++ fs)
    → Chained idx u fs
Chained-append idx u [] fs c = c
Chained-append idx u (g ∷ gs) fs c = Chained-append idx u gs fs c.2

pub Chained-behind :
    (idx : DbIndex) {order : List ℕ} (u : Uses idx order) (gs fs hs : List Leaf)
    → hs ≡ gs ++ fs
    → Chained idx u hs
    → Chained idx u fs
Chained-behind idx u gs fs hs e c = Chained-append idx u gs fs (rw e at c)

-- The index is in order, its blocks are in memory, and the shell `inx` names them in their order.
pub record CanSearch (fuel : ℕ) (idx : Index) (f : Leaf) (fs : List Leaf) (k : ℕ) (ks : List ℕ)
    : Type 0 where
  pub order : List ℕ
  pub uses : Uses idx.cache order
  pub distinct : Distinct order
  pub enough : length order < fuel
  pub chained : Chained idx.cache uses (f ∷ fs)
  pub lawful : IsOrder idx.inx.compare
  pub increasing : Increasing idx.inx.compare idx.cache.heap.store.data_of (all_items (f ∷ fs))
  pub shell : IsList idx.inx.store idx.inx.lh (k ∷ ks)
  pub bare : idx.inx.nodes.next idx.inx.head ≡ idx.inx.tail
  pub calm : IsCalm idx.inx
  pub few_blocks : length (k ∷ ks) < fuel
  pub few_items : length (all_items (f ∷ fs)) < fuel
  pub names :
      AllNames idx.inx.compare idx.cache.heap.store.data_of idx.inx.store.data_of
        (λ l. item_of (idx.inx.store.data_of l) idx)
        (k ∷ ks)
        (f ∷ fs)

pub short_leaf :
    (fuel : ℕ) (gs : List Leaf) (f : Leaf) (fs : List Leaf)
    → length (all_items (gs ++ f ∷ fs)) < fuel
    → length (items f) < fuel
short_leaf fuel [] f fs h = omega (arith, length-append (items f) (all_items fs))
short_leaf fuel (g ∷ gs) f fs h =
    short_leaf fuel gs f fs (omega (arith, length-append (items g) (all_items (gs ++ f ∷ fs))))

-- In a unique index of items in order, whose blocks are in memory and named by a shell with no
-- nodes, the search ends with the only item that is equal to the key, and the index stands on it;
-- if there is none, it ends with NULL.
pub search_exact_index_item-first_equal :
    (fuel lnk : ℕ) (idx : Index) (f : Leaf) (fs : List Leaf) (k : ℕ) (ks : List ℕ)
    → CanSearch fuel idx f fs k ks
    → idx.cache.hdr.is_unique ≡ true
    → Gives
        (first_equal idx.inx.compare idx.cache.heap.store.data_of
          (idx.inx.store.data_of lnk)
          (all_items (f ∷ fs)))
        (search_exact_index_item fuel idx lnk)
unfolding search_exact_index_item
search_exact_index_item-first_equal fuel lnk idx f fs k ks can unique =
    let sh = idx.inx in
    let key = sh.store.data_of lnk in
    let dat = idx.cache.heap.store.data_of in
    let number_of : ℕ → ℕ = λ l. item_of (sh.store.data_of l) idx in
    let found = closest sh.compare sh.store.data_of key none (k ∷ ks) in
    let (t, run, same) =
      query_shell_item-plain lnk fuel sh k ks can.shell can.bare can.calm can.few_blocks in
    let c =
      closest-Chosen sh.compare dat sh.store.data_of number_of can.lawful key k ks f fs can.names
        can.increasing in
    let idx₁ = record idx { inx = t } in
    let same_compare : t.compare ≡ sh.compare = ap (λ p. p.2) same.same_settings in
    let start : search_exact_index_item fuel idx lnk ≡ exact_at fuel key found idx₁ =
      ap (exact_queried fuel lnk idx) run ∙ rw (c.names.real, unique, same.same_store) refl in
    let chained =
      Chained-behind idx.cache can.uses c.before (c.leaf ∷ c.behind) (f ∷ fs) c.whole can.chained in
    let (r, gives, on) =
      exact_at-Gives fuel key found idx₁ c.leaf c.behind can.uses can.distinct can.enough chained
        (rw same_compare can.lawful)
        (ap (λ s. item_of (s.data_of found) idx) same.same_store ∙ c.names.number)
        (short_leaf fuel c.before c.leaf c.behind
          (omega (arith, ap (λ gs. length (all_items gs)) c.whole, can.few_items))) in
    Gives-same
      (ap (λ cmp. first_equal cmp dat key (items c.leaf)) same_compare
        ∙ sym (
            Chosen-first_equal sh.compare dat sh.store.data_of number_of can.lawful key found
              (f ∷ fs) c))
      (r, start ∙ gives, on)
