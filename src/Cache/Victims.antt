-- ===== src/Cache/Victims.antt =====
-- lib/idxblk.c: which block gives its memory to another one, and what happens when none can.
use osdb_dcdb.Prelude.{ℕ, ◌≡◌, refl, ap, ◌∙◌, true, false, some, List, [], ◌∷◌, arith, ◌==◌, has}
use osdb_dcdb.Cache
use osdb_dcdb.Cache.{DbIndex, Victim, taken, refused, victim, get_index_block, miss, with_store}
use osdb_dcdb.Cache.New.{get_new_block, new_from}
use osdb_dcdb.Cache.Touch.{Uses, numbers, numbers-same}
use osdb_dcdb.Cache.Hits.{number_at}
use osdb_dcdb.Links.{ListType, null, is_empty_list, remove_link, Store, ListHeader}
use osdb_dcdb.Links.Chain.{IsList}
use osdb_dcdb.Links.Ends.{IsPlaced, remove_link-queued}
use osdb_dcdb.Links.Places.{not_empty}

pub is_empty-nil : {s : Store} {lh : ListHeader} → IsList s lh [] → is_empty_list lh s ≡ true
unfolding is_empty_list
is_empty-nil is = rw (is.chain.0, is.chain.1) (ground arith)

pub is_empty-cons :
    {s : Store} {lh : ListHeader} (x : ℕ) (xs : List ℕ)
    → IsList s lh (x ∷ xs)
    → is_empty_list lh s ≡ false
unfolding is_empty_list
is_empty-cons x xs is = rw (not_empty x [] xs is) refl

abbrev rest_of : List ℕ → List ℕ
rest_of [] = []
rest_of (x ∷ xs) = xs

-- With no free link, the block that was used least recently gives its memory: its link leaves the
-- list, and the others stay in order.
pub victim-first :
    (idx : DbIndex) (n : ℕ) (order : List ℕ)
    → (u : Uses idx (n ∷ order)) → IsList idx.heap.store idx.free []
    → idx.used.type ≡ ListType.queued
    → IsPlaced idx.used u.links
    → (l : ℕ) × (r : DbIndex) × (victim idx ≡ taken false l r)
      × (number_at idx l ≡ n)
      × Uses r order
      × (r.blocks ≡ idx.blocks)
unfolding victim
victim-first idx n order u free queue placed = by_links u.links u.holds u.real u.named placed
  where
    by_links :
        (ls : List ℕ)
        → IsList idx.heap.store idx.used ls
        → has null ls ≡ false
        → numbers idx ls ≡ n ∷ order
        → IsPlaced idx.used ls
        → (l : ℕ) × (r : DbIndex) × (victim idx ≡ taken false l r)
          × (number_at idx l ≡ n)
          × Uses r order
          × (r.blocks ≡ idx.blocks)
    by_links [] is real e placed = cc
    by_links (l ∷ ls) is real e placed =
        let gone = remove_link-queued l ls is queue placed in
        let out = remove_link idx.used idx.heap.store in
        let r = with_store out.2 (record idx { used = out.1 }) in
        let some_block : (l == null) ≡ false = ground arith in
        (
          l,
          r,
          rw (is_empty-nil free, is_empty-cons l ls is, gone.returns, some_block) refl,
          ground arith,
          record {
            links = ls;
            holds = gone.holds;
            real = ground arith;
            named = numbers-same idx r ls gone.same_data refl ∙ ap rest_of e;
          },
          refl,
        )

-- With no link at all, both functions give NULL and the error `unstable`, and touch nothing.
pub no_links-unstable :
    (fuel : ℕ) (idx : DbIndex) (n : ℕ)
    → IsList idx.heap.store idx.free []
    → IsList idx.heap.store idx.used []
    → (get_index_block fuel idx n ≡ some (null, record idx { idx_error = Cache.unstable }))
      × (get_new_block fuel idx n ≡ some (null, record idx { idx_error = Cache.unstable }))
unfolding get_index_block get_new_block new_from miss victim
no_links-unstable fuel idx n free used =
    (rw (is_empty-nil used, is_empty-nil free) refl, rw (is_empty-nil free, is_empty-nil used) refl)
