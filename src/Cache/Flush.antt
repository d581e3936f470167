-- ===== src/Cache/Flush.antt =====
-- lib/idxblk.c, `flushIndexBlocks`: it ends, and leaves no dirty block behind.
use osdb_dcdb.Prelude.{
  ℕ, zero, suc, ◌*◌, ◌<◌, ◌≡◌, refl, ap, ◌∙◌, true, false, Option, some, List, [], ◌∷◌, ◌++◌, arith,
  ◌==◌, ==_self, Bool-cases, length, inl, inr, ◌⊎◌,
}
use mathlib.Core.List.{append_assoc, append-nil}
use osdb_dcdb.Cache.{IdxBlock, DbIndex, copy_items, put_block}
use osdb_dcdb.Cache.FlushLoop.{set_clean, is_error, flush_loop, flush_index_blocks}
use osdb_dcdb.Links.{Status, ok, error, null, size_mod}
use osdb_dcdb.Links.Chain.{IsList}
use osdb_dcdb.Links.Places.{follower, around, no_sentinel, next_head}

abbrev pub block_at : DbIndex → ℕ → IdxBlock
block_at idx l = idx.blocks (idx.heap.store.data_of l)

-- The blocks at these links need not be written.
abbrev pub AllClean : DbIndex → List ℕ → Type 0
AllClean idx [] = Unit
AllClean idx (l ∷ ls) = ((block_at idx l).is_dirty ≡ false) × AllClean idx ls

AllClean-append :
    (idx : DbIndex) (xs ys : List ℕ) → AllClean idx xs → AllClean idx ys → AllClean idx (xs ++ ys)
AllClean-append idx [] ys a b = b
AllClean-append idx (x ∷ xs) ys a b = (a.0, AllClean-append idx xs ys a.1 b)

-- The index after a block was written.
abbrev written : ℕ → DbIndex → DbIndex
written p idx = set_clean p (put_block p (copy_items (idx.blocks p).key_item_list.number p idx).1).1

written-store : (p : ℕ) (idx : DbIndex) → (written p idx).heap.store ≡ idx.heap.store
unfolding copy_items put_block
written-store p idx = refl

written-used : (p : ℕ) (idx : DbIndex) → (written p idx).used ≡ idx.used
unfolding copy_items put_block
written-used p idx = refl

written-clean :
    (p q : ℕ) (idx : DbIndex)
    → ((idx.blocks q).is_dirty ≡ false) ⊎ (q ≡ p)
    → ((written p idx).blocks q).is_dirty ≡ false
unfolding copy_items put_block
written-clean p q idx (inl c) = ground arith
written-clean p q idx (inr e) = ground arith

AllClean-written :
    (p : ℕ) (idx : DbIndex) (ls : List ℕ) → AllClean idx ls → AllClean (written p idx) ls
AllClean-written p idx [] a = tt
AllClean-written p idx (l ∷ ls) a = (
  rw (written-store p idx) (written-clean p (idx.heap.store.data_of l) idx (inl a.0)),
  AllClean-written p idx ls a.1,
)

-- One round of the loop, at a link of the list.
module _ (fuel l : ℕ) (idx : DbIndex) (inside : (l == idx.used.tail) ≡ false) where
  abbrev p : ℕ
  p = idx.heap.store.data_of l

  abbrev copied : Status × DbIndex
  copied = copy_items (idx.blocks p).key_item_list.number p idx

  round_null : (p == null) ≡ true → flush_loop (suc fuel) l idx ≡ some (error, idx)
  unfolding flush_loop
  round_null h = rw (inside, h) refl

  round_clean :
      (p == null) ≡ false
      → (idx.blocks p).is_dirty ≡ false
      → flush_loop (suc fuel) l idx ≡ flush_loop fuel (idx.heap.store.next l) idx
  unfolding flush_loop
  round_clean h c = rw (inside, h, c) refl

  round_copy_error :
      (p == null) ≡ false
      → (idx.blocks p).is_dirty ≡ true
      → is_error copied.0 ≡ true
      → flush_loop (suc fuel) l idx ≡ some (error, copied.1)
  unfolding flush_loop
  round_copy_error h c e = rw (inside, h, c, e) refl

  round_put_error :
      (p == null) ≡ false
      → (idx.blocks p).is_dirty ≡ true
      → is_error copied.0 ≡ false
      → is_error (put_block p copied.1).0 ≡ true
      → flush_loop (suc fuel) l idx ≡ some (error, (put_block p copied.1).1)
  unfolding flush_loop
  round_put_error h c e e' = rw (inside, h, c, e, e') refl

  round_written :
      (p == null) ≡ false
      → (idx.blocks p).is_dirty ≡ true
      → is_error copied.0 ≡ false
      → is_error (put_block p copied.1).0 ≡ false
      → flush_loop (suc fuel) l idx ≡ flush_loop fuel l (written p idx)
  unfolding flush_loop
  round_written h c e e' = rw (inside, h, c, e, e') refl

-- What a run of the loop gives: an error, or no dirty block among these links.
abbrev pub Flushed : List ℕ → Option (Status × DbIndex) → Type 0
Flushed ls run =
    (st : Status) × (r : DbIndex) × (run ≡ some (st, r))
    × ((st ≡ error) ⊎ ((st ≡ ok) × AllClean r ls))

stops :
    (ls : List ℕ) (r : DbIndex) {run : Option (Status × DbIndex)}
    → run ≡ some (error, r)
    → Flushed ls run
stops ls r e = (error, r, e, inl refl)

goes_on :
    (ls : List ℕ) {run run' : Option (Status × DbIndex)}
    → run ≡ run'
    → Flushed ls run'
    → Flushed ls run
goes_on ls e (st, r, h, end) = (st, r, e ∙ h, end)

-- The loop from the link behind a clean one on, as a run from that link.
from_next :
    (pre ls : List ℕ) (l fuel : ℕ) (idx : DbIndex)
    → IsList idx.heap.store idx.used (pre ++ l ∷ ls)
    → (idx.heap.store.data_of l == null) ≡ false
    → (block_at idx l).is_dirty ≡ false
    → Flushed ((pre ++ l ∷ []) ++ ls) (flush_loop fuel (follower ls idx.used.tail) idx)
    → Flushed (pre ++ l ∷ ls) (flush_loop (suc fuel) l idx)
from_next pre ls l fuel idx is h c later =
    goes_on (pre ++ l ∷ ls)
      (round_clean fuel l idx (no_sentinel l pre ls is).1 h c
        ∙ ap (λ n. flush_loop fuel n idx) (around l pre ls is).1)
      (rw append_assoc at later)

flush_loop-Flushed :
    (pre ls : List ℕ) (fuel : ℕ) (idx : DbIndex)
    → IsList idx.heap.store idx.used (pre ++ ls)
    → AllClean idx pre
    → length ls * 2 < fuel
    → Flushed (pre ++ ls) (flush_loop fuel (follower ls idx.used.tail) idx)
flush_loop-Flushed pre ls zero idx is clean enough = absurd (omega arith)
flush_loop-Flushed pre [] (suc fuel) idx is clean enough = (
  ok,
  idx,
  unfold flush_loop in rw (==_self idx.used.tail) refl,
  inr (refl, rw (append-nil pre) clean),
)
flush_loop-Flushed pre (l ∷ ls) (suc zero) idx is clean enough = absurd (omega arith)
flush_loop-Flushed pre (l ∷ ls) (suc (suc fuel)) idx is clean enough =
    let q = idx.heap.store.data_of l in
    let w = written q idx in
    let inside = (no_sentinel l pre ls is).1 in
    let zs = pre ++ l ∷ ls in
    let is' : IsList idx.heap.store idx.used ((pre ++ l ∷ []) ++ ls) = rw append_assoc is in
    let is_w : IsList w.heap.store w.used zs = rw (written-store q idx, written-used q idx) is in
    let is_w' : IsList w.heap.store w.used ((pre ++ l ∷ []) ++ ls) = rw append_assoc is_w in
    let clean_w : (block_at w l).is_dirty ≡ false =
      rw (written-store q idx) (written-clean q q idx (inr refl)) in
    elim (Bool-cases (q == null)) [
      | inl h ↦ stops zs idx (round_null (suc fuel) l idx inside h)
      | inr h ↦ elim (Bool-cases (idx.blocks q).is_dirty) [
        | inr c ↦ from_next pre ls l (suc fuel) idx is h c (
            flush_loop-Flushed (pre ++ l ∷ []) ls (suc fuel) idx is'
              (AllClean-append idx pre (l ∷ []) clean (c, tt)) (omega arith))
        | inl d ↦ elim (Bool-cases (is_error (copied (suc fuel) l idx inside).0)) [
          | inl e ↦ stops zs _ (round_copy_error (suc fuel) l idx inside h d e)
          | inr e ↦
              elim (Bool-cases (is_error (put_block q (copied (suc fuel) l idx inside).1).0)) [
                | inl e' ↦ stops zs _ (round_put_error (suc fuel) l idx inside h d e e')
                | inr e' ↦ goes_on zs (round_written (suc fuel) l idx inside h d e e') (
                    from_next pre ls l fuel w is_w (rw (written-store q idx) h) clean_w (
                      flush_loop-Flushed (pre ++ l ∷ []) ls fuel w is_w'
                        (AllClean-append w pre (l ∷ []) (AllClean-written q idx pre clean)
                          (clean_w, tt))
                        (omega arith)))
              ]
        ]
      ]
    ]

-- `flushIndexBlocks` ends within two rounds for each link and one more. It reports an error, or no
-- block in use is dirty behind it.
pub flush_index_blocks-Flushed :
    (fuel : ℕ) (idx : DbIndex) (ls : List ℕ)
    → IsList idx.heap.store idx.used ls
    → length ls < size_mod
    → length ls * 2 < fuel
    → Flushed ls (flush_index_blocks fuel idx)
unfolding flush_index_blocks
flush_index_blocks-Flushed fuel idx [] is short enough =
    (ok, idx, rw is.counted refl, inr (refl, tt))
flush_index_blocks-Flushed fuel idx (l ∷ ls) is short enough =
    let some_links : (idx.used.number == 0) ≡ false = let c = is.counted in ground arith in
    rw (some_links, next_head (l ∷ ls) is) (flush_loop-Flushed [] (l ∷ ls) fuel idx is tt enough)
