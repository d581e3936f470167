-- ===== src/Blocks/Back.antt =====
-- lib/block.c, `listToBlock`: the records go back to a block.
use osdb_dcdb.Prelude.{
  ℕ, zero, suc, ◌+◌, ◌*◌, ◌^◌, ◌≤◌, ◌<◌, ◌≡◌, refl, ap, sym, ◌∙◌, ==_self, some, List, [], ◌∷◌,
  ◌++◌, arith, length, inl,
}
use native.Mathlib.Nat.{suc-mul, zero-mul}
use osdb_dcdb.Blocks.{buffer_to_block, block_to_buffer}
use osdb_dcdb.Blocks.Refine.{write_over}
use osdb_dcdb.Blocks.Bytes.{
  take, take_all, read_at, write_at, read_at-write_at, read_at-write_at-apart, length-write_at,
  length-read_at,
}
use osdb_dcdb.Blocks.Copies.{Heap, copy_in, list_to_block, block_to_list}
use osdb_dcdb.Blocks.Records.{Pair, links, addresses, records, Holds, CanTake, copy_out-CopiesOut}
use osdb_dcdb.Blocks.Sequence.{AllFull}
use osdb_dcdb.Links.{ok, ListHeader, ListType}
use osdb_dcdb.Links.Chain.{Linked, IsList}

step_offset : (offset i size : ℕ) → offset + suc i * size ≡ offset + i * size + size
step_offset offset i size = omega (arith, suc-mul i size)

length-take_le : (n : ℕ) (xs : List ℕ) → length (take n xs) ≤ n
length-take_le zero xs = omega arith
length-take_le (suc n) [] = omega arith
length-take_le (suc n) (x ∷ xs) = omega (arith, length-take_le n xs)

-- What stands before the records stays.
pub copy_in-before :
    (h : Heap) (size offset i n lnk at k : ℕ) (blk : List ℕ)
    → at + k ≤ offset + i * size
    → at + k ≤ length blk
    → offset + i * size + n * size ≤ length blk
    → read_at at k (copy_in h size offset i n lnk blk) ≡ read_at at k blk
unfolding copy_in
copy_in-before h size offset i zero lnk at k blk le fits room = refl
copy_in-before h size offset i (suc n) lnk at k blk le fits room =
    let bytes = take size (h.contents (h.store.data_of lnk)) in
    let blk' = write_at (offset + i * size) bytes blk in
    let same : length blk' ≡ length blk = length-write_at (offset + i * size) bytes blk (
      omega
        (arith, length-take_le size (h.contents (h.store.data_of lnk)), room, suc-mul n size)) in
    copy_in-before h size offset (suc i) n (h.store.next lnk) at k blk'
      (omega (arith, step_offset offset i size, le)) (omega (arith, same, fits))
      (omega (arith, step_offset offset i size, suc-mul n size, room, same))
    ∙ read_at-write_at-apart at k (offset + i * size) bytes blk (inl le) fits

pub copy_in-records :
    (h : Heap) (size offset i a tail : ℕ) (ps : List Pair) (ts : List (List ℕ)) (blk : List ℕ)
    → Linked h.store a (links ps ++ tail ∷ [])
    → Holds h ps ts
    → AllFull size ts
    → offset + i * size + length ps * size ≤ length blk
    → records size offset i (length ps) (copy_in h size offset i (length ps) (h.store.next a) blk)
      ≡ ts
unfolding copy_in Holds
copy_in-records h size offset i a tail [] [] blk l hold full room = refl
copy_in-records h size offset i a tail [] (t ∷ ts) blk l hold full room = absurd hold
copy_in-records h size offset i a tail (p ∷ ps) [] blk l hold full room = absurd hold
copy_in-records h size offset i a tail ((b, x) ∷ ps) (t ∷ ts) blk l hold full room =
    let o = offset + i * size in
    let blk' = write_at o t blk in
    let same : length blk' ≡ length blk =
      length-write_at o t blk (omega (arith, full.0, room, suc-mul (length ps) size)) in
    let room' : offset + suc i * size + length ps * size ≤ length blk' =
      omega (arith, step_offset offset i size, suc-mul (length ps) size, room, same) in
    let copied : take size (h.contents (h.store.data_of (h.store.next a))) ≡ t =
      rw (l.0, hold.0, hold.1) (take_all size t (omega (arith, full.0))) in
    let later = copy_in-records h size offset (suc i) x tail ps ts blk' l.2 hold.2 full.1 room' in
    let first : read_at o size (copy_in h size offset (suc i) (length ps) (h.store.next x) blk')
        ≡ t =
      copy_in-before h size offset (suc i) (length ps) (h.store.next x) o size blk'
        (omega (arith, step_offset offset i size))
        (omega (arith, same, room, suc-mul (length ps) size)) room'
      ∙ ap (λ n. read_at o n blk') (sym full.0)
      ∙ read_at-write_at o t blk in
    let rest = copy_in h size offset (suc i) (length ps) in
    let unrolled : copy_in h size offset i (suc (length ps)) (h.store.next a) blk
        ≡ rest (h.store.next x) blk' =
      ap (λ bytes. rest (h.store.next (h.store.next a)) (write_at o bytes blk)) copied
      ∙ ap (λ y. rest (h.store.next y) blk') l.0 in
    ap (records size offset i (suc (length ps))) unrolled
    ∙ ap (λ f. f ∷ records size offset (suc i) (length ps) (rest (h.store.next x) blk')) first
    ∙ ap (λ r. t ∷ r) later

pub length-links : (qs : List Pair) → length (links qs) ≡ length qs
length-links [] = refl
length-links ((b, l) ∷ qs) = ap suc (length-links qs)

records-AllFull :
    (size offset i n : ℕ) (blk : List ℕ)
    → offset + i * size + n * size ≤ length blk
    → AllFull size (records size offset i n blk)
records-AllFull size offset i zero blk room = tt
records-AllFull size offset i (suc n) blk room = (
  length-read_at (offset + i * size) size blk (omega (arith, room, suc-mul n size)),
  records-AllFull size offset (suc i) n blk
      (omega (arith, step_offset offset i size, suc-mul n size, room)),
)

-- The records of a block are copied to a list, one link for each in their order; copied from there
-- to another block, at the same offset, they are the same records, and nothing before them is
-- changed.
pub block_to_list-list_to_block :
    (blk blk' : List ℕ) (size offset : ℕ) (lh : ListHeader) (h : Heap) (qs : List Pair)
    (more : List ℕ)
    → IsList h.store lh []
    → h.supply ≡ addresses qs ++ more
    → CanTake lh.head lh.tail [] qs
    → length qs < 2 ^ 64
    → offset + length qs * size ≤ length blk
    → offset + length qs * size ≤ length blk'
    → let n = length qs in
      (r : ListHeader × Heap) × (back : List ℕ) × (block_to_list lh h blk size n offset
        ≡ some (ok, r.0, r.1))
      × IsList r.1.store r.0 (links qs)
      × Holds r.1 qs (records size offset 0 n blk)
      × (list_to_block r.0 r.1 blk' size n offset ≡ (ok, back, r.1.fio_error))
      × (records size offset 0 n back ≡ records size offset 0 n blk)
      × (read_at 0 offset back ≡ read_at 0 offset blk')
unfolding block_to_list list_to_block
block_to_list-list_to_block blk blk' size offset lh h qs more is supply can short room room' =
    let n = length qs in
    let plain = record lh { type = ListType.unsorted } in
    let start : IsList h.store plain [] = record {
      chain = is.chain;
      distinct = is.distinct;
      counted = is.counted;
    } in
    let (r, run, out) =
      copy_out-CopiesOut blk size offset 0 [] qs [] plain h more start (unfold Holds in tt) refl
        supply can in
    let counted : r.0.number ≡ n = omega (arith, out.holds.counted, length-links qs, short) in
    let inside : offset + 0 * size + n * size ≤ length blk = omega (arith, zero-mul size, room) in
    let inside' : offset + 0 * size + n * size ≤ length blk' =
      omega (arith, zero-mul size, room') in
    (
      r,
      copy_in r.1 size offset 0 n (r.1.store.next r.0.head) blk',
      run,
      out.holds,
      out.copies,
      rw (counted, ==_self n) refl,
      copy_in-records r.1 size offset 0 r.0.head r.0.tail qs (records size offset 0 n blk) blk'
          out.holds.chain out.copies (records-AllFull size offset 0 n blk inside) inside',
      copy_in-before r.1 size offset 0 n (r.1.store.next r.0.head) 0 offset blk' (omega arith)
          (omega (arith, room')) inside',
    )

-- What was copied to a block is copied back.
block_to_buffer-buffer_to_block :
    (buf buf' blk : List ℕ) (size offset : ℕ)
    → length buf ≡ size
    → length buf' ≡ size
    → block_to_buffer buf' (buffer_to_block buf blk size offset) size offset ≡ buf
unfolding block_to_buffer buffer_to_block
block_to_buffer-buffer_to_block buf buf' blk size offset e e' =
    ap (λ b. write_at 0 (read_at offset size (write_at offset b blk)) buf')
      (take_all size buf (omega (arith, e)))
    ∙ ap (λ n. write_at 0 (read_at offset n (write_at offset buf blk)) buf') (sym e)
    ∙ ap (λ b. write_at 0 b buf') (read_at-write_at offset buf blk)
    ∙ write_over buf buf' (omega (arith, e, e'))

pub length-copy_in :
    (h : Heap) (size offset i n lnk : ℕ) (blk : List ℕ)
    → offset + i * size + n * size ≤ length blk
    → length (copy_in h size offset i n lnk blk) ≡ length blk
unfolding copy_in
length-copy_in h size offset i zero lnk blk room = refl
length-copy_in h size offset i (suc n) lnk blk room =
    let bytes = take size (h.contents (h.store.data_of lnk)) in
    let same = length-write_at (offset + i * size) bytes blk (
      omega
        (arith, length-take_le size (h.contents (h.store.data_of lnk)), room, suc-mul n size)) in
    length-copy_in h size offset (suc i) n (h.store.next lnk)
      (write_at (offset + i * size) bytes blk)
      (omega (arith, step_offset offset i size, suc-mul n size, room, same))
    ∙ same
