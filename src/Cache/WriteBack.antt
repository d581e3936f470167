-- ===== src/Cache/WriteBack.antt =====
-- lib/idxblk.c: the items of a block are written to the file.
use osdb_dcdb.Prelude.{
  ℕ, ◌+◌, ◌*◌, ◌%◌, ◌^◌, ◌≤◌, ◌<◌, ◌≡◌, refl, ap, ◌∙◌, List, arith, ◌==◌, ==_self, if◌then◌else◌,
  length,
}
use native.Mathlib.Nat.{zero-mul}
use osdb_dcdb.Blocks.{File, put_file_block}
use osdb_dcdb.Blocks.Back.{copy_in-records, copy_in-before, length-copy_in, length-links}
use osdb_dcdb.Blocks.Copies.{Heap, copy_in, list_to_block}
use osdb_dcdb.Blocks.Records.{Pair, links, records, Holds}
use osdb_dcdb.Blocks.Refine.{IsBlockFile, put_file_block-set}
use osdb_dcdb.Blocks.Sequence.{AllFull, set}
use osdb_dcdb.Blocks.Trip.{Fits}
use osdb_dcdb.Cache.{
  IdxBlock, DbIndex, set_block, flush, copy_items, put_block, through_int, block_header_size,
}
use osdb_dcdb.Cache.Number.{value, get_number, set_number, get_number-set_number, length-set_number}
use osdb_dcdb.Links.{Status, ok, ListHeader}
use osdb_dcdb.Links.Chain.{IsList}

-- The block `p` has items that fit in it, and is a block of the file, which the device has room for.
pub record CanFlush (idx : DbIndex) (p : ℕ) (bs : List (List ℕ)) (ps : List Pair)
    (ts : List (List ℕ)) : Type 0 where
  pub file : IsBlockFile idx.hdr.block_size bs idx.file
  pub there : (idx.blocks p).block_number < length bs
  pub items : IsList idx.heap.store (idx.blocks p).key_item_list (links ps)
  pub copies : Holds idx.heap ps ts
  pub full : AllFull (idx.blocks p).item_size ts
  pub few : length ps < 2 ^ 31
  pub sized : length (idx.blocks p).blk ≡ idx.hdr.block_size
  pub fits : block_header_size + length ps * (idx.blocks p).item_size ≤ idx.hdr.block_size
  pub small : idx.hdr.block_size < 2 ^ 31
  pub room : (idx.blocks p).block_number * idx.hdr.block_size + idx.hdr.block_size ≤ idx.file.room
  pub near : (idx.blocks p).block_number * idx.hdr.block_size < 2 ^ 63

list_to_block-whole :
    (lh : ListHeader) (h : Heap) (blk : List ℕ) (size n offset : ℕ)
    → lh.number ≡ n
    → list_to_block lh h blk size n offset
      ≡ (ok, copy_in h size offset 0 n (h.store.next lh.head) blk, h.fio_error)
unfolding list_to_block
list_to_block-whole lh h blk size n offset e = rw (e, ==_self n) refl

module _ {idx : DbIndex} {p : ℕ} {bs : List (List ℕ)} {ps : List Pair} {ts : List (List ℕ)}
    (can : CanFlush idx p bs ps ts) where
  abbrev b : IdxBlock
  b = idx.blocks p

  abbrev n : ℕ
  n = length ps

  abbrev headed : List ℕ
  headed = set_number n b.blk

  -- The bytes that are written.
  abbrev bytes : List ℕ
  bytes =
      copy_in idx.heap b.item_size block_header_size 0 n (idx.heap.store.next b.key_item_list.head)
        headed

  counted : b.key_item_list.number ≡ n
  counted = omega (arith, can.items.counted, length-links ps, can.few)

  length-headed : length headed ≡ idx.hdr.block_size
  length-headed = length-set_number n b.blk (omega (arith, can.sized, can.fits)) ∙ can.sized

  inside : block_header_size + 0 * b.item_size + n * b.item_size ≤ length headed
  inside = omega (arith, zero-mul b.item_size, can.fits, length-headed)

  length-bytes : length bytes ≡ idx.hdr.block_size
  length-bytes =
      length-copy_in idx.heap b.item_size block_header_size 0 n _ headed inside ∙ length-headed

  got : get_number headed ≡ n
  got = get_number-set_number n b.blk (omega (arith, can.few))

  get_number-bytes : get_number bytes ≡ n
  unfolding get_number
  get_number-bytes =
      ap value (
        copy_in-before idx.heap b.item_size block_header_size 0 n
          (idx.heap.store.next b.key_item_list.head) 0 4 headed (omega arith)
          (omega (arith, length-headed, can.sized, can.fits)) inside)
      ∙ got

  records-bytes : records b.item_size block_header_size 0 n bytes ≡ ts
  records-bytes =
      copy_in-records idx.heap b.item_size block_header_size 0 b.key_item_list.head
        b.key_item_list.tail ps ts headed can.items.chain can.copies can.full inside

  low : n % 2 ^ 32 ≡ n
  low = omega (arith, can.few)

  counted_bytes : through_int b.key_item_list.number ≡ n
  counted_bytes = ground (arith, counted, can.few)

  fits : Fits idx.file bytes (b.block_number * idx.hdr.block_size) idx.hdr.block_size
  fits = record {
    full = length-bytes;
    some_bytes = can.file.some_bytes;
    small = can.small;
    room = can.room;
    near = can.near;
  }

  numbered : set_number (b.key_item_list.number % 2 ^ 32) b.blk ≡ headed
  numbered = ap (λ k. set_number k b.blk) (omega (arith, counted, low))

  listed :
      list_to_block b.key_item_list idx.heap headed b.item_size n block_header_size
      ≡ (ok, bytes, idx.heap.fio_error)
  listed =
      list_to_block-whole b.key_item_list idx.heap headed b.item_size n block_header_size counted

  copied : (copy_items n p idx).1 ≡ set_block p (record b { blk = bytes }) idx
  unfolding copy_items
  copied =
      ap
        (λ blk.
          set_block p
            (record b {
              blk = (list_to_block b.key_item_list idx.heap blk b.item_size n block_header_size).1;
            })
            (record idx {
              heap = record idx.heap {
                fio_error =
                    (list_to_block b.key_item_list idx.heap blk b.item_size n block_header_size).2;
              };
            }))
        numbered
      ∙ ap
          (λ r.
            set_block p (record b { blk = r.1 })
              (record idx { heap = record idx.heap { fio_error = r.2 } }))
          listed

  put : put_block p (set_block p (record b { blk = bytes }) idx) ≡ (
    (put_file_block idx.file bytes b.block_number idx.hdr.block_size).0,
    record (set_block p (record b { blk = bytes }) idx) {
      file = (put_file_block idx.file bytes b.block_number idx.hdr.block_size).1;
    },
  )
  unfolding put_block
  put =
      ap {A = IdxBlock} {B = Status × DbIndex}
        (λ c. (
          (put_file_block idx.file c.blk c.block_number idx.hdr.block_size).0,
          record (set_block p (record b { blk = bytes }) idx) {
            file = (put_file_block idx.file c.blk c.block_number idx.hdr.block_size).1;
          },
        ))
        self
    where
      self : (if p == p then record b { blk = bytes } else b) ≡ record b { blk = bytes }
      self = rw (==_self p) refl

-- What the call leaves: the block in memory has other bytes, which count and hold its items, and
-- the file has them at the number of the block.
pub record Written (idx : DbIndex) (p : ℕ) (bs : List (List ℕ)) (ps : List Pair)
    (ts : List (List ℕ)) (bytes : List ℕ) (g : File) : Type 0 where
  pub leaves :
      flush p idx ≡ record (set_block p (record (idx.blocks p) { blk = bytes }) idx) { file = g }
  pub file : IsBlockFile idx.hdr.block_size (set (idx.blocks p).block_number bytes bs) g
  pub sized : length bytes ≡ idx.hdr.block_size
  pub number : get_number bytes ≡ length ps
  pub copies : records (idx.blocks p).item_size block_header_size 0 (length ps) bytes ≡ ts

pub flush-Written :
    {idx : DbIndex} {p : ℕ} {bs : List (List ℕ)} {ps : List Pair} {ts : List (List ℕ)}
    → CanFlush idx p bs ps ts
    → (bytes : List ℕ) × (g : File) × Written idx p bs ps ts bytes g
unfolding flush
flush-Written {idx} {p} {bs} {ps} {ts} can =
    let b = idx.blocks p in
    let (g, stored, holds, room) =
      put_file_block-set idx.file bs (bytes can) b.block_number idx.hdr.block_size can.file
        (fits can) can.there in
    (
      bytes can,
      g,
      record {
        leaves =
            ap (λ num. (put_block p (copy_items num p idx).1).1) (counted_bytes can)
            ∙ ap (λ r. (put_block p r).1) (copied can)
            ∙ ap (λ r. r.1) (put can)
            ∙ ap (λ r. record (set_block p (record b { blk = bytes can }) idx) { file = r.1 })
                stored;
        file = holds;
        sized = length-bytes can;
        number = get_number-bytes can;
        copies = records-bytes can;
      },
    )
