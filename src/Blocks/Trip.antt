-- ===== src/Blocks/Trip.antt =====
-- lib/block.c: blocks that are put, read and appended.
use osdb_dcdb.Prelude.{
  ℕ, ◌+◌, ◌-◌, ◌*◌, ◌^◌, ◌≤◌, ◌<◌, ◌≡◌, refl, ==_self, true, some, List, arith, length, ltb,
}
use osdb_dcdb.Blocks.{
  File, same_int, file_seek_begin, file_read, file_write, get_file_block, put_file_block,
}
use osdb_dcdb.Blocks.Bytes.{take_all, read_at, write_at, length-read_at}
use osdb_dcdb.Links.{ok}

-- The device has room for the block at an offset, and the numbers are in the range of their types.
pub record Fits (f : File) (blk : List ℕ) (offset size : ℕ) : Type 0 where
  pub full : length blk ≡ size
  pub some_bytes : 0 < size
  pub small : size < 2 ^ 31
  pub room : offset + size ≤ f.room
  pub near : offset < 2 ^ 63

pub file_write-whole :
    (f : File) (blk : List ℕ)
    → 0 < length blk
    → f.place + length blk ≤ f.room
    → file_write f blk ≡ (
      some (length blk),
      record f { bytes = write_at f.place blk f.bytes; place = f.place + length blk },
    )
unfolding file_write
file_write-whole f blk pos h = rw (take_all (f.room - f.place) blk (omega arith)) (ground arith)

pub same_int-small : (n : ℕ) → n < 2 ^ 31 → same_int n (some n) ≡ true
same_int-small n h = ground arith

-- The file with a block written at an offset.
abbrev pub with_block : File → List ℕ → ℕ → File
with_block f blk offset = record f {
  bytes = write_at offset blk f.bytes;
  place = offset + length blk;
}

pub put_file_block-ok :
    (f : File) (blk : List ℕ) (n size : ℕ)
    → Fits f blk (n * size) size
    → put_file_block f blk n size ≡ (ok, with_block f blk (n * size))
unfolding put_file_block file_seek_begin
put_file_block-ok f blk n size fits =
    let near : ltb (n * size) (2 ^ 63) ≡ true = let h = fits.near in ground arith in
    rw
      (
        near,
        ==_self (n * size),
        take_all size blk (omega (arith, fits.full)),
        file_write-whole (record f { place = n * size }) blk
            (omega (arith, fits.full, fits.some_bytes)) (omega (arith, fits.full, fits.room)),
        fits.full,
        same_int-small size fits.small,
      )
      refl

-- A block that lies in the file is read whole.
pub get_file_block-ok :
    (f : File) (blk : List ℕ) (n size : ℕ)
    → n * size + size ≤ length f.bytes
    → n * size < 2 ^ 63
    → get_file_block f blk n size
      ≡ (ok, write_at 0 (read_at (n * size) size f.bytes) blk, record f { place = n * size + size })
unfolding get_file_block file_seek_begin file_read
get_file_block-ok f blk n size inside near =
    let far : ltb (n * size) (2 ^ 63) ≡ true = ground arith in
    rw (far, ==_self (n * size), length-read_at (n * size) size f.bytes inside, ==_self size) refl
