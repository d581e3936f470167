-- ===== src/Blocks.antt =====
-- lib/block.c with the file functions of lib/sort.c that it calls: a file of blocks of one size.
-- A file is its bytes, the place where it stands, and the size that the device lets it reach: a
-- write that would pass it is short, or fails when nothing fits. An off_t is below 2^63, and the
-- result of a call of the system is `none` for -1.
pub mod Back
pub mod Bytes
pub mod Calls
pub mod Control
pub mod Copies
pub mod Records
pub mod Refine
pub mod Sequence
pub mod Trip
use osdb_dcdb.Prelude.{
  ℕ, ◌+◌, ◌-◌, ◌*◌, ◌/◌, ◌%◌, ◌^◌, Bool, true, false, Option, none, some, List, [], length, ltb,
  leb, ◌==◌, if◌then◌else◌,
}
use osdb_dcdb.Blocks.Bytes.{take, read_at, write_at}
use osdb_dcdb.Links.{Status, ok, error}

pub data FioErrorType : Type 0 where
  no_error denied too_many no_file bad_fd prohib deadlk no_lock no_memory unspecified : FioErrorType

-- An open file, with the global variable `fioError`.
pub record File : Type 0 where
  pub bytes : List ℕ
  pub place : ℕ
  pub room : ℕ
  pub fio_error : FioErrorType

abbrev pub set_fio_error : FioErrorType → File → File
set_fio_error e f = record f { fio_error = e }

unfoldable pub file_seek_begin : File → ℕ → Option ℕ × File
file_seek_begin f offset =
    if ltb offset (2 ^ 63)
    then (some offset, record f { place = offset })
    else (none, set_fio_error unspecified f)

-- With an offset of 0, as all callers here have it.
unfoldable pub file_seek_end : File → Option ℕ × File
file_seek_end f = (some (length f.bytes), record f { place = length f.bytes })

-- What there is of `n` bytes.
unfoldable pub file_read : File → ℕ → Option ℕ × List ℕ × File
file_read f n =
    let found = read_at f.place n f.bytes in
    (some (length found), found, record f { place = f.place + length found })

unfoldable pub file_write : File → List ℕ → Option ℕ × File
file_write f buf =
    let fits = take (f.room - f.place) buf in
    if length buf == 0
    then (some 0, f)
    else if length fits == 0
    then (none, set_fio_error unspecified f)
    else (
      some (length fits),
      record f { bytes = write_at f.place fits f.bytes; place = f.place + length fits },
    )

-- `blksize == (int) status`, for a status that is not -1: the int has the low 32 bits.
abbrev pub same_int : ℕ → Option ℕ → Bool
same_int blksize none = false
same_int blksize (some status) =
    let low = status % 2 ^ 32 in if ltb low (2 ^ 31) then blksize == low else false

-- `blksize == (off_t) status`
abbrev pub same_off : ℕ → Option ℕ → Bool
same_off blksize none = false
same_off blksize (some status) = blksize == status

abbrev pub fail : File → Status × File
fail f = (error, set_fio_error unspecified f)

-- The buffer comes back too: a short read leaves its end as it was.
unfoldable pub get_file_block : File → List ℕ → ℕ → ℕ → Status × List ℕ × File
get_file_block f blk blknum blksize =
    let offset = blknum * blksize in
    let (sought, g) = file_seek_begin f offset in
    let (status, found, h) = file_read g blksize in
    if same_off offset sought
    then if same_off blksize status
      then (ok, write_at 0 found blk, h)
      else (error, write_at 0 found blk, set_fio_error unspecified h)
    else (error, blk, set_fio_error unspecified g)

unfoldable pub put_file_block : File → List ℕ → ℕ → ℕ → Status × File
put_file_block f blk blknum blksize =
    let offset = blknum * blksize in
    let (sought, g) = file_seek_begin f offset in
    let (status, h) = file_write g (take blksize blk) in
    if same_off offset sought then if same_int blksize status then (ok, h) else fail h else fail g

-- The number of the new block, or `none` for `_ERROR_`.
unfoldable pub append_file_block : File → List ℕ → ℕ → Option ℕ × File
append_file_block f blk blksize =
    let g = (file_seek_end f).1 in
    let (status, h) = file_write g (take blksize blk) in
    if same_int blksize status
    then (some (length f.bytes / blksize), h)
    else (none, set_fio_error unspecified h)

-- `memcpy` from a buffer to a place in a block, and back.
unfoldable pub buffer_to_block : List ℕ → List ℕ → ℕ → ℕ → List ℕ
buffer_to_block buf blk size offset = write_at offset (take size buf) blk

unfoldable pub block_to_buffer : List ℕ → List ℕ → ℕ → ℕ → List ℕ
block_to_buffer buf blk size offset = write_at 0 (read_at offset size blk) buf
