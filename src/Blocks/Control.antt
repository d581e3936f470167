-- ===== src/Blocks/Control.antt =====
-- lib/block.c: block files that are created, opened and closed. Their first block is the control
-- block. The outcome of `creat` and `open` is an argument, `none` for success.
use osdb_dcdb.Prelude.{
  ℕ, ◌^◌, ◌+◌, ◌≤◌, ◌<◌, ◌≡◌, refl, ap, sym, ◌∙◌, ==_self, Option, some, none, List, [], ◌∷◌, arith,
  length, if◌then◌else◌,
}
use mathlib.Core.List.{append-nil}
use osdb_dcdb.Blocks
use osdb_dcdb.Blocks.{
  File, FioErrorType, set_fio_error, same_int, same_off, fail, file_seek_begin, file_read,
  file_write,
}
use osdb_dcdb.Blocks.Bytes.{take, take_all, read_at, write_at, write_at-end}
use osdb_dcdb.Blocks.Sequence.{concat, overwrite-append, take-append}
use osdb_dcdb.Blocks.Refine.{IsBlockFile, write_over}
use osdb_dcdb.Blocks.Trip.{file_write-whole, same_int-small}
use osdb_dcdb.Links.{Status, ok}

pub data Errno : Type 0 where
  eacces emfile enfile enoent other : Errno

abbrev pub create_error : Errno → FioErrorType
create_error Errno.eacces = Blocks.denied
create_error Errno.emfile = Blocks.too_many
create_error Errno.enoent = Blocks.no_file
create_error _ = Blocks.unspecified

abbrev pub open_error : Errno → FioErrorType
open_error Errno.eacces = Blocks.denied
open_error Errno.emfile = Blocks.too_many
open_error Errno.enfile = Blocks.too_many
open_error Errno.enoent = Blocks.no_file
open_error _ = Blocks.unspecified

-- A file that has just been opened, with these bytes.
abbrev pub opened : ℕ → FioErrorType → List ℕ → File
opened room e bytes = record { bytes = bytes; place = 0; room = room; fio_error = e }

-- What is left in `fioError`, and the open file.
abbrev pub Opened : Type 0
Opened = Option File × FioErrorType

unfoldable pub create_block_file :
    (creating opening : Option Errno) (room : ℕ) (e : FioErrorType) (blksize : ℕ) (control : List ℕ)
    → Opened
create_block_file (some n) opening room e blksize control = (none, create_error n)
create_block_file none (some n) room e blksize control = (none, open_error n)
create_block_file none none room e blksize control =
    let (status, g) = file_write (opened room e []) (take blksize control) in
    if same_int blksize status then (some g, g.fio_error) else (none, Blocks.unspecified)

-- The buffer for the control block comes back too.
unfoldable pub open_block_file :
    (opening : Option Errno) (room : ℕ) (e : FioErrorType) (bytes : List ℕ) (blksize : ℕ)
    (control : List ℕ)
    → Opened × List ℕ
open_block_file (some n) room e bytes blksize control = ((none, open_error n), control)
open_block_file none room e bytes blksize control =
    let (status, found, g) = file_read (opened room e bytes) blksize in
    let control' = write_at 0 found control in
    if same_int blksize status
    then ((some g, g.fio_error), control')
    else ((none, Blocks.unspecified), control')

unfoldable pub close_block_file : File → ℕ → List ℕ → Status × File
close_block_file f blksize control =
    let g = (file_seek_begin f 0).1 in
    let (status, h) = file_write g (take blksize control) in
    if same_off blksize status then (ok, h) else fail h

-- A control block that the file can take.
pub record FitsControl (room size : ℕ) (control : List ℕ) : Type 0 where
  pub whole : length control ≡ size
  pub some_bytes : 0 < size
  pub small : size < 2 ^ 31
  pub enough : size ≤ room

-- A created file has the control block as its only block.
pub create_block_file-one :
    (room : ℕ) (e : FioErrorType) (size : ℕ) (control : List ℕ)
    → FitsControl room size control
    → (f : File) × (create_block_file none none room e size control ≡ (some f, e))
      × IsBlockFile size (control ∷ []) f
unfolding create_block_file
create_block_file-one room e size control c =
    let f₀ = opened room e [] in
    (
      record f₀ { bytes = write_at 0 control []; place = 0 + length control },
      rw
          (
            take_all size control (omega (arith, c.whole)),
            file_write-whole f₀ control (omega (arith, c.whole, c.some_bytes))
                (omega (arith, c.whole, c.enough)),
            c.whole,
            same_int-small size c.small,
          )
          refl,
      record {
        holds = write_at-end control [] ∙ sym (append-nil control);
        full = (c.whole, tt);
        some_bytes = c.some_bytes;
      },
    )

-- Closing the file saves the control block, and opening it again reads it back; the other blocks
-- are as they were.
pub close-open :
    (f : File) (size : ℕ) (old control buf : List ℕ) (bs : List (List ℕ)) (e : FioErrorType)
    → IsBlockFile size (old ∷ bs) f
    → FitsControl f.room size control
    → length buf ≡ size
    → (g : File) × (h : File) × (close_block_file f size control ≡ (ok, g))
      × (open_block_file none f.room e g.bytes size buf ≡ ((some h, e), control))
      × IsBlockFile size (control ∷ bs) h
unfolding close_block_file open_block_file file_seek_begin file_read
close-open f size old control buf bs e is c full =
    let after : write_at 0 control f.bytes ≡ concat (control ∷ bs) =
      ap (write_at 0 control) is.holds
      ∙ overwrite-append control old (concat bs) (omega (arith, c.whole, is.full.0)) in
    let back : read_at 0 size (write_at 0 control f.bytes) ≡ control =
      ap (λ l. take size l) after ∙ take-append size control (concat bs) c.whole in
    let g = record f { bytes = write_at 0 control f.bytes; place = 0 + length control } in
    (
      g,
      record (opened f.room e g.bytes) { place = 0 + length control },
      rw
          (
            take_all size control (omega (arith, c.whole)),
            file_write-whole (record f { place = 0 }) control (omega (arith, c.whole, c.some_bytes))
                (omega (arith, c.whole, c.enough)),
            c.whole,
            ==_self size,
          )
          refl,
      rw
          (
            back,
            c.whole,
            same_int-small size c.small,
            write_over control buf (omega (arith, full, c.whole)),
          )
          refl,
      record { holds = after; full = (c.whole, is.full.1); some_bytes = c.some_bytes },
    )
