-- ===== src/Blocks/Refine.antt =====
-- lib/block.c: the operations on a block file do what they say to its sequence of blocks.
use osdb_dcdb.Prelude.{
  ℕ, zero, suc, ◌+◌, ◌*◌, ◌/◌, ◌^◌, ◌<◌, ◌≡◌, refl, ap, sym, ◌∙◌, ◌==◌, ==_self, true, false,
  Option, some, none, List, [], ◌∷◌, ◌++◌, arith, length, inl, inr, ltb, Option-cases,
  if◌then◌else◌,
}
use mathlib.Core.List.{append-nil}
use native.Mathlib.Nat.{mul-div_cancel}
use osdb_dcdb.Blocks.{
  File, FioErrorType, unspecified, file_seek_begin, file_seek_end, file_read, get_file_block,
  put_file_block, append_file_block,
}
use osdb_dcdb.Blocks.Bytes.{read_at, write_at, take_all, write_at-end}
use osdb_dcdb.Blocks.Sequence.{
  concat, AllFull, get_elem?, set, read_at-concat, read_at-behind, write_at-concat, concat-append,
  AllFull-set, AllFull-append, AllFull-length, overwrite-append,
}
use osdb_dcdb.Blocks.Trip.{Fits, file_write-whole, same_int-small, with_block, put_file_block-ok}
use osdb_dcdb.Links.{Status, ok, error}

-- The file holds these blocks, and nothing else.
pub record IsBlockFile (size : ℕ) (bs : List (List ℕ)) (f : File) : Type 0 where
  pub holds : f.bytes ≡ concat bs
  pub full : AllFull size bs
  pub some_bytes : 0 < size

-- What `getFileBlock` promises: the block of the number, in the buffer, or an error.
abbrev pub promised : List ℕ → Option (List ℕ) → Status × List ℕ
promised buf none = (error, buf)
promised buf (some b) = (ok, b)

all_full :
    (size n : ℕ) (bs : List (List ℕ)) (b : List ℕ)
    → AllFull size bs
    → get_elem? bs n ≡ some b
    → length b ≡ size
all_full size n [] b h e = cc
all_full size zero (b' ∷ bs) b h e = ground (arith, h.0)
all_full size (suc n) (b' ∷ bs) b h e = all_full size n bs b h.1 e

get_file_block-found :
    (f : File) (buf : List ℕ) (n size : ℕ) (found : List ℕ)
    → n * size < 2 ^ 63
    → read_at (n * size) size f.bytes ≡ found
    → get_file_block f buf n size ≡ (
      if size == length found then ok else error,
      write_at 0 found buf,
      if size == length found
          then record f { place = n * size + length found }
          else record f { place = n * size + length found; fio_error = unspecified },
    )
unfolding get_file_block file_seek_begin file_read
get_file_block-found f buf n size found near e =
    let far : ltb (n * size) (2 ^ 63) ≡ true = ground arith in
    rw (far, ==_self (n * size), e) (ground arith)

moved :
    {size : ℕ} {bs : List (List ℕ)} {f : File}
    → IsBlockFile size bs f
    → (p : ℕ) (e : FioErrorType) → IsBlockFile size bs (record f { place = p; fio_error = e })
moved is p e = record { holds = is.holds; full = is.full; some_bytes = is.some_bytes }

pub write_over : (b buf : List ℕ) → length b ≡ length buf → write_at 0 b buf ≡ b
write_over b buf e = rw (append-nil b) at (rw (append-nil buf) at (overwrite-append b buf [] e))

-- A block is read as the sequence has it, and a number behind its end is an error that leaves the
-- buffer as it was; the file is not changed.
pub get_file_block-promised :
    (f : File) (bs : List (List ℕ)) (buf : List ℕ) (n size : ℕ)
    → IsBlockFile size bs f
    → length buf ≡ size
    → n * size < 2 ^ 63
    → let (status, blk, g) = get_file_block f buf n size in
      ((status, blk) ≡ promised buf (get_elem? bs n)) × IsBlockFile size bs g × (g.room ≡ f.room)
get_file_block-promised f bs buf n size is fits near = elim (Option-cases (get_elem? bs n)) [
  | inl out ↦
      let found =
        get_file_block-found f buf n size [] near
          (rw is.holds (read_at-behind size n bs is.full out)) in
      let short : (size == 0) ≡ false = let pos = is.some_bytes in ground arith in
      rw (found, out, short) (refl, moved is (n * size + 0) unspecified, refl)
  | inr (b, e) ↦
      let found =
        get_file_block-found f buf n size b near
          (rw is.holds (read_at-concat size n bs b is.full e)) in
      let full = all_full size n bs b is.full e in
      let whole : (size == length b) ≡ true = ground arith in
      rw (found, e, whole, write_over b buf (omega (arith, full, fits)))
        (refl, moved is (n * size + length b) f.fio_error, refl)
]

-- A block of the sequence is replaced.
pub put_file_block-set :
    (f : File) (bs : List (List ℕ)) (blk : List ℕ) (n size : ℕ)
    → IsBlockFile size bs f
    → Fits f blk (n * size) size
    → n < length bs
    → (g : File) × (put_file_block f blk n size ≡ (ok, g))
      × IsBlockFile size (set n blk bs) g
      × (g.room ≡ f.room)
put_file_block-set f bs blk n size is fits lt = (
  with_block f blk (n * size),
  put_file_block-ok f blk n size fits,
  record {
    holds =
        ap (write_at (n * size) blk) is.holds ∙ write_at-concat size n bs blk is.full fits.full lt;
    full = AllFull-set size n bs blk is.full fits.full;
    some_bytes = is.some_bytes;
  },
  refl,
)

-- A block is added, and its number is the number of blocks before.
pub append_file_block-append :
    (f : File) (bs : List (List ℕ)) (blk : List ℕ) (size : ℕ)
    → IsBlockFile size bs f
    → Fits f blk (length f.bytes) size
    → (g : File) × (append_file_block f blk size ≡ (some (length bs), g))
      × IsBlockFile size (bs ++ blk ∷ []) g
      × (g.room ≡ f.room)
unfolding append_file_block file_seek_end
append_file_block-append f bs blk size is fits =
    let number : length f.bytes / size ≡ length bs =
      ap (λ l. length l / size) is.holds
      ∙ ap (λ l. l / size) (AllFull-length size bs is.full)
      ∙ mul-div_cancel (length bs) is.some_bytes in
    (
      with_block f blk (length f.bytes),
      rw
          (
            take_all size blk (omega (arith, fits.full)),
            file_write-whole (record f { place = length f.bytes }) blk
                (omega (arith, fits.full, fits.some_bytes)) (omega (arith, fits.full, fits.room)),
            fits.full,
            same_int-small size fits.small,
            number,
          )
          refl,
      record {
        holds = write_at-end blk f.bytes ∙ ap (λ l. l ++ blk) is.holds ∙ sym (concat-append bs blk);
        full = AllFull-append size bs blk is.full fits.full;
        some_bytes = is.some_bytes;
      },
      refl,
    )
