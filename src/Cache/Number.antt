-- ===== src/Cache/Number.antt =====
-- include/index.h: `numKeyItems`, the first 4 bytes of a block.
use osdb_dcdb.Prelude.{
  ℕ, ◌+◌, ◌*◌, ◌/◌, ◌%◌, ◌^◌, ◌<◌, ◌≤◌, ◌≡◌, ap, ◌∙◌, arith, List, [], ◌∷◌, length,
}
use osdb_dcdb.Blocks.Bytes.{read_at, write_at, read_at-write_at, length-write_at}

-- The value of some bytes, the lowest first.
abbrev pub value : List ℕ → ℕ
value [] = 0
value (b ∷ bs) = b + 256 * value bs

unfoldable pub get_number : List ℕ → ℕ
get_number blk = value (read_at 0 4 blk)

unfoldable pub set_number : ℕ → List ℕ → List ℕ
set_number n blk =
    write_at 0 (n % 256 ∷ n / 256 % 256 ∷ n / 65536 % 256 ∷ n / 16777216 % 256 ∷ []) blk

-- The number is read back from the block that it was written to.
pub get_number-set_number : (n : ℕ) (blk : List ℕ) → n < 2 ^ 32 → get_number (set_number n blk) ≡ n
unfolding get_number set_number
get_number-set_number n blk h =
    ap value
      (read_at-write_at 0 (n % 256 ∷ n / 256 % 256 ∷ n / 65536 % 256 ∷ n / 16777216 % 256 ∷ []) blk)
    ∙ omega arith

pub length-set_number :
    (n : ℕ) (blk : List ℕ) → 4 ≤ length blk → length (set_number n blk) ≡ length blk
unfolding set_number
length-set_number n blk h =
    length-write_at 0 (n % 256 ∷ n / 256 % 256 ∷ n / 65536 % 256 ∷ n / 16777216 % 256 ∷ []) blk h
