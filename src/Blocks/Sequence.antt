-- ===== src/Blocks/Sequence.antt =====
-- lib/block.c: a block file is a sequence of blocks of one size.
use osdb_dcdb.Prelude.{
  ℕ, zero, suc, ◌+◌, ◌*◌, ◌<◌, ◌≡◌, refl, ap, sym, ◌∙◌, Option, some, none, List, [], ◌∷◌, ◌++◌,
  arith, length, length-append,
}
use mathlib.Core.List.{append_assoc, append-nil}
use native.Mathlib.Nat.{suc-mul, zero-mul}
use osdb_dcdb.Blocks.Bytes.{take, drop, read_at, overwrite, write_at}

abbrev pub concat : List (List ℕ) → List ℕ
concat [] = []
concat (b ∷ bs) = b ++ concat bs

abbrev pub AllFull : ℕ → List (List ℕ) → Type 0
AllFull size [] = Unit
AllFull size (b ∷ bs) = (length b ≡ size) × AllFull size bs

abbrev pub get_elem? : List (List ℕ) → ℕ → Option (List ℕ)
get_elem? [] n = none
get_elem? (b ∷ bs) zero = some b
get_elem? (b ∷ bs) (suc n) = get_elem? bs n

abbrev pub set : ℕ → List ℕ → List (List ℕ) → List (List ℕ)
set n blk [] = []
set zero blk (b ∷ bs) = blk ∷ bs
set (suc n) blk (b ∷ bs) = b ∷ set n blk bs

pub take-append : (n : ℕ) (b xs : List ℕ) → length b ≡ n → take n (b ++ xs) ≡ b
take-append zero [] xs h = refl
take-append (suc n) [] xs h = absurd (omega arith)
take-append zero (y ∷ b) xs h = absurd (omega arith)
take-append (suc n) (y ∷ b) xs h = ap {B = List ℕ} (λ l. y ∷ l) (take-append n b xs (omega arith))

drop-append : (b xs : List ℕ) (o k : ℕ) → k ≡ length b + o → drop k (b ++ xs) ≡ drop o xs
drop-append [] xs o k h = ap (λ n. drop n xs) (omega arith)
drop-append (y ∷ b) xs o zero h = absurd (omega arith)
drop-append (y ∷ b) xs o (suc k) h = drop-append b xs o k (omega arith)

write_at-append :
    (b xs ds : List ℕ) (o k : ℕ)
    → k ≡ length b + o
    → write_at k ds (b ++ xs) ≡ b ++ write_at o ds xs
write_at-append [] xs ds o k h = ap (λ n. write_at n ds xs) (omega arith)
write_at-append (y ∷ b) xs ds o zero h = absurd (omega arith)
write_at-append (y ∷ b) xs ds o (suc k) h =
    ap {B = List ℕ} (λ l. y ∷ l) (write_at-append b xs ds o k (omega arith))

pub overwrite-append : (ds b xs : List ℕ) → length ds ≡ length b → overwrite ds (b ++ xs) ≡ ds ++ xs
overwrite-append [] [] xs h = refl
overwrite-append [] (y ∷ b) xs h = absurd (omega arith)
overwrite-append (d ∷ ds) [] xs h = absurd (omega arith)
overwrite-append (d ∷ ds) (y ∷ b) xs h =
    ap {B = List ℕ} (λ l. d ∷ l) (overwrite-append ds b xs (omega arith))

pub AllFull-length :
    (size : ℕ) (bs : List (List ℕ)) → AllFull size bs → length (concat bs) ≡ length bs * size
AllFull-length size [] h = omega arith
AllFull-length size (b ∷ bs) h =
    omega (
      arith,
      length-append b (concat bs),
      h.0,
      suc-mul (length bs) size,
      AllFull-length size bs h.1,
    )

next_offset : (size n : ℕ) (b : List ℕ) → length b ≡ size → suc n * size ≡ length b + n * size
next_offset size n b h = omega (arith, suc-mul n size, h)

pub read_at-concat :
    (size n : ℕ) (bs : List (List ℕ)) (b : List ℕ)
    → AllFull size bs
    → get_elem? bs n ≡ some b
    → read_at (n * size) size (concat bs) ≡ b
read_at-concat size n [] b h e = cc
read_at-concat size zero (b' ∷ bs) b h e =
    rw (zero-mul size) (take-append size b' (concat bs) h.0 ∙ ground arith)
read_at-concat size (suc n) (b' ∷ bs) b h e =
    ap (take size)
      (drop-append b' (concat bs) (n * size) (suc n * size) (next_offset size n b' h.0))
    ∙ read_at-concat size n bs b h.1 e

read_at-nil : (o n : ℕ) → read_at o n [] ≡ []
read_at-nil zero zero = refl
read_at-nil zero (suc n) = refl
read_at-nil (suc o) zero = refl
read_at-nil (suc o) (suc n) = refl

-- Behind the blocks nothing is read.
pub read_at-behind :
    (size n : ℕ) (bs : List (List ℕ))
    → AllFull size bs
    → get_elem? bs n ≡ none
    → read_at (n * size) size (concat bs) ≡ []
read_at-behind size n [] h e = read_at-nil (n * size) size
read_at-behind size zero (b' ∷ bs) h e = cc
read_at-behind size (suc n) (b' ∷ bs) h e =
    ap (take size)
      (drop-append b' (concat bs) (n * size) (suc n * size) (next_offset size n b' h.0))
    ∙ read_at-behind size n bs h.1 e

pub write_at-concat :
    (size n : ℕ) (bs : List (List ℕ)) (blk : List ℕ)
    → AllFull size bs
    → length blk ≡ size
    → n < length bs
    → write_at (n * size) blk (concat bs) ≡ concat (set n blk bs)
write_at-concat size n [] blk h full lt = absurd (omega arith)
write_at-concat size zero (b ∷ bs) blk h full lt =
    rw (zero-mul size) (overwrite-append blk b (concat bs) (omega (arith, full, h.0)))
write_at-concat size (suc n) (b ∷ bs) blk h full lt =
    write_at-append b (concat bs) blk (n * size) (suc n * size) (next_offset size n b h.0)
    ∙ ap (λ l. b ++ l) (write_at-concat size n bs blk h.1 full (omega arith))

pub concat-append : (bs : List (List ℕ)) (blk : List ℕ) → concat (bs ++ blk ∷ []) ≡ concat bs ++ blk
concat-append [] blk = append-nil blk
concat-append (b ∷ bs) blk =
    ap (λ l. b ++ l) (concat-append bs blk) ∙ sym (append_assoc b (concat bs) blk)

pub AllFull-set :
    (size n : ℕ) (bs : List (List ℕ)) (blk : List ℕ)
    → AllFull size bs
    → length blk ≡ size
    → AllFull size (set n blk bs)
AllFull-set size n [] blk h full = tt
AllFull-set size zero (b ∷ bs) blk h full = (full, h.1)
AllFull-set size (suc n) (b ∷ bs) blk h full = (h.0, AllFull-set size n bs blk h.1 full)

pub AllFull-append :
    (size : ℕ) (bs : List (List ℕ)) (blk : List ℕ)
    → AllFull size bs
    → length blk ≡ size
    → AllFull size (bs ++ blk ∷ [])
AllFull-append size [] blk h full = (full, tt)
AllFull-append size (b ∷ bs) blk h full = (h.0, AllFull-append size bs blk h.1 full)

pub length-set : (n : ℕ) (blk : List ℕ) (bs : List (List ℕ)) → length (set n blk bs) ≡ length bs
length-set n blk [] = refl
length-set zero blk (b ∷ bs) = refl
length-set (suc n) blk (b ∷ bs) = ap suc (length-set n blk bs)
