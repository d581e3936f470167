-- ===== src/Blocks/Bytes.antt =====
-- Sequences of bytes: what is read at an offset and what is written there.
use osdb_dcdb.Prelude.{
  ℕ, zero, suc, ◌+◌, ◌-◌, ◌≤◌, ◌≡◌, refl, ap, List, [], ◌∷◌, ◌++◌, arith, length, ◌⊎◌, inl, inr,
}

-- At most `n` bytes from an offset on.
abbrev pub take : ℕ → List ℕ → List ℕ
take zero xs = []
take (suc n) [] = []
take (suc n) (x ∷ xs) = x ∷ take n xs

abbrev pub drop : ℕ → List ℕ → List ℕ
drop zero xs = xs
drop (suc n) [] = []
drop (suc n) (x ∷ xs) = drop n xs

abbrev pub read_at : ℕ → ℕ → List ℕ → List ℕ
read_at offset n xs = take n (drop offset xs)

-- The bytes `ds` over the first ones of `xs`.
abbrev pub overwrite : List ℕ → List ℕ → List ℕ
overwrite [] xs = xs
overwrite (d ∷ ds) [] = d ∷ overwrite ds []
overwrite (d ∷ ds) (x ∷ xs) = d ∷ overwrite ds xs

-- The same at an offset: a gap is filled with zeros.
abbrev pub write_at : ℕ → List ℕ → List ℕ → List ℕ
write_at zero ds xs = overwrite ds xs
write_at (suc n) ds [] = 0 ∷ write_at n ds []
write_at (suc n) ds (x ∷ xs) = x ∷ write_at n ds xs

pub length-take : (n : ℕ) (xs : List ℕ) → n ≤ length xs → length (take n xs) ≡ n
length-take zero xs h = refl
length-take (suc n) [] h = absurd (omega arith)
length-take (suc n) (x ∷ xs) h = omega (arith, length-take n xs)

pub length-drop : (n : ℕ) (xs : List ℕ) → length (drop n xs) ≡ length xs - n
length-drop zero xs = omega arith
length-drop (suc n) [] = omega arith
length-drop (suc n) (x ∷ xs) = omega (arith, length-drop n xs)

pub length-read_at :
    (offset n : ℕ) (xs : List ℕ) → offset + n ≤ length xs → length (read_at offset n xs) ≡ n
length-read_at offset n xs h = length-take n (drop offset xs) (omega (arith, length-drop offset xs))

pub take_all : (n : ℕ) (xs : List ℕ) → length xs ≤ n → take n xs ≡ xs
take_all zero [] h = refl
take_all (suc n) [] h = refl
take_all zero (x ∷ xs) h = absurd (omega arith)
take_all (suc n) (x ∷ xs) h = ap {B = List ℕ} (λ l. x ∷ l) (take_all n xs (omega arith))

take-overwrite : (ds xs : List ℕ) → take (length ds) (overwrite ds xs) ≡ ds
take-overwrite [] xs = refl
take-overwrite (d ∷ ds) [] = ap {B = List ℕ} (λ l. d ∷ l) (take-overwrite ds [])
take-overwrite (d ∷ ds) (x ∷ xs) = ap {B = List ℕ} (λ l. d ∷ l) (take-overwrite ds xs)

-- What was written is read back.
pub read_at-write_at :
    (offset : ℕ) (ds xs : List ℕ) → read_at offset (length ds) (write_at offset ds xs) ≡ ds
read_at-write_at zero ds xs = take-overwrite ds xs
read_at-write_at (suc n) ds [] = read_at-write_at n ds []
read_at-write_at (suc n) ds (x ∷ xs) = read_at-write_at n ds xs

drop-overwrite :
    (m : ℕ) (ds xs : List ℕ) → length ds ≤ m → m ≤ length xs → drop m (overwrite ds xs) ≡ drop m xs
drop-overwrite m [] xs h le = refl
drop-overwrite zero (d ∷ ds) xs h le = absurd (omega arith)
drop-overwrite (suc m) (d ∷ ds) [] h le = absurd (omega arith)
drop-overwrite (suc m) (d ∷ ds) (x ∷ xs) h le = drop-overwrite m ds xs (omega arith) (omega arith)

take-write_at :
    (n offset : ℕ) (ds xs : List ℕ)
    → n ≤ offset
    → n ≤ length xs
    → take n (write_at offset ds xs) ≡ take n xs
take-write_at zero offset ds xs h le = refl
take-write_at (suc n) zero ds xs h le = absurd (omega arith)
take-write_at (suc n) (suc m) ds [] h le = absurd (omega arith)
take-write_at (suc n) (suc m) ds (x ∷ xs) h le =
    ap {B = List ℕ} (λ l. x ∷ l) (take-write_at n m ds xs (omega arith) (omega arith))

-- What stands before or behind the place that is written stays.
pub read_at-write_at-apart :
    (at n offset : ℕ) (ds xs : List ℕ)
    → (at + n ≤ offset) ⊎ (offset + length ds ≤ at)
    → at + n ≤ length xs
    → read_at at n (write_at offset ds xs) ≡ read_at at n xs
read_at-write_at-apart zero n offset ds xs (inl h) le =
    take-write_at n offset ds xs (omega arith) (omega arith)
read_at-write_at-apart at n zero ds xs (inr h) le =
    ap (take n) (drop-overwrite at ds xs (omega arith) (omega arith))
read_at-write_at-apart (suc at) n zero ds xs (inl h) le = absurd (omega arith)
read_at-write_at-apart zero n (suc offset) ds xs (inr h) le = absurd (omega arith)
read_at-write_at-apart (suc at) n (suc offset) ds [] h le = absurd (omega arith)
read_at-write_at-apart (suc at) n (suc offset) ds (x ∷ xs) (inl h) le =
    read_at-write_at-apart at n offset ds xs (inl (omega arith)) (omega arith)
read_at-write_at-apart (suc at) n (suc offset) ds (x ∷ xs) (inr h) le =
    read_at-write_at-apart at n offset ds xs (inr (omega arith)) (omega arith)

length-overwrite : (ds xs : List ℕ) → length ds ≤ length xs → length (overwrite ds xs) ≡ length xs
length-overwrite [] xs h = refl
length-overwrite (d ∷ ds) [] h = absurd (omega arith)
length-overwrite (d ∷ ds) (x ∷ xs) h = omega (arith, length-overwrite ds xs)

pub length-write_at :
    (offset : ℕ) (ds xs : List ℕ)
    → offset + length ds ≤ length xs
    → length (write_at offset ds xs) ≡ length xs
length-write_at zero ds xs h = length-overwrite ds xs (omega arith)
length-write_at (suc n) ds [] h = absurd (omega arith)
length-write_at (suc n) ds (x ∷ xs) h = omega (arith, length-write_at n ds xs)

-- At the end the bytes are added.
overwrite-nil : (ds : List ℕ) → overwrite ds [] ≡ ds
overwrite-nil [] = refl
overwrite-nil (d ∷ ds) = ap {B = List ℕ} (λ l. d ∷ l) (overwrite-nil ds)

pub write_at-end : (ds xs : List ℕ) → write_at (length xs) ds xs ≡ xs ++ ds
write_at-end ds [] = overwrite-nil ds
write_at-end ds (x ∷ xs) = ap {B = List ℕ} (λ l. x ∷ l) (write_at-end ds xs)
