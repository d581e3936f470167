-- ===== src/Index/Keys.antt =====
-- lib/index.c: `caseCompare` on the bytes of two keys. `strcmp` is that of the C library, and a
-- `char` is signed; a byte behind the bytes of a key reads as 0.
use osdb_dcdb.Prelude.{
  ℕ, suc, zero, ◌+◌, ◌*◌, ◌-◌, ◌%◌, ◌^◌, ◌≡◌, refl, ◌↔◌, true, Ordering, List, [], ◌∷◌, ltb, ◌==◌,
  if◌then◌else◌, arith, is_gt, not,
}
use osdb_dcdb.Links.Order.{IsOrder, swap}

-- A char as an int, modulo the width of an unsigned int.
abbrev pub as_int : ℕ → ℕ
as_int b = if ltb b 128 then b else b + (2 ^ 32 - 256)

abbrev pub byte_at : ℕ → List ℕ → ℕ
byte_at i [] = 0
byte_at zero (b ∷ bs) = b
byte_at (suc i) (b ∷ bs) = byte_at i bs

-- `HASH_STR`
unfoldable pub hash_str : List ℕ → ℕ
hash_str key =
    (as_int (byte_at 0 key) * 2 ^ 15
      + as_int (byte_at 1 key) * 2 ^ 10
      + as_int (byte_at 2 key) * 2 ^ 5
      + as_int (byte_at 3 key))
    % 2 ^ 32

-- The bytes before the first NUL.
abbrev pub c_string : List ℕ → List ℕ
c_string [] = []
c_string (b ∷ bs) = let rest = c_string bs in if b == 0 then [] else b ∷ rest

abbrev pub strings_compare : List ℕ → List ℕ → Ordering
strings_compare [] [] = Ordering.eq
strings_compare [] (b ∷ bs) = Ordering.lt
strings_compare (a ∷ ps) [] = Ordering.gt
strings_compare (a ∷ ps) (b ∷ bs) =
    let rest = strings_compare ps bs in
    if a == b then rest else if ltb a b then Ordering.lt else Ordering.gt

abbrev pub strcmp : List ℕ → List ℕ → Ordering
strcmp p q = strings_compare (c_string p) (c_string q)

unfoldable pub case_compare : List ℕ → List ℕ → Ordering
case_compare p q =
    let v₁ = hash_str p in
    let v₂ = hash_str q in
    if ltb v₁ v₂ then Ordering.lt else if ltb v₂ v₁ then Ordering.gt else strcmp p q

strings_compare-flip : (p q : List ℕ) → strings_compare q p ≡ swap (strings_compare p q)
strings_compare-flip [] [] = refl
strings_compare-flip [] (b ∷ q) = refl
strings_compare-flip (a ∷ p) [] = refl
strings_compare-flip (a ∷ p) (b ∷ q) = ground (arith, strings_compare-flip p q)

strings_compare_trans :
    (p q r : List ℕ)
    → not (is_gt (strings_compare p q)) ≡ true
    → not (is_gt (strings_compare q r)) ≡ true
    → not (is_gt (strings_compare p r)) ≡ true
strings_compare_trans [] q [] h k = refl
strings_compare_trans [] q (c ∷ r) h k = refl
strings_compare_trans (a ∷ p) [] r h k = cc
strings_compare_trans (a ∷ p) (b ∷ q) [] h k = cc
strings_compare_trans (a ∷ p) (b ∷ q) (c ∷ r) h k =
    ground (arith, strings_compare_trans p q r, h, k)

strings_compare-eq : (p q : List ℕ) → (strings_compare p q ≡ Ordering.eq) ↔ (p ≡ q)
strings_compare-eq [] [] = (λ h. refl, λ h. refl)
strings_compare-eq [] (b ∷ q) = (λ h. cc, λ h. cc)
strings_compare-eq (a ∷ p) [] = (λ h. cc, λ h. cc)
strings_compare-eq (a ∷ p) (b ∷ q) =
    (λ h. ground (arith, strings_compare-eq p q, h), λ h. ground (arith, strings_compare-eq p q, h))

-- Whatever the keys are, caseCompare compares them like a total order: exchanging the arguments
-- turns the sign, and `≤` is transitive.
pub case_compare-IsOrder : (key : ℕ → List ℕ) → IsOrder (λ a b. case_compare (key a) (key b))
unfolding case_compare
case_compare-IsOrder key = record {
  flip = λ a b. ground (arith, strings_compare-flip (c_string (key a)) (c_string (key b)));
  le_trans = λ a b c.
      ground
        (arith, strings_compare_trans (c_string (key a)) (c_string (key b)) (c_string (key c)));
}

-- Two keys are equal to caseCompare just if they are equal as strings and have the same hash.
pub case_compare-eq :
    (p q : List ℕ)
    → (case_compare p q ≡ Ordering.eq) ↔ ((hash_str p ≡ hash_str q) × (c_string p ≡ c_string q))
unfolding case_compare
case_compare-eq p q = ground (arith, strings_compare-eq (c_string p) (c_string q))
