-- ===== src/Prelude/Lists.antt =====
-- Lists measured by native numbers, under the library's names.
use Prim.Native.Nat.{ℕ, suc, ◌+◌}
use mathlib.Core.Path.{◌≡◌, refl}
use mathlib.Core.List.{List, [], ◌∷◌, ◌++◌}
use native.Mathlib.Omega.{arith}

module _ {ℓ} {A : Type ℓ} where
  abbrev pub length : List A → ℕ
  length [] = 0
  length (x ∷ xs) = suc (length xs)

  pub length-append : (xs ys : List A) → length (xs ++ ys) ≡ length xs + length ys
  length-append [] ys = omega arith
  length-append (x ∷ xs) ys = omega (arith, length-append xs ys)

  -- The last of a non-empty sequence, given as its first item and the rest.
  abbrev pub last : A → List A → A
  last a [] = a
  last a (x ∷ xs) = last x xs

  pub last-append : (a b : A) (xs ys : List A) → last a (xs ++ b ∷ ys) ≡ last b ys
  last-append a b [] ys = refl
  last-append a b (x ∷ xs) ys = last-append x b xs ys
