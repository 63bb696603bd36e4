-- ===== src/Prelude/Lists.antt =====
-- Lists of names: membership as Go's `slices.Contains`, and predicates by recursion.
use Prim.Native.Nat.{ℕ, suc, ◌≤◌}
use Prim.Native.String.{String}
use mathlib.Core.Path.{◌≡◌, refl, ap}
use mathlib.Core.Bool.{Bool, true, false, ◌||◌}
use mathlib.Core.List.{List, [], ◌∷◌, ◌++◌, map}
use native.Mathlib.Omega.{arith}
use blackstart.Prelude.Tests.{if◌then◌else◌}
use text.Mathlib.Text.{◌==◌}
use text.Mathlib.TextEquality.{eq_iff}

-- slices.Contains
abbrev pub contains : List String → String → Bool
contains [] a = false
contains (x ∷ xs) a = x == a || contains xs a

module _ {ℓ} {A : Type ℓ} where
  abbrev pub length : List A → ℕ
  length [] = 0
  length (x ∷ xs) = suc (length xs)

  abbrev pub All {κ} : (A → Type κ) → List A → Type κ
  All P [] = Unit
  All P (x ∷ xs) = P x × All P xs

pub contains-append :
    (xs ys : List String) (a : String) → contains (xs ++ ys) a ≡ (contains xs a || contains ys a)
contains-append [] ys a = refl
contains-append (x ∷ xs) ys a = ground (arith, contains-append xs ys a)

pub contains-head : (a : String) (xs : List String) → contains (a ∷ xs) a ≡ true
contains-head a xs = ground (arith, eq_iff a a)

-- No name comes twice.
abbrev pub IsDistinct : List String → Type 0
IsDistinct [] = Unit
IsDistinct (x ∷ xs) = (contains xs x ≡ false) × IsDistinct xs

remove : String → List String → List String
remove a [] = []
remove a (x ∷ xs) = if x == a then xs else x ∷ remove a xs

length-remove :
    (a : String) (xs : List String) → contains xs a ≡ true → length xs ≡ suc (length (remove a xs))
unfolding remove
length-remove a [] m = cc
length-remove a (x ∷ xs) m = ground (arith, length-remove a xs)

contains-remove :
    (a b : String) (xs : List String)
    → contains xs b ≡ true
    → (a == b) ≡ false
    → contains (remove a xs) b ≡ true
unfolding remove
contains-remove a b [] m ne = cc
contains-remove a b (x ∷ xs) m ne = ground (arith, contains-remove a b xs, eq_iff x a)

-- Distinct names that all stand in `ys` are at most as many.
pub length-le_of_subset :
    (xs ys : List String)
    → IsDistinct xs
    → ((a : String) → contains xs a ≡ true → contains ys a ≡ true)
    → length xs ≤ length ys
length-le_of_subset [] ys distinct sub = omega arith
length-le_of_subset (x ∷ xs) ys distinct sub = omega (
  arith,
  length-remove x ys (sub x (contains-head x xs)),
  length-le_of_subset xs (remove x ys) distinct.1 (λ a m.
      contains-remove x a ys (sub a (ground arith)) (ground (arith, distinct.0, eq_iff x a))),
)

pub length-map {ℓ κ} :
    {A : Type ℓ} {B : Type κ} (f : A → B) (xs : List A) → length (map f xs) ≡ length xs
length-map f [] = refl
length-map f (x ∷ xs) = ap suc (length-map f xs)
