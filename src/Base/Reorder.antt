-- ===== src/Base/Reorder.antt =====
-- The same elements in another order, kept as the steps that lead there, and what they preserve.
use Prim.Native.Nat.{ℕ, ◌+◌}
use mathlib.Core.Path.{◌≡◌, refl, ◌∙◌}
use mathlib.Core.Bool.{Bool}
use mathlib.Core.List.{List, [], ◌∷◌, ◌++◌}
use native.Mathlib.Omega.{arith}
use gdom.Base.Lists.{any, All}

pub data IsReordered {ℓ} {A : Type ℓ} : List A → List A → Type ℓ where
  both_empty : IsReordered [] []
  same_head : (x : A) {xs ys : List A} → IsReordered xs ys → IsReordered (x ∷ xs) (x ∷ ys)
  exchange : (x y : A) (xs : List A) → IsReordered (x ∷ y ∷ xs) (y ∷ x ∷ xs)
  through : {xs ys zs : List A} → IsReordered xs ys → IsReordered ys zs → IsReordered xs zs

module _ {ℓ} {A : Type ℓ} where
  abbrev pub total : (A → ℕ) → List A → ℕ
  total weight [] = 0
  total weight (x ∷ xs) = weight x + total weight xs

  pub total-append :
      (weight : A → ℕ) (xs ys : List A)
      → total weight (xs ++ ys) ≡ total weight xs + total weight ys
  total-append weight [] ys = omega arith
  total-append weight (x ∷ xs) ys = omega (arith, total-append weight xs ys)

  pub any-IsReordered : (p : A → Bool) {xs ys : List A} → IsReordered xs ys → any p xs ≡ any p ys
  any-IsReordered p both_empty = refl
  any-IsReordered p (same_head x same) = ground (arith, any-IsReordered p same)
  any-IsReordered p (exchange x y xs) = ground arith
  any-IsReordered p (through first then_) = any-IsReordered p first ∙ any-IsReordered p then_

  pub total-IsReordered :
      (weight : A → ℕ) {xs ys : List A} → IsReordered xs ys → total weight xs ≡ total weight ys
  total-IsReordered weight both_empty = refl
  total-IsReordered weight (same_head x same) = omega (arith, total-IsReordered weight same)
  total-IsReordered weight (exchange x y xs) = omega arith
  total-IsReordered weight (through first then_) =
      total-IsReordered weight first ∙ total-IsReordered weight then_

  pub unchanged : (xs : List A) → IsReordered xs xs
  unchanged [] = both_empty
  unchanged (x ∷ xs) = same_head x (unchanged xs)

module _ {ℓ κ} {A : Type ℓ} where
  pub All-IsReordered : (P : A → Type κ) {xs ys : List A} → IsReordered xs ys → All P xs → All P ys
  All-IsReordered P both_empty h = h
  All-IsReordered P (same_head x same) h = (h.0, All-IsReordered P same h.1)
  All-IsReordered P (exchange x y xs) h = (h.1.0, (h.0, h.1.1))
  All-IsReordered P (through first then_) h = All-IsReordered P then_ (All-IsReordered P first h)
