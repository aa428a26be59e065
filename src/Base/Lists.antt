-- ===== src/Base/Lists.antt =====
-- Lists measured by native numbers, the loops `any`, `all`, `find` and `position` of Rust's
-- iterators, and a predicate that holds of every element.
use Prim.Native.Nat.{ℕ, zero, suc, ◌+◌, ◌-◌, min}
use mathlib.Core.Path.{◌≡◌, refl, ap, sym, ◌∙◌}
use mathlib.Core.Bool.{Bool, true, false, ◌&&◌, ◌||◌}
use mathlib.Core.List.{List, [], ◌∷◌, ◌++◌}
use mathlib.Core.Option.{Option, none, some}
use native.Mathlib.Omega.{arith}
use gdom.Base.Tests.{if◌then◌else◌}

module _ {ℓ} {A : Type ℓ} where
  abbrev pub length : List A → ℕ
  length [] = 0
  length (x ∷ xs) = suc (length xs)

  abbrev pub take : ℕ → List A → List A
  take zero xs = []
  take (suc n) [] = []
  take (suc n) (x ∷ xs) = x ∷ take n xs

  abbrev pub drop : ℕ → List A → List A
  drop zero xs = xs
  drop (suc n) [] = []
  drop (suc n) (x ∷ xs) = drop n xs

  -- `iter().any`, `iter().all`, `iter().find` and `filter` with a Boolean test.
  abbrev pub any : (A → Bool) → List A → Bool
  any p [] = false
  any p (x ∷ xs) = p x || any p xs

  abbrev pub all : (A → Bool) → List A → Bool
  all p [] = true
  all p (x ∷ xs) = p x && all p xs

  abbrev pub find? : (A → Bool) → List A → Option A
  find? p [] = none
  find? p (x ∷ xs) = if p x then some x else find? p xs

  abbrev pub filter : (A → Bool) → List A → List A
  filter p [] = []
  filter p (x ∷ xs) = if p x then x ∷ filter p xs else filter p xs

  abbrev pub is_empty : List A → Bool
  is_empty [] = true
  is_empty (x ∷ xs) = false

  pub length-append : (xs ys : List A) → length (xs ++ ys) ≡ length xs + length ys
  length-append [] ys = omega arith
  length-append (x ∷ xs) ys = omega (arith, length-append xs ys)

  pub length-take : (n : ℕ) (xs : List A) → length (take n xs) ≡ min n (length xs)
  length-take zero xs = omega arith
  length-take (suc n) [] = omega arith
  length-take (suc n) (x ∷ xs) = omega (arith, length-take n xs)

  pub take-append-drop : (n : ℕ) (xs : List A) → take n xs ++ drop n xs ≡ xs
  take-append-drop zero xs = refl
  take-append-drop (suc n) [] = refl
  take-append-drop (suc n) (x ∷ xs) = ap (◌∷◌ x) (take-append-drop n xs)

  -- What `find` returns passes the test and stands in the list.
  pub find?-passes : (p : A → Bool) (xs : List A) (a : A) → find? p xs ≡ some a → p a ≡ true
  find?-passes p [] a h = cc
  find?-passes p (x ∷ xs) a h = ground (arith, find?-passes p xs a)

module _ {ℓ κ} {A : Type ℓ} where
  abbrev pub All : (A → Type κ) → List A → Type κ
  All P [] = Unit
  All P (x ∷ xs) = P x × All P xs

module _ {ℓ} {A : Type ℓ} where
  pub any-append : (p : A → Bool) (xs ys : List A) → any p (xs ++ ys) ≡ (any p xs || any p ys)
  any-append p [] ys = refl
  any-append p (x ∷ xs) ys = ground (arith, any-append p xs ys)

  -- A longer part has what a shorter one has.
  pub any-take-suc :
      (p : A → Bool) (n : ℕ) (xs : List A)
      → any p (take n xs) ≡ true
      → any p (take (suc n) xs) ≡ true
  any-take-suc p zero xs h = cc
  any-take-suc p (suc n) [] h = cc
  any-take-suc p (suc n) (x ∷ xs) h = ground (arith, any-take-suc p n xs)

  pub any-take_add :
      (p : A → Bool) (m n k : ℕ) (xs : List A)
      → k ≡ m + n
      → any p (take k xs) ≡ (any p (take m xs) || any p (take n (drop m xs)))
  any-take_add p zero n k xs sum = ap (λ j. any p (take j xs)) (omega (arith, sum))
  any-take_add p (suc m) n zero xs sum = ground (arith, sum)
  any-take_add p (suc m) zero (suc k) [] sum = refl
  any-take_add p (suc m) (suc n) (suc k) [] sum = refl
  any-take_add p (suc m) n (suc k) (x ∷ xs) sum =
      ground (arith, any-take_add p m n k xs (omega (arith, sum)))

module _ {ℓ κ} {A : Type ℓ} where
  pub All-append : (P : A → Type κ) (xs ys : List A) → All P xs → All P ys → All P (xs ++ ys)
  All-append P [] ys h k = k
  All-append P (x ∷ xs) ys h k = (h.0, All-append P xs ys h.1 k)

  pub All-append_left : (P : A → Type κ) (xs ys : List A) → All P (xs ++ ys) → All P xs
  All-append_left P [] ys h = tt
  All-append_left P (x ∷ xs) ys h = (h.0, All-append_left P xs ys h.1)

  pub All-append_right : (P : A → Type κ) (xs ys : List A) → All P (xs ++ ys) → All P ys
  All-append_right P [] ys h = h
  All-append_right P (x ∷ xs) ys h = All-append_right P xs ys h.1

  pub All-take : (P : A → Type κ) (n : ℕ) (xs : List A) → All P xs → All P (take n xs)
  All-take P zero xs h = tt
  All-take P (suc n) [] h = tt
  All-take P (suc n) (x ∷ xs) h = (h.0, All-take P n xs h.1)

  pub All-drop : (P : A → Type κ) (n : ℕ) (xs : List A) → All P xs → All P (drop n xs)
  All-drop P zero xs h = h
  All-drop P (suc n) [] h = tt
  All-drop P (suc n) (x ∷ xs) h = All-drop P n xs h.1

  pub All-filter : (P : A → Type κ) (p : A → Bool) (xs : List A) → All P xs → All P (filter p xs)
  All-filter P p [] h = tt
  All-filter P p (x ∷ xs) h = placed (p x) (All-filter P p xs h.1)
    where
      placed :
          (keeps : Bool)
          → All P (filter p xs)
          → All P (if keeps then x ∷ filter p xs else filter p xs)
      placed true rest = (h.0, rest)
      placed false rest = rest

module _ {ℓ κ ι} {A : Type ℓ} where
  pub All-map :
      (P : A → Type κ) (Q : A → Type ι) (xs : List A) → ((x : A) → P x → Q x) → All P xs → All Q xs
  All-map P Q [] f h = tt
  All-map P Q (x ∷ xs) f h = (f x h.0, All-map P Q xs f h.1)

module _ {ℓ} {A : Type ℓ} where
  pub length-drop : (n : ℕ) (xs : List A) → length (drop n xs) ≡ length xs - n
  length-drop zero xs = omega arith
  length-drop (suc n) [] = omega arith
  length-drop (suc n) (x ∷ xs) = omega (arith, length-drop n xs)

  take-nil : (k : ℕ) → take {A = A} k [] ≡ []
  take-nil zero = refl
  take-nil (suc k) = refl

  drop-nil : (k : ℕ) → drop {A = A} k [] ≡ []
  drop-nil zero = refl
  drop-nil (suc k) = refl

  -- `drain(..n)` takes what is there, and leaves the rest.
  pub take-capped : (k n : ℕ) (xs : List A) → k ≡ min (length xs) n → take k xs ≡ take n xs
  take-capped k n [] capped = take-nil k ∙ sym (take-nil n)
  take-capped zero zero (x ∷ xs) capped = refl
  take-capped zero (suc n) (x ∷ xs) capped = ground (arith, capped)
  take-capped (suc k) zero (x ∷ xs) capped = ground (arith, capped)
  take-capped (suc k) (suc n) (x ∷ xs) capped =
      ap (◌∷◌ x) (take-capped k n xs (omega (arith, capped)))

  pub drop-capped : (k n : ℕ) (xs : List A) → k ≡ min (length xs) n → drop k xs ≡ drop n xs
  drop-capped k n [] capped = drop-nil k ∙ sym (drop-nil n)
  drop-capped zero zero (x ∷ xs) capped = refl
  drop-capped zero (suc n) (x ∷ xs) capped = ground (arith, capped)
  drop-capped (suc k) zero (x ∷ xs) capped = ground (arith, capped)
  drop-capped (suc k) (suc n) (x ∷ xs) capped = drop-capped k n xs (omega (arith, capped))

  -- What is in a list is in its first part or in the rest, and nothing else is.
  pub any-split :
      (p : A → Bool) (n : ℕ) (xs : List A) → any p xs ≡ (any p (take n xs) || any p (drop n xs))
  any-split p zero xs = refl
  any-split p (suc n) [] = refl
  any-split p (suc n) (x ∷ xs) = ground (arith, any-split p n xs)

  pub all-implies :
      (p q : A → Bool) (xs : List A)
      → ((x : A) → p x ≡ true → q x ≡ true)
      → all p xs ≡ true
      → all q xs ≡ true
  all-implies p q [] h found = found
  all-implies p q (x ∷ xs) h found = ground (arith, h x, all-implies p q xs h)
