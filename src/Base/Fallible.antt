-- ===== src/Base/Fallible.antt =====
-- Rust's `Result<T, E>` and its `?` as a `do` block.
use mathlib.Core.Path.{◌≡◌, refl}
use mathlib.Core.Bool.{Bool, true, false}
use mathlib.Core.Option.{Option, none, some}

pub data Result {ℓ κ} (E : Type κ) (A : Type ℓ) : Type (ℓ ⊔ κ) where
  ok : A → Result E A
  err : E → Result E A

-- `?`: what follows a value, and an error that leaves at once.
infixl 5 ◌>>=◌ ◌>>◌
abbrev pub ◌>>=◌ {ι κ ℓ} :
    {E : Type ι} {B : Type κ} {A : Type ℓ} → Result E A → (A → Result E B) → Result E B
(err failure) >>= next = err failure
(ok value) >>= next = next value

abbrev pub ◌>>◌ {ι κ} : {E : Type ι} {B : Type κ} → Result E (Unit {0}) → Result E B → Result E B
(err failure) >> next = err failure
(ok tt) >> next = next

-- Where a chain succeeds, its first link does, and so does the rest from there.
pub >>=-ok {ι κ ℓ} :
    {E : Type ι} {B : Type κ} {A : Type ℓ} (first : Result E A) (next : A → Result E B) {last : B}
    → (first >>= next) ≡ ok last
    → (value : A) × ((first ≡ ok value) × (next value ≡ ok last))
>>=-ok (err failure) next granted = cc
>>=-ok (ok value) next granted = (value, (refl, granted))

-- `Option::ok_or`.
abbrev pub ok_or {ℓ ι} : {E : Type ι} {A : Type ℓ} → Option A → E → Result E A
ok_or none e = err e
ok_or (some a) e = ok a

-- `if test { return Err(e) }`.
abbrev pub refuse_if {ι} : {E : Type ι} → Bool → E → Result E (Unit {0})
refuse_if true e = err e
refuse_if false e = ok tt

pub >>-ok {ι κ} :
    {E : Type ι} {B : Type κ} (test : Result E (Unit {0})) (next : Result E B) {last : B}
    → (test >> next) ≡ ok last
    → next ≡ ok last
>>-ok (err failure) next granted = cc
>>-ok (ok tt) next granted = granted

pub ok_injective {ι κ} :
    {E : Type ι} {A : Type κ} {a b : A} → ◌≡◌ {A = Result E A} (ok a) (ok b) → a ≡ b
ok_injective e = cc

pub ok_or-ok {ι κ} :
    {E : Type ι} {A : Type κ} (o : Option A) (failure : E) {a : A}
    → ok_or o failure ≡ ok a
    → o ≡ some a
ok_or-ok none failure granted = cc
ok_or-ok (some a) failure granted = cc
