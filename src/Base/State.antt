-- ===== src/Base/State.antt =====
-- Fallible code over a state that it reads and changes: `M S E A` takes the state to a result and
-- the state it leaves, on an error too.
use gdom.Base.Fallible.{Result, ok, err}

abbrev pub M : Type 0 → Type 0 → Type 0 → Type 0
M S E A = S → Result E A × S

module _ {S E : Type 0} where
  unfoldable pub return : {A : Type 0} → A → M S E A
  return a s = (ok a, s)

  unfoldable pub throw : {A : Type 0} → E → M S E A
  throw e s = (err e, s)

  unfoldable pub current : M S E S
  current s = (ok s, s)

  unfoldable pub reading : {A : Type 0} → (S → A) → M S E A
  reading f s = (ok (f s), s)

  unfoldable pub modify : (S → S) → M S E (Unit {0})
  modify f s = (ok tt, f s)

module _ {S E E' : Type 0} {A B : Type 0} where
  unfoldable pub settle : Result E A → (A → M S E' B) → (E → M S E' B) → S → Result E' B × S
  settle (ok a) f g s = f a s
  settle (err e) f g s = g e s

  -- `match m { Ok(a) => f(a), Err(e) => g(e) }`.
  unfoldable pub handle : M S E A → (A → M S E' B) → (E → M S E' B) → M S E' B
  unfolding settle
  handle m f g s = settle (m s).0 f g (m s).1

infixl 5 ◌>>=◌ ◌>>◌
unfoldable pub ◌>>=◌ : {S E A B : Type 0} → M S E A → (A → M S E B) → M S E B
unfolding handle throw
m >>= f = handle m f throw

abbrev pub ◌>>◌ : {S E B : Type 0} → M S E (Unit {0}) → M S E B → M S E B
m >> k = m >>= λ _. k

-- `map_err`.
unfoldable pub map_err : {S E E' A : Type 0} → (E → E') → M S E A → M S E' A
unfolding handle return throw
map_err f m = handle m return (λ e. throw (f e))

-- Code with one object in hand, and the world besides.
module _ {S W : Type 0} where
  unfoldable pub held : {E : Type 0} → M (S × W) E S
  held (a, w) = (ok a, (a, w))

  unfoldable pub on_world : {E A : Type 0} → M W E A → M (S × W) E A
  on_world m (a, w) = ((m w).0, (a, (m w).1))

  unfoldable pub change : {E : Type 0} → (S → S) → M (S × W) E (Unit {0})
  change f (a, w) = (ok tt, (f a, w))
