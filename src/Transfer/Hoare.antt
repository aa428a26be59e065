-- ===== src/Transfer/Hoare.antt =====
-- What a part of a step does to the item in hand, whatever the world answers: a postcondition on a
-- result, a condition `Bad` on the item that an error leaves, and the rules to chain parts.
use gdom.Base.{◌≡◌, refl, Bool, true, false, Result, ok, err, if◌then◌else◌}
use gdom.Base.State.{M, handle, settle, ◌>>=◌, throw, return, modify, held, on_world, change}

-- The ends of a result: Q of a value, Bad of an error.
abbrev pub Ends : {S E A : Type 0} → (E → S → Type 0) → (A → S → Type 0) → Result E A → S → Type 0
Ends Bad Q (ok a) item = Q a item
Ends Bad Q (err e) item = Bad e item

-- From every item that meets P, in every world of K, `m` ends as Q or Bad says, in a world of K.
pub record Triple {S W E A : Type 0} (K : W → Type 0) (Bad : E → S → Type 0) (P : S → Type 0)
    (m : M (S × W) E A) (Q : A → S → Type 0) : Type 0 where
  pub holds :
      (item : S) (w : W)
      → K w
      → P item
      → K (m (item, w)).1.1 × Ends Bad Q (m (item, w)).0 (m (item, w)).1.0

module _ {S E : Type 0} (Bad : E → S → Type 0) where
  after-Ends :
      {A : Type 0} (Q Q' : A → S → Type 0) (r : Result E A) (item : S)
      → Ends Bad Q r item
      → ((a : A) (item : S) → Q a item → Q' a item)
      → Ends Bad Q' r item
  after-Ends Q Q' (ok a) item q h = h a item q
  after-Ends Q Q' (err e) item b h = b

module _ {S W E : Type 0} {K : W → Type 0} {Bad : E → S → Type 0} where
  settle-Ends :
      {E' A B : Type 0} {Bad' : E' → S → Type 0} {Q : A → S → Type 0} {R : B → S → Type 0}
      (r : Result E A) (f : A → M (S × W) E' B) (g : E → M (S × W) E' B) (s : S × W)
      → K s.1 × Ends Bad Q r s.0
      → ((a : A) → Triple K Bad' (Q a) (f a) R)
      → ((e : E) → Triple K Bad' (Bad e) (g e) R)
      → K (settle r f g s).1.1 × Ends Bad' R (settle r f g s).0 (settle r f g s).1.0
  unfolding settle
  settle-Ends (ok a) f g (item, w) h good bad = (good a).holds item w h.0 h.1
  settle-Ends (err e) f g (item, w) h good bad = (bad e).holds item w h.0 h.1

module _ {S W E : Type 0} {K : W → Type 0} {Bad : E → S → Type 0} {P : S → Type 0} where
  pub handle_rule :
      {E' A B : Type 0} {Bad' : E' → S → Type 0} {Q : A → S → Type 0} {R : B → S → Type 0}
      {m : M (S × W) E A} {f : A → M (S × W) E' B} {g : E → M (S × W) E' B}
      → Triple K Bad P m Q
      → ((a : A) → Triple K Bad' (Q a) (f a) R)
      → ((e : E) → Triple K Bad' (Bad e) (g e) R)
      → Triple K Bad' P (handle m f g) R
  unfolding handle
  handle_rule {Bad' = Bad'} {Q = Q} {R = R} {m = m} {f = f} {g = g} t good bad = record {
    holds = λ item w k p.
        settle-Ends {Bad' = Bad'} {Q = Q} {R = R} (m (item, w)).0 f g (m (item, w)).1
          (t.holds item w k p) good bad;
  }

  pub bind_rule :
      {A B : Type 0} {Q : A → S → Type 0} {R : B → S → Type 0} {m : M (S × W) E A}
      {f : A → M (S × W) E B}
      → Triple K Bad P m Q
      → ((a : A) → Triple K Bad (Q a) (f a) R)
      → Triple K Bad P (m >>= f) R
  unfolding ◌>>=◌
  bind_rule t next = handle_rule t next (λ e. record { holds = λ item w k b. (k, b) })

  pub return_rule :
      {A : Type 0} {Q : A → S → Type 0} (a : A)
      → ((item : S) → P item → Q a item)
      → Triple K Bad P (return a) Q
  unfolding return
  return_rule a h = record { holds = λ item w k p. (k, h item p) }

  pub throw_rule :
      {A : Type 0} {Q : A → S → Type 0} (e : E)
      → ((item : S) → P item → Bad e item)
      → Triple K Bad P (throw e) Q
  unfolding throw
  throw_rule e h = record { holds = λ item w k p. (k, h item p) }

  pub held_rule : Triple K Bad P held (λ a item. P item × (a ≡ item))
  unfolding held
  held_rule = record { holds = λ item w k p. (k, (p, refl)) }

  pub change_rule :
      {Q : S → Type 0} (f : S → S)
      → ((item : S) → P item → Q (f item))
      → Triple K Bad P (change f) (λ _. Q)
  unfolding change
  change_rule f h = record { holds = λ item w k p. (k, h item p) }

  pub before :
      {A : Type 0} {Q : A → S → Type 0} {P' : S → Type 0} {m : M (S × W) E A}
      → Triple K Bad P m Q
      → ((item : S) → P' item → P item)
      → Triple K Bad P' m Q
  before t h = record { holds = λ item w k p. t.holds item w k (h item p) }

  pub if_rule :
      {A : Type 0} {Q : A → S → Type 0} (b : Bool) {m n : M (S × W) E A}
      → (b ≡ true → Triple K Bad P m Q)
      → (b ≡ false → Triple K Bad P n Q)
      → Triple K Bad P (if b then m else n) Q
  if_rule true yes_ no_ = yes_ refl
  if_rule false yes_ no_ = no_ refl

-- The parts that leave the item alone.
module _ {S W : Type 0} {K : W → Type 0} {P : S → Type 0} where
  -- A call on the world answers, or fails with an error that leaves the item as it was.
  pub on_world_rule :
      {E A : Type 0} {Bad : E → S → Type 0} (m : M W E A)
      → ((w : W) → K w → K (m w).1)
      → ((e : E) (item : S) (w : W) → P item → (m w).0 ≡ err e → Bad e item)
      → Triple K Bad P (on_world m) (λ a item. P item × ((w : W) × (K w × ((m w).0 ≡ ok a))))
  unfolding on_world
  on_world_rule {E} {A} {Bad = Bad} m keeps fails = record {
    holds = λ item w k p. (keeps w k, split item w k p (m w).0 refl);
  }
    where
      split :
          (item : S) (w : W)
          → K w
          → P item
          → (r : Result E A) → (m w).0 ≡ r
          → Ends Bad (λ a item. P item × ((w : W) × (K w × ((m w).0 ≡ ok a)))) r item
      split item w k p (ok a) e = (p, (w, (k, e)))
      split item w k p (err x) e = fails x item w p e

module _ {S W E : Type 0} {K : W → Type 0} {Bad : E → S → Type 0} {P : S → Type 0} where
  pub after :
      {A : Type 0} {Q Q' : A → S → Type 0} {m : M (S × W) E A}
      → Triple K Bad P m Q
      → ((a : A) (item : S) → Q a item → Q' a item)
      → Triple K Bad P m Q'
  after {Q = Q} {Q' = Q'} {m = m} t h = record {
    holds = λ item w k p.
        let ended = t.holds item w k p in
        (ended.0, after-Ends Bad Q Q' (m (item, w)).0 (m (item, w)).1.0 ended.1 h);
  }

  -- A change of the world alone.
  pub modify_rule :
      (note : W → W)
      → ((w : W) → K w → K (note w))
      → Triple K Bad P (on_world (modify note)) (λ (_ : Unit {0}). P)
  unfolding on_world modify
  modify_rule note keeps = record { holds = λ item w k p. (keeps w k, p) }
