-- ===== src/Base/Rules.antt =====
-- What fallible code over a state comes to from one state: Q of its value, or R of its error, and of
-- the state that it leaves; and the rules to chain code.
use gdom.Base.Fallible.{Result, ok, err}
use gdom.Base.State.{M, handle, settle, ◌>>=◌, throw, return, reading, modify, map_err}
use gdom.Base.Tests.{if◌then◌else◌}
use mathlib.Core.Path.{◌≡◌, refl, sym, subst}
use mathlib.Core.Bool.{Bool, true, false}

abbrev pub Comes : {S E A : Type 0} → (E → S → Type 0) → (A → S → Type 0) → Result E A → S → Type 0
Comes R Q (ok a) s = Q a s
Comes R Q (err e) s = R e s

pub record Leads {S E A : Type 0} (R : E → S → Type 0) (m : M S E A) (s : S) (Q : A → S → Type 0)
    : Type 0 where
  pub comes : Comes R Q (m s).0 (m s).1

module _ {S : Type 0} where
  settle-Comes :
      {E E' A B : Type 0} {R : E → S → Type 0} {R' : E' → S → Type 0} {Q : A → S → Type 0}
      {Q' : B → S → Type 0} (f : A → M S E' B) (g : E → M S E' B) (r : Result E A) (s : S)
      → Comes R Q r s
      → ((a : A) (after : S) → Q a after → Leads R' (f a) after Q')
      → ((e : E) (after : S) → R e after → Leads R' (g e) after Q')
      → Comes R' Q' (settle r f g s).0 (settle r f g s).1
  unfolding settle
  settle-Comes f g (ok a) s h good bad = (good a s h).comes
  settle-Comes f g (err e) s h good bad = (bad e s h).comes

  pub handle_rule :
      {E E' A B : Type 0} {R : E → S → Type 0} {R' : E' → S → Type 0} {Q : A → S → Type 0}
      {Q' : B → S → Type 0} {m : M S E A} {f : A → M S E' B} {g : E → M S E' B} {s : S}
      → Leads R m s Q
      → ((a : A) (after : S) → Q a after → Leads R' (f a) after Q')
      → ((e : E) (after : S) → R e after → Leads R' (g e) after Q')
      → Leads R' (handle m f g) s Q'
  unfolding handle
  handle_rule {m = m} {f = f} {g = g} {s = s} h good bad = record {
    comes = settle-Comes f g (m s).0 (m s).1 h.comes good bad;
  }

  pub map_err_rule :
      {E E' A : Type 0} {R : E → S → Type 0} {R' : E' → S → Type 0} {Q : A → S → Type 0}
      {m : M S E A} (g : E → E') {s : S}
      → Leads R m s Q
      → ((e : E) (after : S) → R e after → R' (g e) after)
      → Leads R' (map_err g m) s Q
  unfolding map_err return throw
  map_err_rule g h bad =
      handle_rule h (λ a after q. record { comes = q })
        (λ e after r. record { comes = bad e after r })

module _ {S E : Type 0} {R : E → S → Type 0} where
  pub bind_rule :
      {A B : Type 0} {Q : A → S → Type 0} {Q' : B → S → Type 0} {m : M S E A} {f : A → M S E B}
      {s : S}
      → Leads R m s Q
      → ((a : A) (after : S) → Q a after → Leads R (f a) after Q')
      → Leads R (m >>= f) s Q'
  unfolding ◌>>=◌ throw
  bind_rule h next = handle_rule h next (λ e after r. record { comes = r })

  pub return_rule :
      {A : Type 0} {Q : A → S → Type 0} (a : A) {s : S} → Q a s → Leads R (return a) s Q
  unfolding return
  return_rule a q = record { comes = q }

  pub throw_rule : {A : Type 0} {Q : A → S → Type 0} (e : E) {s : S} → R e s → Leads R (throw e) s Q
  unfolding throw
  throw_rule e r = record { comes = r }

  pub reading_rule :
      {A : Type 0} {Q : A → S → Type 0} (f : S → A) {s : S} → Q (f s) s → Leads R (reading f) s Q
  unfolding reading
  reading_rule f q = record { comes = q }

  -- `reading` first: the code goes on in the same state.
  pub read_rule :
      {A B : Type 0} {Q : B → S → Type 0} (f : S → A) (g : A → M S E B) {s : S}
      → Leads R (g (f s)) s Q
      → Leads R (reading f >>= g) s Q
  read_rule {Q = Q} f g {s = s} h =
      bind_rule (reading_rule {Q = λ a after. (a ≡ f s) × (after ≡ s)} f (refl, refl)) (λ a after q.
        subst (λ v. Leads R (g v) after Q) (sym q.0)
          (subst (λ v. Leads R (g (f s)) v Q) (sym q.1) h))

  pub modify_rule :
      {Q : Unit {0} → S → Type 0} (f : S → S) {s : S} → Q tt (f s) → Leads R (modify f) s Q
  unfolding modify
  modify_rule f q = record { comes = q }

  pub if_rule :
      {A : Type 0} {Q : A → S → Type 0} (b : Bool) {m n : M S E A} {s : S}
      → (b ≡ true → Leads R m s Q)
      → (b ≡ false → Leads R n s Q)
      → Leads R (if b then m else n) s Q
  if_rule true first other = first refl
  if_rule false first other = other refl

  pub elim_rule :
      {A : Type 0} {Q : A → S → Type 0} (b : Bool) {m n : M S E A} {s : S}
      → (b ≡ true → Leads R m s Q)
      → (b ≡ false → Leads R n s Q)
      → Leads R (elim b [ true ↦ m | false ↦ n ]) s Q
  elim_rule true first other = first refl
  elim_rule false first other = other refl

module _ {S E : Type 0} (R : E → S → Type 0) where
  Comes-weakened :
      {A : Type 0} (Q Q' : A → S → Type 0) (r : Result E A) (s : S)
      → Comes R Q r s
      → ((a : A) (after : S) → Q a after → Q' a after)
      → Comes R Q' r s
  Comes-weakened Q Q' (ok a) s h next = next a s h
  Comes-weakened Q Q' (err e) s h next = h

module _ {S E : Type 0} {R : E → S → Type 0} where
  pub weaken :
      {A : Type 0} {Q Q' : A → S → Type 0} {m : M S E A} {s : S}
      → Leads R m s Q
      → ((a : A) (after : S) → Q a after → Q' a after)
      → Leads R m s Q'
  weaken {Q = Q} {Q' = Q'} {m = m} {s = s} h next = record {
    comes = Comes-weakened R Q Q' (m s).0 (m s).1 h.comes next;
  }

module _ {S E : Type 0} where
  implied :
      {A : Type 0} (R R' : E → S → Type 0) (Q Q' : A → S → Type 0) (r : Result E A) (s : S)
      → Comes R Q r s
      → ((e : E) (after : S) → R e after → R' e after)
      → ((a : A) (after : S) → Q a after → Q' a after)
      → Comes R' Q' r s
  implied R R' Q Q' (ok a) s h bad good = good a s h
  implied R R' Q Q' (err e) s h bad good = bad e s h

  pub consequence :
      {A : Type 0} {R R' : E → S → Type 0} {Q Q' : A → S → Type 0} {m : M S E A} {s : S}
      → Leads R m s Q
      → ((e : E) (after : S) → R e after → R' e after)
      → ((a : A) (after : S) → Q a after → Q' a after)
      → Leads R' m s Q'
  consequence {R = R} {R' = R'} {Q = Q} {Q' = Q'} {m = m} {s = s} h bad good = record {
    comes = implied R R' Q Q' (m s).0 (m s).1 h.comes bad good;
  }

  anything : {A : Type 0} (r : Result E A) (s : S) → Comes (λ _ _. Unit {0}) (λ _ _. Unit {0}) r s
  anything (ok a) s = tt
  anything (err e) s = tt

  -- Code of which nothing need be known.
  pub any_rule : {A : Type 0} (m : M S E A) (s : S) → Leads (λ _ _. Unit {0}) m s (λ _ _. Unit {0})
  any_rule m s = record { comes = anything (m s).0 (m s).1 }
