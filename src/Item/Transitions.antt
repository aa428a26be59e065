-- ===== src/Item/Transitions.antt =====
-- What the transition table of the item states permits.
use mathlib.Core.List.{Memᴰ}
use gdom.Base.{
  any, ◌>>=◌, >>=-ok, subst, List, [], ◌∷◌, Result, ◌∙◌, ◌+◌, suc, sym, ℕ, ◌≡◌, refl, ◌≢◌, ◌≤◌, ◌<◌,
  ◌⊎◌, inl, inr, Bool, true, false, ok, err, arith, if◌then◌else◌,
}
use gdom.Item.State.{
  ItemError, same_state, ItemState, discovered, eligible, pending_owner_required,
  pending_owner_created, accept_required, accepting, transferred, verifying, verified,
  retryable_failed, is_terminal, can_transition_to, transition_to,
}

-- Through how many of the states a transfer has come. Every verdict lies above them.
abbrev pub rank : ItemState → ℕ
rank discovered = 0
rank eligible = 1
rank retryable_failed = 1
rank pending_owner_required = 2
rank pending_owner_created = 3
rank accept_required = 4
rank accepting = 5
rank transferred = 6
rank verifying = 7
rank _ = 8

-- A permitted step goes up, stays, or falls back to be retried.
can_transition_to-rank :
    (from to : ItemState)
    → can_transition_to from to ≡ true
    → (from ≡ to) ⊎ ((rank from < rank to) ⊎ (to ≡ retryable_failed))
unfolding can_transition_to
can_transition_to-rank discovered to h = ground arith
can_transition_to-rank _ to h = ground arith

can_transition_to-terminal :
    (from to : ItemState) → is_terminal from ≡ true → can_transition_to from to ≡ true → from ≡ to
unfolding can_transition_to is_terminal
can_transition_to-terminal discovered to t h = ground arith
can_transition_to-terminal _ to t h = ground arith

-- A chain of transitions, each from where the last one led.
unfoldable pub follow : ItemState → List ItemState → Result ItemError ItemState
follow s [] = ok s
follow s (t ∷ ts) = transition_to s t >>= λ u. follow u ts

pub transition_to-ok :
    (s t u : ItemState) → transition_to s t ≡ ok u → (u ≡ t) × (can_transition_to s t ≡ true)
unfolding transition_to
transition_to-ok s t u h = ground arith

pub transition_to-err :
    (s t : ItemState) {e : ItemError} → transition_to s t ≡ err e → can_transition_to s t ≡ false
unfolding transition_to
transition_to-err s t h = ground arith

-- Each step of a chain that succeeds is in the table and leads where it says.
follow-cons :
    (s t u : ItemState) (ts : List ItemState)
    → follow s (t ∷ ts) ≡ ok u
    → (can_transition_to s t ≡ true) × (follow t ts ≡ ok u)
unfolding follow
follow-cons s t u ts h =
    let (v, (first, rest)) = >>=-ok (transition_to s t) (λ v. follow v ts) h in
    let (same, permitted) = transition_to-ok s t v first in
    (permitted, subst (λ w. follow w ts ≡ ok u) same rest)

-- A terminal state is final: a chain of permitted transitions from it leads back to it.
pub follow-terminal :
    (s u : ItemState) (ts : List ItemState) → is_terminal s ≡ true → follow s ts ≡ ok u → s ≡ u
unfolding follow
follow-terminal s u [] t h = ground arith
follow-terminal s u (next ∷ ts) t h =
    let (permitted, rest) = follow-cons s next u ts h in
    let same = can_transition_to-terminal s next t permitted in
    same ∙ follow-terminal next u ts (subst (λ w. is_terminal w ≡ true) same t) rest

can_transition_to-verified :
    (s : ItemState) → can_transition_to s verified ≡ true → (s ≡ verified) ⊎ (s ≡ verifying)
unfolding can_transition_to
can_transition_to-verified s h = ground arith

decide_verified : (s : ItemState) → (s ≡ verified) ⊎ (s ≢ verified)
decide_verified verified = inl refl
decide_verified discovered = inr (λ e. cc)
decide_verified _ = inr (λ e. cc)

rank-le : (s : ItemState) → rank s ≤ 8
rank-le discovered = omega arith
rank-le _ = omega arith

-- No item is verified without a verification: a chain that leads to `verified` from another state
-- starts from `verifying` or passes through it.
pub follow-verified :
    (s : ItemState) (ts : List ItemState)
    → s ≢ verified
    → follow s ts ≡ ok verified
    → Memᴰ verifying (s ∷ ts)
unfolding follow
follow-verified s [] n h = absurd (n (ground arith))
follow-verified s (next ∷ ts) n h =
    let (permitted, rest) = follow-cons s next verified ts h in
    elim (decide_verified next) [
      | inl e ↦
          elim (can_transition_to-verified s
            (subst (λ w. can_transition_to s w ≡ true) e permitted)) [
              | inl same ↦ absurd (n same)
              | inr from ↦ Memᴰ.head (sym from)
            ]
      | inr other ↦ Memᴰ.tail (follow-verified next ts other rest)
    ]

-- The steps of a chain that change the state.
abbrev pub changes : ItemState → List ItemState → ℕ
changes s [] = 0
changes s (t ∷ ts) = if same_state s t then changes t ts else suc (changes t ts)

abbrev pub is_retry : ItemState → Bool
is_retry s = same_state s retryable_failed

same_state-eq : (s t : ItemState) → s ≡ t → same_state s t ≡ true
same_state-eq s t e = subst (λ w. same_state s w ≡ true) e (ground arith)

-- Without a retry every change goes up: an attempt that never falls back to `retryable_failed`
-- changes the state at most eight times, whatever chain it takes.
pub changes-bounded :
    (s u : ItemState) (ts : List ItemState)
    → any is_retry ts ≡ false
    → follow s ts ≡ ok u
    → changes s ts + rank s ≤ 8
changes-bounded s u [] r h = omega (arith, rank-le s)
changes-bounded s u (t ∷ ts) r h =
    let (permitted, rest) = follow-cons s t u ts h in
    let later = changes-bounded t u ts (ground arith) rest in
    elim (can_transition_to-rank s t permitted) [
      | inl same ↦
          rw (same_state-eq s t same) (subst (λ w. changes t ts + rank w ≤ 8) (sym same) later)
      | inr (inl up) ↦ ground arith
      | inr (inr retry) ↦ absurd (ground (arith, same_state-eq t retryable_failed retry))
    ]

-- Every state that is not terminal has a chain that verifies the item.
pub verified_reachable :
    (s : ItemState) → is_terminal s ≡ false → (ts : List ItemState) × (follow s ts ≡ ok verified)
unfolding is_terminal follow transition_to can_transition_to
verified_reachable discovered h = (eligible ∷ verifying ∷ verified ∷ [], refl)
verified_reachable verified h = absurd (ground arith)
verified_reachable eligible h = (verifying ∷ verified ∷ [], refl)
verified_reachable pending_owner_required h = (verifying ∷ verified ∷ [], refl)
verified_reachable pending_owner_created h = (verifying ∷ verified ∷ [], refl)
verified_reachable accept_required h = (verifying ∷ verified ∷ [], refl)
verified_reachable accepting h = (verifying ∷ verified ∷ [], refl)
verified_reachable transferred h = (verifying ∷ verified ∷ [], refl)
verified_reachable verifying h = (verified ∷ [], refl)
verified_reachable retryable_failed h = (verifying ∷ verified ∷ [], refl)
verified_reachable _ h = absurd (ground arith)
