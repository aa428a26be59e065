-- ===== src/Item/Tests.antt =====
-- Chains of transitions that the theorems on item states are run on.
use gdom.Base.{◌+◌, ◌≤◌, ◌≡◌, refl, true, false, List, [], ◌∷◌, ok}
use mathlib.Core.List.{Memᴰ}
use gdom.Item.State.{
  ItemState, eligible, pending_owner_required, verifying, verified, skipped_trashed, transition_to,
  can_transition_to, is_terminal,
}
use gdom.Item.Transitions.{rank, follow, changes, follow-terminal, follow-verified, changes-bounded}

abbrev chain : List ItemState
chain = pending_owner_required ∷ verifying ∷ verified ∷ []

followed : follow eligible chain ≡ ok verified
unfolding follow transition_to can_transition_to
followed = refl

stayed : follow skipped_trashed (skipped_trashed ∷ []) ≡ ok skipped_trashed
unfolding follow transition_to can_transition_to
stayed = refl

trashed_final : is_terminal skipped_trashed ≡ true
unfolding is_terminal
trashed_final = refl

-- The chain passes through `verifying`.
follow-verified_example : Memᴰ verifying (eligible ∷ chain)
follow-verified_example = follow-verified eligible chain (λ e. cc) followed

-- A trashed item stays where it is.
follow-terminal_example : skipped_trashed ≡ skipped_trashed
follow-terminal_example =
    follow-terminal skipped_trashed skipped_trashed (skipped_trashed ∷ []) trashed_final stayed

-- The chain changes the state three times, of at most eight.
changes-bounded_example : changes eligible chain + rank eligible ≤ 8
changes-bounded_example = changes-bounded eligible verified chain refl followed

open_ : is_terminal eligible ≡ false
unfolding is_terminal
open_ = refl
