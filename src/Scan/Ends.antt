-- ===== src/Scan/Ends.antt =====
-- A scan of a Drive with finitely many files, and finitely many pages of every folder, ends.
use gdom.Base.{
  ℕ, suc, ◌≡◌, ◌≤◌, ◌<◌, ◌+◌, ℤ, String, List, [], ◌∷◌, map, Bool, true, false, Option, none, some,
  arith, str_eq, eq_iff, all, subst, if◌then◌else◌, Bool-cases, inl, inr,
}
use gdom.Base.Rules.{Leads, bind_rule, return_rule, elim_rule, any_rule}
use gdom.Base.Reorder.{total}
use gdom.Drive.Types.{DriveChild}
use gdom.Scan.Types.{ScanRun, WorkItem, DriveChildPage, work_of}
use gdom.Scan.Roots.{contains, fresh_id, recurses_into, checkpoint_of}
use gdom.Scan.Page.{Findings, push_child, discover}

pub record IsFinite (listing : String → Option String → DriveChildPage) : Type 0 where
  pub rank : String → Option String → ℕ
  pub ids : List String
  pub shrinks :
      (folder_id : String) (token : Option String) (next : String)
      → (listing folder_id token).next_page_token ≡ some next
      → rank folder_id (some next) < rank folder_id token
  pub covers :
      (folder_id : String) (token : Option String)
      → all (λ (child : DriveChild). contains ids child.id) (listing folder_id token).files ≡ true

module _ (rank : String → Option String → ℕ) where
  abbrev pub weight : WorkItem → ℕ
  weight work = suc (rank work.folder_id work.page_token)

  -- What the files that are not yet visited may still cost.
  abbrev pub unseen : List String → List String → ℕ
  unseen visited = total (λ id. if contains visited id then 0 else suc (rank id none))

  unseen-cons :
      (id : String) (visited ids : List String) → unseen (id ∷ visited) ids ≤ unseen visited ids
  unseen-cons id visited [] = omega arith
  unseen-cons id visited (other ∷ ids) = ground (arith, unseen-cons id visited ids)

  unseen-visit :
      (id : String) (visited ids : List String)
      → contains ids id ≡ true
      → contains visited id ≡ false
      → unseen (id ∷ visited) ids + suc (rank id none) ≤ unseen visited ids
  unseen-visit id visited [] listed new = ground (arith, listed)
  unseen-visit id visited (other ∷ ids) listed new = elim (Bool-cases (str_eq id other)) [
    | inl same ↦
        subst (λ x. unseen (id ∷ visited) (x ∷ ids) + suc (rank id none) ≤ unseen visited (x ∷ ids))
          ((eq_iff id other).0 same) (ground (arith, unseen-cons id visited ids, new, eq_iff id id))
    | inr distinct ↦ ground (
      arith,
      unseen-visit id visited ids,
      distinct,
      listed,
      new,
      eq_iff other id,
      eq_iff id other,
    )
  ]

  module _ {W : Type 0} (run : ScanRun W) where
    pushed_cost :
        (id : ℕ) (created_at : String) (depth : ℤ) (child : DriveChild) (visited ids : List String)
        (found : Findings)
        → unseen (child.id ∷ visited) ids + suc (rank child.id none) ≤ unseen visited ids
        → unseen found.visited ids + total weight (map work_of found.folder_checkpoints)
          ≤ unseen (child.id ∷ visited) ids
        → unseen (push_child run id created_at depth child found).visited ids
            + total weight
                (map work_of (push_child run id created_at depth child found).folder_checkpoints)
          ≤ unseen visited ids
    unfolding push_child checkpoint_of work_of
    pushed_cost id created_at depth child visited ids found room cost =
        costs (recurses_into run child)
      where
        costs :
            (goes_down : Bool)
            → unseen found.visited ids
                + total weight (
                    map work_of (
                      if goes_down
                      then checkpoint_of run child.id depth ∷ found.folder_checkpoints
                      else found.folder_checkpoints))
              ≤ unseen visited ids
        costs true = omega (arith, room, cost)
        costs false = omega (arith, room, cost)

    pub discover_cost :
        (created_at : String) (depth : ℤ) (children : List DriveChild) (visited ids : List String)
        (w : W)
        → all (λ (child : DriveChild). contains ids child.id) children ≡ true
        → Leads
            (λ _ _. Unit)
            (discover run created_at depth children visited)
            w
            (λ found _.
              unseen found.visited ids + total weight (map work_of found.folder_checkpoints)
              ≤ unseen visited ids)
    unfolding discover
    discover_cost created_at depth [] visited ids w covered = return_rule _ (omega arith)
    discover_cost created_at depth (child ∷ children) visited ids w covered =
        elim_rule (contains visited child.id)
          (λ here. discover_cost created_at depth children visited ids w (ground (arith, covered)))
          (λ new. bind_rule (any_rule (fresh_id run) w) (λ id drawn _.
            bind_rule
              (discover_cost created_at depth children (child.id ∷ visited) ids drawn
                (ground (arith, covered)))
              (λ found after cost. return_rule _ (
                pushed_cost id created_at depth child visited ids found
                  (unseen-visit child.id visited ids (ground (arith, covered)) new) cost))))
