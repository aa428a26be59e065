-- ===== src/Scan/Found.antt =====
-- What the loop over the files of a page finds: every file is visited afterwards, and of the first
-- of the new items, however many, every folder is among as many first checkpoints.
use gdom.Base.{
  ℕ, zero, suc, ◌≡◌, refl, ◌⊎◌, inl, ℤ, String, List, [], ◌∷◌, Bool, true, false, ◌&&◌, Option,
  none, arith, str_eq, eq_iff, all, any, All, take, any-take-suc, ◌∙◌, if◌then◌else◌,
}
use gdom.Base.Rules.{Leads, bind_rule, return_rule, elim_rule, weaken}
use gdom.Item.State.{MigrationItem, ScanCheckpoint}
use gdom.Drive.Types.{DriveChild}
use gdom.Classifier.{classify_drive_child, item_state, should_recurse}
use gdom.Store.Rows.{Tables}
use gdom.Scan.Types.{ScanError, ScanRun, DriveChildPage}
use gdom.Scan.Roots.{contains, timestamp, fresh_id, item_of, recurses_into, checkpoint_of}
use gdom.Scan.Page.{Findings, push_child, discover}
use gdom.Scan.Progress.{is_folder_row}
use gdom.Scan.Laws.{IsQuiet}

abbrev pub has_file : String → List MigrationItem → Bool
has_file file_id = any (λ (item : MigrationItem). str_eq item.file_id file_id)

abbrev pub has_folder : String → List MigrationItem → Bool
has_folder file_id =
    any (λ (item : MigrationItem). is_folder_row item && str_eq item.file_id file_id)

abbrev pub has_checkpoint : String → List ScanCheckpoint → Bool
has_checkpoint folder_id =
    any (λ (checkpoint : ScanCheckpoint). str_eq checkpoint.folder_id folder_id)

abbrev pub AreFresh : List ScanCheckpoint → Type 0
AreFresh = All (λ (checkpoint : ScanCheckpoint). checkpoint.page_token ≡ none)

pub record IsFound (children : List DriveChild) (visited : List String) (found : Findings)
    : Type 0 where
  pub ahead :
      (n : ℕ) (f : String)
      → has_folder f (take n found.discovered) ≡ true
      → has_checkpoint f (take n found.folder_checkpoints) ≡ true
  pub fresh : AreFresh found.folder_checkpoints
  pub known :
      (f : String)
      → contains found.visited f ≡ true
      → (contains visited f ≡ true) ⊎ (has_file f found.discovered ≡ true)
  pub kept : (f : String) → contains visited f ≡ true → contains found.visited f ≡ true
  pub seen : all (λ (child : DriveChild). contains found.visited child.id) children ≡ true

module _ {W : Type 0} (run : ScanRun W) where
  -- The scan goes down into whatever it stores as an eligible folder.
  pub recurses_into-is_folder_row :
      (id : ℕ) (created_at file_id : String) (depth : ℤ) (child : DriveChild)
      → is_folder_row (item_of run id created_at file_id depth child) ≡ true
      → recurses_into run child ≡ true
  unfolding item_of recurses_into classify_drive_child item_state should_recurse
  recurses_into-is_folder_row id created_at file_id depth child h = ground arith

  still_ahead :
      (item : MigrationItem) (checkpoint : ScanCheckpoint) (goes_down : Bool) (found : Findings)
      → (is_folder_row item ≡ true → goes_down ≡ true)
      → checkpoint.folder_id ≡ item.file_id
      → ((n : ℕ) (f : String)
          → has_folder f (take n found.discovered) ≡ true
          → has_checkpoint f (take n found.folder_checkpoints) ≡ true)
      → (n : ℕ) (f : String) → has_folder f (take n (item ∷ found.discovered)) ≡ true
      → has_checkpoint f (
          take n
            (if goes_down then checkpoint ∷ found.folder_checkpoints else found.folder_checkpoints))
        ≡ true
  still_ahead item checkpoint goes_down found down same ahead zero f h = ground arith
  still_ahead item checkpoint true found down same ahead (suc n) f h =
      ground (arith, ahead n f, eq_iff item.file_id f, eq_iff checkpoint.folder_id f, same)
  still_ahead item checkpoint false found down same ahead (suc n) f h =
      any-take-suc (λ (c : ScanCheckpoint). str_eq c.folder_id f) n found.folder_checkpoints
        (ahead n f (ground (arith, down)))

  pushed :
      (id : ℕ) (created_at : String) (depth : ℤ) (child : DriveChild) (children : List DriveChild)
      (visited : List String) (found : Findings)
      → IsFound children (child.id ∷ visited) found
      → IsFound (child ∷ children) visited (push_child run id created_at depth child found)
  unfolding push_child item_of checkpoint_of
  pushed id created_at depth child children visited found rest = record {
    ahead =
        still_ahead (item_of run id created_at child.id depth child)
          (checkpoint_of run child.id depth) (recurses_into run child) found
          (recurses_into-is_folder_row id created_at child.id depth child) refl rest.ahead;
    fresh = still_fresh (recurses_into run child);
    known = λ f h. ground (arith, rest.known f, eq_iff f child.id, eq_iff child.id f);
    kept = λ f h. ground (arith, rest.kept f);
    seen = ground (arith, rest.seen, rest.kept child.id, eq_iff child.id child.id);
  }
    where
      still_fresh :
          (goes_down : Bool)
          → AreFresh (
              if goes_down
              then checkpoint_of run child.id depth ∷ found.folder_checkpoints
              else found.folder_checkpoints)
      still_fresh true = (refl, rest.fresh)
      still_fresh false = rest.fresh

  none_ahead :
      (n : ℕ) (f : String) → has_folder f (take n []) ≡ true → has_checkpoint f (take n []) ≡ true
  none_ahead zero f h = ground arith
  none_ahead (suc n) f h = ground arith

  passed :
      (child : DriveChild) (children : List DriveChild) (visited : List String) (found : Findings)
      → contains visited child.id ≡ true
      → IsFound children visited found
      → IsFound (child ∷ children) visited found
  passed child children visited found here rest = record {
    ahead = rest.ahead;
    fresh = rest.fresh;
    known = rest.known;
    kept = rest.kept;
    seen = ground (arith, rest.seen, rest.kept child.id);
  }

  module _ {view : W → Tables} {listing : String → Option String → DriveChildPage}
      (quiet : IsQuiet run view listing) where
    pub timestamp_rule :
        {R : ScanError → W → Type 0} (w : W)
        → Leads R (timestamp run) w (λ _ after. view after ≡ view w)
    unfolding timestamp
    timestamp_rule w = record { comes = quiet.clock w }

    pub fresh_id_rule :
        {R : ScanError → W → Type 0} (w : W)
        → Leads R (fresh_id run) w (λ _ after. view after ≡ view w)
    unfolding fresh_id
    fresh_id_rule w = record { comes = quiet.next_entity_id w }

    pub discover_rule :
        {R : ScanError → W → Type 0} (created_at : String) (depth : ℤ) (children : List DriveChild)
        (visited : List String) (w : W)
        → Leads R
            (discover run created_at depth children visited)
            w
            (λ found after. (view after ≡ view w) × IsFound children visited found)
    unfolding discover
    discover_rule created_at depth [] visited w = return_rule _ (
      refl,
      record { ahead = none_ahead; fresh = tt; known = λ f h. inl h; kept = λ f h. h; seen = refl },
    )
    discover_rule created_at depth (child ∷ children) visited w =
        elim_rule (contains visited child.id)
          (λ here.
            weaken (discover_rule created_at depth children visited w)
              (λ found after q. (q.0, passed child children visited found here q.1)))
          (λ new. bind_rule (fresh_id_rule w) (λ id first same.
            bind_rule (discover_rule created_at depth children (child.id ∷ visited) first)
              (λ found after q.
                return_rule _
                  (q.0 ∙ same, pushed id created_at depth child children visited found q.1))))
