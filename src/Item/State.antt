-- ===== src/Item/State.antt =====
-- gdom-migration/src/item.rs: the states of an item, their names and tests, and the item's record.
use gdom.Base.{
  ℕ, ℤ, String, List, [], ◌∷◌, Bool, true, false, Option, Result, ok, err, ok_or, match_text,
  if◌then◌else◌, ◌||◌, ◌==◌,
}

pub data ItemState : Type 0 where
  discovered eligible pending_owner_required pending_owner_created accept_required : ItemState
  accepting transferred verifying verified skipped_already_owned_by_target : ItemState
  skipped_not_owned_by_source skipped_shared_drive skipped_shortcut_target : ItemState
  skipped_trashed skipped_ineligible retryable_failed permanent_failed cancelled : ItemState

pub data ItemError : Type 0 where
  invalid_item_state illegal_transition : ItemError

unfoldable pub as_str : ItemState → String
as_str discovered = "DISCOVERED"
as_str eligible = "ELIGIBLE"
as_str pending_owner_required = "PENDING_OWNER_REQUIRED"
as_str pending_owner_created = "PENDING_OWNER_CREATED"
as_str accept_required = "ACCEPT_REQUIRED"
as_str accepting = "ACCEPTING"
as_str transferred = "TRANSFERRED"
as_str verifying = "VERIFYING"
as_str verified = "VERIFIED"
as_str skipped_already_owned_by_target = "SKIPPED_ALREADY_OWNED_BY_TARGET"
as_str skipped_not_owned_by_source = "SKIPPED_NOT_OWNED_BY_SOURCE"
as_str skipped_shared_drive = "SKIPPED_SHARED_DRIVE"
as_str skipped_shortcut_target = "SKIPPED_SHORTCUT_TARGET"
as_str skipped_trashed = "SKIPPED_TRASHED"
as_str skipped_ineligible = "SKIPPED_INELIGIBLE"
as_str retryable_failed = "RETRYABLE_FAILED"
as_str permanent_failed = "PERMANENT_FAILED"
as_str cancelled = "CANCELLED"

abbrev pub state_arms : List (String × ItemState)
state_arms =
    ("DISCOVERED", discovered)
    ∷ ("ELIGIBLE", eligible)
    ∷ ("PENDING_OWNER_REQUIRED", pending_owner_required)
    ∷ ("PENDING_OWNER_CREATED", pending_owner_created)
    ∷ ("ACCEPT_REQUIRED", accept_required)
    ∷ ("ACCEPTING", accepting)
    ∷ ("TRANSFERRED", transferred)
    ∷ ("VERIFYING", verifying)
    ∷ ("VERIFIED", verified)
    ∷ ("SKIPPED_ALREADY_OWNED_BY_TARGET", skipped_already_owned_by_target)
    ∷ ("SKIPPED_NOT_OWNED_BY_SOURCE", skipped_not_owned_by_source)
    ∷ ("SKIPPED_SHARED_DRIVE", skipped_shared_drive)
    ∷ ("SKIPPED_SHORTCUT_TARGET", skipped_shortcut_target)
    ∷ ("SKIPPED_TRASHED", skipped_trashed)
    ∷ ("SKIPPED_INELIGIBLE", skipped_ineligible)
    ∷ ("RETRYABLE_FAILED", retryable_failed)
    ∷ ("PERMANENT_FAILED", permanent_failed)
    ∷ ("CANCELLED", cancelled)
    ∷ []

unfoldable pub from_str : String → Result ItemError ItemState
from_str s = ok_or (match_text s state_arms) invalid_item_state

unfoldable pub is_skipped : ItemState → Bool
is_skipped skipped_already_owned_by_target = true
is_skipped skipped_not_owned_by_source = true
is_skipped skipped_shared_drive = true
is_skipped skipped_shortcut_target = true
is_skipped skipped_trashed = true
is_skipped skipped_ineligible = true
is_skipped _ = false

unfoldable pub is_eligible : ItemState → Bool
is_eligible eligible = true
is_eligible _ = false

unfoldable pub is_terminal : ItemState → Bool
is_terminal verified = true
is_terminal skipped_already_owned_by_target = true
is_terminal skipped_not_owned_by_source = true
is_terminal skipped_shared_drive = true
is_terminal skipped_shortcut_target = true
is_terminal skipped_trashed = true
is_terminal skipped_ineligible = true
is_terminal permanent_failed = true
is_terminal cancelled = true
is_terminal _ = false

unfoldable pub is_transfer_active : ItemState → Bool
is_transfer_active eligible = true
is_transfer_active pending_owner_required = true
is_transfer_active pending_owner_created = true
is_transfer_active accept_required = true
is_transfer_active accepting = true
is_transfer_active transferred = true
is_transfer_active verifying = true
is_transfer_active retryable_failed = true
is_transfer_active _ = false

unfoldable pub is_unstarted_for_cancel : ItemState → Bool
is_unstarted_for_cancel discovered = true
is_unstarted_for_cancel eligible = true
is_unstarted_for_cancel pending_owner_required = true
is_unstarted_for_cancel retryable_failed = true
is_unstarted_for_cancel _ = false

unfoldable pub is_intermediate_checkpoint : ItemState → Bool
is_intermediate_checkpoint pending_owner_created = true
is_intermediate_checkpoint accepting = true
is_intermediate_checkpoint transferred = true
is_intermediate_checkpoint verifying = true
is_intermediate_checkpoint _ = false

-- The derived `==` compares discriminants.
abbrev pub discriminant : ItemState → ℕ
discriminant discovered = 0
discriminant eligible = 1
discriminant pending_owner_required = 2
discriminant pending_owner_created = 3
discriminant accept_required = 4
discriminant accepting = 5
discriminant transferred = 6
discriminant verifying = 7
discriminant verified = 8
discriminant skipped_already_owned_by_target = 9
discriminant skipped_not_owned_by_source = 10
discriminant skipped_shared_drive = 11
discriminant skipped_shortcut_target = 12
discriminant skipped_trashed = 13
discriminant skipped_ineligible = 14
discriminant retryable_failed = 15
discriminant permanent_failed = 16
discriminant cancelled = 17

abbrev pub same_state : ItemState → ItemState → Bool
same_state s t = discriminant s == discriminant t

-- The pairs that `can_transition_to` lists, one row for each state left.
unfoldable pub lists : ItemState → ItemState → Bool
lists discovered eligible = true
lists eligible pending_owner_required = true
lists eligible verifying = true
lists eligible skipped_already_owned_by_target = true
lists eligible skipped_not_owned_by_source = true
lists eligible skipped_shared_drive = true
lists eligible skipped_trashed = true
lists eligible skipped_ineligible = true
lists eligible permanent_failed = true
lists eligible retryable_failed = true
lists eligible cancelled = true
lists pending_owner_required pending_owner_created = true
lists pending_owner_required verifying = true
lists pending_owner_required retryable_failed = true
lists pending_owner_required permanent_failed = true
lists pending_owner_required cancelled = true
lists pending_owner_required skipped_trashed = true
lists pending_owner_required skipped_shared_drive = true
lists pending_owner_required skipped_not_owned_by_source = true
lists pending_owner_created accept_required = true
lists pending_owner_created verifying = true
lists pending_owner_created retryable_failed = true
lists pending_owner_created permanent_failed = true
lists pending_owner_created cancelled = true
lists pending_owner_created skipped_trashed = true
lists pending_owner_created skipped_shared_drive = true
lists accept_required accepting = true
lists accept_required verifying = true
lists accept_required retryable_failed = true
lists accept_required permanent_failed = true
lists accept_required cancelled = true
lists accept_required skipped_trashed = true
lists accepting transferred = true
lists accepting verifying = true
lists accepting retryable_failed = true
lists accepting permanent_failed = true
lists accepting cancelled = true
lists accepting skipped_trashed = true
lists transferred verifying = true
lists transferred retryable_failed = true
lists transferred permanent_failed = true
lists transferred cancelled = true
lists transferred skipped_trashed = true
lists verifying verified = true
lists verifying retryable_failed = true
lists verifying permanent_failed = true
lists verifying cancelled = true
lists verifying skipped_trashed = true
lists retryable_failed pending_owner_required = true
lists retryable_failed verifying = true
lists retryable_failed permanent_failed = true
lists retryable_failed cancelled = true
lists retryable_failed skipped_trashed = true
lists retryable_failed skipped_shared_drive = true
lists _ _ = false

unfoldable pub can_transition_to : ItemState → ItemState → Bool
unfolding lists
can_transition_to from to = lists from to || same_state from to

unfoldable pub transition_to : ItemState → ItemState → Result ItemError ItemState
transition_to from next = if can_transition_to from next then ok next else err illegal_transition

pub record ItemErrorDetails : Type 0 where
  pub code : Option String
  pub reason : Option String
  pub message : Option String

-- A `GooglePermissionId` is its text; `depth` and `quota_bytes_used` are i64.
pub record MigrationItem : Type 0 where
  pub id : ℕ
  pub job_id : ℕ
  pub file_id : String
  pub name : String
  pub mime_type : String
  pub depth : ℤ
  pub original_parent_ids : List String
  pub original_owner_permission_id : Option String
  pub quota_bytes_used : Option ℤ
  pub target_permission_id : Option String
  pub state : ItemState
  pub canary_selected : Bool
  pub last_error : Option ItemErrorDetails
  pub created_at : String
  pub updated_at : String

pub record ScanCheckpoint : Type 0 where
  pub job_id : ℕ
  pub folder_id : String
  pub page_token : Option String
  pub depth : ℤ
