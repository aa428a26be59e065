-- ===== src/Store/Changes.antt =====
-- src-tauri/src/infrastructure/item_store.rs: the changes of stored items and their audit events.
-- Redaction (gdom-logs), the JSON text of an error and what SQLite refuses are parameters. `stamps`
-- are the two readings of the clock for a row; the id of an event is left out. A row is changed where
-- it stands: the column id is the key of the table.
use gdom.Base.{
  ℕ, zero, suc, String, ◌<>◌, List, [], ◌∷◌, ◌++◌, map, Bool, true, false, not, ◌&&◌, ◌||◌, Option,
  none, some, Result, ok, err, ◌==◌, str_eq, filter, find?, length, is_some, decimal, if◌then◌else◌,
}
use Prim.Native.String as Text
use gdom.Item.State.{ItemState, ItemErrorDetails, MigrationItem, same_state, as_str}
use gdom.Transfer.Types.{ItemStoreError}
use gdom.Store.Aggregates.{own}

pub record AuditEvent : Type 0 where
  pub job_id : ℕ
  pub file_id : String
  pub event_type : String
  pub previous_state : String
  pub new_state : String
  pub sanitized_detail_json : Option String
  pub created_at : String

pub record Ledger : Type 0 where
  pub items : List MigrationItem
  pub events : List AuditEvent

abbrev max_item_error_chars : ℕ
max_item_error_chars = 2048

unfoldable pub take_chars : ℕ → String → String
take_chars zero s = ""
take_chars (suc n) Text.[] = ""
take_chars (suc n) (Text.◌∷◌ c s) = Text.◌∷◌ c (take_chars n s)

-- The three columns of an error, and the error that is read from them.
abbrev pub columns_of : Option ItemErrorDetails → ItemErrorDetails
columns_of none = record { code = none; reason = none; message = none }
columns_of (some details) = details

abbrev pub has_error : ItemErrorDetails → Bool
has_error columns = is_some columns.code || is_some columns.reason || is_some columns.message

abbrev pub error_of : ItemErrorDetails → Option ItemErrorDetails
error_of columns = if has_error columns then some columns else none

abbrev pub same_text : Option String → Option String → Bool
same_text none none = true
same_text (some a) (some b) = str_eq a b
same_text _ _ = false

abbrev pub map_text : (String → String) → Option String → Option String
map_text f none = none
map_text f (some text) = some (f text)

abbrev pub is_row : MigrationItem → MigrationItem → Bool
is_row item row = row.id == item.id && row.job_id == item.job_id

abbrev pub replace_rows :
    (MigrationItem → Bool)
    → (MigrationItem → MigrationItem)
    → List MigrationItem
    → List MigrationItem
replace_rows test change [] = []
replace_rows test change (row ∷ rows) =
    (if test row then change row else row) ∷ replace_rows test change rows

-- A transaction that SQLite refuses changes nothing.
abbrev pub settled :
    {A : Type 0} → Option String → A → Ledger → Ledger → Result ItemStoreError A × Ledger
settled none answer after before = (ok answer, after)
settled (some message) answer after before = (err (ItemStoreError.database message), before)

-- The states that the query of `cancel_unstarted_items` names.
unfoldable pub is_cancellable : ItemState → Bool
is_cancellable ItemState.discovered = true
is_cancellable ItemState.eligible = true
is_cancellable ItemState.pending_owner_required = true
is_cancellable ItemState.retryable_failed = true
is_cancellable _ = false

-- What both sweeps do with the rows that their query selects.
unfoldable pub sweep :
    Option String
    → (MigrationItem → Bool)
    → (MigrationItem → MigrationItem)
    → (MigrationItem → AuditEvent)
    → Ledger
    → Result ItemStoreError ℕ × Ledger
sweep refusal test change event ledger =
    let rows = filter test ledger.items in
    settled refusal (length rows)
      (record {
        items = replace_rows test change ledger.items;
        events = ledger.events ++ map event rows;
      })
      ledger

module _ (redact : String → String) (error_json : Option ItemErrorDetails → String) where
  unfoldable pub sanitize_item_error : String → String
  sanitize_item_error value = take_chars max_item_error_chars (redact value)

  unfoldable pub sanitized_columns : MigrationItem → ItemErrorDetails
  unfolding sanitize_item_error
  sanitized_columns item = record {
    code = map_text sanitize_item_error (columns_of item.last_error).code;
    reason = map_text sanitize_item_error (columns_of item.last_error).reason;
    message = map_text sanitize_item_error (columns_of item.last_error).message;
  }

  unfoldable pub error_changed : MigrationItem → MigrationItem → Bool
  unfolding sanitized_columns
  error_changed previous item =
      let old = columns_of previous.last_error in
      let new = sanitized_columns item in
      not (same_text old.code new.code)
      || (not (same_text old.reason new.reason) || not (same_text old.message new.message))

  -- `UPDATE migration_items SET ...`.
  unfoldable pub saved_row : MigrationItem → MigrationItem → MigrationItem
  unfolding sanitized_columns
  saved_row item row = record row {
    state = item.state;
    target_permission_id = item.target_permission_id;
    updated_at = item.updated_at;
    canary_selected = item.canary_selected;
    last_error = error_of (sanitized_columns item);
  }

  unfoldable pub save_event : MigrationItem → MigrationItem → List AuditEvent
  unfolding sanitized_columns error_changed
  save_event previous item =
      let state_changed = not (same_state previous.state item.state) in
      let changed = error_changed previous item in
      if state_changed || changed
      then record {
        job_id = item.job_id;
        file_id = item.file_id;
        event_type = if state_changed then "ITEM_STATE" else "ITEM_ERROR";
        previous_state = as_str previous.state;
        new_state = as_str item.state;
        sanitized_detail_json =
            if changed then some (error_json (error_of (sanitized_columns item))) else none;
        created_at = item.updated_at;
      }
        ∷ []
      else []

  unfoldable pub save_found :
      Option String
      → MigrationItem
      → Option MigrationItem
      → Ledger
      → Result ItemStoreError (Unit {0}) × Ledger
  unfolding saved_row save_event
  save_found refusal item none ledger = (
    err (ItemStoreError.database ("migration item " <> (decimal item.id <> " was not found"))),
    ledger,
  )
  save_found refusal item (some previous) ledger =
      settled refusal tt
        (record {
          items = replace_rows (is_row item) (saved_row item) ledger.items;
          events = ledger.events ++ save_event previous item;
        })
        ledger

  unfoldable pub save_item :
      Option String → MigrationItem → Ledger → Result ItemStoreError (Unit {0}) × Ledger
  unfolding save_found
  save_item refusal item ledger = save_found refusal item (find? (is_row item) ledger.items) ledger

  module _ (job_id : ℕ) (stamps : MigrationItem → String × String) where
    abbrev pub state_event : ItemState → Option String → MigrationItem → AuditEvent
    state_event new detail row = record {
      job_id = job_id;
      file_id = row.file_id;
      event_type = "ITEM_STATE";
      previous_state = as_str row.state;
      new_state = as_str new;
      sanitized_detail_json = detail;
      created_at = (stamps row).1;
    }

    unfoldable pub cancel_unstarted_items :
        Option String → Ledger → Result ItemStoreError ℕ × Ledger
    unfolding sweep is_cancellable
    cancel_unstarted_items refusal =
        sweep refusal (λ row. own job_id row && is_cancellable row.state)
          (λ row. record row { state = ItemState.cancelled; updated_at = (stamps row).0 })
          (state_event ItemState.cancelled none)

    unfoldable pub retry_failed_items : Option String → Ledger → Result ItemStoreError ℕ × Ledger
    unfolding sweep
    retry_failed_items refusal =
        sweep refusal (λ row. own job_id row && same_state row.state ItemState.retryable_failed)
          (λ row. record row {
            state = ItemState.pending_owner_required;
            updated_at = (stamps row).0;
            last_error = none;
          })
          (state_event ItemState.pending_owner_required (some (error_json none)))
