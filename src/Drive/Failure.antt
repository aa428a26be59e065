-- ===== src/Drive/Failure.antt =====
-- src-tauri/src/application/drive_transfer.rs: the failures of a call to Drive, as the item records
-- them. How a failure is read off an HTTP answer (`from_api_response`) is not modelled: a failure
-- arrives with its fields.
use gdom.Base.{
  ℕ, String, ◌<>◌, List, [], ◌∷◌, Bool, true, false, Option, none, some, decimal, get_or,
}
use gdom.Item.State.{ItemErrorDetails}

pub data DriveTransferError : Type 0 where
  unauthorized forbidden not_found rate_limited sharing_rate_limit_exceeded : DriveTransferError
  storage_quota_exceeded server_unavailable transport invalid_response : DriveTransferError
  unexpected_status : ℕ → DriveTransferError

pub record DriveTransferFailure : Type 0 where
  pub kind : DriveTransferError
  pub http_status : Option ℕ
  pub google_status : Option String
  pub reasons : List String
  pub message : Option String

unfoldable pub is_transient : DriveTransferError → Bool
is_transient rate_limited = true
is_transient server_unavailable = true
is_transient transport = true
is_transient _ = false

unfoldable pub http_status_of : DriveTransferError → Option ℕ
http_status_of unauthorized = some 401
http_status_of forbidden = some 403
http_status_of sharing_rate_limit_exceeded = some 403
http_status_of storage_quota_exceeded = some 403
http_status_of not_found = some 404
http_status_of rate_limited = some 429
http_status_of (unexpected_status status) = some status
http_status_of server_unavailable = none
http_status_of transport = none
http_status_of invalid_response = none

unfoldable pub code_of : DriveTransferError → String
code_of unauthorized = "unauthorized"
code_of forbidden = "forbidden"
code_of not_found = "not_found"
code_of rate_limited = "rate_limited"
code_of sharing_rate_limit_exceeded = "sharing_rate_limit_exceeded"
code_of storage_quota_exceeded = "storage_quota_exceeded"
code_of server_unavailable = "server_unavailable"
code_of transport = "transport"
code_of invalid_response = "invalid_response"
code_of (unexpected_status _) = "unexpected_status"

-- `impl Display for DriveTransferError`.
unfoldable pub kind_text : DriveTransferError → String
kind_text unauthorized = "Google Drive rejected the access token"
kind_text forbidden = "Google Drive denied this request"
kind_text not_found = "Google Drive file not found"
kind_text rate_limited = "Google Drive rate limit reached"
kind_text sharing_rate_limit_exceeded = "Google Drive sharing rate limit exceeded"
kind_text storage_quota_exceeded = "Google Drive storage quota exceeded"
kind_text server_unavailable = "Google Drive is unavailable"
kind_text transport = "Google Drive request failed"
kind_text invalid_response = "Google Drive returned an invalid response"
kind_text (unexpected_status status) = "Google Drive returned unexpected status " <> decimal status

abbrev or_else {ℓ} : {A : Type ℓ} → Option A → Option A → Option A
or_else none b = b
or_else (some a) b = some a

abbrev map_option {ℓ κ} : {A : Type ℓ} {B : Type κ} → (A → B) → Option A → Option B
map_option f none = none
map_option f (some a) = some (f a)

-- `impl Display for DriveTransferFailure`.
unfoldable pub failure_text : DriveTransferFailure → String
failure_text err = get_or err.message (kind_text err.kind)

-- `impl From<DriveTransferError>`.
unfoldable pub of_kind : DriveTransferError → DriveTransferFailure
of_kind kind = record {
  kind = kind;
  http_status = http_status_of kind;
  google_status = none;
  reasons = [];
  message = none;
}

join : String → List String → String
join sep [] = ""
join sep (s ∷ []) = s
join sep (s ∷ t ∷ rest) = s <> (sep <> join sep (t ∷ rest))

with_status : Option String → List String → List String
with_status none reasons = reasons
with_status (some status) reasons = status ∷ reasons

joined_or : String → List String → String
joined_or code [] = code
joined_or code (r ∷ rs) = join ": " (r ∷ rs)

unfoldable pub item_error_details : DriveTransferFailure → ItemErrorDetails
unfolding with_status joined_or join
item_error_details err = record {
  code = map_option decimal (or_else err.http_status (http_status_of err.kind));
  reason = some (joined_or (code_of err.kind) (with_status err.google_status err.reasons));
  message = some (get_or err.message (kind_text err.kind));
}
