-- ===== src/Scan/TestDrive.antt =====
-- A small Drive for the tests: a root folder with a document and a folder on its first page, an empty
-- second page, and a store over SQLite that never fails.
use gdom.Base.{
  ℕ, ◌<◌, ◌≡◌, refl, String, List, [], ◌∷◌, true, false, Option, none, some, ok, all, arith, str_eq,
  if◌then◌else◌,
}
use gdom.Base.Reorder.{unchanged}
use gdom.Job.Types.{RootValidationStatus}
use gdom.Drive.Types.{DriveChild, DriveFileSnapshot, DriveFolderOwner, folder_mime_type}
use gdom.Store.Rows.{Tables}
use gdom.Store.Sqlite.{sqlite}
use gdom.Store.Committed.{sqlite-IsScanStore}
use gdom.Scan.Types.{ScanRun, DriveChildPage}
use gdom.Scan.Roots.{contains}
use gdom.Scan.Laws.{IsScanStore, IsQuiet}
use gdom.Scan.Ends.{IsFinite}
use gdom.Scan.Progress.{IsResumable}

abbrev owned : List DriveFolderOwner
owned = record { permission_id = "source"; email_address = none; avatar_url = none } ∷ []

abbrev pub child : String → String → DriveChild
child id mime_type = record {
  id = id;
  name = id;
  mime_type = mime_type;
  parents = "root" ∷ [];
  owners = owned;
  drive_id = none;
  quota_bytes_used = none;
  trashed = false;
  shortcut_target_id = none;
  shortcut_target_mime_type = none;
  shortcut_target_resource_key = none;
  resource_key = none;
  modified_time = none;
  web_view_link = none;
}

abbrev root_snapshot : DriveFileSnapshot
root_snapshot = record {
  id = "root";
  name = "Root";
  mime_type = folder_mime_type;
  parents = [];
  owners = owned;
  trashed = false;
  drive_id = none;
  quota_bytes_used = none;
  permissions = [];
}

abbrev empty_page : DriveChildPage
empty_page = record { files = []; next_page_token = none }

abbrev first_page : DriveChildPage
first_page = record {
  files = child "document" "text/plain" ∷ child "folder" folder_mime_type ∷ [];
  next_page_token = some "second";
}

abbrev pub listing : String → Option String → DriveChildPage
listing folder_id none = if str_eq folder_id "root" then first_page else empty_page
listing folder_id (some _) = empty_page

abbrev pub run : ScanRun Tables
run = record {
  drive_port = record {
    get_file = λ token id w. (ok root_snapshot, w);
    list_children = λ token folder_id page_token w. (ok (listing folder_id page_token), w);
  };
  store_port = sqlite (λ _. none) (λ _ _. none) (λ _. none) (λ _. none);
  job_id = 1;
  roots =
      record {
        id = 1;
        job_id = 1;
        root_file_id = "root";
        root_name = "Root";
        validation_status = RootValidationStatus.validated;
        created_at = "";
      }
      ∷ [];
  source_token = "source-token";
  source_permission_id = "source";
  target_permission_id = "target";
  pause = λ w. false;
  concurrency = 2;
  events = none;
  clock = λ w. (0, w);
  next_entity_id = λ w. (7, w);
  join_order = λ w wave. wave;
  task_panics = λ work w. false;
}

abbrev pub view : Tables → Tables
view tables = tables

pub store : IsScanStore run.store_port run.job_id view
store = sqlite-IsScanStore (λ _. none) (λ _ _. none) (λ _. none) (λ _. none) 1

pub quiet : IsQuiet run view listing
quiet = record {
  get_file = λ id w. record { comes = refl };
  pages = λ folder_id token w. record { comes = (refl, refl) };
  next_entity_id = λ w. refl;
  clock = λ w. refl;
  emit = λ sink event w given. cc;
  join_order = λ w wave. unchanged wave;
}

abbrev pub rank : String → Option String → ℕ
rank folder_id none = 1
rank folder_id (some _) = 0

pub finite : IsFinite listing
finite = record {
  rank = rank;
  ids = "document" ∷ "folder" ∷ [];
  shrinks = λ folder_id token next more. shrink folder_id token next more;
  covers = cover;
}
  where
    shrink :
        (folder_id : String) (token : Option String) (next : String)
        → (listing folder_id token).next_page_token ≡ some next
        → rank folder_id (some next) < rank folder_id token
    shrink folder_id none next more = omega arith
    shrink folder_id (some page) next more = cc

    cover :
        (folder_id : String) (token : Option String)
        → all
            (λ (c : DriveChild). contains ("document" ∷ "folder" ∷ []) c.id)
            (listing folder_id token).files
          ≡ true
    cover folder_id none = ground arith
    cover folder_id (some page) = refl

abbrev pub nothing : Tables
nothing = record { items = []; checkpoints = [] }

pub nothing-IsResumable : IsResumable 1 listing nothing
nothing-IsResumable = record { reached = tt; covered = λ folder_id row found is_folder. cc }
