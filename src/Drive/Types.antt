-- ===== src/Drive/Types.antt =====
-- Records of src-tauri/src/application/drive_folder.rs, drive_tree.rs and drive_transfer.rs.
use gdom.Base.{ℤ, String, List, Bool, Option}

abbrev pub folder_mime_type : String
folder_mime_type = "application/vnd.google-apps.folder"

abbrev pub shortcut_mime_type : String
shortcut_mime_type = "application/vnd.google-apps.shortcut"

pub record DriveFolderOwner : Type 0 where
  pub permission_id : String
  pub email_address : Option String
  pub avatar_url : Option String

pub record DrivePermission : Type 0 where
  pub id : String
  pub role : String
  pub type_ : String
  pub email_address : Option String
  pub pending_owner : Bool

pub record DriveFileSnapshot : Type 0 where
  pub id : String
  pub name : String
  pub mime_type : String
  pub parents : List String
  pub owners : List DriveFolderOwner
  pub trashed : Bool
  pub drive_id : Option String
  pub quota_bytes_used : Option ℤ
  pub permissions : List DrivePermission

pub record DriveChild : Type 0 where
  pub id : String
  pub name : String
  pub mime_type : String
  pub parents : List String
  pub owners : List DriveFolderOwner
  pub drive_id : Option String
  pub quota_bytes_used : Option ℤ
  pub trashed : Bool
  pub shortcut_target_id : Option String
  pub shortcut_target_mime_type : Option String
  pub shortcut_target_resource_key : Option String
  pub resource_key : Option String
  pub modified_time : Option String
  pub web_view_link : Option String
