-- ===== src/Sync/Types.antt =====
-- livtet-sync/src/types/wire.rs and error.rs: the wire types and the errors of the sync protocol.
use livtet.Base.{ℕ, Bool, Option, List}
use livtet.Base.Text.{Text}
use livtet.Base.Int.{ℤ}

pub record SyncChange : Type 0 where
  pub id : ℕ
  pub entity_type : Text
  pub entity_id : Text
  pub operation : Text
  pub version : ℤ
  pub payload : Text
  pub changed_at : Text
  pub device_id : Text

pub record Conflict : Type 0 where
  pub id : ℕ
  pub entity_type : Text
  pub entity_id : Text
  pub local_payload : Text
  pub remote_payload : Text
  pub resolved : Bool
  pub resolution : Option Text
  pub merged_payload : Option Text
  pub detected_at : Text

pub record PullResponse : Type 0 where
  pub changes : List SyncChange
  pub has_more : Bool
  pub latest_version : ℤ

pub record PushResponse : Type 0 where
  pub accepted : Bool
  pub conflicts : List Conflict
  pub latest_version : ℤ

-- The messages that come from serde and SQLite are left out.
pub data SyncError : Type 0 where
  db : SyncError
  unknown_entity_type : Text → SyncError
  deserialization : Text → SyncError
  invalid_payload : Text → SyncError
  invalid_operation : Text → Text → SyncError
  invalid_entity_id : Text → SyncError
