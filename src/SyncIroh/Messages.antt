-- ===== src/SyncIroh/Messages.antt =====
-- livtet-sync-iroh/src/wire.rs and server.rs: what a peer asks, what it is answered, and the bytes
-- that follow an answer. `F` stands for `f64`.
use livtet.Base.{ℕ, Bool, Option, none, some, List}
use livtet.Base.Text.{Text, codes}
use livtet.Base.Int.{ℤ}
use livtet.Sync.Types.{SyncChange, Conflict, PullResponse, PushResponse}
use livtet.Sync.Full.{FullDump, SyncStatus}

abbrev pub protocol_version : ℕ
protocol_version = 2

pub record Identity : Type 0 where
  pub protocol : ℕ
  pub node_id : Text
  pub device_id : Text

pub record OpdsHeaders : Type 0 where
  pub accept : Option Text
  pub accept_language : Option Text
  pub accept_encoding : Option Text

pub record OpdsResponse : Type 0 where
  pub status : ℕ
  pub content_type : Text
  pub body : List ℕ

pub data Request : Type 0 where
  identity : Request
  status : (token : Text) → Request
  changes : (token : Text) (since_version : ℤ) (limit : Option ℤ) → Request
  pull_full : (token : Text) → Request
  push : (token : Text) (changes : List SyncChange) → Request
  pair : (device_id name device_type : Text) → Request
  pair_status : (claim : Text) → Request
  conflicts : (token : Text) → Request
  resolve_conflict :
      (token : Text) (id : ℤ) (resolution : Text) (merged_payload : Option Text) → Request
  file :
      (token inventory_id : Text) (offset : ℕ) (length : Option ℕ) (if_range : Option Text)
      → Request
  file_info : (token inventory_id : Text) → Request
  cover : (token inventory_id : Text) → Request
  opds : (method path : Text) (headers : OpdsHeaders) (body : List ℕ) → Request
  offer_decision : (token offer_id : Text) (accepted : Bool) → Request

pub data ErrorCode : Type 0 where
  bad_request unauthorized not_found conflict too_many_requests : ErrorCode
  range_not_satisfiable : (size : ℕ) → ErrorCode
  precondition_failed internal : ErrorCode

unfoldable pub label : ErrorCode → Text
label bad_request = codes "bad_request"
label unauthorized = codes "unauthorized"
label not_found = codes "not_found"
label conflict = codes "conflict"
label too_many_requests = codes "too_many_requests"
label (range_not_satisfiable _) = codes "range_not_satisfiable"
label precondition_failed = codes "precondition_failed"
label internal = codes "internal"

pub record FileHeader : Type 0 where
  pub content_type : Text
  pub offset : ℕ
  pub length : ℕ
  pub total : ℕ
  pub etag : Text

pub record FileMetadata : Type 0 where
  pub content_type : Text
  pub size : ℕ
  pub etag : Text

pub data Response (F : Type 0) : Type 0 where
  identity_of : Identity → Response F
  status_of : SyncStatus → Response F
  changes_of : PullResponse → Response F
  full : FullDump F → Response F
  pushed : PushResponse → Response F
  pairing_pending : (claim : Text) → Response F
  paired : (device_id session_token : Text) → Response F
  refused : (reason : Text) → Response F
  conflicts_of : List Conflict → Response F
  resolved : Bool → Response F
  file_of : FileHeader → Response F
  file_info_of : FileMetadata → Response F
  cover_of : FileHeader → Response F
  opds_of : OpdsResponse → Response F
  offer_decided : Response F
  error : (code : ErrorCode) (message : Text) → Response F

-- the bytes that follow a header
pub record FileBody : Type 0 where
  pub path : Text
  pub offset : ℕ
  pub length : ℕ

pub record Outcome (F : Type 0) : Type 0 where
  pub response : Response F
  pub body : Option FileBody

module _ {F : Type 0} where
  unfoldable pub reply : Response F → Outcome F
  reply r = record { response = r; body = none }

  unfoldable pub serve_file : FileHeader → Text → Outcome F
  serve_file h path = record {
    response = file_of h;
    body = some (record { path = path; offset = h.offset; length = h.length });
  }

  unfoldable pub serve_cover : FileHeader → Text → Outcome F
  serve_cover h path = record {
    response = cover_of h;
    body = some (record { path = path; offset = h.offset; length = h.length });
  }
