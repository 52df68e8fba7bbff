-- ===== src/SyncServer/WireState.antt =====
-- livtet-sync-server/src/wire_state.rs, the rows of livtet-data/src/client_entities/entities that
-- it reads, and what one request takes from outside.
use livtet.Base.{ℕ, Bool, Option, none, some, List}
use livtet.Base.Text.{Text}
use livtet.Base.Int.{ℤ}
use livtet.SyncIroh.Messages.{OpdsResponse, Response}
use livtet.Sync.Json.{Env}
use livtet.Sync.Full.{Reader}
use livtet.Sync.Receive.{InventoryPaths}
use livtet.Sync.Store.{Db}
use livtet.SyncServer.RateLimit.{ClaimRateLimiter}
use livtet.SyncServer.Requests.{RequestRecord}
use livtet.SyncServer.Pairing.{PairWaiters, PairDecisions, OfferDecision}

-- the sixteen bytes of an id
abbrev pub DbId : Type 0
DbId = List ℕ

pub data PairingStatus : Type 0 where
  pending approved rejected : PairingStatus

-- The canonical device types. Their ids differ, so a column with an id holds one of them.
pub data DeviceType : Type 0 where
  desktop mobile web ereader : DeviceType

-- A row of `paired_devices`, with the columns that later migrations added. Times are in
-- milliseconds.
pub record PairedDevice : Type 0 where
  pub device_id : DbId
  pub name : Option Text
  pub listen_on : Option Text
  pub device_type_id : Option DeviceType
  pub paired_at : ℕ
  pub last_sync_at : Option ℕ
  pub outbound : Bool
  pub session_token : Option Text
  pub node_id : Option Text
  pub peer_session_token : Option Text

-- A row of `pending_pairings` but for its key, the node id.
pub record PendingPairing : Type 0 where
  pub desktop_id : DbId
  pub listen_on : Option Text
  pub status_id : Option PairingStatus
  pub device_name : Option Text
  pub device_type_id : Option DeviceType
  pub device_id : Option DbId
  pub origin_addr : Option Text
  pub created_at : ℕ
  pub expires_at : ℕ

-- what `sync.completed` carries
pub data SyncCompleted : Type 0 where
  changes_completed :
      (device_id : Text) (changes : ℕ) (has_more : Bool) (latest_version : ℤ) → SyncCompleted
  push_completed :
      (device_id : Text) (accepted : Bool) (conflicts : ℕ) (latest_version : ℤ) → SyncCompleted
  full_completed : (device_id : Text) (version : ℤ) → SyncCompleted

pub data Notification : Type 0 where
  request_received : RequestRecord → Notification
  sync_completed_with : SyncCompleted → Notification
  pairing_requested : (node_id device_id name : Text) → Notification

-- `request_log`, `counters` and `notifier` are `none` where nobody reads them; a notifier holds
-- what it was told. `limiter` is the process-wide one of rate_limit.rs, and `offers` what the sink
-- of offer decisions was given.
pub record WireState (T : Type 0) : Type 0 where
  pub db : Db T
  pub paired_devices : List PairedDevice
  pub pending_pairings : List (Text × PendingPairing)
  pub device_id : Text
  pub node_id : Option Text
  pub pair_waiters : PairWaiters
  pub pair_decisions : PairDecisions
  pub limiter : ClaimRateLimiter
  pub offers : List OfferDecision
  pub notifier : Option (List Notification)
  pub request_log : Option (List RequestRecord)
  pub counters : Option (ℕ × Option Text)

unfoldable pub self_node : {T : Type 0} → WireState T → Text
self_node s = elim s.node_id [ none ↦ s.device_id | some node ↦ node ]

-- the statements that the database may refuse
pub data Query : Type 0 where
  authorization latest_version_of change_rows conflict_rows resolution pairing_lookup : Query
  inventory_lookup offer_lookup pairing_table claim_row device_row token_row status_row : Query

-- the desktop's answer to an OPDS request
pub data HostAnswer : Type 0 where
  no_host : HostAnswer
  failed unreadable : HostAnswer
  answered : OpdsResponse → HostAnswer

-- What one request finds: two clocks, the time as the daemon and as SQLite write it, a fresh ULID as text and a fresh id, the refused statements,
-- the size and modification time of the files, and the desktop behind the control channel.
pub record Moment : Type 0 where
  pub now : ℕ
  pub clock : ℕ
  pub at : Text
  pub datetime : Text
  pub elapsed_ms : ℕ
  pub fresh : Text
  pub fresh_id : DbId
  pub refuses : Query → Bool
  pub metadata : Text → Option (ℕ × Option ℕ)
  pub host : HostAnswer

-- What the server calls and does not define: Unicode's lower case, serde_json on an answer, and the
-- read of an inventory row.
pub record Host (env : Env) : Type 1 where
  pub reader : Reader env
  pub to_lowercase : Text → Text
  pub to_vec : Response env.F → Option (List ℕ)
  pub inventory : DbId → env.Tables → Option InventoryPaths
