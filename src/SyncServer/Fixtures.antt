-- ===== src/SyncServer/Fixtures.antt =====
-- The data of the tests: a host, two moments, and a device that claims a pairing and is approved.
use livtet.Base.{ℕ, true, false, none, some, List, [], ◌∷◌}
use livtet.Base.Text.{codes}
use livtet.Base.Int.{pos}
use livtet.Sync.Types.{SyncChange}
use livtet.Sync.Json.{str, obj, end, field, Env}
use livtet.Sync.Full.{Reader}
use livtet.SyncServer.RateLimit.{new}
use livtet.SyncServer.Pairing.{DecidedPairing}
use livtet.SyncServer.WireState.{
  pending, mobile, PairedDevice, PendingPairing, WireState, no_host, Moment, Host,
}

abbrev pub id : List ℕ
id = 1 ∷ 2 ∷ 3 ∷ 4 ∷ 5 ∷ 6 ∷ 7 ∷ 8 ∷ 9 ∷ 10 ∷ 11 ∷ 12 ∷ 13 ∷ 14 ∷ 15 ∷ 16 ∷ []

-- every id decodes to the one above, and every payload is an offer to the device "D"
abbrev pub env : Env
env = record {
  F = ℕ;
  Tables = ℕ;
  parse_json = λ _. some (obj (field (codes "to_device_id") (str (codes "D")) end));
  print_json = λ _. [];
  parse_f64 = λ _. none;
  hex_decode = λ _. some id;
  ulid_decode = λ _. some id;
  schema = λ _. record { columns = []; primary_key = [] };
  execute = λ _ n. some (n, []);
}

abbrev pub reader : Reader env
reader = record {
  Cell = ℕ;
  select = λ _ _ _. some [];
  try_i64 = λ _. none;
  try_f64 = λ _. none;
  try_text = λ _. none;
  try_bytes = λ _. none;
  to_f64 = λ _. 0;
  from_f64 = λ _. none;
  ulid_encode = λ _. codes "D";
}

abbrev pub host : Host env
host = record {
  reader = reader;
  to_lowercase = λ t. t;
  to_vec = λ _. none;
  inventory = λ _ _. some (record { file_path = some (codes "a.pdf"); cover_path = none });
}

-- a file of ten bytes
abbrev pub moment : Moment
moment = record {
  now = 1000;
  clock = 5000;
  at = codes "now";
  datetime = codes "now";
  elapsed_ms = 1;
  fresh = codes "T";
  fresh_id = id;
  refuses = λ _. false;
  metadata = λ _. some (10, none);
  host = no_host;
}

abbrev pub later : Moment
later = record moment { now = 200000; fresh = codes "U" }

abbrev pub device : PairedDevice
device = record {
  device_id = id;
  name = none;
  listen_on = none;
  device_type_id = none;
  paired_at = 0;
  last_sync_at = none;
  outbound = true;
  session_token = some (codes "T");
  node_id = some (codes "N");
  peer_session_token = none;
}

abbrev pub offer : SyncChange
offer = record {
  id = 1;
  entity_type = codes "file_offer";
  entity_id = codes "i";
  operation = codes "OFFER";
  version = pos 1;
  payload = codes "{}";
  changed_at = codes "now";
  device_id = codes "S";
}

abbrev pub start : WireState ℕ
start = record {
  db = record {
    log = offer ∷ [];
    next_id = 2;
    conflicts = [];
    next_conflict = 1;
    sync_apply = false;
    tables = 0;
  };
  paired_devices = [];
  pending_pairings = [];
  device_id = codes "S";
  node_id = none;
  pair_waiters = [];
  pair_decisions = [];
  limiter = new 60000 10;
  offers = [];
  notifier = none;
  request_log = some [];
  counters = none;
}

abbrev pub with_session : WireState ℕ
with_session = record start { paired_devices = device ∷ [] }

abbrev pub row : PendingPairing
row = record {
  desktop_id = id;
  listen_on = none;
  status_id = some pending;
  device_name = some (codes "phone");
  device_type_id = some mobile;
  device_id = some id;
  origin_addr = none;
  created_at = 0;
  expires_at = 300000;
}

-- the node "N" waits under the claim "C"
abbrev pub with_claim : WireState ℕ
with_claim = record start {
  pending_pairings = (codes "N", row) ∷ [];
  pair_waiters = (codes "N", codes "C") ∷ [];
}

abbrev pub decision : DecidedPairing
decision = record {
  node_id = codes "N";
  approved = true;
  device_id = some (codes "D");
  session_token = codes "T";
  decided_at = 1000;
}

abbrev pub with_decision : WireState ℕ
with_decision = record start { pair_decisions = (codes "C", decision) ∷ [] }
