-- ===== src/SyncServer/Pairs.antt =====
-- livtet-sync-server/src/pairs.rs: the reader approves or rejects a claim. A statement that the
-- database refuses leaves what the statements before it wrote.
pub mod Approval
pub mod Settling
use livtet.Base.{
  ℕ, Bool, true, false, not, ◌&&◌, Option, none, some, List, [], ◌∷◌, map, any, if◌then◌else◌, ◌==◌,
}
use livtet.Base.Text.{Text, codes, text_eq}
use livtet.Base.Assoc.{get, insert}
use livtet.Base.Result.{Result, ok, err}
use livtet.Sync.Json.{Env}
use livtet.Sync.Full.{Reader}
use livtet.SyncServer.Pairing.{PairWaiters, PairDecisions, apply_pairing_decision}
use livtet.SyncServer.WireState.{
  DbId, PairingStatus, pending, approved, rejected, PairedDevice, PendingPairing, WireState,
  pairing_table, device_row, token_row, status_row, Moment, Host,
}

-- The messages of the database are left out.
pub data ClaimError : Type 0 where
  unknown_claim : Text → ClaimError
  db_refused : ClaimError

pub record ClaimApproval : Type 0 where
  pub device_id : Text
  pub session_token : Text

pub record PendingClaim : Type 0 where
  pub node_id : Text
  pub device_id : Option Text
  pub name : Option Text

-- the columns of `update_columns` on a conflict of the device id
abbrev pub updated_device : PairedDevice → PairedDevice → PairedDevice
updated_device new old = record old {
  name = new.name;
  listen_on = new.listen_on;
  device_type_id = new.device_type_id;
  paired_at = new.paired_at;
  outbound = new.outbound;
}

-- `INSERT … ON CONFLICT (device_id) DO UPDATE`
unfoldable pub upsert_device : PairedDevice → List PairedDevice → List PairedDevice
upsert_device new [] = new ∷ []
upsert_device new (d ∷ ds) =
    let rest = upsert_device new ds in
    if text_eq d.device_id new.device_id then updated_device new d ∷ ds else d ∷ rest

-- A column with this text; `NULL` is equal to nothing.
abbrev pub holds : Text → Option Text → Bool
holds t none = false
holds t (some u) = text_eq u t

-- another device has the token, which the unique index of migration 0003 refuses
unfoldable pub token_taken : Text → DbId → List PairedDevice → Bool
token_taken token id ds =
    any (λ (d : PairedDevice). not (text_eq d.device_id id) && holds token d.session_token) ds

-- `UPDATE paired_devices SET session_token = ?, node_id = ? WHERE device_id = ?`
unfoldable pub set_token : Text → Text → DbId → List PairedDevice → List PairedDevice
set_token token node id [] = []
set_token token node id (d ∷ ds) =
    let rest = set_token token node id ds in
    if text_eq d.device_id id
    then record d { session_token = some token; node_id = some node } ∷ rest
    else d ∷ rest

-- `pending.device_id.unwrap_or_else(DbId::new)`
abbrev pub device_of : DbId → Option DbId → DbId
device_of fresh none = fresh
device_of fresh (some id) = id

abbrev pub is_pending : Option PairingStatus → Bool
is_pending (some pending) = true
is_pending _ = false

-- The row that an approval inserts; there is no address to listen on.
unfoldable pub claimed_device : ℕ → DbId → PendingPairing → PairedDevice
claimed_device now id row = record {
  device_id = id;
  name = row.device_name;
  listen_on = none;
  device_type_id = row.device_type_id;
  paired_at = now;
  last_sync_at = none;
  outbound = true;
  session_token = none;
  node_id = none;
  peer_session_token = none;
}

module _ {env : Env} (h : Host env) (m : Moment) where
  abbrev State : Type 0
  State = WireState env.Tables

  -- the answer to the waiter, and the new status of the row
  unfoldable pub settle :
      Text → PendingPairing → PairingStatus → Text → Text → Option Text → State → State
  settle node row status decision token device s =
      let answered =
        apply_pairing_decision m.now node decision token device s.pair_waiters s.pair_decisions in
      record s {
        pending_pairings = insert node (record row { status_id = some status }) s.pending_pairings;
        pair_waiters = answered.0.0;
        pair_decisions = answered.0.1;
      }

  -- the update of the pending row, and what follows it
  approve_pending : Text → PendingPairing → DbId → State → State × Result ClaimError ClaimApproval
  unfolding settle
  approve_pending node row id s =
      let device = h.reader.ulid_encode id in
      if m.refuses status_row then (s, err db_refused) else (
        settle node row approved (codes "approved") m.fresh (some device) s,
        ok (record { device_id = device; session_token = m.fresh }),
      )

  -- the write of the token, and what follows it
  approve_token : Text → PendingPairing → DbId → State → State × Result ClaimError ClaimApproval
  unfolding approve_pending
  approve_token node row id s =
      if m.refuses token_row
      then (s, err db_refused)
      else if token_taken m.fresh id s.paired_devices
      then (s, err db_refused)
      else approve_pending node row id
          (record s { paired_devices = set_token m.fresh node id s.paired_devices })

  -- the upsert of the device, and what follows it
  approve_device : Text → PendingPairing → DbId → State → State × Result ClaimError ClaimApproval
  unfolding approve_token
  approve_device node row id s =
      if m.refuses device_row
      then (s, err db_refused)
      else approve_token node row id (record s {
        paired_devices = upsert_device (claimed_device m.clock id row) s.paired_devices;
      })

  approve_row : Text → Option PendingPairing → State → State × Result ClaimError ClaimApproval
  unfolding approve_device
  approve_row node none s = (s, err (unknown_claim node))
  approve_row node (some row) s = approve_device node row (device_of m.fresh_id row.device_id) s

  unfoldable pub approve_claim : Text → State → State × Result ClaimError ClaimApproval
  unfolding approve_row
  approve_claim node s =
      if m.refuses pairing_table
      then (s, err db_refused)
      else approve_row node (get node s.pending_pairings) s

  reject_row : Text → Option PendingPairing → State → State × Result ClaimError (Unit {0})
  unfolding settle
  reject_row node none s = (s, err (unknown_claim node))
  reject_row node (some row) s = if m.refuses status_row then (s, err db_refused) else (
    settle node row rejected (codes "rejected") []
        (elim row.device_id [ none ↦ none | some id ↦ some (h.reader.ulid_encode id) ]) s,
    ok tt,
  )

  unfoldable pub reject_claim : Text → State → State × Result ClaimError (Unit {0})
  unfolding reject_row
  reject_claim node s =
      if m.refuses pairing_table
      then (s, err db_refused)
      else reject_row node (get node s.pending_pairings) s

  claims_of : List (Text × PendingPairing) → List PendingClaim
  claims_of [] = []
  claims_of ((node, row) ∷ rows) =
      let rest = claims_of rows in
      if is_pending row.status_id
      then record {
        node_id = node;
        device_id = elim row.device_id [ none ↦ none | some id ↦ some (h.reader.ulid_encode id) ];
        name = row.device_name;
      }
        ∷ rest
      else rest

  unfoldable pub pending_claims : State → Result ClaimError (List PendingClaim)
  unfolding claims_of
  pending_claims s =
      if m.refuses pairing_table then err db_refused else ok (claims_of s.pending_pairings)
