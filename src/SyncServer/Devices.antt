-- ===== src/SyncServer/Devices.antt =====
-- livtet-sync-server/src/daemon.rs: the paired devices and the pending claims outside a request: what
-- the daemon tidies up as it starts, which devices it pulls from, and `handle_devices_revoke`.
pub mod Revocation
use livtet.Base.{
  ℕ, ◌-◌, Bool, true, false, not, ◌&&◌, Option, none, some, List, [], ◌∷◌, ◌++◌, map, keep, length,
  ltb, if◌then◌else◌,
}
use livtet.Base.Text.{Text, codes, text_eq}
use livtet.Base.Result.{Result, ok, err}
use livtet.Sync.Json.{Env}
use livtet.Sync.Apply.{from_hex}
use livtet.SyncServer.WireState.{DbId, PairedDevice, PendingPairing, WireState}
use livtet.SyncServer.Wire.Access.{is_given}
use livtet.SyncServer.Pull.{ServerError, db}
use livtet.SyncServer.Decide.{RpcFailure, invalid_params, internal}

-- the `WHERE` of the promotion
abbrev pub is_mutual : PairedDevice → Bool
is_mutual d = not d.outbound && is_given d.session_token && is_given d.node_id

unfoldable pub promoted : PairedDevice → PairedDevice
promoted d = if is_mutual d then record d { outbound = true } else d

unfoldable pub promote_mutual_pairings :
    {T : Type 0} → Bool → WireState T → WireState T × Result ServerError (Unit {0})
unfolding promoted
promote_mutual_pairings true s = (s, err (db (codes "promoting mutual pairings: ")))
promote_mutual_pairings false s =
    (record s { paired_devices = map promoted s.paired_devices }, ok tt)

unfoldable pub cleanup_old_pairings :
    {T : Type 0} → Bool → ℕ → WireState T → WireState T × Result ServerError (Unit {0})
cleanup_old_pairings true now s = (s, err (db (codes "cleanup failed: ")))
cleanup_old_pairings false now s = (
  record s {
    pending_pairings =
        keep (λ (p : Text × PendingPairing). not (ltb p.1.expires_at now)) s.pending_pairings;
  },
  ok tt,
)

-- no devices where the query is refused
unfoldable pub outbound_device_ids : {T : Type 0} → Bool → WireState T → List DbId
outbound_device_ids true s = []
outbound_device_ids false s =
    map (λ (d : PairedDevice). d.device_id)
      (keep (λ (d : PairedDevice). d.outbound) s.paired_devices)

-- `delete_by_id`
unfoldable pub without_device : DbId → List PairedDevice → List PairedDevice
without_device id ds = keep (λ (d : PairedDevice). not (text_eq d.device_id id)) ds

-- `str::parse::<DbId>`, or the hex form
unfoldable pub device_param : Env → Text → Option DbId
device_param env t = elim (env.ulid_decode t) [ none ↦ from_hex env t | some id ↦ some id ]

module _ (env : Env) (refused : Bool) where
  -- the deletion, and how many rows it took
  unfoldable pub revoke :
      Text → Option DbId → WireState env.Tables → WireState env.Tables × Result RpcFailure ℕ
  unfolding without_device
  revoke t none s = (s, err (invalid_params (codes "invalid device id: " ++ t)))
  revoke t (some id) s = if refused then (s, err (internal [])) else (
    record s { paired_devices = without_device id s.paired_devices },
    ok (length s.paired_devices - length (without_device id s.paired_devices)),
  )

  unfoldable pub handle_devices_revoke :
      Text → WireState env.Tables → WireState env.Tables × Result RpcFailure ℕ
  unfolding device_param
  handle_devices_revoke t s = revoke t (device_param env t) s
