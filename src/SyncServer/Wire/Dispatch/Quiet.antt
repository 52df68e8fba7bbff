-- ===== src/SyncServer/Wire/Dispatch/Quiet.antt =====
-- Which requests leave the claims alone: all but `pair`.
use livtet.Base.{Bool, true, false, Option, ◌≡◌, refl, inl, inr, Bool-cases, arith}
use livtet.Base.Text.{Text}
use livtet.Base.Int.{ℤ}
use livtet.Base.Assoc.{get, length-retain}
use livtet.Base.Result.{Result, ok, err}
use livtet.Sync.Types.{PushResponse, SyncError}
use livtet.Sync.Json.{Env}
use livtet.Sync.Store.{Db}
use livtet.Sync.Push.{push_changes}
use livtet.Sync.Full.{FullDump, get_latest_version, pull_full}
use livtet.SyncIroh.Messages
use livtet.SyncIroh.Messages.{
  Request, identity, status, changes, push, pair, pair_status, conflicts, resolve_conflict, file,
  file_info, cover, opds, offer_decision,
}
use livtet.SyncServer.Pairing.{is_fresh, prune, decided}
use livtet.SyncServer.WireState.{
  WireState, latest_version_of, change_rows, conflict_rows, resolution, Moment, Host,
}
use livtet.SyncServer.Wire.Access.{Failure, authorize, paired_node}
use livtet.SyncServer.Wire.Claims.{is_waiting, status_of_claim}
use livtet.SyncServer.Wire.Offers.{answer_offer}
use livtet.SyncServer.Changes.{Keeps, Keeps-refl}
use livtet.SyncServer.Wire.Offers.Quiet.{answer_offer-Keeps}
use livtet.SyncServer.Wire.Dispatch.{
  Step, limit_or, for_device, status_step, changes_step, full_step, push_step, conflicts_step,
  resolve_step, offer_step, opds_step, is_resolution, route,
}

-- a request other than `pair`
abbrev pub is_pair : Request → Bool
is_pair (pair _ _ _) = true
is_pair _ = false

module _ {env : Env} (h : Host env) (m : Moment) (s : WireState env.Tables) where
  for_device-Keeps :
      (r : Result Failure Text) (k : Text → Step h m)
      → ((device : Text) → Keeps s (k device).1)
      → Keeps s (for_device h m s r k).1
  unfolding for_device
  for_device-Keeps (err f) k keeps = Keeps-refl s
  for_device-Keeps (ok device) k keeps = keeps device

  status-Keeps : (device : Text) (r : Result SyncError ℤ) → Keeps s (status_step h m s device r).1
  unfolding status_step
  status-Keeps device (err _) = Keeps-refl s
  status-Keeps device (ok v) = Keeps-refl s

  changes-Keeps :
      (since limit : ℤ) (device : Text) → Keeps s (changes_step h m s since limit device).1
  unfolding changes_step
  changes-Keeps since limit device = elim (Bool-cases (m.refuses change_rows)) [
    | inl t ↦ rw t (Keeps-refl s)
    | inr f ↦ rw f (Keeps-refl s)
  ]

  full-Keeps :
      (device : Text) (r : Result SyncError (FullDump env.F)) → Keeps s (full_step h m s device r).1
  unfolding full_step
  full-Keeps device (err _) = Keeps-refl s
  full-Keeps device (ok dump) = Keeps-refl s

  push-Keeps :
      (device : Text) (r : Result SyncError (Db env.Tables × PushResponse))
      → Keeps s (push_step h m s device r).1
  unfolding push_step
  push-Keeps device (err _) = Keeps-refl s
  push-Keeps device (ok (db, p)) = (refl, refl, omega arith)

  conflicts-Keeps : (device : Text) → Keeps s (conflicts_step h m s device).1
  unfolding conflicts_step
  conflicts-Keeps device = elim (Bool-cases (m.refuses conflict_rows)) [
    | inl t ↦ rw t (Keeps-refl s)
    | inr f ↦ rw f (Keeps-refl s)
  ]

  resolve-Keeps :
      (id : ℤ) (r : Text) (merged : Option Text) (device : Text)
      → Keeps s (resolve_step h m s id r merged device).1
  unfolding resolve_step
  resolve-Keeps id r merged device = elim (Bool-cases (is_resolution r)) [
    | inl t ↦ elim (Bool-cases (m.refuses resolution)) [
      | inl u ↦ rw (t, u) (Keeps-refl s)
      | inr f ↦ rw (t, f) (refl, refl, omega arith)
    ]
    | inr f ↦ rw f (Keeps-refl s)
  ]

  offer-Keeps :
      (device : Text) (r : Result Failure (Unit {0}) × WireState env.Tables)
      → Keeps s r.1
      → Keeps s (offer_step h m device r).1
  unfolding offer_step
  offer-Keeps device (err f, s') keeps = keeps
  offer-Keeps device (ok _, s') keeps = keeps

  opds-Keeps : (r : Result Failure Bool) → Keeps s (opds_step h m s r).1
  unfolding opds_step
  opds-Keeps (err f) = Keeps-refl s
  opds-Keeps (ok true) = Keeps-refl s
  opds-Keeps (ok false) = Keeps-refl s

  status_of_claim-Keeps : (remote claim : Text) → Keeps s (status_of_claim h m remote claim s).1
  unfolding status_of_claim decided prune
  status_of_claim-Keeps remote claim =
      elim (Bool-cases (is_waiting claim (get remote s.pair_waiters))) [
        | inl t ↦ rw t (Keeps-refl s)
        | inr f ↦ rw f (refl, refl, length-retain {0} (is_fresh m.now) s.pair_decisions)
      ]

  pub route-Keeps :
      (request : Request) (remote : Text)
      → is_pair request ≡ false
      → Keeps s (route h m request remote s).1
  unfolding route
  route-Keeps identity remote e = Keeps-refl s
  route-Keeps (pair _ _ _) remote e = cc
  route-Keeps (pair_status claim) remote e = status_of_claim-Keeps remote claim
  route-Keeps (opds _ _ _ _) remote e = opds-Keeps (paired_node h m s remote)
  route-Keeps (status t) remote e =
      for_device-Keeps (authorize h m s t remote) _
        λ device. status-Keeps device (get_latest_version (m.refuses latest_version_of) s.db.log)
  route-Keeps (changes t since limit) remote e =
      for_device-Keeps (authorize h m s t remote) _ (changes-Keeps since (limit_or limit))
  route-Keeps (Messages.pull_full t) remote e =
      for_device-Keeps (authorize h m s t remote) _ λ device.
        full-Keeps device
          (pull_full h.reader s.device_id (m.refuses latest_version_of) s.db.log s.db.tables)
  route-Keeps (push t cs) remote e =
      for_device-Keeps (authorize h m s t remote) _
        λ device. push-Keeps device (push_changes env m.datetime cs s.db)
  route-Keeps (conflicts t) remote e = for_device-Keeps (authorize h m s t remote) _ conflicts-Keeps
  route-Keeps (resolve_conflict t id r merged) remote e =
      for_device-Keeps (authorize h m s t remote) _ (resolve-Keeps id r merged)
  route-Keeps (file t id offset n if_range) remote e =
      for_device-Keeps (authorize h m s t remote) _ λ device. Keeps-refl s
  route-Keeps (file_info t id) remote e =
      for_device-Keeps (authorize h m s t remote) _ λ device. Keeps-refl s
  route-Keeps (cover t id) remote e =
      for_device-Keeps (authorize h m s t remote) _ λ device. Keeps-refl s
  route-Keeps (offer_decision t id accepted) remote e =
      for_device-Keeps (authorize h m s t remote) _ λ device.
        offer-Keeps device (answer_offer h m id device accepted s)
          (answer_offer-Keeps h m id device accepted s)
