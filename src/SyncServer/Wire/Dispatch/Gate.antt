-- ===== src/SyncServer/Wire/Dispatch/Gate.antt =====
-- Who is served: a request with a token changes or reads nothing unless the token belongs to the
-- node that sends it.
use mathlib.Core.Path.{subst}
use livtet.Base.{true, Option, none, some, ◌≡◌, refl, ◌⊎◌, inl, inr, Bool-cases}
use livtet.Base.Text.{Text, text_eq}
use livtet.Base.Int.{ℤ}
use livtet.Base.Result.{Result, ok, err}
use livtet.Sync.Types.{PushResponse, SyncError}
use livtet.Sync.Json.{Env}
use livtet.Sync.Store.{Db}
use livtet.Sync.Push.{push_changes}
use livtet.Sync.Full.{FullDump, get_latest_version, pull_full}
use livtet.SyncIroh.Messages
use livtet.SyncIroh.Messages.{
  Request, identity, status, changes, push, pair, pair_status, conflicts, resolve_conflict, file,
  file_info, cover, opds, offer_decision,
}
use livtet.SyncServer.WireState.{
  WireState, self_node, latest_version_of, change_rows, conflict_rows, resolution, Moment, Host,
}
use livtet.SyncServer.Wire.Access.{
  Failure, answer_reply, answer_error, answer_failure, with_device, authorize,
}
use livtet.SyncServer.Wire.Access.Sessions.{is_error, Served, Session, authorize_lem}
use livtet.SyncServer.Wire.Files.Served.{
  serve_range-Served, serve_info-Served, serve_cover_of-Served,
}
use livtet.SyncServer.Wire.Offers.{answer_offer}
use livtet.SyncServer.Wire.Dispatch.{
  Step, limit_or, for_device, status_step, changes_step, full_step, push_step, conflicts_step,
  resolve_step, offer_step, is_resolution, route, dispatch,
}

-- the token of a request that carries one
unfoldable pub token_of : Request → Option Text
token_of (status token) = some token
token_of (changes token _ _) = some token
token_of (Messages.pull_full token) = some token
token_of (push token _) = some token
token_of (conflicts token) = some token
token_of (resolve_conflict token _ _ _) = some token
token_of (file token _ _ _ _) = some token
token_of (file_info token _) = some token
token_of (cover token _) = some token
token_of (offer_decision token _ _) = some token
token_of identity = none
token_of (pair _ _ _) = none
token_of (pair_status _) = none
token_of (opds _ _ _ _) = none

module _ {env : Env} (h : Host env) (m : Moment) (s : WireState env.Tables) where
  -- An error and the state as it was; or the session of a device of the node, whom the answer, if
  -- it is no error, names.
  abbrev pub Gated : Text → Text → Step h m → Type 0
  Gated token remote r =
      (is_error r.0.outcome.response ≡ true) × (r.1 ≡ s)
      ⊎ ((device : Text) × Session h m s token remote device × Served device r.0)

  gate :
      (token remote : Text) (k : Text → Step h m) (r : Result Failure Text)
      → authorize h m s token remote ≡ r
      → ((device : Text) → Served device (k device).0)
      → Gated token remote (for_device h m s r k)
  unfolding for_device answer_failure answer_error answer_reply
  gate token remote k (err f) e served = inl (refl, refl)
  gate token remote k (ok device) e served =
      inr (device, authorize_lem h m s token remote e, served device)

  status-Served :
      (device : Text) (r : Result SyncError ℤ) → Served device (status_step h m s device r).0
  unfolding status_step answer_error with_device
  status-Served device (err _) = inl refl
  status-Served device (ok v) = inr refl

  changes-Served :
      (since limit : ℤ) (device : Text) → Served device (changes_step h m s since limit device).0
  unfolding changes_step answer_error with_device
  changes-Served since limit device = elim (Bool-cases (m.refuses change_rows)) [
    | inl t ↦ rw t (inl refl)
    | inr f ↦ rw f (inr refl)
  ]

  full-Served :
      (device : Text) (r : Result SyncError (FullDump env.F))
      → Served device (full_step h m s device r).0
  unfolding full_step answer_error with_device
  full-Served device (err _) = inl refl
  full-Served device (ok dump) = inr refl

  push-Served :
      (device : Text) (r : Result SyncError (Db env.Tables × PushResponse))
      → Served device (push_step h m s device r).0
  unfolding push_step answer_error with_device
  push-Served device (err _) = inl refl
  push-Served device (ok (db, p)) = inr refl

  conflicts-Served : (device : Text) → Served device (conflicts_step h m s device).0
  unfolding conflicts_step answer_error with_device
  conflicts-Served device = elim (Bool-cases (m.refuses conflict_rows)) [
    | inl t ↦ rw t (inl refl)
    | inr f ↦ rw f (inr refl)
  ]

  resolve-Served :
      (id : ℤ) (r : Text) (merged : Option Text) (device : Text)
      → Served device (resolve_step h m s id r merged device).0
  unfolding resolve_step answer_error with_device
  resolve-Served id r merged device = elim (Bool-cases (is_resolution r)) [
    | inl t ↦ elim (Bool-cases (m.refuses resolution)) [
      | inl u ↦ rw (t, u) (inl refl)
      | inr f ↦ rw (t, f) (inr refl)
    ]
    | inr f ↦ rw f (inl refl)
  ]

  offer-Served :
      (device : Text) (r : Result Failure (Unit {0}) × WireState env.Tables)
      → Served device (offer_step h m device r).0
  unfolding offer_step with_device
  offer-Served device (err f, s') = inr refl
  offer-Served device (ok _, s') = inr refl

  same_token : {t token : Text} → ◌≡◌ {A = Option Text} (some t) (some token) → t ≡ token
  same_token e = cc

  -- at the token that the request carries
  gate_as :
      {t token : Text} (remote : Text) (k : Text → Step h m)
      → ◌≡◌ {A = Option Text} (some t) (some token)
      → ((device : Text) → Served device (k device).0)
      → Gated token remote (for_device h m s (authorize h m s t remote) k)
  gate_as {t} {token} remote k e served =
      subst (λ (u : Text). Gated u remote (for_device h m s (authorize h m s t remote) k))
        (same_token e) (gate t remote k (authorize h m s t remote) refl served)

  route-Gated :
      (request : Request) (remote : Text) {token : Text}
      → token_of request ≡ some token
      → Gated token remote (route h m request remote s)
  unfolding token_of route
  route-Gated identity remote e = cc
  route-Gated (pair _ _ _) remote e = cc
  route-Gated (pair_status _) remote e = cc
  route-Gated (opds _ _ _ _) remote e = cc
  route-Gated (status t) remote e =
      gate_as remote _ e
        λ device. status-Served device (get_latest_version (m.refuses latest_version_of) s.db.log)
  route-Gated (changes t since limit) remote e =
      gate_as remote _ e (changes-Served since (limit_or limit))
  route-Gated (Messages.pull_full t) remote e = gate_as remote _ e λ device.
      full-Served device
        (pull_full h.reader s.device_id (m.refuses latest_version_of) s.db.log s.db.tables)
  route-Gated (push t cs) remote e =
      gate_as remote _ e λ device. push-Served device (push_changes env m.datetime cs s.db)
  route-Gated (conflicts t) remote e = gate_as remote _ e conflicts-Served
  route-Gated (resolve_conflict t id r merged) remote e =
      gate_as remote _ e (resolve-Served id r merged)
  route-Gated (file t id offset n if_range) remote e =
      gate_as remote _ e λ device. serve_range-Served h m device id offset n if_range s
  route-Gated (file_info t id) remote e =
      gate_as remote _ e λ device. serve_info-Served h m device id s
  route-Gated (cover t id) remote e =
      gate_as remote _ e λ device. serve_cover_of-Served h m device id s
  route-Gated (offer_decision t id accepted) remote e =
      gate_as remote _ e λ device. offer-Served device (answer_offer h m id device accepted s)

  -- A request that carries a token is answered with an error and changes nothing, unless a paired
  -- device has both that token, which is not blank, and the node id of the connection; an answer
  -- other than an error then names that device.
  pub dispatch-Gated :
      (request : Request) (remote : Text) {token : Text}
      → token_of request ≡ some token
      → Gated token remote (dispatch h m request remote s)
  unfolding dispatch answer_error answer_reply
  dispatch-Gated request remote e = elim (Bool-cases (text_eq remote (self_node s))) [
    | inl t ↦ rw t (inl (refl, refl))
    | inr f ↦ rw f (route-Gated request remote e)
  ]
