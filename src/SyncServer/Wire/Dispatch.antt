-- ===== src/SyncServer/Wire/Dispatch.antt =====
-- livtet-sync-server/src/wire.rs: `dispatch` and `answer`. The engine's device id is the state's.
pub mod Gate
pub mod Quiet
pub mod Answers
pub mod Visible
use livtet.Base.{
  ℕ, ◌+◌, Bool, true, false, not, ◌||◌, Option, none, some, List, [], ◌∷◌, ◌++◌, if◌then◌else◌,
  keep, length,
}
use livtet.Base.Text.{Text, codes, text_eq}
use livtet.Base.Int.{ℤ, pos}
use livtet.Base.Result.{Result, ok, err}
use livtet.Sync.Types.{SyncChange, Conflict, PullResponse, PushResponse, SyncError}
use livtet.Sync.Json.{Env}
use livtet.Sync.Store.{Db}
use livtet.Sync.Query.{pull_from, list_conflicts, resolve_id}
use livtet.Sync.Push.{push_changes}
use livtet.Sync.Full.{FullDump, get_latest_version, pull_full}
use livtet.SyncIroh.Messages
use livtet.SyncIroh.Messages.{
  Request, identity, status, changes, push, pair, pair_status, conflicts, resolve_conflict, file,
  file_info, cover, opds, offer_decision, Response, identity_of, status_of, changes_of, full,
  pushed, refused, conflicts_of, resolved, offer_decided, error, Outcome, label, bad_request,
  unauthorized, too_many_requests, internal, protocol_version,
}
use livtet.SyncServer.RateLimit.{allow_at}
use livtet.SyncServer.Requests.{RequestRecord, record_request}
use livtet.SyncServer.WireState.{
  WireState, self_node, latest_version_of, change_rows, conflict_rows, resolution, SyncCompleted,
  changes_completed, push_completed, full_completed, request_received, sync_completed_with, Moment,
  Host,
}
use livtet.SyncServer.Wire.Access.{
  Failure, Answered, answer_reply, answer_error, answer_failure, with_device, authorize,
  paired_node, change_is_for,
}
use livtet.SyncServer.Wire.Files.{serve_range, serve_info, serve_cover_of}
use livtet.SyncServer.Wire.Claims.{pair_with, status_of_claim, notify}
use livtet.SyncServer.Wire.Offers.{answer_offer, forward_opds}

unfoldable pub op_name : Request → Text
op_name identity = codes "identity"
op_name (status _) = codes "status"
op_name (changes _ _ _) = codes "changes"
op_name (Messages.pull_full _) = codes "pull_full"
op_name (push _ _) = codes "push"
op_name (pair _ _ _) = codes "pair"
op_name (pair_status _) = codes "pair_status"
op_name (conflicts _) = codes "conflicts"
op_name (resolve_conflict _ _ _ _) = codes "resolve_conflict"
op_name (file _ _ _ _ _) = codes "file"
op_name (file_info _ _) = codes "file_info"
op_name (cover _ _) = codes "cover"
op_name (opds _ _ _ _) = codes "opds"
op_name (offer_decision _ _ _) = codes "offer_decision"

unfoldable pub outcome_label : {F : Type 0} → Response F → Text
outcome_label (error code _) = codes "error:" ++ label code
outcome_label (refused _) = codes "refused"
outcome_label _ = codes "ok"

-- for the device that the request was authenticated as
completed : {F : Type 0} → Text → Response F → Option SyncCompleted
completed device (changes_of p) =
    some (changes_completed device (length p.changes) p.has_more p.latest_version)
completed device (pushed p) =
    some (push_completed device p.accepted (length p.conflicts) p.latest_version)
completed device (full d) = some (full_completed device d.version)
completed device _ = none

unfoldable pub sync_completed : {F : Type 0} → Response F → Option Text → Option SyncCompleted
unfolding completed
sync_completed r none = none
sync_completed r (some device) = completed device r

-- `limit.unwrap_or(100)`
abbrev pub limit_or : Option ℤ → ℤ
limit_or none = pos 100
limit_or (some n) = n

abbrev pub is_resolution : Text → Bool
is_resolution r =
    text_eq r (codes "local") || text_eq r (codes "remote") || text_eq r (codes "merged")

module _ {env : Env} (h : Host env) (m : Moment) where
  abbrev State : Type 0
  State = WireState env.Tables

  abbrev pub Step : Type 0
  Step = Answered env.F × State

  -- the handler's rest, where the caller was authorized
  unfoldable pub for_device : State → Result Failure Text → (Text → Step) → Step
  for_device s (err f) k = (answer_failure f, s)
  for_device s (ok device) k = k device

  status_step : State → Text → Result SyncError ℤ → Step
  status_step s device (err _) = (answer_error internal (codes "status: "), s)
  status_step s device (ok v) = (
    with_device device
        (answer_reply (status_of (record { latest_version = v; device_id = s.device_id }))),
    s,
  )

  -- Offers name their target.
  changes_step : State → ℤ → ℤ → Text → Step
  changes_step s since limit device =
      if m.refuses change_rows
      then (answer_error internal (codes "changes: "), s)
      else (let page = pull_from since limit s.db.log in
          (
            with_device device (
                answer_reply (
                  changes_of (record page {
                    changes = keep (λ (c : SyncChange). change_is_for env c device) page.changes;
                  }))),
            s,
          ))

  full_step : State → Text → Result SyncError (FullDump env.F) → Step
  full_step s device (err _) = (answer_error internal (codes "pull-full: "), s)
  full_step s device (ok dump) = (with_device device (answer_reply (full dump)), s)

  push_step : State → Text → Result SyncError (Db env.Tables × PushResponse) → Step
  push_step s device (err _) = (answer_error internal (codes "push: "), s)
  push_step s device (ok (db, r)) =
      (with_device device (answer_reply (pushed r)), record s { db = db })

  conflicts_step : State → Text → Step
  conflicts_step s device =
      if m.refuses conflict_rows
      then (answer_error internal (codes "conflicts: "), s)
      else (with_device device (answer_reply (conflicts_of (list_conflicts s.db.conflicts))), s)

  resolve_step : State → ℤ → Text → Option Text → Text → Step
  resolve_step s id r merged device =
      if is_resolution r
      then (if m.refuses resolution
          then (answer_error internal (codes "resolve: "), s)
          else (let done = resolve_id id r merged s.db.conflicts in
              (
                with_device device (answer_reply (resolved done.1)),
                record s { db = record s.db { conflicts = done.0 } },
              )))
      else (answer_error bad_request (codes "unknown resolution: " ++ r), s)

  offer_step : Text → Result Failure (Unit {0}) × State → Step
  offer_step device (err f, s) = (with_device device (answer_failure f), s)
  offer_step device (ok _, s) = (with_device device (answer_reply offer_decided), s)

  pair_step : Text → Text → Text → Text → State → Step
  pair_step remote device_id name tag s =
      let (allowed, limiter) = allow_at remote m.now s.limiter in
      let s' = record s { limiter = limiter } in
      if allowed then pair_with h m remote device_id name tag s' else (
        answer_error too_many_requests (codes "too many pairing attempts; try again in a minute"),
        s',
      )

  opds_step : State → Result Failure Bool → Step
  opds_step s (err f) = (answer_failure f, s)
  opds_step s (ok true) = (forward_opds h m, s)
  opds_step s (ok false) =
      (answer_error unauthorized (codes "this node is not paired with this device"), s)

  -- past the check of the caller's node
  unfoldable pub route : Request → Text → State → Step
  unfolding status_step changes_step full_step push_step conflicts_step resolve_step offer_step
      pair_step opds_step
  route identity remote s = (
    answer_reply (
        identity_of
          (record { protocol = protocol_version; node_id = self_node s; device_id = s.device_id })),
    s,
  )
  route (status token) remote s =
      for_device s (authorize h m s token remote)
        λ device. status_step s device (get_latest_version (m.refuses latest_version_of) s.db.log)
  route (changes token since limit) remote s =
      for_device s (authorize h m s token remote)
        λ device. changes_step s since (limit_or limit) device
  route (Messages.pull_full token) remote s = for_device s (authorize h m s token remote) λ device.
      full_step s device
        (pull_full h.reader s.device_id (m.refuses latest_version_of) s.db.log s.db.tables)
  route (push token cs) remote s =
      for_device s (authorize h m s token remote)
        λ device. push_step s device (push_changes env m.datetime cs s.db)
  route (pair device_id name tag) remote s = pair_step remote device_id name tag s
  route (pair_status claim) remote s = status_of_claim h m remote claim s
  route (conflicts token) remote s =
      for_device s (authorize h m s token remote) λ device. conflicts_step s device
  route (resolve_conflict token id r merged) remote s =
      for_device s (authorize h m s token remote) λ device. resolve_step s id r merged device
  route (file token inventory_id offset n if_range) remote s =
      for_device s (authorize h m s token remote)
        λ device. (serve_range h m device inventory_id offset n if_range s, s)
  route (file_info token inventory_id) remote s =
      for_device s (authorize h m s token remote)
        λ device. (serve_info h m device inventory_id s, s)
  route (cover token inventory_id) remote s =
      for_device s (authorize h m s token remote)
        λ device. (serve_cover_of h m device inventory_id s, s)
  route (opds method path headers body) remote s = opds_step s (paired_node h m s remote)
  route (offer_decision token offer_id accepted) remote s =
      for_device s (authorize h m s token remote)
        λ device. offer_step device (answer_offer h m offer_id device accepted s)

  unfoldable pub dispatch : Request → Text → State → Step
  dispatch request remote s =
      if text_eq remote (self_node s)
      then (answer_error bad_request (codes "a device cannot sync with itself"), s)
      else route request remote s

  count_answer : Option (ℕ × Option Text) → Option (ℕ × Option Text)
  count_answer none = none
  count_answer (some (served, _)) = some (served + 1, some m.at)

  log_answer : RequestRecord → Option (List RequestRecord) → Option (List RequestRecord)
  log_answer r none = none
  log_answer r (some queue) = some (record_request r queue)

  -- `sync.completed` follows `request.received`.
  notify_completed : Option SyncCompleted → State → State
  notify_completed none s = s
  notify_completed (some c) s = record s { notifier = notify (sync_completed_with c) s.notifier }

  report : Request → Text → Answered env.F → State → State
  unfolding count_answer log_answer notify_completed
  report request remote a s =
      let r : RequestRecord = record {
        op = op_name request;
        node_id = remote;
        device_id = a.device_id;
        outcome = outcome_label a.outcome.response;
        at = m.at;
        elapsed_ms = m.elapsed_ms;
      } in
      notify_completed (sync_completed a.outcome.response a.device_id) (record s {
        counters = count_answer s.counters;
        request_log = log_answer r s.request_log;
        notifier = notify (request_received r) s.notifier;
      })

  unfoldable pub answer : Request → Text → State → Outcome env.F × State
  unfolding report
  answer request remote s =
      let (a, s') = dispatch request remote s in (a.outcome, report request remote a s')
