-- ===== src/SyncServer/Wire/Dispatch/Answers.antt =====
-- What any request changes, with the report that follows it.
use livtet.Base.{ℕ, Option, none, some, List, refl, Bool-cases, inl, inr, arith}
use livtet.Base.Text.{Text, text_eq}
use livtet.Sync.Json.{Env}
use livtet.SyncIroh.Messages
use livtet.SyncIroh.Messages.{
  Request, identity, status, changes, push, pair, pair_status, conflicts, resolve_conflict, file,
  file_info, cover, opds, offer_decision,
}
use livtet.SyncServer.RateLimit.{ClaimRateLimiter, allow_at}
use livtet.SyncServer.Requests.{RequestRecord}
use livtet.SyncServer.Changes.{view, Keeps-refl, Change, keeps, files, settles}
use livtet.SyncServer.WireState.{WireState, SyncCompleted, Notification, self_node, Moment, Host}
use livtet.SyncServer.Wire.Access.{Answered}
use livtet.SyncServer.Wire.Claims.Filing.{pair_with-Change}
use livtet.SyncServer.Wire.Dispatch.{pair_step, route, dispatch, notify_completed, report, answer}
use livtet.SyncServer.Wire.Dispatch.Quiet.{route-Keeps}

-- The limiter is no part of a change.
limited :
    {T : Type 0} (s : WireState T) (l : ClaimRateLimiter) {t : WireState T}
    → Change (record s { limiter = l }) t
    → Change s t
unfolding view
limited s l (keeps k) = keeps k
limited s l (files node f) = files node f
limited s l (settles node f) = settles node f

-- Nor are the counters, the log and the notifications.
reported :
    {T : Type 0} {s : WireState T} (t : WireState T) (c : Option (ℕ × Option Text))
    (n : Option (List Notification)) (l : Option (List RequestRecord))
    → Change s t
    → Change s (record t { counters = c; notifier = n; request_log = l })
reported t c n l (keeps k) = keeps k
reported t c n l (files node f) = files node f
reported t c n l (settles node f) = settles node f

module _ {env : Env} (h : Host env) (m : Moment) where
  completed-Change :
      {s : WireState env.Tables} (o : Option SyncCompleted) (t : WireState env.Tables)
      → Change s t
      → Change s (notify_completed h m o t)
  unfolding notify_completed
  completed-Change none t c = c
  completed-Change (some done) t c = reported t t.counters _ t.request_log c

  report-Change :
      {s : WireState env.Tables} (request : Request) (remote : Text) (a : Answered env.F)
      (t : WireState env.Tables)
      → Change s t
      → Change s (report h m request remote a t)
  unfolding report
  report-Change request remote a t c = completed-Change _ _ (reported t _ _ _ c)

  module _ (s : WireState env.Tables) where
    pair_step-Change :
        (remote device_id name tag : Text) → Change s (pair_step h m remote device_id name tag s).1
    unfolding pair_step
    pair_step-Change remote device_id name tag =
        let r = allow_at remote m.now s.limiter in
        let s' = record s { limiter = r.1 } in
        elim (Bool-cases r.0) [
          | inl t ↦ rw t (limited s r.1 (pair_with-Change h m remote s' device_id name tag))
          | inr f ↦ rw f (keeps (refl, refl, omega arith))
        ]

    route-Change : (request : Request) (remote : Text) → Change s (route h m request remote s).1
    unfolding route
    route-Change (pair device_id name tag) remote = pair_step-Change remote device_id name tag
    route-Change identity remote = keeps (route-Keeps h m s identity remote refl)
    route-Change (status t) remote = keeps (route-Keeps h m s (status t) remote refl)
    route-Change (changes t v l) remote = keeps (route-Keeps h m s (changes t v l) remote refl)
    route-Change (Messages.pull_full t) remote =
        keeps (route-Keeps h m s (Messages.pull_full t) remote refl)
    route-Change (push t cs) remote = keeps (route-Keeps h m s (push t cs) remote refl)
    route-Change (pair_status c) remote = keeps (route-Keeps h m s (pair_status c) remote refl)
    route-Change (conflicts t) remote = keeps (route-Keeps h m s (conflicts t) remote refl)
    route-Change (resolve_conflict t i r p) remote =
        keeps (route-Keeps h m s (resolve_conflict t i r p) remote refl)
    route-Change (file t i o n r) remote = keeps (route-Keeps h m s (file t i o n r) remote refl)
    route-Change (file_info t i) remote = keeps (route-Keeps h m s (file_info t i) remote refl)
    route-Change (cover t i) remote = keeps (route-Keeps h m s (cover t i) remote refl)
    route-Change (opds a p q b) remote = keeps (route-Keeps h m s (opds a p q b) remote refl)
    route-Change (offer_decision t o b) remote =
        keeps (route-Keeps h m s (offer_decision t o b) remote refl)

    dispatch-Change :
        (request : Request) (remote : Text) → Change s (dispatch h m request remote s).1
    unfolding dispatch
    dispatch-Change request remote = elim (Bool-cases (text_eq remote (self_node s))) [
      | inl t ↦ rw t (keeps (Keeps-refl s))
      | inr f ↦ rw f (route-Change request remote)
    ]

    pub answer-Change :
        (request : Request) (remote : Text) → Change s (answer h m request remote s).1
    unfolding answer
    answer-Change request remote =
        report-Change request remote (dispatch h m request remote s).0
          (dispatch h m request remote s).1 (dispatch-Change request remote)
