-- ===== src/SyncServer/Wire/Claims.antt =====
-- livtet-sync-server/src/wire.rs: `pair` and `pair_status`, and `DeviceType::from_tag` of
-- livtet-types/src/device_type.rs.
pub mod Approval
pub mod Filing
pub mod Polling
use livtet.Base.{
  ℕ, ◌+◌, Bool, true, false, not, ◌||◌, Option, none, some, List, [], ◌∷◌, ◌++◌, map, any,
  if◌then◌else◌,
}
use livtet.Base.Text.{Text, codes, text_eq}
use livtet.Base.Assoc.{get, insert}
use livtet.Sync.Json.{Env}
use livtet.Sync.Apply.{from_hex, or_else}
use livtet.SyncIroh.Messages.{bad_request, internal, not_found, pairing_pending, refused}
use livtet.SyncServer.Pairing.{DecidedPairing, response, decided}
use livtet.SyncServer.Pairs.{is_pending}
use livtet.SyncServer.WireState.{
  DbId, pending, DeviceType, desktop, mobile, web, ereader, PendingPairing, Notification,
  pairing_requested, WireState, pairing_table, claim_row, Moment, Host,
}
use livtet.SyncServer.Wire.Access.{Answered, answer_reply, answer_error}

-- one of the texts
abbrev one_of : Text → List Text → Bool
one_of t = any (text_eq t)

-- of a tag in lower case
device_type : Text → DeviceType
device_type t =
    if one_of t (codes "desktop" ∷ codes "windows" ∷ codes "macos" ∷ codes "linux" ∷ [])
    then desktop
    else if one_of t
        (codes "mobile" ∷ codes "android" ∷ codes "ios" ∷ codes "iphone" ∷ codes "ipad" ∷ [])
    then mobile
    else if one_of t (codes "web" ∷ codes "browser" ∷ [])
    then web
    else if one_of t
        (codes "ereader" ∷ codes "e-reader" ∷ codes "koreader" ∷ codes "kobo" ∷ codes "kindle" ∷ [])
    then ereader
    else mobile

-- `notify`, if there is a parent process
abbrev pub notify : Notification → Option (List Notification) → Option (List Notification)
notify n none = none
notify n (some sent) = some (sent ++ n ∷ [])

-- how long a claim is shown to the reader
abbrev claim_window : ℕ
claim_window = 300000

-- a row that was decided
abbrev pub is_decided : Option PendingPairing → Bool
is_decided none = false
is_decided (some row) = not (is_pending row.status_id)

-- `decided.response()`, or no such claim
status_answer : {F : Type 0} → Option DecidedPairing → Answered F
status_answer none = answer_error not_found (codes "no pairing claim with that id")
status_answer (some d) = answer_reply (response d)

-- the node waits under this claim
abbrev pub is_waiting : Text → Option Text → Bool
is_waiting claim none = false
is_waiting claim (some c) = text_eq c claim

module _ {env : Env} (h : Host env) (m : Moment) where
  abbrev State : Type 0
  State = WireState env.Tables

  unfoldable pub from_tag : Text → DeviceType
  unfolding device_type
  from_tag tag = device_type (h.to_lowercase tag)

  -- the row, the waiter and the notification of a new claim
  unfoldable pub file_claim : Text → DbId → DbId → Text → Text → Text → State → State
  unfolding from_tag
  file_claim remote peer desktop_id device_id name tag s = record s {
    pending_pairings =
        insert remote
          (record {
            desktop_id = desktop_id;
            listen_on = none;
            status_id = some pending;
            device_name = some name;
            device_type_id = some (from_tag tag);
            device_id = some peer;
            origin_addr = none;
            created_at = m.clock;
            expires_at = m.clock + claim_window;
          })
          s.pending_pairings;
    pair_waiters = insert remote m.fresh s.pair_waiters;
    notifier = notify (pairing_requested remote device_id name) s.notifier;
  }

  -- past the checks of the two ids
  pair_known : Text → DbId → DbId → Text → Text → Text → State → Answered env.F × State
  pair_known remote peer desktop_id device_id name tag s =
      if m.refuses pairing_table
      then (answer_error internal (codes "pairing table: "), s)
      else if is_decided (get remote s.pending_pairings)
      then (answer_reply (refused (codes "this pairing was already decided")), s)
      else if m.refuses claim_row
      then (answer_error internal (codes "could not record the claim: "), s)
      else (
        answer_reply (pairing_pending m.fresh),
        file_claim remote peer desktop_id device_id name tag s,
      )

  pair_here : Text → DbId → Option DbId → Text → Text → Text → State → Answered env.F × State
  unfolding pair_known
  pair_here remote peer none device_id name tag s =
      (answer_error internal (codes "this device has no valid id"), s)
  pair_here remote peer (some desktop_id) device_id name tag s =
      pair_known remote peer desktop_id device_id name tag s

  pair_peer : Text → Option DbId → Text → Text → Text → State → Answered env.F × State
  unfolding pair_here
  pair_peer remote none device_id name tag s =
      (answer_error bad_request (codes "not a device id: " ++ device_id), s)
  pair_peer remote (some peer) device_id name tag s =
      pair_here remote peer (env.ulid_decode s.device_id) device_id name tag s

  unfoldable pub pair_with : Text → Text → Text → Text → State → Answered env.F × State
  unfolding pair_peer
  pair_with remote device_id name tag s =
      pair_peer remote (or_else (env.ulid_decode device_id) (from_hex env device_id)) device_id name
        tag s

  unfoldable pub status_of_claim : Text → Text → State → Answered env.F × State
  unfolding status_answer
  status_of_claim remote claim s =
      if is_waiting claim (get remote s.pair_waiters)
      then (answer_reply (pairing_pending claim), s)
      else (let r = decided m.now claim remote s.pair_decisions in
          (status_answer r.1, record s { pair_decisions = r.0 }))
