-- ===== src/SyncServer/Wire/Access.antt =====
-- livtet-sync-server/src/wire.rs: failures and answers, `authorize`, `paired_node`, and which changes
-- a device may see.
pub mod Sessions
use livtet.Base.{
  ℕ, Bool, true, false, not, ◌&&◌, Option, none, some, List, [], ◌∷◌, ◌==◌, any, if◌then◌else◌,
  length,
}
use livtet.Base.Text.{Text, codes, text_eq, trim, is_empty}
use livtet.Base.Result.{Result, ok, err}
use livtet.Sync.Types.{SyncChange}
use livtet.Sync.Json.{Json, obj, Fields, get, as_str, Env}
use livtet.Sync.Full.{Reader}
use livtet.SyncIroh.Messages.{
  ErrorCode, unauthorized, internal, Response, error, Outcome, reply, FileHeader, serve_file,
  serve_cover,
}
use livtet.SyncServer.Pairs.{holds}
use livtet.SyncServer.WireState.{
  PairedDevice, WireState, authorization, pairing_lookup, Moment, Host,
}

pub record Failure : Type 0 where
  pub code : ErrorCode
  pub message : Text

-- The message of the database, past a prefix, is left out.
abbrev pub internal_failure : Text → Failure
internal_failure prefix = record { code = internal; message = prefix }

abbrev pub unauthorized_failure : Failure
unauthorized_failure = record {
  code = unauthorized;
  message = codes "the session token is not recognised";
}

-- One answer, with the device that it was authenticated as.
pub record Answered (F : Type 0) : Type 0 where
  pub outcome : Outcome F
  pub device_id : Option Text

module _ {F : Type 0} where
  unfoldable pub answer_reply : Response F → Answered F
  unfolding reply
  answer_reply r = record { outcome = reply r; device_id = none }

  unfoldable pub answer_error : ErrorCode → Text → Answered F
  unfolding answer_reply
  answer_error code message = answer_reply (error code message)

  unfoldable pub answer_failure : Failure → Answered F
  unfolding answer_error
  answer_failure f = answer_error f.code f.message

  unfoldable pub answer_file : FileHeader → Text → Answered F
  unfolding serve_file
  answer_file header path = record { outcome = serve_file header path; device_id = none }

  unfoldable pub answer_cover : FileHeader → Text → Answered F
  unfolding serve_cover
  answer_cover header path = record { outcome = serve_cover header path; device_id = none }

  unfoldable pub with_device : Text → Answered F → Answered F
  with_device device a = record a { device_id = some device }

-- `WHERE session_token = ? AND node_id = ?`
abbrev pub has_session : Text → Text → PairedDevice → Bool
has_session token remote d = holds token d.session_token && holds remote d.node_id

-- `LIMIT 1`
unfoldable pub find_session : Text → Text → List PairedDevice → Option PairedDevice
find_session token remote [] = none
find_session token remote (d ∷ ds) =
    let rest = find_session token remote ds in if has_session token remote d then some d else rest

-- `session_token IS NOT NULL AND session_token != ''`
abbrev pub is_given : Option Text → Bool
is_given none = false
is_given (some t) = not (is_empty t)

module _ {env : Env} (h : Host env) (m : Moment) where
  device_text : Option PairedDevice → Result Failure Text
  device_text none = err unauthorized_failure
  device_text (some d) =
      if length d.device_id == 16
      then ok (h.reader.ulid_encode d.device_id)
      else err (internal_failure (codes "device id is not 16 bytes"))

  unfoldable pub authorize : WireState env.Tables → Text → Text → Result Failure Text
  unfolding device_text
  authorize s token remote =
      if is_empty (trim token)
      then err unauthorized_failure
      else if m.refuses authorization
      then err (internal_failure (codes "authorization: "))
      else device_text (find_session (trim token) remote s.paired_devices)

  unfoldable pub paired_node : WireState env.Tables → Text → Result Failure Bool
  paired_node s remote =
      if m.refuses pairing_lookup
      then err (internal_failure (codes "pairing lookup: "))
      else ok (
          any (λ (d : PairedDevice). holds remote d.node_id && is_given d.session_token)
            s.paired_devices)

-- `payload.get(key).and_then(Value::as_str)`
unfoldable pub payload_text : {F : Type 0} → Text → Option (Json F) → Option Text
payload_text key (some (obj fields)) = elim (get key fields) [ none ↦ none | some v ↦ as_str v ]
payload_text key _ = none

-- `is_none_or`
abbrev pub is_none_or_eq : Text → Option Text → Bool
is_none_or_eq device_id none = true
is_none_or_eq device_id (some target) = text_eq target device_id

unfoldable pub change_is_for : Env → SyncChange → Text → Bool
change_is_for env change device_id =
    if text_eq change.entity_type (codes "file_offer")
    then is_none_or_eq device_id
        (payload_text (codes "to_device_id") (env.parse_json change.payload))
    else true
