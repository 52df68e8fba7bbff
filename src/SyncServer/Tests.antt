-- ===== src/SyncServer/Tests.antt =====
-- The server at concrete inputs: a device that claims a pairing, is approved, and asks for changes
-- and for a file.
use mathlib.Core.Path.{subst}
use livtet.Base.{false, Option, none, some, [], ◌∷◌, ◌≡◌, refl, length, arith, take, reverse}
use livtet.Base.Sort.{sort_by}
use livtet.Base.Text.{
  Text, codes, strip_prefix, to_ascii_lowercase, text_eq, trim, trim_start, is_whitespace,
}
use livtet.Base.Int.{pos}
use livtet.Base.Assoc.{get, retain}
use livtet.Base.Result.{ok}
use livtet.Sync.Types.{PullResponse}
use livtet.Sync.Json.{Json, str, obj, end, field, Env}
use livtet.Sync.Json
use livtet.Sync.Apply.{from_hex}
use livtet.Sync.Query.{pull_from, pull_changes}
use livtet.SyncIroh.Messages.{
  Request, status, changes, pair, FileHeader, paired, changes_of, file_of, reply, serve_file,
}
use livtet.SyncServer.Requests.{RequestRecord, recent}
use livtet.SyncServer.Requests.History.{record_all, recent-record_all}
use livtet.SyncServer.Pairing.{response, prune, of_node, decided}
use livtet.SyncServer.Pairs.{
  upsert_device, set_token, token_taken, claimed_device, settle, approve_claim,
}
use livtet.SyncServer.Pairs.Approval.{id_for}
use livtet.SyncServer.WireState.{PendingPairing, self_node}
use livtet.SyncServer.Changes.{view}
use livtet.SyncServer.Changes.Laws.{IsSound}
use livtet.SyncServer.Lifecycle.{Moves, here, next, served, approved, Reach-Moves, Reach-IsSound}
use livtet.SyncServer.Wire.Access.{
  find_session, authorize, answer_reply, answer_file, with_device, payload_text, change_is_for,
}
use livtet.SyncServer.Wire.Files.{
  serve_range, file_metadata, range_of, content_type_for, inventory_paths, file_range, lower_hex,
}
use livtet.SyncServer.Wire.Files.Ranges.{IsRange, serve_range-IsRange}
use livtet.SyncServer.Wire.Claims.{status_of_claim}
use livtet.SyncServer.Wire.Claims.Approval.{approve_claim-authorize}
use livtet.SyncServer.Wire.Claims.Polling.{Approves, status_of_claim-Approves}
use livtet.SyncServer.Wire.Dispatch.{for_device, route, dispatch, answer}
use livtet.SyncServer.Wire.Dispatch.Gate.{token_of, Gated, dispatch-Gated}
use livtet.SyncServer.Wire.Dispatch.Visible.{Sent, dispatch-Sent}
use livtet.SyncServer.Devices.{without_device, device_param, revoke, handle_devices_revoke}
use livtet.SyncServer.Devices.Revocation.{Revokes, handle_devices_revoke-Revokes}
use livtet.SyncServer.Fixtures.{
  env, host, moment, later, offer, start, with_session, with_claim, with_decision,
}

handle_devices_revoke-Revokes_example :
    Revokes env (codes "D") with_session (handle_devices_revoke env false (codes "D") with_session)
handle_devices_revoke-Revokes_example =
    handle_devices_revoke-Revokes env false (codes "D") with_session

revoked_device : (handle_devices_revoke env false (codes "D") with_session).1 ≡ ok 1
unfolding handle_devices_revoke revoke without_device device_param text_eq
revoked_device = refl

dispatch-Gated_example :
    Gated host moment with_session
      (codes "T")
      (codes "N")
      (dispatch host moment (status (codes "T")) (codes "N") with_session)
unfolding token_of
dispatch-Gated_example =
    dispatch-Gated host moment with_session (status (codes "T")) (codes "N") refl

abbrev header : FileHeader
header = record {
  content_type = codes "application/pdf";
  offset = 4;
  length = 6;
  total = 10;
  etag = codes "a";
}

ranged :
    (serve_range host moment
      (codes "D")
      (codes "i")
      4
      (some 9)
      (some (codes "a"))
      start).outcome.response
    ≡ file_of header
unfolding serve_range file_metadata range_of content_type_for inventory_paths file_range answer_file
    with_device serve_file from_hex text_eq lower_hex strip_prefix to_ascii_lowercase
ranged = refl

serve_range-IsRange_example :
    IsRange moment 4
      (some 9)
      (some (codes "a"))
      header
      (serve_range host moment
        (codes "D")
        (codes "i")
        4
        (some 9)
        (some (codes "a"))
        start).outcome.body
serve_range-IsRange_example =
    serve_range-IsRange host moment (codes "D") (codes "i") 4 (some 9) (some (codes "a")) start
      header ranged

approval :
    (approve_claim host moment (codes "N") with_claim).1
    ≡ ok (record { device_id = codes "D"; session_token = codes "T" })
unfolding approve_claim upsert_device set_token token_taken claimed_device settle get text_eq
approval = refl

sixteen :
    (r : PendingPairing)
    → get (codes "N") with_claim.pending_pairings ≡ some r
    → length (id_for host moment (codes "N") with_claim r) ≡ 16
unfolding get text_eq
sixteen r e =
    subst (λ (x : PendingPairing). length (id_for host moment (codes "N") with_claim x) ≡ 16)
      (same e) refl
  where
    same : {a b : PendingPairing} → ◌≡◌ {A = Option PendingPairing} (some a) (some b) → a ≡ b
    same p = cc

waits : get (codes "N") with_claim.pair_waiters ≡ some (codes "C")
unfolding get text_eq
waits = refl

trimmed : trim (codes "T") ≡ codes "T"
unfolding trim trim_start is_whitespace
trimmed = refl

approve_claim-authorize_example :
    let polled =
      status_of_claim host later
        (codes "N")
        (codes "C")
        (approve_claim host moment (codes "N") with_claim).0 in
    (polled.0.outcome.response ≡ paired (codes "D") (codes "T"))
    × (authorize host later polled.1 (codes "T") (codes "N") ≡ ok (codes "D"))
approve_claim-authorize_example =
    approve_claim-authorize host moment later (codes "N") (codes "C") with_claim approval waits
      (omega arith) refl trimmed refl sixteen

told :
    (status_of_claim host later (codes "N") (codes "C") with_decision).0.outcome.response
    ≡ paired (codes "D") (codes "T")
unfolding status_of_claim decided prune of_node response retain get text_eq answer_reply reply
told = refl

status_of_claim-Approves_example :
    Approves 200000 (codes "N") (codes "C") with_decision.pair_decisions (codes "T")
status_of_claim-Approves_example =
    status_of_claim-Approves host later (codes "N") (codes "C") with_decision told

abbrev page : PullResponse
page = record { changes = offer ∷ []; has_more = false; latest_version = pos 1 }

sent :
    (dispatch host moment
      (changes (codes "T") (pos 0) none)
      (codes "N")
      with_session).0.outcome.response
    ≡ changes_of page
unfolding dispatch route for_device authorize find_session self_node pull_from pull_changes
    change_is_for payload_text Json.get trim trim_start is_whitespace text_eq with_device
    answer_reply reply sort_by
sent = refl

dispatch-Sent_example :
    Sent host moment with_session
      (pos 0)
      none
      page
      (dispatch host moment (changes (codes "T") (pos 0) none) (codes "N") with_session)
dispatch-Sent_example =
    dispatch-Sent host moment with_session (pos 0) none (codes "T") (codes "N") page sent

-- a claim of the node "N"
abbrev claim_of : Request
claim_of = pair (codes "D") (codes "phone") (codes "mobile")

Reach-Moves_example : Moves (view (codes "N") start) (
    view
      (codes "N")
      (approve_claim host later (codes "N") (answer host moment claim_of (codes "N") start).1).0)
Reach-Moves_example =
    Reach-Moves host
      (next (next here (served moment claim_of (codes "N") refl)) (approved later (codes "N") refl))
      (codes "N")

Reach-IsSound_example : IsSound (answer host moment claim_of (codes "N") start).1
Reach-IsSound_example =
    Reach-IsSound host {s = start} refl refl (next here (served moment claim_of (codes "N") refl))

abbrev request : Text → RequestRecord
request op = record {
  op = op;
  node_id = codes "N";
  device_id = none;
  outcome = codes "ok";
  at = codes "now";
  elapsed_ms = 1;
}

recent-record_all_example :
    recent 1 (record_all (request (codes "status") ∷ request (codes "push") ∷ []) [])
    ≡ take 1 (take 200 (reverse (request (codes "status") ∷ request (codes "push") ∷ [])))
recent-record_all_example =
    recent-record_all 1 (request (codes "status") ∷ request (codes "push") ∷ [])
