-- ===== src/SyncServer/Wire/Offers.antt =====
-- livtet-sync-server/src/wire.rs: `offer_decision`, and `opds`, which the desktop answers.
pub mod Quiet
use livtet.Base.{
  ℕ, Bool, true, false, ◌&&◌, Option, none, some, List, [], ◌∷◌, ◌++◌, if◌then◌else◌, ltb, length,
}
use livtet.Base.Text.{Text, codes, text_eq}
use livtet.Base.Result.{Result, ok, err}
use livtet.Sync.Types.{SyncChange}
use livtet.Sync.Json.{Env}
use livtet.SyncIroh.Wire.{max_message_bytes, fits_one_frame}
use livtet.SyncIroh.Messages.{
  unauthorized, not_found, internal, bad_request, OpdsResponse, Response, opds_of,
}
use livtet.SyncServer.Pairing.{OfferDecision}
use livtet.SyncServer.Pairs.{holds}
use livtet.SyncServer.WireState.{
  WireState, offer_lookup, HostAnswer, no_host, failed, unreadable, answered, Moment, Host,
}
use livtet.SyncServer.Wire.Access.{
  Failure, internal_failure, payload_text, Answered, answer_reply, answer_error,
}

-- `json_extract(payload, '$.offer_id') = ?` on the offers of the log; `LIMIT 1`
unfoldable pub find_offer : Env → Text → List SyncChange → Option SyncChange
find_offer env offer_id [] = none
find_offer env offer_id (c ∷ cs) =
    let rest = find_offer env offer_id cs in
    if text_eq c.entity_type (codes "file_offer")
      && holds offer_id (payload_text (codes "offer_id") (env.parse_json c.payload))
    then some c
    else rest

module _ {env : Env} (h : Host env) (m : Moment) where
  abbrev State : Type 0
  State = WireState env.Tables

  -- on the row of the offer
  decide_offer : Text → Text → Bool → Option SyncChange → State → Result Failure (Unit {0}) × State
  decide_offer offer_id device accepted none s =
      (err (record { code = not_found; message = codes "no such offer" }), s)
  decide_offer offer_id device accepted (some c) s =
      if holds device (payload_text (codes "to_device_id") (env.parse_json c.payload))
      then (
        ok tt,
        record s {
          offers =
              s.offers
              ++ record { offer_id = offer_id; device_id = device; accepted = accepted } ∷ [];
        },
      )
      else (
        err (record {
          code = unauthorized;
          message = codes "the offer is addressed to another device";
        }),
        s,
      )

  unfoldable pub answer_offer : Text → Text → Bool → State → Result Failure (Unit {0}) × State
  unfolding decide_offer
  answer_offer offer_id device accepted s =
      if m.refuses offer_lookup
      then (err (internal_failure (codes "offer lookup: ")), s)
      else decide_offer offer_id device accepted (find_offer env offer_id s.db.log) s

  -- the limits on an answer that is carried in one message
  carry : OpdsResponse → Answered env.F
  carry r =
      if ltb max_message_bytes (length r.body)
      then answer_error bad_request (codes "opds: the body exceeds the message limit")
      else if fits_one_frame h.to_vec (λ _. none) (opds_of r)
      then answer_reply (opds_of r)
      else answer_error bad_request (codes "opds: the answer exceeds the message limit")

  host_answer : HostAnswer → Answered env.F
  unfolding carry
  host_answer no_host = answer_error internal (codes "opds: this endpoint serves no route table")
  host_answer failed = answer_error internal (codes "opds: ")
  host_answer unreadable =
      answer_error internal (codes "opds: the desktop answered with an unreadable response: ")
  host_answer (answered r) = carry r

  unfoldable pub forward_opds : Answered env.F
  unfolding host_answer
  forward_opds = host_answer m.host
