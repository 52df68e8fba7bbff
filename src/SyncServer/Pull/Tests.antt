-- ===== src/SyncServer/Pull/Tests.antt =====
-- A pull pass at concrete inputs: a peer whose log holds one offer to this device and a change.
use livtet.Base.{none, ℕ, false, some, List, [], ◌∷◌, ◌≡◌, refl, arith}
use livtet.Base.Sort.{sort_by, insert_sorted}
use livtet.Base.Text.{codes, text_eq, trim, trim_start}
use livtet.Base.Int.{pos}
use livtet.Base.Assoc.{get, insert}
use livtet.Base.Result.{ok}
use livtet.Sync.Types.{SyncChange, PullResponse}
use livtet.Sync.Json.{str, obj, end, field, Env}
use livtet.Sync.Json
use livtet.SyncServer.Wire.Access.{payload_text}
use livtet.SyncServer.Fixtures.{device, offer, start, id, env}
use livtet.SyncServer.Pull.{
  InboundOffer, PullState, offer_of, record_inbound_offer, record_offers, write_offer, write_cursor,
  apply_metadata, pull_page, held_ids, offer_row_ids, is_mine, payload_value, flag_of,
}
use livtet.SyncServer.Pull.Answers.{Ends, Keeps}
use livtet.SyncServer.Pull.Pass.{
  Endpoint, is_last_empty, take_page, after_page, on_page, pull_loop, find_device, touched,
  outbound_device, claimed_peer, peer_token, dialled, connect, node_of, peer_for, read_cursor,
  asking, finish, finished, from_cursor, started, pull_device_once,
}
use livtet.SyncServer.Pull.Pass.Answers.{Ended, pull_device_once-Fate}
use livtet.SyncServer.Pull.Pages.{Takes, page_of, pull_loop-Takes}

-- every payload is an offer of the book "B" to the device "D"
abbrev offers_env : Env
offers_env = record env {
  parse_json = λ _. some (
      obj (
        field (codes "to_device_id") (str (codes "D")) (
          field (codes "offer_id") (str (codes "O")) (
            field (codes "inventory_id") (str (codes "B")) (
              field (codes "edition_id") (str (codes "E"))
                (field (codes "work_id") (str (codes "W")) end))))));
}

-- a row that describes the book
abbrev held_row : SyncChange
held_row = record offer {
  id = 2;
  entity_type = codes "edition";
  entity_id = codes "E";
  version = pos 2;
}

abbrev log : List SyncChange
log = offer ∷ held_row ∷ []

abbrev page : PullResponse
page = record { changes = log; latest_version = pos 2; has_more = false }

abbrev outbound : PullState ℕ
outbound = record {
  db = start.db;
  paired_devices = record device { peer_session_token = some (codes "T") } ∷ [];
  inbound_offers = [];
  cursor = pos 0;
  received = [];
  applied = 0;
  offered = 0;
  conflicts = 0;
}

abbrev endpoint : Endpoint
endpoint = some (λ _ _. record {
  changes = λ _. ok page;
  download_file = λ _ _. ok tt;
  cover = λ _. ok none;
  offer_decision = λ _ _. ok tt;
})

abbrev waiting : InboundOffer
waiting =
    offer_of offers_env (codes "D") (codes "now") (λ _. false) offer (codes "B") (codes "E")
      (codes "W") (held_row ∷ [])

abbrev answered : PullState ℕ
answered = record outbound {
  inbound_offers = (codes "O", record waiting { status = codes "rejected" }) ∷ [];
}

-- the row that describes the book waits with the offer
offer_recorded :
    pull_device_once offers_env (codes "D") (codes "now") 7 (λ _. false) endpoint 1 id outbound
    ≡ some (
        ok (record outbound {
          paired_devices =
              record device { peer_session_token = some (codes "T"); last_sync_at = some 7 } ∷ [];
          inbound_offers = (codes "O", waiting) ∷ [];
          cursor = pos 2;
          received = codes "O" ∷ [];
          offered = 1;
        }))
unfolding pull_device_once claimed_peer outbound_device peer_for peer_token connect node_of dialled
    read_cursor started from_cursor finished finish touched find_device asking pull_loop on_page
    after_page take_page is_last_empty pull_page record_offers record_inbound_offer write_offer
    write_cursor apply_metadata held_ids offer_row_ids is_mine payload_value flag_of payload_text
    text_eq get insert trim trim_start Json.get
offer_recorded = refl

pull_device_once-Fate_example :
    Ends offers_env
      (codes "D")
      (codes "now")
      (λ _. false)
      (codes "O")
      (get (codes "O") answered.inbound_offers)
      (Keeps offers_env
        (codes "D")
        (codes "now")
        (λ _. false)
        (codes "O")
        (get (codes "O") answered.inbound_offers))
      (pull_page offers_env (codes "D") (codes "now") (λ _. false) page answered)
    × Ended offers_env
        (codes "D")
        (codes "now")
        7
        (λ _. false)
        endpoint
        (codes "O")
        (get (codes "O") answered.inbound_offers)
        (pull_device_once offers_env
          (codes "D")
          (codes "now")
          7
          (λ _. false)
          endpoint
          1
          id
          answered)
pull_device_once-Fate_example =
    pull_device_once-Fate offers_env (codes "D") (codes "now") 7 (λ _. false) endpoint (codes "O")
      answered page 1 id

pull_loop-Takes_example :
    Takes offers_env
      (codes "D")
      log
      (pull_page offers_env (codes "D") (codes "now") (λ _. false))
      (write_cursor offers_env (codes "D") (codes "now") (λ _. false))
      (pos 0)
      outbound
      (pull_loop
        (λ since s. ok (page_of offers_env (codes "D") log since))
        (pull_page offers_env (codes "D") (codes "now") (λ _. false))
        (write_cursor offers_env (codes "D") (codes "now") (λ _. false))
        5
        (pos 0)
        outbound)
unfolding sort_by insert_sorted
pull_loop-Takes_example =
    pull_loop-Takes offers_env (codes "D") log
      (pull_page offers_env (codes "D") (codes "now") (λ _. false))
      (write_cursor offers_env (codes "D") (codes "now") (λ _. false)) 5 (pos 0) outbound
      (((λ e. cc), tt), (tt, tt)) (omega arith)
