-- ===== src/SyncServer/Decide/Tests.antt =====
-- An offer that is accepted and one that is refused, at concrete inputs.
use livtet.Base.{ℕ, true, false, none, some, [], ◌∷◌, ◌++◌, ◌≡◌, refl}
use livtet.Base.Text.{codes, text_eq, strip_prefix, trim, trim_start}
use livtet.Base.Int.{pos, negsuc}
use livtet.Base.Assoc.{get, insert}
use livtet.Base.Result.{ok, err}
use livtet.Sync.Json
use livtet.SyncServer.Wire.Access.{payload_text}
use livtet.SyncServer.Fixtures.{device, start, env}
use livtet.SyncServer.Pull.{server, InboundOffer, PullState, payload_value, flag_of}
use livtet.SyncServer.Pull.Pass.{
  Endpoint, peer_for, claimed_peer, outbound_device, find_device, peer_token, node_of, connect,
  dialled,
}
use livtet.SyncServer.Decide.{
  Files, extension_of, contains, stored_cover, download_offer, settled_offer, peer_by_id,
  waiting_offer, directory, create, take_offer, apply_held, settle_offer, handle_offers_decide,
}
use livtet.SyncServer.Decide.Consent.{Ends, Failed, Decided, handle_offers_decide-Decided}

abbrev endpoint : Endpoint
endpoint = some (λ _ _. record {
  changes = λ _. err (server []);
  download_file = λ _ _. ok tt;
  cover = λ _. ok (some (codes "image/jpeg", 1 ∷ []));
  offer_decision = λ _ _. err (server []);
})

abbrev files : Files
files = record {
  books_dir = some (codes "books");
  covers_dir = none;
  join = λ dir name. dir ++ codes "/" ++ name;
  file_name = λ t. some t;
  create_dir_all = λ _. true;
  write = λ _ _. true;
}

abbrev with_covers : Files
with_covers = record files { covers_dir = some (codes "covers") }

abbrev waiting : InboundOffer
waiting = record {
  from_device_id = codes "S";
  inventory_id = codes "B";
  edition_id = codes "E";
  work_id = codes "W";
  title = codes "Dune";
  authors = codes "[]";
  file_name = some (codes "dune.epub");
  has_cover = true;
  offered_at = codes "then";
  received_at = codes "then";
  status = codes "pending";
  decided_at = none;
  deferred_changes = [];
}

abbrev offered : PullState ℕ
offered = record {
  db = start.db;
  paired_devices = record device { peer_session_token = some (codes "T") } ∷ [];
  inbound_offers = (codes "O", waiting) ∷ [];
  cursor = pos 0;
  received = [];
  applied = 0;
  offered = 0;
  conflicts = 0;
}

-- the sender is out of reach, so it is not told
offer_accepted :
    handle_offers_decide env
      (codes "D")
      (codes "now")
      7
      (λ _. false)
      endpoint
      with_covers
      (codes "O")
      true
      offered
    ≡ ok (
      record {
        offer_id = codes "O";
        accepted = true;
        delivered = false;
        applied = 0;
        conflicts = 0;
        edition_id = codes "E";
      },
      record offered {
        inbound_offers =
            (
              codes "O",
              record waiting { status = codes "accepted"; decided_at = some (codes "now") },
            )
            ∷ [];
      },
    )
unfolding handle_offers_decide waiting_offer peer_by_id peer_for claimed_peer outbound_device
    find_device peer_token node_of connect dialled take_offer directory create download_offer
    stored_cover extension_of contains apply_held settle_offer settled_offer payload_text
    payload_value flag_of get insert text_eq strip_prefix trim trim_start Json.get
offer_accepted = refl

no_covers_directory :
    handle_offers_decide env
      (codes "D")
      (codes "now")
      7
      (λ _. false)
      endpoint
      files
      (codes "O")
      true
      offered
    ≡ err
        (record { code = negsuc 32602; message = codes "no covers directory configured" }, offered)
unfolding handle_offers_decide waiting_offer peer_by_id peer_for claimed_peer outbound_device
    find_device peer_token node_of connect dialled take_offer directory get text_eq trim trim_start
no_covers_directory = refl

handle_offers_decide-Decided_example :
    Ends env
      (codes "D")
      (codes "now")
      7
      (λ _. false)
      endpoint
      with_covers
      (Failed env
        (codes "D")
        (codes "now")
        7
        (λ _. false)
        endpoint
        with_covers
        (codes "O")
        true
        offered)
      (Decided env
        (codes "D")
        (codes "now")
        7
        (λ _. false)
        endpoint
        with_covers
        (codes "O")
        true
        offered)
      (handle_offers_decide env
        (codes "D")
        (codes "now")
        7
        (λ _. false)
        endpoint
        with_covers
        (codes "O")
        true
        offered)
handle_offers_decide-Decided_example =
    handle_offers_decide-Decided env (codes "D") (codes "now") 7 (λ _. false) endpoint with_covers
      (codes "O") true offered
