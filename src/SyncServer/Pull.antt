-- ===== src/SyncServer/Pull.antt =====
-- livtet-sync-server/src/daemon.rs: what a pull from a paired peer does with one page of the peer's
-- change log. It applies the changes, and records the offers among them for the reader.
pub mod Pass
pub mod Pages
pub mod Answers
mod Tests
use livtet.Base.{
  ℕ, zero, suc, ◌+◌, Bool, true, false, not, ◌&&◌, Option, none, some, List, [], ◌∷◌, ◌++◌, any,
  keep, if◌then◌else◌, length,
}
use livtet.Base.Text.{Text, codes, text_eq}
use livtet.Base.Int.{ℤ, pos}
use livtet.Base.Assoc.{get, insert}
use livtet.Base.Result.{Result, ok, err, ok_or, ◌>>=◌}
use livtet.Sync.Types.{
  SyncChange, PullResponse, SyncError, unknown_entity_type, deserialization, invalid_payload,
  invalid_operation, invalid_entity_id,
}
use livtet.Sync.Types
use livtet.Sync.Json
use livtet.Sync.Json.{Json, obj, arr, nil, as_bool, Env}
use livtet.Sync.Store.{Db}
use livtet.Sync.Receive.{ApplyOutcome, apply_changes}
use livtet.SyncServer.WireState.{PairedDevice, DbId}
use livtet.SyncServer.Wire.Access.{payload_text}

-- A row of `inbound_offers` but for its key. The held rows stand for their JSON text.
pub record InboundOffer : Type 0 where
  pub from_device_id : Text
  pub inventory_id : Text
  pub edition_id : Text
  pub work_id : Text
  pub title : Text
  pub authors : Text
  pub file_name : Option Text
  pub has_cover : Bool
  pub offered_at : Text
  pub received_at : Text
  pub status : Text
  pub decided_at : Option Text
  pub deferred_changes : List SyncChange

-- The messages of the database and of the stream are left out.
pub data ServerError : Type 0 where
  io db rpc config server : Text → ServerError

-- the text of the error, but for what serde and SQLite say
unfoldable pub from_sync : SyncError → ServerError
from_sync Types.db = db (codes "database error: ")
from_sync (unknown_entity_type t) = db (codes "unknown sync entity type: " ++ t)
from_sync (deserialization t) = db (codes "deserialization error for " ++ t ++ codes ": ")
from_sync (invalid_payload t) = db (codes "invalid payload for " ++ t ++ codes ": ")
from_sync (invalid_operation t op) = db (codes "invalid operation " ++ op ++ codes " for " ++ t)
from_sync (invalid_entity_id t) = db (codes "invalid entity id for " ++ t ++ codes ": ")

-- the statements that the database may refuse
pub data PullQuery : Type 0 where
  device_lookup token_lookup node_lookup cursor_read cursor_write offer_lookup offer_write last_sync
        decision_write :
      PullQuery

-- What a pass changes. `cursor` is the setting of the device, 0 where it is missing or no number, and
-- `received` the offers that the app was told of.
pub record PullState (T : Type 0) : Type 0 where
  pub db : Db T
  pub paired_devices : List PairedDevice
  pub inbound_offers : List (Text × InboundOffer)
  pub cursor : ℤ
  pub received : List Text
  pub applied : ℕ
  pub offered : ℕ
  pub conflicts : ℕ

-- What a pass ends in. An error keeps what was written before it.
abbrev pub Outcome : Type 0 → Type 0 → Type 0
Outcome T A = Result (ServerError × PullState T) A

abbrev pub fail : {T A : Type 0} → Text → PullState T → Outcome T A
fail message s = err (server message, s)

abbrev pub is_offer : SyncChange → Bool
is_offer c = text_eq c.entity_type (codes "file_offer")

abbrev pub has_id : SyncChange → List Text → Bool
has_id c = any (λ (i : Text). text_eq i c.entity_id)

abbrev some_texts : List (Option Text) → List Text
some_texts [] = []
some_texts (none ∷ os) = some_texts os
some_texts (some t ∷ os) = t ∷ some_texts os

-- `Map::get` on a payload
unfoldable pub payload_value : {F : Type 0} → Text → Option (Json F) → Option (Json F)
payload_value key (some (obj fields)) = Json.get key fields
payload_value key _ = none

unfoldable pub flag_of : {F : Type 0} → Option (Json F) → Bool
flag_of none = false
flag_of (some v) = elim (as_bool v) [ none ↦ false | some b ↦ b ]

abbrev or_text : Text → Option Text → Text
or_text d none = d
or_text d (some t) = t

-- the columns that `ON CONFLICT DO UPDATE` sets; the row keeps the rest
updated_offer : InboundOffer → Option InboundOffer → InboundOffer
updated_offer new none = new
updated_offer new (some old) = record new {
  received_at = old.received_at;
  status = old.status;
  decided_at = old.decided_at;
}

-- a row that was decided
abbrev is_answered : Option InboundOffer → Bool
is_answered none = false
is_answered (some o) = not (text_eq o.status (codes "pending"))

abbrev is_new : Option InboundOffer → Bool
is_new none = true
is_new (some _) = false

module _ (env : Env) (device_id now : Text) (refuses : PullQuery → Bool) where
  abbrev pub State : Type 0
  State = PullState env.Tables

  abbrev parsed : SyncChange → Option (Json env.F)
  parsed c = env.parse_json c.payload

  unfoldable pub offer_row_ids : SyncChange → List Text
  offer_row_ids c = some_texts (
      payload_text (codes "inventory_id") (parsed c)
      ∷ payload_text (codes "edition_id") (parsed c)
      ∷ payload_text (codes "work_id") (parsed c)
      ∷ [])

  -- an offer to this device
  unfoldable pub is_mine : SyncChange → Bool
  is_mine c = is_offer c && (elim (payload_text (codes "to_device_id") (parsed c)) [
    | none ↦ false
    | some t ↦ text_eq t device_id
  ])

  unfoldable pub held_ids : List SyncChange → List Text
  unfolding offer_row_ids
  held_ids [] = []
  held_ids (c ∷ cs) = offer_row_ids c ++ held_ids cs

  unfoldable pub offer_of : SyncChange → Text → Text → Text → List SyncChange → InboundOffer
  unfolding payload_value flag_of
  offer_of c inventory_id edition_id work_id held = record {
    from_device_id = c.device_id;
    inventory_id = inventory_id;
    edition_id = edition_id;
    work_id = work_id;
    title = or_text (codes "Untitled") (payload_text (codes "title") (parsed c));
    authors =
        env.print_json
          (elim (payload_value (codes "authors") (parsed c)) [ none ↦ arr nil | some v ↦ v ]);
    file_name = payload_text (codes "file_name") (parsed c);
    has_cover = flag_of (payload_value (codes "has_cover") (parsed c));
    offered_at = c.changed_at;
    received_at = now;
    status = codes "pending";
    decided_at = none;
    deferred_changes = held;
  }

  -- the insert, and the notification of a new offer
  write_offer : Text → InboundOffer → State → Outcome env.Tables State
  unfolding updated_offer
  write_offer offer_id o s =
      let existing = get offer_id s.inbound_offers in
      if refuses offer_lookup
      then fail (codes "inbound offer lookup: ") s
      else if is_answered existing
      then ok s
      else if refuses offer_write
      then fail (codes "could not record the offer: ") s
      else ok (record s {
        inbound_offers = insert offer_id (updated_offer o existing) s.inbound_offers;
        received = if is_new existing then s.received ++ offer_id ∷ [] else s.received;
        offered = if is_new existing then s.offered + 1 else s.offered;
      })

  unfoldable pub record_inbound_offer :
      SyncChange → List SyncChange → State → Outcome env.Tables State
  unfolding write_offer
  record_inbound_offer c held s =
      ok_or (server (codes "offer has no id"), s) (payload_text (codes "offer_id") (parsed c))
      >>= λ offer_id.
          ok_or (server (codes "offer has no inventory id"), s)
            (payload_text (codes "inventory_id") (parsed c))
          >>= λ inventory_id.
              ok_or (server (codes "offer has no edition id"), s)
                (payload_text (codes "edition_id") (parsed c))
              >>= λ edition_id.
                  ok_or (server (codes "offer has no work id"), s)
                    (payload_text (codes "work_id") (parsed c))
                  >>= λ work_id.
                      write_offer offer_id (offer_of c inventory_id edition_id work_id held) s

  -- the loop over the offers of a page
  record_offers : List SyncChange → List SyncChange → State → Outcome env.Tables State
  record_offers deferred [] s = ok s
  record_offers deferred (c ∷ cs) s =
      let held = keep (λ (r : SyncChange). has_id r (offer_row_ids c)) deferred in
      record_inbound_offer c held s >>= record_offers deferred cs

  unfoldable pub write_cursor : ℤ → State → Outcome env.Tables State
  write_cursor version s =
      if refuses cursor_write
      then fail (codes "settings write: ") s
      else ok (record s { cursor = version })

  abbrev applied_state :
      State → Result SyncError (Db env.Tables × ApplyOutcome) → Outcome env.Tables State
  applied_state s (err e) = err (from_sync e, s)
  applied_state s (ok (d, o)) = ok (record s {
    db = d;
    applied = s.applied + o.applied;
    conflicts = s.conflicts + length o.conflicts;
  })

  -- `if !metadata.is_empty()`
  unfoldable pub apply_metadata : List SyncChange → State → Outcome env.Tables State
  unfolding from_sync
  apply_metadata [] s = ok s
  apply_metadata (c ∷ cs) s = applied_state s (apply_changes env now [] (c ∷ cs) s.db)

  -- a page that is not empty
  unfoldable pub pull_page : PullResponse → State → Outcome env.Tables State
  unfolding record_offers
  pull_page page s =
      let offers = keep is_mine page.changes in
      let rows = keep (λ (c : SyncChange). not (is_offer c)) page.changes in
      let ids = held_ids offers in
      let deferred = keep (λ (c : SyncChange). has_id c ids) rows in
      let metadata = keep (λ (c : SyncChange). not (has_id c ids)) rows in
      apply_metadata metadata s
      >>= record_offers deferred offers
      >>= write_cursor page.latest_version
