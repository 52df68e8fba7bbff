-- ===== src/SyncServer/Decide.antt =====
-- livtet-sync-server/src/daemon.rs: `handle_offers_decide`, the reader's answer to an offer. To accept
-- downloads the file and applies the rows that the pull held back.
pub mod Consent
mod Tests
use livtet.Base.{
  ℕ, Bool, true, false, not, Option, none, some, List, [], ◌∷◌, ◌++◌, ◌||◌, if◌then◌else◌, length,
}
use livtet.Base.Text.{Text, codes, text_eq, strip_prefix}
use livtet.Base.Int.{ℤ, negsuc}
use livtet.Base.Assoc.{get, insert}
use livtet.Base.Result.{Result, ok, err, ok_or, ◌>>=◌}
use livtet.Sync.Types.{SyncError}
use livtet.Sync.Json.{Json, null, bool, str, obj, end, field, Env}
use livtet.Sync.Apply.{from_hex}
use livtet.Sync.Store.{Db}
use livtet.Sync.Receive.{InventoryPaths, ApplyOutcome, apply_changes}
use livtet.SyncServer.Wire.Access.{payload_text}
use livtet.SyncServer.Pull.{
  InboundOffer, ServerError, io, db, rpc, config, server, from_sync, PullQuery, offer_lookup,
  decision_write, PullState, fail, payload_value, flag_of,
}
use livtet.SyncServer.Pull.Pass.{Peer, Endpoint, peer_for}

-- a JSON-RPC error code with its message
pub record RpcFailure : Type 0 where
  pub code : ℤ
  pub message : Text

-- INVALID_PARAMS, -32602
abbrev pub invalid_params : Text → RpcFailure
invalid_params m = record { code = negsuc 32601; message = m }

-- INTERNAL_ERROR, -32603
abbrev pub internal : Text → RpcFailure
internal m = record { code = negsuc 32602; message = m }

unfoldable pub from_server : ServerError → RpcFailure
from_server (io m) = internal (codes "io error: " ++ m)
from_server (db m) = internal (codes "database error: " ++ m)
from_server (rpc m) = internal (codes "rpc error: " ++ m)
from_server (config m) = internal (codes "config error: " ++ m)
from_server (server m) = internal (codes "server error: " ++ m)

-- The directories of the configuration, camino's operations on paths, and whether the file system
-- takes a directory or a cover.
pub record Files : Type 0 where
  pub books_dir : Option Text
  pub covers_dir : Option Text
  pub join : Text → Text → Text
  pub file_name : Text → Option Text
  pub create_dir_all : Text → Bool
  pub write : Text → List ℕ → Bool

-- The answer. It also carries the offer's id and its edition.
pub record Decision : Type 0 where
  pub offer_id : Text
  pub accepted : Bool
  pub delivered : Bool
  pub applied : ℕ
  pub conflicts : ℕ
  pub edition_id : Text

-- `str::contains`
unfoldable pub contains : Text → Text → Bool
contains t [] = elim (strip_prefix t []) [ none ↦ false | some _ ↦ true ]
contains t (c ∷ s) =
    let rest = contains t s in elim (strip_prefix t (c ∷ s)) [ none ↦ rest | some _ ↦ true ]

unfoldable pub extension_of : Text → Text
unfolding contains
extension_of content_type =
    if contains (codes "jpeg") content_type
    then codes "jpg"
    else if contains (codes "webp") content_type
    then codes "webp"
    else codes "png"

abbrev or_book : Option Text → Text
or_book none = codes "book"
or_book (some []) = codes "book"
or_book (some (c ∷ cs)) = c ∷ cs

abbrev optional_str : {F : Type 0} → Option Text → Json F
optional_str none = null
optional_str (some t) = str t

abbrev pub is_ok : {A : Type 0} → Result ServerError A → Bool
is_ok (ok _) = true
is_ok (err _) = false

module _ (files : Files) where
  -- the cover's path, once it is written
  unfoldable pub stored_cover :
      Text → Text → Option (Text × List ℕ) → Result ServerError (Option Text)
  unfolding extension_of
  stored_cover covers_dir inventory_id none = ok none
  stored_cover covers_dir inventory_id (some (content_type, bytes)) =
      let path = files.join covers_dir (inventory_id ++ codes "." ++ extension_of content_type) in
      if files.write path bytes
      then ok (some path)
      else err (server (codes "write received cover: "))

  unfoldable pub download_offer :
      {F : Type 0}
      → Peer
      → Option (Json F)
      → Text
      → Text
      → Result ServerError (Text × InventoryPaths)
  unfolding stored_cover
  download_offer peer payload books_dir covers_dir =
      ok_or (server (codes "offer has no inventory id"))
        (payload_text (codes "inventory_id") payload)
      >>= λ inventory_id.
          let name = elim (payload_text (codes "file_name") payload) as (λ _. Option Text) [
            | none ↦ none
            | some n ↦ files.file_name n
          ] in
          let file_path = files.join books_dir (inventory_id ++ codes "-" ++ or_book name) in
          peer.download_file inventory_id file_path >>= λ _.
          (if flag_of (payload_value (codes "has_cover") payload)
            then peer.cover inventory_id >>= stored_cover covers_dir inventory_id
            else ok none)
          >>= λ cover_path.
              ok (inventory_id, record { file_path = some file_path; cover_path = cover_path })

-- `row` with the answer
unfoldable pub settled_offer : Text → Bool → InboundOffer → InboundOffer
settled_offer now accepted row = record row {
  status = if accepted then codes "accepted" else codes "rejected";
  decided_at = some now;
  deferred_changes = [];
}

module _ (env : Env) (device_id now : Text) (clock : ℕ) (refuses : PullQuery → Bool)
    (endpoint : Endpoint) (files : Files) where
  abbrev pub State : Type 0
  State = PullState env.Tables

  -- An error keeps what was written before it.
  abbrev pub Answer : Type 0 → Type 0
  Answer A = Result (RpcFailure × State) A

  -- to find a peer writes nothing
  abbrev pub in_rpc : {A : Type 0} → State → Result (ServerError × State) A → Answer A
  in_rpc s (ok a) = ok a
  in_rpc s (err e) = err (from_server e.0, s)

  -- `str::parse::<DbId>`, or the hex form
  unfoldable pub peer_by_id : Text → State → Result (ServerError × State) Peer
  peer_by_id id s = elim (env.ulid_decode id) as (λ _. Result (ServerError × State) Peer) [
    | none ↦ elim (from_hex env id) as (λ _. Result (ServerError × State) Peer) [
      | none ↦ fail (codes "invalid device id: " ++ id) s
      | some d ↦ peer_for env device_id now clock refuses endpoint d s
    ]
    | some d ↦ peer_for env device_id now clock refuses endpoint d s
  ]

  -- the row of an offer that waits for its answer
  unfoldable pub waiting_offer : Text → State → Answer InboundOffer
  waiting_offer offer_id s =
      if refuses offer_lookup
      then err (internal [], s)
      else (ok_or (invalid_params (codes "no such offer: " ++ offer_id), s)
            (get offer_id s.inbound_offers)
          >>= λ row.
              if text_eq row.status (codes "pending")
              then ok row
              else err (
                invalid_params (codes "offer " ++ offer_id ++ codes " was already " ++ row.status),
                s,
              ))

  unfoldable pub directory : Text → Option Text → State → Answer Text
  directory name dir s =
      ok_or (internal (codes "no " ++ name ++ codes " directory configured"), s) dir

  unfoldable pub create : Text → Text → State → Answer (Unit {0})
  create name dir s =
      if files.create_dir_all dir then ok tt else err (internal (name ++ codes " directory: "), s)

  abbrev payload_of : InboundOffer → Json env.F
  payload_of row = obj (
      field (codes "inventory_id") (str row.inventory_id) (
        field (codes "file_name") (optional_str row.file_name)
          (field (codes "has_cover") (bool row.has_cover) end)))

  abbrev fetched :
      State → Result ServerError (Text × InventoryPaths) → Answer (Text × InventoryPaths)
  fetched s (ok r) = ok r
  fetched s (err e) = err (from_server e, s)

  abbrev applied_held : State → Result SyncError (Db env.Tables × ApplyOutcome) → Answer State
  applied_held s (err e) = err (from_server (from_sync e), s)
  applied_held s (ok (d, o)) =
      ok (record s { db = d; applied = o.applied; conflicts = length o.conflicts })

  -- `if !held.is_empty()`
  unfoldable pub apply_held : InboundOffer → Text × InventoryPaths → State → Answer State
  apply_held row paths s = elim row.deferred_changes as (λ _. Answer State) [
    | [] ↦ ok s
    | _ ∷ _ ↦ applied_held s (apply_changes env now (paths ∷ []) row.deferred_changes s.db)
  ]

  -- the body of `if params.accepted`
  unfoldable pub take_offer : Peer → InboundOffer → State → Answer State
  unfolding directory create
  take_offer peer row s = directory (codes "books") files.books_dir s >>= λ books_dir.
      directory (codes "covers") files.covers_dir s >>= λ covers_dir.
      create (codes "books") books_dir s >>= λ _. create (codes "covers") covers_dir s >>= λ _.
      fetched s (download_offer files peer (some (payload_of row)) books_dir covers_dir)
      >>= λ paths. apply_held row paths s

  -- the update of the offer, and the answer to its sender
  unfoldable pub settle_offer :
      Peer → Text → Bool → InboundOffer → State → Answer (Decision × State)
  unfolding settled_offer
  settle_offer peer offer_id accepted row s =
      if refuses decision_write
      then err (internal (codes "could not record the decision: "), s)
      else ok (
        record {
          offer_id = offer_id;
          accepted = accepted;
          delivered = is_ok (peer.offer_decision offer_id accepted);
          applied = s.applied;
          conflicts = s.conflicts;
          edition_id = row.edition_id;
        },
        record s {
          inbound_offers = insert offer_id (settled_offer now accepted row) s.inbound_offers;
        },
      )

  -- The counts start from nothing.
  unfoldable pub handle_offers_decide : Text → Bool → State → Answer (Decision × State)
  unfolding peer_by_id
  handle_offers_decide offer_id accepted s =
      let s' : State = record s { applied = 0; conflicts = 0 } in
      waiting_offer offer_id s' >>= λ row. in_rpc s' (peer_by_id row.from_device_id s') >>= λ peer.
      (if accepted then take_offer peer row s' else ok s')
      >>= settle_offer peer offer_id accepted row
