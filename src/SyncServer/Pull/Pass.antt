-- ===== src/SyncServer/Pull/Pass.antt =====
-- livtet-sync-server/src/daemon.rs and peer.rs: one pull pass against a paired peer. A pass looks the
-- peer up, fetches its pages from the stored cursor on, and notes when it ended.
pub mod Answers
use livtet.Base.{
  ℕ, zero, suc, Bool, true, false, not, Option, none, some, List, [], ◌∷◌, if◌then◌else◌,
}
use livtet.Base.Text.{Text, codes, text_eq, trim}
use livtet.Base.Int.{ℤ}
use livtet.Base.Result.{Result, ok, err, ◌>>=◌}
use livtet.Sync.Types.{PullResponse}
use livtet.Sync.Json.{Env}
use livtet.SyncServer.WireState.{PairedDevice, DbId}
use livtet.SyncServer.Pull.{
  ServerError, server, PullQuery, device_lookup, token_lookup, node_lookup, cursor_read, last_sync,
  PullState, Outcome, fail, write_cursor, pull_page,
}

-- an empty page with nothing behind it ends the loop
unfoldable pub is_last_empty : PullResponse → Bool
is_last_empty page = elim page.changes [ [] ↦ not page.has_more | _ ∷ _ ↦ false ]

-- The loop of a pass, over what one page does to a state: `skip` moves the cursor past a page with
-- nothing for this device, and `handle` is the body for the others. `peer` answers `changes`.
module _ {E S : Type 0} (peer : ℤ → S → Result E PullResponse)
    (handle : PullResponse → S → Result E S) (skip : ℤ → S → Result E S) where
  unfoldable pub take_page : PullResponse → S → Result E S
  take_page page s = elim page.changes [ [] ↦ skip page.latest_version s | _ ∷ _ ↦ handle page s ]

  -- past a page that was taken
  unfoldable pub after_page : Bool → (S → Option (Result E S)) → Result E S → Option (Result E S)
  after_page more next (err e) = some (err e)
  after_page true next (ok s) = next s
  after_page false next (ok s) = some (ok s)

  unfoldable pub on_page :
      (ℤ → S → Option (Result E S)) → S → Result E PullResponse → Option (Result E S)
  on_page next s (err e) = some (err e)
  on_page next s (ok page) =
      if is_last_empty page
      then some (ok s)
      else after_page page.has_more (next page.latest_version) (take_page page s)

  -- On fuel for as many pages; `none` is out of fuel.
  unfoldable pub pull_loop : ℕ → ℤ → S → Option (Result E S)
  pull_loop zero cursor s = none
  pull_loop (suc fuel) cursor s = on_page (pull_loop fuel) s (peer cursor s)

-- `find_by_id`
unfoldable pub find_device : DbId → List PairedDevice → Option PairedDevice
find_device id [] = none
find_device id (d ∷ ds) =
    let rest = find_device id ds in if text_eq d.device_id id then some d else rest

-- `last_sync_at` of the row
unfoldable pub touched : ℕ → DbId → List PairedDevice → List PairedDevice
touched at id [] = []
touched at id (d ∷ ds) =
    let rest = touched at id ds in
    if text_eq d.device_id id then record d { last_sync_at = some at } ∷ ds else d ∷ rest

-- What a peer answers. `download_file` also writes the file, and `changes` asks for pages of 100.
pub record Peer : Type 0 where
  pub changes : ℤ → Result ServerError PullResponse
  pub download_file : Text → Text → Result ServerError (Unit {0})
  pub cover : Text → Result ServerError (Option (Text × List ℕ))
  pub offer_decision : Text → Bool → Result ServerError (Unit {0})

-- The peer with a node id and a token; `none` while peer discovery is not bound.
abbrev pub Endpoint : Type 0
Endpoint = Option (Text → Text → Peer)

module _ (env : Env) (device_id now : Text) (clock : ℕ) (refuses : PullQuery → Bool)
    (endpoint : Endpoint) where
  abbrev pub State : Type 0
  State = PullState env.Tables

  -- the row of a device that this installation claimed
  unfoldable pub outbound_device : Option PairedDevice → State → Outcome env.Tables PairedDevice
  outbound_device none s = fail (codes "device is not paired") s
  outbound_device (some d) s =
      if d.outbound then ok d else fail (codes "device was not claimed by this installation") s

  unfoldable pub claimed_peer : DbId → State → Outcome env.Tables PairedDevice
  unfolding outbound_device
  claimed_peer id s =
      if refuses device_lookup
      then fail (codes "paired device lookup: ") s
      else outbound_device (find_device id s.paired_devices) s

  -- no token is a value that the lookup cannot decode
  unfoldable pub peer_token : Option Text → State → Outcome env.Tables Text
  peer_token none s = fail (codes "session token lookup: ") s
  peer_token (some t) s =
      if refuses token_lookup then fail (codes "session token lookup: ") s else ok t

  unfoldable pub dialled : Endpoint → Text → Text → State → Outcome env.Tables Peer
  dialled e [] token s = fail (codes "the peer has no node id to dial") s
  dialled none (c ∷ cs) token s =
      fail (codes "peer discovery is not bound, so the peer cannot be dialled") s
  dialled (some dial) (c ∷ cs) token s = ok (dial (c ∷ cs) token)

  unfoldable pub connect : Text → Text → State → Outcome env.Tables Peer
  unfolding dialled
  connect node token s = dialled endpoint (trim node) token s

  -- a node id that is not found is the empty one
  unfoldable pub node_of : Option Text → Text
  node_of none = []
  node_of (some node) = if refuses node_lookup then [] else node

  unfoldable pub peer_for : DbId → State → Outcome env.Tables Peer
  unfolding claimed_peer peer_token node_of connect
  peer_for id s = claimed_peer id s >>= λ d.
      peer_token d.peer_session_token s >>= λ token. connect (node_of d.node_id) token s

  -- the stored cursor
  unfoldable pub read_cursor : State → Outcome env.Tables ℤ
  read_cursor s = if refuses cursor_read then fail (codes "settings read: ") s else ok s.cursor

  -- a request that fails leaves the state of the pass
  unfoldable pub asking : Peer → ℤ → State → Outcome env.Tables PullResponse
  asking peer since s = elim (peer.changes since) as (λ _. Outcome env.Tables PullResponse) [
    | err e ↦ err (e, s)
    | ok page ↦ ok page
  ]

  unfoldable pub finish : DbId → State → Outcome env.Tables State
  unfolding touched
  finish id s =
      if refuses last_sync
      then fail (codes "last sync update: ") s
      else ok (record s { paired_devices = touched clock id s.paired_devices })

  unfoldable pub finished :
      DbId → Option (Outcome env.Tables State) → Option (Outcome env.Tables State)
  unfolding finish
  finished id none = none
  finished id (some r) = some (r >>= finish id)

  unfoldable pub from_cursor : ℕ → Peer → State → ℤ → Option (Outcome env.Tables State)
  unfolding asking
  from_cursor fuel peer s cursor =
      pull_loop (asking peer) (pull_page env device_id now refuses)
        (write_cursor env device_id now refuses) fuel cursor s

  -- once the peer is found
  unfoldable pub started :
      ℕ → DbId → State → Outcome env.Tables (Peer × ℤ) → Option (Outcome env.Tables State)
  unfolding from_cursor finished
  started fuel id s (err e) = some (err e)
  started fuel id s (ok (peer, cursor)) = finished id (from_cursor fuel peer s cursor)

  -- The counts of a pass start from nothing; `none` is out of fuel for its pages.
  unfoldable pub pull_device_once : ℕ → DbId → State → Option (Outcome env.Tables State)
  unfolding claimed_peer read_cursor started
  pull_device_once fuel id s =
      let s' : State = record s { applied = 0; offered = 0; conflicts = 0 } in
      started fuel id s' (
        claimed_peer id s' >>= λ d.
        peer_for id s' >>= λ peer. read_cursor s' >>= λ cursor. ok (peer, cursor))
