-- ===== src/SyncServer/Pull/Pass/Answers.antt =====
-- livtet-sync-server/src/daemon.rs: the stored offers through a whole pass, whatever the peer sends.
use livtet.Base.{
  ℕ, zero, suc, Bool, true, false, Option, none, some, List, [], ◌∷◌, Bool-cases, inl, inr,
}
use livtet.Base.Text.{Text}
use livtet.Base.Int.{ℤ}
use livtet.Base.Assoc.{get}
use livtet.Base.Result.{Result, ok, err}
use livtet.Sync.Types.{SyncChange, PullResponse}
use livtet.Sync.Json.{Env}
use livtet.SyncServer.WireState.{PairedDevice, DbId}
use livtet.SyncServer.Pull.{
  InboundOffer, ServerError, PullQuery, token_lookup, cursor_read, last_sync, device_lookup,
  PullState, Outcome, fail, write_cursor, pull_page,
}
use livtet.SyncServer.Pull.Answers.{
  Keeps, Ends, Fate-refl, bind-Ends, write_cursor-Keeps, pull_page-Keeps,
}
use livtet.SyncServer.Pull.Pass.{
  Peer, Endpoint, is_last_empty, take_page, after_page, on_page, pull_loop, find_device,
  outbound_device, claimed_peer, peer_token, dialled, connect, peer_for, read_cursor, asking,
  finish, finished, from_cursor, started, pull_device_once,
}

module _ (env : Env) (device_id now : Text) (clock : ℕ) (refuses : PullQuery → Bool)
    (endpoint : Endpoint) (id : Text) (before : Option InboundOffer) where
  abbrev State : Type 0
  State = PullState env.Tables

  abbrev Kept : State → Type 0
  Kept = Keeps env device_id now refuses id before

  -- what holds where a result of the pass is kept
  abbrev Stays : {A : Type 0} → (A → Type 0) → Outcome env.Tables A → Type 0
  Stays = Ends env device_id now refuses id before

  -- a pass that ran out of fuel has no result
  abbrev pub Ended : Option (Outcome env.Tables State) → Type 0
  Ended none = Unit {0}
  Ended (some r) = Stays Kept r

  abbrev Any : {A : Type 0} → A → Type 0
  Any _ = Unit {0}

  fail-Stays : {A : Type 0} (P : A → Type 0) (m : Text) (s : State) → Kept s → Stays P (fail m s)
  unfolding Ends
  fail-Stays P m s h = h

  ok-Stays : {A : Type 0} (P : A → Type 0) (a : A) → P a → Stays P (ok a)
  unfolding Ends
  ok-Stays P a h = h

  module _ (peer : Peer) where
    abbrev loop : ℕ → ℤ → State → Option (Outcome env.Tables State)
    loop =
        pull_loop (asking env device_id now clock refuses endpoint peer)
          (pull_page env device_id now refuses) (write_cursor env device_id now refuses)

    taken-Stays :
        (page : PullResponse) (s : State)
        → Kept s
        → Stays Kept (
            take_page
              (asking env device_id now clock refuses endpoint peer)
              (pull_page env device_id now refuses)
              (write_cursor env device_id now refuses)
              page
              s)
    unfolding take_page
    taken-Stays page s h = go page.changes
      where
        go :
            (cs : List SyncChange)
            → Stays Kept (elim cs [
              | [] ↦ write_cursor env device_id now refuses page.latest_version s
              | _ ∷ _ ↦ pull_page env device_id now refuses page s
            ])
        go [] = write_cursor-Keeps env device_id now refuses id before page.latest_version s h
        go (c ∷ cs) = pull_page-Keeps env device_id now refuses id before page s h

    onwards-Ended :
        (more : Bool) (next : State → Option (Outcome env.Tables State))
        (r : Outcome env.Tables State)
        → Stays Kept r
        → ((s : State) → Kept s → Ended (next s))
        → Ended (
            after_page
              (asking env device_id now clock refuses endpoint peer)
              (pull_page env device_id now refuses)
              (write_cursor env device_id now refuses)
              more
              next
              r)
    unfolding after_page Ends
    onwards-Ended more next (err e) h k = h
    onwards-Ended true next (ok s) h k = k s h
    onwards-Ended false next (ok s) h k = h

    asking-Stays :
        (since : ℤ) (s : State)
        → Kept s
        → Stays Any (asking env device_id now clock refuses endpoint peer since s)
    unfolding asking Ends
    asking-Stays since s h = go (peer.changes since)
      where
        go :
            (r : Result ServerError PullResponse)
            → Stays Any (elim r as (λ _. Outcome env.Tables PullResponse) [
              | err e ↦ err (e, s)
              | ok page ↦ ok page
            ])
        go (err e) = h
        go (ok page) = tt

    page-Ended :
        (next : ℤ → State → Option (Outcome env.Tables State)) (s : State)
        (r : Outcome env.Tables PullResponse)
        → Kept s
        → Stays Any r
        → ((cursor : ℤ) (s' : State) → Kept s' → Ended (next cursor s'))
        → Ended (
            on_page
              (asking env device_id now clock refuses endpoint peer)
              (pull_page env device_id now refuses)
              (write_cursor env device_id now refuses)
              next
              s
              r)
    unfolding on_page Ends
    page-Ended next s (err e) h k go = k
    page-Ended next s (ok page) h k go = elim (Bool-cases (is_last_empty page)) [
      | inl t ↦ rw t (ok-Stays Kept s h)
      | inr f ↦ rw f (
          onwards-Ended page.has_more (next page.latest_version) _ (taken-Stays page s h)
            (go page.latest_version))
    ]

    loop-Ended : (fuel : ℕ) (cursor : ℤ) (s : State) → Kept s → Ended (loop fuel cursor s)
    unfolding pull_loop
    loop-Ended zero cursor s h = tt
    loop-Ended (suc fuel) cursor s h =
        page-Ended (loop fuel) s (asking env device_id now clock refuses endpoint peer cursor s) h
          (asking-Stays cursor s h) (loop-Ended fuel)

  found-Stays :
      (d : Option PairedDevice) (s : State)
      → Kept s
      → Stays Any (outbound_device env device_id now clock refuses endpoint d s)
  unfolding outbound_device Ends
  found-Stays none s h = h
  found-Stays (some d) s h = elim (Bool-cases d.outbound) [ inl t ↦ rw t tt | inr f ↦ rw f h ]

  claimed_peer-Stays :
      (peer_id : DbId) (s : State)
      → Kept s
      → Stays Any (claimed_peer env device_id now clock refuses endpoint peer_id s)
  unfolding claimed_peer
  claimed_peer-Stays peer_id s h = elim (Bool-cases (refuses device_lookup)) [
    | inl t ↦ rw t (fail-Stays Any _ s h)
    | inr f ↦ rw f (found-Stays (find_device peer_id s.paired_devices) s h)
  ]

  peer_token-Stays :
      (token : Option Text) (s : State)
      → Kept s
      → Stays Any (peer_token env device_id now clock refuses endpoint token s)
  unfolding peer_token Ends
  peer_token-Stays none s h = h
  peer_token-Stays (some t) s h = elim (Bool-cases (refuses token_lookup)) [
    | inl e ↦ rw e h
    | inr e ↦ rw e tt
  ]

  dialled-Stays :
      (e : Endpoint) (node token : Text) (s : State)
      → Kept s
      → Stays Any (dialled env device_id now clock refuses endpoint e node token s)
  unfolding dialled Ends
  dialled-Stays none [] token s h = h
  dialled-Stays (some dial) [] token s h = h
  dialled-Stays none (c ∷ cs) token s h = h
  dialled-Stays (some dial) (c ∷ cs) token s h = tt

  peer_for-Stays :
      (peer_id : DbId) (s : State)
      → Kept s
      → Stays Any (peer_for env device_id now clock refuses endpoint peer_id s)
  unfolding peer_for connect
  peer_for-Stays peer_id s h =
      bind-Ends env device_id now refuses id before Any Any _ _ (claimed_peer-Stays peer_id s h)
        (λ d _.
          bind-Ends env device_id now refuses id before Any Any _ _
            (peer_token-Stays d.peer_session_token s h)
            (λ token _. dialled-Stays endpoint _ token s h))

  read_cursor-Stays :
      (s : State) → Kept s → Stays Any (read_cursor env device_id now clock refuses endpoint s)
  unfolding read_cursor Ends
  read_cursor-Stays s h = elim (Bool-cases (refuses cursor_read)) [
    | inl t ↦ rw t h
    | inr f ↦ rw f tt
  ]

  finish-Stays :
      (peer_id : DbId) (s : State)
      → Kept s
      → Stays Kept (finish env device_id now clock refuses endpoint peer_id s)
  unfolding finish Ends
  finish-Stays peer_id s h = elim (Bool-cases (refuses last_sync)) [
    | inl t ↦ rw t h
    | inr f ↦ rw f h
  ]

  finished-Ended :
      (peer_id : DbId) (r : Option (Outcome env.Tables State))
      → Ended r
      → Ended (finished env device_id now clock refuses endpoint peer_id r)
  unfolding finished
  finished-Ended peer_id none h = tt
  finished-Ended peer_id (some r) h =
      bind-Ends env device_id now refuses id before Kept Kept r _ h (finish-Stays peer_id)

  started-Ended :
      (fuel : ℕ) (peer_id : DbId) (s : State) (r : Outcome env.Tables (Peer × ℤ))
      → Kept s
      → Stays Any r
      → Ended (started env device_id now clock refuses endpoint fuel peer_id s r)
  unfolding started from_cursor Ends
  started-Ended fuel peer_id s (err e) h k = k
  started-Ended fuel peer_id s (ok (peer, cursor)) h k =
      finished-Ended peer_id _ (loop-Ended peer fuel cursor s h)

  pull_device_once-Ended :
      (fuel : ℕ) (peer_id : DbId) (s : State)
      → Kept s
      → Ended (pull_device_once env device_id now clock refuses endpoint fuel peer_id s)
  unfolding pull_device_once
  pull_device_once-Ended fuel peer_id s h =
      let s' : State = record s { applied = 0; offered = 0; conflicts = 0 } in
      started-Ended fuel peer_id s' _ h (
        bind-Ends env device_id now refuses id before Any Any _ _ (claimed_peer-Stays peer_id s' h)
          (λ d _.
            bind-Ends env device_id now refuses id before Any Any _ _ (peer_for-Stays peer_id s' h)
              (λ peer _.
                bind-Ends env device_id now refuses id before Any Any _ _ (read_cursor-Stays s' h)
                  (λ cursor _. ok-Stays Any (peer, cursor) tt))))

module _ (env : Env) (device_id now : Text) (clock : ℕ) (refuses : PullQuery → Bool)
    (endpoint : Endpoint) where
  -- Whatever a peer sends, a page and a whole pass leave every stored offer with the reader's answer
  -- to it and its times, in the state of success and in the one that an error leaves: an offer that
  -- was answered stays as it is, one that waits goes on waiting, and a new one waits. A pass that
  -- runs out of fuel has no result to speak of.
  pub pull_device_once-Fate :
      (id : Text) (s : PullState env.Tables) (page : PullResponse) (fuel : ℕ) (peer_id : DbId)
      → Ends env device_id now refuses id
          (get id s.inbound_offers)
          (Keeps env device_id now refuses id (get id s.inbound_offers))
          (pull_page env device_id now refuses page s)
        × Ended env device_id now clock refuses endpoint id
            (get id s.inbound_offers)
            (pull_device_once env device_id now clock refuses endpoint fuel peer_id s)
  pull_device_once-Fate id s page fuel peer_id =
      let before = get id s.inbound_offers in
      (
        pull_page-Keeps env device_id now refuses id before page s (Fate-refl before),
        pull_device_once-Ended env device_id now clock refuses endpoint id before fuel peer_id s
            (Fate-refl before),
      )
