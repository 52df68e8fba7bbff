-- ===== src/SyncServer/Wire/Claims/Filing.antt =====
-- What a claim of a peer changes.
use livtet.Base.{false, Option, none, some, ◌≡◌, ◌≢◌, refl, Bool-cases, inl, inr, arith}
use livtet.Base.Text.{Text}
use livtet.Base.Assoc.{get}
use livtet.Sync.Json.{Env}
use livtet.Sync.Apply.{from_hex, or_else}
use livtet.SyncServer.Changes.{decided, state_of, view, Keeps-refl, Change, keeps, files}
use livtet.SyncServer.Pairs.{is_pending}
use livtet.SyncServer.WireState.{
  DbId, PendingPairing, WireState, pairing_table, claim_row, Moment, Host,
}
use livtet.SyncServer.Wire.Claims.{
  is_decided, file_claim, pair_known, pair_here, pair_peer, pair_with,
}

state_undecided : (o : Option PendingPairing) → is_decided o ≡ false → state_of o ≢ decided
unfolding state_of
state_undecided none e = λ p. cc
state_undecided (some row) e = elim (Bool-cases (is_pending row.status_id)) [
  | inl t ↦ rw t (λ p. cc)
  | inr f ↦ cc (rw f at e)
]

module _ {env : Env} (h : Host env) (m : Moment) (remote : Text) (s : WireState env.Tables) where
  known-Change :
      (peer desktop_id : DbId) (device_id name tag : Text)
      → Change s (pair_known h m remote peer desktop_id device_id name tag s).1
  unfolding pair_known file_claim view
  known-Change peer desktop_id device_id name tag = elim (Bool-cases (m.refuses pairing_table)) [
    | inl t ↦ rw t (keeps (Keeps-refl s))
    | inr f ↦ elim (Bool-cases (is_decided (get remote s.pending_pairings))) [
      | inl t ↦ rw (f, t) (keeps (Keeps-refl s))
      | inr g ↦ elim (Bool-cases (m.refuses claim_row)) [
        | inl t ↦ rw (f, g, t) (keeps (Keeps-refl s))
        | inr k ↦
            rw (f, g, k)
              (files remote (
                _,
                _,
                state_undecided (get remote s.pending_pairings) g,
                refl,
                refl,
                refl,
                omega arith,
              ))
      ]
    ]
  ]

  here-Change :
      (peer : DbId) (o : Option DbId) (device_id name tag : Text)
      → Change s (pair_here h m remote peer o device_id name tag s).1
  unfolding pair_here
  here-Change peer none device_id name tag = keeps (Keeps-refl s)
  here-Change peer (some desktop_id) device_id name tag =
      known-Change peer desktop_id device_id name tag

  peer-Change :
      (o : Option DbId) (device_id name tag : Text)
      → Change s (pair_peer h m remote o device_id name tag s).1
  unfolding pair_peer
  peer-Change none device_id name tag = keeps (Keeps-refl s)
  peer-Change (some peer) device_id name tag =
      here-Change peer (env.ulid_decode s.device_id) device_id name tag

  pub pair_with-Change :
      (device_id name tag : Text) → Change s (pair_with h m remote device_id name tag s).1
  unfolding pair_with
  pair_with-Change device_id name tag =
      peer-Change (or_else (env.ulid_decode device_id) (from_hex env device_id)) device_id name tag
