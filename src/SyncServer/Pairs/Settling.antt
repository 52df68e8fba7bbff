-- ===== src/SyncServer/Pairs/Settling.antt =====
-- What an approval and a rejection change, on every path through their statements.
use livtet.Base.{
  ℕ, ◌≤◌, Bool, false, Option, none, some, List, [], ◌≡◌, ◌≢◌, refl, length, Bool-cases,
  Option-cases, inl, inr, arith,
}
use livtet.Base.Text.{Text, codes, text_eq}
use livtet.Base.Assoc.{get, get-remove_self, get-remove_other}
use livtet.Sync.Json.{Env}
use livtet.SyncServer.Changes.{absent, state_of, view, Keeps-refl, Settles, Change, keeps, settles}
use livtet.SyncServer.Pairing.{
  PairWaiters, PairDecisions, pair_decision_cap, apply_pairing_decision,
}
use livtet.SyncServer.Pairing.Bounds.{length-record_decision}
use livtet.SyncServer.Pairing.Decisions.{
  decision_of, apply_pairing_decision-waiting, apply_pairing_decision-absent,
}
use livtet.SyncServer.Pairs.{
  is_pending, token_taken, set_token, upsert_device, device_of, claimed_device, settle,
  approve_pending, approve_token, approve_device, approve_row, approve_claim, reject_row,
  reject_claim,
}
use livtet.SyncServer.WireState.{
  DbId, PairedDevice, PairingStatus, approved, rejected, PendingPairing, WireState, pairing_table,
  device_row, token_row, status_row, Moment, Host,
}

view-present :
    {T : Type 0} (node : Text) (row : PendingPairing) (s : WireState T)
    → get node s.pending_pairings ≡ some row
    → view node s ≢ absent
unfolding view state_of
view-present node row s e = elim (Bool-cases (is_pending row.status_id)) [
  | inl t ↦ rw e (rw t (λ p. cc))
  | inr f ↦ rw e (rw f (λ p. cc))
]

-- the waiters and the decisions past a decision on a node
Answers : Text → PairWaiters → PairDecisions → (PairWaiters × PairDecisions) × Bool → Type 0
Answers node waiters decisions r =
    (get node r.0.0 ≡ none)
    × ((other : Text) → text_eq node other ≡ false → get other r.0.0 ≡ get other waiters)
    × (length decisions ≤ pair_decision_cap → length r.0.1 ≤ pair_decision_cap)

apply_pairing_decision-Answers :
    (now : ℕ) (node decision token : Text) (device : Option Text) (waiters : PairWaiters)
    (decisions : PairDecisions)
    → Answers node waiters decisions
        (apply_pairing_decision now node decision token device waiters decisions)
unfolding Answers
apply_pairing_decision-Answers now node decision token device waiters decisions =
    elim (Option-cases (get node waiters)) [
      | inl gone ↦
          rw (apply_pairing_decision-absent now node decision token device waiters decisions gone)
            (gone, λ other e. refl, λ n. n)
      | inr (claim, is) ↦
          rw
            (apply_pairing_decision-waiting now node claim decision token device waiters decisions
              is)
            (
              get-remove_self {0} node waiters,
              λ other e. get-remove_other {0} other node waiters e,
              λ n.
                  length-record_decision now claim (decision_of node decision token device now)
                    decisions,
            )
    ]

module _ {env : Env} (h : Host env) (m : Moment) (node : Text) where
  settle-Settles :
      (row : PendingPairing) (status : PairingStatus) (decision token : Text) (device : Option Text)
      (s : WireState env.Tables)
      → is_pending (some status) ≡ false
      → get node s.pending_pairings ≡ some row
      → Settles node s (settle h m node row status decision token device s)
  unfolding settle Answers
  settle-Settles row status decision token device s e found =
      let r =
        apply_pairing_decision-Answers m.now node decision token device s.pair_waiters
          s.pair_decisions in
      (
        record row { status_id = some status },
        view-present node row s found,
        e,
        refl,
        r.0,
        r.1,
        r.2,
      )

  module _ (s : WireState env.Tables) where
    -- Writes to the table of devices are no part of a change.
    abbrev devices : List PairedDevice → WireState env.Tables
    devices ds = record s { paired_devices = ds }

    pending-Change :
        (row : PendingPairing) (id : DbId) (ds : List PairedDevice)
        → get node s.pending_pairings ≡ some row
        → Change s (approve_pending h m node row id (devices ds)).0
    unfolding approve_pending view
    pending-Change row id ds found = elim (Bool-cases (m.refuses status_row)) [
      | inl t ↦ rw t (keeps (refl, refl, omega arith))
      | inr f ↦ rw f (
          settles node (
            settle-Settles row approved (codes "approved") m.fresh (some (h.reader.ulid_encode id))
              (devices ds) refl found))
    ]

    token-Change :
        (row : PendingPairing) (id : DbId) (ds : List PairedDevice)
        → get node s.pending_pairings ≡ some row
        → Change s (approve_token h m node row id (devices ds)).0
    unfolding approve_token
    token-Change row id ds found = elim (Bool-cases (m.refuses token_row)) [
      | inl t ↦ rw t (keeps (refl, refl, omega arith))
      | inr f ↦ elim (Bool-cases (token_taken m.fresh id ds)) [
        | inl t ↦ rw (f, t) (keeps (refl, refl, omega arith))
        | inr g ↦ rw (f, g) (pending-Change row id (set_token m.fresh node id ds) found)
      ]
    ]

    device-Change :
        (row : PendingPairing) (id : DbId)
        → get node s.pending_pairings ≡ some row
        → Change s (approve_device h m node row id s).0
    unfolding approve_device
    device-Change row id found = elim (Bool-cases (m.refuses device_row)) [
      | inl t ↦ rw t (keeps (Keeps-refl s))
      | inr f ↦ rw f (
          token-Change row id (upsert_device (claimed_device m.clock id row) s.paired_devices)
            found)
    ]

    row-Change :
        (o : Option PendingPairing)
        → get node s.pending_pairings ≡ o
        → Change s (approve_row h m node o s).0
    unfolding approve_row
    row-Change none found = keeps (Keeps-refl s)
    row-Change (some row) found = device-Change row (device_of m.fresh_id row.device_id) found

    pub approve_claim-Change : Change s (approve_claim h m node s).0
    unfolding approve_claim
    approve_claim-Change = elim (Bool-cases (m.refuses pairing_table)) [
      | inl t ↦ rw t (keeps (Keeps-refl s))
      | inr f ↦ rw f (row-Change (get node s.pending_pairings) refl)
    ]

    reject_row-Change :
        (o : Option PendingPairing)
        → get node s.pending_pairings ≡ o
        → Change s (reject_row h m node o s).0
    unfolding reject_row
    reject_row-Change none found = keeps (Keeps-refl s)
    reject_row-Change (some row) found = elim (Bool-cases (m.refuses status_row)) [
      | inl t ↦ rw t (keeps (Keeps-refl s))
      | inr f ↦
          rw f (settles node (settle-Settles row rejected (codes "rejected") [] _ s refl found))
    ]

    pub reject_claim-Change : Change s (reject_claim h m node s).0
    unfolding reject_claim
    reject_claim-Change = elim (Bool-cases (m.refuses pairing_table)) [
      | inl t ↦ rw t (keeps (Keeps-refl s))
      | inr f ↦ rw f (reject_row-Change (get node s.pending_pairings) refl)
    ]
