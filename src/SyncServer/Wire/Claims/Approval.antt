-- ===== src/SyncServer/Wire/Claims/Approval.antt =====
-- From the reader's approval to the claimant's first request.
use livtet.Base.{
  ◌+◌, ◌<◌, Bool, true, false, none, some, List, [], ◌∷◌, ◌≡◌, refl, ap, ◌∙◌, length, Bool-cases,
  inl, inr, arith,
}
use livtet.Base.Text.{Text, codes, text_eq, text_eq_iff, text_eq_refl, trim, is_empty}
use livtet.Base.Assoc.{get, get-remove_self}
use livtet.Base.Result.{ok}
use livtet.Sync.Json.{Env}
use livtet.SyncIroh.Messages.{paired, reply}
use livtet.SyncServer.Pairing.{
  pair_decision_ttl, PairWaiters, PairDecisions, DecidedPairing, response,
}
use livtet.SyncServer.Pairing.Decisions.{
  decision_of, apply_pairing_decision-waiting, get-record_decision, decided-in_time,
}
use livtet.SyncServer.Pairs.{
  holds, token_taken, set_token, ClaimApproval, claimed_device, settle, approve_claim,
}
use livtet.SyncServer.Pairs.Approval.{
  has_device, has_device-upsert_device, id_for, device_rows, approved_state, approve_claim-Settled,
}
use livtet.SyncServer.Wire.Access.Sessions.{authorize-found}
use livtet.SyncServer.WireState.{
  DbId, PairedDevice, PendingPairing, WireState, authorization, Moment, Host,
}
use livtet.SyncServer.Wire.Access.{answer_reply, has_session, find_session, authorize}
use livtet.SyncServer.Wire.Claims.{status_of_claim, status_answer, is_waiting}

other_holds :
    (token : Text) (id : DbId) (d : PairedDevice) (ds : List PairedDevice)
    → text_eq d.device_id id ≡ false
    → token_taken token id (d ∷ ds) ≡ false
    → (holds token d.session_token ≡ false) × (token_taken token id ds ≡ false)
unfolding token_taken
other_holds token id d ds e t = ground arith

same_taken :
    (token : Text) (id : DbId) (d : PairedDevice) (ds : List PairedDevice)
    → token_taken token id (d ∷ ds) ≡ false
    → token_taken token id ds ≡ false
unfolding token_taken
same_taken token id d ds t = ground arith

no_session :
    (token node : Text) (d : PairedDevice)
    → holds token d.session_token ≡ false
    → has_session token node d ≡ false
no_session token node d e = rw e refl

-- A token that no other device has finds the device that it was written to.
find_session-set_token :
    (token node : Text) (id : DbId) (ds : List PairedDevice)
    → token_taken token id ds ≡ false
    → has_device id ds ≡ true
    → (d : PairedDevice) × (find_session token node (set_token token node id ds) ≡ some d)
      × (d.device_id ≡ id)
unfolding find_session set_token
find_session-set_token token node id [] t e = cc
find_session-set_token token node id (d ∷ ds) t e = elim (Bool-cases (text_eq d.device_id id)) [
  | inl same ↦ (
    record d { session_token = some token; node_id = some node },
    rw same (rw (text_eq_refl token, text_eq_refl node) refl),
    (text_eq_iff d.device_id id).0 same,
  )
  | inr other ↦
      let (free, rest) = other_holds token id d ds other t in
      let r = find_session-set_token token node id ds rest (rw other at e) in
      (r.0, rw other (rw (no_session token node d free) r.1), r.2)
]

module _ {env : Env} (h : Host env) (m later : Moment) (node claim : Text) where
  -- A claimant that waits no more is told what was decided, if it asks in time.
  status-decided :
      (s : WireState env.Tables) (d : DecidedPairing)
      → get node s.pair_waiters ≡ none
      → get claim s.pair_decisions ≡ some d
      → d.node_id ≡ node
      → later.now < d.decided_at + pair_decision_ttl
      → (status_of_claim h later node claim s).0.outcome.response ≡ response d
  unfolding status_of_claim status_answer answer_reply reply
  status-decided s d w e n t =
      rw w (rw (decided-in_time later.now claim node d s.pair_decisions e n t) refl)

  status_paired_devices :
      (s : WireState env.Tables)
      → (status_of_claim h later node claim s).1.paired_devices ≡ s.paired_devices
  unfolding status_of_claim
  status_paired_devices s = elim (Bool-cases (is_waiting claim (get node s.pair_waiters))) [
    | inl t ↦ rw t refl
    | inr f ↦ rw f refl
  ]

  module _ (s : WireState env.Tables) (row : PendingPairing) where
    abbrev device : Text
    device = h.reader.ulid_encode (id_for h m node s row)

    abbrev decision : DecidedPairing
    decision = decision_of node (codes "approved") m.fresh (some device) m.now

    told :
        get node s.pair_waiters ≡ some claim
        → later.now < m.now + pair_decision_ttl
        → (status_of_claim h later node claim (approved_state h m node s row)).0.outcome.response
          ≡ paired device m.fresh
    unfolding settle response text_eq
    told w t =
        let p =
          apply_pairing_decision-waiting m.now node claim (codes "approved") m.fresh (some device)
            s.pair_waiters s.pair_decisions w in
        status-decided (approved_state h m node s row) decision
          (ap (λ (x : (PairWaiters × PairDecisions) × Bool). get node x.0.0) p
            ∙ get-remove_self {0} node s.pair_waiters)
          (ap (λ (x : (PairWaiters × PairDecisions) × Bool). get claim x.0.1) p
            ∙ get-record_decision m.now claim decision s.pair_decisions)
          refl t

    -- the token of the approval opens a session
    opens :
        (polled : WireState env.Tables)
        → polled.paired_devices
          ≡ set_token m.fresh node (id_for h m node s row) (device_rows h m node s row)
        → token_taken m.fresh (id_for h m node s row) (device_rows h m node s row) ≡ false
        → later.refuses authorization ≡ false
        → trim m.fresh ≡ m.fresh
        → is_empty m.fresh ≡ false
        → length (id_for h m node s row) ≡ 16
        → authorize h later polled m.fresh node ≡ ok device
    unfolding claimed_device
    opens polled p t r trimmed e n =
        let id = id_for h m node s row in
        let found =
          find_session-set_token m.fresh node id (device_rows h m node s row) t
            (has_device-upsert_device (claimed_device m.clock id row) s.paired_devices) in
        authorize-found h later polled m.fresh node found.0 r (rw trimmed e)
          (rw (trimmed, p) found.1) (ap length found.2 ∙ n)
        ∙ ap (λ (x : DbId). ok (h.reader.ulid_encode x)) found.2

  -- An approval that succeeds reaches the claimant that waits under this claim: if it asks within
  -- the window it is told the device id and the token of the approval, and in the state after the
  -- poll that token authorizes it as that device. The fresh token is a text with no space around it,
  -- an id has sixteen bytes, and the database answers the lookup.
  pub approve_claim-authorize :
      (s : WireState env.Tables) {a : ClaimApproval}
      → (approve_claim h m node s).1 ≡ ok a
      → get node s.pair_waiters ≡ some claim
      → later.now < m.now + pair_decision_ttl
      → later.refuses authorization ≡ false
      → trim m.fresh ≡ m.fresh
      → is_empty m.fresh ≡ false
      → ((row : PendingPairing)
          → get node s.pending_pairings ≡ some row
          → length (id_for h m node s row) ≡ 16)
      → let polled = status_of_claim h later node claim (approve_claim h m node s).0 in
        (polled.0.outcome.response ≡ paired a.device_id a.session_token)
        × (authorize h later polled.1 a.session_token node ≡ ok a.device_id)
  approve_claim-authorize s e w t r trimmed given sixteen =
      let (row, found, settled) = approve_claim-Settled h m node s e in
      let (free, a_is, s_is) = settled in
      let polled = status_of_claim h later node claim (approved_state h m node s row) in
      rw (s_is, a_is)
        (
          told s row w t,
          opens s row polled.1 (status_paired_devices (approved_state h m node s row) ∙ kept row)
              free r trimmed given (sixteen row found),
        )
    where
      kept :
          (row : PendingPairing)
          → (approved_state h m node s row).paired_devices
            ≡ set_token m.fresh node (id_for h m node s row) (device_rows h m node s row)
      kept row = unfold settle in refl
