-- ===== src/SyncServer/Pairing/Decisions.antt =====
-- What a decision leaves for the claimant, and what the claimant is told.
use livtet.Base.{ℕ, ◌+◌, length, ◌<◌, true, false, Option, none, some, ◌≡◌, refl, arith}
use livtet.Base.Text.{Text, codes, text_eq, text_eq_refl}
use livtet.Base.Assoc.{get, remove, get-insert_self, get-retain}
use livtet.SyncServer.Pairing.{
  pair_decision_ttl, DecidedPairing, PairWaiters, PairDecisions, is_fresh, prune, evict,
  record_decision, decide_waiter, apply_pairing_decision, of_node, decided,
}

-- the decision that is recorded for a waiter
abbrev pub decision_of : Text → Text → Text → Option Text → ℕ → DecidedPairing
decision_of node decision token device now = record {
  node_id = node;
  approved = text_eq decision (codes "approved");
  device_id = device;
  session_token = token;
  decided_at = now;
}

pub apply_pairing_decision-waiting :
    (now : ℕ) (node claim decision token : Text) (device : Option Text) (waiters : PairWaiters)
    (decisions : PairDecisions)
    → get node waiters ≡ some claim
    → apply_pairing_decision now node decision token device waiters decisions ≡ (
      (
        remove node waiters,
        record_decision now claim (decision_of node decision token device now) decisions,
      ),
      true,
    )
unfolding apply_pairing_decision decide_waiter
apply_pairing_decision-waiting now node claim decision token device waiters decisions e = rw e refl

pub get-record_decision :
    (now : ℕ) (claim : Text) (d : DecidedPairing) (m : PairDecisions)
    → get claim (record_decision now claim d m) ≡ some d
unfolding record_decision
get-record_decision now claim d m =
    let kept = prune now m in get-insert_self {0} claim d (evict (length kept) kept)

fresh_lem :
    (later : ℕ) (d : DecidedPairing)
    → later < d.decided_at + pair_decision_ttl
    → is_fresh later d ≡ true
fresh_lem later d h = ground arith

-- The claim of the node is told within the window.
pub decided-in_time :
    (later : ℕ) (claim node : Text) (d : DecidedPairing) (m : PairDecisions)
    → get claim m ≡ some d
    → d.node_id ≡ node
    → later < d.decided_at + pair_decision_ttl
    → (decided later claim node m).1 ≡ some d
unfolding decided prune of_node
decided-in_time later claim node d m e n h =
    rw (get-retain {0} (is_fresh later) claim d m e (fresh_lem later d h))
      (rw n (rw (text_eq_refl node) refl))

pub apply_pairing_decision-absent :
    (now : ℕ) (node decision token : Text) (device : Option Text) (waiters : PairWaiters)
    (decisions : PairDecisions)
    → get node waiters ≡ none
    → apply_pairing_decision now node decision token device waiters decisions
      ≡ ((waiters, decisions), false)
unfolding apply_pairing_decision decide_waiter
apply_pairing_decision-absent now node decision token device waiters decisions e = rw e refl
