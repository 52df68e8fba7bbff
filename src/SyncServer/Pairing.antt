-- ===== src/SyncServer/Pairing.antt =====
-- livtet-sync-server/src/pairing.rs: the claims that wait for the reader, and the decisions that a
-- claimant may still ask for. Instants are in milliseconds. Nobody listens on a waiter's broadcast
-- channel, so a waiter is its claim.
pub mod Bounds
pub mod Decisions
use livtet.Base.{
  ℕ, zero, suc, ◌-◌, Bool, true, false, Option, none, some, List, [], ◌∷◌, ltb, leb, if◌then◌else◌,
  length,
}
use livtet.Base.Text.{Text, codes, text_eq}
use livtet.Base.Assoc.{get, insert, remove, retain}
use livtet.SyncIroh.Messages.{Response, paired, refused}

abbrev pub pair_decision_ttl : ℕ
pair_decision_ttl = 300000

abbrev pub pair_decision_cap : ℕ
pair_decision_cap = 256

pub record DecidedPairing : Type 0 where
  pub node_id : Text
  pub approved : Bool
  pub device_id : Option Text
  pub session_token : Text
  pub decided_at : ℕ

abbrev pub PairWaiters : Type 0
PairWaiters = List (Text × Text)

abbrev pub PairDecisions : Type 0
PairDecisions = List (Text × DecidedPairing)

-- `unwrap_or_default`
abbrev pub or_empty : Option Text → Text
or_empty none = []
or_empty (some t) = t

unfoldable pub response : {F : Type 0} → DecidedPairing → Response F
response d =
    if d.approved
    then paired (or_empty d.device_id) d.session_token
    else refused (codes "the pairing was rejected")

-- `duration_since` is 0 for a later instant.
abbrev pub is_fresh : ℕ → DecidedPairing → Bool
is_fresh now d = ltb (now - d.decided_at) pair_decision_ttl

unfoldable pub prune : ℕ → PairDecisions → PairDecisions
prune now m = retain (is_fresh now) m

-- `min_by_key` on `decided_at`
oldest_from : Text → ℕ → PairDecisions → Text
oldest_from claim at [] = claim
oldest_from claim at ((k, d) ∷ m) =
    let older = ltb d.decided_at at in
    oldest_from (if older then k else claim) (if older then d.decided_at else at) m

unfoldable pub oldest : PairDecisions → Option Text
unfolding oldest_from
oldest [] = none
oldest ((k, d) ∷ m) = some (oldest_from k d.decided_at m)

remove_some : Option Text → PairDecisions → PairDecisions
remove_some none m = m
remove_some (some claim) m = remove claim m

-- `while map.len() >= PAIR_DECISION_CAP`, on fuel for as many rounds
unfoldable pub evict : ℕ → PairDecisions → PairDecisions
unfolding remove_some
evict zero m = m
evict (suc fuel) m =
    let rest = evict fuel (remove_some (oldest m) m) in
    if leb pair_decision_cap (length m) then rest else m

unfoldable pub record_decision : ℕ → Text → DecidedPairing → PairDecisions → PairDecisions
record_decision now claim d m = let kept = prune now m in insert claim d (evict (length kept) kept)

-- on the waiter of the node
decide_waiter :
    ℕ
    → Option Text
    → Text
    → Text
    → Text
    → Option Text
    → PairWaiters
    → PairDecisions
    → (PairWaiters × PairDecisions) × Bool
decide_waiter now none node_id decision session_token device_id waiters decisions =
    ((waiters, decisions), false)
decide_waiter now (some claim) node_id decision session_token device_id waiters decisions = (
  (
    remove node_id waiters,
    record_decision now claim
        (record {
          node_id = node_id;
          approved = text_eq decision (codes "approved");
          device_id = device_id;
          session_token = session_token;
          decided_at = now;
        })
        decisions,
  ),
  true,
)

unfoldable pub apply_pairing_decision :
    ℕ
    → Text
    → Text
    → Text
    → Option Text
    → PairWaiters
    → PairDecisions
    → (PairWaiters × PairDecisions) × Bool
unfolding decide_waiter
apply_pairing_decision now node_id decision session_token device_id waiters decisions =
    decide_waiter now (get node_id waiters) node_id decision session_token device_id waiters
      decisions

-- `.filter(|decided| decided.node_id == node_id)`
unfoldable pub of_node : Text → Option DecidedPairing → Option DecidedPairing
of_node node_id none = none
of_node node_id (some d) = if text_eq d.node_id node_id then some d else none

unfoldable pub decided : ℕ → Text → Text → PairDecisions → PairDecisions × Option DecidedPairing
decided now claim node_id m = let kept = prune now m in (kept, of_node node_id (get claim kept))

pub record OfferDecision : Type 0 where
  pub offer_id : Text
  pub device_id : Text
  pub accepted : Bool
