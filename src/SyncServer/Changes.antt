-- ===== src/SyncServer/Changes.antt =====
-- What a request or a decision of the reader does to the claims: the life of one node's claim, and
-- the three kinds of change to the tables and maps behind it.
pub mod Laws
use livtet.Base.{
  ℕ, ◌+◌, ◌≤◌, Bool, true, false, Option, none, some, List, ◌≡◌, ◌≢◌, refl, if◌then◌else◌, length,
  arith,
}
use livtet.Base.Text.{Text, text_eq}
use livtet.Base.Assoc.{get, insert}
use livtet.SyncServer.Pairing.{pair_decision_cap}
use livtet.SyncServer.Pairs.{is_pending}
use livtet.SyncServer.WireState.{PendingPairing, WireState}

pub data ClaimState : Type 0 where
  absent waiting decided : ClaimState

unfoldable pub state_of : Option PendingPairing → ClaimState
state_of none = absent
state_of (some row) = if is_pending row.status_id then waiting else decided

unfoldable pub view : {T : Type 0} → Text → WireState T → ClaimState
unfolding state_of
view node s = state_of (get node s.pending_pairings)

-- The life of a claim: it is filed, it waits, and it is decided.
pub data Move : ClaimState → ClaimState → Type 0 where
  stay : {c : ClaimState} → Move c c
  file_claim : Move absent waiting
  decide : Move waiting decided

module _ {T : Type 0} where
  -- The same claims, the same waiters, and no more decisions.
  abbrev pub Keeps : WireState T → WireState T → Type 0
  Keeps s t =
      (t.pending_pairings ≡ s.pending_pairings)
      × (t.pair_waiters ≡ s.pair_waiters)
      × (length t.pair_decisions ≤ length s.pair_decisions)

  pub Keeps-refl : (s : WireState T) → Keeps s s
  Keeps-refl s = (refl, refl, omega arith)

  -- A claim of the node that was not decided waits under a new secret.
  abbrev pub Filed : Text → WireState T → WireState T → Type 0
  Filed node s t =
      (row : PendingPairing) × (claim : Text) × (view node s ≢ decided)
      × (is_pending row.status_id ≡ true)
      × (t.pending_pairings ≡ insert node row s.pending_pairings)
      × (t.pair_waiters ≡ insert node claim s.pair_waiters)
      × (length t.pair_decisions ≤ length s.pair_decisions)

  -- The claim of the node is decided: it waits no more, and the others wait as before.
  abbrev pub Settles : Text → WireState T → WireState T → Type 0
  Settles node s t =
      (row : PendingPairing) × (view node s ≢ absent)
      × (is_pending row.status_id ≡ false)
      × (t.pending_pairings ≡ insert node row s.pending_pairings)
      × (get node t.pair_waiters ≡ none)
      × ((other : Text)
          → text_eq node other ≡ false
          → get other t.pair_waiters ≡ get other s.pair_waiters)
      × (length s.pair_decisions ≤ pair_decision_cap → length t.pair_decisions ≤ pair_decision_cap)

  pub data Change (s t : WireState T) : Type 0 where
    keeps : Keeps s t → Change s t
    files : (node : Text) → Filed node s t → Change s t
    settles : (node : Text) → Settles node s t → Change s t
