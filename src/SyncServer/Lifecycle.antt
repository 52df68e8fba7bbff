-- ===== src/SyncServer/Lifecycle.antt =====
-- The server as a state machine: peers send requests, and the reader approves and rejects claims,
-- in any order. A step is one whole call: the model has no interleaving inside a call.
use livtet.Base.{Option, [], ◌≡◌, none, some, arith}
use livtet.Base.Text.{Text}
use livtet.Base.Assoc.{get}
use livtet.Sync.Json.{Env}
use livtet.SyncIroh.Messages.{Request}
use livtet.SyncServer.Changes.{ClaimState, view, Move, Change}
use livtet.SyncServer.Changes.Laws.{Change-Move, IsSound, Change-IsSound}
use livtet.SyncServer.Pairs.{approve_claim, reject_claim}
use livtet.SyncServer.Pairs.Settling.{approve_claim-Change, reject_claim-Change}
use livtet.SyncServer.WireState.{WireState, Moment, Host}
use livtet.SyncServer.Wire.Dispatch.{answer}
use livtet.SyncServer.Wire.Dispatch.Answers.{answer-Change}

-- a claim's way through its life
pub data Moves (c : ClaimState) : ClaimState → Type 0 where
  unmoved : Moves c c
  moved : {d e : ClaimState} → Moves c d → Move d e → Moves c e

module _ {env : Env} (h : Host env) where
  -- A request of a node, or a decision of the reader; what each finds is any moment.
  pub data Step (s t : WireState env.Tables) : Type 0 where
    served :
        (m : Moment) (request : Request) (remote : Text)
        → t ≡ (answer h m request remote s).1
        → Step s t
    approved : (m : Moment) (node : Text) → t ≡ (approve_claim h m node s).0 → Step s t
    rejected : (m : Moment) (node : Text) → t ≡ (reject_claim h m node s).0 → Step s t

  pub data Reach (s : WireState env.Tables) : WireState env.Tables → Type 0 where
    here : Reach s s
    next : {t u : WireState env.Tables} → Reach s t → Step t u → Reach s u

  Step-Change : {s t : WireState env.Tables} → Step s t → Change s t
  Step-Change {s} (served m request remote e) = rw e (answer-Change h m s request remote)
  Step-Change {s} (approved m node e) = rw e (approve_claim-Change h m node s)
  Step-Change {s} (rejected m node e) = rw e (reject_claim-Change h m node s)

  -- The server refines the life of a claim: in any run, a node's claim goes from absent to waiting
  -- to decided, one of these moves at a time and never back.
  pub Reach-Moves :
      {s t : WireState env.Tables} → Reach s t → (node : Text) → Moves (view node s) (view node t)
  Reach-Moves here node = unmoved
  Reach-Moves (next run step) node =
      moved (Reach-Moves run node) (Change-Move (Step-Change step) node)

  Reach-keeps_IsSound : {s t : WireState env.Tables} → IsSound s → Reach s t → IsSound t
  Reach-keeps_IsSound sound here = sound
  Reach-keeps_IsSound sound (next {t} {u} run step) =
      Change-IsSound t u (Reach-keeps_IsSound sound run) (Step-Change step)

  -- From a start with no waiters and no decisions, whatever the tables hold, every run keeps at most
  -- 256 decisions, and a node that has a waiter has a claim that waits for the reader.
  pub Reach-IsSound :
      {s t : WireState env.Tables}
      → s.pair_waiters ≡ []
      → s.pair_decisions ≡ []
      → Reach s t
      → IsSound t
  unfolding get
  Reach-IsSound {s} w d run = Reach-keeps_IsSound start run
    where
      none_some : {c : Text} → ◌≡◌ {A = Option Text} none (some c) → ⊥
      none_some p = cc

      start : IsSound s
      start = record {
        bounded = rw d (omega arith);
        waiters = λ node claim e. absurd (none_some (rw (w, get) at e));
      }
