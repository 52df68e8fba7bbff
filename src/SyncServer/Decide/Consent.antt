-- ===== src/SyncServer/Decide/Consent.antt =====
-- livtet-sync-server/src/daemon.rs: what an answer to an offer may change.
use livtet.Base.{
  ℕ, Bool, true, false, Option, none, some, List, [], ◌∷◌, ◌≡◌, refl, ap, ◌⊎◌, inl, inr, Bool-cases,
  if◌then◌else◌, ◌∙◌,
}
use livtet.Base.Text.{Text, codes, text_eq}
use livtet.Base.Assoc.{get, insert, get-insert_self, get-insert_other}
use livtet.Base.Result.{Result, ok, err, ok_or, ◌>>=◌}
use livtet.Sync.Types.{SyncChange, SyncError}
use livtet.Sync.Json.{Env}
use livtet.Sync.Store.{Db}
use livtet.Sync.Receive.{InventoryPaths, ApplyOutcome, apply_changes}
use livtet.SyncServer.Pull.{
  InboundOffer, ServerError, PullQuery, PullState, offer_lookup, decision_write,
}
use livtet.SyncServer.Pull.Pass.{Peer, Endpoint}
use livtet.SyncServer.Decide.{
  RpcFailure, Files, Decision, settled_offer, waiting_offer, in_rpc, directory, create, fetched,
  apply_held, applied_held, take_offer, settle_offer, handle_offers_decide,
}

module _ (env : Env) (device_id now : Text) (clock : ℕ) (refuses : PullQuery → Bool)
    (endpoint : Endpoint) (files : Files) where
  abbrev State : Type 0
  State = PullState env.Tables

  abbrev Answer : Type 0 → Type 0
  Answer A = Result (RpcFailure × State) A

  abbrev decide : Text → Bool → State → Answer (Decision × State)
  decide = handle_offers_decide env device_id now clock refuses endpoint files

  -- what holds of a value, and of the state that an error leaves
  unfoldable pub Ends : {A : Type 0} → (State → Type 0) → (A → Type 0) → Answer A → Type 0
  Ends Q P (ok a) = P a
  Ends Q P (err e) = Q e.1

  bind-Ends :
      {A B : Type 0} (Q : State → Type 0) (P : A → Type 0) (R : B → Type 0) (r : Answer A)
      (f : A → Answer B)
      → Ends Q P r
      → ((a : A) → P a → Ends Q R (f a))
      → Ends Q R (r >>= f)
  unfolding Ends
  bind-Ends Q P R (ok a) f h next = next a h
  bind-Ends Q P R (err e) f h next = h

  ok-Ends : {A : Type 0} (Q : State → Type 0) (P : A → Type 0) (a : A) → P a → Ends Q P (ok a)
  unfolding Ends
  ok-Ends Q P a h = h

  err-Ends :
      {A : Type 0} (Q : State → Type 0) (P : A → Type 0) (e : RpcFailure × State)
      → Q e.1
      → Ends Q P (err e)
  unfolding Ends
  err-Ends Q P e h = h

  abbrev Any : {A : Type 0} → A → Type 0
  Any _ = Unit {0}

  module _ (id : Text) (accepted : Bool) (s : State) where
    -- the offer as the reader found it
    abbrev pub Waiting : InboundOffer → Type 0
    Waiting row =
        (get id s.inbound_offers ≡ some row) × (text_eq row.status (codes "pending") ≡ true)

    -- the held rows were applied, where there are any
    abbrev pub Delivered : InboundOffer → Db env.Tables → Type 0
    Delivered row d =
        ((row.deferred_changes ≡ []) × (d ≡ s.db))
        ⊎ ((paths : Text × InventoryPaths) × (o : ApplyOutcome) × (apply_changes env now
                (paths ∷ []) row.deferred_changes s.db
              ≡ ok (d, o)))

    abbrev pub Changed : Bool → InboundOffer → Db env.Tables → Type 0
    Changed true row d = Delivered row d
    Changed false row d = d ≡ s.db

    -- the offers stay, and the database too, but for what an acceptance applied
    abbrev pub Failed : State → Type 0
    Failed t =
        (t.inbound_offers ≡ s.inbound_offers)
        × ((t.db ≡ s.db) ⊎ ((row : InboundOffer) × Waiting row × Changed accepted row t.db))

    -- the status that stands for the answer
    abbrev pub Says : Bool → Text → Type 0
    Says true status = status ≡ codes "accepted"
    Says false status = status ≡ codes "rejected"

    -- the row of the offer once it is answered: the answer and its time are in it, nothing is held
    -- any more, and the rest is as it was
    abbrev pub Answered : InboundOffer → InboundOffer → Type 0
    Answered row new =
        Says accepted new.status
        × (new.decided_at ≡ some now)
        × (new.deferred_changes ≡ [])
        × (record new {
          status = row.status;
          decided_at = row.decided_at;
          deferred_changes = row.deferred_changes;
        }
            ≡ row)

    abbrev pub Decided : Decision × State → Type 0
    Decided (d, t) =
        (row : InboundOffer) × (new : InboundOffer) × Waiting row
        × (get id t.inbound_offers ≡ some new)
        × Answered row new
        × ((other : Text)
            → text_eq id other ≡ false
            → get other t.inbound_offers ≡ get other s.inbound_offers)
        × Changed accepted row t.db
        × (d.accepted ≡ accepted)
        × (d.edition_id ≡ row.edition_id)

    Says-settled_offer : (b : Bool) (row : InboundOffer) → Says b (settled_offer now b row).status
    unfolding settled_offer
    Says-settled_offer true row = refl
    Says-settled_offer false row = refl

    Answered-settled_offer : (row : InboundOffer) → Answered row (settled_offer now accepted row)
    unfolding settled_offer
    Answered-settled_offer row = (Says-settled_offer accepted row, refl, refl, refl)

    -- the offers after the update
    insert-settled_offer :
        (row : InboundOffer) (offers : List (Text × InboundOffer))
        → offers ≡ s.inbound_offers
        → (get id (insert id (settled_offer now accepted row) offers)
            ≡ some (settled_offer now accepted row))
          × ((other : Text)
              → text_eq id other ≡ false
              → get other (insert id (settled_offer now accepted row) offers)
                ≡ get other s.inbound_offers)
    insert-settled_offer row offers e = (
      get-insert_self id (settled_offer now accepted row) offers,
      λ other n.
          get-insert_other other id (settled_offer now accepted row) offers n ∙ ap (get other) e,
    )

    -- where the handler starts
    abbrev begun : State
    begun = record s { applied = 0; conflicts = 0 }

    begun-Failed : Failed begun
    begun-Failed = (refl, inl refl)

    row-Ends :
        (missing : RpcFailure) (other : InboundOffer → RpcFailure) (o : Option InboundOffer)
        → get id s.inbound_offers ≡ o
        → Ends Failed Waiting (
            ok_or (missing, begun) o >>= λ row.
            if text_eq row.status (codes "pending") then ok row else err (other row, begun))
    unfolding Ends
    row-Ends missing other none q = begun-Failed
    row-Ends missing other (some row) q = elim (Bool-cases (text_eq row.status (codes "pending"))) [
      | inl t ↦ rw t ((q, t))
      | inr f ↦ rw f begun-Failed
    ]

    waiting_offer-Ends :
        Ends Failed Waiting (waiting_offer env device_id now clock refuses endpoint files id begun)
    unfolding waiting_offer
    waiting_offer-Ends = elim (Bool-cases (refuses offer_lookup)) [
      | inl t ↦ rw t (err-Ends Failed Waiting _ begun-Failed)
      | inr f ↦ rw f (row-Ends _ _ (get id s.inbound_offers) refl)
    ]

    in_rpc-Ends :
        {A : Type 0} (r : Result (ServerError × State) A)
        → Ends {A = A} Failed Any (in_rpc env device_id now clock refuses endpoint files begun r)
    unfolding Ends
    in_rpc-Ends (ok a) = tt
    in_rpc-Ends (err e) = begun-Failed

    directory-Ends :
        (name : Text) (dir : Option Text)
        → Ends Failed Any (directory env device_id now clock refuses endpoint files name dir begun)
    unfolding directory Ends
    directory-Ends name none = begun-Failed
    directory-Ends name (some dir) = tt

    create-Ends :
        (name dir : Text)
        → Ends Failed Any (create env device_id now clock refuses endpoint files name dir begun)
    unfolding create Ends
    create-Ends name dir = elim (Bool-cases (files.create_dir_all dir)) [
      | inl t ↦ rw t tt
      | inr f ↦ rw f begun-Failed
    ]

    fetched-Ends :
        (r : Result ServerError (Text × InventoryPaths))
        → Ends Failed Any (fetched env device_id now clock refuses endpoint files begun r)
    unfolding Ends
    fetched-Ends (ok r) = tt
    fetched-Ends (err e) = begun-Failed

    -- what is left of the state when the sender is told
    abbrev Taken : Bool → InboundOffer → State → Type 0
    Taken b row t = (t.inbound_offers ≡ s.inbound_offers) × Changed b row t.db

    applied-Ends :
        (row : InboundOffer) (paths : Text × InventoryPaths)
        (r : Result SyncError (Db env.Tables × ApplyOutcome))
        → apply_changes env now (paths ∷ []) row.deferred_changes s.db ≡ r
        → Ends Failed
            (Taken true row)
            (applied_held env device_id now clock refuses endpoint files begun r)
    unfolding Ends
    applied-Ends row paths (err e) q = begun-Failed
    applied-Ends row paths (ok (d, o)) q = (refl, inr (paths, o, q))

    apply_held-Ends :
        (row : InboundOffer) (paths : Text × InventoryPaths)
        → Ends Failed
            (Taken true row)
            (apply_held env device_id now clock refuses endpoint files row paths begun)
    unfolding apply_held
    apply_held-Ends row paths = go row.deferred_changes refl
      where
        go :
            (cs : List SyncChange)
            → row.deferred_changes ≡ cs
            → Ends Failed (Taken true row) (elim cs as (λ _. Answer State) [
              | [] ↦ ok begun
              | _ ∷ _ ↦
                  applied_held env device_id now clock refuses endpoint files begun
                    (apply_changes env now (paths ∷ []) row.deferred_changes s.db)
            ])
        go [] q = ok-Ends Failed (Taken true row) begun (refl, inl (q, refl))
        go (c ∷ cs) q = applied-Ends row paths _ refl

    take_offer-Ends :
        (peer : Peer) (row : InboundOffer)
        → Ends Failed
            (Taken true row)
            (take_offer env device_id now clock refuses endpoint files peer row begun)
    unfolding take_offer
    take_offer-Ends peer row =
        bind-Ends Failed Any (Taken true row) _ _ (directory-Ends (codes "books") files.books_dir)
          (λ books_dir _.
            bind-Ends Failed Any (Taken true row) _ _
              (directory-Ends (codes "covers") files.covers_dir)
              (λ covers_dir _.
                bind-Ends Failed Any (Taken true row) _ _ (create-Ends (codes "books") books_dir)
                  (λ _ _.
                    bind-Ends Failed Any (Taken true row) _ _
                      (create-Ends (codes "covers") covers_dir)
                      (λ _ _.
                        bind-Ends Failed Any (Taken true row) _ _ (fetched-Ends _)
                          (λ paths _. apply_held-Ends row paths)))))

    either_way :
        (b : Bool) (peer : Peer) (row : InboundOffer)
        → Ends Failed (Taken b row) (
            if b
            then take_offer env device_id now clock refuses endpoint files peer row begun
            else ok begun)
    either_way true peer row = take_offer-Ends peer row
    either_way false peer row = ok-Ends Failed (Taken false row) begun (refl, refl)

    settle_offer-Ends :
        (peer : Peer) (row : InboundOffer) (t : State)
        → Waiting row
        → Taken accepted row t
        → Ends Failed Decided
            (settle_offer env device_id now clock refuses endpoint files peer id accepted row t)
    unfolding settle_offer Ends
    settle_offer-Ends peer row t w h = elim (Bool-cases (refuses decision_write)) [
      | inl e ↦ rw e ((h.0, inr (row, w, h.1)))
      | inr e ↦
          let after = insert-settled_offer row t.inbound_offers h.0 in
          rw e (
            (
              row,
              settled_offer now accepted row,
              w,
              after.0,
              Answered-settled_offer row,
              after.1,
              h.1,
              refl,
              refl,
            ))
    ]

    -- The reader's answer, whatever the peer, the files and the database do. It succeeds only on an
    -- offer that waits: then that offer's row carries the answer and its time, holds no changes any
    -- more and is otherwise as it was, and the other offers stay. A refusal leaves the database as it was, and an acceptance applies the
    -- changes that were held, and no others. An error leaves every offer as it was, and the database
    -- too, unless it came when the held changes had been applied.
    pub handle_offers_decide-Decided : Ends Failed Decided (decide id accepted s)
    unfolding handle_offers_decide
    handle_offers_decide-Decided = bind-Ends Failed Waiting Decided _ _ waiting_offer-Ends (λ row w.
        bind-Ends Failed Any Decided _ _ (in_rpc-Ends _) (λ peer _.
          bind-Ends Failed (Taken accepted row) Decided _ _ (either_way accepted peer row)
            (λ t h. settle_offer-Ends peer row t w h)))
