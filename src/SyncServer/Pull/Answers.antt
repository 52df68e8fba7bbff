-- ===== src/SyncServer/Pull/Answers.antt =====
-- livtet-sync-server/src/daemon.rs: the offers of the store through a pull pass. The answers to them
-- are the reader's alone.
use livtet.Base.{
  Bool, true, false, not, Option, none, some, List, [], ◌∷◌, ◌≡◌, refl, sym, ap, ◌∙◌, Bool-cases,
  inl, inr, if◌then◌else◌,
}
use livtet.Base.Text.{Text, codes, text_eq, text_eq_iff}
use livtet.Base.Int.{ℤ}
use livtet.Base.Assoc.{get, insert, get-insert_self, get-insert_other}
use livtet.Base.Result.{Result, ok, err, ok_or, ◌>>=◌}
use livtet.Sync.Types.{SyncChange, PullResponse, SyncError}
use livtet.Sync.Json.{Env}
use livtet.Sync.Store.{Db}
use livtet.Sync.Receive.{ApplyOutcome}
use livtet.SyncServer.Wire.Access.{payload_text}
use livtet.SyncServer.Pull.{
  InboundOffer, ServerError, PullQuery, PullState, Outcome, fail, offer_lookup, offer_write,
  cursor_write, is_answered, updated_offer, offer_of, write_offer, record_inbound_offer,
  record_offers, write_cursor, applied_state, apply_metadata, pull_page,
}

-- What a pull may do to the row of one offer: a new one waits for the reader, a row stays, with its
-- answer and the times of its receipt and of its answer, and an answered row stays as it is.
abbrev pub Fate : Option InboundOffer → Option InboundOffer → Type 0
Fate none none = Unit {0}
Fate none (some o) = o.status ≡ codes "pending"
Fate (some o) none = ⊥
Fate (some o) (some o') =
    (o'.status ≡ o.status)
    × (o'.decided_at ≡ o.decided_at)
    × (o'.received_at ≡ o.received_at)
    × (is_answered (some o) ≡ true → o' ≡ o)

pub Fate-refl : (o : Option InboundOffer) → Fate o o
Fate-refl none = tt
Fate-refl (some o) = (refl, refl, refl, λ _. refl)

-- an offer that comes again
Fate-updated :
    (before now : Option InboundOffer) (new : InboundOffer)
    → new.status ≡ codes "pending"
    → is_answered now ≡ false
    → Fate before now
    → Fate before (some (updated_offer new now))
unfolding updated_offer
Fate-updated none none new p u h = p
Fate-updated none (some o) new p u h = h
Fate-updated (some b) none new p u h = absurd h
Fate-updated (some b) (some o) new p u h = (
  h.0,
  h.1,
  h.2,
  λ a.
      let e : true ≡ false =
        sym a ∙ ap (λ (t : Text). not (text_eq t (codes "pending"))) (sym h.0) ∙ u in
      cc,
)

module _ (env : Env) (device_id now : Text) (refuses : PullQuery → Bool) (id : Text)
    (before : Option InboundOffer) where
  abbrev State : Type 0
  State = PullState env.Tables

  abbrev pub Keeps : State → Type 0
  Keeps s = Fate before (get id s.inbound_offers)

  -- what holds of a result, and of the state that an error leaves
  unfoldable pub Ends : {A : Type 0} → (A → Type 0) → Outcome env.Tables A → Type 0
  Ends P (ok a) = P a
  Ends P (err e) = Keeps e.1

  pub bind-Ends :
      {A B : Type 0} (P : A → Type 0) (Q : B → Type 0) (r : Outcome env.Tables A)
      (f : A → Outcome env.Tables B)
      → Ends P r
      → ((a : A) → P a → Ends Q (f a))
      → Ends Q (r >>= f)
  unfolding Ends
  bind-Ends P Q (ok a) f h next = next a h
  bind-Ends P Q (err e) f h next = h

  -- the fields that an offer must have
  required-Ends :
      (s : State) (e e' e'' e3 : ServerError) (a b c d : Option Text)
      (f : Text → Text → Text → Text → Outcome env.Tables State)
      → Keeps s
      → ((w x y z : Text) → Ends Keeps (f w x y z))
      → Ends Keeps (
          ok_or (e, s) a >>= λ w.
          ok_or (e', s) b >>= λ x. ok_or (e'', s) c >>= λ y. ok_or (e3, s) d >>= λ z. f w x y z)
  unfolding Ends
  required-Ends s e e' e'' e3 none b c d f h k = h
  required-Ends s e e' e'' e3 (some w) none c d f h k = h
  required-Ends s e e' e'' e3 (some w) (some x) none d f h k = h
  required-Ends s e e' e'' e3 (some w) (some x) (some y) none f h k = h
  required-Ends s e e' e'' e3 (some w) (some x) (some y) (some z) f h k = k w x y z

  written-Ends :
      (lookup answered refused : Bool) (m m' : Text) (s s' : State)
      → Keeps s
      → (answered ≡ false → Keeps s')
      → Ends Keeps (
          if lookup
          then fail m s
          else if answered
          then ok s
          else if refused
          then fail m' s
          else ok s')
  unfolding Ends
  written-Ends true answered refused m m' s s' h h' = h
  written-Ends false true refused m m' s s' h h' = h
  written-Ends false false true m m' s s' h h' = h
  written-Ends false false false m m' s s' h h' = h' refl

  -- the row of one offer where another is written, or this one again
  stored-Fate :
      (offer_id : Text) (o : InboundOffer) (m : List (Text × InboundOffer))
      → o.status ≡ codes "pending"
      → is_answered (get offer_id m) ≡ false
      → Fate before (get id m)
      → Fate before (get id (insert offer_id (updated_offer o (get offer_id m)) m))
  stored-Fate offer_id o m p u h = elim (Bool-cases (text_eq offer_id id)) [
    | inl t ↦
        let q = (text_eq_iff offer_id id).0 t in
        rw (q, get-insert_self id (updated_offer o (get id m)) m)
          (Fate-updated before (get id m) o p (ap (λ (w : Text). is_answered (get w m)) (sym q) ∙ u)
            h)
    | inr f ↦ rw (get-insert_other id offer_id (updated_offer o (get offer_id m)) m f) h
  ]

  write_offer-Keeps :
      (offer_id : Text) (o : InboundOffer) (s : State)
      → o.status ≡ codes "pending"
      → Keeps s
      → Ends Keeps (write_offer env device_id now refuses offer_id o s)
  unfolding write_offer
  write_offer-Keeps offer_id o s p h =
      written-Ends (refuses offer_lookup) (is_answered (get offer_id s.inbound_offers))
        (refuses offer_write) _ _ s _ h (λ u. stored-Fate offer_id o s.inbound_offers p u h)

  record_inbound_offer-Keeps :
      (c : SyncChange) (held : List SyncChange) (s : State)
      → Keeps s
      → Ends Keeps (record_inbound_offer env device_id now refuses c held s)
  unfolding record_inbound_offer offer_of
  record_inbound_offer-Keeps c held s h =
      let field : Text → Option Text = λ key. payload_text key (env.parse_json c.payload) in
      required-Ends s _ _ _ _ (field (codes "offer_id")) (field (codes "inventory_id"))
        (field (codes "edition_id")) (field (codes "work_id"))
        (λ offer_id inventory_id edition_id work_id.
          write_offer env device_id now refuses offer_id
            (offer_of env device_id now refuses c inventory_id edition_id work_id held) s)
        h
        (λ offer_id inventory_id edition_id work_id.
          write_offer-Keeps offer_id
            (offer_of env device_id now refuses c inventory_id edition_id work_id held) s refl h)

  record_offers-Keeps :
      (deferred cs : List SyncChange) (s : State)
      → Keeps s
      → Ends Keeps (record_offers env device_id now refuses deferred cs s)
  unfolding record_offers Ends
  record_offers-Keeps deferred [] s h = h
  record_offers-Keeps deferred (c ∷ cs) s h =
      bind-Ends Keeps Keeps _ _ (record_inbound_offer-Keeps c _ s h)
        (λ s' h'. record_offers-Keeps deferred cs s' h')

  pub write_cursor-Keeps :
      (version : ℤ) (s : State)
      → Keeps s
      → Ends Keeps (write_cursor env device_id now refuses version s)
  unfolding write_cursor Ends
  write_cursor-Keeps version s h = elim (Bool-cases (refuses cursor_write)) [
    | inl t ↦ rw t h
    | inr f ↦ rw f h
  ]

  applied_state-Keeps :
      (s : State) (r : Result SyncError (Db env.Tables × ApplyOutcome))
      → Keeps s
      → Ends Keeps (applied_state env device_id now refuses s r)
  unfolding Ends
  applied_state-Keeps s (err e) h = h
  applied_state-Keeps s (ok o) h = h

  apply_metadata-Keeps :
      (cs : List SyncChange) (s : State)
      → Keeps s
      → Ends Keeps (apply_metadata env device_id now refuses cs s)
  unfolding apply_metadata Ends
  apply_metadata-Keeps [] s h = h
  apply_metadata-Keeps (c ∷ cs) s h = applied_state-Keeps s _ h

  pub pull_page-Keeps :
      (page : PullResponse) (s : State)
      → Keeps s
      → Ends Keeps (pull_page env device_id now refuses page s)
  unfolding pull_page
  pull_page-Keeps page s h =
      bind-Ends Keeps Keeps _ _
        (bind-Ends Keeps Keeps _ _ (apply_metadata-Keeps _ s h)
          (λ s' h'. record_offers-Keeps _ _ s' h'))
        (λ s' h'. write_cursor-Keeps page.latest_version s' h')
