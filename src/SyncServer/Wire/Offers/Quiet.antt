-- ===== src/SyncServer/Wire/Offers/Quiet.antt =====
-- A decision on an offer leaves the claims alone.
use livtet.Base.{Bool, Option, none, some, refl, Bool-cases, inl, inr, arith}
use livtet.Base.Text.{Text, codes}
use livtet.Sync.Types.{SyncChange}
use livtet.Sync.Json.{Env}
use livtet.SyncServer.Changes.{Keeps, Keeps-refl}
use livtet.SyncServer.Pairs.{holds}
use livtet.SyncServer.WireState.{WireState, offer_lookup, Moment, Host}
use livtet.SyncServer.Wire.Access.{payload_text}
use livtet.SyncServer.Wire.Offers.{find_offer, decide_offer, answer_offer}

module _ {env : Env} (h : Host env) (m : Moment) (offer_id device : Text) (accepted : Bool) where
  decide-Keeps :
      (s : WireState env.Tables) (o : Option SyncChange)
      → Keeps s (decide_offer h m offer_id device accepted o s).1
  unfolding decide_offer
  decide-Keeps s none = Keeps-refl s
  decide-Keeps s (some c) =
      elim (Bool-cases
        (holds device (payload_text (codes "to_device_id") (env.parse_json c.payload)))) [
          | inl t ↦ rw t (refl, refl, omega arith)
          | inr f ↦ rw f (Keeps-refl s)
        ]

  pub answer_offer-Keeps :
      (s : WireState env.Tables) → Keeps s (answer_offer h m offer_id device accepted s).1
  unfolding answer_offer
  answer_offer-Keeps s = elim (Bool-cases (m.refuses offer_lookup)) [
    | inl t ↦ rw t (Keeps-refl s)
    | inr f ↦ rw f (decide-Keeps s (find_offer env offer_id s.db.log))
  ]
