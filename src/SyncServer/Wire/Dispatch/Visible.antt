-- ===== src/SyncServer/Wire/Dispatch/Visible.antt =====
-- Which changes a device is sent.
use livtet.Base.{
  true, Option, none, some, List, [], ◌∷◌, ◌≡◌, refl, ap, ◌⊎◌, inl, inr, keep, All, Bool-cases,
}
use livtet.Base.Text.{Text, codes, text_eq, text_eq_iff}
use livtet.Base.Int.{ℤ}
use livtet.Base.Result.{Result, ok, err}
use livtet.Sync.Types.{SyncChange, PullResponse}
use livtet.Sync.Json.{Env}
use livtet.Sync.Query.{pull_from}
use livtet.SyncIroh.Messages.{internal, bad_request, changes, Response, changes_of, reply}
use livtet.SyncServer.WireState.{WireState, self_node, change_rows, Moment, Host}
use livtet.SyncServer.Wire.Access.{
  Failure, answer_reply, answer_error, answer_failure, with_device, authorize, payload_text,
  is_none_or_eq, change_is_for,
}
use livtet.SyncServer.Wire.Dispatch.{Step, limit_or, for_device, changes_step, route, dispatch}

-- An offer names the device, or no device.
abbrev pub IsVisible : Env → Text → SyncChange → Type 0
IsVisible env device c =
    c.entity_type ≡ codes "file_offer"
    → (payload_text (codes "to_device_id") (env.parse_json c.payload) ≡ none)
      ⊎ (payload_text (codes "to_device_id") (env.parse_json c.payload) ≡ some device)

target_lem :
    (device : Text) (o : Option Text)
    → is_none_or_eq device o ≡ true
    → (o ≡ none) ⊎ (o ≡ some device)
target_lem device none e = inl refl
target_lem device (some t) e = inr (ap some ((text_eq_iff t device).0 e))

visible_lem :
    (env : Env) (device : Text) (c : SyncChange)
    → change_is_for env c device ≡ true
    → IsVisible env device c
unfolding change_is_for
visible_lem env device c e offer =
    target_lem device (payload_text (codes "to_device_id") (env.parse_json c.payload))
      (rw ((text_eq_iff c.entity_type (codes "file_offer")).1 offer) at e)

keep-All :
    (env : Env) (device : Text) (cs : List SyncChange)
    → All (IsVisible env device) (keep (λ (c : SyncChange). change_is_for env c device) cs)
keep-All env device [] = tt
keep-All env device (c ∷ cs) = elim (Bool-cases (change_is_for env c device)) [
  | inl t ↦ rw t (visible_lem env device c t, keep-All env device cs)
  | inr f ↦ rw f (keep-All env device cs)
]

module _ {env : Env} (h : Host env) (m : Moment) (s : WireState env.Tables) (since : ℤ)
    (limit : Option ℤ) where
  abbrev page_for : Text → PullResponse
  page_for device =
      let page = pull_from since (limit_or limit) s.db.log in
      record page { changes = keep (λ (c : SyncChange). change_is_for env c device) page.changes }

  -- The page is the engine's, less what the device may not see.
  abbrev pub Sent : PullResponse → Step h m → Type 0
  Sent page r =
      (device : Text) × (r.0.device_id ≡ some device)
      × (page ≡ page_for device)
      × All (IsVisible env device) page.changes

  Sends : Step h m → Type 0
  Sends r = (page : PullResponse) → r.0.outcome.response ≡ changes_of page → Sent page r

  page_eq : {a b : PullResponse} → ◌≡◌ {A = Response env.F} (changes_of a) (changes_of b) → b ≡ a
  page_eq e = cc

  failure-Sends : (f : Failure) → Sends (answer_failure f, s)
  unfolding Sends answer_failure answer_error answer_reply reply
  failure-Sends f page e = cc

  changes-Sends : (device : Text) → Sends (changes_step h m s since (limit_or limit) device)
  unfolding changes_step
  changes-Sends device = elim (Bool-cases (m.refuses change_rows)) [
    | inl t ↦ rw t (refusal)
    | inr f ↦ rw f (sent device)
  ]
    where
      refusal : Sends (answer_error internal (codes "changes: "), s)
      refusal =
          unfold answer_failure in
          failure-Sends (record { code = internal; message = codes "changes: " })

      sent :
          (device : Text)
          → Sends (with_device device (answer_reply (changes_of (page_for device))), s)
      sent device =
          unfold Sends in
          unfold with_device answer_reply reply in
          λ page e.
            let p = page_eq e in
            (
              device,
              refl,
              p,
              rw p (keep-All env device (pull_from since (limit_or limit) s.db.log).changes),
            )

  device-Sends :
      (r : Result Failure Text)
      → Sends (for_device h m s r (λ device. changes_step h m s since (limit_or limit) device))
  unfolding for_device
  device-Sends (err f) = failure-Sends f
  device-Sends (ok device) = changes-Sends device

  -- A peer that asks for changes is sent the engine's page less the offers to other devices: every
  -- offer in it names the device that was authorized, or no device.
  pub dispatch-Sent :
      (token remote : Text) (page : PullResponse)
      → (dispatch h m (changes token since limit) remote s).0.outcome.response ≡ changes_of page
      → Sent page (dispatch h m (changes token since limit) remote s)
  unfolding dispatch route Sends
  dispatch-Sent token remote = elim (Bool-cases (text_eq remote (self_node s))) [
    | inl t ↦ rw t (itself)
    | inr f ↦ rw f (device-Sends (authorize h m s token remote))
  ]
    where
      itself : Sends (answer_error bad_request (codes "a device cannot sync with itself"), s)
      itself =
          unfold answer_failure in
          failure-Sends
            (record { code = bad_request; message = codes "a device cannot sync with itself" })
