-- ===== src/SyncServer/Wire/Access/Sessions.antt =====
-- Which sessions `authorize` accepts.
use mathlib.Core.List.{Memᴰ}
use livtet.Base.{
  Bool, true, false, Option, none, some, List, [], ◌∷◌, ◌≡◌, refl, sym, ap, ◌∙◌, ◌⊎◌, inl, inr,
  ◌==◌, length, Bool-cases, and_parts,
}
use livtet.Base.Text.{Text, text_eq_iff, trim, is_empty}
use livtet.Base.Result.{ok, ok-injective, err-ne-ok}
use livtet.Sync.Json.{Env}
use livtet.SyncIroh.Messages.{Response, error}
use livtet.SyncServer.Pairs.{holds}
use livtet.SyncServer.WireState.{PairedDevice, WireState, authorization, Moment, Host}
use livtet.SyncServer.Wire.Access.{Answered, find_session, has_session, device_text, authorize}

abbrev pub is_error : {F : Type 0} → Response F → Bool
is_error (error _ _) = true
is_error _ = false

-- an error, or an answer to this device
abbrev pub Served : {F : Type 0} → Text → Answered F → Type 0
Served device a = (is_error a.outcome.response ≡ true) ⊎ (a.device_id ≡ some device)

holds-some : (t : Text) (o : Option Text) → holds t o ≡ true → o ≡ some t
holds-some t none h = cc
holds-some t (some u) h = ap some ((text_eq_iff u t).0 h)

find_session_lem :
    (token remote : Text) (ds : List PairedDevice) {d : PairedDevice}
    → find_session token remote ds ≡ some d
    → Memᴰ d ds × (d.session_token ≡ some token) × (d.node_id ≡ some remote)
unfolding find_session
find_session_lem token remote [] h = cc
find_session_lem token remote (e ∷ ds) {d} h = elim (Bool-cases (has_session token remote e)) [
  | inl t ↦
      let same : e ≡ d = here (rw t at h) in
      let parts = and_parts (holds token e.session_token) (holds remote e.node_id) t in
      (
        Memᴰ.head (sym same),
        ap (λ (x : PairedDevice). x.session_token) (sym same)
            ∙ holds-some token e.session_token parts.0,
        ap (λ (x : PairedDevice). x.node_id) (sym same) ∙ holds-some remote e.node_id parts.1,
      )
  | inr f ↦
      let rest = find_session_lem token remote ds (rw f at h) in (Memᴰ.tail rest.0, rest.1, rest.2)
]
  where
    here : {a b : PairedDevice} → ◌≡◌ {A = Option PairedDevice} (some a) (some b) → a ≡ b
    here p = cc

module _ {env : Env} (h : Host env) (m : Moment) where
  -- a session of the node, and the device that it belongs to
  abbrev pub Session : WireState env.Tables → Text → Text → Text → Type 0
  Session s token remote device =
      (d : PairedDevice) × Memᴰ d s.paired_devices
      × (d.session_token ≡ some (trim token))
      × (d.node_id ≡ some remote)
      × (is_empty (trim token) ≡ false)
      × (device ≡ h.reader.ulid_encode d.device_id)

  device_text_lem :
      (o : Option PairedDevice) {device : Text}
      → device_text h m o ≡ ok device
      → (d : PairedDevice) × (o ≡ some d) × (device ≡ h.reader.ulid_encode d.device_id)
  unfolding device_text
  device_text_lem none e = absurd (err-ne-ok e)
  device_text_lem (some d) e = elim (Bool-cases (length d.device_id == 16)) [
    | inl t ↦ (d, refl, sym (ok-injective (rw t at e)))
    | inr f ↦ absurd (err-ne-ok (rw f at e))
  ]

  pub authorize_lem :
      (s : WireState env.Tables) (token remote : Text) {device : Text}
      → authorize h m s token remote ≡ ok device
      → Session s token remote device
  unfolding authorize
  authorize_lem s token remote e = elim (Bool-cases (is_empty (trim token))) [
    | inl t ↦ absurd (err-ne-ok (rw t at e))
    | inr f ↦
        let e' = rw f at e in
        elim (Bool-cases (m.refuses authorization)) [
          | inl t ↦ absurd (err-ne-ok (rw t at e'))
          | inr g ↦
              let (d, found, same) =
                device_text_lem (find_session (trim token) remote s.paired_devices) (rw g at e') in
              let (member, has_token, has_node) =
                find_session_lem (trim token) remote s.paired_devices found in
              (d, member, has_token, has_node, f, same)
        ]
  ]

  -- A session that is found is accepted.
  pub authorize-found :
      (s : WireState env.Tables) (token remote : Text) (d : PairedDevice)
      → m.refuses authorization ≡ false
      → is_empty (trim token) ≡ false
      → find_session (trim token) remote s.paired_devices ≡ some d
      → length d.device_id ≡ 16
      → authorize h m s token remote ≡ ok (h.reader.ulid_encode d.device_id)
  unfolding authorize device_text
  authorize-found s token remote d r e f n = rw e (rw r (rw f (rw n refl)))
