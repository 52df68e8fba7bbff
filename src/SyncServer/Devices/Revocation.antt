-- ===== src/SyncServer/Devices/Revocation.antt =====
-- livtet-sync-server/src/daemon.rs: a device that was revoked has no session, and is not pulled from.
use livtet.Base.{
  ℕ, Bool, true, false, Option, none, some, List, [], ◌∷◌, ◌≡◌, refl, ap, ◌∙◌, Bool-cases, inl, inr,
}
use livtet.Base.Text.{Text, text_eq}
use livtet.Base.Result.{Result, ok, err}
use livtet.Sync.Json.{Env}
use livtet.SyncServer.WireState.{DbId, PairedDevice, WireState}
use livtet.SyncServer.Wire.Access.{has_session, find_session}
use livtet.SyncServer.Pull.Pass.{find_device}
use livtet.SyncServer.Decide.{RpcFailure}
use livtet.SyncServer.Devices.{without_device, device_param, revoke, handle_devices_revoke}

same_device :
    {a b : PairedDevice}
    → ◌≡◌ {A = Option PairedDevice} (some a) (some b)
    → a.device_id ≡ b.device_id
same_device p = cc

find_session-without_device :
    (id : DbId) (token remote : Text) (ds : List PairedDevice) {d : PairedDevice}
    → find_session token remote (without_device id ds) ≡ some d
    → text_eq d.device_id id ≡ false
unfolding find_session without_device
find_session-without_device id token remote [] e = cc
find_session-without_device id token remote (c ∷ ds) {d} e =
    elim (Bool-cases (text_eq c.device_id id)) [
      | inl t ↦ find_session-without_device id token remote ds (rw t at e)
      | inr f ↦ elim (Bool-cases (has_session token remote c)) [
        | inl h ↦ let q : c.device_id ≡ d.device_id = same_device (rw (f, h) at e) in rw q at f
        | inr h ↦ find_session-without_device id token remote ds (rw (f, h) at e)
      ]
    ]

-- another device keeps the session that is found for it
find_session-kept :
    (id : DbId) (token remote : Text) (ds : List PairedDevice) {d : PairedDevice}
    → find_session token remote ds ≡ some d
    → text_eq d.device_id id ≡ false
    → find_session token remote (without_device id ds) ≡ some d
unfolding find_session without_device
find_session-kept id token remote [] e n = cc
find_session-kept id token remote (c ∷ ds) {d} e n =
    elim (Bool-cases (has_session token remote c)) [
      | inl h ↦
          let q : ◌≡◌ {A = Option PairedDevice} (some c) (some d) = rw h at e in
          let f : text_eq c.device_id id ≡ false =
            ap (λ (x : DbId). text_eq x id) (same_device q) ∙ n in
          rw (f, h) q
      | inr h ↦
          let rest = find_session-kept id token remote ds (rw h at e) n in
          elim (Bool-cases (text_eq c.device_id id)) [ inl t ↦ rw t rest | inr f ↦ rw (f, h) rest ]
    ]

find_device-without_device :
    (id : DbId) (ds : List PairedDevice) → find_device id (without_device id ds) ≡ none
unfolding find_device without_device
find_device-without_device id [] = refl
find_device-without_device id (c ∷ ds) = elim (Bool-cases (text_eq c.device_id id)) [
  | inl t ↦ rw t (find_device-without_device id ds)
  | inr f ↦ rw (f, f) (find_device-without_device id ds)
]

module _ (env : Env) where
  -- what the removal of a device does to the sessions and to the peers that can be pulled from
  abbrev pub Cut : DbId → List PairedDevice → List PairedDevice → Type 0
  Cut id before after =
      ((token remote : Text) (d : PairedDevice)
        → find_session token remote after ≡ some d
        → text_eq d.device_id id ≡ false)
      × ((token remote : Text) (d : PairedDevice)
          → find_session token remote before ≡ some d
          → text_eq d.device_id id ≡ false
          → find_session token remote after ≡ some d)
      × (find_device id after ≡ none)

  abbrev pub Revokes :
      Text → WireState env.Tables → WireState env.Tables × Result RpcFailure ℕ → Type 0
  Revokes t s (s', err _) = s' ≡ s
  Revokes t s (s', ok _) =
      (id : DbId) × (device_param env t ≡ some id) × Cut id s.paired_devices s'.paired_devices

  revoke-Revokes :
      (refused : Bool) (t : Text) (o : Option DbId) (s : WireState env.Tables)
      → device_param env t ≡ o
      → Revokes t s (revoke env refused t o s)
  unfolding revoke
  revoke-Revokes refused t none s e = refl
  revoke-Revokes true t (some id) s e = refl
  revoke-Revokes false t (some id) s e = (
    id,
    e,
    (
      λ token remote d. find_session-without_device id token remote s.paired_devices,
      λ token remote d. find_session-kept id token remote s.paired_devices,
      find_device-without_device id s.paired_devices,
    ),
  )

  -- To revoke a device ends every session of it: no token from any node finds its row again, and no
  -- pull finds it as a peer, while a session that is found for another device stays. Where the id
  -- does not parse or the database refuses, nothing changes.
  pub handle_devices_revoke-Revokes :
      (refused : Bool) (t : Text) (s : WireState env.Tables)
      → Revokes t s (handle_devices_revoke env refused t s)
  unfolding handle_devices_revoke
  handle_devices_revoke-Revokes refused t s = revoke-Revokes refused t (device_param env t) s refl
