-- ===== src/SyncServer/Pairs/Approval.antt =====
-- What an approval leaves in the tables and maps.
use livtet.Base.{
  Bool, true, false, Option, none, some, List, [], ◌∷◌, ◌≡◌, refl, sym, any, Bool-cases, inl, inr,
}
use livtet.Base.Text.{Text, codes, text_eq, text_eq_refl}
use livtet.Base.Assoc.{get}
use livtet.Base.Result.{ok, ok-injective, err-ne-ok}
use livtet.Sync.Json.{Env}
use livtet.SyncServer.WireState.{
  DbId, approved, PairedDevice, PendingPairing, WireState, pairing_table, device_row, token_row,
  status_row, Moment, Host,
}
use livtet.SyncServer.Pairs.{
  ClaimApproval, upsert_device, token_taken, set_token, device_of, claimed_device, settle,
  approve_pending, approve_token, approve_device, approve_row, approve_claim,
}

abbrev pub has_device : DbId → List PairedDevice → Bool
has_device id = any (λ (d : PairedDevice). text_eq d.device_id id)

pub has_device-upsert_device :
    (new : PairedDevice) (ds : List PairedDevice)
    → has_device new.device_id (upsert_device new ds) ≡ true
unfolding upsert_device
has_device-upsert_device new [] = rw (text_eq_refl new.device_id) refl
has_device-upsert_device new (d ∷ ds) = elim (Bool-cases (text_eq d.device_id new.device_id)) [
  | inl t ↦ rw t (rw t refl)
  | inr f ↦ rw f (rw f (has_device-upsert_device new ds))
]

module _ {env : Env} (h : Host env) (m : Moment) (node : Text) (s : WireState env.Tables) where
  abbrev pub id_for : PendingPairing → DbId
  id_for row = device_of m.fresh_id row.device_id

  abbrev pub device_rows : PendingPairing → List PairedDevice
  device_rows row = upsert_device (claimed_device m.clock (id_for row) row) s.paired_devices

  abbrev pub approved_state : PendingPairing → WireState env.Tables
  approved_state row =
      settle h m node row approved (codes "approved") m.fresh
        (some (h.reader.ulid_encode (id_for row)))
        (record s { paired_devices = set_token m.fresh node (id_for row) (device_rows row) })

  abbrev pub given : PendingPairing → ClaimApproval
  given row = record { device_id = h.reader.ulid_encode (id_for row); session_token = m.fresh }

  pending_ok :
      (row : PendingPairing) (s' : WireState env.Tables) {a : ClaimApproval}
      → (approve_pending h m node row (id_for row) s').1 ≡ ok a
      → (a ≡ given row)
        × ((approve_pending h m node row (id_for row) s').0
            ≡ settle h m node row approved
                (codes "approved")
                m.fresh
                (some (h.reader.ulid_encode (id_for row)))
                s')
  unfolding approve_pending
  pending_ok row s' e = elim (Bool-cases (m.refuses status_row)) [
    | inl t ↦ absurd (err-ne-ok (rw t at e))
    | inr f ↦ rw f (sym (ok-injective (rw f at e)), refl)
  ]

  abbrev upserted : PendingPairing → WireState env.Tables
  upserted row = record s { paired_devices = device_rows row }

  abbrev pub Settled : PendingPairing → ClaimApproval → WireState env.Tables → Type 0
  Settled row a s' =
      (token_taken m.fresh (id_for row) (device_rows row) ≡ false)
      × (a ≡ given row)
      × (s' ≡ approved_state row)

  token_ok :
      (row : PendingPairing) {a : ClaimApproval}
      → (approve_token h m node row (id_for row) (upserted row)).1 ≡ ok a
      → Settled row a (approve_token h m node row (id_for row) (upserted row)).0
  unfolding approve_token
  token_ok row e = elim (Bool-cases (m.refuses token_row)) [
    | inl t ↦ absurd (err-ne-ok (rw t at e))
    | inr f ↦ elim (Bool-cases (token_taken m.fresh (id_for row) (device_rows row))) [
      | inl t ↦ absurd (err-ne-ok (rw (f, t) at e))
      | inr g ↦
          let s' = record s {
            paired_devices = set_token m.fresh node (id_for row) (device_rows row);
          } in
          let r = pending_ok row s' (rw (f, g) at e) in rw (f, g) (refl, r.0, r.1)
    ]
  ]

  device_ok :
      (row : PendingPairing) {a : ClaimApproval}
      → (approve_device h m node row (id_for row) s).1 ≡ ok a
      → Settled row a (approve_device h m node row (id_for row) s).0
  unfolding approve_device
  device_ok row e = elim (Bool-cases (m.refuses device_row)) [
    | inl t ↦ absurd (err-ne-ok (rw t at e))
    | inr f ↦ rw f (token_ok row (rw f at e))
  ]

  row_ok :
      (o : Option PendingPairing) {a : ClaimApproval}
      → (approve_row h m node o s).1 ≡ ok a
      → (row : PendingPairing) × (o ≡ some row) × Settled row a (approve_row h m node o s).0
  unfolding approve_row
  row_ok none e = absurd (err-ne-ok e)
  row_ok (some row) e = (row, refl, device_ok row e)

  -- An approval that succeeds has run every statement.
  pub approve_claim-Settled :
      {a : ClaimApproval}
      → (approve_claim h m node s).1 ≡ ok a
      → (row : PendingPairing) × (get node s.pending_pairings ≡ some row)
        × Settled row a (approve_claim h m node s).0
  unfolding approve_claim
  approve_claim-Settled e = elim (Bool-cases (m.refuses pairing_table)) [
    | inl t ↦ absurd (err-ne-ok (rw t at e))
    | inr f ↦ rw f (row_ok (get node s.pending_pairings) (rw f at e))
  ]
