-- ===== src/Sync/Push/Order.antt =====
-- A pushed change that is older than the log of its entity changes neither the log nor a table.
use livtet.Base.{
  true, false, Option, none, some, List, [], ◌∷◌, ◌≡◌, sym, ap, ◌∙◌, arith, Bool-cases, inl, inr,
  All, ◌⊎◌,
}
use livtet.Base.Text.{Text}
use livtet.Base.Int.{ℤ, ◌≤ℤ◌}
use livtet.Base.Result.{Result, ok, ok-injective, err-ne-ok}
use livtet.Sync.Types.{SyncChange, SyncError}
use livtet.Sync.Entities.{entity_type_to_table}
use livtet.Sync.Json.{Env}
use livtet.Sync.Store.{same_entity, seen, insert_conflict}
use livtet.Sync.Store.Latest.{AtMost, AtMost-le, Newest, latest_change-Newest}
use livtet.Sync.Push.{
  logged, conflicts_with, record_conflict, State, check_local, push_known, push_typed, push_one,
}

none-AtMost :
    (t i : Text) (v : ℤ) (log : List SyncChange)
    → All (λ (r : SyncChange). same_entity t i r ≡ false) log
    → AtMost t i v log
none-AtMost t i v [] h = tt
none-AtMost t i v (r ∷ log) h =
    ((λ e. absurd (true-ne-false (sym e ∙ h.0))), none-AtMost t i v log h.1)
  where
    true-ne-false : true ≡ false → ⊥
    true-ne-false q = cc

no_conflict-le : (r c : SyncChange) → conflicts_with r c ≡ false → r.version ≤ℤ c.version
unfolding conflicts_with
no_conflict-le r c h = ground arith

module _ (env : Env) (now : Text) where
  -- Neither the log nor a table changes, or no row of the entity in the log is newer.
  abbrev pub IsGuarded : SyncChange → State env now → State env now → Type 0
  IsGuarded c s s' =
      ((s'.0.log ≡ s.0.log) × (s'.0.tables ≡ s.0.tables))
      ⊎ AtMost c.entity_type c.entity_id c.version s.0.log

  unmoved :
      (c : SyncChange) (s s' : State env now)
      → ◌≡◌ {A = Result SyncError (State env now)} (ok s) (ok s')
      → IsGuarded c s s'
  unmoved c s s' e =
      let q = ok-injective (sym e) in
      inl (ap (λ (x : State env now). x.0.log) q, ap (λ (x : State env now). x.0.tables) q)

  check_local-IsGuarded :
      (c : SyncChange) (o : Option SyncChange) (s s' : State env now)
      → Newest c.entity_type c.entity_id s.0.log o
      → check_local env now c o s ≡ ok s'
      → IsGuarded c s s'
  unfolding check_local record_conflict insert_conflict
  check_local-IsGuarded c none s s' newest h = inr (none-AtMost _ _ c.version s.0.log newest)
  check_local-IsGuarded c (some r) s s' newest h = elim (Bool-cases (conflicts_with r c)) [
    | inl e ↦
        let q : ◌≡◌ {A = State env now} s' (record_conflict now r c s) =
          ok-injective (sym (rw e at h)) in
        inl (ap (λ (x : State env now). x.0.log) q, ap (λ (x : State env now). x.0.tables) q)
    | inr e ↦ inr (AtMost-le _ _ r.version c.version s.0.log (no_conflict-le r c e) newest)
  ]

  push_known-IsGuarded :
      (c : SyncChange) (s s' : State env now) → push_known env now c s ≡ ok s' → IsGuarded c s s'
  unfolding push_known
  push_known-IsGuarded c s s' h = elim (Bool-cases (seen (logged now c) s.0.log)) [
    | inl e ↦ unmoved c s s' (rw e at h)
    | inr e ↦
        check_local-IsGuarded c _ s s' (latest_change-Newest s.0.log c.entity_type c.entity_id)
          (rw e at h)
  ]

  push_typed-IsGuarded :
      (c : SyncChange) (s s' : State env now) (o : Option Text)
      → push_typed env now c s o ≡ ok s'
      → IsGuarded c s s'
  unfolding push_typed
  push_typed-IsGuarded c s s' none h = absurd (err-ne-ok h)
  push_typed-IsGuarded c s s' (some _) h = push_known-IsGuarded c s s' h

  -- A pushed change that passes leaves the change log and the entity tables alone, unless its version
  -- is at least that of every row in the log of the entity that it names.
  pub push_one-IsGuarded :
      (c : SyncChange) (s s' : State env now) → push_one env now c s ≡ ok s' → IsGuarded c s s'
  unfolding push_one
  push_one-IsGuarded c s s' h = push_typed-IsGuarded c s s' (entity_type_to_table c.entity_type) h
