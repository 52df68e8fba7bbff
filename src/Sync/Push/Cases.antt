-- ===== src/Sync/Push/Cases.antt =====
-- The three things that one pushed change may do, told by the rows of the change log.
use mathlib.Core.List.{Memᴰ}
use livtet.Base.{
  ℕ, ◌+◌, true, false, Option, none, some, List, [], ◌∷◌, ◌++◌, map, ◌≡◌, ◌≢◌, refl, sym, ap, ◌∙◌,
  ◌⊎◌, inl, inr, Bool-cases, arith, All,
}
use livtet.Base.Text.{Text, to_ascii_uppercase, text_eq_iff}
use livtet.Base.Int.{◌<ℤ◌, eqb_ℤ_iff}
use livtet.Base.Result.{ok, ok-injective, err-ne-ok}
use livtet.Sync.Types.{SyncChange, Conflict}
use livtet.Sync.Entities.{entity_type_to_table}
use livtet.Sync.Json.{Env}
use livtet.Sync.Apply.{apply}
use livtet.Sync.Store.{same_entity, latest_change, seen, insert_conflict}
use livtet.Sync.Store.Latest.{Newest, latest_change-Newest}
use livtet.Sync.Store.Laws.{fetch-insert_conflict, insert_log-eq-ok}
use livtet.Sync.Store.Identity.{
  OfEntity, Logged, IsLatest, OfEntity-same_entity, seen-Logged, unseen-Logged,
  latest_change-IsLatest,
}
use livtet.Sync.Push.Growth.{apply_and_log-eq-ok}
use livtet.Sync.Push.{
  logged, conflicts_with, record_conflict, push_found, State, apply_and_log, check_local,
  push_known, push_typed, push_one,
}

-- the row of the log is newer, or of the same version with another payload
abbrev pub Opposes : SyncChange → SyncChange → Type 0
Opposes r c = (c.version <ℤ r.version) ⊎ ((r.version ≡ c.version) × (r.payload ≢ c.payload))

-- The log has no row of the entity, or the latest one does not oppose the change.
abbrev pub IsUnopposed : SyncChange → List SyncChange → Type 0
IsUnopposed c log =
    ((r : SyncChange) → Memᴰ r log → OfEntity c.entity_type c.entity_id r → ⊥)
    ⊎ ((r : SyncChange) × IsLatest c.entity_type c.entity_id log r × (Opposes r c → ⊥))

-- an open conflict between the row and the change
abbrev pub Disputes : SyncChange → SyncChange → Conflict → Type 0
Disputes r c k =
    (k.entity_type ≡ c.entity_type)
    × (k.entity_id ≡ c.entity_id)
    × (k.local_payload ≡ r.payload)
    × (k.remote_payload ≡ c.payload)
    × (k.resolved ≡ false)

conflicts_with-Opposes : (r c : SyncChange) → conflicts_with r c ≡ true → Opposes r c
unfolding conflicts_with
conflicts_with-Opposes r c h =
    ground (arith, eqb_ℤ_iff r.version c.version, text_eq_iff r.payload c.payload)

Opposes-conflicts_with : (r c : SyncChange) → conflicts_with r c ≡ false → Opposes r c → ⊥
unfolding conflicts_with
Opposes-conflicts_with r c h k =
    ground (arith, eqb_ℤ_iff r.version c.version, text_eq_iff r.payload c.payload)

no_row :
    (t i : Text) {r : SyncChange} {log : List SyncChange}
    → Memᴰ r log
    → OfEntity t i r
    → All (λ (x : SyncChange). same_entity t i x ≡ false) log
    → ⊥
no_row t i {r} (Memᴰ.head e) o h =
    clash (sym (OfEntity-same_entity t i r o) ∙ (ap (same_entity t i) e ∙ h.0))
  where
    clash : true ≡ false → ⊥
    clash k = cc
no_row t i (Memᴰ.tail m) o h = no_row t i m o h.1

latest_change-IsUnopposed :
    (c : SyncChange) (log : List SyncChange)
    → latest_change log c.entity_type c.entity_id ≡ none
    → IsUnopposed c log
latest_change-IsUnopposed c log h =
    go (latest_change log c.entity_type c.entity_id) h
      (latest_change-Newest log c.entity_type c.entity_id)
  where
    go :
        (o : Option SyncChange)
        → o ≡ none
        → Newest c.entity_type c.entity_id log o
        → IsUnopposed c log
    go none e n = inl (λ r m o. no_row c.entity_type c.entity_id m o n)
    go (some r) e n = cc

module _ (env : Env) (now : Text) where
  -- the row that the change becomes in the log
  abbrev pub row_of : ℕ → SyncChange → SyncChange
  row_of n c = record c { id = n; operation = map to_ascii_uppercase c.operation; changed_at = now }

  abbrev pub IsReplay : SyncChange → List SyncChange → Type 0
  IsReplay c log = Logged (record c { operation = map to_ascii_uppercase c.operation }) log

  -- What one change does to the database and to the list of conflicts.
  pub data Effect (c : SyncChange) (s s' : State env now) : Type 0 where
    replayed : IsReplay c s.0.log → s' ≡ s → Effect c s s'
    disputed :
        (r : SyncChange) (k found : Conflict)
        → (IsReplay c s.0.log → ⊥)
        → IsLatest c.entity_type c.entity_id s.0.log r
        → Opposes r c
        → Disputes r c k
        → s'.0 ≡ record s.0 {
          conflicts = s.0.conflicts ++ k ∷ [];
          next_conflict = s.0.next_conflict + 1;
        }
        → s'.1 ≡ s.1 ++ found ∷ []
        → Effect c s s'
    taken :
        (t : env.Tables) (es : List SyncChange)
        → (IsReplay c s.0.log → ⊥)
        → IsUnopposed c s.0.log
        → apply env c s.0.tables ≡ ok (t, es)
        → s'.0 ≡ record s.0 {
          log = s.0.log ++ row_of s.0.next_id c ∷ [];
          next_id = s.0.next_id + 1;
          tables = t;
        }
        → s'.1 ≡ s.1
        → Effect c s s'

  taken-Effect :
      (c : SyncChange) (s s' : State env now)
      → s.0.sync_apply ≡ true
      → (IsReplay c s.0.log → ⊥)
      → IsUnopposed c s.0.log
      → apply_and_log env now c s ≡ ok s'
      → Effect c s s'
  unfolding logged
  taken-Effect c s s' f u v h =
      let (t, es, a, i, e) = apply_and_log-eq-ok env now c s s' f h in
      taken t es u v a (insert_log-eq-ok (logged now c) (record s.0 { tables = t }) i) e

  disputed-Effect :
      (c : SyncChange) (s s' : State env now) (r : SyncChange)
      → latest_change s.0.log c.entity_type c.entity_id ≡ some r
      → (IsReplay c s.0.log → ⊥)
      → conflicts_with r c ≡ true
      → s' ≡ record_conflict now r c s
      → Effect c s s'
  unfolding record_conflict insert_conflict
  disputed-Effect c s s' r l u e q =
      let (found, g) = fetch-insert_conflict now c r.payload s.0 in
      disputed r _ found u (latest_change-IsLatest s.0.log _ _ r l) (conflicts_with-Opposes r c e)
        (refl, refl, refl, refl, refl) (ap (λ (x : State env now). x.0) q)
        (ap (λ (x : State env now). x.1) q ∙ ap (push_found s.1) g)

  check_local-Effect :
      (c : SyncChange) (s s' : State env now) (o : Option SyncChange)
      → latest_change s.0.log c.entity_type c.entity_id ≡ o
      → (IsReplay c s.0.log → ⊥)
      → s.0.sync_apply ≡ true
      → check_local env now c o s ≡ ok s'
      → Effect c s s'
  unfolding check_local
  check_local-Effect c s s' none l u f h =
      taken-Effect c s s' f u (latest_change-IsUnopposed c s.0.log l) h
  check_local-Effect c s s' (some r) l u f h = elim (Bool-cases (conflicts_with r c)) [
    | inl e ↦ disputed-Effect c s s' r l u e (ok-injective (sym (rw e at h)))
    | inr e ↦
        taken-Effect c s s' f u
          (inr (r, latest_change-IsLatest s.0.log _ _ r l, Opposes-conflicts_with r c e))
          (rw e at h)
  ]

  push_known-Effect :
      (c : SyncChange) (s s' : State env now)
      → s.0.sync_apply ≡ true
      → push_known env now c s ≡ ok s'
      → Effect c s s'
  unfolding push_known logged
  push_known-Effect c s s' f h = elim (Bool-cases (seen (logged now c) s.0.log)) [
    | inl e ↦ replayed (seen-Logged (logged now c) s.0.log e) (ok-injective (sym (rw e at h)))
    | inr e ↦
        check_local-Effect c s s' _ refl (unseen-Logged (logged now c) s.0.log e) f (rw e at h)
  ]

  push_typed-Effect :
      (c : SyncChange) (s s' : State env now) (o : Option Text)
      → s.0.sync_apply ≡ true
      → push_typed env now c s o ≡ ok s'
      → Effect c s s'
  unfolding push_typed
  push_typed-Effect c s s' none f h = absurd (err-ne-ok h)
  push_typed-Effect c s s' (some _) f h = push_known-Effect c s s' f h

  -- While `sync_apply` is set, a pushed change that passes does one of three things. Where the log has
  -- a row of its identity, nothing changes. Where it has none, and the latest row of the entity is
  -- newer, or has the same version and another payload, only an open conflict with that row's payload
  -- is added to the database, and a conflict to the answer. Otherwise the change is applied to the
  -- tables, and becomes the next row of the log.
  pub push_one-Effect :
      (c : SyncChange) (s s' : State env now)
      → s.0.sync_apply ≡ true
      → push_one env now c s ≡ ok s'
      → Effect c s s'
  unfolding push_one
  push_one-Effect c s s' = push_typed-Effect c s s' (entity_type_to_table c.entity_type)
