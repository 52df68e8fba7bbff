-- ===== src/Sync/Push/Failure.antt =====
-- Why a pushed change can fail.
use livtet.Base.{
  true, false, Option, none, some, ◌≡◌, refl, sym, ap, ◌∙◌, arith, Bool-cases, inl, inr,
}
use livtet.Base.Text.{Text}
use livtet.Base.Result.{err, >>=-eq-err, err-ne-ok}
use livtet.Sync.Types.{SyncChange, SyncError, unknown_entity_type}
use livtet.Sync.Entities.{entity_type_to_table}
use livtet.Sync.Json.{Env}
use livtet.Sync.Apply.{apply}
use livtet.Sync.Store.{Db, seen, insert_log, echo_all}
use livtet.Sync.Store.Laws.{echo_all-suppressed}
use livtet.Sync.Push.{
  logged, conflicts_with, State, apply_and_log, check_local, push_known, push_one, push_typed,
}

module _ (env : Env) (now : Text) where
  -- The reasons for which one change fails with `e` in a state: its type is unknown, or the tables
  -- refuse it.
  pub data Fails (e : SyncError) (c : SyncChange) (s : State env now) : Type 0 where
    unknown :
        entity_type_to_table c.entity_type ≡ none
        → e ≡ unknown_entity_type c.entity_type
        → Fails e c s
    refused : apply env c s.0.tables ≡ err e → Fails e c s

  insert_log-unseen :
      (c : SyncChange) (d : Db env.Tables) {e : SyncError}
      → seen c d.log ≡ false
      → insert_log c d ≡ err e
      → ⊥
  unfolding insert_log
  insert_log-unseen c d f h = ground arith

  apply_and_log-eq-err :
      (c : SyncChange) (s : State env now) {e : SyncError}
      → s.0.sync_apply ≡ true
      → seen (logged now c) s.0.log ≡ false
      → apply_and_log env now c s ≡ err e
      → apply env c s.0.tables ≡ err e
  unfolding apply_and_log
  apply_and_log-eq-err c s f u h = elim (>>=-eq-err (apply env c s.0.tables) _ h) [
    | inl a ↦ a
    | inr (r, a, k) ↦
        elim (>>=-eq-err
          (insert_log (logged now c) (echo_all now r.1 (record s.0 { tables = r.0 }))) _ k) [
            | inl i ↦ absurd (
                insert_log-unseen (logged now c) (record s.0 { tables = r.0 }) u
                  (ap (insert_log (logged now c))
                      (sym (echo_all-suppressed now r.1 (record s.0 { tables = r.0 }) f))
                    ∙ i))
            | inr (d', i, z) ↦ absurd (err-ne-ok (sym z))
          ]
  ]

  check_local-eq-err :
      (c : SyncChange) (s : State env now) (r : Option SyncChange) {e : SyncError}
      → s.0.sync_apply ≡ true
      → seen (logged now c) s.0.log ≡ false
      → check_local env now c r s ≡ err e
      → apply env c s.0.tables ≡ err e
  unfolding check_local
  check_local-eq-err c s none f u h = apply_and_log-eq-err c s f u h
  check_local-eq-err c s (some r) f u h = elim (Bool-cases (conflicts_with r c)) [
    | inl e ↦ absurd (err-ne-ok (sym (rw e at h)))
    | inr e ↦ apply_and_log-eq-err c s f u (rw e at h)
  ]

  push_known-eq-err :
      (c : SyncChange) (s : State env now) {e : SyncError}
      → s.0.sync_apply ≡ true
      → push_known env now c s ≡ err e
      → apply env c s.0.tables ≡ err e
  unfolding push_known
  push_known-eq-err c s f h = elim (Bool-cases (seen (logged now c) s.0.log)) [
    | inl u ↦ absurd (err-ne-ok (sym (rw u at h)))
    | inr u ↦ check_local-eq-err c s _ f u (rw u at h)
  ]

  push_typed-Fails :
      (c : SyncChange) (s : State env now) (o : Option Text) (e : SyncError)
      → entity_type_to_table c.entity_type ≡ o
      → s.0.sync_apply ≡ true
      → push_typed env now c s o ≡ err e
      → Fails e c s
  unfolding push_typed
  push_typed-Fails c s none e t f h = unknown t (ground arith)
  push_typed-Fails c s (some _) e t f h = refused (push_known-eq-err c s f h)

  pub push_one-Fails :
      (c : SyncChange) (s : State env now) (e : SyncError)
      → s.0.sync_apply ≡ true
      → push_one env now c s ≡ err e
      → Fails e c s
  unfolding push_one
  push_one-Fails c s e f a = push_typed-Fails c s _ e refl f a
