-- ===== src/Sync/Push/Growth.antt =====
-- What one pushed change does to the database, and that the change log only grows by pushed changes.
use mathlib.Core.List.{append-nil, append_assoc}
use livtet.Base.{
  true, false, Option, none, some, List, [], ◌∷◌, ◌++◌, ◌≡◌, refl, sym, ap, ◌∙◌, Bool-cases, inl,
  inr,
}
use livtet.Base.Text.{Text}
use livtet.Base.Result.{ok, >>=-eq-ok, ok-injective, err-ne-ok}
use livtet.Sync.Types.{SyncChange, PushResponse}
use livtet.Sync.Entities.{entity_type_to_table}
use livtet.Sync.Json.{Env}
use livtet.Sync.Apply.{apply}
use livtet.Sync.Store.{Db, latest_change, seen, insert_log, echo_all, insert_conflict}
use livtet.Sync.Store.Rows.{Logs, none_left, skip, keep}
use livtet.Sync.Store.Laws.{echo_all-suppressed, insert_log-eq-ok}
use livtet.Sync.Push.{
  logged, conflicts_with, record_conflict, State, apply_and_log, check_local, push_known, push_one,
  push_typed, push_all, push_changes,
}

module _ (env : Env) (now : Text) where
  -- The three ways in which a change of a known type passes.
  pub data Outcome (c : SyncChange) (s s' : State env now) : Type 0 where
    skipped : seen (logged now c) s.0.log ≡ true → s' ≡ s → Outcome c s s'
    conflicting :
        (r : SyncChange)
        → latest_change s.0.log c.entity_type c.entity_id ≡ some r
        → conflicts_with r c ≡ true
        → s' ≡ record_conflict now r c s
        → Outcome c s s'
    applied :
        (t : env.Tables) (es : List SyncChange)
        → apply env c s.0.tables ≡ ok (t, es)
        → insert_log (logged now c) (record s.0 { tables = t }) ≡ ok s'.0
        → s'.1 ≡ s.1
        → Outcome c s s'

  -- a change that is applied and logged while `sync_apply` is set
  pub apply_and_log-eq-ok :
      (c : SyncChange) (s s' : State env now)
      → s.0.sync_apply ≡ true
      → apply_and_log env now c s ≡ ok s'
      → (t : env.Tables) × (es : List SyncChange) × (apply env c s.0.tables ≡ ok (t, es))
        × (insert_log (logged now c) (record s.0 { tables = t }) ≡ ok s'.0)
        × (s'.1 ≡ s.1)
  unfolding apply_and_log
  apply_and_log-eq-ok c s s' f h =
      let ((t, es), a, k) = >>=-eq-ok (apply env c s.0.tables) _ h in
      let (d', i, e) =
        >>=-eq-ok (insert_log (logged now c) (echo_all now es (record s.0 { tables = t }))) _ k in
      let e' = ok-injective e in
      (
        t,
        es,
        a,
        ap (insert_log (logged now c))
              (sym (echo_all-suppressed now es (record s.0 { tables = t }) f))
            ∙ (i ∙ ap (λ (x : State env now). ok x.0) e'),
        ap (λ (x : State env now). x.1) (sym e'),
      )

  apply_and_log-Outcome :
      (c : SyncChange) (s s' : State env now)
      → s.0.sync_apply ≡ true
      → apply_and_log env now c s ≡ ok s'
      → Outcome c s s'
  apply_and_log-Outcome c s s' f h =
      let (t, es, a, i, e) = apply_and_log-eq-ok c s s' f h in applied t es a i e

  check_local-Outcome :
      (c : SyncChange) (s s' : State env now) (r : Option SyncChange)
      → latest_change s.0.log c.entity_type c.entity_id ≡ r
      → s.0.sync_apply ≡ true
      → check_local env now c r s ≡ ok s'
      → Outcome c s s'
  unfolding check_local
  check_local-Outcome c s s' none l f h = apply_and_log-Outcome c s s' f h
  check_local-Outcome c s s' (some r) l f h = elim (Bool-cases (conflicts_with r c)) [
    | inl e ↦ conflicting r l e (ok-injective (sym (rw e at h)))
    | inr e ↦ apply_and_log-Outcome c s s' f (rw e at h)
  ]

  push_known-Outcome :
      (c : SyncChange) (s s' : State env now)
      → s.0.sync_apply ≡ true
      → push_known env now c s ≡ ok s'
      → Outcome c s s'
  unfolding push_known
  push_known-Outcome c s s' f h = elim (Bool-cases (seen (logged now c) s.0.log)) [
    | inl e ↦ skipped e (ok-injective (sym (rw e at h)))
    | inr e ↦ check_local-Outcome c s s' _ refl f (rw e at h)
  ]

  push_typed-Outcome :
      (c : SyncChange) (s s' : State env now) (t : Option Text)
      → s.0.sync_apply ≡ true
      → push_typed env now c s t ≡ ok s'
      → Outcome c s s'
  unfolding push_typed
  push_typed-Outcome c s s' none f h = absurd (err-ne-ok h)
  push_typed-Outcome c s s' (some _) f h = push_known-Outcome c s s' f h

  pub push_one-Outcome :
      (c : SyncChange) (s s' : State env now)
      → s.0.sync_apply ≡ true
      → push_one env now c s ≡ ok s'
      → Outcome c s s'
  unfolding push_one
  push_one-Outcome c s s' = push_typed-Outcome c s s' (entity_type_to_table c.entity_type)

  pub record Grows (cs : List SyncChange) (d d' : Db env.Tables) : Type 0 where
    pub rows : List SyncChange
    pub log_is : d'.log ≡ d.log ++ rows
    pub logs : Logs (logged now) cs rows

  pub Outcome-flag :
      (c : SyncChange) (s s' : State env now)
      → Outcome c s s'
      → s.0.sync_apply ≡ true
      → s'.0.sync_apply ≡ true
  unfolding record_conflict insert_conflict
  Outcome-flag c s s' (skipped _ e) f = ap (λ (x : State env now). x.0.sync_apply) e ∙ f
  Outcome-flag c s s' (conflicting r _ _ e) f = ap (λ (x : State env now). x.0.sync_apply) e ∙ f
  Outcome-flag c s s' (applied t es _ i _) f =
      ap (λ (x : Db env.Tables). x.sync_apply)
        (insert_log-eq-ok (logged now c) (record s.0 { tables = t }) i)
      ∙ f

  Outcome-Grows :
      (c : SyncChange) (cs : List SyncChange) (s s' : State env now) (d : Db env.Tables)
      → Outcome c s s'
      → Grows cs s'.0 d
      → Grows (c ∷ cs) s.0 d
  unfolding record_conflict insert_conflict
  Outcome-Grows c cs s s' d (skipped _ e) g = record {
    rows = g.rows;
    log_is = g.log_is ∙ ap (λ (x : State env now). x.0.log ++ g.rows) e;
    logs = skip g.logs;
  }
  Outcome-Grows c cs s s' d (conflicting r _ _ e) g = record {
    rows = g.rows;
    log_is = g.log_is ∙ ap (λ (x : State env now). x.0.log ++ g.rows) e;
    logs = skip g.logs;
  }
  Outcome-Grows c cs s s' d (applied t es _ i _) g = record {
    rows = record (logged now c) { id = s.0.next_id } ∷ g.rows;
    log_is =
        g.log_is
        ∙ (ap (λ (x : Db env.Tables). x.log ++ g.rows)
              (insert_log-eq-ok (logged now c) (record s.0 { tables = t }) i)
            ∙ append_assoc s.0.log _ g.rows);
    logs = keep s.0.next_id g.logs;
  }

  pub push_all-Grows :
      (cs : List SyncChange) (s s' : State env now)
      → s.0.sync_apply ≡ true
      → push_all env now cs s ≡ ok s'
      → Grows cs s.0 s'.0
  unfolding push_all
  push_all-Grows [] s s' f h = record {
    rows = [];
    log_is = ap (λ (x : State env now). x.0.log) (ok-injective (sym h)) ∙ sym (append-nil s.0.log);
    logs = none_left;
  }
  push_all-Grows (c ∷ cs) s s' f h =
      let (m, a, k) = >>=-eq-ok (push_one env now c s) (push_all env now cs) h in
      let o = push_one-Outcome c s m f a in
      Outcome-Grows c cs s m s'.0 o (push_all-Grows cs m s' (Outcome-flag c s m o f) k)

  -- A push that succeeds keeps every row of the change log and adds, in order, rows of the pushed
  -- changes only, each at most once: applying them logs no echo. The `sync_apply` flag is cleared.
  pub push_changes-Grows :
      (cs : List SyncChange) (d d' : Db env.Tables) (r : PushResponse)
      → push_changes env now cs d ≡ ok (d', r)
      → Grows cs d d' × (d'.sync_apply ≡ false)
  unfolding push_changes
  push_changes-Grows cs d d' r h =
      let (s, a, e) = >>=-eq-ok (push_all env now cs (record d { sync_apply = true }, [])) _ h in
      let e' = ok-injective e in
      let g = push_all-Grows cs (record d { sync_apply = true }, []) s refl a in
      (
        record {
          rows = g.rows;
          log_is = ap (λ (x : Db env.Tables × PushResponse). x.0.log) (sym e') ∙ g.log_is;
          logs = g.logs;
        },
        ap (λ (x : Db env.Tables × PushResponse). x.0.sync_apply) (sym e'),
      )
