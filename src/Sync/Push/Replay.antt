-- ===== src/Sync/Push/Replay.antt =====
-- Pushing again what was accepted changes nothing.
use mathlib.Core.Path.{subst}
use mathlib.Core.List.{concat-ne-nil}
use livtet.Base.{true, ◌||◌, Option, none, some, List, [], ◌∷◌, ◌≡◌, ◌≢◌, refl, sym, ap, ◌∙◌, All}
use livtet.Base.Text.{Text}
use livtet.Base.Result.{Result, ok, ◌>>=◌, >>=-eq-ok, ok-injective, err-ne-ok}
use livtet.Sync.Types.{SyncChange, Conflict, PushResponse, SyncError}
use livtet.Sync.Entities.{entity_type_to_table}
use livtet.Sync.Json.{Env}
use livtet.Sync.Store.{Db, seen, same_identity}
use livtet.Sync.Store.Laws.{fetch-insert_conflict, insert_log-eq-ok, seen-append, seen-concat}
use livtet.Sync.Push.Growth.{
  Outcome, skipped, conflicting, applied, push_one-Outcome, Outcome-flag, push_all-Grows,
}
use livtet.Sync.Push.{
  logged, record_conflict, State, push_known, push_one, push_typed, push_all, push_changes,
  push_found, no_conflicts, respond,
}

no_conflicts-nil : (ks : List Conflict) → no_conflicts ks ≡ true → ks ≡ []
no_conflicts-nil [] h = refl
no_conflicts-nil (k ∷ ks) h = cc

module _ (env : Env) (now : Text) where
  record_conflict-ne-nil :
      (r c : SyncChange) (s : State env now) → (record_conflict now r c s).1 ≢ []
  unfolding record_conflict
  record_conflict-ne-nil r c s h =
      let (k, e) = fetch-insert_conflict now c r.payload s.0 in
      concat-ne-nil k s.1 (ap (push_found s.1) (sym e) ∙ h)

  Outcome-no_conflicts :
      (c : SyncChange) (s s' : State env now) → Outcome env now c s s' → s'.1 ≡ [] → s.1 ≡ []
  Outcome-no_conflicts c s s' (skipped _ e) h = ap (λ (x : State env now). x.1) (sym e) ∙ h
  Outcome-no_conflicts c s s' (conflicting r _ _ e) h =
      absurd (record_conflict-ne-nil r c s (ap (λ (x : State env now). x.1) (sym e) ∙ h))
  Outcome-no_conflicts c s s' (applied _ _ _ _ e) h = sym e ∙ h

  Outcome-seen :
      (c : SyncChange) (s s' : State env now)
      → Outcome env now c s s'
      → s'.1 ≡ []
      → seen (logged now c) s'.0.log ≡ true
  Outcome-seen c s s' (skipped e p) h =
      ap (λ (x : State env now). seen (logged now c) x.0.log) p ∙ e
  Outcome-seen c s s' (conflicting r _ _ e) h =
      absurd (record_conflict-ne-nil r c s (ap (λ (x : State env now). x.1) (sym e) ∙ h))
  Outcome-seen c s s' (applied t es _ i _) h =
      ap (λ (x : Db env.Tables). seen (logged now c) x.log)
        (insert_log-eq-ok (logged now c) (record s.0 { tables = t }) i)
      ∙ seen-concat (logged now c) s.0.log s.0.next_id

  push_all-no_conflicts :
      (cs : List SyncChange) (s s' : State env now)
      → s.0.sync_apply ≡ true
      → push_all env now cs s ≡ ok s'
      → s'.1 ≡ []
      → s.1 ≡ []
  unfolding push_all
  push_all-no_conflicts [] s s' f h n = ap (λ (x : State env now). x.1) (ok-injective h) ∙ n
  push_all-no_conflicts (c ∷ cs) s s' f h n =
      let (m, a, k) = >>=-eq-ok (push_one env now c s) (push_all env now cs) h in
      let o = push_one-Outcome env now c s m f a in
      Outcome-no_conflicts c s m o
        (push_all-no_conflicts cs m s' (Outcome-flag env now c s m o f) k n)

  -- a change whose type has a table, and whose identity the log holds
  abbrev IsLogged : List SyncChange → SyncChange → Type 0
  IsLogged log c =
      (seen (logged now c) log ≡ true)
      × ((t : Text) × (entity_type_to_table c.entity_type ≡ some t))

  known_type :
      (c : SyncChange) (s s' : State env now) (o : Option Text)
      → entity_type_to_table c.entity_type ≡ o
      → push_typed env now c s o ≡ ok s'
      → (t : Text) × (entity_type_to_table c.entity_type ≡ some t)
  unfolding push_typed
  known_type c s s' none e h = absurd (err-ne-ok h)
  known_type c s s' (some t) e h = (t, e)

  push_all-IsLogged :
      (cs : List SyncChange) (s s' : State env now)
      → s.0.sync_apply ≡ true
      → push_all env now cs s ≡ ok s'
      → s'.1 ≡ []
      → All (IsLogged s'.0.log) cs
  unfolding push_all push_one
  push_all-IsLogged [] s s' f h n = tt
  push_all-IsLogged (c ∷ cs) s s' f h n =
      let (m, a, k) = >>=-eq-ok (push_one env now c s) (push_all env now cs) h in
      let o = push_one-Outcome env now c s m f a in
      let f' = Outcome-flag env now c s m o f in
      let here = Outcome-seen c s m o (push_all-no_conflicts cs m s' f' k n) in
      let g = push_all-Grows env now cs m s' f' k in
      (
        (
          ap (seen (logged now c)) g.log_is ∙ seen-append (logged now c) m.0.log g.rows here,
          known_type c s m _ refl a,
        ),
        push_all-IsLogged cs m s' f' k n,
      )

  push_typed-seen :
      (c : SyncChange) (s : State env now) (o : Option Text) {t : Text}
      → o ≡ some t
      → seen (logged now c) s.0.log ≡ true
      → push_typed env now c s o ≡ ok s
  unfolding push_typed push_known
  push_typed-seen c s none h e = cc
  push_typed-seen c s (some t) h e = rw e

  push_all-again :
      (cs : List SyncChange) (s : State env now)
      → All (IsLogged s.0.log) cs
      → push_all env now cs s ≡ ok s
  unfolding push_all push_one
  push_all-again [] s h = refl
  push_all-again (c ∷ cs) s h =
      ap (λ (r : Result SyncError (State env now)). r >>= push_all env now cs)
        (push_typed-seen c s (entity_type_to_table c.entity_type) h.0.1.1 h.0.0)
      ∙ push_all-again cs s h.1

same_seen :
    (now later : Text) (c : SyncChange) (log : List SyncChange)
    → seen (logged now c) log ≡ seen (logged later c) log
unfolding seen logged same_identity
same_seen now later c [] = refl
same_seen now later c (r ∷ log) =
    ap (λ b. same_identity (logged later c) r || b) (same_seen now later c log)

IsLogged-later :
    (env : Env) (now later : Text) (log cs : List SyncChange)
    → All (IsLogged env now log) cs
    → All (IsLogged env later log) cs
IsLogged-later env now later log [] h = tt
IsLogged-later env now later log (c ∷ cs) h =
    ((sym (same_seen now later c log) ∙ h.0.0, h.0.1), IsLogged-later env now later log cs h.1)

abbrev pub Again : (env : Env) → Text → List SyncChange → Db env.Tables × PushResponse → Type 0
Again env later cs x =
    x.1.accepted ≡ true
    → push_changes env later cs x.0
      ≡ ok (x.0, record { accepted = true; conflicts = []; latest_version = x.1.latest_version })

push_all-Again :
    (env : Env) (now later : Text) (cs : List SyncChange) (d : Db env.Tables) (s : State env now)
    → push_all env now cs (record d { sync_apply = true }, []) ≡ ok s
    → Again env later cs (respond env now s)
unfolding push_changes respond
push_all-Again env now later cs d s a n =
    let held = push_all-IsLogged env now cs _ s refl a (no_conflicts-nil s.1 n) in
    ap (λ (x : Result SyncError (State env later)). x >>= λ y. ok (respond env later y))
      (push_all-again env later cs (record s.0 { sync_apply = true }, [])
        (IsLogged-later env now later s.0.log cs held))

-- Pushing the changes of an accepted push again, at any later time, succeeds, changes nothing in
-- the database, reports no conflict, and returns the same latest version.
pub push_changes-again :
    (env : Env) (now later : Text) (cs : List SyncChange) (d d' : Db env.Tables) (r : PushResponse)
    → push_changes env now cs d ≡ ok (d', r)
    → r.accepted ≡ true
    → push_changes env later cs d'
      ≡ ok (d', record { accepted = true; conflicts = []; latest_version = r.latest_version })
unfolding push_changes
push_changes-again env now later cs d d' r h =
    let (s, a, e) =
      >>=-eq-ok (push_all env now cs (record d { sync_apply = true }, []))
        (λ x. ok (respond env now x)) h in
    subst (Again env later cs) (ok-injective e) (push_all-Again env now later cs d s a)
