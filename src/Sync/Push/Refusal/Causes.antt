-- ===== src/Sync/Push/Refusal/Causes.antt =====
-- What a refused statement means for a push, and why a push can fail.
use livtet.Base.{
  Bool, true, Option, none, some, List, [], ◌∷◌, ◌≡◌, refl, sym, ◌∙◌, ◌⊎◌, inl, inr, Bool-cases,
}
use livtet.Base.Text.{Text}
use livtet.Base.Int.{pos}
use livtet.Base.Result.{Result, ok, err, ◌>>=◌, err-ne-ok}
use livtet.Sync.Types.{SyncChange, PushResponse, SyncError, db}
use livtet.Sync.Entities.{entity_type_to_table}
use livtet.Sync.Json.{Env}
use livtet.Sync.Apply.{apply}
use livtet.Sync.Store.{Db, latest_change, seen, echo_all, insert_conflict}
use livtet.Sync.Push.{
  logged, conflicts_with, State, apply_and_log, check_local, push_known, push_typed, push_one,
  respond,
}
use livtet.Sync.Push.Failure.{Fails, push_one-Fails}
use livtet.Sync.Push.Growth.{push_one-Outcome, Outcome-flag}
use livtet.Sync.Push.Refusal.{
  PushStatement, begin, set_flag, clear_flag, commit, find_row, find_latest, add_conflict,
  find_conflict, add_row, guard, log_change, file_conflict, test_local, take_known, take_typed,
  take_one, take_changes, close, run_push,
}

module _ (env : Env) (now : Text) (refuses : PushStatement → Db env.Tables → Bool) where
  -- the database refuses a statement for the change, in the state in which it runs
  pub data Stops (c : SyncChange) (s : State env now) : Type 0 where
    row_unread : refuses (find_row c) s.0 ≡ true → Stops c s
    latest_unread : refuses (find_latest c) s.0 ≡ true → Stops c s
    conflict_unwritten : refuses (add_conflict c) s.0 ≡ true → Stops c s
    conflict_unread :
        (r : SyncChange)
        → latest_change s.0.log c.entity_type c.entity_id ≡ some r
        → refuses (find_conflict c) (insert_conflict now c r.payload s.0) ≡ true
        → Stops c s
    row_unwritten :
        (t : env.Tables) (es : List SyncChange)
        → apply env c s.0.tables ≡ ok (t, es)
        → refuses (add_row c) (echo_all now es (record s.0 { tables = t })) ≡ true
        → Stops c s

  -- `r` is what `r'` would be, unless a statement was refused, as `R` says
  unfoldable pub Follows : {A : Type 0} → Type 0 → Result SyncError A → Result SyncError A → Type 0
  Follows R (ok a) r' = r' ≡ ok a
  Follows R (err e) r' = ((e ≡ db) × R) ⊎ (r' ≡ err e)

  Follows-refl : {A : Type 0} (R : Type 0) (r : Result SyncError A) → Follows R r r
  unfolding Follows
  Follows-refl R (ok a) = refl
  Follows-refl R (err e) = inr refl

  guard-Follows :
      {A : Type 0} (R : Type 0) (q : PushStatement) (d : Db env.Tables) (r r' : Result SyncError A)
      → (refuses q d ≡ true → R)
      → Follows R r r'
      → Follows R (guard env now refuses q d r) r'
  unfolding guard Follows
  guard-Follows R q d r r' why h = elim (Bool-cases (refuses q d)) [
    | inl e ↦ rw e (inl (refl, why e))
    | inr e ↦ rw e h
  ]

  bind-Follows :
      {A B : Type 0} (R : Type 0) (r : Result SyncError A) (f g : A → Result SyncError B)
      → ((a : A) → r ≡ ok a → Follows R (f a) (g a))
      → Follows R (r >>= f) (r >>= g)
  unfolding Follows
  bind-Follows R (ok a) f g k = k a refl
  bind-Follows R (err e) f g k = inr refl

  log_change-Follows :
      (c : SyncChange) (s : State env now)
      → Follows (Stops c s) (log_change env now refuses c s) (apply_and_log env now c s)
  unfolding log_change apply_and_log
  log_change-Follows c s = bind-Follows (Stops c s) (apply env c s.0.tables) _ _ (λ r a.
      guard-Follows (Stops c s) (add_row c) _ _ _ (row_unwritten r.0 r.1 a)
        (Follows-refl (Stops c s) _))

  test_local-Follows :
      (c : SyncChange) (o : Option SyncChange) (s : State env now)
      → latest_change s.0.log c.entity_type c.entity_id ≡ o
      → Follows (Stops c s) (test_local env now refuses c o s) (check_local env now c o s)
  unfolding test_local check_local file_conflict
  test_local-Follows c none s l = log_change-Follows c s
  test_local-Follows c (some r) s l = elim (Bool-cases (conflicts_with r c)) [
    | inl e ↦ rw e (
        guard-Follows (Stops c s) (add_conflict c) _ _ _ conflict_unwritten (
          guard-Follows (Stops c s) (find_conflict c) _ _ _ (conflict_unread r l)
            (Follows-refl (Stops c s) _)))
    | inr e ↦ rw e (log_change-Follows c s)
  ]

  take_known-Follows :
      (c : SyncChange) (s : State env now)
      → Follows (Stops c s) (take_known env now refuses c s) (push_known env now c s)
  unfolding take_known push_known
  take_known-Follows c s =
      guard-Follows (Stops c s) (find_row c) s.0 _ _ row_unread
        (elim (Bool-cases (seen (logged now c) s.0.log)) [
          | inl e ↦ rw e (Follows-refl (Stops c s) _)
          | inr e ↦ rw e (
              guard-Follows (Stops c s) (find_latest c) s.0 _ _ latest_unread
                (test_local-Follows c _ s refl))
        ])

  take_typed-Follows :
      (c : SyncChange) (s : State env now) (o : Option Text)
      → Follows (Stops c s) (take_typed env now refuses c s o) (push_typed env now c s o)
  unfolding take_typed push_typed
  take_typed-Follows c s none = Follows-refl (Stops c s) _
  take_typed-Follows c s (some t) = take_known-Follows c s

  take_one-Follows :
      (c : SyncChange) (s : State env now)
      → Follows (Stops c s) (take_one env now refuses c s) (push_one env now c s)
  unfolding take_one push_one
  take_one-Follows c s = take_typed-Follows c s (entity_type_to_table c.entity_type)

  guard-eq-err :
      {A : Type 0} (q : PushStatement) (d : Db env.Tables) (r : Result SyncError A) {e : SyncError}
      → guard env now refuses q d r ≡ err e
      → ((e ≡ db) × (refuses q d ≡ true)) ⊎ (r ≡ err e)
  unfolding guard
  guard-eq-err q d r {e} h = elim (Bool-cases (refuses q d)) [
    | inl f ↦ inl (same (rw f at h), f)
    | inr f ↦ inr (rw f at h)
  ]
    where
      same : {A : Type 0} → ◌≡◌ {A = Result SyncError A} (err db) (err e) → e ≡ db
      same k = cc

  Follows-eq-ok :
      {A : Type 0} (R : Type 0) (r r' : Result SyncError A) {a : A}
      → r ≡ ok a
      → Follows R r r'
      → r' ≡ ok a
  unfolding Follows
  Follows-eq-ok R (ok b) r' h k = k ∙ h
  Follows-eq-ok R (err e) r' h k = absurd (err-ne-ok h)

  Follows-eq-err :
      {A : Type 0} (R : Type 0) (r r' : Result SyncError A) {e : SyncError}
      → r ≡ err e
      → Follows R r r'
      → ((e ≡ db) × R) ⊎ (r' ≡ err e)
  unfolding Follows
  Follows-eq-err R (ok b) r' h k = absurd (err-ne-ok (sym h))
  Follows-eq-err R (err d) r' {e} h k = rw (err_inj h) at k
    where
      err_inj : {A : Type 0} → ◌≡◌ {A = Result SyncError A} (err d) (err e) → d ≡ e
      err_inj q = cc

  -- the answers differ at most in a version that could not be read, which is 0
  abbrev pub Agrees : Db env.Tables × PushResponse → Db env.Tables × PushResponse → Type 0
  Agrees (d, r) (d', r') =
      (d ≡ d')
      × (r.accepted ≡ r'.accepted)
      × (r.conflicts ≡ r'.conflicts)
      × ((r.latest_version ≡ r'.latest_version) ⊎ (r.latest_version ≡ pos 0))

  -- the database refuses to end the transaction
  abbrev pub Unclosed : State env now → Type 0
  Unclosed s = (refuses clear_flag s.0 ≡ true) ⊎ (refuses commit (respond env now s).0 ≡ true)

  close-eq-err :
      (s : State env now) {e : SyncError} → close env now refuses s ≡ err e → (e ≡ db) × Unclosed s
  unfolding close
  close-eq-err s h = elim (guard-eq-err clear_flag _ _ h) [
    | inl r ↦ (r.0, inl r.1)
    | inr k ↦ elim (guard-eq-err commit _ _ k) [
      | inl r ↦ (r.0, inr r.1)
      | inr l ↦ absurd (err-ne-ok (sym l))
    ]
  ]

  -- Why the changes of a push, from a state on, end it with `e`.
  pub data Breaks (e : SyncError) : List SyncChange → State env now → Type 0 where
    fails :
        {c : SyncChange} {cs : List SyncChange} {s : State env now}
        → Fails env now e c s
        → Breaks e (c ∷ cs) s
    stops :
        {c : SyncChange} {cs : List SyncChange} {s : State env now}
        → Stops c s
        → e ≡ db
        → Breaks e (c ∷ cs) s
    passes :
        {c : SyncChange} {cs : List SyncChange} {s s' : State env now}
        → push_one env now c s ≡ ok s'
        → Breaks e cs s'
        → Breaks e (c ∷ cs) s
    unclosed : {s : State env now} → Unclosed s → e ≡ db → Breaks e [] s

  first_error :
      {A B C : Type 0} (r : Result SyncError A) (f : A → Result SyncError B)
      (g : B → Result SyncError C) {e : SyncError}
      → (r >>= f >>= g) ≡ err e
      → (r ≡ err e) ⊎ ((a : A) × (r ≡ ok a) × ((f a >>= g) ≡ err e))
  first_error (ok a) f g h = inr (a, refl, h)
  first_error (err d) f g h = inl (cc)

  changes-Breaks :
      (cs : List SyncChange) (s : State env now) (e : SyncError)
      → s.0.sync_apply ≡ true
      → (take_changes env now refuses cs s >>= close env now refuses) ≡ err e
      → Breaks e cs s
  unfolding take_changes
  changes-Breaks [] s e f h = let (q, u) = close-eq-err s h in unclosed u q
  changes-Breaks (c ∷ cs) s e f h =
      elim (first_error (take_one env now refuses c s) (take_changes env now refuses cs)
        (close env now refuses) h) [
          | inl a ↦ elim (Follows-eq-err (Stops c s) _ _ a (take_one-Follows c s)) [
            | inl r ↦ stops r.1 r.0
            | inr b ↦ fails (push_one-Fails env now c s e f b)
          ]
          | inr (m, a, k) ↦
              let b = Follows-eq-ok (Stops c s) _ _ a (take_one-Follows c s) in
              passes b (
                changes-Breaks cs m e
                  (Outcome-flag env now c s m (push_one-Outcome env now c s m f b) f) k)
        ]

  -- A push fails only because the database refuses to open the transaction or to set the flag, or, past
  -- the changes that pass, because it refuses one of the engine's own statements for a change in the
  -- state in which that runs, because the change has an unknown entity type, because the tables that
  -- it meets refuse it, or because the database refuses to clear the flag or to commit. The unique
  -- index on the change log never refuses a row of a push.
  pub run_push-Breaks :
      (cs : List SyncChange) (d : Db env.Tables) (e : SyncError)
      → run_push env now refuses cs d ≡ err e
      → ((e ≡ db) × ((refuses begin d ≡ true) ⊎ (refuses set_flag d ≡ true)))
        ⊎ Breaks e cs (record d { sync_apply = true }, [])
  unfolding run_push
  run_push-Breaks cs d e h = elim (guard-eq-err begin _ _ h) [
    | inl r ↦ inl (r.0, inl r.1)
    | inr k ↦ elim (guard-eq-err set_flag _ _ k) [
      | inl r ↦ inl (r.0, inr r.1)
      | inr l ↦ inr (changes-Breaks cs (record d { sync_apply = true }, []) e refl l)
    ]
  ]
