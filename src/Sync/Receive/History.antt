-- ===== src/Sync/Receive/History.antt =====
-- `apply_changes` and the change log: old rows stay, the echoes go, the remote rows are recorded.
use mathlib.Core.List.{append-nil, append_assoc}
use livtet.Base.{
  ℕ, true, Option, none, some, List, [], ◌∷◌, ◌++◌, ◌≡◌, refl, sym, ap, ◌∙◌, arith, Bool-cases, ◌⊎◌,
  inl, inr, All, all,
}
use livtet.Base.Text.{Text, codes, text_eq}
use livtet.Base.Int.{ltb_ℤ}
use livtet.Base.Result.{ok, >>=-eq-ok, ok-injective}
use livtet.Sync.Types.{SyncChange}
use livtet.Sync.Entities.{entity_type_to_table}
use livtet.Sync.Json.{Env, Statement}
use livtet.Sync.Apply.{run}
use livtet.Sync.Store.{Db, max_version, echo_all, discard_echoes, same_entity, insert_conflict}
use livtet.Sync.Store.Laws.{insert_log-eq-ok}
use livtet.Sync.Store.Rows.{Logs, none_left, skip, keep}
use livtet.Sync.Store.Echoes.{echo_all-Echoed, discard-own}
use livtet.Sync.Push.{record_conflict}
use livtet.Sync.Receive.{
  InventoryMap, ApplyOutcome, Receipt, receive_statement, receive_row, receive_checked,
  receive_known, receive_typed, receive_one, receive_all, ordered, apply_changes, is_operation,
}

-- the change as the log records it
abbrev pub recorded : Text → SyncChange → SyncChange
recorded now c = record c { changed_at = now }

module _ (env : Env) (now : Text) (m : InventoryMap) where
  -- The statement for the change, on the table of its type, makes the audit triggers log rows of the
  -- change's entity only.
  abbrev pub HasOwnEchoes : SyncChange → Type 0
  HasOwnEchoes c =
      (table : Text) (s : Statement env.F) (t t' : env.Tables) (es : List SyncChange)
      → entity_type_to_table c.entity_type ≡ some table
      → receive_statement env now m table c ≡ ok s
      → env.execute s t ≡ some (t', es)
      → all (same_entity c.entity_type c.entity_id) es ≡ true

  run-eq-ok :
      (s : Statement env.F) (t : env.Tables) {r : env.Tables × List SyncChange}
      → run env (some s) t ≡ ok r
      → env.execute s t ≡ some r
  unfolding run
  run-eq-ok s t h = ground arith

  log-receive_row :
      (table : Text) (c : SyncChange) (d d' : Db env.Tables)
      → HasOwnEchoes c
      → entity_type_to_table c.entity_type ≡ some table
      → receive_row env now m table c d ≡ ok d'
      → (n : ℕ) × (d'.log ≡ d.log ++ record (recorded now c) { id = n } ∷ [])
  unfolding receive_row
  log-receive_row table c d d' own q h =
      let (s, a, k) = >>=-eq-ok (receive_statement env now m table c) _ h in
      let ((t, es), x, i) = >>=-eq-ok (run env (some s) d.tables) _ k in
      let b = max_version d.log in
      let mid = echo_all now es (record d { tables = t }) in
      let g = echo_all-Echoed now b c es (record d { tables = t }) (omega arith) in
      let all_own = own table s d.tables t es q a (run-eq-ok s d.tables x) in
      let e =
        insert_log-eq-ok (recorded now c) (record mid { log = discard_echoes c b mid.log }) i in
      (
        mid.next_id,
        ap (λ (y : Db env.Tables). y.log) e
            ∙ ap (λ (l : List SyncChange). l ++ record (recorded now c) { id = mid.next_id } ∷ [])
                (discard-own now b c (record d { tables = t }) mid refl (rw all_own at g)),
      )

  record RowsFor (cs : List SyncChange) (d d' : Db env.Tables) : Type 0 where
    rows : List SyncChange
    log_is : d'.log ≡ d.log ++ rows
    logs : Logs (recorded now) cs rows

  -- the log is as it was, or has one more row for the change
  abbrev OneRow : SyncChange → Receipt env now → Receipt env now → Type 0
  OneRow c s s' =
      (s'.0.log ≡ s.0.log)
      ⊎ ((n : ℕ) × (s'.0.log ≡ s.0.log ++ record (recorded now c) { id = n } ∷ []))

  receive_checked-OneRow :
      (table : Text) (c : SyncChange) (s s' : Receipt env now)
      → HasOwnEchoes c
      → entity_type_to_table c.entity_type ≡ some table
      → receive_checked env now m table c s ≡ ok s'
      → OneRow c s s'
  unfolding receive_checked
  receive_checked-OneRow table c s s' own q h = elim (Bool-cases (is_operation c.operation)) [
    | inl e ↦
        let (d, a, k) = >>=-eq-ok (receive_row env now m table c s.0) _ (rw e at h) in
        let (n, l) = log-receive_row table c s.0 d own q a in
        inr (n, ap (λ (x : Receipt env now). x.0.log) (ok-injective (sym k)) ∙ l)
    | inr e ↦ inl (ap (λ (x : Receipt env now). x.0.log) (ok-injective (sym (rw e at h))))
  ]

  receive_known-OneRow :
      (table : Text) (c : SyncChange) (r : Option SyncChange) (s s' : Receipt env now)
      → HasOwnEchoes c
      → entity_type_to_table c.entity_type ≡ some table
      → receive_known env now m table c r s ≡ ok s'
      → OneRow c s s'
  unfolding receive_known record_conflict insert_conflict
  receive_known-OneRow table c none s s' own q h = receive_checked-OneRow table c s s' own q h
  receive_known-OneRow table c (some r) s s' own q h =
      elim (Bool-cases (ltb_ℤ c.version r.version)) [
        | inl e ↦ inl (ap (λ (x : Receipt env now). x.0.log) (ok-injective (sym (rw e at h))))
        | inr e ↦ receive_checked-OneRow table c s s' own q (rw e at h)
      ]

  receive_typed-OneRow :
      (c : SyncChange) (o : Option Text) (s s' : Receipt env now)
      → HasOwnEchoes c
      → entity_type_to_table c.entity_type ≡ o
      → receive_typed env now m c o s ≡ ok s'
      → OneRow c s s'
  unfolding receive_typed
  receive_typed-OneRow c none s s' own q h =
      inl (ap (λ (x : Receipt env now). x.0.log) (ok-injective (sym h)))
  receive_typed-OneRow c (some t) s s' own q h = receive_known-OneRow t c _ s s' own q h

  receive_one-OneRow :
      (c : SyncChange) (s s' : Receipt env now)
      → HasOwnEchoes c
      → receive_one env now m c s ≡ ok s'
      → OneRow c s s'
  unfolding receive_one
  receive_one-OneRow c s s' own h = elim (Bool-cases (text_eq c.entity_type (codes "file_offer"))) [
    | inl e ↦ inl (ap (λ (x : Receipt env now). x.0.log) (ok-injective (sym (rw e at h))))
    | inr e ↦ receive_typed-OneRow c _ s s' own refl (rw e at h)
  ]

  RowsFor-cons :
      (c : SyncChange) (cs : List SyncChange) (s x : Receipt env now) (d : Db env.Tables)
      → OneRow c s x
      → RowsFor cs x.0 d
      → RowsFor (c ∷ cs) s.0 d
  RowsFor-cons c cs s x d (inl e) g = record {
    rows = g.rows;
    log_is = g.log_is ∙ ap (λ (l : List SyncChange). l ++ g.rows) e;
    logs = skip g.logs;
  }
  RowsFor-cons c cs s x d (inr (n, e)) g = record {
    rows = record (recorded now c) { id = n } ∷ g.rows;
    log_is =
        g.log_is ∙ (ap (λ (l : List SyncChange). l ++ g.rows) e ∙ append_assoc s.0.log _ g.rows);
    logs = keep n g.logs;
  }

  receive_all-RowsFor :
      (cs : List SyncChange) (s s' : Receipt env now)
      → All HasOwnEchoes cs
      → receive_all env now m cs s ≡ ok s'
      → RowsFor cs s.0 s'.0
  unfolding receive_all
  receive_all-RowsFor [] s s' own h = record {
    rows = [];
    log_is =
        ap (λ (x : Receipt env now). x.0.log) (ok-injective (sym h)) ∙ sym (append-nil s.0.log);
    logs = none_left;
  }
  receive_all-RowsFor (c ∷ cs) s s' own h =
      let (x, a, k) = >>=-eq-ok (receive_one env now m c s) (receive_all env now m cs) h in
      RowsFor-cons c cs s x s'.0 (receive_one-OneRow c s x own.0 a)
        (receive_all-RowsFor cs x s' own.1 k)

  -- Where the statement of each change, on the table of its type, makes the triggers log rows of that
  -- change's entity only, whatever the tables hold, a successful `apply_changes` keeps the whole change log, leaves no echo in it, and adds, in the
  -- order of application, rows of the given changes, each at most once.
  pub apply_changes-RowsFor :
      (cs : List SyncChange) (d d' : Db env.Tables) (o : ApplyOutcome)
      → All HasOwnEchoes (ordered cs)
      → apply_changes env now m cs d ≡ ok (d', o)
      → (rows : List SyncChange) × (d'.log ≡ d.log ++ rows) × Logs (recorded now) (ordered cs) rows
  unfolding apply_changes
  apply_changes-RowsFor cs d d' o own h =
      let g = receive_all-RowsFor (ordered cs) _ (d', o) own h in (g.rows, g.log_is, g.logs)
