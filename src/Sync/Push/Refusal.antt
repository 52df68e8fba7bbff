-- ===== src/Sync/Push/Refusal.antt =====
-- `SyncEngine::push_changes` of livtet-sync/src/engine.rs with each place where the database may refuse
-- a statement. A refusal ends the push, and the transaction is rolled back.
pub mod Causes
use livtet.Base.{Bool, true, false, Option, none, some, List, [], ◌∷◌, if◌then◌else◌}
use livtet.Base.Text.{Text}
use livtet.Base.Int.{pos}
use livtet.Base.Result.{Result, ok, err, ◌>>=◌}
use livtet.Sync.Types.{SyncChange, PushResponse, SyncError, db, unknown_entity_type}
use livtet.Sync.Entities.{entity_type_to_table}
use livtet.Sync.Json.{Env}
use livtet.Sync.Apply.{apply}
use livtet.Sync.Store.{Db, latest_change, seen, insert_log, echo_all, insert_conflict}
use livtet.Sync.Push.{logged, conflicts_with, record_conflict, State, push_found, respond}

-- the statements of a push, but for the one that applies a change
pub data PushStatement : Type 0 where
  begin set_flag clear_flag commit read_version : PushStatement
  find_row find_latest add_conflict find_conflict add_row : SyncChange → PushStatement

-- `refuses` tells which statement fails in which state of the database.
module _ (env : Env) (now : Text) (refuses : PushStatement → Db env.Tables → Bool) where
  -- `.await?` on a statement
  unfoldable pub guard :
      {A : Type 0} → PushStatement → Db env.Tables → Result SyncError A → Result SyncError A
  guard q d r = if refuses q d then err db else r

  unfoldable pub log_change : SyncChange → State env now → Result SyncError (State env now)
  log_change c s = apply env c s.0.tables >>= λ r.
      let d = echo_all now r.1 (record s.0 { tables = r.0 }) in
      guard (add_row c) d (insert_log (logged now c) d >>= λ d'. ok (d', s.1))

  unfoldable pub file_conflict :
      SyncChange → SyncChange → State env now → Result SyncError (State env now)
  file_conflict local_row c s = guard (add_conflict c) s.0 (
      guard (find_conflict c) (insert_conflict now c local_row.payload s.0)
        (ok (record_conflict now local_row c s)))

  unfoldable pub test_local :
      SyncChange → Option SyncChange → State env now → Result SyncError (State env now)
  test_local c none s = log_change c s
  test_local c (some local_row) s =
      if conflicts_with local_row c then file_conflict local_row c s else log_change c s

  unfoldable pub take_known : SyncChange → State env now → Result SyncError (State env now)
  take_known c s = guard (find_row c) s.0 (
      if seen (logged now c) s.0.log
      then ok s
      else guard (find_latest c) s.0
          (test_local c (latest_change s.0.log c.entity_type c.entity_id) s))

  unfoldable pub take_typed :
      SyncChange → State env now → Option Text → Result SyncError (State env now)
  take_typed c s none = err (unknown_entity_type c.entity_type)
  take_typed c s (some _) = take_known c s

  unfoldable pub take_one : SyncChange → State env now → Result SyncError (State env now)
  take_one c s = take_typed c s (entity_type_to_table c.entity_type)

  unfoldable pub take_changes : List SyncChange → State env now → Result SyncError (State env now)
  take_changes [] s = ok s
  take_changes (c ∷ cs) s = take_one c s >>= λ s'. take_changes cs s'

  -- `get_latest_version().await.unwrap_or(0)`
  unfoldable pub versioned : Db env.Tables × PushResponse → Db env.Tables × PushResponse
  versioned (d, r) =
      if refuses read_version d then (d, record r { latest_version = pos 0 }) else (d, r)

  -- past the loop
  unfoldable pub close : State env now → Result SyncError (Db env.Tables × PushResponse)
  unfolding versioned
  close s =
      guard clear_flag s.0 (guard commit (respond env now s).0 (ok (versioned (respond env now s))))

  unfoldable pub run_push :
      List SyncChange → Db env.Tables → Result SyncError (Db env.Tables × PushResponse)
  run_push cs d =
      guard begin d
        (guard set_flag d (take_changes cs (record d { sync_apply = true }, []) >>= close))
