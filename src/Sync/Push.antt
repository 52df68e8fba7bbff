-- ===== src/Sync/Push.antt =====
-- `SyncEngine::push_changes` of livtet-sync/src/engine.rs: one transaction that checks, applies and
-- logs the changes of a peer. A failure rolls the transaction back. The database refuses no statement
-- here but those that apply or log a change; Refusal has the other refusals.
pub mod Growth
pub mod Replay
pub mod Failure
pub mod Order
pub mod Cases
pub mod Refusal
use livtet.Base.{
  ℕ, Bool, true, false, not, ◌&&◌, ◌||◌, Option, none, some, List, [], ◌∷◌, ◌++◌, map, ◌==◌,
  if◌then◌else◌,
}
use livtet.Base.Text.{Text, codes, text_eq, to_ascii_uppercase}
use livtet.Base.Int.{ℤ, pos, ltb_ℤ, eqb_ℤ}
use livtet.Base.Result.{Result, ok, err, ◌>>=◌}
use livtet.Sync.Types.{SyncChange, Conflict, PushResponse, SyncError, unknown_entity_type}
use livtet.Sync.Entities.{entity_type_to_table}
use livtet.Sync.Json.{Env}
use livtet.Sync.Apply.{apply}
use livtet.Sync.Store.{
  Db, max_version, latest_change, seen, insert_log, echo_all, insert_conflict,
  fetch_latest_conflict,
}

-- the change as the log records it: the operation in upper case, logged now
unfoldable pub logged : Text → SyncChange → SyncChange
logged now c = record c { operation = map to_ascii_uppercase c.operation; changed_at = now }

-- `local_version > change.version || (local_version == change.version && local_payload != …)`
unfoldable pub conflicts_with : SyncChange → SyncChange → Bool
conflicts_with local_row c =
    ltb_ℤ c.version local_row.version
    || eqb_ℤ local_row.version c.version && not (text_eq local_row.payload c.payload)

-- `conflicts.push(row_to_conflict(&row))`, if there is a row
abbrev pub push_found : List Conflict → Option Conflict → List Conflict
push_found ks none = ks
push_found ks (some k) = ks ++ k ∷ []

-- `conflicts.is_empty()`
abbrev pub no_conflicts : List Conflict → Bool
no_conflicts [] = true
no_conflicts (_ ∷ _) = false

abbrev pub Progress : Type 0 → Type 0
Progress T = Db T × List Conflict

module _ {T : Type 0} where
  unfoldable pub record_conflict : Text → SyncChange → SyncChange → Progress T → Progress T
  record_conflict now local_row c (d, found) =
      let d' = insert_conflict now c local_row.payload d in
      (d', push_found found (fetch_latest_conflict d'.conflicts c))

module _ (env : Env) (now : Text) where
  abbrev State : Type 0
  State = Progress env.Tables

  -- `apply` and the insert into the change log
  unfoldable pub apply_and_log : SyncChange → State → Result SyncError State
  apply_and_log c (d, found) = apply env c d.tables >>= λ r.
      insert_log (logged now c) (echo_all now r.1 (record d { tables = r.0 })) >>= λ d'.
      ok (d', found)

  -- the test against the latest local row
  unfoldable pub check_local : SyncChange → Option SyncChange → State → Result SyncError State
  check_local c none s = apply_and_log c s
  check_local c (some local_row) s =
      if conflicts_with local_row c
      then ok (record_conflict now local_row c s)
      else apply_and_log c s

  -- the body of the loop for a known entity type
  unfoldable pub push_known : SyncChange → State → Result SyncError State
  push_known c s =
      if seen (logged now c) s.0.log
      then ok s
      else check_local c (latest_change s.0.log c.entity_type c.entity_id) s

  -- `let Some(_) = entity_type_to_table(…) else { return Err(…) }`
  unfoldable pub push_typed : SyncChange → State → Option Text → Result SyncError State
  push_typed c s none = err (unknown_entity_type c.entity_type)
  push_typed c s (some _) = push_known c s

  unfoldable pub push_one : SyncChange → State → Result SyncError State
  push_one c s = push_typed c s (entity_type_to_table c.entity_type)

  unfoldable pub push_all : List SyncChange → State → Result SyncError State
  push_all [] s = ok s
  push_all (c ∷ cs) s = push_one c s >>= λ s'. push_all cs s'

  -- the response, past the commit
  unfoldable pub respond : State → Db env.Tables × PushResponse
  respond (d, found) = (
    record d { sync_apply = false },
    record { accepted = no_conflicts found; conflicts = found; latest_version = max_version d.log },
  )

  -- An error carries no new database: the transaction is rolled back.
  unfoldable pub push_changes :
      List SyncChange → Db env.Tables → Result SyncError (Db env.Tables × PushResponse)
  unfolding respond
  push_changes cs d = push_all cs (record d { sync_apply = true }, []) >>= λ s. ok (respond s)
