-- ===== src/Sync/Tests.antt =====
-- A small client database, and the theorems of the sync engine on it.
use livtet.Base.{
  ℕ, suc, ◌+◌, true, false, none, some, List, [], ◌∷◌, ◌++◌, ◌≡◌, refl, length, Bool, ◌⊎◌,
}
use livtet.Base.Text.{Text, codes, text_eq, to_ascii_uppercase, is_ascii_alphanumeric}
use livtet.Base.Int.{pos}
use livtet.Sync.Store.Rows.{Logs}
use livtet.Sync.Push.Growth.{push_changes-Grows, Grows}
use livtet.Sync.Push.Cases.{Effect, push_one-Effect}
use livtet.Sync.Push.Replay.{push_changes-again}
use livtet.Sync.Push.Refusal.{
  PushStatement, begin, set_flag, read_version, guard, take_typed, take_one, take_changes, run_push,
}
use livtet.Sync.Push.Refusal.Causes.{Breaks, run_push-Breaks}
use livtet.Sync.Receive.{
  apply_changes, receive_all, receive_one, receive_typed, receive_known, receive_checked,
  receive_row, receive_statement, upsert_payload, bind_columns, sql_value, is_id_column,
  is_identifier, is_operation, ordered, ApplyOutcome,
}
use livtet.Sync.Receive.Accounting.{total-apply_changes}
use livtet.Sync.Receive.History.{apply_changes-RowsFor, recorded}
use livtet.Sync.Query.{
  newer, by_version, pull_changes, list_conflicts, resolve_conflict, unresolved,
}
use livtet.Sync.Query.Paging.{pull_changes-next}
use livtet.Sync.Query.Resolution.{list_conflicts-resolve_conflict, others, has_id}
use livtet.Base.Sort.{sort_by}
use livtet.Base.Result.{ok, err}
use livtet.Sync.Types
use livtet.Sync.Types.{SyncChange, Conflict, PushResponse, unknown_entity_type}
use livtet.Sync.Entities.{
  entity_type_name, table_name, find_kind, match_text, entity_type_to_table, apply_rank,
}
use livtet.Sync.Json.{str, obj, end, field, Env, other, get}
use livtet.Sync.Store.{
  Db, max_version, latest_change, seen, same_entity, same_identity, insert_log, echo, echo_all,
  discard_echoes,
}
use livtet.Sync.Push.{
  push_changes, push_all, push_one, push_typed, push_known, check_local, apply_and_log, logged,
  conflicts_with, record_conflict,
}
use livtet.Sync.Apply.Statements.{statement_of-IsBalanced, IsBalanced}
use livtet.Sync.Json.{Statement, string}
use livtet.Sync.Entities.{work}
use livtet.Sync.Push.Order.{IsGuarded, push_one-IsGuarded}
use livtet.Sync.Apply.{
  apply, apply_one, statement_of, run, upsert_statement, upsert_of, upsert_columns, key_map,
  resolve_primary_keys, payload_object, json_to_sql, binding_of, upsert_sql, join, delete_statement,
}

-- a row of the works table, as its audit trigger logs it
abbrev trigger_row : SyncChange
trigger_row = record {
  id = 0;
  entity_type = codes "work";
  entity_id = codes "w1";
  operation = codes "UPDATE";
  version = pos 0;
  payload = [];
  changed_at = [];
  device_id = codes "local";
}

-- one statement changes one row of the works table
abbrev client : Env
client = record {
  F = ℕ;
  Tables = ℕ;
  parse_json = λ _. some (obj (field (codes "id") (str (codes "w1")) end));
  print_json = λ _. [];
  parse_f64 = λ _. none;
  hex_decode = λ _. none;
  ulid_decode = λ _. none;
  schema = λ _. record {
    columns = record { name = codes "id"; column_type = other } ∷ [];
    primary_key = record { name = codes "id"; column_type = other } ∷ [];
  };
  execute = λ _ n. some (suc n, trigger_row ∷ []);
}

abbrev empty_db : Db ℕ
empty_db = record {
  log = [];
  next_id = 1;
  conflicts = [];
  next_conflict = 1;
  sync_apply = false;
  tables = 0;
}

-- a change of a peer, with its operation in lower case
abbrev remote : SyncChange
remote = record {
  id = 9;
  entity_type = codes "work";
  entity_id = codes "w1";
  operation = codes "update";
  version = pos 7;
  payload = codes "{}";
  changed_at = codes "then";
  device_id = codes "peer";
}

abbrev today : Text
today = codes "now"

abbrev logged_remote : SyncChange
logged_remote = record remote { id = 1; operation = codes "UPDATE"; changed_at = codes "now" }

abbrev pushed_db : Db ℕ
pushed_db = record empty_db { log = logged_remote ∷ []; next_id = 2; tables = 1 }

abbrev accepted : PushResponse
accepted = record { accepted = true; conflicts = []; latest_version = pos 7 }

push_once : push_changes client today (remote ∷ []) empty_db ≡ ok (pushed_db, accepted)
unfolding push_changes push_all push_one push_typed push_known check_local apply_and_log logged
    conflicts_with record_conflict apply apply_one statement_of run upsert_statement upsert_of
    upsert_columns key_map resolve_primary_keys payload_object json_to_sql binding_of find_kind
    entity_type_name entity_type_to_table match_text table_name seen same_identity same_entity
    latest_change insert_log echo_all echo max_version get upsert_sql join delete_statement text_eq
    to_ascii_uppercase
push_once = refl

abbrev strange : SyncChange
strange = record remote { entity_type = codes "author" }

push_strange :
    push_changes client today (strange ∷ []) empty_db ≡ err (unknown_entity_type (codes "author"))
unfolding push_changes push_all push_one push_typed entity_type_to_table match_text text_eq
push_strange = refl

push_one-Effect_example :
    Effect client today remote
      (record empty_db { sync_apply = true }, [])
      (record pushed_db { sync_apply = true }, [])
unfolding push_one push_typed push_known check_local apply_and_log logged conflicts_with
    record_conflict apply apply_one statement_of run upsert_statement upsert_of upsert_columns
    key_map resolve_primary_keys payload_object json_to_sql binding_of find_kind entity_type_name
    entity_type_to_table match_text table_name seen same_identity same_entity latest_change
    insert_log echo_all echo max_version get upsert_sql join delete_statement text_eq
    to_ascii_uppercase
push_one-Effect_example = push_one-Effect client today remote _ _ refl refl

push_changes-Grows_example :
    Grows client today (remote ∷ []) empty_db pushed_db × (pushed_db.sync_apply ≡ false)
push_changes-Grows_example =
    push_changes-Grows client today (remote ∷ []) empty_db pushed_db accepted push_once

push_changes-again_example :
    push_changes client (codes "later") (remote ∷ []) pushed_db ≡ ok (pushed_db, accepted)
push_changes-again_example =
    push_changes-again client today (codes "later") (remote ∷ []) empty_db pushed_db accepted
      push_once refl

-- the latest version cannot be read
abbrev unread : PushStatement → Db ℕ → Bool
unread read_version _ = true
unread _ _ = false

run_strange :
    run_push client today unread (strange ∷ []) empty_db
    ≡ err (unknown_entity_type (codes "author"))
unfolding run_push guard take_changes take_one take_typed entity_type_to_table match_text text_eq
run_strange = refl

run_push-Breaks_example :
    ((unknown_entity_type (codes "author") ≡ Types.db)
      × ((unread begin empty_db ≡ true) ⊎ (unread set_flag empty_db ≡ true)))
    ⊎ Breaks client today unread
        (unknown_entity_type (codes "author"))
        (strange ∷ [])
        (record empty_db { sync_apply = true }, [])
run_push-Breaks_example =
    run_push-Breaks client today unread (strange ∷ []) empty_db
      (unknown_entity_type (codes "author")) run_strange

-- a change as `pull_changes` of a peer sends it
abbrev pulled : SyncChange
pulled = record remote { operation = codes "UPDATE" }

abbrev received_db : Db ℕ
received_db = record empty_db {
  log = record (recorded today pulled) { id = 2 } ∷ [];
  next_id = 3;
  tables = 1;
}

abbrev one_applied : ApplyOutcome
one_applied = record { applied = 1; skipped = 0; conflicts = [] }

receive_once : apply_changes client today [] (pulled ∷ []) empty_db ≡ ok (received_db, one_applied)
unfolding apply_changes receive_all receive_one receive_typed receive_known receive_checked
    receive_row receive_statement upsert_payload bind_columns sql_value is_id_column is_identifier
    is_operation ordered entity_type_to_table match_text seen same_identity same_entity
    latest_change insert_log echo_all echo max_version join text_eq run sort_by apply_rank
    discard_echoes is_ascii_alphanumeric
receive_once = refl

total-apply_changes_example :
    one_applied.applied + one_applied.skipped + length one_applied.conflicts ≡ 1
total-apply_changes_example =
    total-apply_changes client today [] (pulled ∷ []) empty_db received_db one_applied receive_once

apply_changes-RowsFor_example :
    (rows : List SyncChange) × (received_db.log ≡ empty_db.log ++ rows)
    × Logs (recorded today) (ordered (pulled ∷ [])) rows
unfolding ordered sort_by apply_rank match_text text_eq same_entity
apply_changes-RowsFor_example =
    apply_changes-RowsFor client today [] (pulled ∷ []) empty_db received_db one_applied
      ((λ table s t t' es q h e. cc), tt) receive_once

abbrev log_of_two : List SyncChange
log_of_two = record pulled { version = pos 9 } ∷ pulled ∷ []

pull_changes-next_example :
    sort_by by_version (newer (pos 0) log_of_two)
    ≡ (pull_changes (pos 0) 1 log_of_two).changes
      ++ sort_by by_version (newer (pull_changes (pos 0) 1 log_of_two).latest_version log_of_two)
pull_changes-next_example = pull_changes-next (pos 0) 1 log_of_two (((λ e. cc), tt), (tt, tt))

abbrev open_one : Conflict
open_one = record {
  id = 3;
  entity_type = codes "work";
  entity_id = codes "w1";
  local_payload = [];
  remote_payload = [];
  resolved = false;
  resolution = none;
  merged_payload = none;
  detected_at = [];
}

list_conflicts-resolve_conflict_example :
    ((resolve_conflict 3 (codes "local") none (open_one ∷ [])).1
      ≡ has_id 3 (unresolved (open_one ∷ [])))
    × (list_conflicts (resolve_conflict 3 (codes "local") none (open_one ∷ [])).0
        ≡ others 3 (list_conflicts (open_one ∷ [])))
list_conflicts-resolve_conflict_example =
    list_conflicts-resolve_conflict 3 (codes "local") none (open_one ∷ [])

abbrev work_row : Statement ℕ
work_row = record {
  sql = codes "INSERT INTO works (id) VALUES (?) ON CONFLICT (id) DO NOTHING";
  values = string (some (codes "w1")) ∷ [];
}

work_statement :
    statement_of client (codes "works") (client.schema work) remote ≡ ok (some work_row)
unfolding statement_of upsert_statement upsert_of upsert_columns key_map resolve_primary_keys
    payload_object json_to_sql binding_of get upsert_sql join text_eq to_ascii_uppercase
work_statement = refl

statement_of-IsBalanced_example : IsBalanced client (some work_row)
statement_of-IsBalanced_example =
    statement_of-IsBalanced client (codes "works") (client.schema work) remote (some work_row) refl
      (refl, tt) (refl, tt) work_statement

-- an older row of the same work
abbrev older : SyncChange
older = record remote {
  id = 1;
  operation = codes "INSERT";
  version = pos 3;
  device_id = codes "tablet";
}

abbrev older_db : Db ℕ
older_db = record empty_db { log = older ∷ []; next_id = 2; sync_apply = true }

abbrev newer_db : Db ℕ
newer_db = record older_db {
  log = older ∷ record logged_remote { id = 2 } ∷ [];
  next_id = 3;
  tables = 1;
}

push_newer : push_one client today remote (older_db, []) ≡ ok (newer_db, [])
unfolding push_one push_typed push_known check_local apply_and_log logged conflicts_with
    record_conflict apply apply_one statement_of run upsert_statement upsert_of upsert_columns
    key_map resolve_primary_keys payload_object json_to_sql binding_of find_kind entity_type_name
    entity_type_to_table match_text table_name seen same_identity same_entity latest_change
    insert_log echo_all echo max_version get upsert_sql join delete_statement text_eq
    to_ascii_uppercase
push_newer = refl

push_one-IsGuarded_example : IsGuarded client today remote (older_db, []) (newer_db, [])
push_one-IsGuarded_example =
    push_one-IsGuarded client today remote (older_db, []) (newer_db, []) push_newer
