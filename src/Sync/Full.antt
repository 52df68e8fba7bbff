-- ===== src/Sync/Full.antt =====
-- `pull_full` and `get_latest_version` of livtet-sync/src/engine.rs: every syncable row, for a peer
-- that starts from nothing.
use livtet.Base.{ℕ, ◌==◌, Bool, Option, none, some, List, [], ◌∷◌, map, if◌then◌else◌, length}
use livtet.Base.Text.{Text, codes}
use livtet.Base.Int.{ℤ, pos}
use livtet.Base.Result.{Result, ok, err, ◌>>=◌}
use livtet.Sync.Types.{SyncChange, SyncError, db}
use livtet.Sync.Json.{Json, num, str, obj, Fields, end, Env}
use livtet.Sync.Store.{max_version}
use livtet.Sync.Receive.{insert}

pub record SyncStatus : Type 0 where
  pub latest_version : ℤ
  pub device_id : Text

pub record EntityDump (F : Type 0) : Type 0 where
  pub works : List (Json F)
  pub editions : List (Json F)
  pub edition_groups : List (Json F)
  pub series_entries : List (Json F)
  pub digital_inventory : List (Json F)
  pub owned_editions : List (Json F)
  pub editions_loans : List (Json F)
  pub annotations : List (Json F)
  pub reading_lists : List (Json F)
  pub reading_list_book : List (Json F)
  pub reading_progress : List (Json F)

pub record FullDump (F : Type 0) : Type 0 where
  pub version : ℤ
  pub device_id : Text
  pub entities : EntityDump F

-- What sea-orm, serde_json and ulid do with the cells of a row. `select` runs
-- `SELECT <columns> FROM <table>`, and a row gives the cell of a column.
pub record Reader (env : Env) : Type 1 where
  pub Cell : Type 0
  pub select : Text → List Text → env.Tables → Option (List (Text → Cell))
  pub try_i64 : Cell → Option ℤ
  pub try_f64 : Cell → Option env.F
  pub try_text : Cell → Option Text
  pub try_bytes : Cell → Option (List ℕ)
  pub to_f64 : ℤ → env.F
  pub from_f64 : env.F → Option (Json env.F)
  pub ulid_encode : List ℕ → Text

-- A refused statement is an error. `unwrap_or(0)` is `max_version`'s value for an empty log.
unfoldable pub get_latest_version : Bool → List SyncChange → Result SyncError ℤ
get_latest_version refuses log = if refuses then err db else ok (max_version log)

abbrev pub version_or_zero : Result SyncError ℤ → ℤ
version_or_zero (ok v) = v
version_or_zero (err _) = pos 0

module _ {env : Env} (r : Reader env) where
  open r use {Cell, try_i64, try_f64, try_text, try_bytes, to_f64, from_f64, ulid_encode}

  insert_some : Text → Option (Json env.F) → Fields env.F → Fields env.F
  insert_some col none o = o
  insert_some col (some v) o = insert col v o

  -- only sixteen bytes are an id
  id_value : Option (List ℕ) → Option (Json env.F)
  id_value none = none
  id_value (some b) = if length b == 16 then some (str (ulid_encode b)) else none

  text_value : Cell → Option Text → Option (Json env.F)
  unfolding id_value
  text_value c (some t) = some (str t)
  text_value c none = id_value (try_bytes c)

  real_value : Cell → Option env.F → Option (Json env.F)
  unfolding text_value
  real_value c (some x) = from_f64 x
  real_value c none = text_value c (try_text c)

  -- the first of the four types that the cell can be read as
  cell_value : Cell → Option ℤ → Option (Json env.F)
  unfolding real_value
  cell_value c (some n) = some (num (some n) (to_f64 n))
  cell_value c none = real_value c (try_f64 c)

  unfoldable pub row_object : List Text → (Text → Cell) → Fields env.F → Fields env.F
  unfolding insert_some cell_value
  row_object [] row o = o
  row_object (col ∷ cols) row o =
      row_object cols row (insert_some col (cell_value (row col) (try_i64 (row col))) o)

  rows_json : List Text → Option (List (Text → Cell)) → Result SyncError (List (Json env.F))
  unfolding row_object
  rows_json cols none = err db
  rows_json cols (some rows) = ok (map (λ row. obj (row_object cols row end)) rows)

  unfoldable pub query_table : env.Tables → Text → List Text → Result SyncError (List (Json env.F))
  unfolding rows_json
  query_table tables table cols = rows_json cols (r.select table cols tables)

  unfoldable pub pull_full :
      Text → (refuses : Bool) → List SyncChange → env.Tables → Result SyncError (FullDump env.F)
  pull_full device_id refuses log tables = do
    works ← query_table tables (codes "works") (
        codes "id"
        ∷ codes "title"
        ∷ codes "description"
        ∷ codes "sort_title"
        ∷ codes "series_type"
        ∷ codes "created_at"
        ∷ codes "updated_at"
        ∷ [])
    editions ← query_table tables (codes "editions") (
        codes "id"
        ∷ codes "work_id"
        ∷ codes "title"
        ∷ codes "published_date"
        ∷ codes "format_id"
        ∷ codes "language_id"
        ∷ codes "notes"
        ∷ codes "description"
        ∷ codes "created_at"
        ∷ codes "updated_at"
        ∷ [])
    edition_groups ← query_table tables (codes "edition_groups") (
        codes "id"
        ∷ codes "label"
        ∷ codes "description"
        ∷ codes "created_at"
        ∷ codes "updated_at"
        ∷ [])
    series_entries ←
        query_table tables (codes "series_entries")
          (codes "series_id" ∷ codes "edition_id" ∷ codes "position" ∷ codes "created_at" ∷ [])
    digital_inventory ← query_table tables (codes "digital_inventory") (
        codes "id"
        ∷ codes "edition_id"
        ∷ codes "file_path"
        ∷ codes "cover_path"
        ∷ codes "file_hash"
        ∷ codes "file_size_bytes"
        ∷ codes "notes"
        ∷ codes "added_at"
        ∷ codes "updated_at"
        ∷ [])
    owned_editions ← query_table tables (codes "owned_editions") (
        codes "id"
        ∷ codes "edition_id"
        ∷ codes "acquired_at"
        ∷ codes "condition_id"
        ∷ codes "notes"
        ∷ codes "created_at"
        ∷ codes "updated_at"
        ∷ [])
    editions_loans ← query_table tables (codes "editions_loans") (
        codes "id"
        ∷ codes "edition_id"
        ∷ codes "loan_entity_id"
        ∷ codes "owned_edition_id"
        ∷ codes "loaned_date"
        ∷ codes "due_date"
        ∷ codes "returned_date"
        ∷ [])
    annotations ← query_table tables (codes "annotations") (
        codes "id"
        ∷ codes "edition_id"
        ∷ codes "user_id"
        ∷ codes "content"
        ∷ codes "location"
        ∷ codes "created_at"
        ∷ codes "updated_at"
        ∷ [])
    reading_lists ← query_table tables (codes "reading_lists") (
        codes "id"
        ∷ codes "name"
        ∷ codes "description"
        ∷ codes "created_at"
        ∷ codes "updated_at"
        ∷ [])
    reading_list_book ←
        query_table tables (codes "reading_list_book")
          (codes "reading_list_id" ∷ codes "edition_id" ∷ codes "position" ∷ codes "added_at" ∷ [])
    reading_progress ← query_table tables (codes "reading_progress") (
        codes "id"
        ∷ codes "edition_id"
        ∷ codes "format_id"
        ∷ codes "progress"
        ∷ codes "last_location"
        ∷ codes "total_reading_time_secs"
        ∷ codes "created_at"
        ∷ [])
    ok (record {
      version = version_or_zero (get_latest_version refuses log);
      device_id = device_id;
      entities = record {
        works = works;
        editions = editions;
        edition_groups = edition_groups;
        series_entries = series_entries;
        digital_inventory = digital_inventory;
        owned_editions = owned_editions;
        editions_loans = editions_loans;
        annotations = annotations;
        reading_lists = reading_lists;
        reading_list_book = reading_list_book;
        reading_progress = reading_progress;
      };
    })
