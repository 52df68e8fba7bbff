-- ===== src/Sync/Json.antt =====
-- `serde_json::Value`, the SQL values and statements, and what livtet-sync takes from other crates.
use livtet.Base.{ℕ, Bool, true, false, Option, none, some, List, if◌then◌else◌}
use livtet.Base.Text.{Text, text_eq}
use livtet.Base.Int.{ℤ}
use livtet.Sync.Types.{SyncChange}
use livtet.Sync.Entities.{SyncableEntityKind}

-- A number is what `as_i64` and `as_f64` make of it; `F` stands for `f64`.
mutual
  pub data Json (F : Type 0) : Type 0 where
    null : Json F
    bool : Bool → Json F
    num : Option ℤ → F → Json F
    str : Text → Json F
    arr : Items F → Json F
    obj : Fields F → Json F

  pub data Items (F : Type 0) : Type 0 where
    nil : Items F
    cons : Json F → Items F → Items F

  -- `serde_json::Map`, in the order of iteration
  pub data Fields (F : Type 0) : Type 0 where
    end : Fields F
    field : Text → Json F → Fields F → Fields F

module _ {F : Type 0} where
  -- `Map::get`
  unfoldable pub get : Text → Fields F → Option (Json F)
  get k end = none
  get k (field j v fs) = let rest = get k fs in if text_eq j k then some v else rest

  -- `Value::as_str`
  abbrev pub as_str : Json F → Option Text
  as_str (str t) = some t
  as_str _ = none

  abbrev pub as_i64 : Json F → Option ℤ
  as_i64 (num n _) = n
  as_i64 _ = none

  abbrev pub as_f64 : Json F → Option F
  as_f64 (num _ x) = some x
  as_f64 _ = none

  abbrev pub as_bool : Json F → Option Bool
  as_bool (bool b) = some b
  as_bool _ = none

  abbrev pub is_null : Json F → Bool
  is_null null = true
  is_null _ = false

-- `sea_orm::Value`, as far as the engine binds it
pub data SqlValue (F : Type 0) : Type 0 where
  bytes : Option (List ℕ) → SqlValue F
  big_int : Option ℤ → SqlValue F
  double : Option F → SqlValue F
  boolean : Option Bool → SqlValue F
  string : Option Text → SqlValue F

pub record Statement (F : Type 0) : Type 0 where
  pub sql : Text
  pub values : List (SqlValue F)

pub data ColumnType : Type 0 where
  binary var_binary blob : ColumnType
  tiny_integer small_integer integer big_integer : ColumnType
  tiny_unsigned small_unsigned unsigned big_unsigned : ColumnType
  float double_precision decimal : ColumnType
  boolean_column other : ColumnType

pub record Column : Type 0 where
  pub name : Text
  pub column_type : ColumnType

-- `E::Column` and `E::PrimaryKey` of a sea-orm entity
pub record Schema : Type 0 where
  pub columns : List Column
  pub primary_key : List Column

-- What livtet-sync calls and does not define: serde_json, hex, ulid, the `f64` of std, and SQLite
-- running a statement on the entity tables. `execute` gives the rows that the audit triggers of
-- the table would log, or fails.
pub record Env : Type 1 where
  pub F : Type 0
  pub Tables : Type 0
  pub parse_json : Text → Option (Json F)
  pub print_json : Json F → Text
  pub parse_f64 : Text → Option F
  pub hex_decode : Text → Option (List ℕ)
  pub ulid_decode : Text → Option (List ℕ)
  pub schema : SyncableEntityKind → Schema
  pub execute : Statement F → Tables → Option (Tables × List SyncChange)
