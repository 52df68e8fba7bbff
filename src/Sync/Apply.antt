-- ===== src/Sync/Apply.antt =====
-- livtet-sync/src/apply.rs: a pushed change becomes one statement on its entity's table.
pub mod Marks
pub mod Statements
use livtet.Base.{
  ℕ, suc, ◌+◌, ◌-◌, Bool, true, false, not, ◌&&◌, ◌||◌, Option, none, some, List, [], ◌∷◌, ◌++◌,
  map, ◌==◌, if◌then◌else◌, length, any,
}
use livtet.Base.Text.{Text, codes, text_eq, to_ascii_uppercase, parse_uint, parse_nonempty}
use livtet.Base.Int.{ℤ, pos, negsuc, eqb_ℤ}
use livtet.Base.Result.{Result, ok, err, ok_or, ◌>>=◌}
use livtet.Sync.Types.{
  SyncChange, SyncError, db, unknown_entity_type, invalid_payload, invalid_operation,
  invalid_entity_id,
}
use livtet.Sync.Entities.{SyncableEntityKind, all_kinds, find_kind, table_name}
use livtet.Sync.Json.{
  Json, null, bool, num, str, arr, obj, Fields, get, as_str, as_i64, as_f64, as_bool, is_null,
  SqlValue, bytes, big_int, double, boolean, string, Statement, ColumnType, binary, var_binary,
  blob, tiny_integer, small_integer, integer, big_integer, tiny_unsigned, small_unsigned, unsigned,
  big_unsigned, float, double_precision, decimal, boolean_column, other, Column, Schema, Env,
}

-- `[Text]::join`
unfoldable pub join : Text → List Text → Text
join sep [] = []
join sep (t ∷ []) = t
join sep (t ∷ u ∷ ts) = t ++ (sep ++ join sep (u ∷ ts))

abbrev pub or_else {ℓ} : {A : Type ℓ} → Option A → Option A → Option A
or_else (some a) b = some a
or_else none b = b

abbrev pub and_then {ℓ κ} : {A : Type ℓ} {B : Type κ} → Option A → (A → Option B) → Option B
and_then (some a) f = f a
and_then none f = none

negate : ℕ → ℤ
negate n = if n == 0 then pos 0 else negsuc (n - 1)

-- the digits behind a `-`: no second sign
negated_digits : Text → Option ℤ
unfolding negate parse_nonempty
negated_digits s = and_then (parse_nonempty 9223372036854775808 s) (λ n. some (negate n))

-- `s.parse::<i64>()`
unfoldable pub parse_i64 : Text → Option ℤ
unfolding parse_uint negated_digits
parse_i64 [] = none
parse_i64 (c ∷ s) =
    if c == b'-'
    then negated_digits s
    else and_then (parse_uint 9223372036854775807 (c ∷ s)) (λ n. some (pos n))

-- `value.as_i64()` as a flag
flag_of : Option ℤ → Option Bool
flag_of none = none
flag_of (some n) =
    if eqb_ℤ n (pos 0) then some false else if eqb_ℤ n (pos 1) then some true else none

-- the classes of column types that `json_to_sql` tells apart
pub data Binding : Type 0 where
  as_bytes as_integer as_double as_flag as_text : Binding

unfoldable pub binding_of : ColumnType → Binding
binding_of binary = as_bytes
binding_of var_binary = as_bytes
binding_of blob = as_bytes
binding_of tiny_integer = as_integer
binding_of small_integer = as_integer
binding_of integer = as_integer
binding_of big_integer = as_integer
binding_of tiny_unsigned = as_integer
binding_of small_unsigned = as_integer
binding_of unsigned = as_integer
binding_of big_unsigned = as_integer
binding_of float = as_double
binding_of double_precision = as_double
binding_of decimal = as_double
binding_of boolean_column = as_flag
binding_of other = as_text

abbrev pub delete_op : Text
delete_op = codes "DELETE"

abbrev pub insert_op : Text
insert_op = codes "INSERT"

abbrev pub update_op : Text
update_op = codes "UPDATE"

module _ (env : Env) where
  open env use {F, parse_json, print_json, parse_f64, hex_decode, ulid_decode, schema}

  -- `DbId::from_hex`
  unfoldable pub from_hex : Text → Option (List ℕ)
  from_hex s = and_then (hex_decode s) (λ b. if length b == 16 then some b else none)

  -- `DbId::from_wire`
  unfoldable pub from_wire : Text → Option (List ℕ)
  unfolding from_hex
  from_wire s = or_else (from_hex s) (ulid_decode s)

  null_value : Binding → SqlValue F
  null_value as_bytes = bytes none
  null_value as_integer = big_int none
  null_value as_double = double none
  null_value as_flag = boolean none
  null_value as_text = string none

  text_of : Json F → Text
  text_of (str t) = t
  text_of v = print_json v

  -- the conversion of a value that is not null
  bind_value : Binding → Json F → Option (SqlValue F)
  unfolding from_wire parse_i64 flag_of text_of
  bind_value as_bytes v = and_then (and_then (as_str v) from_wire) (λ id. some (bytes (some id)))
  bind_value as_integer v =
      and_then (or_else (as_i64 v) (and_then (as_str v) parse_i64)) (λ n. some (big_int (some n)))
  bind_value as_double v =
      and_then (or_else (as_f64 v) (and_then (as_str v) parse_f64)) (λ x. some (double (some x)))
  bind_value as_flag v =
      and_then (or_else (as_bool v) (flag_of (as_i64 v))) (λ b. some (boolean (some b)))
  bind_value as_text v = some (string (some (text_of v)))

  unfoldable pub json_to_sql : ColumnType → Json F → Text → Result SyncError (SqlValue F)
  unfolding binding_of null_value bind_value
  json_to_sql column v entity_type =
      if is_null v
      then ok (null_value (binding_of column))
      else ok_or (invalid_payload entity_type) (bind_value (binding_of column) v)

  as_object : Text → Option (Json F) → Result SyncError (Fields F)
  as_object entity_type (some (obj map)) = ok map
  as_object entity_type _ = err (invalid_payload entity_type)

  unfoldable pub payload_object : SyncChange → Result SyncError (Fields F)
  unfolding as_object
  payload_object c = as_object c.entity_type (parse_json c.payload)

  -- `from_entity_id`, on the parsed `entity_id`
  from_entity_id : Bool → Text → Text → Option (Json F) → Option (Json F)
  from_entity_id single entity_id name (some (obj map)) = get name map
  from_entity_id single entity_id name (some (str id)) = if single then some (str id) else none
  from_entity_id single entity_id name _ = if single then some (str entity_id) else none

  abbrev payload_get : Option (Fields F) → Text → Option (Json F)
  payload_get payload name = and_then payload (get name)

  -- the loop over `pk_names`
  resolve_keys :
      Bool → SyncChange → Option (Fields F) → List Column → Result SyncError (List (Json F))
  unfolding from_entity_id get
  resolve_keys single c payload [] = ok []
  resolve_keys single c payload (k ∷ ks) =
      let rest = resolve_keys single c payload ks in
      let parsed = parse_json c.entity_id in
      ok_or (invalid_entity_id c.entity_type)
        (or_else (payload_get payload k.name) (from_entity_id single c.entity_id k.name parsed))
      >>= λ v. rest >>= λ vs. ok (v ∷ vs)

  unfoldable pub resolve_primary_keys :
      Schema → SyncChange → Option (Fields F) → Result SyncError (List (Json F))
  unfolding resolve_keys
  resolve_primary_keys s c payload =
      resolve_keys (length s.primary_key == 1) c payload s.primary_key

  -- the values of the key columns, zipped with the resolved values
  unfoldable pub key_values :
      SyncChange → List Column → List (Json F) → Result SyncError (List (SqlValue F))
  unfolding json_to_sql
  key_values c (k ∷ ks) (v ∷ vs) =
      let rest = key_values c ks vs in
      json_to_sql k.column_type v c.entity_type >>= λ x. rest >>= λ xs. ok (x ∷ xs)
  key_values c _ _ = ok []

  -- `pk_values`, a map from the names of the key columns
  unfoldable pub key_map : List Column → List (Json F) → List (Text × Json F)
  key_map (k ∷ ks) (v ∷ vs) = (k.name, v) ∷ key_map ks vs
  key_map _ _ = []

  key_get : Text → List (Text × Json F) → Option (Json F)
  key_get name [] = none
  key_get name ((k, v) ∷ m) = let rest = key_get name m in if text_eq k name then some v else rest

  -- the loop over `E::Column`: the columns that have a value, with the values to bind
  unfoldable pub upsert_columns :
      SyncChange
      → Fields F
      → List (Text × Json F)
      → List Column
      → Result SyncError (List (Text × SqlValue F))
  unfolding json_to_sql get key_get
  upsert_columns c payload keys [] = ok []
  upsert_columns c payload keys (k ∷ ks) =
      let rest = upsert_columns c payload keys ks in
      elim (or_else (get k.name payload) (key_get k.name keys)) [
        | none ↦ rest
        | some v ↦
            json_to_sql k.column_type v c.entity_type >>= λ x. rest >>= λ xs. ok ((k.name, x) ∷ xs)
      ]

  unfoldable pub delete_sql : Text → List Text → Text
  unfolding join
  delete_sql table keys =
      codes "DELETE FROM "
      ++ (table ++ (codes " WHERE " ++ join (codes " AND ") (map (λ k. k ++ codes " = ?") keys)))

  abbrev names : List Column → List Text
  names = map (λ (k : Column). k.name)

  without : List Text → List Text → List Text
  without keys [] = []
  without keys (n ∷ ns) =
      let rest = without keys ns in if any (text_eq n) keys then rest else n ∷ rest

  conflict_clause : List Text → Text
  unfolding join
  conflict_clause [] = codes "DO NOTHING"
  conflict_clause (n ∷ ns) =
      codes "DO UPDATE SET "
      ++ join (codes ", ") (map (λ m. m ++ (codes " = excluded." ++ m)) (n ∷ ns))

  unfoldable pub upsert_sql : Text → List Text → List Text → Text
  unfolding join without conflict_clause
  upsert_sql table columns keys =
      codes "INSERT INTO "
      ++ (table
          ++ (codes " ("
              ++ (join (codes ", ") columns
                  ++ (codes ") VALUES ("
                      ++ (join (codes ", ") (map (λ _. codes "?") columns)
                          ++ (codes ") ON CONFLICT ("
                              ++ (join (codes ", ") keys
                                  ++ (codes ") " ++ conflict_clause (without keys columns)))))))))

  unfoldable pub delete_statement :
      Text → Schema → SyncChange → Result SyncError (Option (Statement F))
  delete_statement table s c = resolve_primary_keys s c none >>= λ resolved.
      key_values c s.primary_key resolved >>= λ values.
      ok (some (record { sql = delete_sql table (names s.primary_key); values = values }))

  unfoldable pub upsert_of : Text → List Text → List (Text × SqlValue F) → Option (Statement F)
  upsert_of table keys [] = none
  upsert_of table keys (b ∷ bound) = some (record {
    sql = upsert_sql table (map (λ p. p.0) (b ∷ bound)) keys;
    values = map (λ p. p.1) (b ∷ bound);
  })

  unfoldable pub upsert_statement :
      Text → Schema → SyncChange → Result SyncError (Option (Statement F))
  upsert_statement table s c = payload_object c >>= λ payload.
      resolve_primary_keys s c (some payload) >>= λ resolved.
      upsert_columns c payload (key_map s.primary_key resolved) s.columns >>= λ bound.
      ok (upsert_of table (names s.primary_key) bound)

  -- `apply_one` up to the statement that it runs; `none` where it returns with no statement
  unfoldable pub statement_of : Text → Schema → SyncChange → Result SyncError (Option (Statement F))
  statement_of table s c =
      let operation = map to_ascii_uppercase c.operation in
      if text_eq operation delete_op
      then delete_statement table s c
      else if text_eq operation insert_op || text_eq operation update_op
      then upsert_statement table s c
      else err (invalid_operation c.entity_type c.operation)

  -- `txn.execute_raw(stmt)`
  unfoldable pub run :
      Option (Statement F) → env.Tables → Result SyncError (env.Tables × List SyncChange)
  run none t = ok (t, [])
  run (some s) t = ok_or db (env.execute s t)

  unfoldable pub apply_one :
      Text → Schema → SyncChange → env.Tables → Result SyncError (env.Tables × List SyncChange)
  apply_one table s c t = statement_of table s c >>= λ stmt. run stmt t

  -- `apply`, through `dispatch_apply`
  unfoldable pub apply : SyncChange → env.Tables → Result SyncError (env.Tables × List SyncChange)
  unfolding apply_one
  apply c t = elim (find_kind all_kinds c.entity_type) [
    | none ↦ err (unknown_entity_type c.entity_type)
    | some k ↦ apply_one (table_name k) (schema k) c t
  ]
