-- ===== src/Sync/Receive.antt =====
-- `SyncEngine::apply_changes` of livtet-sync/src/engine.rs: the changes pulled from a peer, applied
-- parents first in one transaction, with the echoes of the audit triggers removed again.
pub mod History
pub mod Accounting
use livtet.Base.{
  ℕ, suc, ◌+◌, Bool, true, false, not, ◌&&◌, ◌||◌, Option, none, some, List, [], ◌∷◌, ◌++◌, map,
  reverse, ◌==◌, ltb, leb, if◌then◌else◌, all, length,
}
use livtet.Base.Text.{Text, codes, text_eq, is_empty, is_ascii_alphanumeric, strip_prefix}
use livtet.Base.Int.{ℤ, ltb_ℤ}
use livtet.Base.Result.{Result, ok, err, ok_or, ◌>>=◌}
use livtet.Base.Sort.{sort_by}
use livtet.Sync.Types.{SyncChange, Conflict, SyncError, db, deserialization}
use livtet.Sync.Entities.{entity_type_to_table, apply_rank}
use livtet.Sync.Json.{
  Json, null, bool, num, str, arr, obj, Fields, end, field, get, as_str, SqlValue, bytes, big_int,
  double, boolean, string, Statement, Env,
}
use livtet.Sync.Apply.{
  join, from_hex, from_wire, run, or_else, and_then, delete_op, insert_op, update_op,
}
use livtet.Sync.Store.{Db, max_version, latest_change, insert_log, echo_all, discard_echoes}
use livtet.Sync.Push.{Progress, record_conflict}

pub record InventoryPaths : Type 0 where
  pub file_path : Option Text
  pub cover_path : Option Text

-- `ApplyOptions::inventory_paths`
abbrev pub InventoryMap : Type 0
InventoryMap = List (Text × InventoryPaths)

paths_of : Text → InventoryMap → Option InventoryPaths
paths_of id [] = none
paths_of id ((k, p) ∷ m) = let rest = paths_of id m in if text_eq k id then some p else rest

pub record ApplyOutcome : Type 0 where
  pub applied : ℕ
  pub skipped : ℕ
  pub conflicts : List Conflict

-- `String`'s order, the order of a `serde_json::Map`
text_ltb : Text → Text → Bool
text_ltb [] [] = false
text_ltb [] (_ ∷ _) = true
text_ltb (_ ∷ _) [] = false
text_ltb (x ∷ xs) (y ∷ ys) = ltb x y || x == y && text_ltb xs ys

module _ {F : Type 0} where
  -- `Map::insert`
  unfoldable pub insert : Text → Json F → Fields F → Fields F
  unfolding text_ltb
  insert k v end = field k v end
  insert k v (field j w fs) =
      let rest = insert k v fs in
      if text_eq j k
      then field k v fs
      else if text_ltb k j
      then field k v (field j w fs)
      else field j w rest

  unfoldable pub optional_string : Option Text → Json F
  optional_string none = null
  optional_string (some t) = str t

  set_paths : Option InventoryPaths → Json F → Json F
  unfolding insert optional_string
  set_paths (some p) (obj fs) = obj (
      insert (codes "cover_path") (optional_string p.cover_path)
        (insert (codes "file_path") (optional_string p.file_path) fs))
  set_paths _ v = v

  -- `payload.get("id").and_then(Value::as_str)`
  normalized_id : Json F → Option Text
  unfolding get
  normalized_id (obj fs) = and_then (get (codes "id") fs) as_str
  normalized_id _ = none

  unfoldable pub apply_inventory_paths : InventoryMap → Text → Json F → Json F
  unfolding paths_of set_paths normalized_id
  apply_inventory_paths m entity_id v =
      set_paths (or_else (paths_of entity_id m) (and_then (normalized_id v) (λ id. paths_of id m)))
        v

unfoldable pub is_identifier : Text → Bool
unfolding is_ascii_alphanumeric
is_identifier s = not (is_empty s) && all (λ c. is_ascii_alphanumeric c || c == b'_') s

-- `column.ends_with("_id")`, on the reversed text
ends_with_id : Text → Bool
unfolding strip_prefix
ends_with_id s = elim (strip_prefix (codes "di_") (reverse s)) [ none ↦ false | some _ ↦ true ]

unfoldable pub is_id_column : Text → Bool
unfolding ends_with_id
is_id_column c = text_eq c (codes "id") || ends_with_id c

-- `ordered.sort_by_key(|change| apply_rank(&change.entity_type))`
unfoldable pub ordered : List SyncChange → List SyncChange
ordered = sort_by (λ a b. leb (apply_rank a.entity_type) (apply_rank b.entity_type))

-- `matches!(change.operation.as_str(), "INSERT" | "UPDATE" | "DELETE")`
unfoldable pub is_operation : Text → Bool
is_operation o = text_eq o insert_op || text_eq o update_op || text_eq o delete_op

abbrev pub quoted : Text → Text
quoted c = b'"' ∷ (c ++ b'"' ∷ [])

module _ (env : Env) (now : Text) where
  open env use {F, parse_json, print_json}

  plain_value : Json F → SqlValue F
  plain_value (str t) = string (some t)
  plain_value (bool b) = boolean (some b)
  plain_value (num (some n) _) = big_int (some n)
  plain_value (num none x) = double (some x)
  plain_value null = string none
  plain_value (arr xs) = string (some (print_json (arr xs)))
  plain_value (obj fs) = string (some (print_json (obj fs)))

  id_value : Json F → SqlValue F
  unfolding plain_value
  id_value (str []) = bytes none
  id_value (str (c ∷ t)) = elim (from_wire env (c ∷ t)) [
    | none ↦ string (some (c ∷ t))
    | some id ↦ bytes (some id)
  ]
  id_value v = plain_value v

  unfoldable pub sql_value : Text → Json F → SqlValue F
  unfolding id_value plain_value
  sql_value column v = if is_id_column column then id_value v else plain_value v

  -- the loops over the columns of an object: all names are identifiers, or the change is refused
  unfoldable pub bind_columns : Text → Fields F → Result SyncError (List (Text × SqlValue F))
  bind_columns table end = ok []
  bind_columns table (field c v fs) =
      let rest = bind_columns table fs in
      if not (is_identifier c)
      then err (deserialization table)
      else (rest >>= λ bound. ok ((c, sql_value c v) ∷ bound))

  delete_by_key : Text → List (Text × SqlValue F) → Result SyncError (Statement F)
  unfolding join
  delete_by_key table [] = err (deserialization table)
  delete_by_key table (b ∷ bound) = ok (record {
    sql =
        codes "DELETE FROM "
        ++ (table
            ++ (codes " WHERE "
                ++ join (codes " AND ") (map (λ p. p.0 ++ codes " = ?") (b ∷ bound))));
    values = map (λ p. p.1) (b ∷ bound);
  })

  delete_by_id : Text → Option (List ℕ) → Result SyncError (Statement F)
  delete_by_id table none = err (deserialization table)
  delete_by_id table (some id) = ok (record {
    sql = codes "DELETE FROM " ++ (table ++ codes " WHERE id = ?");
    values = bytes (some id) ∷ [];
  })

  -- on the entity id, read as JSON
  delete_parsed : Text → Text → Option (Json F) → Result SyncError (Statement F)
  unfolding delete_by_key delete_by_id
  delete_parsed table entity_id (some (obj key)) = bind_columns table key >>= delete_by_key table
  delete_parsed table entity_id _ = delete_by_id table (from_hex env entity_id)

  -- `delete_entity`, up to the statement that it runs
  unfoldable pub delete_entity : Text → Text → Result SyncError (Statement F)
  unfolding delete_parsed
  delete_entity table entity_id = delete_parsed table entity_id (parse_json entity_id)

  upsert_bound : Text → List (Text × SqlValue F) → Result SyncError (Statement F)
  unfolding join
  upsert_bound table [] = err (deserialization table)
  upsert_bound table (b ∷ bound) = ok (record {
    sql =
        codes "INSERT INTO "
        ++ (table
            ++ (codes " ("
                ++ (join (codes ", ") (map (λ p. quoted p.0) (b ∷ bound))
                    ++ (codes ") VALUES ("
                        ++ (join (codes ", ") (map (λ p. codes "?") (b ∷ bound))
                            ++ (codes ") ON CONFLICT DO UPDATE SET "
                                ++ join (codes ", ") (
                                    map (λ p. quoted p.0 ++ (codes " = excluded." ++ quoted p.0))
                                      (b ∷ bound))))))));
    values = map (λ p. p.1) (b ∷ bound);
  })

  -- `upsert_payload`, up to the statement that it runs
  unfoldable pub upsert_payload : Text → Json F → Result SyncError (Statement F)
  unfolding upsert_bound
  upsert_payload table (obj fs) = bind_columns table fs >>= upsert_bound table
  upsert_payload table _ = err (deserialization table)

  abbrev Receipt : Type 0
  Receipt = Db env.Tables × ApplyOutcome

  -- the statement for a change whose operation is known
  unfoldable pub receive_statement :
      InventoryMap → Text → SyncChange → Result SyncError (Statement F)
  receive_statement m table c =
      if text_eq c.operation delete_op
      then delete_entity table c.entity_id
      else (ok_or (deserialization c.entity_type) (parse_json c.payload) >>= λ payload.
          upsert_payload table (
            if text_eq c.entity_type (codes "digital_inventory")
            then apply_inventory_paths m c.entity_id payload
            else payload))

  -- the statement, the echoes of the triggers, their removal, and the remote change row
  unfoldable pub receive_row :
      InventoryMap → Text → SyncChange → Db env.Tables → Result SyncError (Db env.Tables)
  receive_row m table c d =
      let baseline = max_version d.log in
      receive_statement m table c >>= λ s. run env (some s) d.tables >>= λ r.
      (let d' = echo_all now r.1 (record d { tables = r.0 }) in
        insert_log (record c { changed_at = now })
          (record d' { log = discard_echoes c baseline d'.log }))

  abbrev skip_one : Receipt → Receipt
  skip_one (d, o) = (d, record o { skipped = o.skipped + 1 })

  unfoldable pub receive_checked :
      InventoryMap → Text → SyncChange → Receipt → Result SyncError Receipt
  receive_checked m table c (d, o) =
      if not (is_operation c.operation)
      then ok (skip_one (d, o))
      else (receive_row m table c d >>= λ d'. ok (d', record o { applied = o.applied + 1 }))

  abbrev set_conflicts : ApplyOutcome → Progress env.Tables → Receipt
  set_conflicts o (d, found) = (d, record o { conflicts = found })

  -- the test against the latest local row
  unfoldable pub receive_known :
      InventoryMap → Text → SyncChange → Option SyncChange → Receipt → Result SyncError Receipt
  receive_known m table c none s = receive_checked m table c s
  receive_known m table c (some local_row) (d, o) =
      if ltb_ℤ c.version local_row.version
      then ok (set_conflicts o (record_conflict now local_row c (d, o.conflicts)))
      else receive_checked m table c (d, o)

  unfoldable pub receive_typed :
      InventoryMap → SyncChange → Option Text → Receipt → Result SyncError Receipt
  receive_typed m c none s = ok (skip_one s)
  receive_typed m c (some table) s =
      receive_known m table c (latest_change s.0.log c.entity_type c.entity_id) s

  unfoldable pub receive_one : InventoryMap → SyncChange → Receipt → Result SyncError Receipt
  receive_one m c s =
      if text_eq c.entity_type (codes "file_offer")
      then ok (skip_one s)
      else receive_typed m c (entity_type_to_table c.entity_type) s

  unfoldable pub receive_all : InventoryMap → List SyncChange → Receipt → Result SyncError Receipt
  receive_all m [] s = ok s
  receive_all m (c ∷ cs) s = receive_one m c s >>= λ s'. receive_all m cs s'

  abbrev no_outcome : ApplyOutcome
  no_outcome = record { applied = 0; skipped = 0; conflicts = [] }

  -- An error carries no new database: the transaction is rolled back.
  unfoldable pub apply_changes :
      InventoryMap → List SyncChange → Db env.Tables → Result SyncError Receipt
  apply_changes m cs d = receive_all m (ordered cs) (d, no_outcome)
