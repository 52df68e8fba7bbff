-- ===== src/Sync/Store.antt =====
-- The client database of livtet-sync: `change_log`, `conflicts`, the `sync_apply` setting, and the
-- statements that livtet-sync/src/engine.rs runs on them. Row ids are positive, so natural numbers.
-- Where SQLite leaves the order of ties open, the row that was inserted first is taken.
pub mod Laws
pub mod Echoes
pub mod Rows
pub mod Latest
pub mod Identity
use livtet.Base.{
  ℕ, suc, ◌+◌, Bool, true, false, not, ◌&&◌, ◌||◌, Option, none, some, List, [], ◌∷◌, ◌++◌, map,
  ◌==◌, leb, if◌then◌else◌, any,
}
use livtet.Base.Text.{Text, codes, text_eq}
use livtet.Base.Int.{ℤ, pos, ltb_ℤ, eqb_ℤ, suc_ℤ, max_ℤ}
use livtet.Base.Result.{Result, ok, err}
use livtet.Base.Sort.{sort_by}
use livtet.Sync.Types.{SyncChange, Conflict, SyncError, db}

-- `T` stands for the entity tables.
pub record Db (T : Type 0) : Type 0 where
  pub log : List SyncChange
  pub next_id : ℕ
  pub conflicts : List Conflict
  pub next_conflict : ℕ
  pub sync_apply : Bool
  pub tables : T

-- `WHERE entity_type = ? AND entity_id = ?`
unfoldable pub same_entity : Text → Text → SyncChange → Bool
same_entity t i r = text_eq r.entity_type t && text_eq r.entity_id i

max_from : ℤ → List SyncChange → ℤ
max_from v [] = v
max_from v (r ∷ rs) = max_from (max_ℤ v r.version) rs

-- `SELECT COALESCE(MAX(version), 0) FROM change_log`
unfoldable pub max_version : List SyncChange → ℤ
unfolding max_from
max_version [] = pos 0
max_version (r ∷ rs) = max_from r.version rs

-- `WHERE entity_type = ? AND entity_id = ? ORDER BY version DESC LIMIT 1`, past the best row so far
better_row : Text → Text → Option SyncChange → SyncChange → Option SyncChange
unfolding same_entity
better_row t i none r = if same_entity t i r then some r else none
better_row t i (some b) r =
    if same_entity t i r && ltb_ℤ b.version r.version then some r else some b

latest_from : Text → Text → Option SyncChange → List SyncChange → Option SyncChange
unfolding better_row
latest_from t i best [] = best
latest_from t i best (r ∷ rs) = latest_from t i (better_row t i best r) rs

unfoldable pub latest_change : List SyncChange → Text → Text → Option SyncChange
unfolding latest_from
latest_change log t i = latest_from t i none log

-- The identity `(entity_type, entity_id, version, device_id, operation)` of a change.
unfoldable pub same_identity : SyncChange → SyncChange → Bool
unfolding same_entity
same_identity c r =
    same_entity c.entity_type c.entity_id r
    && eqb_ℤ r.version c.version
    && text_eq r.device_id c.device_id
    && text_eq r.operation c.operation

-- `SELECT 1 FROM change_log WHERE …` on the identity
unfoldable pub seen : SyncChange → List SyncChange → Bool
unfolding same_identity
seen c log = any (same_identity c) log

abbrev local : Text
local = codes "local"

module _ {T : Type 0} where
  -- The row takes the next id. The unique index of migration 0012 refuses a second remote row of
  -- one identity.
  unfoldable pub insert_log : SyncChange → Db T → Result SyncError (Db T)
  insert_log c d =
      if not (text_eq c.device_id local) && seen c d.log
      then err db
      else ok
          (record d { log = d.log ++ record c { id = d.next_id } ∷ []; next_id = d.next_id + 1 })

  -- An audit trigger's insert: the next version, by the device `local`, unless `sync_apply` is set.
  unfoldable pub echo : Text → SyncChange → Db T → Db T
  unfolding max_version
  echo now e d = if d.sync_apply then d else record d {
    log =
        d.log
        ++ record e {
          id = d.next_id;
          version = suc_ℤ (max_version d.log);
          changed_at = now;
          device_id = local;
        }
          ∷ [];
    next_id = d.next_id + 1;
  }

  unfoldable pub echo_all : Text → List SyncChange → Db T → Db T
  echo_all now [] d = d
  echo_all now (e ∷ es) d = echo_all now es (echo now e d)

  -- `INSERT INTO conflicts … VALUES (?, ?, ?, ?, datetime('now'))`
  unfoldable pub insert_conflict : Text → SyncChange → Text → Db T → Db T
  insert_conflict now c local_payload d = record d {
    conflicts =
        d.conflicts
        ++ record {
          id = d.next_conflict;
          entity_type = c.entity_type;
          entity_id = c.entity_id;
          local_payload = local_payload;
          remote_payload = c.payload;
          resolved = false;
          resolution = none;
          merged_payload = none;
          detected_at = now;
        }
          ∷ [];
    next_conflict = d.next_conflict + 1;
  }

-- `WHERE entity_type = ? AND entity_id = ? AND resolved = 0`
unfoldable pub open_conflict : Text → Text → Conflict → Bool
open_conflict t i k = text_eq k.entity_type t && text_eq k.entity_id i && not k.resolved

-- `… ORDER BY id DESC LIMIT 1`, past the best row so far
better_conflict : Text → Text → Option Conflict → Conflict → Option Conflict
unfolding open_conflict
better_conflict t i none k = if open_conflict t i k then some k else none
better_conflict t i (some b) k = if open_conflict t i k && leb b.id k.id then some k else some b

fetch_from : Text → Text → Option Conflict → List Conflict → Option Conflict
unfolding better_conflict
fetch_from t i best [] = best
fetch_from t i best (k ∷ ks) = fetch_from t i (better_conflict t i best k) ks

unfoldable pub fetch_latest_conflict : List Conflict → SyncChange → Option Conflict
unfolding fetch_from
fetch_latest_conflict ks c = fetch_from c.entity_type c.entity_id none ks

-- `DELETE FROM change_log WHERE entity_type = ? AND entity_id = ? AND version > ?`
unfoldable pub discard_echoes : SyncChange → ℤ → List SyncChange → List SyncChange
unfolding same_entity
discard_echoes c baseline [] = []
discard_echoes c baseline (r ∷ rs) =
    let rest = discard_echoes c baseline rs in
    if same_entity c.entity_type c.entity_id r && ltb_ℤ baseline r.version then rest else r ∷ rest
