-- ===== src/Sync/Query.antt =====
-- The queries of livtet-sync/src/engine.rs: `pull_changes` and its pages, `list_conflicts`, and
-- `resolve_conflict`.
pub mod Paging
pub mod Resolution
use livtet.Base.{
  ℕ, zero, suc, ◌+◌, Bool, true, false, not, ◌&&◌, Option, none, some, List, [], ◌∷◌, ◌++◌, ◌==◌,
  leb, if◌then◌else◌, length, take, keep,
}
use livtet.Base.Text.{Text}
use livtet.Base.Int.{ℤ, pos, negsuc, ltb_ℤ}
use livtet.Base.Sort.{sort_by}
use livtet.Sync.Types.{SyncChange, Conflict, PullResponse}
use livtet.Sync.Store.{Db}

-- `WHERE version > ?`
abbrev pub newer : ℤ → List SyncChange → List SyncChange
newer since = keep (λ (r : SyncChange). ltb_ℤ since r.version)

-- `ORDER BY version ASC`
abbrev pub by_version : SyncChange → SyncChange → Bool
by_version a b = not (ltb_ℤ b.version a.version)

-- `changes.last().map(|c| c.version).unwrap_or(since_version)`
last_version : ℤ → List SyncChange → ℤ
last_version v [] = v
last_version v (r ∷ rs) = last_version r.version rs

-- `LIMIT ?`, for a limit that is not negative
unfoldable pub pull_changes : ℤ → ℕ → List SyncChange → PullResponse
unfolding last_version
pull_changes since limit log =
    let changes = take limit (sort_by by_version (newer since log)) in
    record {
      changes = changes;
      has_more = length changes == limit;
      latest_version = last_version since changes;
    }

-- `WHERE resolved = 0`
abbrev pub unresolved : List Conflict → List Conflict
unresolved = keep (λ (k : Conflict). not k.resolved)

-- `ORDER BY id DESC`
abbrev pub newest_first : Conflict → Conflict → Bool
newest_first a b = leb b.id a.id

unfoldable pub list_conflicts : List Conflict → List Conflict
list_conflicts ks = sort_by newest_first (unresolved ks)

-- `UPDATE conflicts SET resolved = 1, … WHERE id = ? AND resolved = 0`, with the rows affected
unfoldable pub update_conflicts : ℕ → Text → Option Text → List Conflict → List Conflict × ℕ
update_conflicts id resolution merged [] = ([], 0)
update_conflicts id resolution merged (k ∷ ks) =
    let (rest, n) = update_conflicts id resolution merged ks in
    if k.id == id && not k.resolved
    then (
      record k { resolved = true; resolution = some resolution; merged_payload = merged } ∷ rest,
      suc n,
    )
    else (k ∷ rest, n)

-- `rows_affected() > 0`
abbrev positive : ℕ → Bool
positive zero = false
positive (suc _) = true

unfoldable pub resolve_conflict : ℕ → Text → Option Text → List Conflict → List Conflict × Bool
unfolding update_conflicts
resolve_conflict id resolution merged ks =
    let (rest, n) = update_conflicts id resolution merged ks in (rest, positive n)

-- A negative limit is none for SQLite, and no number of rows is equal to it.
unfoldable pub pull_from : ℤ → ℤ → List SyncChange → PullResponse
unfolding last_version
pull_from since (pos limit) log = pull_changes since limit log
pull_from since (negsuc _) log =
    let changes = sort_by by_version (newer since log) in
    record { changes = changes; has_more = false; latest_version = last_version since changes }

-- Row ids are positive: no row has a negative one.
unfoldable pub resolve_id : ℤ → Text → Option Text → List Conflict → List Conflict × Bool
resolve_id (pos id) resolution merged ks = resolve_conflict id resolution merged ks
resolve_id (negsuc _) resolution merged ks = (ks, false)
