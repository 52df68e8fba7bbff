-- ===== src/Sync/Store/Rows.antt =====
-- The rows that an engine pass adds to the change log.
use livtet.Base.{ℕ, List, [], ◌∷◌}
use livtet.Sync.Types.{SyncChange}

-- Rows made by `f` from the changes of a list, in order: each change once or not at all.
pub data Logs (f : SyncChange → SyncChange) : List SyncChange → List SyncChange → Type 0 where
  none_left : Logs f [] []
  skip : {c : SyncChange} {cs rows : List SyncChange} → Logs f cs rows → Logs f (c ∷ cs) rows
  keep :
      {c : SyncChange} {cs rows : List SyncChange} (n : ℕ)
      → Logs f cs rows
      → Logs f (c ∷ cs) (record (f c) { id = n } ∷ rows)
