-- ===== src/SyncServer/Requests.antt =====
-- livtet-sync-server/src/requests.rs: the log of the last answered requests, the oldest in front.
pub mod History
use livtet.Base.{
  ℕ, suc, ◌-◌, Bool, Option, List, [], ◌∷◌, ◌++◌, leb, if◌then◌else◌, length, take, reverse,
}
use livtet.Base.Text.{Text}

abbrev pub request_log_cap : ℕ
request_log_cap = 200

pub record RequestRecord : Type 0 where
  pub op : Text
  pub node_id : Text
  pub device_id : Option Text
  pub outcome : Text
  pub at : Text
  pub elapsed_ms : ℕ

-- `while queue.len() >= REQUEST_LOG_CAP { queue.pop_front(); }`
unfoldable pub pop_over : List RequestRecord → List RequestRecord
pop_over [] = []
pop_over (r ∷ queue) =
    let rest = pop_over queue in
    if leb request_log_cap (length (r ∷ queue)) then rest else r ∷ queue

unfoldable pub record_request : RequestRecord → List RequestRecord → List RequestRecord
record_request r queue = pop_over queue ++ r ∷ []

unfoldable pub recent : ℕ → List RequestRecord → List RequestRecord
recent limit queue = take limit (reverse queue)
