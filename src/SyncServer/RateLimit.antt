-- ===== src/SyncServer/RateLimit.antt =====
-- livtet-sync-server/src/rate_limit.rs: the budget of pairing claims per node. Instants and
-- durations are natural numbers of one unit, and the map of windows is a list of bindings.
pub mod Windows
pub mod Budget
mod Tests
use livtet.Base.{
  ℕ, suc, ◌+◌, ◌-◌, Bool, true, false, not, Option, none, some, List, [], ◌∷◌, ltb, leb,
  if◌then◌else◌,
}
use livtet.Base.Text.{Text, text_eq}

-- the start of a window and the claims counted in it
abbrev pub Window : Type 0
Window = ℕ × ℕ

pub record ClaimRateLimiter : Type 0 where
  pub window : ℕ
  pub max_claims : ℕ
  pub windows : List (Text × Window)

unfoldable pub new : ℕ → ℕ → ClaimRateLimiter
new window max_claims = record { window = window; max_claims = max_claims; windows = [] }

unfoldable pub lookup : Text → List (Text × Window) → Option Window
lookup id [] = none
lookup id ((k, w) ∷ m) = let rest = lookup id m in if text_eq k id then some w else rest

-- `HashMap::insert`
unfoldable pub set_window : Text → Window → List (Text × Window) → List (Text × Window)
set_window id w [] = (id, w) ∷ []
set_window id w ((k, v) ∷ m) =
    let rest = set_window id w m in if text_eq k id then (k, w) ∷ m else (k, v) ∷ rest

-- `duration_since` is 0 for a later start.
unfoldable pub retain_open : ℕ → ℕ → List (Text × Window) → List (Text × Window)
retain_open window now [] = []
retain_open window now ((k, w) ∷ m) =
    let rest = retain_open window now m in if ltb (now - w.0) window then (k, w) ∷ rest else rest

-- `entry(…).or_insert((now, 0))`
abbrev pub or_fresh : ℕ → Option Window → Window
or_fresh now none = (now, 0)
or_fresh now (some w) = w

-- on the entry of the node
unfoldable pub count_claim :
    ClaimRateLimiter → Text → List (Text × Window) → Window → Bool × ClaimRateLimiter
count_claim l id open_windows w =
    if leb l.max_claims w.1
    then (false, record l { windows = set_window id w open_windows })
    else (true, record l { windows = set_window id (w.0, w.1 + 1) open_windows })

unfoldable pub allow_at : Text → ℕ → ClaimRateLimiter → Bool × ClaimRateLimiter
allow_at id now l =
    let open_windows = retain_open l.window now l.windows in
    count_claim l id open_windows (or_fresh now (lookup id open_windows))

-- `Default`, in seconds
abbrev pub default_limiter : ClaimRateLimiter
unfolding new
default_limiter = new 60 10
