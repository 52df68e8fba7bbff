-- ===== src/SyncServer/RateLimit/Tests.antt =====
-- The test of rate_limit.rs, and the budget on its claims.
use livtet.Base.{ℕ, ◌≤◌, List, [], ◌∷◌, ◌≡◌, refl, arith}
use livtet.Base.Text.{Text, codes, text_eq}
use livtet.SyncServer.RateLimit.{
  ClaimRateLimiter, new, allow_at, count_claim, lookup, set_window, retain_open,
}
use livtet.SyncServer.RateLimit.Budget.{allowed_claims, allowed_claims-bounded}

abbrev two_a_minute : ClaimRateLimiter
unfolding new
two_a_minute = new 60 2

abbrev claims : List (Text × ℕ)
claims =
    (codes "node-a", 0)
    ∷ (codes "node-a", 0)
    ∷ (codes "node-a", 0)
    ∷ (codes "node-b", 0)
    ∷ (codes "node-a", 59)
    ∷ []

node_a : allowed_claims (codes "node-a") claims two_a_minute ≡ 2
unfolding allowed_claims allow_at count_claim lookup set_window retain_open text_eq two_a_minute
node_a = refl

allowed_claims-bounded_example : allowed_claims (codes "node-a") claims two_a_minute ≤ 2
unfolding two_a_minute lookup
allowed_claims-bounded_example =
    allowed_claims-bounded (codes "node-a") 0 claims two_a_minute (omega arith) refl (
      (omega arith, omega arith),
      (
        (omega arith, omega arith),
        (
          (omega arith, omega arith),
          ((omega arith, omega arith), ((omega arith, omega arith), tt)),
        ),
      ),
    )
