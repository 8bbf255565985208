-- ===== src/Redis/Reconnect.antt =====
-- The reconnections to Redis: how long each waits and how many there are.
use skill_up.Base.{ℕ, ◌*◌, ◌≤◌, ◌<◌, ◌≡◌, none, some, ◌⊎◌, arith}
use skill_up.Redis.{retry_strategy}

-- A reconnection of the number `n` waits for `n` tenths of a second, a second and a half at the
-- longest, and behind the fifteenth there is none.
pub retry_strategy-bound :
    (n : ℕ)
    → ((n ≤ 15) × (retry_strategy n ≡ some (n * 100)) × (n * 100 ≤ 1500))
      ⊎ ((15 < n) × (retry_strategy n ≡ none))
unfolding retry_strategy
retry_strategy-bound n = ground arith
