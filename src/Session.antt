-- ===== src/Session.antt =====
-- libs/shared/redis/src/redis.service.ts: `saveSessionWithEviction` and the Lua script that it
-- runs as one atomic step.
pub mod Sets
pub mod Eviction
pub mod Hashes
pub mod Newest
pub mod Strings
use skill_up.Base.{ℕ, suc, ◌-◌, ◌*◌, Bool, true, false, List, [], ◌∷◌, ◌++◌, if◌then◌else◌, ltb}
use skill_up.Text.{Text, codes}
use skill_up.Services.{Services}

pub record SessionParams : Type 0 where
  pub session_id : Text
  pub user_id : Text
  pub hashed_refresh_token : Text
  pub ip_address : Text
  pub user_agent : Text
  pub created_at : Text
  pub max_devices : ℕ
  pub ttl_seconds : ℕ

-- The defaults of the destructuring: five devices, seven days.
abbrev pub default_max_devices : ℕ
default_max_devices = 5

abbrev pub default_ttl_seconds : ℕ
default_ttl_seconds = 7 * 24 * 60 * 60

unfoldable pub session_key : Text → Text
session_key sid = codes "session:" ++ sid

unfoldable pub user_sessions_key : Text → Text
user_sessions_key uid = codes "user_sessions:" ++ uid

-- The hash that step 1 of the script writes.
abbrev pub session_fields : SessionParams → List (Text × Text)
session_fields p =
    (codes "userId", p.user_id)
    ∷ (codes "hashedRefreshToken", p.hashed_refresh_token)
    ∷ (codes "ipAddress", p.ip_address)
    ∷ (codes "userAgent", p.user_agent)
    ∷ (codes "createdAt", p.created_at)
    ∷ []

module _ (S : Services) where
  -- `for _, sid in ipairs(staleSessions) do redis.call('DEL', 'session:' .. sid) end`
  unfoldable pub delete_sessions : List Text → S.Store → S.Store
  delete_sessions [] s = s
  delete_sessions (sid ∷ sids) s = delete_sessions sids (S.del (session_key sid) s)

  -- Step 3: the excess sessions of lowest rank go.
  unfoldable pub evict : Text → ℕ → S.Store → S.Store
  evict key max_allowed s =
      let total = S.zcard key s in
      let excess = total - max_allowed in
      if ltb max_allowed total
      then S.zremrangebyrank key 0 (excess - 1) (delete_sessions (S.zrange key 0 (excess - 1) s) s)
      else s

  -- Steps 1 and 2: the session's hash, and its place among the user's sessions.
  unfoldable pub list_session : SessionParams → ℕ → S.Store → S.Store
  list_session p score s =
      let key = user_sessions_key p.user_id in
      let saved =
        S.expire (session_key p.session_id) p.ttl_seconds
          (S.hset (session_key p.session_id) (session_fields p) s) in
      S.expire key p.ttl_seconds (S.zadd key score p.session_id saved)

  unfoldable pub save_session : SessionParams → ℕ → S.Store → S.Store
  save_session p score s =
      evict (user_sessions_key p.user_id) p.max_devices (list_session p score s)
