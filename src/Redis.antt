-- ===== src/Redis.antt =====
-- libs/shared/redis/src: the methods of redis.service.ts that do more than hand a command on, but for
-- `saveSessionWithEviction`, and `retryStrategy` of redis.module.ts. The serialiser is a parameter.
pub mod Tokens
pub mod Reconnect
use skill_up.Base.{
  ℕ, zero, suc, ◌*◌, Bool, true, false, Option, none, some, [], ◌∷◌, ◌++◌, ◌==◌, if◌then◌else◌, ltb,
  min,
}
use skill_up.Text.{Text, codes}
use skill_up.Values.{Value}
use skill_up.Services.{Services}

unfoldable pub blacklist_key : Text → Text
blacklist_key jti = codes "blacklist:" ++ jti

-- The delay before the reconnection of this number, in milliseconds; `none` gives up.
unfoldable pub retry_strategy : ℕ → Option ℕ
retry_strategy times = if ltb 15 times then none else some (min (times * 100) 3000)

module _ (S : Services) where
  unfoldable pub blacklist_token : Text → ℕ → S.Store → S.Store
  blacklist_token jti ttl_seconds s = S.set_ex (blacklist_key jti) (codes "revoked") ttl_seconds s

  unfoldable pub is_token_blacklisted : Text → S.Store → Bool
  is_token_blacklisted jti s = S.exists (blacklist_key jti) s == 1

  module _ (stringify : Value → Text) (parse : Text → Option Value) where
    -- `none` and zero seconds write without a time to live.
    unfoldable pub set_json : Text → Value → Option ℕ → S.Store → S.Store
    set_json key value none s = S.set key (stringify value) s
    set_json key value (some zero) s = S.set key (stringify value) s
    set_json key value (some (suc t)) s = S.set_ex key (stringify value) (suc t) s

    -- A missing or empty text, and one that is no JSON, are null.
    abbrev pub parsed : Option Text → Option Value
    parsed none = none
    parsed (some []) = none
    parsed (some (c ∷ t)) = parse (c ∷ t)

    unfoldable pub get_json : Text → S.Store → Option Value
    get_json key s = parsed (S.get key s)
