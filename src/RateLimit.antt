-- ===== src/RateLimit.antt =====
-- apps/api-gateway/src/common/guards/ip-rate-limit.guard.ts: `canActivate` and `extractClientIp`.
-- The fields of `GuardFaults` say which calls of Redis reject.
pub mod Layers
use skill_up.Base.{
  ℕ, suc, ◌+◌, ◌-◌, ◌/◌, Bool, true, false, not, Option, none, some, List, [], ◌∷◌, ◌++◌,
  if◌then◌else◌, ltb, min, max, take, drop, ◌==◌,
}
use skill_up.Text.{Text, codes, trim, to_lower, or_else, starts_with}
use skill_up.Services.{Services, Ttl}
use skill_up.Effects.{
  Thrown, World, Run, ok, err, M, ◌>>=◌, ◌>>◌, pure, catch, call, branch, reads, writes, increments,
}
use skill_up.Users.Counter.{effective_ttl}

-- `RateLimitOptions` of rate-limit.decorator.ts; an empty prefix stands for a missing one.
pub record RateLimitOptions : Type 0 where
  pub limit : ℕ
  pub ttl : ℕ
  pub prefix : Text

-- The parts of the request that the guard reads; `none` where the body has no such string.
pub record GuardRequest : Type 0 where
  pub ip : Text
  pub remote_address : Text
  pub email : Option Text
  pub identifier : Option Text

pub record GuardFaults : Type 0 where
  pub eval_ip : Bool
  pub ttl_ip : Bool
  pub eval_email : Bool
  pub ttl_email : Bool

-- The verdict, with the seconds of `Retry-After` where the request is refused.
pub data Verdict : Type 0 where
  allowed : Verdict
  too_many_from_ip : ℕ → Verdict
  too_many_for_account : ℕ → Verdict

pub record Headers : Type 0 where
  pub limit : ℕ
  pub remaining : ℕ
  pub reset : ℕ

pub record Reply : Type 0 where
  pub verdict : Verdict
  pub headers : Option Headers

abbrev pub ipv4_prefix : Text
ipv4_prefix = codes "::ffff:"

unfoldable pub extract_client_ip : GuardRequest → Text
extract_client_ip r =
    let address = or_else r.ip (or_else r.remote_address (codes "127.0.0.1")) in
    if starts_with ipv4_prefix address then drop 7 address else address

-- A string of the body that is more than white space.
abbrev pub filled : Option Text → Option Text
filled none = none
filled (some t) = elim (trim t) [ [] ↦ none | c ∷ s ↦ some t ]

-- `rawTarget`: the email, else the identifier.
unfoldable pub raw_target : GuardRequest → Option Text
raw_target r = elim (filled r.email) [ some t ↦ some t | none ↦ filled r.identifier ]

abbrev pub prefix_of : RateLimitOptions → Text
prefix_of o = or_else o.prefix (codes "global")

unfoldable pub ip_key : Text → Text → Text
ip_key prefix ip = codes "ratelimit:" ++ (prefix ++ (codes ":ip:" ++ ip))

unfoldable pub email_key : Text → Text → Text
email_key prefix hash = codes "ratelimit:" ++ (prefix ++ (codes ":email:" ++ hash))

-- One layer's counter after the request, and the seconds that remain of its window.
pub record Layer : Type 0 where
  pub count : ℕ
  pub seconds : ℕ

-- Steps 4 and 5: the headers, and the thresholds of the two layers.
unfoldable pub judge_ip : RateLimitOptions → Layer → Verdict → Verdict
judge_ip o l rest = if ltb o.limit l.count then too_many_from_ip l.seconds else rest

unfoldable pub judge_account : RateLimitOptions → Option Layer → Verdict
judge_account o none = allowed
judge_account o (some l) = if ltb o.limit l.count then too_many_for_account l.seconds else allowed

-- `now` is the time in seconds, rounded up.
unfoldable pub headers_of : RateLimitOptions → ℕ → Layer → Option Layer → Headers
headers_of o now l none = record {
  limit = o.limit;
  remaining = o.limit - l.count;
  reset = now + l.seconds;
}
headers_of o now l (some a) = record {
  limit = o.limit;
  remaining = min (o.limit - l.count) (o.limit - a.count);
  reset = now + max l.seconds a.seconds;
}

-- `ttl == -1`
abbrev pub is_persistent : Ttl → Bool
is_persistent Ttl.persistent = true
is_persistent Ttl.missing = false
is_persistent (Ttl.seconds n) = false

module _ (S : Services) (f : GuardFaults) (o : RateLimitOptions) where
  -- The Lua script, which Redis runs as one step.
  unfoldable pub bump : Text → S.Store → ℕ × S.Store
  bump key s =
      let (n, counted) = S.incr key s in
      (
        n,
        if n == 1
            then S.expire key o.ttl counted
            else if is_persistent (S.ttl key counted)
            then S.expire key o.ttl counted
            else counted,
      )

  abbrev pub run_bump : Text → M S ℕ
  run_bump key w = ok ((bump key w.store).0) (record w { store = (bump key w.store).1 })

  unfoldable pub layer : Bool → Bool → Text → M S Layer
  layer eval_down ttl_down key = do
    n ← call eval_down (run_bump key)
    ttl ← call ttl_down (reads (S.ttl key))
    pure (record { count = n; seconds = effective_ttl ttl o.ttl })

  -- Layer B, where the body names an account: by the first sixteen digits of a hash.
  unfoldable pub account_key : Text → Text
  account_key target = email_key (prefix_of o) (take 16 (S.sha256 (to_lower (trim target))))

  unfoldable pub account_layer : Option Text → M S (Option Layer)
  account_layer none = pure none
  account_layer (some target) = do
    l ← layer f.eval_email f.ttl_email (account_key target)
    pure (some l)

  -- The `try`.
  unfoldable pub judge_request : GuardRequest → ℕ → M S Reply
  judge_request r now = do
    ip ← layer f.eval_ip f.ttl_ip (ip_key (prefix_of o) (extract_client_ip r))
    account ← account_layer (raw_target r)
    pure (record {
      verdict = judge_ip o ip (judge_account o account);
      headers = some (headers_of o now ip account);
    })

  -- Fail open: where Redis rejects, the request passes without headers.
  unfoldable pub count_request : GuardRequest → ℕ → M S Reply
  count_request r now =
      catch (judge_request r now) (λ e. pure (record { verdict = allowed; headers = none }))

-- An undecorated handler lets every request pass.
unfoldable pub can_activate :
    (S : Services) → GuardFaults → Option RateLimitOptions → GuardRequest → ℕ → M S Reply
can_activate S f none r now = pure (record { verdict = allowed; headers = none })
can_activate S f (some o) r now = count_request S f o r now
