-- ===== src/Users/Login.antt =====
-- apps/users-service/src/providers/login.provider.ts: `login`, in the phases that its comments
-- number. The fields of `LoginFaults` say which external calls reject.
pub mod Lockout
pub mod Outcome
pub mod Guessing
pub mod Success
use skill_up.Base.{
  ℕ, ◌-◌, ◌≡◌, Bool, true, false, ◌||◌, Option, none, some, ◌++◌, if◌then◌else◌, leb, ◌==◌,
}
use skill_up.Text.{Text, codes, text_eq, trim, to_lower, includes, or_else}
use skill_up.Text.Decimal.{print, at_least}
use skill_up.Shared.{User, UserStatus, GrpcStatus}
use skill_up.Services.{Services, Ttl}
use skill_up.Effects.{
  Thrown, rpc, World, Run, ok, err, M, ◌>>=◌, ◌>>◌, pure, throw, catch, call, branch, reads, writes,
  queries, increments,
}
use skill_up.Users.Keys.{login_rate_key}
use skill_up.Users.Counter.{read_count, effective_ttl, retry_after}
use skill_up.Users.Tokens.{Fresh, AuthData, issue_session}

pub record LoginRequest : Type 0 where
  pub identifier : Text
  pub password : Text
  pub ip_address : Text
  pub ip_address_alias : Text
  pub user_agent : Text
  pub user_agent_alias : Text

pub record LoginFaults : Type 0 where
  pub get : Bool
  pub ttl : Bool
  pub find : Bool
  pub compare : Bool
  pub incr : Bool
  pub expire : Bool
  pub del : Bool
  pub hash : Bool
  pub save : Bool

abbrev dummy_bcrypt_hash : Text
dummy_bcrypt_hash = codes "$2b$10$wK1e9rM8h6iVbEaZ5gQ6weQ4bQ9xZ2z0dK7uT3eN1uO8wK1e9rM8h"

-- `isEmail ? rawIdentifier.toLowerCase() : rawIdentifier`
unfoldable pub normalize_identifier : Text → Text
normalize_identifier identifier =
    let raw = trim identifier in if includes (codes "@") raw then to_lower raw else raw

-- The rows of the query: the email, or the username.
unfoldable pub names_user : Text → User → Bool
names_user identifier u = text_eq u.email (to_lower identifier) || text_eq u.username identifier

-- The messages of the exceptions.
unfoldable pub locked_message : ℕ → Text
locked_message seconds =
    codes "Too many failed login attempts. Please try again after 15 minutes."
    ++ retry_after seconds

unfoldable pub remaining_message : ℕ → Text
remaining_message n =
    codes "Invalid credentials. You have " ++ print n ++ codes " attempts remaining."

unfoldable pub invalid_credentials : Text
invalid_credentials = codes "Invalid credentials"

unfoldable pub not_verified : Text
not_verified = codes "Account is not verified. Please verify your email first."

unfoldable pub suspended : Text
suspended = codes "Account has been suspended."

-- `request.ipAddress || request.ip_address || '127.0.0.1'`
unfoldable pub client_ip : LoginRequest → Text
client_ip r = or_else r.ip_address (or_else r.ip_address_alias (codes "127.0.0.1"))

unfoldable pub client_agent : LoginRequest → Text
client_agent r = or_else r.user_agent (or_else r.user_agent_alias (codes "Unknown-Device"))

module _ (S : Services) (f : LoginFaults) where
  -- 1. Brute-force pre-check.
  unfoldable pub check_lockout : Text → M S (Unit {0})
  check_lockout key = do
    attempts ← call f.get (reads (S.get key))
    branch (at_least (read_count attempts) 5)
        (do
          ttl ← call f.ttl (reads (S.ttl key))
          throw (rpc GrpcStatus.resource_exhausted (locked_message (effective_ttl ttl 900))))
        (pure tt)

  -- 2 and 3. The user of that email or username; a comparison with a dummy hash if there is none.
  unfoldable pub find_account : Text → Text → M S User
  find_account identifier password = do
    found ← call f.find (queries (S.find_user (names_user identifier)))
    elim found [
      | some u ↦ pure u
      | none ↦ call f.compare (throw (rpc GrpcStatus.unauthenticated invalid_credentials))
    ]

  -- 4. Account status.
  unfoldable pub check_status : UserStatus → M S (Unit {0})
  check_status UserStatus.pending = throw (rpc GrpcStatus.failed_precondition not_verified)
  check_status UserStatus.blocked = throw (rpc GrpcStatus.permission_denied suspended)
  check_status UserStatus.active = pure tt

  -- The counter after a wrong password: 1 stands for it if INCR rejects, and a rejection of
  -- EXPIRE is only logged.
  unfoldable pub count_failure : Text → M S ℕ
  count_failure key =
      catch
        (do
          attempts ← call f.incr (increments key)
          catch
              (branch (attempts == 1 || leb 5 attempts) (call f.expire (writes (S.expire key 900)))
                (pure tt))
              (λ e. pure tt)
          pure attempts)
        (λ e. pure 1)

  -- 5. Password verification.
  unfoldable pub check_password : Text → Text → Text → M S (Unit {0})
  unfolding count_failure
  check_password key password hash = do
    valid ← call f.compare (pure (S.bcrypt_compare password hash))
    branch valid (pure tt) (do
      attempts ← count_failure key
      branch (leb 5 attempts) (throw (rpc GrpcStatus.resource_exhausted (locked_message 900)))
          (throw (rpc GrpcStatus.unauthenticated (remaining_message (5 - attempts)))))

  -- 6. Reset of the failure counter, whose rejection is only logged.
  unfoldable pub clear_failures : Text → M S (Unit {0})
  clear_failures key = catch (call f.del (writes (S.del key))) (λ e. pure tt)

  unfoldable pub login : LoginRequest → Fresh → M S AuthData
  login request fresh = do
    let identifier = normalize_identifier request.identifier
    let key = login_rate_key identifier
    check_lockout key
    user ← find_account identifier request.password
    check_status user.status
    check_password key request.password user.password
    clear_failures key
    issue_session S f.hash f.save user fresh (client_ip request) (client_agent request)
