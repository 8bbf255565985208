-- ===== src/Users/Verify.antt =====
-- apps/users-service/src/providers/verify-account.provider.ts: `verifyAccount`, in the phases that
-- its comments number. The fields of `VerifyFaults` say which external calls reject.
pub mod Outcome
pub mod Codes
pub mod Errors
pub mod Success
pub mod Once
use skill_up.Base.{
  ℕ, ◌-◌, ◌≡◌, Bool, true, false, ◌||◌, Option, none, some, List, [], ◌∷◌, ◌++◌, if◌then◌else◌, leb,
  ◌==◌,
}
use skill_up.Text.{Text, codes, text_eq, trim, to_lower, or_else}
use skill_up.Text.Decimal.{print, at_least}
use skill_up.Shared.{User, UserStatus, GrpcStatus}
use skill_up.Services.{Services, Ttl}
use skill_up.Effects.{
  Thrown, rpc, rejected, World, Run, ok, err, M, ◌>>=◌, ◌>>◌, pure, throw, catch, call, branch,
  reads, writes, queries, saves, increments,
}
use skill_up.Effects.Transaction.{TxFaults, transaction}
use skill_up.Users.Keys.{otp_key, verify_rate_key, legacy_attempts_key}
use skill_up.Users.Counter.{read_count, effective_ttl, retry_after}
use skill_up.Users.Tokens.{Fresh, AuthData, issue_session}

pub record VerifyRequest : Type 0 where
  pub email : Text
  pub code : Text
  pub ip_address : Text
  pub ip_address_alias : Text
  pub user_agent : Text
  pub user_agent_alias : Text

pub record VerifyFaults : Type 0 where
  pub get_rate : Bool
  pub ttl : Bool
  pub get_otp : Bool
  pub incr : Bool
  pub expire : Bool
  pub del_spent : Bool
  pub tx : TxFaults
  pub find : Bool
  pub save : Bool
  pub del_rate : Bool
  pub del_otp : Bool
  pub del_legacy : Bool
  pub hash : Bool
  pub session : Bool

-- `request.ipAddress || request.ip_address || '127.0.0.1'`
unfoldable pub client_ip : VerifyRequest → Text
client_ip r = or_else r.ip_address (or_else r.ip_address_alias (codes "127.0.0.1"))

unfoldable pub client_agent : VerifyRequest → Text
client_agent r = or_else r.user_agent (or_else r.user_agent_alias (codes "unknown"))

-- `email.trim().toLowerCase()`
unfoldable pub normalize_email : Text → Text
normalize_email email = to_lower (trim email)

unfoldable pub locked_message : ℕ → Text
locked_message seconds =
    codes "Too many failed verification attempts. Please try again after 15 minutes."
    ++ retry_after seconds

unfoldable pub remaining_message : ℕ → Text
remaining_message n =
    codes "Invalid verification code. You have " ++ print n ++ codes " attempts remaining."

unfoldable pub expired_message : Text
expired_message = codes "Verification code has expired or does not exist."

unfoldable pub user_not_found : Text
user_not_found = codes "User not found"

unfoldable pub already_active : Text
already_active = codes "Account is already active."

unfoldable pub activation_failed : Text
activation_failed = codes "Failed to activate user account"

-- `if (error instanceof RpcException) throw error;`, else go on.
abbrev pub rethrow_rpc : {S : Services} → Thrown → M S (Unit {0})
rethrow_rpc (rpc code message) = throw (rpc code message)
rethrow_rpc rejected = pure tt

-- `if (!storedHashedOtp) throw …`: null and the empty string.
unfoldable pub require_code : {S : Services} → Option Text → M S Text
require_code none = throw (rpc GrpcStatus.invalid_argument expired_message)
require_code (some []) = throw (rpc GrpcStatus.invalid_argument expired_message)
require_code (some (c ∷ s)) = pure (c ∷ s)

abbrev pub activate : ℕ → User → User
activate now u = record u { status = UserStatus.active; updated_at = now }

module _ (S : Services) (f : VerifyFaults) where
  -- 1. Brute-force guard. A rejection by Redis is logged, and the request goes on.
  unfoldable pub check_rate : Text → M S (Unit {0})
  check_rate key =
      catch
        (do
          attempts ← call f.get_rate (reads (S.get key))
          branch (at_least (read_count attempts) 7)
              (do
                ttl ← call f.ttl (reads (S.ttl key))
                throw (rpc GrpcStatus.resource_exhausted (locked_message (effective_ttl ttl 900))))
              (pure tt))
        rethrow_rpc

  -- The counter after a wrong code: 1 stands for it if INCR rejects, and a rejection of EXPIRE is
  -- only logged.
  unfoldable pub count_failure : Text → M S ℕ
  count_failure key =
      catch
        (do
          attempts ← call f.incr (increments key)
          catch
              (branch (attempts == 1 || leb 7 attempts) (call f.expire (writes (S.expire key 900)))
                (pure tt))
              (λ e. pure tt)
          pure attempts)
        (λ e. pure 1)

  -- 2. A wrong code; the seventh deletes the stored one.
  unfoldable pub refuse_code : Text → M S (Unit {0})
  unfolding count_failure
  refuse_code email = do
    attempts ← count_failure (verify_rate_key email)
    branch (leb 7 attempts)
        (do
          catch (call f.del_spent (writes (S.del (otp_key email)))) (λ e. pure tt)
          throw (rpc GrpcStatus.resource_exhausted (locked_message 900)))
        (throw (rpc GrpcStatus.invalid_argument (remaining_message (7 - attempts))))

  unfoldable pub check_code : Text → Text → M S (Unit {0})
  check_code email code = do
    stored ← call f.get_otp (reads (S.get (otp_key email)))
    expected ← require_code stored
    branch (text_eq (S.sha256 code) expected) (pure tt) (refuse_code email)

  -- 3. Activation inside a transaction: of a row with any status but ACTIVE.
  unfoldable pub activate_row : UserStatus → ℕ → User → M S User
  activate_row UserStatus.active now u = throw (rpc GrpcStatus.failed_precondition already_active)
  activate_row _ now u = do
    call f.save (saves (S.save_user (activate now u)))
    pure (activate now u)

  unfoldable pub activate_found : ℕ → Option User → M S User
  activate_found now none = throw (rpc GrpcStatus.not_found user_not_found)
  activate_found now (some u) = activate_row u.status now u

  unfoldable pub activation : Text → ℕ → M S User
  activation email now = do
    found ← call f.find (queries (S.find_user (λ u. text_eq u.email email)))
    activate_found now found

  unfoldable pub activation_error : Thrown → M S User
  activation_error (rpc code message) = throw (rpc code message)
  activation_error rejected = throw (rpc GrpcStatus.internal activation_failed)

  -- 4. `Promise.all` over three deletions: each is made unless it rejects itself.
  abbrev pub delete_unless : Bool → Text → S.Store → S.Store
  delete_unless down key s = if down then s else S.del key s

  unfoldable pub clean_up : Text → M S (Unit {0})
  clean_up email = do
    writes (λ s. delete_unless f.del_legacy (legacy_attempts_key email) (
        delete_unless f.del_otp (otp_key email)
          (delete_unless f.del_rate (verify_rate_key email) s)))
    branch (f.del_rate || f.del_otp || f.del_legacy) (throw rejected) (pure tt)

  -- Everything after the right code.
  unfoldable pub finish : Text → VerifyRequest → Fresh → M S AuthData
  finish email request fresh = do
    user ← transaction f.tx (activation email fresh.now) activation_error
    clean_up email
    issue_session S f.hash f.session user fresh (client_ip request) (client_agent request)

  unfoldable pub verify_account : VerifyRequest → Fresh → M S AuthData
  verify_account request fresh = do
    let email = normalize_email request.email
    check_rate (verify_rate_key email)
    check_code email (trim request.code)
    finish email request fresh
