-- ===== src/Users/Resend.antt =====
-- apps/users-service/src/providers/verification-code.provider.ts: `sendVerificationCode`, in the
-- phases that its comments number. The fields of `ResendFaults` say which external calls reject.
pub mod Outcome
pub mod Lockout
pub mod Cooldown
use skill_up.Base.{
  ℕ, suc, Bool, true, false, ◌||◌, Option, none, some, List, [], ◌∷◌, ◌++◌, if◌then◌else◌, leb,
}
use skill_up.Text.{Text, codes, text_eq}
use skill_up.Text.Decimal.{print, at_least}
use skill_up.Shared.{
  User, UserStatus, OutboxMessage, OutboxStatus, Payload, verification_email, GrpcStatus,
}
use skill_up.Services.{Services, Ttl}
use skill_up.Effects.{
  Thrown, rpc, rejected, World, Run, ok, err, M, ◌>>=◌, ◌>>◌, pure, throw, call, branch, reads,
  writes, queries, saves,
}
use skill_up.Effects.Transaction.{TxFaults, transaction}
use skill_up.Outbox.{send_verification_email}
use skill_up.Users.Keys.{otp_key, verify_rate_key, cooldown_key, legacy_attempts_key}
use skill_up.Users.Counter.{read_count, effective_ttl, retry_after}
use skill_up.Users.Verify.{normalize_email}

pub record ResendFaults : Type 0 where
  pub get_rate : Bool
  pub ttl_rate : Bool
  pub get_cooldown : Bool
  pub ttl_cooldown : Bool
  pub find : Bool
  pub set_otp : Bool
  pub set_cooldown : Bool
  pub del_rate : Bool
  pub del_legacy : Bool
  pub tx : TxFaults
  pub save : Bool

-- The code that `randomInt` draws, the id that the database gives the message, and the time.
pub record Draw : Type 0 where
  pub code : Text
  pub message_id : Text
  pub now : ℕ

unfoldable pub lockout_message : ℕ → Text
lockout_message seconds =
    codes
      "Account is temporarily locked due to too many failed attempts. Please try again after 15 minutes."
    ++ retry_after seconds

unfoldable pub wait_message : ℕ → Text
wait_message seconds =
    codes "Please wait "
    ++ print seconds
    ++ codes " seconds before requesting a new verification code."
    ++ retry_after seconds

unfoldable pub no_account : Text
no_account = codes "No account registered with this email address."

unfoldable pub verified_already : Text
verified_already = codes "This account is already verified and active."

unfoldable pub not_eligible : Text
not_eligible = codes "This account is not eligible for verification."

unfoldable pub queue_failed : Text
queue_failed = codes "Failed to queue verification email. Please try again."

-- `if (isCooldownActive)`: neither null nor the empty string.
abbrev pub is_set : Option Text → Bool
is_set none = false
is_set (some []) = false
is_set (some (c ∷ s)) = true

-- The outbox row of the email.
abbrev pub email_message : User → Draw → OutboxMessage
email_message u draw = record {
  id = draw.message_id;
  event_type = send_verification_email;
  payload = verification_email u.email draw.code u.username;
  status = OutboxStatus.pending;
  retry_count = 0;
  created_at = draw.now;
  processed_at = none;
}

module _ (S : Services) (f : ResendFaults) where
  -- 1. Brute-force lockout guard.
  unfoldable pub check_lock : Text → M S (Unit {0})
  check_lock email = do
    attempts ← call f.get_rate (reads (S.get (verify_rate_key email)))
    branch (at_least (read_count attempts) 7)
        (do
          ttl ← call f.ttl_rate (reads (S.ttl (verify_rate_key email)))
          throw (rpc GrpcStatus.resource_exhausted (lockout_message (effective_ttl ttl 900))))
        (pure tt)

  -- 2. Cooldown guard.
  unfoldable pub check_cooldown : Text → M S (Unit {0})
  check_cooldown email = do
    active ← call f.get_cooldown (reads (S.get (cooldown_key email)))
    branch (is_set active)
        (do
          ttl ← call f.ttl_cooldown (reads (S.ttl (cooldown_key email)))
          throw (rpc GrpcStatus.resource_exhausted (wait_message (effective_ttl ttl 60))))
        (pure tt)

  -- 3. User existence and status.
  unfoldable pub require_pending : UserStatus → M S (Unit {0})
  require_pending UserStatus.active = throw (rpc GrpcStatus.failed_precondition verified_already)
  require_pending UserStatus.blocked = throw (rpc GrpcStatus.permission_denied not_eligible)
  require_pending UserStatus.pending = pure tt

  unfoldable pub find_pending : Text → M S User
  find_pending email = do
    found ← call f.find (queries (S.find_user (λ u. text_eq u.email email)))
    elim found [
      | some u ↦ require_pending u.status >>= λ _. pure u
      | none ↦ throw (rpc GrpcStatus.not_found no_account)
    ]

  abbrev pub apply_unless : Bool → (S.Store → S.Store) → S.Store → S.Store
  apply_unless down g s = if down then s else g s

  -- 4. `Promise.all` over four calls: each is made unless it rejects itself.
  unfoldable pub store_code : Text → Text → M S (Unit {0})
  store_code email code = do
    writes (λ s. apply_unless f.del_legacy (S.del (legacy_attempts_key email)) (
        apply_unless f.del_rate (S.del (verify_rate_key email)) (
          apply_unless f.set_cooldown (S.set_ex (cooldown_key email) (codes "1") 60)
            (apply_unless f.set_otp (S.set_ex (otp_key email) (S.sha256 code) 600) s))))
    branch (f.set_otp || f.set_cooldown || f.del_rate || f.del_legacy) (throw rejected) (pure tt)

  abbrev pub queue_error : Thrown → M S (Unit {0})
  queue_error e = throw (rpc GrpcStatus.internal queue_failed)

  -- 5. The outbox event, in a transaction.
  unfoldable pub queue_email : User → Draw → M S (Unit {0})
  queue_email u draw =
      transaction f.tx (call f.save (saves (S.save_outbox (email_message u draw)))) queue_error

  -- 6. `outboxWorker.trigger()`
  unfoldable pub trigger : M S (Unit {0})
  trigger w = ok tt (record w { triggers = suc w.triggers })

  unfoldable pub send_verification_code : Text → Draw → M S (Unit {0})
  send_verification_code address draw = do
    let email = normalize_email address
    check_lock email
    check_cooldown email
    user ← find_pending email
    store_code email draw.code
    queue_email user draw
    trigger
