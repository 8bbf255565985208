-- ===== src/Users/Resend/Lockout.antt =====
-- A request for a code by an address that is locked out.
use skill_up.Base.{ℕ, ◌≤◌, ◌≡◌, false, some, le→leb}
use skill_up.Text.{Text}
use skill_up.Shared.{GrpcStatus}
use skill_up.Services.{Services}
use skill_up.Effects.{rpc, World, err, ◌>>=◌, ◌>>◌}
use skill_up.Users.Keys.{verify_rate_key}
use skill_up.Users.Counter.{read_count, effective_ttl}
use skill_up.Users.Verify.{normalize_email}
use skill_up.Users.Resend.{ResendFaults, Draw, lockout_message, check_lock, send_verification_code}

module _ (S : Services) (f : ResendFaults) where
  -- While the calls answer, with seven failures counted no code is sent; nothing changes.
  pub resend_locked :
      (address : Text) (draw : Draw) (n : ℕ) (w : World S)
      → f.get_rate ≡ false
      → f.ttl_rate ≡ false
      → let key = verify_rate_key (normalize_email address) in
        read_count (S.get key w.store) ≡ some n
        → 7 ≤ n
        → send_verification_code S f address draw w
          ≡ err
              (rpc GrpcStatus.resource_exhausted
                (lockout_message (effective_ttl (S.ttl key w.store) 900)))
              w
  unfolding send_verification_code check_lock
  resend_locked address draw n w up up' h le =
      rw (up, h, le→leb 7 n le, up', send_verification_code, check_lock, ◌>>◌, ◌>>=◌)
