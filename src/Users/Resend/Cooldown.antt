-- ===== src/Users/Resend/Cooldown.antt =====
-- Two requests for one address in a row: the second meets the cooldown.
use skill_up.Base.{ap, ◌∙◌, ◌≡◌, refl, false, none, some, arith}
use skill_up.Text.{Text, codes, text_eq_refl}
use skill_up.Shared.{GrpcStatus}
use skill_up.Services.{Services, IsRedis}
use skill_up.Effects.{World, ok, err, rpc, ◌>>=◌, ◌>>◌}
use skill_up.Users.Keys.{
  otp_key, verify_rate_key, cooldown_key, legacy_attempts_key, rate_cooldown_apart,
  legacy_cooldown_apart, legacy_rate_apart,
}
use skill_up.Users.Counter.{read_count, effective_ttl}
use skill_up.Users.Verify.{normalize_email}
use skill_up.Users.Resend.{
  ResendFaults, Draw, wait_message, check_lock, check_cooldown, send_verification_code,
}
use skill_up.Users.Resend.Outcome.{with_code, send_verification_code-Resent}

module _ {S : Services} (law : IsRedis S) where
  cooldown_stored :
      (email code : Text) (s : S.Store)
      → S.get (cooldown_key email) (with_code S email code s) ≡ some (codes "1")
  cooldown_stored email code s =
      let coded = S.set_ex (otp_key email) (S.sha256 code) 600 s in
      let cooled = S.set_ex (cooldown_key email) (codes "1") 60 coded in
      ground (
        arith,
        law.get-del (cooldown_key email) (legacy_attempts_key email)
            (S.del (verify_rate_key email) cooled),
        legacy_cooldown_apart email email,
        law.get-del (cooldown_key email) (verify_rate_key email) cooled,
        rate_cooldown_apart email email,
        law.get-set_ex (cooldown_key email) (cooldown_key email) (codes "1") 60 coded (omega arith),
        text_eq_refl (cooldown_key email),
      )

  no_failures :
      (email code : Text) (s : S.Store)
      → S.get (verify_rate_key email) (with_code S email code s) ≡ none
  no_failures email code s =
      let coded = S.set_ex (otp_key email) (S.sha256 code) 600 s in
      let cooled = S.set_ex (cooldown_key email) (codes "1") 60 coded in
      ground (
        arith,
        law.get-del (verify_rate_key email) (legacy_attempts_key email)
            (S.del (verify_rate_key email) cooled),
        legacy_rate_apart email email,
        law.get-del (verify_rate_key email) (verify_rate_key email) cooled,
        text_eq_refl (verify_rate_key email),
      )

  check_lock-open :
      (f : ResendFaults) (email : Text) (w : World S)
      → f.get_rate ≡ false
      → S.get (verify_rate_key email) w.store ≡ none
      → check_lock S f email w ≡ ok tt w
  unfolding check_lock read_count
  check_lock-open f email w up h = ground arith

  check_cooldown-waits :
      (f : ResendFaults) (email : Text) (w : World S)
      → f.get_cooldown ≡ false
      → f.ttl_cooldown ≡ false
      → S.get (cooldown_key email) w.store ≡ some (codes "1")
      → check_cooldown S f email w
        ≡ err
            (rpc GrpcStatus.resource_exhausted
              (wait_message (effective_ttl (S.ttl (cooldown_key email) w.store) 60)))
            w
  unfolding check_cooldown
  check_cooldown-waits f email w up up' h = rw (up, h, up') refl

  -- After a request that was answered, the next one for the same address whose calls answer, at the same
  -- time, is told to wait for the seconds that Redis still holds the cooldown; nothing changes and no
  -- email is queued.
  pub resend_waits :
      (f f' : ResendFaults) (address again : Text) (draw draw' : Draw) (w w' : World S)
      → send_verification_code S f address draw w ≡ ok tt w'
      → normalize_email again ≡ normalize_email address
      → f'.get_rate ≡ false
      → f'.get_cooldown ≡ false
      → f'.ttl_cooldown ≡ false
      → send_verification_code S f' again draw' w'
        ≡ err
            (rpc GrpcStatus.resource_exhausted (
              wait_message
                (effective_ttl (S.ttl (cooldown_key (normalize_email again)) w'.store) 60)))
            w'
  unfolding send_verification_code
  resend_waits f f' address again draw draw' w w' h same a b c =
      let email = normalize_email address in
      let r = send_verification_code-Resent S f address draw w w' h in
      let stored : w'.store ≡ with_code S email draw.code w.store =
        ap (λ (x : World S). x.store) r.state in
      let waits : S.get (cooldown_key (normalize_email again)) w'.store ≡ some (codes "1") =
        rw same
          (ap (S.get (cooldown_key email)) stored ∙ cooldown_stored email draw.code w.store) in
      let open_ : S.get (verify_rate_key (normalize_email again)) w'.store ≡ none =
        rw same (ap (S.get (verify_rate_key email)) stored ∙ no_failures email draw.code w.store) in
      rw (
        check_lock-open f' (normalize_email again) w' a open_,
        check_cooldown-waits f' (normalize_email again) w' b c waits,
        send_verification_code,
        ◌>>◌,
        ◌>>=◌,
      )
