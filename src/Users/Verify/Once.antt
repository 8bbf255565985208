-- ===== src/Users/Verify/Once.antt =====
-- A code opens one session: the second request for the address finds none.
use skill_up.Base.{◌≡◌, ap, ◌∙◌, false, none, arith, ◌<◌}
use skill_up.Text.{Text, text_eq_refl, trim}
use skill_up.Shared.{GrpcStatus}
use skill_up.Services.{Services, IsRedis}
use skill_up.Effects.{rpc, World, ok, err, ◌>>=◌, ◌>>◌}
use skill_up.Session.{default_ttl_seconds}
use skill_up.Session.Strings.{get-save_session}
use skill_up.Users.Keys.{
  otp_key, verify_rate_key, legacy_attempts_key, otp_rate_apart, legacy_otp_apart,
  legacy_rate_apart, session_otp_apart, session_rate_apart,
}
use skill_up.Users.Tokens.{Fresh, AuthData, session_params}
use skill_up.Users.Counter.{read_count}
use skill_up.Users.Verify.{
  VerifyRequest, VerifyFaults, normalize_email, expired_message, check_rate, check_code,
  require_code, verify_account,
}
use skill_up.Users.Verify.Outcome.{spent, verify_Activates}

module _ {S : Services} (law : IsRedis S) where
  spent_otp : (email : Text) (s : S.Store) → S.get (otp_key email) (spent S email s) ≡ none
  spent_otp email s = ground (
    arith,
    law.get-del (otp_key email) (legacy_attempts_key email)
        (S.del (otp_key email) (S.del (verify_rate_key email) s)),
    legacy_otp_apart email email,
    law.get-del (otp_key email) (otp_key email) (S.del (verify_rate_key email) s),
    text_eq_refl (otp_key email),
  )

  spent_rate : (email : Text) (s : S.Store) → S.get (verify_rate_key email) (spent S email s) ≡ none
  spent_rate email s = ground (
    arith,
    law.get-del (verify_rate_key email) (legacy_attempts_key email)
        (S.del (otp_key email) (S.del (verify_rate_key email) s)),
    legacy_rate_apart email email,
    law.get-del (verify_rate_key email) (otp_key email) (S.del (verify_rate_key email) s),
    otp_rate_apart email email,
    law.get-del (verify_rate_key email) (verify_rate_key email) s,
    text_eq_refl (verify_rate_key email),
  )

  week : 0 < default_ttl_seconds
  week = omega arith

  -- After a successful verification neither a code nor a count of failures is stored for the address.
  verified_store :
      (f : VerifyFaults) (request : VerifyRequest) (fresh : Fresh) (data' : AuthData)
      (w w' : World S)
      → verify_account S f request fresh w ≡ ok data' w'
      → let email = normalize_email request.email in
        (S.get (otp_key email) w'.store ≡ none) × (S.get (verify_rate_key email) w'.store ≡ none)
  unfolding session_params
  verified_store f request fresh data' w w' h =
      let email = normalize_email request.email in
      let (a, _, stored) = verify_Activates S f request fresh data' w w' h in
      (
        ap (S.get (otp_key email)) stored
            ∙ get-save_session law (otp_key email) (λ sid. session_otp_apart sid email) _ _ _ week
            ∙ spent_otp email w.store,
        ap (S.get (verify_rate_key email)) stored
            ∙ get-save_session law (verify_rate_key email) (λ sid. session_rate_apart sid email) _ _
                _ week
            ∙ spent_rate email w.store,
      )

  check_rate-none :
      (f : VerifyFaults) (key : Text) (w : World S)
      → S.get key w.store ≡ none
      → check_rate S f key w ≡ ok tt w
  unfolding check_rate read_count
  check_rate-none f key w h = ground arith

  check_code-none :
      (f : VerifyFaults) (email code : Text) (w : World S)
      → f.get_otp ≡ false
      → S.get (otp_key email) w.store ≡ none
      → check_code S f email code w ≡ err (rpc GrpcStatus.invalid_argument expired_message) w
  unfolding check_code require_code
  check_code-none f email code w up h = ground arith

  -- After a verification that answered, the next request for the same address, whose code can be read,
  -- is told that there is no code, with the same code or another, and changes nothing.
  pub verify_once :
      (f f' : VerifyFaults) (request again : VerifyRequest) (fresh fresh' : Fresh)
      (data' : AuthData) (w w' : World S)
      → verify_account S f request fresh w ≡ ok data' w'
      → normalize_email again.email ≡ normalize_email request.email
      → f'.get_otp ≡ false
      → verify_account S f' again fresh' w'
        ≡ err (rpc GrpcStatus.invalid_argument expired_message) w'
  unfolding verify_account
  verify_once f f' request again fresh fresh' data' w w' h same up =
      let (no_code, no_count) = verified_store f request fresh data' w w' h in
      rw (
        check_rate-none f' (verify_rate_key (normalize_email again.email)) w' (rw same no_count),
        check_code-none f' (normalize_email again.email) (trim again.code) w' up (rw same no_code),
        verify_account,
        ◌>>◌,
        ◌>>=◌,
      )
