-- ===== src/Users/Verify/Errors.antt =====
-- What `verifyAccount` may have changed when it throws.
use skill_up.Base.{
  ◌≡◌, sym, ap, ◌∙◌, subst, Bool, true, false, Option, none, some, arith, ◌⊎◌, inl, inr,
}
use skill_up.Text.{Text, trim, text_eq}
use skill_up.Shared.{User}
use skill_up.Services.{Services}
use skill_up.Effects.{Thrown, rejected, World, err, call, reads, branch, pure, M, ◌>>◌}
use skill_up.Effects.Inversion.{>>=-err, reads-ok, reads-err, transaction-ok, transaction-err}
use skill_up.Effects.Transaction.{transaction}
use skill_up.Users.Keys.{otp_key, verify_rate_key}
use skill_up.Users.Tokens.{Fresh, issue_session, issue_session-err}
use skill_up.Users.Verify.{
  VerifyRequest, VerifyFaults, normalize_email, check_rate, check_code, require_code, refuse_code,
  activation, activation_error, clean_up, finish, verify_account, client_ip, client_agent,
}
use skill_up.Users.Verify.Outcome.{
  Activates, check_rate-ok, check_code-ok, activation_error-throws, transaction_Activates,
  require_code-ok, clean_up-ok,
}

module _ (S : Services) (f : VerifyFaults) where
  check_rate-err :
      (key : Text) (w v : World S) {e : Thrown} → check_rate S f key w ≡ err e v → v ≡ w
  unfolding check_rate
  check_rate-err key w v h = ground arith

  require_code-err :
      (o : Option Text) (w v : World S) {e : Thrown} → require_code {S = S} o w ≡ err e v → v ≡ w
  unfolding require_code
  require_code-err none w v h = cc
  require_code-err (some t) w v h = ground arith

  refuse_code-rows :
      (email : Text) (w v : World S) {e : Thrown}
      → refuse_code S f email w ≡ err e v
      → v.rows ≡ w.rows
  unfolding refuse_code
  refuse_code-rows email w v h = ground arith

  code_gate-rows :
      (email : Text) (b : Bool) (w v : World S) {e : Thrown}
      → branch b (pure tt) (refuse_code S f email) w ≡ err e v
      → v.rows ≡ w.rows
  code_gate-rows email true w v h = cc
  code_gate-rows email false w v h = refuse_code-rows email w v h

  check_code-rows :
      (email code : Text) (w v : World S) {e : Thrown}
      → check_code S f email code w ≡ err e v
      → v.rows ≡ w.rows
  unfolding check_code
  check_code-rows email code w v h = elim (>>=-err read_code _ w h) [
    | inl e1 ↦ ap (λ (x : World S). x.rows) (reads-err f.get_otp (S.get (otp_key email)) w v e1)
    | inr (o, w1, e1, h1) ↦
        let (v1, _) = reads-ok f.get_otp (S.get (otp_key email)) w w1 e1 in
        let same = ap (λ (x : World S). x.rows) v1 in
        elim (>>=-err (require_code {S = S} o) _ w1 h1) [
          | inl e2 ↦ ap (λ (x : World S). x.rows) (require_code-err o w1 v e2) ∙ same
          | inr (t, w2, e2, h2) ↦
              code_gate-rows email (text_eq (S.sha256 code) t) w2 v h2
              ∙ ap (λ (x : World S). x.rows) (require_code-ok S f o w1 w2 e2).0
              ∙ same
        ]
  ]
    where
      read_code : M S (Option Text)
      read_code = call f.get_otp (reads (S.get (otp_key email)))

  clean_up-err :
      (email : Text) (w v : World S) {e : Thrown}
      → clean_up S f email w ≡ err e v
      → (e ≡ rejected) × (v.rows ≡ w.rows)
  unfolding clean_up
  clean_up-err email w v h = ground arith

  after_commit :
      (email : Text) (request : VerifyRequest) (fresh : Fresh) (u' : User) (w w' : World S)
      {e : Thrown}
      → (clean_up S f email
            >> issue_session S f.hash f.session u' fresh (client_ip request) (client_agent request))
          w
        ≡ err e w'
      → (e ≡ rejected) × (w'.rows ≡ w.rows)
  after_commit email request fresh u' w w' h = elim (>>=-err (clean_up S f email) _ w h) [
    | inl e1 ↦ clean_up-err email w w' e1
    | inr (_, w1, e1, h1) ↦
        let (e, same) = issue_session-err S f.hash f.session u' fresh _ _ w1 w' h1 in
        (
          e,
          ap (λ (x : World S). x.rows) same
              ∙ ap (λ (x : World S). x.rows) (clean_up-ok S f email w w1 e1),
        )
  ]

  late :
      (request : VerifyRequest) (fresh : Fresh) (w w3 w' : World S) {e : Thrown}
      → Activates S f request fresh w w3.rows
      → (e ≡ rejected) × (w'.rows ≡ w3.rows)
      → (w'.rows ≡ w.rows) ⊎ (Activates S f request fresh w w'.rows × (e ≡ rejected))
  late request fresh w w3 w' a (e, same) =
      inr (subst (λ t. Activates S f request fresh w t) (sym same) a, e)

  finish-err :
      (request : VerifyRequest) (fresh : Fresh) (w w' : World S) {e : Thrown}
      → S.get (otp_key (normalize_email request.email)) w.store
        ≡ some (S.sha256 (trim request.code))
      → finish S f (normalize_email request.email) request fresh w ≡ err e w'
      → (w'.rows ≡ w.rows) ⊎ (Activates S f request fresh w w'.rows × (e ≡ rejected))
  unfolding finish
  finish-err request fresh w w' code h =
      let email = normalize_email request.email in
      elim (>>=-err (transaction f.tx (activation S f email fresh.now) (activation_error S f)) _ w
        h) [
          | inl e1 ↦
              elim (transaction-err f.tx _ (activation_error S f) (activation_error-throws S f) w w'
                e1) [
                  | inl same ↦ inl same
                  | inr (u', body, _, e) ↦
                      inr ((transaction_Activates S f request fresh w w' code body).0, e)
                ]
          | inr (u', w3, e3, h3) ↦
              let body =
                transaction-ok f.tx _ (activation_error S f) (activation_error-throws S f) w w3
                  e3 in
              late request fresh w w3 w' (transaction_Activates S f request fresh w w3 code body).0
                (after_commit email request fresh u' w3 w' h3)
        ]

  check-err :
      (request : VerifyRequest) (fresh : Fresh) (w w1 w' : World S) {e : Thrown}
      → w1 ≡ w
      → (check_code S f (normalize_email request.email) (trim request.code)
            >> finish S f (normalize_email request.email) request fresh)
          w1
        ≡ err e w'
      → (w'.rows ≡ w.rows) ⊎ (Activates S f request fresh w w'.rows × (e ≡ rejected))
  check-err request fresh w w1 w' {e} v1 h1 =
      let email = normalize_email request.email in
      elim (>>=-err (check_code S f email (trim request.code)) _ w1 h1) [
        | inl e2 ↦
            inl
              (check_code-rows email (trim request.code) w1 w' e2 ∙ ap (λ (x : World S). x.rows) v1)
        | inr (_, w2, e2, h2) ↦
            let (v2, code) = check_code-ok S f email (trim request.code) w1 w2 e2 in
            finish-err request fresh w w'
              (subst
                (λ (x : World S).
                  S.get (otp_key email) x.store ≡ some (S.sha256 (trim request.code)))
                v1 code)
              (subst (λ (x : World S). finish S f email request fresh x ≡ err e w') (v2 ∙ v1) h2)
      ]

  -- A verification that throws has left the tables as they were, with one exception: after the right
  -- code the row may have been activated and the error is the rejection of a later call.
  pub verify_error_rows :
      (request : VerifyRequest) (fresh : Fresh) (w w' : World S) {e : Thrown}
      → verify_account S f request fresh w ≡ err e w'
      → (w'.rows ≡ w.rows) ⊎ (Activates S f request fresh w w'.rows × (e ≡ rejected))
  unfolding verify_account
  verify_error_rows request fresh w w' h =
      elim (>>=-err (check_rate S f (verify_rate_key (normalize_email request.email))) _ w h) [
        | inl e1 ↦ inl (ap (λ (x : World S). x.rows) (check_rate-err _ w w' e1))
        | inr (_, w1, e1, h1) ↦ check-err request fresh w w1 w' (check_rate-ok S f _ w w1 e1).0 h1
      ]
