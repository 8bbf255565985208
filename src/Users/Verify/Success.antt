-- ===== src/Users/Verify/Success.antt =====
-- A verification with every call answering: it succeeds, also for a blocked account.
use skill_up.Base.{ℕ, ◌<◌, ◌≡◌, ◌≢◌, refl, ◌∙◌, false, some, [], ◌∷◌, lt→leb_false}
use skill_up.Text.{Text, text_eq, text_eq_refl, trim}
use skill_up.Shared.{User, UserStatus}
use skill_up.Services.{Services, IsDatabase, same_id}
use skill_up.Effects.{World, ok, ◌>>=◌, ◌>>◌}
use skill_up.Effects.Transaction.{TxFaults, transaction, begin, settle, finally}
use skill_up.Session.{save_session}
use skill_up.Users.Keys.{otp_key, verify_rate_key}
use skill_up.Users.Counter.{read_count}
use skill_up.Users.Tokens.{Fresh, auth_data, session_params, issue_session}
use skill_up.Users.Verify.{
  VerifyRequest, VerifyFaults, normalize_email, activate, activate_row, activate_found, check_rate,
  check_code, require_code, activation, activation_error, clean_up, finish, verify_account,
  client_ip, client_agent,
}
use skill_up.Users.Verify.Outcome.{spent}

abbrev pub no_tx_faults : TxFaults
no_tx_faults = record {
  connect = false;
  start = false;
  commit = false;
  rollback = false;
  release = false;
}

abbrev pub no_faults : VerifyFaults
no_faults = record {
  get_rate = false;
  ttl = false;
  get_otp = false;
  incr = false;
  expire = false;
  del_spent = false;
  tx = no_tx_faults;
  find = false;
  save = false;
  del_rate = false;
  del_otp = false;
  del_legacy = false;
  hash = false;
  session = false;
}

module _ (S : Services) (request : VerifyRequest) (fresh : Fresh) (u : User) where
  -- The state after the activation of `u`.
  abbrev pub verified : World S → World S
  verified w = record w {
    rows = S.save_user (activate fresh.now u) w.rows;
    store =
        save_session S
          (session_params S (activate fresh.now u) fresh (client_ip request) (client_agent request))
          fresh.now (spent S (normalize_email request.email) w.store);
  }

  activate_row_lem :
      (status : UserStatus) (w : World S)
      → status ≢ UserStatus.active
      → activate_row S no_faults status fresh.now u w
        ≡ ok (activate fresh.now u) (record w { rows = S.save_user (activate fresh.now u) w.rows })
  unfolding activate_row
  activate_row_lem UserStatus.active w h = absurd (h refl)
  activate_row_lem UserStatus.pending w h = refl
  activate_row_lem UserStatus.blocked w h = refl

  activation_lem :
      (w : World S)
      → S.find_user (λ x. text_eq x.email (normalize_email request.email)) w.rows ≡ some u
      → u.status ≢ UserStatus.active
      → transaction no_tx_faults
          (activation S no_faults (normalize_email request.email) fresh.now)
          (activation_error S no_faults)
          w
        ≡ ok (activate fresh.now u) (record w { rows = S.save_user (activate fresh.now u) w.rows })
  unfolding transaction begin settle finally activation activate_found
  activation_lem w found inactive =
      rw (found, activate_row_lem u.status w inactive, activation, ◌>>=◌)

  finish_lem :
      (w : World S)
      → S.find_user (λ x. text_eq x.email (normalize_email request.email)) w.rows ≡ some u
      → u.status ≢ UserStatus.active
      → finish S no_faults (normalize_email request.email) request fresh w
        ≡ ok (auth_data S (activate fresh.now u) fresh) (verified w)
  unfolding finish clean_up issue_session
  finish_lem w found inactive = rw (activation_lem w found inactive, finish, ◌>>=◌)

  check_code_lem :
      (w : World S) (t : Text)
      → S.get (otp_key (normalize_email request.email)) w.store ≡ some t
      → t ≢ []
      → S.sha256 (trim request.code) ≡ t
      → check_code S no_faults (normalize_email request.email) (trim request.code) w ≡ ok tt w
  unfolding check_code require_code
  check_code_lem w [] stored some_code right = absurd (some_code refl)
  check_code_lem w (c ∷ t) stored some_code right =
      rw (stored, right, text_eq_refl (c ∷ t), ◌>>◌, ◌>>=◌)

  pub verify_complete :
      (db : IsDatabase S) (w : World S) (n : ℕ) (t : Text)
      → read_count (S.get (verify_rate_key (normalize_email request.email)) w.store) ≡ some n
      → n < 7
      → S.get (otp_key (normalize_email request.email)) w.store ≡ some t
      → t ≢ []
      → S.sha256 (trim request.code) ≡ t
      → S.find_user (λ x. text_eq x.email (normalize_email request.email)) w.rows ≡ some u
      → u.status ≢ UserStatus.active
      → (verify_account S no_faults request fresh w
          ≡ ok (auth_data S (activate fresh.now u) fresh) (verified w))
        × (S.find_user (same_id u.id) (verified w).rows ≡ some (activate fresh.now u))
  unfolding verify_account check_rate
  verify_complete db w n t few lt stored some_code right found inactive = (
    rw (
      few,
      lt→leb_false 7 n lt,
      check_code_lem w t stored some_code right,
      finish_lem w found inactive,
      verify_account,
      ◌>>◌,
      ◌>>=◌,
    ),
    db.find-save_user u.id (activate fresh.now u) w.rows ∙ rw (text_eq_refl u.id),
  )
