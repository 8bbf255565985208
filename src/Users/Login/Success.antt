-- ===== src/Users/Login/Success.antt =====
-- A login whose calls all answer, with the right password: it succeeds.
use skill_up.Base.{ℕ, ◌<◌, ◌≡◌, refl, true, false, some, lt→leb_false}
use skill_up.Text.{Text}
use skill_up.Shared.{User, UserStatus}
use skill_up.Services.{Services}
use skill_up.Effects.{World, ok, ◌>>=◌, ◌>>◌}
use skill_up.Session.{save_session}
use skill_up.Users.Keys.{login_rate_key}
use skill_up.Users.Counter.{read_count}
use skill_up.Users.Tokens.{Fresh, auth_data, session_params, issue_session}
use skill_up.Users.Login.{
  LoginRequest, LoginFaults, normalize_identifier, names_user, check_lockout, find_account,
  check_status, check_password, clear_failures, login, client_ip, client_agent,
}

-- Every call answers.
abbrev pub no_login_faults : LoginFaults
no_login_faults = record {
  get = false;
  ttl = false;
  find = false;
  compare = false;
  incr = false;
  expire = false;
  del = false;
  hash = false;
  save = false;
}

module _ (S : Services) (request : LoginRequest) (fresh : Fresh) (u : User) where
  abbrev key : Text
  key = login_rate_key (normalize_identifier request.identifier)

  check_status_active :
      (status : UserStatus) (w : World S)
      → status ≡ UserStatus.active
      → check_status S no_login_faults status w ≡ ok tt w
  unfolding check_status
  check_status_active status w active = rw active refl

  check_password_right :
      (w : World S)
      → S.bcrypt_compare request.password u.password ≡ true
      → check_password S no_login_faults key request.password u.password w ≡ ok tt w
  unfolding check_password
  check_password_right w right = rw right refl

  -- Where every call answers, an ACTIVE user who gives the right password, with fewer than five failures
  -- counted, is answered with the tokens; the session is stored, the counter is gone and the tables
  -- stay.
  pub login_complete :
      (w : World S) (n : ℕ)
      → read_count (S.get key w.store) ≡ some n
      → n < 5
      → S.find_user (names_user (normalize_identifier request.identifier)) w.rows ≡ some u
      → u.status ≡ UserStatus.active
      → S.bcrypt_compare request.password u.password ≡ true
      → login S no_login_faults request fresh w
        ≡ ok (auth_data S u fresh) (record w {
          store =
              save_session S
                (session_params S u fresh (client_ip request) (client_agent request))
                fresh.now
                (S.del key w.store);
        })
  unfolding login check_lockout find_account clear_failures issue_session
  login_complete w n few lt found active right =
      rw
        (
          few,
          lt→leb_false 5 n lt,
          found,
          check_status_active u.status w active,
          check_password_right w right,
          login,
          check_lockout,
          find_account,
          clear_failures,
          issue_session,
          ◌>>◌,
          ◌>>=◌,
        )
        refl
