-- ===== src/Users/Login/Outcome.antt =====
-- When `login` succeeds and what it leaves behind, whatever calls reject.
use skill_up.Base.{ap, ◌∙◌, subst, ◌≡◌, refl, true, false, some, if◌then◌else◌, arith}
use skill_up.Text.{Text}
use skill_up.Text.Decimal.{at_least}
use skill_up.Shared.{User, UserStatus}
use skill_up.Services.{Services}
use skill_up.Effects.{World, ok}
use skill_up.Effects.Inversion.{>>=-ok}
use skill_up.Session.{save_session}
use skill_up.Users.Keys.{login_rate_key}
use skill_up.Users.Counter.{read_count}
use skill_up.Users.Tokens.{Fresh, AuthData, auth_data, session_params, issue_session-ok}
use skill_up.Users.Login.{
  LoginRequest, LoginFaults, normalize_identifier, names_user, check_lockout, find_account,
  check_status, check_password, clear_failures, login, client_ip, client_agent,
}

module _ (S : Services) (f : LoginFaults) (request : LoginRequest) where
  abbrev rate_key : Text
  rate_key = login_rate_key (normalize_identifier request.identifier)

  -- What a successful login has checked, and the state that it leaves.
  pub record Granted (fresh : Fresh) (data' : AuthData) (w w' : World S) : Type 0 where
    pub user : User
    pub found :
        S.find_user (names_user (normalize_identifier request.identifier)) w.rows ≡ some user
    pub is_active : user.status ≡ UserStatus.active
    pub matches : S.bcrypt_compare request.password user.password ≡ true
    pub unlocked : at_least (read_count (S.get rate_key w.store)) 5 ≡ false
    pub reply : data' ≡ auth_data S user fresh
    pub same_rows : w'.rows ≡ w.rows
    pub stored :
        w'.store
        ≡ save_session S
            (session_params S user fresh (client_ip request) (client_agent request))
            fresh.now
            (if f.del then w.store else S.del rate_key w.store)

  check_lockout-ok :
      (key : Text) (w v : World S) {u : Unit {0}}
      → check_lockout S f key w ≡ ok u v
      → (v ≡ w) × (at_least (read_count (S.get key w.store)) 5 ≡ false)
  unfolding check_lockout
  check_lockout-ok key w v h = ground arith

  find_account-ok :
      (identifier password : Text) (w v : World S) {u : User}
      → find_account S f identifier password w ≡ ok u v
      → (v ≡ w) × (S.find_user (names_user identifier) w.rows ≡ some u)
  unfolding find_account
  find_account-ok identifier password w v h = ground arith

  check_status-ok :
      (status : UserStatus) (w v : World S) {u : Unit {0}}
      → check_status S f status w ≡ ok u v
      → (v ≡ w) × (status ≡ UserStatus.active)
  unfolding check_status
  check_status-ok UserStatus.pending w v h = cc
  check_status-ok UserStatus.blocked w v h = cc
  check_status-ok UserStatus.active w v h = (cc, refl)

  check_password-ok :
      (key password hash : Text) (w v : World S) {u : Unit {0}}
      → check_password S f key password hash w ≡ ok u v
      → (v ≡ w) × (S.bcrypt_compare password hash ≡ true)
  unfolding check_password
  check_password-ok key password hash w v h = ground arith

  clear_failures-ok :
      (key : Text) (w v : World S) {u : Unit {0}}
      → clear_failures S f key w ≡ ok u v
      → (v.rows ≡ w.rows) × (v.store ≡ (if f.del then w.store else S.del key w.store))
  unfolding clear_failures
  clear_failures-ok key w v h = ground arith

  -- A login that returns has passed every check on the user that it found, answers with that
  -- user's tokens, and leaves the tables alone and the session stored.
  pub login-Granted :
      (fresh : Fresh) (data' : AuthData) (w w' : World S)
      → login S f request fresh w ≡ ok data' w'
      → Granted fresh data' w w'
  unfolding login
  login-Granted fresh data' w w' h =
      let identifier = normalize_identifier request.identifier in
      let (_, w1, e1, h1) = >>=-ok (check_lockout S f rate_key) _ w h in
      let (u, w2, e2, h2) = >>=-ok (find_account S f identifier request.password) _ w1 h1 in
      let (_, w3, e3, h3) = >>=-ok (check_status S f u.status) _ w2 h2 in
      let (_, w4, e4, h4) =
        >>=-ok (check_password S f rate_key request.password u.password) _ w3 h3 in
      let (_, w5, e5, h5) = >>=-ok (clear_failures S f rate_key) _ w4 h4 in
      let (v1, unlocked) = check_lockout-ok rate_key w w1 e1 in
      let (v2, found) = find_account-ok identifier request.password w1 w2 e2 in
      let (v3, is_active) = check_status-ok u.status w2 w3 e3 in
      let (v4, matches) = check_password-ok rate_key request.password u.password w3 w4 e4 in
      let (r5, s5) = clear_failures-ok rate_key w4 w5 e5 in
      let (reply, v6) = issue_session-ok S f.hash f.save u fresh _ _ w5 w' h5 in
      let unchanged : w4 ≡ w = v4 ∙ v3 ∙ v2 ∙ v1 in
      record {
        user = u;
        found = subst (λ x. S.find_user (names_user identifier) x.rows ≡ some u) v1 found;
        is_active = is_active;
        matches = matches;
        unlocked = unlocked;
        reply = reply;
        same_rows = ap (λ x. x.rows) v6 ∙ r5 ∙ ap (λ x. x.rows) unchanged;
        stored =
            ap (λ x. x.store) v6
            ∙ ap (save_session S _ fresh.now)
                (s5 ∙ ap (λ x. if f.del then x.store else S.del rate_key x.store) unchanged);
      }
