-- ===== src/Users/Verify/Outcome.antt =====
-- What `verifyAccount` has checked when it answers, and what it may have changed when it throws.
use skill_up.Base.{
  ◌≡◌, ◌≢◌, refl, sym, ap, ◌∙◌, subst, Bool, true, false, Option, none, some, [], ◌∷◌, arith, ◌⊎◌,
  ℕ,
}
use skill_up.Text.{Text, text_eq, trim, text_eq_iff}
use skill_up.Text.Decimal.{at_least}
use skill_up.Shared.{User, UserStatus}
use skill_up.Services.{Services}
use skill_up.Effects.{Thrown, rpc, rejected, World, ok, err, call, reads, queries, branch, pure}
use skill_up.Effects.Inversion.{>>=-ok, reads-ok, queries-ok, transaction-ok}
use skill_up.Effects.Transaction.{transaction}
use skill_up.Session.{save_session}
use skill_up.Users.Keys.{otp_key, verify_rate_key, legacy_attempts_key}
use skill_up.Users.Counter.{read_count}
use skill_up.Users.Tokens.{Fresh, AuthData, auth_data, session_params, issue_session-ok}
use skill_up.Users.Verify.{
  VerifyRequest, VerifyFaults, normalize_email, activate, activate_row, activate_found, check_rate,
  check_code, require_code, refuse_code, activation, activation_error, clean_up, finish,
  verify_account, client_ip, client_agent,
}

-- The store after the clean-up.
abbrev pub spent : (S : Services) → Text → S.Store → S.Store
spent S email s =
    S.del (legacy_attempts_key email) (S.del (otp_key email) (S.del (verify_rate_key email) s))

module _ (S : Services) (f : VerifyFaults) where
  pub check_rate-ok :
      (key : Text) (w v : World S) {u : Unit {0}}
      → check_rate S f key w ≡ ok u v
      → (v ≡ w)
        × ((f.get_rate ≡ true)
            ⊎ (f.ttl ≡ true)
            ⊎ (at_least (read_count (S.get key w.store)) 7 ≡ false))
  unfolding check_rate
  check_rate-ok key w v h = ground arith

  pub require_code-ok :
      (o : Option Text) (w v : World S) {t : Text}
      → require_code {S = S} o w ≡ ok t v
      → (v ≡ w) × (o ≡ some t)
  unfolding require_code
  require_code-ok none w v h = cc
  require_code-ok (some []) w v h = cc
  require_code-ok (some (c ∷ s)) w v h = (cc, cc)

  refuse_code-err :
      (email : Text) (w v : World S) {u : Unit {0}} → ¬ (refuse_code S f email w ≡ ok u v)
  unfolding refuse_code
  refuse_code-err email w v h = ground arith

  code_gate :
      (email : Text) (b : Bool) (w v : World S) {u : Unit {0}}
      → branch b (pure tt) (refuse_code S f email) w ≡ ok u v
      → (v ≡ w) × (b ≡ true)
  code_gate email true w v h = (cc, refl)
  code_gate email false w v h = absurd (refuse_code-err email w v h)

  pub check_code-ok :
      (email code : Text) (w v : World S) {u : Unit {0}}
      → check_code S f email code w ≡ ok u v
      → (v ≡ w) × (S.get (otp_key email) w.store ≡ some (S.sha256 code))
  unfolding check_code
  check_code-ok email code w v h =
      let (o, w1, e1, h1) = >>=-ok (call f.get_otp (reads (S.get (otp_key email)))) _ w h in
      let (t, w2, e2, h2) = >>=-ok (require_code {S = S} o) _ w1 h1 in
      let (v1, same) = reads-ok f.get_otp (S.get (otp_key email)) w w1 e1 in
      let (v2, stored) = require_code-ok o w1 w2 e2 in
      let (v3, fits) = code_gate email (text_eq (S.sha256 code) t) w2 v h2 in
      (v3 ∙ v2 ∙ v1, sym same ∙ stored ∙ ap some (sym ((text_eq_iff (S.sha256 code) t).0 fits)))

  activate_row-ok :
      (status : UserStatus) (now : ℕ) (u : User) (w v : World S) {u' : User}
      → activate_row S f status now u w ≡ ok u' v
      → (status ≢ UserStatus.active)
        × (u' ≡ activate now u)
        × (v ≡ record w { rows = S.save_user u' w.rows })
  unfolding activate_row
  activate_row-ok UserStatus.active now u w v h = cc
  activate_row-ok UserStatus.pending now u w v h = ((λ e. cc), ground arith, ground arith)
  activate_row-ok UserStatus.blocked now u w v h = ((λ e. cc), ground arith, ground arith)

  activate_found-ok :
      (now : ℕ) (o : Option User) (w v : World S) {u' : User}
      → activate_found S f now o w ≡ ok u' v
      → (u : User) × (o ≡ some u)
        × (u.status ≢ UserStatus.active)
        × (u' ≡ activate now u)
        × (v ≡ record w { rows = S.save_user u' w.rows })
  unfolding activate_found
  activate_found-ok now none w v h = cc
  activate_found-ok now (some u) w v h =
      let (a, b, c) = activate_row-ok u.status now u w v h in (u, refl, a, b, c)

  abbrev pub save_in : User → World S → World S
  save_in x y = record y { rows = S.save_user x y.rows }

  pub activation-ok :
      (email : Text) (now : ℕ) (w v : World S) {u' : User}
      → activation S f email now w ≡ ok u' v
      → (u : User) × (S.find_user (λ x. text_eq x.email email) w.rows ≡ some u)
        × (u.status ≢ UserStatus.active)
        × (u' ≡ activate now u)
        × (v ≡ record w { rows = S.save_user u' w.rows })
  unfolding activation
  activation-ok email now w v {u'} h =
      let (o, w1, e1, h1) =
        >>=-ok (call f.find (queries (S.find_user (λ x. text_eq x.email email)))) _ w h in
      let (v1, same) = queries-ok f.find (S.find_user (λ x. text_eq x.email email)) w w1 e1 in
      let (u, some_u, inactive, fresh, v2) = activate_found-ok now o w1 v h1 in
      (u, sym same ∙ some_u, inactive, fresh, v2 ∙ moved u' v1)
    where
      moved :
          (x : User) {y z : World S}
          → y ≡ z
          → ◌≡◌ {A = World S}
              (record y { rows = S.save_user x y.rows })
              (record z { rows = S.save_user x z.rows })
      moved x {y} {z} q = ap (λ (p : World S). save_in x p) q

  pub clean_up-ok :
      (email : Text) (w v : World S) {u : Unit {0}}
      → clean_up S f email w ≡ ok u v
      → v ≡ record w {
        store =
            S.del
              (legacy_attempts_key email)
              (S.del (otp_key email) (S.del (verify_rate_key email) w.store));
      }
  unfolding clean_up
  clean_up-ok email w v h = ground arith

  pub activation_error-throws :
      (e : Thrown) (w : World S)
      → (e' : Thrown) × (v : World S) × (activation_error S f e w ≡ err e' v) × (v.rows ≡ w.rows)
  unfolding activation_error
  activation_error-throws (rpc code message) w = (rpc code message, w, refl, refl)
  activation_error-throws rejected w = (rpc _ _, w, refl, refl)

  -- The checks behind an activation, and the row that it writes.
  pub record Activates (request : VerifyRequest) (fresh : Fresh) (w : World S) (t : S.Rows)
      : Type 0 where
    pub user : User
    pub found :
        S.find_user (λ x. text_eq x.email (normalize_email request.email)) w.rows ≡ some user
    pub inactive : user.status ≢ UserStatus.active
    pub right_code :
        S.get (otp_key (normalize_email request.email)) w.store
        ≡ some (S.sha256 (trim request.code))
    pub activated : t ≡ S.save_user (activate fresh.now user) w.rows

  pub transaction_Activates :
      (request : VerifyRequest) (fresh : Fresh) (w v : World S) {u' : User}
      → S.get (otp_key (normalize_email request.email)) w.store
        ≡ some (S.sha256 (trim request.code))
      → activation S f (normalize_email request.email) fresh.now w ≡ ok u' v
      → (a : Activates request fresh w v.rows) × (u' ≡ activate fresh.now a.user)
        × (v.store ≡ w.store)
  transaction_Activates request fresh w v code h =
      let (u, found, inactive, same, state') = activation-ok _ _ w v h in
      (
        record {
          user = u;
          found = found;
          inactive = inactive;
          right_code = code;
          activated = ap (λ (y : World S). y.rows) state' ∙ ap (λ x. S.save_user x w.rows) same;
        },
        same,
        ap (λ (y : World S). y.store) state',
      )

  finished :
      (request : VerifyRequest) (fresh : Fresh) (data' : AuthData) (w w3 w4 w' : World S)
      (u' : User)
      → (a : Activates request fresh w w3.rows) × (u' ≡ activate fresh.now a.user)
        × (w3.store ≡ w.store)
      → w4 ≡ record w3 { store = spent S (normalize_email request.email) w3.store }
      → (data' ≡ auth_data S u' fresh)
        × (w' ≡ record w4 {
          store =
              save_session S
                (session_params S u' fresh (client_ip request) (client_agent request))
                fresh.now
                w4.store;
        })
      → (a : Activates request fresh w w'.rows) × (data'
          ≡ auth_data S (activate fresh.now a.user) fresh)
        × (w'.store
            ≡ save_session S
                (session_params S
                  (activate fresh.now a.user)
                  fresh
                  (client_ip request)
                  (client_agent request))
                fresh.now
                (spent S (normalize_email request.email) w.store))
  finished request fresh data' w w3 w4 w' u' (a, same, kept) v4 (reply, v5) = (
    record {
      user = a.user;
      found = a.found;
      inactive = a.inactive;
      right_code = a.right_code;
      activated = ap (λ (x : World S). x.rows) v5 ∙ ap (λ (x : World S). x.rows) v4 ∙ a.activated;
    },
    reply ∙ ap (λ x. auth_data S x fresh) same,
    ap (λ (x : World S). x.store) v5
        ∙ ap (λ x. stored x w4.store) same
        ∙ ap (stored (activate fresh.now a.user))
            (ap (λ (x : World S). x.store) v4 ∙ ap (spent S (normalize_email request.email)) kept),
  )
    where
      stored : User → S.Store → S.Store
      stored x =
          save_session S (session_params S x fresh (client_ip request) (client_agent request))
            fresh.now

  finish-Activates :
      (request : VerifyRequest) (fresh : Fresh) (data' : AuthData) (w w' : World S)
      → S.get (otp_key (normalize_email request.email)) w.store
        ≡ some (S.sha256 (trim request.code))
      → finish S f (normalize_email request.email) request fresh w ≡ ok data' w'
      → (a : Activates request fresh w w'.rows) × (data'
          ≡ auth_data S (activate fresh.now a.user) fresh)
        × (w'.store
            ≡ save_session S
                (session_params S
                  (activate fresh.now a.user)
                  fresh
                  (client_ip request)
                  (client_agent request))
                fresh.now
                (spent S (normalize_email request.email) w.store))
  unfolding finish
  finish-Activates request fresh data' w w' code h =
      let email = normalize_email request.email in
      let (u', w3, e3, h3) =
        >>=-ok (transaction f.tx (activation S f email fresh.now) (activation_error S f)) _ w h in
      let (_, w4, e4, h4) = >>=-ok (clean_up S f email) _ w3 h3 in
      let body = transaction-ok f.tx _ (activation_error S f) activation_error-throws w w3 e3 in
      finished request fresh data' w w3 w4 w' u'
        (transaction_Activates request fresh w w3 code body) (clean_up-ok email w3 w4 e4)
        (issue_session-ok S f.hash f.session u' fresh _ _ w4 w' h4)

  -- `verifyAccount` answers only to the code whose hash is stored for the address, for a row that
  -- was not ACTIVE; it then has activated that row, deleted the code and the counters, and stored
  -- the session of the tokens that it hands out.
  pub verify_Activates :
      (request : VerifyRequest) (fresh : Fresh) (data' : AuthData) (w w' : World S)
      → verify_account S f request fresh w ≡ ok data' w'
      → (a : Activates request fresh w w'.rows) × (data'
          ≡ auth_data S (activate fresh.now a.user) fresh)
        × (w'.store
            ≡ save_session S
                (session_params S
                  (activate fresh.now a.user)
                  fresh
                  (client_ip request)
                  (client_agent request))
                fresh.now
                (spent S (normalize_email request.email) w.store))
  unfolding verify_account
  verify_Activates request fresh data' w w' h =
      let email = normalize_email request.email in
      let (_, w1, e1, h1) = >>=-ok (check_rate S f (verify_rate_key email)) _ w h in
      let (_, w2, e2, h2) = >>=-ok (check_code S f email (trim request.code)) _ w1 h1 in
      let (v1, _) = check_rate-ok (verify_rate_key email) w w1 e1 in
      let (v2, code) = check_code-ok email (trim request.code) w1 w2 e2 in
      finish-Activates request fresh data' w w'
        (subst
          (λ (x : World S). S.get (otp_key email) x.store ≡ some (S.sha256 (trim request.code))) v1
          code)
        (subst (λ (x : World S). finish S f email request fresh x ≡ ok data' w') (v2 ∙ v1) h2)
