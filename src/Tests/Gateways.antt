-- ===== src/Tests/Gateways.antt =====
-- The gateway's replies: to a lockout, and to a login with the right password.
use skill_up.Base.{◌≢◌, ℕ, ◌≡◌, refl, arith, true, Option, none, some, [], if◌then◌else◌}
use skill_up.Text.{Text, codes, text_eq, trim, to_lower, includes}
use skill_up.Text.Decimal.{print}
use skill_up.Values.{Value, null, number, object, text, boolean, property, empty}
use skill_up.Shared.{UserStatus}
use skill_up.Shared.Enums.{grpc_code}
use skill_up.Services.Memory.{memory, memory_redis, memory-IsDatabase, scan}
use skill_up.Services.{same_id}
use skill_up.Effects.{Thrown, rpc, rejected, World}
use skill_up.Users.Keys.{login_rate_key, verify_rate_key}
use skill_up.Users.Counter.{read_count, read_count-print}
use skill_up.Users.Tokens.{Profile, issue_session, auth_data}
use skill_up.Users.Login
use skill_up.Users.Login.{
  normalize_identifier, names_user, check_lockout, find_account, check_status, check_password,
  clear_failures,
}
use skill_up.Users.Verify.{normalize_email}
use skill_up.Users.Verify.Success.{no_faults}
use skill_up.Gateway.{HttpError, too_many_requests, GrpcError}
use skill_up.Gateway.Http.{Cookie, HttpReply, Nest, IsNest, rate_limit_body}
use skill_up.Gateway.Auth.{
  Client, Transport, post_login, post_verify_account, verify_payload, login_payload, call_users,
  answer_of, reply_of,
}
use skill_up.Gateway.Auth.Replies.{Issued, post_login-Issued}
use skill_up.Gateway.Auth.Lockouts.{IsWired, Refuses, seconds_left, lockout-Limits}
use skill_up.Gateway.Auth.{post_send_verification_code}
use skill_up.Tests.Resends
use skill_up.Tests.Resends.{no_resend_faults}
use skill_up.Tests.Fixtures.{world, fresh, no_strings, no_login_faults}
use skill_up.Users.Register.Recorded.{pending_user}
use skill_up.Gateway.Auth.Verified.{
  is_code, student_token, active_profile, post_verify_account_complete,
}
use skill_up.Users.Verify.Success.{verified}
use skill_up.Users.Register.{new_user}
use skill_up.Tests.Registrations
use skill_up.Tests.Registrations.{draw, before, bob, after, answered}
use skill_up.Tests.Logins.{reaches}
use skill_up.Tests.Verifications.{all_answer}

abbrev shown : Value → Text
shown (number n) = print n
shown v = []

abbrev body : HttpError → Value
body (too_many_requests m n) = object (rate_limit_body m n)
body e = null

abbrev status : HttpError → ℕ
status (too_many_requests m n) = 429
status e = 400

abbrev nest : Nest
nest = record { status = status; response = body; to_string = shown; timestamp = []; path = [] }

is_nest : IsNest nest
is_nest = record { response_lem = λ m n. refl; status_lem = λ m n. refl; to_string_lem = λ n. refl }

abbrev wire : Thrown → GrpcError
wire (rpc c m) = record { code = grpc_code c; details = m; message = [] }
wire rejected = record { code = 2; details = []; message = [] }

abbrev online : Transport
online = record { fault = none; wire = wire; production = true }

is_wired : IsWired online
is_wired = record { code = λ c m. refl; details = λ c m. refl }

abbrev nobody : Client
nobody = record { ip = []; remote_address = []; user_agent = [] }

abbrev undescribed : Profile → Value
undescribed u = null

-- Ten failures counted, of logins and of codes.
abbrev counters : Text → Option Text
counters k =
    if text_eq (login_rate_key (codes "a@x.io")) k
    then some (print 10)
    else if text_eq (verify_rate_key (codes "a@x.io")) k
    then some (print 10)
    else none

abbrev locked : World memory
locked = world UserStatus.active counters

logins :
    read_count (memory.get (login_rate_key (normalize_identifier (codes "a@x.io"))) locked.store)
    ≡ some 10
unfolding normalize_identifier login_rate_key trim includes to_lower text_eq
logins = read_count-print 10

codes_entered :
    read_count (memory.get (verify_rate_key (normalize_email (codes "a@x.io"))) locked.store)
    ≡ some 10
unfolding normalize_email verify_rate_key login_rate_key trim to_lower text_eq
codes_entered = read_count-print 10

lockout-Limits_example :
    Refuses undescribed memory memory_redis nest is_nest online is_wired refl
      (codes "Too many failed login attempts. Please try again after 15 minutes.")
      (seconds_left undescribed memory memory_redis nest is_nest online is_wired refl
        (login_rate_key (normalize_identifier (codes "a@x.io")))
        locked)
      locked
      (post_login undescribed memory nest online no_login_faults
        (codes "a@x.io")
        (codes "guess")
        nobody
        fresh
        locked)
    × Refuses undescribed memory memory_redis nest is_nest online is_wired refl
        (codes "Too many failed verification attempts. Please try again after 15 minutes.")
        (seconds_left undescribed memory memory_redis nest is_nest online is_wired refl
          (verify_rate_key (normalize_email (codes "a@x.io")))
          locked)
        locked
        (post_verify_account undescribed memory nest online no_faults
          (codes "a@x.io")
          (codes "1")
          nobody
          fresh
          locked)
    × Refuses undescribed memory memory_redis nest is_nest online is_wired refl
        (codes
          "Account is temporarily locked due to too many failed attempts. Please try again after 15 minutes.")
        (seconds_left undescribed memory memory_redis nest is_nest online is_wired refl
          (verify_rate_key (normalize_email (codes "a@x.io")))
          locked)
        locked
        (post_send_verification_code undescribed memory nest online no_resend_faults
          (codes "a@x.io")
          Resends.draw
          locked)
lockout-Limits_example =
    lockout-Limits undescribed memory memory_redis nest is_nest online is_wired refl no_login_faults
      no_faults no_resend_faults (codes "a@x.io") (codes "guess") (codes "a@x.io") (codes "1")
      nobody fresh Resends.draw 10 10 locked reaches all_answer refl refl logins (omega arith)
      codes_entered (omega arith)

abbrev unlocked : World memory
unlocked = world UserStatus.active no_strings

-- The cookie of the login with the right password.
abbrev cookie : Cookie
cookie = record {
  value = codes "r1";
  http_only = true;
  secure = true;
  same_site = codes "lax";
  path = codes "/api/v1/users/auth";
  max_age = 604800000;
}

cookie_set :
    (post_login undescribed memory nest online no_login_faults
      (codes "a@x.io")
      (codes "secret")
      nobody
      fresh
      unlocked).0.cookie
    ≡ some cookie
unfolding post_login call_users answer_of reply_of Login.login check_lockout find_account
    check_status check_password clear_failures issue_session read_count scan names_user
    normalize_identifier trim includes to_lower text_eq auth_data
cookie_set = refl

post_login-Issued_example :
    Issued undescribed memory online no_login_faults
      (login_payload (codes "a@x.io") (codes "secret") nobody)
      fresh
      cookie
      (post_login undescribed memory nest online no_login_faults
        (codes "a@x.io")
        (codes "secret")
        nobody
        fresh
        unlocked).0
      unlocked
      (post_login undescribed memory nest online no_login_faults
        (codes "a@x.io")
        (codes "secret")
        nobody
        fresh
        unlocked).1
post_login-Issued_example =
    post_login-Issued undescribed memory nest online no_login_faults (codes "a@x.io")
      (codes "secret") nobody fresh cookie unlocked cookie_set

six_digits : is_code draw.code ≡ true
unfolding is_code
six_digits = refl

some_code : memory.sha256 draw.code ≢ []
some_code h = cc

none_failed :
    read_count (memory.get (verify_rate_key (normalize_email bob.email)) before.store) ≡ some 0
unfolding read_count
none_failed = refl

some_token : fresh.refresh_token ≢ []
some_token h = cc

abbrev welcome : HttpReply
welcome = record {
  status = 200;
  body = property (codes "success") (boolean true) (
      property (codes "message") (text (codes "Account verified successfully")) (
        property (codes "data")
          (object (
            property (codes "accessToken") (text (student_token memory bob draw fresh))
              (property (codes "user") (undescribed (active_profile bob draw 100)) empty)))
          empty));
  retry_after = none;
  cookie = some cookie;
}

post_verify_account_complete_example :
    let request = verify_payload bob.email draw.code nobody in
    let done = verified memory request fresh (new_user memory bob draw) after in
    (post_verify_account undescribed memory nest online no_faults bob.email draw.code nobody fresh
        after
      ≡ (welcome, done))
    × (memory.find_user (same_id (codes "u2")) done.rows
        ≡ some (record (pending_user memory bob draw) {
          status = UserStatus.active;
          updated_at = 100;
        }))
post_verify_account_complete_example =
    post_verify_account_complete undescribed memory memory_redis memory-IsDatabase nest online refl
      Registrations.no_faults bob draw nobody fresh (codes "u2") before after 0 answered six_digits
      some_code some_token none_failed (omega arith)
