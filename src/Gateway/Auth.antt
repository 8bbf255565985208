-- ===== src/Gateway/Auth.antt =====
-- apps/api-gateway/src/users: `verifyAccount`, `sendVerificationCode` and `login` of
-- auth.controller.ts and of its providers, with the users service behind them. An error of gRPC
-- itself, and what an exception of the users service becomes on its way, are parameters.
pub mod Replies
pub mod Lockouts
pub mod Verified
use skill_up.Base.{ℕ, ◌*◌, Bool, true, false, Option, none, some, [], ◌∷◌}
use skill_up.Text.{Text, codes, or_else}
use skill_up.Values.{Value, text, boolean, object, Object, empty, property}
use skill_up.Services.{Services}
use skill_up.Effects.{Thrown, World, Run, ok, err}
use skill_up.Users.Tokens.{Fresh, AuthData, Profile}
use skill_up.Users.Login
use skill_up.Users.Login.{LoginRequest, LoginFaults}
use skill_up.Users.Verify
use skill_up.Users.Verify.{VerifyRequest, VerifyFaults}
use skill_up.Users.Resend
use skill_up.Users.Resend.{ResendFaults}
use skill_up.Gateway.{HttpError, GrpcError, login_error, verify_error, resend_error}
use skill_up.Gateway.Http.{Cookie, HttpReply, Nest, error_reply}

-- What the controller reads of a request; a missing text is empty.
pub record Client : Type 0 where
  pub ip : Text
  pub remote_address : Text
  pub user_agent : Text

pub record Transport : Type 0 where
  pub fault : Option GrpcError
  pub wire : Thrown → GrpcError
  pub production : Bool

abbrev pub ip_address : Client → Text
ip_address c = or_else c.ip (or_else c.remote_address (codes "127.0.0.1"))

abbrev pub user_agent : Client → Text
user_agent c = or_else c.user_agent (codes "Unknown-Device")

-- The replies of `Login` and `VerifyAccount`, with both spellings of their tokens.
pub record TokenReply : Type 0 where
  pub message : Text
  pub access_token : Text
  pub access_token_alias : Text
  pub refresh_token : Text
  pub refresh_token_alias : Text
  pub user : Profile

abbrev pub login_reply : AuthData → TokenReply
login_reply d = record {
  message = codes "Logged in successfully";
  access_token = d.access_token;
  access_token_alias = d.access_token;
  refresh_token = d.refresh_token;
  refresh_token_alias = d.refresh_token;
  user = d.user;
}

abbrev pub verify_reply : AuthData → TokenReply
verify_reply d = record (login_reply d) { message = codes "Account verified successfully" }

-- `LoginResult` and `VerifyAccountResult`.
pub record TokenResult : Type 0 where
  pub message : Text
  pub access_token : Text
  pub refresh_token : Text
  pub user : Profile

abbrev pub token_result : Text → TokenReply → TokenResult
token_result fallback r = record {
  message = or_else r.message fallback;
  access_token = or_else r.access_token r.access_token_alias;
  refresh_token = or_else r.refresh_token r.refresh_token_alias;
  user = r.user;
}

-- What a provider returns or throws.
pub data Provided (A : Type 0) : Type 0 where
  provided : A → Provided A
  refused : HttpError → Provided A

abbrev pub login_payload : Text → Text → Client → LoginRequest
login_payload identifier password c = record {
  identifier = identifier;
  password = password;
  ip_address = ip_address c;
  ip_address_alias = ip_address c;
  user_agent = user_agent c;
  user_agent_alias = user_agent c;
}

abbrev pub verify_payload : Text → Text → Client → VerifyRequest
verify_payload email code c = record {
  email = email;
  code = code;
  ip_address = ip_address c;
  ip_address_alias = ip_address c;
  user_agent = user_agent c;
  user_agent_alias = user_agent c;
}

-- `res.cookie('refresh_token', …)`, for a token that is not empty.
abbrev pub refresh_cookie : Bool → Text → Option Cookie
refresh_cookie production [] = none
refresh_cookie production (c ∷ t) = some (record {
  value = c ∷ t;
  http_only = true;
  secure = production;
  same_site = codes "lax";
  path = codes "/api/v1/users/auth";
  max_age = 7 * 24 * 60 * 60 * 1000;
})

module _ (describe : Profile → Value) where
  -- `{ success, message, data: { accessToken, user } }`
  unfoldable pub token_body : Text → TokenResult → Object
  token_body fallback r = property (codes "success") (boolean true) (
      property (codes "message") (text (or_else r.message fallback)) (
        property (codes "data")
          (object (
            property (codes "accessToken") (text r.access_token)
              (property (codes "user") (describe r.user) empty)))
          empty))

  module _ (S : Services) (N : Nest) (t : Transport) where
    -- An answer of the users service, or what the provider makes of its error.
    unfoldable pub answer_of :
        {A B : Type 0} → (A → B) → (GrpcError → HttpError) → Run S A → Provided B × World S
    answer_of result error (ok a w) = (provided (result a), w)
    answer_of result error (err e w) = (refused (error (t.wire e)), w)

    -- The call of a provider: an error of gRPC itself leaves the users service alone.
    unfoldable pub call_users :
        {A B : Type 0}
        → (A → B)
        → (GrpcError → HttpError)
        → (World S → Run S A)
        → World S
        → Provided B × World S
    call_users result error method w = elim t.fault [
      | some e ↦ (refused (error e), w)
      | none ↦ answer_of result error (method w)
    ]

    unfoldable pub reply_of : Text → Provided TokenResult → HttpReply
    reply_of fallback (refused e) = error_reply N e
    reply_of fallback (provided r) = record {
      status = 200;
      body = token_body fallback r;
      retry_after = none;
      cookie = refresh_cookie t.production r.refresh_token;
    }

    -- `POST users/auth/login`
    unfoldable pub post_login :
        LoginFaults → Text → Text → Client → Fresh → World S → HttpReply × World S
    post_login f identifier password c fresh w =
        let (r, v) =
          call_users (λ d. token_result (codes "Logged in successfully") (login_reply d))
            login_error (Login.login S f (login_payload identifier password c) fresh) w in
        (reply_of (codes "Logged in successfully") r, v)

    -- `POST users/auth/verify-account`; the message is never empty.
    unfoldable pub post_verify_account :
        VerifyFaults → Text → Text → Client → Fresh → World S → HttpReply × World S
    post_verify_account f email code c fresh w =
        let (r, v) =
          call_users
            (λ d.
              token_result (codes "Account verified and logged in successfully") (verify_reply d))
            verify_error (Verify.verify_account S f (verify_payload email code c) fresh) w in
        (reply_of [] r, v)

    -- The reply of the users service to a request for a code.
    abbrev pub sent_text : Text
    sent_text = codes "A new verification code has been sent to your email address."

    abbrev pub message_body : Text → Object
    message_body m =
        property (codes "success") (boolean true) (property (codes "message") (text m) empty)

    unfoldable pub sent_reply : Provided Text → HttpReply
    sent_reply (refused e) = error_reply N e
    sent_reply (provided m) = record {
      status = 200;
      body = message_body m;
      retry_after = none;
      cookie = none;
    }

    -- `POST users/auth/send-verification-code`
    unfoldable pub post_send_verification_code :
        ResendFaults → Text → Resend.Draw → World S → HttpReply × World S
    post_send_verification_code f email draw w =
        let (r, v) =
          call_users (λ (u : Unit {0}). sent_text) resend_error
            (Resend.send_verification_code S f email draw) w in
        (sent_reply r, v)
