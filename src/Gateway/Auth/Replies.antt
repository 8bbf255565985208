-- ===== src/Gateway/Auth/Replies.antt =====
-- The reply of the gateway to the client that gets the cookie.
use skill_up.Base.{◌≡◌, refl, ap, ◌∙◌, Bool, true, Option, none, some, [], ◌∷◌, arith}
use skill_up.Text.{Text, codes, or_else, or_else_same}
use skill_up.Values.{Value}
use skill_up.Services.{Services}
use skill_up.Effects.{World, Run, ok, err}
use skill_up.Users.Tokens.{auth_data, Fresh, AuthData, Profile}
use skill_up.Users.Login
use skill_up.Users.Login.{LoginRequest, LoginFaults, normalize_identifier}
use skill_up.Users.Login.Outcome.{Granted, login-Granted}
use skill_up.Gateway.{GrpcError}
use skill_up.Gateway.Http.{filter, Cookie, HttpReply, Nest, error_reply}
use skill_up.Gateway.Auth.{
  Client, Transport, login_payload, login_reply, token_result, refresh_cookie, token_body,
  answer_of, call_users, reply_of, post_login,
}

-- A cookie and the reply that it comes with, for a login that the users service has granted.
pub record Issued (describe : Profile → Value) (S : Services) (t : Transport) (f : LoginFaults)
    (request : LoginRequest) (fresh : Fresh) (c : Cookie) (r : HttpReply) (w w' : World S)
    : Type 0 where
  pub reply : AuthData
  pub granted : Granted S f request fresh reply w w'
  pub value : c.value ≡ fresh.refresh_token
  pub http_only : c.http_only ≡ true
  pub secure : c.secure ≡ t.production
  pub status : r.status ≡ 200
  pub body :
      r.body
      ≡ token_body describe
          (codes "Logged in successfully")
          (token_result (codes "Logged in successfully") (login_reply reply))

refresh_cookie-value :
    (production : Bool) (t : Text) (c : Cookie)
    → refresh_cookie production t ≡ some c
    → (c.value ≡ t) × (c.http_only ≡ true) × (c.secure ≡ production)
refresh_cookie-value production [] c h = cc
refresh_cookie-value production (x ∷ t) c h = ground arith

no_cookie : {x : Cookie} → ¬ (none ≡ some x)
no_cookie h = cc

module _ (describe : Profile → Value) (S : Services) (N : Nest) (t : Transport) where
  -- Whoever gets a cookie from the login has passed every check of the users service: the user is
  -- ACTIVE, the password is right and the identifier is not locked. The cookie holds the refresh token
  -- of the stored session, out of reach of scripts, and the body the access token and the profile.
  pub post_login-Issued :
      (f : LoginFaults) (identifier password : Text) (client : Client) (fresh : Fresh) (c : Cookie)
      (w : World S)
      → (post_login describe S N t f identifier password client fresh w).0.cookie ≡ some c
      → Issued describe S t f
          (login_payload identifier password client)
          fresh
          c
          (post_login describe S N t f identifier password client fresh w).0
          w
          (post_login describe S N t f identifier password client fresh w).1
  unfolding post_login call_users answer_of reply_of error_reply filter auth_data
  post_login-Issued f identifier password client fresh c w h =
      go t.fault (Login.login S f (login_payload identifier password client) fresh w) refl refl
    where
      go :
          (o : Option GrpcError) (y : Run S AuthData)
          → t.fault ≡ o
          → Login.login S f (login_payload identifier password client) fresh w ≡ y
          → Issued describe S t f
              (login_payload identifier password client)
              fresh
              c
              (post_login describe S N t f identifier password client fresh w).0
              w
              (post_login describe S N t f identifier password client fresh w).1
      go (some e) y down run = absurd (no_cookie (rw (down, post_login, call_users) at h))
      go none (err e v) up run = absurd (no_cookie (rw (up, run, post_login, call_users) at h))
      go none (ok d v) up run =
          let g = login-Granted S f (login_payload identifier password client) fresh d w v run in
          let k = rw (up, run, post_login, call_users) at h in
          let (a, b, e) =
            refresh_cookie-value t.production (or_else d.refresh_token d.refresh_token) c k in
          rw (up, run, post_login, call_users)
            (record {
              reply = d;
              granted = g;
              value =
                  a ∙ or_else_same d.refresh_token ∙ ap (λ (x : AuthData). x.refresh_token) g.reply;
              http_only = b;
              secure = e;
              status = refl;
              body = refl;
            })
