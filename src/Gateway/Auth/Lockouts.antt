-- ===== src/Gateway/Auth/Lockouts.antt =====
-- The replies of the gateway to a client that is locked out.
use skill_up.Base.{ℕ, zero, suc, ◌<◌, ◌≤◌, ◌≡◌, refl, ◌∙◌, false, none, some, ◌∷◌, arith}
use skill_up.Text.{Text, codes}
use skill_up.Values.{Value}
use skill_up.Shared.{GrpcStatus}
use skill_up.Shared.Enums.{grpc_code}
use skill_up.Services.{Services, IsRedis, Ttl}
use skill_up.Effects.{rpc, World}
use skill_up.Users.Keys.{login_rate_key, verify_rate_key}
use skill_up.Users.Counter.{read_count, effective_ttl}
use skill_up.Users.Tokens.{Fresh, Profile}
use skill_up.Users.Login
use skill_up.Users.Login.{LoginRequest, LoginFaults, normalize_identifier}
use skill_up.Users.Login.Lockout
use skill_up.Users.Verify
use skill_up.Users.Verify.{VerifyFaults, normalize_email}
use skill_up.Users.Verify.Codes
use skill_up.Users.Resend
use skill_up.Users.Resend.{ResendFaults}
use skill_up.Users.Resend.Lockout.{resend_locked}
use skill_up.Gateway.{resend_error, GrpcError, too_many_requests, login_error, verify_error}
use skill_up.Gateway.RetryAfter.{exhausted, retry_after_kept}
use skill_up.Gateway.Http.{HttpReply, Nest, IsNest, Limits, error_reply, error_reply-Limits}
use skill_up.Gateway.Auth.{
  post_send_verification_code, sent_reply, Client, Transport, login_payload, verify_payload,
  answer_of, call_users, reply_of, post_login, post_verify_account,
}

-- gRPC brings the code and the text of an `RpcException` to the client.
pub record IsWired (t : Transport) : Type 0 where
  pub code : (c : GrpcStatus) (m : Text) → (t.wire (rpc c m)).code ≡ grpc_code c
  pub details : (c : GrpcStatus) (m : Text) → (t.wire (rpc c m)).details ≡ m

positive_ttl : (ttl : Ttl) (fallback : ℕ) → 0 < fallback → 0 < effective_ttl ttl fallback
positive_ttl (Ttl.seconds n) fallback h = ground arith
positive_ttl Ttl.missing fallback h = h
positive_ttl Ttl.persistent fallback h = h

-- Errors with the same code and a text.
login_error_eq :
    (e : GrpcError) (n : ℕ)
    → e.code ≡ 8
    → e.details ≡ Login.locked_message n
    → login_error e ≡ login_error (exhausted (Login.locked_message n))
unfolding login_error Login.locked_message
login_error_eq e n a b = rw (a, b) refl

verify_error_eq :
    (e : GrpcError) (n : ℕ)
    → e.code ≡ 8
    → e.details ≡ Verify.locked_message n
    → verify_error e ≡ verify_error (exhausted (Verify.locked_message n))
unfolding verify_error Verify.locked_message
verify_error_eq e n a b = rw (a, b) refl

positive_Limits :
    (N : Nest) (nest : IsNest N) (c : ℕ) (m : Text) (n : ℕ)
    → 0 < n
    → Limits N (c ∷ m) n (error_reply N (too_many_requests (c ∷ m) n))
positive_Limits N nest c m zero h = absurd (omega arith)
positive_Limits N nest c m (suc n) h = error_reply-Limits N nest c m n

resend_error_eq :
    (e : GrpcError) (n : ℕ)
    → e.code ≡ 8
    → e.details ≡ Resend.lockout_message n
    → resend_error e ≡ resend_error (exhausted (Resend.lockout_message n))
unfolding resend_error Resend.lockout_message
resend_error_eq e n a b = rw (a, b) refl

module _ (describe : Profile → Value) (S : Services) (redis : IsRedis S) (N : Nest)
    (nest : IsNest N) (t : Transport) (wired : IsWired t) (healthy : t.fault ≡ none) where
  -- A reply of 429 with this message and these seconds, which leaves the users service as it was.
  abbrev pub Refuses : Text → ℕ → World S → HttpReply × World S → Type 0
  Refuses m n w r = Limits N m n r.0 × (r.1 ≡ w)

  -- The seconds that Redis still holds a counter.
  abbrev pub seconds_left : Text → World S → ℕ
  seconds_left key w = effective_ttl (S.ttl key w.store) 900

  seconds_positive : (key : Text) (w : World S) → 0 < seconds_left key w
  seconds_positive key w = positive_ttl (S.ttl key w.store) 900 (omega arith)

  login_refused :
      (f : LoginFaults) (identifier password : Text) (client : Client) (fresh : Fresh) (n : ℕ)
      (w : World S)
      → Lockout.Reaches f
      → read_count (S.get (login_rate_key (normalize_identifier identifier)) w.store) ≡ some n
      → 5 ≤ n
      → Refuses
          (codes "Too many failed login attempts. Please try again after 15 minutes.")
          (seconds_left (login_rate_key (normalize_identifier identifier)) w)
          w
          (post_login describe S N t f identifier password client fresh w)
  unfolding post_login call_users answer_of reply_of
  login_refused f identifier password client fresh n w up h le =
      let key = login_rate_key (normalize_identifier identifier) in
      let s = seconds_left key w in
      let c = GrpcStatus.resource_exhausted in
      let m = Login.locked_message s in
      let kept =
        login_error_eq (t.wire (rpc c m)) s (wired.code c m) (wired.details c m)
        ∙ (retry_after_kept s).0 in
      rw
        (
          healthy,
          Lockout.login_locked redis f up (login_payload identifier password client) fresh n w h le,
          kept,
        )
        (positive_Limits N nest b'T' _ s (seconds_positive key w), refl)

  verify_refused :
      (f : VerifyFaults) (email code : Text) (client : Client) (fresh : Fresh) (n : ℕ) (w : World S)
      → Codes.Reaches f
      → read_count (S.get (verify_rate_key (normalize_email email)) w.store) ≡ some n
      → 7 ≤ n
      → Refuses
          (codes "Too many failed verification attempts. Please try again after 15 minutes.")
          (seconds_left (verify_rate_key (normalize_email email)) w)
          w
          (post_verify_account describe S N t f email code client fresh w)
  unfolding post_verify_account call_users answer_of reply_of
  verify_refused f email code client fresh n w up h le =
      let key = verify_rate_key (normalize_email email) in
      let s = seconds_left key w in
      let c = GrpcStatus.resource_exhausted in
      let m = Verify.locked_message s in
      let kept =
        verify_error_eq (t.wire (rpc c m)) s (wired.code c m) (wired.details c m)
        ∙ (retry_after_kept s).1 in
      rw
        (
          healthy,
          Codes.verify_locked redis f (verify_payload email code client) fresh n w up h le,
          kept,
        )
        (positive_Limits N nest b'T' _ s (seconds_positive key w), refl)

  resend_refused :
      (f : ResendFaults) (email : Text) (draw : Resend.Draw) (n : ℕ) (w : World S)
      → f.get_rate ≡ false
      → f.ttl_rate ≡ false
      → read_count (S.get (verify_rate_key (normalize_email email)) w.store) ≡ some n
      → 7 ≤ n
      → Refuses
          (codes
            "Account is temporarily locked due to too many failed attempts. Please try again after 15 minutes.")
          (seconds_left (verify_rate_key (normalize_email email)) w)
          w
          (post_send_verification_code describe S N t f email draw w)
  unfolding post_send_verification_code call_users answer_of sent_reply
  resend_refused f email draw n w up up' h le =
      let key = verify_rate_key (normalize_email email) in
      let s = seconds_left key w in
      let c = GrpcStatus.resource_exhausted in
      let m = Resend.lockout_message s in
      let kept =
        resend_error_eq (t.wire (rpc c m)) s (wired.code c m) (wired.details c m)
        ∙ (retry_after_kept s).2 in
      rw (healthy, resend_locked S f email draw n w up up' h le, kept)
        (positive_Limits N nest b'A' _ s (seconds_positive key w), refl)

  -- Where the calls of the users service and of gRPC answer, a client whose identifier has five failed
  -- logins, or whose address has seven failed codes, is answered with 429, also where it asks for a
  -- new code: the header Retry-After and the body have the seconds that Redis still holds the counter,
  -- the message is without its tag, no cookie is set, and nothing changes.
  pub lockout-Limits :
      (f : LoginFaults) (g : VerifyFaults) (h : ResendFaults)
      (identifier password email code : Text) (client : Client) (fresh : Fresh) (draw : Resend.Draw)
      (n k : ℕ) (w : World S)
      → Lockout.Reaches f
      → Codes.Reaches g
      → h.get_rate ≡ false
      → h.ttl_rate ≡ false
      → read_count (S.get (login_rate_key (normalize_identifier identifier)) w.store) ≡ some n
      → 5 ≤ n
      → read_count (S.get (verify_rate_key (normalize_email email)) w.store) ≡ some k
      → 7 ≤ k
      → Refuses
          (codes "Too many failed login attempts. Please try again after 15 minutes.")
          (seconds_left (login_rate_key (normalize_identifier identifier)) w)
          w
          (post_login describe S N t f identifier password client fresh w)
        × Refuses
            (codes "Too many failed verification attempts. Please try again after 15 minutes.")
            (seconds_left (verify_rate_key (normalize_email email)) w)
            w
            (post_verify_account describe S N t g email code client fresh w)
        × Refuses
            (codes
              "Account is temporarily locked due to too many failed attempts. Please try again after 15 minutes.")
            (seconds_left (verify_rate_key (normalize_email email)) w)
            w
            (post_send_verification_code describe S N t h email draw w)
  lockout-Limits f g h identifier password email code client fresh draw n k w up up' a b e le e'
        le' =
      (
        login_refused f identifier password client fresh n w up e le,
        verify_refused g email code client fresh k w up' e' le',
        resend_refused h email draw k w a b e' le',
      )
