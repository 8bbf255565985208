-- ===== src/Gateway/Auth/Verified.antt =====
-- verify-account.dto.ts, the pattern of `code`; and the reply to the verification of an address that
-- was registered.
use skill_up.Base.{
  ℕ, ◌<◌, ◌≡◌, ◌≢◌, refl, Bool, true, ◌&&◌, none, some, [], ◌∷◌, all, length, ◌==◌, both_true,
}
use skill_up.Text.{Text, codes, trim, trim_start, trim_end, or_else_same, is_digit}
use skill_up.Text.Decimal.{is_space_of_is_digit}
use skill_up.Values.{Value, text, boolean, object, empty, property}
use skill_up.Shared.{UserRole, UserStatus}
use skill_up.Users.Register.{photo_of, or_null}
use skill_up.Users.Register.Recorded.{pending_user}
use skill_up.Users.Tokens.{or_empty, profile}
use skill_up.Text.{or_else}
use skill_up.Services.{Services, IsRedis, IsDatabase, same_id}
use skill_up.Effects.{World, ok}
use skill_up.Users.Keys.{verify_rate_key}
use skill_up.Users.Counter.{read_count}
use skill_up.Users.Tokens.{Fresh, Profile, auth_data}
use skill_up.Users.Verify.{normalize_email, activate}
use skill_up.Users.Verify.Success.{no_faults, verified}
use skill_up.Users.Register.{CreateUserRequest, RegisterFaults, Draw, new_user, create_user}
use skill_up.Users.Register.Activation.{verified_later}
use skill_up.Gateway.Http.{Nest}
use skill_up.Gateway.Auth.{
  Client, Transport, verify_payload, token_body, refresh_cookie, answer_of, call_users, reply_of,
  post_verify_account,
}

-- `/^[0-9]{6}$/`
unfoldable pub is_code : Text → Bool
is_code code = all is_digit code && length code == 6

trim_end-digits : (s : Text) → all is_digit s ≡ true → trim_end s ≡ s
unfolding trim_end
trim_end-digits [] h = refl
trim_end-digits (c ∷ []) h =
    let (d, rest) = both_true (is_digit c) true h in rw (is_space_of_is_digit c d) refl
trim_end-digits (c ∷ e ∷ s) h =
    let (d, rest) = both_true (is_digit c) (all is_digit (e ∷ s)) h in
    rw (trim_end-digits (e ∷ s) rest) refl

trim_start-digits : (s : Text) → all is_digit s ≡ true → trim_start s ≡ s
unfolding trim_start
trim_start-digits [] h = refl
trim_start-digits (c ∷ s) h =
    let (d, rest) = both_true (is_digit c) (all is_digit s) h in rw (is_space_of_is_digit c d) refl

-- The trimming of the users service leaves a code that passes the DTO as it is.
trim-is_code : (s : Text) → is_code s ≡ true → trim s ≡ s
unfolding is_code trim
trim-is_code s h =
    let (d, six) = both_true (all is_digit s) (length s == 6) h in
    rw (trim_start-digits s d) (trim_end-digits s d)

-- The profile of the new user, once ACTIVE at the time `now`.
abbrev pub active_profile : CreateUserRequest → Draw → ℕ → Profile
active_profile r draw now = record {
  id = or_else r.id draw.uuid;
  email = normalize_email r.email;
  username = trim r.username;
  role = UserRole.student;
  status = UserStatus.active;
  profile_photo = photo_of r draw;
  birth_date = or_else r.birth_date r.birth_date_alias;
  created_at = draw.now;
  updated_at = now;
}

or_empty-or_null : (t : Text) → or_empty (or_null t) ≡ t
or_empty-or_null [] = refl
or_empty-or_null (c ∷ t) = refl

profile-new_user :
    (S : Services) (r : CreateUserRequest) (draw : Draw) (now : ℕ)
    → profile (activate now (new_user S r draw)) ≡ active_profile r draw now
unfolding profile new_user
profile-new_user S r draw now =
    rw
      (
        or_empty-or_null (photo_of r draw),
        or_empty-or_null (or_else r.birth_date r.birth_date_alias),
      )
      refl

-- The access token of the new user's session.
abbrev pub student_token : (S : Services) → CreateUserRequest → Draw → Fresh → Text
student_token S r draw fresh =
    S.jwt_sign
      ((codes "sub", or_else r.id draw.uuid)
        ∷ (codes "email", normalize_email r.email)
        ∷ (codes "role", codes "STUDENT")
        ∷ (codes "sessionId", fresh.session_id)
        ∷ [])
      fresh.jwt_secret

set_cookie :
    (production : Bool) (token : Text)
    → token ≢ []
    → refresh_cookie production token
      ≡ some (record {
        value = token;
        http_only = true;
        secure = production;
        same_site = codes "lax";
        path = codes "/api/v1/users/auth";
        max_age = 604800000;
      })
set_cookie production [] h = absurd (h refl)
set_cookie production (c ∷ t) h = refl

module _ (describe : Profile → Value) (S : Services) (redis : IsRedis S) (db : IsDatabase S)
    (N : Nest) (t : Transport) (healthy : t.fault ≡ none) where
  -- Where gRPC and the calls of the verification answer, the gateway answers a verification with the
  -- address and the code of a registration that was answered, for a code that the DTO lets through, a
  -- refresh token that is not empty and fewer than seven failures counted: with 200, a body of the access token, signed for the new user
  -- and the session, and of that user's profile, now ACTIVE, and a cookie of the refresh token for
  -- seven days, which scripts cannot read; the row of the user is ACTIVE.
  pub post_verify_account_complete :
      (f : RegisterFaults) (r : CreateUserRequest) (draw : Draw) (client : Client) (fresh : Fresh)
      (uid : Text) (old w : World S) (n : ℕ)
      → create_user S f r draw old ≡ ok uid w
      → is_code draw.code ≡ true
      → S.sha256 draw.code ≢ []
      → fresh.refresh_token ≢ []
      → read_count (S.get (verify_rate_key (normalize_email r.email)) old.store) ≡ some n
      → n < 7
      → let request = verify_payload r.email draw.code client in
        let after = verified S request fresh (new_user S r draw) w in
        (post_verify_account describe S N t no_faults r.email draw.code client fresh w ≡ (
          record {
            status = 200;
            body = property (codes "success") (boolean true) (
                property (codes "message") (text (codes "Account verified successfully")) (
                  property
                    (codes "data")
                    (object (
                      property (codes "accessToken") (text (student_token S r draw fresh)) (
                        property
                          (codes "user")
                          (describe (active_profile r draw fresh.now))
                          empty)))
                    empty));
            retry_after = none;
            cookie = some (record {
              value = fresh.refresh_token;
              http_only = true;
              secure = t.production;
              same_site = codes "lax";
              path = codes "/api/v1/users/auth";
              max_age = 604800000;
            });
          },
          after,
        ))
        × (S.find_user (same_id (or_else r.id draw.uuid)) after.rows
            ≡ some (record (pending_user S r draw) {
              status = UserStatus.active;
              updated_at = fresh.now;
            }))
  unfolding post_verify_account call_users answer_of reply_of auth_data token_body new_user
  post_verify_account_complete f r draw client fresh uid old w n created digits hash filled few lt =
      let (done, active) =
        verified_later S redis db f r draw (verify_payload r.email draw.code client) fresh uid old w
          n created refl (trim-is_code draw.code digits) hash few lt in
      (
        rw
            (
              healthy,
              done,
              post_verify_account,
              call_users,
              or_else_same fresh.refresh_token,
              or_else_same (student_token S r draw fresh),
              profile-new_user S r draw fresh.now,
              set_cookie t.production fresh.refresh_token filled,
            )
            refl,
        active,
      )
