-- ===== src/Users/Tokens.antt =====
-- The end that the login and the verification share: a session id, the two tokens, the stored
-- session and the reply. Random values and the time are arguments.
use skill_up.Base.{ℕ, ◌≡◌, Bool, arith, Option, none, some, List, [], ◌∷◌}
use skill_up.Text.{Text, codes}
use skill_up.Shared.{User, UserRole, UserStatus}
use skill_up.Services.{Services}
use skill_up.Effects.{Thrown, rejected, World, ok, err, M, ◌>>◌, pure, call, writes}
use skill_up.Session.{SessionParams, default_ttl_seconds, default_max_devices, save_session}

-- What the request draws from `crypto`, `bcrypt`, the clock and the configuration.
pub record Fresh : Type 0 where
  pub session_id : Text
  pub refresh_token : Text
  pub salt : Text
  pub jwt_secret : Text
  pub created_at : Text
  pub now : ℕ

-- `value || ''`
abbrev pub or_empty : Option Text → Text
or_empty none = []
or_empty (some t) = t

pub record Profile : Type 0 where
  pub id : Text
  pub email : Text
  pub username : Text
  pub role : UserRole
  pub status : UserStatus
  pub profile_photo : Text
  pub birth_date : Text
  pub created_at : ℕ
  pub updated_at : ℕ

unfoldable pub profile : User → Profile
profile u = record {
  id = u.id;
  email = u.email;
  username = u.username;
  role = u.role;
  status = u.status;
  profile_photo = or_empty u.profile_photo;
  birth_date = or_empty u.birth_date;
  created_at = u.created_at;
  updated_at = u.updated_at;
}

pub record AuthData : Type 0 where
  pub access_token : Text
  pub refresh_token : Text
  pub user : Profile

abbrev pub role_text : UserRole → Text
role_text UserRole.student = codes "STUDENT"
role_text UserRole.instructor = codes "INSTRUCTOR"
role_text UserRole.admin = codes "ADMIN"

-- The claims of the access token.
abbrev pub claims : User → Text → List (Text × Text)
claims u sid =
    (codes "sub", u.id)
    ∷ (codes "email", u.email)
    ∷ (codes "role", role_text u.role)
    ∷ (codes "sessionId", sid)
    ∷ []

module _ (S : Services) where
  unfoldable pub auth_data : User → Fresh → AuthData
  auth_data u f = record {
    access_token = S.jwt_sign (claims u f.session_id) f.jwt_secret;
    refresh_token = f.refresh_token;
    user = profile u;
  }

  unfoldable pub session_params : User → Fresh → Text → Text → SessionParams
  session_params u f ip_address user_agent = record {
    session_id = f.session_id;
    user_id = u.id;
    hashed_refresh_token = S.bcrypt_hash f.refresh_token f.salt;
    ip_address = ip_address;
    user_agent = user_agent;
    created_at = f.created_at;
    max_devices = default_max_devices;
    ttl_seconds = default_ttl_seconds;
  }

  -- `hash_down` and `save_down`: whether `bcrypt.hash` and the script reject.
  unfoldable pub issue_session : Bool → Bool → User → Fresh → Text → Text → M S AuthData
  issue_session hash_down save_down u f ip_address user_agent = do
    call hash_down (pure tt)
    call save_down (writes (save_session S (session_params u f ip_address user_agent) f.now))
    pure (auth_data u f)

  pub issue_session-ok :
      (hash_down save_down : Bool) (u : User) (f : Fresh) (ip agent : Text) (w v : World S)
      {d : AuthData}
      → issue_session hash_down save_down u f ip agent w ≡ ok d v
      → (d ≡ auth_data u f)
        × (v ≡ record w { store = save_session S (session_params u f ip agent) f.now w.store })
  unfolding issue_session
  issue_session-ok hash_down save_down u f ip agent w v h = ground arith

  pub issue_session-err :
      (hash_down save_down : Bool) (u : User) (f : Fresh) (ip agent : Text) (w v : World S)
      {e : Thrown}
      → issue_session hash_down save_down u f ip agent w ≡ err e v
      → (e ≡ rejected) × (v ≡ w)
  unfolding issue_session
  issue_session-err hash_down save_down u f ip agent w v h = ground arith
