-- ===== src/Users/Queries.antt =====
-- apps/users-service/src/providers/user-query.provider.ts: `findUserById` and `validateUser`, and the
-- replies of password-management.provider.ts, which change nothing.
pub mod Lookup
use skill_up.Base.{ℕ, ◌≡◌, refl, Bool, true, false, Option, none, some, ◌++◌, ◌∷◌, []}
use skill_up.Text.{Text, codes, text_eq}
use skill_up.Shared.{User, UserRole, UserStatus, GrpcStatus}
use skill_up.Services.{Services, same_id}
use skill_up.Effects.{Thrown, rpc, World, Run, ok, err, M, ◌>>=◌, pure, throw, call, queries}

-- Dates are milliseconds.
pub record UserResponse : Type 0 where
  pub id : Text
  pub email : Text
  pub username : Text
  pub role : UserRole
  pub status : UserStatus
  pub created_at : ℕ
  pub updated_at : ℕ

unfoldable pub user_response : User → UserResponse
user_response u = record {
  id = u.id;
  email = u.email;
  username = u.username;
  role = u.role;
  status = u.status;
  created_at = u.created_at;
  updated_at = u.updated_at;
}

unfoldable pub unknown_id : Text → Text
unknown_id id = codes "User with id \"" ++ id ++ codes "\" not found"

pub record ValidateUserRequest : Type 0 where
  pub email : Text
  pub password : Text

-- `down` says that the query rejects.
module _ (S : Services) (down : Bool) where
  abbrev found_or : Text → Option User → M S UserResponse
  found_or message none = throw (rpc GrpcStatus.not_found message)
  found_or message (some u) = pure (user_response u)

  unfoldable pub find_user_by_id : Text → M S UserResponse
  find_user_by_id id = do
    found ← call down (queries (S.find_user (same_id id)))
    found_or (unknown_id id) found

  unfoldable pub validate_user : ValidateUserRequest → M S UserResponse
  validate_user request = do
    found ← call down (queries (S.find_user (λ u. text_eq u.email request.email)))
    found_or (codes "Invalid credentials") found
