-- ===== src/Gateway/Registration.antt =====
-- apps/api-gateway/src/users/providers/registration.provider.ts: `register`, with the calls of the
-- media service and of `createUser`. The state is that of the users service, whose Redis the gateway
-- shares, and the objects of MinIO.
pub mod Accepted
pub mod Refused
pub mod Success
use skill_up.Base.{
  ℕ, ◌+◌, ◌*◌, ◌/◌, Bool, true, false, not, ◌||◌, ◌==◌, Option, none, some, [], ◌∷◌, ◌++◌,
  if◌then◌else◌, ltb,
}
use skill_up.Text.{Text, codes, text_eq, to_lower, includes, or_else}
use skill_up.Text.Decimal.{print}
use skill_up.Services.{Services}
use skill_up.Effects.{Thrown, World, Run, ok, err}
use skill_up.Media.{Minio}
use skill_up.Users.Keys.{upload_key}
use skill_up.Users.Register.{CreateUserRequest, RegisterFaults, Draw, consumed, create_user}
use skill_up.Media.Files.{pending, min_avatar_size, max_avatar_size}
use skill_up.Gateway.{HttpError, bad_request, conflict, internal_error, GrpcError, mentions}
use skill_up.Gateway.Files.{
  Reply, returned, thrown, failed, FileData, check_file_exists, delete_file,
}

-- A text that is missing is empty. The crop and the rotation, which are passed on, are left out.
pub record RegisterRequestDto : Type 0 where
  pub username : Text
  pub email : Text
  pub password : Text
  pub birth_date : Text
  pub birth_date_alias : Text
  pub temp_photo_key : Text
  pub temp_photo_key_alias : Text

pub record Site (S : Services) (C : Minio) : Type 0 where
  pub users : World S
  pub objects : C.Objects

-- `redis_error` is what a rejection of Redis throws, `wire` what an error of the users service becomes
-- on its way; `media` and `transport` are errors of gRPC itself, before a call reaches its service.
pub record GatewayFaults : Type 0 where
  pub get_token : Bool
  pub media : Option GrpcError
  pub stat : Bool
  pub remove : Bool
  pub del_token : Bool
  pub transport : Option GrpcError
  pub set_token : Bool
  pub redis_error : GrpcError
  pub wire : Thrown → GrpcError

abbrev pub temp_key_of : RegisterRequestDto → Text
temp_key_of d = or_else d.temp_photo_key d.temp_photo_key_alias

abbrev pub target_key_of : Text → Text → Text
target_key_of [] user_id = []
target_key_of (c ∷ k) user_id = codes "avatars/" ++ user_id ++ codes "/avatar.webp"

-- 3. The payload of `createUser`.
abbrev pub payload_of : RegisterRequestDto → Text → CreateUserRequest
payload_of d user_id = record {
  id = user_id;
  username = d.username;
  email = d.email;
  password = d.password;
  birth_date = or_else d.birth_date d.birth_date_alias;
  birth_date_alias = or_else d.birth_date d.birth_date_alias;
  profile_photo = target_key_of (temp_key_of d) user_id;
  profile_photo_alias = target_key_of (temp_key_of d) user_id;
  temp_photo_key = temp_key_of d;
  temp_photo_key_alias = temp_key_of d;
}

abbrev pub expired_error : HttpError
expired_error = bad_request (
    codes
      "Avatar upload URL has expired (valid for 2 minutes) or is invalid. Please upload your avatar again.")

abbrev pub consumed_error : HttpError
consumed_error = conflict (
    codes
      "This avatar upload has already been consumed by another registration. Please upload a fresh photo.")

-- A. What the status of the upload says; `none` lets it pass.
unfoldable pub token_text_error : Text → Option HttpError
token_text_error [] = some expired_error
token_text_error (c ∷ t) =
    if text_eq (c ∷ t) consumed
    then some consumed_error
    else if text_eq (c ∷ t) pending
    then none
    else some (bad_request (codes "Invalid upload status for avatar photo."))

unfoldable pub token_error : Option Text → Option HttpError
token_error none = some expired_error
token_error (some t) = token_text_error t

abbrev pub missing_error : Text → HttpError
missing_error key = bad_request (
    codes "Avatar file at \""
    ++ key
    ++ codes "\" does not exist in storage or has expired. Please upload your avatar again.")

-- `Math.round(size / 1024)`
abbrev pub size_error : ℕ → HttpError
size_error size = bad_request (
    codes "Avatar file size must be between 1KB and 5MB. Uploaded size: "
    ++ print ((size + 512) / 1024)
    ++ codes " KB.")

unfoldable pub bad_avatar_size : ℕ → Bool
bad_avatar_size size = ltb size min_avatar_size || ltb max_avatar_size size

abbrev pub already_exists : GrpcError → Bool
already_exists e =
    e.code == 6
    || includes (codes "already exists") (to_lower e.details)
    || includes (codes "already exists") (to_lower e.message)

-- The `catch` behind `createUser`.
unfoldable pub create_error : GrpcError → HttpError
create_error e =
    if already_exists e
    then conflict (or_else e.details (or_else e.message (codes "User already exists")))
    else internal_error
        (or_else e.details (or_else e.message (codes "Internal server error during registration")))

module _ (S : Services) (C : Minio) (bucket : Text) (g : GatewayFaults) (f : RegisterFaults) where
  -- The file and its token are removed; rejections are ignored.
  unfoldable pub purge : Text → Site S C → Site S C
  purge key w = record {
    users =
        if g.del_token
        then w.users
        else record (w.users) { store = S.del (upload_key key) w.users.store };
    objects = (delete_file C bucket g.media g.remove key w.objects).1;
  }

  -- B. What the stored file says; `none` lets it pass.
  unfoldable pub check_file : Text → Site S C → Option HttpError × Site S C
  check_file key w = elim (check_file_exists C bucket g.media g.stat key w.objects) [
    | thrown e ↦ (some e, w)
    | failed e ↦ (some (bad_request (codes "Failed to verify avatar file in storage.")), w)
    | returned d ↦
        if not d.exists
        then (some (missing_error key), w)
        else if bad_avatar_size d.file_size
        then (some (size_error d.file_size), purge key w)
        else (none, w)
  ]

  -- 4. The token is marked behind the answer; a rejection is caught like one of `createUser`.
  unfoldable pub mark_consumed : Text → Text → Site S C → Reply Text × Site S C
  mark_consumed [] i w = (returned i, w)
  mark_consumed (c ∷ k) i w = if g.set_token then (thrown (create_error g.redis_error), w) else (
    returned i,
    record w {
      users = record (w.users) { store = S.set_ex (upload_key (c ∷ k)) consumed 600 w.users.store };
    },
  )

  -- The answer of `createUser`, the id of the user, or its error.
  unfoldable pub answer_of : Text → Site S C → Run S Text → Reply Text × Site S C
  answer_of key w (ok i v) = mark_consumed key i (record w { users = v })
  answer_of key w (err e v) = (thrown (create_error (g.wire e)), record w { users = v })

  -- 3 and 4.
  unfoldable pub create : RegisterRequestDto → Text → Draw → Site S C → Reply Text × Site S C
  create d user_id draw w = elim g.transport [
    | some e ↦ (thrown (create_error e), w)
    | none ↦ answer_of (temp_key_of d) w (create_user S f (payload_of d user_id) draw w.users)
  ]

  -- 1. Both checks of an uploaded photo; `none` lets the registration go on.
  unfoldable pub check_token : Text → Site S C → Option HttpError × Site S C
  check_token key w = elim (token_error (S.get (upload_key key) w.users.store)) [
    | some e ↦ (some e, w)
    | none ↦ check_file key w
  ]

  unfoldable pub check_upload : Text → Site S C → Option HttpError × Site S C
  check_upload [] w = (none, w)
  check_upload (c ∷ k) w = check_token (c ∷ k) w

  -- The rejection of the first read of Redis is not caught.
  abbrev pub reads_token : Text → Bool
  reads_token [] = false
  reads_token (c ∷ k) = g.get_token

  unfoldable pub register : RegisterRequestDto → Text → Draw → Site S C → Reply Text × Site S C
  register d user_id draw w =
      if reads_token (temp_key_of d)
      then (failed g.redis_error, w)
      else let (refusal, w') = check_upload (temp_key_of d) w in
        elim refusal [ some e ↦ (thrown e, w') | none ↦ create d user_id draw w' ]
