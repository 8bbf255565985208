-- ===== src/Users/Register.antt =====
-- apps/users-service/src/providers/register.provider.ts: `createUser`. The fields of
-- `RegisterFaults` say which external calls reject.
pub mod Steps
pub mod Stored
pub mod Success
pub mod Activation
pub mod Outcome
pub mod Recorded
pub mod Rollback
pub mod Lost
pub mod Keeps
pub mod Code
pub mod Upload
use skill_up.Base.{
  ℕ, suc, Bool, true, false, ◌||◌, Option, none, some, List, [], ◌∷◌, ◌++◌, if◌then◌else◌,
}
use skill_up.Text.{Text, codes, text_eq, trim, to_lower, or_else}
use skill_up.Shared.{
  User, UserRole, UserStatus, OutboxMessage, OutboxStatus, Payload, verification_email,
  profile_photo, GrpcStatus,
}
use skill_up.Services.{Services}
use skill_up.Effects.{
  Thrown, rpc, rejected, World, Run, ok, err, M, ◌>>=◌, ◌>>◌, pure, throw, catch, call, branch,
  reads, writes, queries, saves,
}
use skill_up.Effects.Transaction.{TxFaults, begin, roll_back, finally}
use skill_up.Outbox.{send_verification_email, process_profile_photo}
use skill_up.Users.Keys.{otp_key, cooldown_key, upload_key}
use skill_up.Users.Verify.{normalize_email}

-- A text that is missing is empty, as `||` treats it.
pub record CreateUserRequest : Type 0 where
  pub id : Text
  pub username : Text
  pub email : Text
  pub password : Text
  pub birth_date : Text
  pub birth_date_alias : Text
  pub profile_photo : Text
  pub profile_photo_alias : Text
  pub temp_photo_key : Text
  pub temp_photo_key_alias : Text

-- `error_text` is the message of the error that a call rejects with.
pub record RegisterFaults : Type 0 where
  pub tx : TxFaults
  pub find : Bool
  pub hash : Bool
  pub save_user : Bool
  pub set_otp : Bool
  pub set_cooldown : Bool
  pub save_email : Bool
  pub get_upload : Bool
  pub set_upload : Bool
  pub save_photo : Bool
  pub del_otp : Bool
  pub error_text : Text

-- What the request draws from `crypto`, `bcrypt`, the database and the clock.
pub record Draw : Type 0 where
  pub uuid : Text
  pub salt : Text
  pub code : Text
  pub email_message_id : Text
  pub photo_message_id : Text
  pub now : ℕ

-- `value || null`
abbrev pub or_null : Text → Option Text
or_null [] = none
or_null (c ∷ s) = some (c ∷ s)

abbrev pub temp_key_of : CreateUserRequest → Text
temp_key_of r = or_else r.temp_photo_key r.temp_photo_key_alias

abbrev pub user_id_of : CreateUserRequest → Draw → Text
user_id_of r draw = or_else r.id draw.uuid

-- `avatars/${userId}/avatar.webp`, if a photo was uploaded.
abbrev pub avatar_key : Text → Text → Text
avatar_key [] user_id = []
avatar_key (c ∷ s) user_id = codes "avatars/" ++ user_id ++ codes "/avatar.webp"

unfoldable pub photo_of : CreateUserRequest → Draw → Text
photo_of r draw =
    or_else r.profile_photo
      (or_else r.profile_photo_alias (avatar_key (temp_key_of r) (user_id_of r draw)))

-- The rows of the duplicate check.
unfoldable pub clashes : Text → Text → User → Bool
clashes email username u = text_eq u.email email || text_eq u.username username

unfoldable pub duplicate_message : Bool → Text
duplicate_message same_email =
    codes "User with this "
    ++ (if same_email then codes "email" else codes "username")
    ++ codes " already exists"

unfoldable pub consumed_message : Text
consumed_message = codes "This avatar upload key has already been consumed."

abbrev pub consumed : Text
consumed = codes "CONSUMED"

-- `uploadStatus === 'CONSUMED'`
unfoldable pub is_consumed : Option Text → Bool
is_consumed none = false
is_consumed (some t) = text_eq t consumed

abbrev pub email_message : User → Draw → OutboxMessage
email_message u draw = record {
  id = draw.email_message_id;
  event_type = send_verification_email;
  payload = verification_email u.email draw.code u.username;
  status = OutboxStatus.pending;
  retry_count = 0;
  created_at = draw.now;
  processed_at = none;
}

-- The transformations of the request, which are passed on as they are, are left out.
abbrev pub photo_message : User → Text → Text → Draw → OutboxMessage
photo_message u temp_key photo draw = record {
  id = draw.photo_message_id;
  event_type = process_profile_photo;
  payload = profile_photo u.id temp_key photo;
  status = OutboxStatus.pending;
  retry_count = 0;
  created_at = draw.now;
  processed_at = none;
}

-- 2 and 3. The row of the new user.
unfoldable pub new_user : (S : Services) → CreateUserRequest → Draw → User
new_user S r draw = record {
  id = user_id_of r draw;
  username = trim r.username;
  email = normalize_email r.email;
  password = S.bcrypt_hash r.password draw.salt;
  role = UserRole.student;
  status = UserStatus.pending;
  profile_photo = or_null (photo_of r draw);
  birth_date = or_null (or_else r.birth_date r.birth_date_alias);
  created_at = draw.now;
  updated_at = draw.now;
}

module _ (S : Services) (f : RegisterFaults) where
  -- 1. Duplicate check.
  unfoldable pub refuse_duplicate : Text → Option User → M S (Unit {0})
  refuse_duplicate email none = pure tt
  refuse_duplicate email (some u) =
      throw (rpc GrpcStatus.already_exists (duplicate_message (text_eq (to_lower u.email) email)))

  -- 1 to 4: up to the point where the code counts as stored in Redis.
  unfoldable pub prepare : CreateUserRequest → Draw → M S (Unit {0})
  prepare r draw = do
    existing ←
        call f.find (queries (S.find_user (clashes (normalize_email r.email) (trim r.username))))
    refuse_duplicate (normalize_email r.email) existing
    call f.hash (pure tt)
    call f.save_user (saves (S.save_user (new_user S r draw)))
    call f.set_otp (writes (S.set_ex (otp_key (normalize_email r.email)) (S.sha256 draw.code) 600))
    call f.set_cooldown (writes (S.set_ex (cooldown_key (normalize_email r.email)) (codes "1") 60))

  -- The single use of the uploaded photo, and its event.
  unfoldable pub consume_upload : Text → User → Text → Draw → M S (Unit {0})
  consume_upload temp_key u photo draw = do
    status ← call f.get_upload (reads (S.get (upload_key temp_key)))
    branch (is_consumed status) (throw (rpc GrpcStatus.already_exists consumed_message)) (pure tt)
    call f.set_upload (writes (S.set_ex (upload_key temp_key) consumed 600))
    call f.save_photo (saves (S.save_outbox (photo_message u temp_key photo draw)))

  -- `if (tempPhotoKey && profilePhoto)`
  unfoldable pub photo_event : Text → User → Text → Draw → M S (Unit {0})
  photo_event [] u photo draw = pure tt
  photo_event (c ∷ s) u [] draw = pure tt
  photo_event (c ∷ s) u (d ∷ t) draw = consume_upload (c ∷ s) u (d ∷ t) draw

  -- 5. The outbox events.
  unfoldable pub record_events : CreateUserRequest → Draw → M S (Unit {0})
  record_events r draw = do
    call f.save_email (saves (S.save_outbox (email_message (new_user S r draw) draw)))
    photo_event (temp_key_of r) (new_user S r draw) (photo_of r draw) draw

  -- `if (otpStoredInRedis) { … }`, whose rejection is only logged.
  unfoldable pub drop_code : Bool → Text → M S (Unit {0})
  drop_code stored email =
      branch stored (catch (call f.del_otp (writes (S.del (otp_key email)))) (λ e. pure tt))
        (pure tt)

  abbrev pub as_rpc : Thrown → M S Text
  as_rpc (rpc code message) = throw (rpc code message)
  as_rpc rejected = throw (rpc GrpcStatus.internal f.error_text)

  -- The `catch` clause behind its rollback.
  unfoldable pub register_error : Bool → Text → Thrown → M S Text
  register_error stored email e = drop_code stored email >>= λ _. as_rpc e

  -- The `catch` and the `finally` of a failure.
  unfoldable pub fail : Bool → Text → S.Rows → Thrown → M S Text
  fail stored email before e w =
      finally f.tx.release (roll_back f.tx.rollback (register_error stored email) before e w)

  -- The rest of the `try` once the code is stored; the reply is the id of the user.
  unfoldable pub complete : CreateUserRequest → Draw → S.Rows → M S Text
  complete r draw before w = elim (record_events r draw w) [
    | err e v ↦ fail true (normalize_email r.email) before e v
    | ok _ v ↦
        if f.tx.commit
        then fail true (normalize_email r.email) before rejected v
        else finally f.tx.release (ok (user_id_of r draw) (record v { triggers = suc v.triggers }))
  ]

  unfoldable pub attempt_registration : CreateUserRequest → Draw → M S Text
  attempt_registration r draw w = elim (prepare r draw w) [
    | err e v ↦ fail false (normalize_email r.email) w.rows e v
    | ok _ v ↦ complete r draw w.rows v
  ]

  unfoldable pub create_user : CreateUserRequest → Draw → M S Text
  create_user r draw w = begin f.tx.connect f.tx.start w (attempt_registration r draw w)
