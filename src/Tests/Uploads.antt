-- ===== src/Tests/Uploads.antt =====
-- Registrations through the gateway, with an uploaded photo that is there, missing, too small, or
-- used again.
use skill_up.Base.{◌≡◌, ◌≤◌, arith, refl, true, false, none, some, [], ◌∷◌}
use skill_up.Text.{Text, codes, text_eq, trim, to_lower}
use skill_up.Shared.{UserStatus}
use skill_up.Services.Memory.{memory, memory_redis, scan}
use skill_up.Effects.{World, ok}
use skill_up.Effects.Transaction.{begin, finally}
use skill_up.Users.Keys.{otp_key, cooldown_key, upload_key}
use skill_up.Users.Verify.{normalize_email}
use skill_up.Users.Register.{
  clashes, consumed, is_consumed, photo_of, refuse_duplicate, prepare, consume_upload, photo_event,
  record_events, complete, attempt_registration, create_user,
}
use skill_up.Users.Register.Steps.{registered, with_code, with_mark}
use skill_up.Media.{Stat}
use skill_up.Media
use skill_up.Media.Files.{pending}
use skill_up.Media.Files
use skill_up.Media.Memory.{Bin, minio}
use skill_up.Gateway.{GrpcError}
use skill_up.Gateway.Files.{FileData, returned, thrown, found_reply, check_file_exists, delete_file}
use skill_up.Gateway.Registration.{
  RegisterRequestDto, Site, GatewayFaults, payload_of, token_error, token_text_error, size_error,
  bad_avatar_size, purge, check_file, mark_consumed, answer_of, create, check_token, check_upload,
  register,
}
use skill_up.Gateway.Registration.Accepted.{Fits, register-Accepted}
use skill_up.Users.Register.Success.{no_register_faults}
use skill_up.Gateway.Registration.Success.{Answers, register_complete}
use skill_up.Uploads.{Move}
use skill_up.Uploads.Writes.{token_in}
use skill_up.Uploads.Refined.{register-Move}
use skill_up.Uploads.Once.{Call, register_all, upload_once}
use skill_up.Tests.Fixtures.{world, one_string}
use skill_up.Tests.Registrations.{draw, no_faults}
use skill_up.Tests.Photos.{zeros}

abbrev bucket : Text
bucket = codes "skillup"

abbrev bob : RegisterRequestDto
bob = record {
  username = codes "bob";
  email = codes "bob";
  password = codes "secret";
  birth_date = [];
  birth_date_alias = [];
  temp_photo_key = codes "t";
  temp_photo_key_alias = [];
}

abbrev silent : GrpcError
silent = record { code = 13; details = []; message = [] }

abbrev answering : GatewayFaults
answering = record {
  get_token = false;
  media = none;
  stat = false;
  remove = false;
  del_token = false;
  transport = none;
  set_token = false;
  redis_error = silent;
  wire = λ e. silent;
}

-- An upload that is PENDING, with these objects.
abbrev site : Bin → Site memory minio
site o = record {
  users = world UserStatus.active (one_string (upload_key (codes "t")) pending);
  objects = o;
}

abbrev no_objects : Bin
no_objects b k = none

waiting : (o : Bin) → memory.get (upload_key (codes "t")) (site o).users.store ≡ some pending
unfolding text_eq upload_key
waiting o = refl

-- An empty file.
abbrev small : Bin
small = minio.put_object bucket (codes "t") [] [] no_objects

abbrev purged : Site memory minio
purged = record {
  users = record ((site small).users) {
    store = memory.del (upload_key (codes "t")) (site small).users.store;
  };
  objects = minio.remove_object bucket (codes "t") small;
}

too_small :
    register memory minio bucket answering no_faults bob (codes "u2") draw (site small)
    ≡ (thrown (size_error 0), purged)
unfolding register check_upload check_token token_error token_text_error check_file
    check_file_exists found_reply bad_avatar_size Files.check_file_exists Media.check_file_exists
    purge Files.delete_file Media.delete_object delete_file text_eq upload_key
too_small = refl

there : minio.stat_object bucket (codes "t") small ≡ some (record { size = 0; content_type = [] })
unfolding text_eq
there = refl

bad : bad_avatar_size 0 ≡ true
unfolding bad_avatar_size
bad = refl

-- A file of 2048 zeros.
abbrev large : Bin
large = minio.put_object bucket (codes "t") (zeros 2048) [] no_objects

-- What the users service leaves, and the gateway behind it.
abbrev created : World memory
created = record {
  rows = registered memory (payload_of bob (codes "u2")) draw (site large).users.rows;
  store =
      with_mark memory (codes "t") (photo_of (payload_of bob (codes "u2")) draw)
        (with_code memory (normalize_email (codes "bob")) draw.code (site large).users.store);
  triggers = 1;
}

abbrev after : Site memory minio
after = record {
  users = record created {
    store = memory.set_ex (upload_key (codes "t")) consumed 600 created.store;
  };
  objects = large;
}

accepted :
    register memory minio bucket answering no_faults bob (codes "u2") draw (site large)
    ≡ (returned (codes "u2"), after)
unfolding register check_upload check_token token_error token_text_error check_file
    check_file_exists found_reply bad_avatar_size Files.check_file_exists Media.check_file_exists
    text_eq upload_key create answer_of mark_consumed create_user begin attempt_registration prepare
    refuse_duplicate complete record_events photo_event consume_upload finally scan clashes
    normalize_email trim to_lower is_consumed photo_of otp_key cooldown_key
accepted = refl

register-Accepted_example :
    (memory.get (upload_key (codes "t")) (site large).users.store ≡ some pending)
    × Fits memory minio bucket answering no_faults (codes "t") large
    × ((v : World memory) × (create_user memory no_faults
            (payload_of bob (codes "u2"))
            draw
            (site large).users
          ≡ ok (codes "u2") v)
        × (after ≡ record (site large) {
          users = record v { store = memory.set_ex (upload_key (codes "t")) consumed 600 v.store };
        }))
register-Accepted_example =
    register-Accepted memory minio bucket answering no_faults bob b't' [] (codes "u2") (codes "u2")
      draw (site large) after refl accepted

register-Move_example : Move (token_in memory memory_redis (codes "t") (site large).users.store) (
    token_in memory memory_redis
      (codes "t")
      (register memory minio bucket answering no_faults bob
        (codes "u2")
        draw
        (site large)).1.users.store)
register-Move_example =
    register-Move memory memory_redis (codes "t") minio bucket answering no_faults bob (codes "u2")
      draw (site large)

abbrev first : Call
first = record {
  dto = bob;
  user_id = codes "u2";
  draw = draw;
  gateway = answering;
  users = no_faults;
}

upload_once_example : ¬ (
    register memory minio bucket answering no_faults bob
      (codes "u2")
      draw
      (register_all memory memory_redis minio bucket (first ∷ []) after)
    ≡ (returned (codes "u2"), after))
upload_once_example =
    upload_once memory memory_redis minio bucket first first (first ∷ []) b't' [] (codes "u2")
      (codes "u2") (site large) after after refl refl accepted

large_found :
    (f : FileData) × (check_file_exists minio bucket none false (codes "t") large ≡ returned f)
    × (f.exists ≡ true)
    × (1024 ≤ f.file_size)
    × (f.file_size ≤ 5242880)
unfolding check_file_exists found_reply Files.check_file_exists Media.check_file_exists text_eq
large_found = (_, refl, refl, omega arith, omega arith)

name_free :
    memory.find_user
      (clashes (normalize_email (codes "bob")) (trim (codes "bob")))
      (site large).users.rows
    ≡ none
unfolding scan clashes normalize_email trim to_lower text_eq
name_free = refl

all_answer : Answers answering
all_answer = record { get_token = refl; transport = refl; set_token = refl }

register_complete_example :
    (register memory minio bucket answering no_register_faults bob (codes "u2") draw (site large)).0
    ≡ returned (codes "u2")
register_complete_example =
    register_complete memory memory_redis minio bucket answering all_answer bob b'u' (codes "2")
      draw (large_found.0) (site large) (waiting large) (large_found.1) (large_found.2)
      (large_found.3) (large_found.4) name_free
