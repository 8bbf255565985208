-- ===== src/Tests/Registrations.antt =====
-- Registrations: one that is answered, one whose commit fails.
use skill_up.Base.{◌≡◌, refl, false, true, none, [], ◌⊎◌}
use skill_up.Text.{Text, codes, text_eq, trim, to_lower}
use skill_up.Shared.{UserStatus, GrpcStatus}
use skill_up.Services.Memory.{memory, memory_redis, memory-IsDatabase, scan}
use skill_up.Effects.{World, ok, err, rpc}
use skill_up.Effects.Transaction.{begin, finally, roll_back}
use skill_up.Users.Keys.{otp_key, cooldown_key, upload_key}
use skill_up.Users.Verify.{normalize_email}
use skill_up.Users.Verify.Success.{no_tx_faults}
use skill_up.Users.Register.{
  temp_key_of, CreateUserRequest, RegisterFaults, Draw, clashes, is_consumed, photo_of,
  refuse_duplicate, prepare, consume_upload, photo_event, record_events, drop_code, register_error,
  fail, complete, attempt_registration, create_user,
}
use skill_up.Users.Register.Steps.{Unused, registered, with_code, with_mark}
use skill_up.Users.Register.Success.{no_register_faults, create_user_complete}
use skill_up.Users.Register.Recorded.{Recorded, create_user-Recorded}
use skill_up.Users.Register.Rollback.{create_user-rolled_back}
use skill_up.Users.Register.Lost.{commit_lost, upload_lost}
use skill_up.Tests.Fixtures.{world, no_strings}

abbrev ask : Text → CreateUserRequest
ask name = record {
  id = codes "u2";
  username = name;
  email = name;
  password = codes "secret";
  birth_date = [];
  birth_date_alias = [];
  profile_photo = [];
  profile_photo_alias = [];
  temp_photo_key = codes "t";
  temp_photo_key_alias = [];
}

abbrev pub draw : Draw
draw = record {
  uuid = codes "u9";
  salt = codes "salt";
  code = codes "123456";
  email_message_id = codes "m1";
  photo_message_id = codes "m2";
  now = 100;
}

abbrev pub no_faults : RegisterFaults
no_faults = record (commit_lost []) { tx = no_tx_faults }

abbrev pub before : World memory
before = world UserStatus.active no_strings

abbrev pub bob : CreateUserRequest
bob = ask (codes "bob")

abbrev pub after : World memory
after = record {
  rows = registered memory bob draw before.rows;
  store =
      with_mark memory (codes "t") (photo_of bob draw)
        (with_code memory (normalize_email (codes "bob")) draw.code before.store);
  triggers = 1;
}

pub answered : create_user memory no_faults bob draw before ≡ ok (codes "u2") after
unfolding create_user begin attempt_registration prepare refuse_duplicate complete record_events
    photo_event consume_upload finally scan clashes normalize_email trim to_lower text_eq
    is_consumed photo_of otp_key cooldown_key upload_key
answered = refl

create_user-Recorded_example : Recorded memory bob draw (codes "u2") before after
create_user-Recorded_example =
    create_user-Recorded memory memory_redis memory-IsDatabase no_faults bob draw (codes "u2")
      before after answered

-- Every call answers but the last one of the body and, behind it, none.
abbrev photo_faults : RegisterFaults
photo_faults = record (commit_lost []) { tx = no_tx_faults; save_photo = true }

abbrev refused : World memory
refused = record before {
  store = memory.del (otp_key (normalize_email (codes "bob"))) (
      with_mark memory (codes "t") (photo_of bob draw)
        (with_code memory (normalize_email (codes "bob")) draw.code before.store));
}

thrown : create_user memory photo_faults bob draw before ≡ err (rpc GrpcStatus.internal []) refused
unfolding create_user begin attempt_registration prepare refuse_duplicate complete record_events
    photo_event consume_upload finally fail roll_back register_error drop_code scan clashes
    normalize_email trim to_lower text_eq is_consumed photo_of otp_key cooldown_key upload_key
thrown = refl

create_user-rolled_back_example :
    ((refused.rows ≡ before.rows) × (refused.triggers ≡ before.triggers))
    ⊎ ((false ≡ true)
        × (refused.rows ≡ registered memory bob draw before.rows)
        × (refused.triggers ≡ 1))
create_user-rolled_back_example =
    create_user-rolled_back memory photo_faults bob draw (rpc GrpcStatus.internal []) before refused
      thrown

lost :
    create_user memory (commit_lost []) bob draw before ≡ err (rpc GrpcStatus.internal []) refused
unfolding create_user begin attempt_registration prepare refuse_duplicate complete record_events
    photo_event consume_upload finally fail roll_back register_error drop_code scan clashes
    normalize_email trim to_lower text_eq is_consumed photo_of otp_key cooldown_key upload_key
lost = refl

free :
    memory.find_user (clashes (normalize_email (codes "bob")) (trim (codes "bob"))) before.rows
    ≡ none
unfolding scan clashes normalize_email trim to_lower text_eq
free = refl

upload_lost_example :
    (refused.rows ≡ before.rows)
    × ¬ (create_user memory no_faults bob draw refused ≡ ok (codes "u2") after)
upload_lost_example =
    upload_lost memory memory_redis [] bob draw b't' [] refl no_faults bob draw before refused after
      (rpc GrpcStatus.internal []) (codes "u2") refl free lost

unused :
    Unused memory
      (temp_key_of bob)
      (photo_of bob draw)
      (with_code memory (normalize_email bob.email) draw.code before.store)
unfolding text_eq upload_key otp_key cooldown_key photo_of is_consumed
unused = refl

bob_registered : create_user memory no_register_faults bob draw before ≡ ok (codes "u2") after
bob_registered = create_user_complete memory bob draw before free unused
