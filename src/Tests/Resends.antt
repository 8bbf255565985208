-- ===== src/Tests/Resends.antt =====
-- A new code for a pending account, asked for twice.
use skill_up.Base.{◌≡◌, refl, false}
use skill_up.Text.{codes, text_eq, trim, to_lower}
use skill_up.Shared.{UserStatus, GrpcStatus}
use skill_up.Services.Memory.{memory, memory_redis, scan}
use skill_up.Effects.{World, ok, err, rpc}
use skill_up.Effects.Transaction.{transaction, begin, settle, finally}
use skill_up.Users.Keys.{cooldown_key}
use skill_up.Users.Counter.{read_count, effective_ttl}
use skill_up.Users.Verify.{normalize_email}
use skill_up.Users.Verify.Success.{no_tx_faults}
use skill_up.Users.Resend.{
  ResendFaults, Draw, wait_message, email_message, send_verification_code, check_lock,
  check_cooldown, find_pending, require_pending, store_code, queue_email, trigger,
}
use skill_up.Users.Resend.Outcome.{with_code, Resent, send_verification_code-Resent}
use skill_up.Users.Resend.Cooldown.{resend_waits}
use skill_up.Tests.Fixtures.{alice, world, no_strings}

abbrev pub no_resend_faults : ResendFaults
no_resend_faults = record {
  get_rate = false;
  ttl_rate = false;
  get_cooldown = false;
  ttl_cooldown = false;
  find = false;
  set_otp = false;
  set_cooldown = false;
  del_rate = false;
  del_legacy = false;
  tx = no_tx_faults;
  save = false;
}

abbrev pub draw : Draw
draw = record { code = codes "123456"; message_id = codes "m1"; now = 100 }

abbrev before : World memory
before = world UserStatus.pending no_strings

abbrev after : World memory
after = record {
  store = with_code memory (normalize_email (codes "a@x.io")) (codes "123456") before.store;
  rows = memory.save_outbox (email_message (alice UserStatus.pending) draw) before.rows;
  triggers = 1;
}

answered : send_verification_code memory no_resend_faults (codes "a@x.io") draw before ≡ ok tt after
unfolding send_verification_code check_lock check_cooldown find_pending require_pending store_code
    queue_email trigger transaction begin settle finally read_count scan normalize_email trim
    to_lower text_eq
answered = refl

send_verification_code-Resent_example :
    Resent memory no_resend_faults (codes "a@x.io") draw before after
send_verification_code-Resent_example =
    send_verification_code-Resent memory no_resend_faults (codes "a@x.io") draw before after
      answered

resend_waits_example :
    send_verification_code memory no_resend_faults (codes "a@x.io") draw after
    ≡ err
        (rpc GrpcStatus.resource_exhausted (
          wait_message (
            effective_ttl
              (memory.ttl (cooldown_key (normalize_email (codes "a@x.io"))) after.store)
              60)))
        after
resend_waits_example =
    resend_waits memory_redis no_resend_faults no_resend_faults (codes "a@x.io") (codes "a@x.io")
      draw draw before after answered refl refl refl refl
