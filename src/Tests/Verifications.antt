-- ===== src/Tests/Verifications.antt =====
-- Verifications of an address, with the stored code 123456 and with others.
use skill_up.Base.{◌≡◌, ◌≢◌, refl, arith, none, some, []}
use skill_up.Text.{codes, text_eq, trim, to_lower}
use skill_up.Text.Decimal.{print}
use skill_up.Shared.{UserStatus, GrpcStatus}
use skill_up.Services.Memory.{memory, memory_redis, memory-IsDatabase, scan}
use skill_up.Session.{save_session}
use skill_up.Effects.{World, ok, err, rpc}
use skill_up.Users.Keys.{otp_key, verify_rate_key}
use skill_up.Users.Counter.{read_count, read_count-print}
use skill_up.Users.Tokens.{AuthData, auth_data, session_params}
use skill_up.Users.Verify.{
  VerifyRequest, verify_account, normalize_email, activate, expired_message, client_ip,
  client_agent,
}
use skill_up.Users.Verify.Outcome.{spent, Activates, verify_Activates}
use skill_up.Users.Verify.Codes.{Reaches}
use skill_up.Users.Verify.Success.{no_faults, verified, verify_complete}
use skill_up.Users.Verify.Once.{verify_once}
use skill_up.Tests.Fixtures.{alice, world, one_string, confirm, fresh}

pub all_answer : Reaches no_faults
all_answer = record {
  get_rate = refl;
  ttl = refl;
  get_otp = refl;
  incr = refl;
  expire = refl;
  del_spent = refl;
}

abbrev right_code : VerifyRequest
right_code = confirm (codes "123456")

abbrev exhausted : World memory
exhausted = world UserStatus.pending (one_string (verify_rate_key (codes "a@x.io")) (print 7))

-- The code of the address is stored; the account has this status.
abbrev expecting : UserStatus → World memory
expecting status = world status (one_string (otp_key (codes "a@x.io")) (codes "123456"))

seven_counted :
    read_count (memory.get (verify_rate_key (normalize_email (codes "a@x.io"))) exhausted.store)
    ≡ some 7
unfolding normalize_email verify_rate_key trim to_lower text_eq
seven_counted = read_count-print 7

stored :
    (status : UserStatus)
    → memory.get (otp_key (normalize_email (codes "a@x.io"))) (expecting status).store
      ≡ some (codes "123456")
unfolding normalize_email otp_key trim to_lower text_eq
stored status = refl

no_failures :
    (status : UserStatus)
    → memory.get (verify_rate_key (normalize_email (codes "a@x.io"))) (expecting status).store
      ≡ none
unfolding normalize_email otp_key verify_rate_key trim to_lower text_eq
no_failures status = refl

some_digits : codes "123456" ≢ []
some_digits e = cc

other_digits : memory.sha256 (trim (codes "1")) ≢ codes "123456"
unfolding trim
other_digits e = cc

no_count :
    (status : UserStatus)
    → read_count
        (memory.get (verify_rate_key (normalize_email (codes "a@x.io"))) (expecting status).store)
      ≡ some 0
unfolding read_count
no_count status = rw (no_failures status) refl

by_email :
    (status : UserStatus)
    → memory.find_user
        (λ x. text_eq x.email (normalize_email (codes "a@x.io")))
        (expecting status).rows
      ≡ some (alice status)
unfolding normalize_email trim to_lower text_eq scan
by_email status = refl

right_hash : memory.sha256 (trim (codes "123456")) ≡ codes "123456"
unfolding trim
right_hash = refl

not_active : UserStatus.blocked ≢ UserStatus.active
not_active e = cc

abbrev activated : World memory
activated =
    verified memory right_code fresh (alice UserStatus.blocked) (expecting UserStatus.blocked)

abbrev answer : AuthData
answer = auth_data memory (activate 100 (alice UserStatus.blocked)) fresh

succeeded :
    verify_account memory no_faults right_code fresh (expecting UserStatus.blocked)
    ≡ ok answer activated
succeeded =
    (verify_complete memory right_code fresh (alice UserStatus.blocked) memory-IsDatabase
      (expecting UserStatus.blocked) 0 (codes "123456") (no_count UserStatus.blocked) (omega arith)
      (stored UserStatus.blocked) some_digits right_hash (by_email UserStatus.blocked) not_active).0

verify_Activates_example :
    (a : Activates memory no_faults right_code fresh (expecting UserStatus.blocked) activated.rows)
    × (answer ≡ auth_data memory (activate 100 a.user) fresh)
    × (activated.store
        ≡ save_session memory
            (session_params memory
              (activate 100 a.user)
              fresh
              (client_ip right_code)
              (client_agent right_code))
            100
            (spent memory (normalize_email (codes "a@x.io")) (expecting UserStatus.blocked).store))
verify_Activates_example =
    verify_Activates memory no_faults right_code fresh answer (expecting UserStatus.blocked)
      activated succeeded

verify_once_example :
    verify_account memory no_faults right_code fresh activated
    ≡ err (rpc GrpcStatus.invalid_argument expired_message) activated
verify_once_example =
    verify_once memory_redis no_faults no_faults right_code right_code fresh fresh answer
      (expecting UserStatus.blocked) activated succeeded refl refl
