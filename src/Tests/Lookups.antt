-- ===== src/Tests/Lookups.antt =====
-- The queries: of the user that a registration has made.
use skill_up.Base.{◌≡◌, false}
use skill_up.Text.{codes, trim}
use skill_up.Shared.{UserRole, UserStatus}
use skill_up.Services.Memory.{memory, memory-IsDatabase}
use skill_up.Effects.{ok}
use skill_up.Users.Verify.{normalize_email}
use skill_up.Users.Queries.{find_user_by_id, validate_user}
use skill_up.Users.Queries.Lookup.{find_user_by_id-create_user, validate_user_any_password}
use skill_up.Tests.Registrations.{draw, no_faults, before, bob, after, answered}

find_user_by_id-create_user_example :
    find_user_by_id memory false (codes "u2") after
    ≡ ok
        (record {
          id = codes "u2";
          email = normalize_email (codes "bob");
          username = trim (codes "bob");
          role = UserRole.student;
          status = UserStatus.pending;
          created_at = 100;
          updated_at = 100;
        })
        after
find_user_by_id-create_user_example =
    find_user_by_id-create_user memory memory-IsDatabase no_faults bob draw (codes "u2") before
      after answered

validate_user_any_password_example :
    validate_user memory false
      (record { email = normalize_email (codes "bob"); password = codes "guess" })
      after
    ≡ ok
        (record {
          id = codes "u2";
          email = normalize_email (codes "bob");
          username = trim (codes "bob");
          role = UserRole.student;
          status = UserStatus.pending;
          created_at = 100;
          updated_at = 100;
        })
        after
validate_user_any_password_example =
    validate_user_any_password memory memory-IsDatabase no_faults bob draw (codes "u2")
      (codes "guess") before after answered
