-- ===== src/Tests/Logins.antt =====
-- Logins of an active user, with the right password and with wrong ones.
use skill_up.Base.{◌≡◌, refl, arith, false, true, some, List, [], ◌∷◌, inl, All}
use skill_up.Text.{codes, text_eq, trim, to_lower, includes}
use skill_up.Text.Decimal.{print}
use skill_up.Shared.{UserStatus, GrpcStatus}
use skill_up.Services.Memory.{memory, memory_redis, scan}
use skill_up.Effects.{World, ok, err, rpc}
use skill_up.Users.Keys.{login_rate_key}
use skill_up.Users.Counter.{read_count, effective_ttl, read_count-print}
use skill_up.Users.Tokens.{Fresh, AuthData, auth_data, session_params, issue_session}
use skill_up.Users.Login.{
  LoginRequest, check_lockout, find_account, check_status, check_password, clear_failures, login,
  locked_message, normalize_identifier, names_user, client_ip, client_agent,
}
use skill_up.Users.Login.Lockout.{Reaches}
use skill_up.Users.Login.Guessing.{after_logins, IsGuess, five_guesses_lock}
use skill_up.Users.Login.Success
use skill_up.Session.{save_session}
use skill_up.Users.Login.Outcome.{Granted, login-Granted}
use skill_up.Tests.Fixtures.{alice, world, one_string, no_strings, sign_in, no_login_faults, fresh}

pub reaches : Reaches no_login_faults
reaches = record { get = refl; ttl = refl; find = refl; compare = refl; incr = refl; expire = refl }

-- Five failures counted.
abbrev locked : World memory
locked = world UserStatus.active (one_string (login_rate_key (codes "a@x.io")) (print 5))

abbrev unlocked : World memory
unlocked = world UserStatus.active no_strings

five_counted :
    read_count (memory.get (login_rate_key (normalize_identifier (codes "a@x.io"))) locked.store)
    ≡ some 5
unfolding normalize_identifier login_rate_key trim includes to_lower text_eq
five_counted = read_count-print 5

found :
    memory.find_user (names_user (normalize_identifier (codes "a@x.io"))) unlocked.rows
    ≡ some (alice UserStatus.active)
unfolding names_user scan normalize_identifier trim includes to_lower text_eq
found = refl

wrong : memory.bcrypt_compare (codes "guess") (codes "secret") ≡ false
unfolding text_eq
wrong = refl

abbrev five_guesses : List (LoginRequest × Fresh)
five_guesses =
    (sign_in (codes "1"), fresh)
    ∷ (sign_in (codes "2"), fresh)
    ∷ (sign_in (codes "3"), fresh)
    ∷ (sign_in (codes "4"), fresh)
    ∷ (sign_in (codes "5"), fresh)
    ∷ []

abbrev guessed : World memory
guessed = after_logins memory no_login_faults five_guesses unlocked

all_wrong :
    All
      (IsGuess memory_redis no_login_faults reaches
        (normalize_identifier (codes "a@x.io"))
        (alice UserStatus.active))
      five_guesses
unfolding text_eq
all_wrong = (
  record { same_identifier = refl; wrong = refl },
  (
    record { same_identifier = refl; wrong = refl },
    (
      record { same_identifier = refl; wrong = refl },
      (
        record { same_identifier = refl; wrong = refl },
        (record { same_identifier = refl; wrong = refl }, tt),
      ),
    ),
  ),
)

five_guesses_lock_example :
    login memory no_login_faults (sign_in (codes "secret")) fresh guessed
    ≡ err
        (rpc GrpcStatus.resource_exhausted (
          locked_message (
            effective_ttl
              (memory.ttl (login_rate_key (normalize_identifier (codes "a@x.io"))) guessed.store)
              900)))
        guessed
five_guesses_lock_example =
    five_guesses_lock memory_redis no_login_faults reaches (normalize_identifier (codes "a@x.io"))
      (alice UserStatus.active) five_guesses (sign_in (codes "secret")) fresh unlocked all_wrong
      (omega arith) refl (inl (refl, refl)) found refl

-- The reply and the state of the login with the right password.
abbrev reply : AuthData
reply = auth_data memory (alice UserStatus.active) fresh

signed_in :
    (w' : World memory) × (login memory no_login_faults (sign_in (codes "secret")) fresh unlocked
      ≡ ok reply w')
unfolding login check_lockout find_account check_status check_password clear_failures issue_session
    read_count scan names_user normalize_identifier trim includes to_lower text_eq
signed_in = (_, refl)

login-Granted_example :
    Granted memory no_login_faults (sign_in (codes "secret")) fresh reply unlocked (signed_in.0)
login-Granted_example =
    login-Granted memory no_login_faults (sign_in (codes "secret")) fresh reply unlocked
      (signed_in.0) (signed_in.1)

no_count :
    read_count (memory.get (login_rate_key (normalize_identifier (codes "a@x.io"))) unlocked.store)
    ≡ some 0
unfolding read_count
no_count = refl

right : memory.bcrypt_compare (codes "secret") (codes "secret") ≡ true
unfolding text_eq
right = refl

login_complete_example :
    login memory Success.no_login_faults (sign_in (codes "secret")) fresh unlocked
    ≡ ok reply (record unlocked {
      store =
          save_session memory
            (session_params memory
              (alice UserStatus.active)
              fresh
              (client_ip (sign_in (codes "secret")))
              (client_agent (sign_in (codes "secret"))))
            100
            (memory.del (login_rate_key (normalize_identifier (codes "a@x.io"))) unlocked.store);
    })
login_complete_example =
    Success.login_complete memory (sign_in (codes "secret")) fresh (alice UserStatus.active)
      unlocked 0 no_count (omega arith) found refl right
