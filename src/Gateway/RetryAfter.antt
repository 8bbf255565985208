-- ===== src/Gateway/RetryAfter.antt =====
-- The seconds of `Retry-After`, from the users service through the message to the gateway's reply.
use skill_up.Base.{ℕ, ◌≡◌, refl, true, some, [], ◌∷◌, ◌++◌}
use skill_up.Text.{Text, codes, trim, trim_end, trim_start, is_space, is_digit, starts_with}
use skill_up.Text.Decimal.{print, read_digits, read_digits-print, print-cons, is_space_of_is_digit}
use skill_up.Users.Counter.{retry_after}
use skill_up.Users.Login
use skill_up.Users.Verify
use skill_up.Users.Resend
use skill_up.Gateway.{
  too_many_requests, GrpcError, close, match_digits, match_tag, find_seconds, remove_tag,
  retry_seconds, rate_limit_error, login_error, verify_error, resend_error, login_message_error,
  verify_message_error, resend_message_error,
}

digits_match_as :
    (n c : ℕ) (s : Text)
    → is_digit c ≡ true
    → read_digits 0 (c ∷ s) ≡ (n, codes "]")
    → match_digits (trim_start (c ∷ s)) ≡ some (n, [])
unfolding match_digits trim_start close
digits_match_as n c s d back = rw (is_space_of_is_digit c d, d, back) refl

-- The digits behind the tag, with the bracket that closes it.
digits_match : (n : ℕ) → match_digits (trim_start (print n ++ codes "]")) ≡ some (n, [])
unfolding read_digits
digits_match n =
    let (c, s, e, d) = print-cons n in
    rw e (digits_match_as n c (s ++ codes "]") d (rw e at (read_digits-print n (codes "]"))))

login_seconds : (n : ℕ) → retry_seconds (Login.locked_message n) 900 ≡ n
unfolding retry_seconds find_seconds match_tag Login.locked_message retry_after starts_with
    trim_start match_digits is_space
login_seconds n = rw (digits_match n, retry_seconds) refl

login_text :
    (n : ℕ)
    → trim (remove_tag (Login.locked_message n))
      ≡ codes "Too many failed login attempts. Please try again after 15 minutes."
unfolding remove_tag match_tag Login.locked_message retry_after starts_with trim trim_start trim_end
login_text n = rw (digits_match n) refl

verify_seconds : (n : ℕ) → retry_seconds (Verify.locked_message n) 900 ≡ n
unfolding retry_seconds find_seconds match_tag Verify.locked_message retry_after starts_with
    trim_start match_digits is_space
verify_seconds n = rw (digits_match n, retry_seconds) refl

verify_text :
    (n : ℕ)
    → trim (remove_tag (Verify.locked_message n))
      ≡ codes "Too many failed verification attempts. Please try again after 15 minutes."
unfolding remove_tag match_tag Verify.locked_message retry_after starts_with trim trim_start
    trim_end
verify_text n = rw (digits_match n) refl

resend_seconds : (n : ℕ) → retry_seconds (Resend.lockout_message n) 60 ≡ n
unfolding retry_seconds find_seconds match_tag Resend.lockout_message retry_after starts_with
    trim_start match_digits is_space
resend_seconds n = rw (digits_match n, retry_seconds) refl

resend_text :
    (n : ℕ)
    → trim (remove_tag (Resend.lockout_message n))
      ≡ codes
          "Account is temporarily locked due to too many failed attempts. Please try again after 15 minutes."
unfolding remove_tag match_tag Resend.lockout_message retry_after starts_with trim trim_start
    trim_end
resend_text n = rw (digits_match n) refl

same_reply :
    {t t' : Text} {n n' : ℕ} → t ≡ t' → n ≡ n' → too_many_requests t n ≡ too_many_requests t' n'
same_reply e d = cc

-- A gRPC error with the code 8 and this text.
abbrev pub exhausted : Text → GrpcError
exhausted text = record { code = 8; details = text; message = [] }

-- Whatever seconds the users service writes behind the message of a lockout, of a login, of a
-- verification or of a request for a code, the gateway answers with these seconds and the message alone.
pub retry_after_kept :
    (n : ℕ)
    → (login_error (exhausted (Login.locked_message n))
        ≡ too_many_requests
            (codes "Too many failed login attempts. Please try again after 15 minutes.")
            n)
      × (verify_error (exhausted (Verify.locked_message n))
          ≡ too_many_requests
              (codes "Too many failed verification attempts. Please try again after 15 minutes.")
              n)
      × (resend_error (exhausted (Resend.lockout_message n))
          ≡ too_many_requests
              (codes
                "Account is temporarily locked due to too many failed attempts. Please try again after 15 minutes.")
              n)
unfolding login_error verify_error resend_error login_message_error verify_message_error
    resend_message_error rate_limit_error Login.locked_message Verify.locked_message
    Resend.lockout_message
retry_after_kept n = (
  same_reply (login_text n) (login_seconds n),
  same_reply (verify_text n) (verify_seconds n),
  same_reply (resend_text n) (resend_seconds n),
)
