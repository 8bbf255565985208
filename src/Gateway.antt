-- ===== src/Gateway.antt =====
-- How the gateway turns a gRPC error of the users service into an HTTP error: the `catch` clauses of
-- `login`, `verifyAccount` and `sendVerificationCode` in apps/api-gateway/src/users/providers, and
-- their `handleRateLimitError`.
pub mod RetryAfter
pub mod Files
pub mod Registration
pub mod Http
pub mod Auth
use skill_up.Base.{
  ℕ, Bool, true, false, ◌||◌, ◌&&◌, Option, none, some, List, [], ◌∷◌, if◌then◌else◌, ◌==◌, drop,
}
use skill_up.Text.{
  Text, codes, trim, trim_start, to_lower, includes, or_else, starts_with, is_digit,
}
use skill_up.Text.Decimal.{read_digits}

pub data HttpError : Type 0 where
  bad_request unauthorized forbidden not_found conflict internal_error : Text → HttpError
  too_many_requests : Text → ℕ → HttpError

-- What the client of gRPC throws; a missing text is empty.
pub record GrpcError : Type 0 where
  pub code : ℕ
  pub details : Text
  pub message : Text

abbrev pub tag : Text
tag = codes "[Retry-After:"

-- `\d+\]`: the number, and what follows.
unfoldable pub close : ℕ × Text → Option (ℕ × Text)
close (n, []) = none
close (n, c ∷ s) = if c == 93 then some (n, s) else none

unfoldable pub match_digits : Text → Option (ℕ × Text)
match_digits [] = none
match_digits (c ∷ s) = if is_digit c then close (read_digits 0 (c ∷ s)) else none

-- `\[Retry-After:\s*(\d+)\]` at the start of the text.
unfoldable pub match_tag : Text → Option (ℕ × Text)
match_tag s = if starts_with tag s then match_digits (trim_start (drop 13 s)) else none

-- The first match in the text.
unfoldable pub find_seconds : Text → Option ℕ
find_seconds [] = none
find_seconds (c ∷ s) =
    let rest = find_seconds s in
    elim (match_tag (c ∷ s)) [ some found ↦ some (found.0) | none ↦ rest ]

-- The text without the first match and the white space before it.
unfoldable pub remove_tag : Text → Text
remove_tag [] = []
remove_tag (c ∷ s) =
    let rest = remove_tag s in
    elim (match_tag (trim_start (c ∷ s))) [ some found ↦ found.1 | none ↦ c ∷ rest ]

unfoldable pub retry_seconds : Text → ℕ → ℕ
retry_seconds message fallback = elim (find_seconds message) [ some n ↦ n | none ↦ fallback ]

unfoldable pub rate_limit_error : Text → ℕ → HttpError
rate_limit_error message fallback =
    too_many_requests (trim (remove_tag message)) (retry_seconds message fallback)

-- `rawErrorMessage.toLowerCase().includes(p)`
abbrev pub mentions : Text → Text → Bool
mentions message p = includes p (to_lower message)

abbrev pub raw_message : GrpcError → Text → Text
raw_message e fallback = or_else e.details (or_else e.message fallback)

unfoldable pub login_message_error : ℕ → Text → HttpError
login_message_error code m =
    if code == 8 || mentions m (codes "too many") || mentions m (codes "15 minutes")
    then rate_limit_error m 900
    else if code == 16
        || mentions m (codes "invalid credentials")
        || mentions m (codes "unauthenticated")
    then unauthorized m
    else if code == 9 || mentions m (codes "not verified")
    then bad_request m
    else if code == 7 || mentions m (codes "suspended") || mentions m (codes "blocked")
    then forbidden m
    else internal_error m

unfoldable pub login_error : GrpcError → HttpError
login_error e = login_message_error e.code (raw_message e (codes "Authentication failed"))

unfoldable pub verify_message_error : ℕ → Text → HttpError
verify_message_error code m =
    if code == 8 || mentions m (codes "too many") || mentions m (codes "15 minutes")
    then rate_limit_error m 900
    else if code == 3
        || code == 9
        || mentions m (codes "invalid")
        || mentions m (codes "attempts remaining")
        || mentions m (codes "expired")
        || mentions m (codes "already active")
    then bad_request m
    else if code == 5 || mentions m (codes "not found")
    then not_found m
    else internal_error m

unfoldable pub verify_error : GrpcError → HttpError
verify_error e = verify_message_error e.code (raw_message e (codes "Verification failed"))

unfoldable pub resend_message_error : ℕ → Text → HttpError
resend_message_error code m =
    if code == 8
      || mentions m (codes "please wait")
      || mentions m (codes "too many")
      || mentions m (codes "locked")
    then rate_limit_error m 60
    else if code == 3 || code == 9 || mentions m (codes "already active")
    then bad_request m
    else if code == 7 || mentions m (codes "not eligible")
    then forbidden m
    else if code == 5 || mentions m (codes "not found")
    then not_found m
    else internal_error m

unfoldable pub resend_error : GrpcError → HttpError
resend_error e =
    resend_message_error e.code (raw_message e (codes "Failed to send verification code"))
