-- ===== src/Gateway/Http.antt =====
-- libs/shared/common/src/filters/all-exceptions.filter.ts, and the `catch` clause that the methods of
-- apps/api-gateway/src/users/auth.controller.ts share. What Nest keeps in an exception is a parameter.
use skill_up.Base.{ℕ, suc, ◌≡◌, Bool, false, Option, none, some, refl, ◌∷◌, if◌then◌else◌, ◌==◌}
use skill_up.Text.{Text, codes, text_eq}
use skill_up.Text.Decimal.{print}
use skill_up.Values.{
  Value, undefined, null, text, number, boolean, object, Object, empty, property, get, truthy,
  or_value,
}
use skill_up.Gateway.{HttpError, too_many_requests}

-- The `refresh_token` cookie.
pub record Cookie : Type 0 where
  pub value : Text
  pub http_only : Bool
  pub secure : Bool
  pub same_site : Text
  pub path : Text
  pub max_age : ℕ

pub record HttpReply : Type 0 where
  pub status : ℕ
  pub body : Object
  pub retry_after : Option Text
  pub cookie : Option Cookie

-- `getStatus` and `getResponse` of an exception, `toString`, the time and the path of the request.
pub record Nest : Type 0 where
  pub status : HttpError → ℕ
  pub response : HttpError → Value
  pub to_string : Value → Text
  pub timestamp : Text
  pub path : Text

-- `{ statusCode, message, error, retryAfter }`, with which `handleRateLimitError` throws.
abbrev pub rate_limit_body : Text → ℕ → Object
rate_limit_body message seconds = property (codes "statusCode") (number 429) (
    property (codes "message") (text message) (
      property (codes "error") (text (codes "Too Many Requests"))
        (property (codes "retryAfter") (number seconds) empty)))

-- The documented behaviour of the exceptions that the theorems rely on.
pub record IsNest (N : Nest) : Type 0 where
  pub response_lem :
      (m : Text) (n : ℕ) → N.response (too_many_requests m n) ≡ object (rate_limit_body m n)
  pub status_lem : (m : Text) (n : ℕ) → N.status (too_many_requests m n) ≡ 429
  pub to_string_lem : (n : ℕ) → N.to_string (number n) ≡ print n

-- `responseBody?.k`
abbrev pub optional : Value → Text → Value
optional (object o) k = get k o
optional v k = undefined

-- `message['message'] || message`, for an object.
abbrev pub shown_message : Value → Value
shown_message (object o) = or_value (get (codes "message") o) (object o)
shown_message v = v

abbrev pub shown_error : Value → Value
shown_error (object o) = or_value (get (codes "error") o) null
shown_error v = null

-- `...(retryAfter !== undefined ? { retryAfter } : {})`, before the rest.
abbrev pub with_retry : Value → Object → Object
with_retry undefined o = o
with_retry v o = property (codes "retryAfter") v o

module _ (N : Nest) where
  abbrev pub header_of : Value → Option Text
  header_of v = if truthy v then some (N.to_string v) else none

  -- The `catch` clause of the controller: the header of a 429.
  unfoldable pub controller_header : HttpError → Option Text
  controller_header e =
      if N.status e == 429 then header_of (optional (N.response e) (codes "retryAfter")) else none

  -- `setHeader` replaces what stands there.
  abbrev pub replaced : Option Text → Option Text → Option Text
  replaced before none = before
  replaced before (some h) = some h

  unfoldable pub error_body : HttpError → Object
  error_body e = property (codes "success") (boolean false) (
      property (codes "statusCode") (number (N.status e)) (
        property (codes "message") (shown_message (N.response e)) (
          property (codes "error") (shown_error (N.response e)) (
            with_retry (optional (N.response e) (codes "retryAfter")) (
              property (codes "timestamp") (text N.timestamp)
                (property (codes "path") (text N.path) empty))))))

  -- The filter, behind the headers that the controller has set.
  unfoldable pub filter : Option Text → HttpError → HttpReply
  filter before e = record {
    status = N.status e;
    body = error_body e;
    retry_after = replaced before (header_of (optional (N.response e) (codes "retryAfter")));
    cookie = none;
  }

  -- The reply to an exception that a method of the controller rethrows.
  unfoldable pub error_reply : HttpError → HttpReply
  error_reply e = filter (controller_header e) e

  -- The reply of a rate limit.
  pub record Limits (m : Text) (n : ℕ) (r : HttpReply) : Type 0 where
    pub status : r.status ≡ 429
    pub header : r.retry_after ≡ some (print n)
    pub message : get (codes "message") r.body ≡ text m
    pub seconds : get (codes "retryAfter") r.body ≡ number n
    pub cookie : r.cookie ≡ none

  pub error_reply-Limits :
      (nest : IsNest N) (c : ℕ) (m : Text) (n : ℕ)
      → Limits (c ∷ m) (suc n) (error_reply (too_many_requests (c ∷ m) (suc n)))
  unfolding error_reply filter error_body controller_header get text_eq
  error_reply-Limits nest c m n =
      let e = too_many_requests (c ∷ m) (suc n) in
      let a = nest.status_lem (c ∷ m) (suc n) in
      let b = nest.response_lem (c ∷ m) (suc n) in
      record {
        status = a;
        header = rw (b, nest.to_string_lem (suc n), error_reply, filter) refl;
        message = rw (b, error_reply, filter, error_body) refl;
        seconds = rw (b, error_reply, filter, error_body) refl;
        cookie = refl;
      }
