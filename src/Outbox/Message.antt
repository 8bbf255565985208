-- ===== src/Outbox/Message.antt =====
-- One message: the states that it can be in, and what one delivery makes of it.
use skill_up.Base.{
  ℕ, ◌+◌, ◌<◌, ◌≤◌, ◌≡◌, ◌≢◌, refl, Bool, true, false, arith, leb, leb→le, if◌then◌else◌,
}
use skill_up.Shared.{OutboxMessage, OutboxStatus, Payload, verification_email, profile_photo}
use skill_up.Outbox.{redacted, redact, mark_published, mark_failure}

-- No code of an account can be read in the payload.
abbrev pub IsRedacted : Payload → Type 0
IsRedacted (verification_email email code username) = code ≡ redacted
IsRedacted (profile_photo user_id temp_key target_key) = Unit

-- The states that the worker leaves a message in: PENDING below five failures, FAILED from five on,
-- PUBLISHED without its code; PROCESSING is not used.
pub record IsSound (m : OutboxMessage) : Type 0 where
  pub pending_few : m.status ≡ OutboxStatus.pending → m.retry_count < 5
  pub failed_many : m.status ≡ OutboxStatus.failed → 5 ≤ m.retry_count
  pub published_redacted : m.status ≡ OutboxStatus.published → IsRedacted m.payload
  pub not_processing : m.status ≢ OutboxStatus.processing

-- What a run writes for a fetched message `m`.
pub data Outcome (now : ℕ) (m m' : OutboxMessage) : Type 0 where
  published : m' ≡ mark_published now m → Outcome now m m'
  failed : m' ≡ mark_failure m → Outcome now m m'
  published_unsaved : m' ≡ mark_failure (mark_published now m) → Outcome now m m'

redact-IsRedacted : (p : Payload) → IsRedacted (redact p)
unfolding redact
redact-IsRedacted (verification_email email code username) = refl
redact-IsRedacted (profile_photo user_id temp_key target_key) = tt

mark_published-IsSound : (now : ℕ) (m : OutboxMessage) → IsSound (mark_published now m)
unfolding mark_published
mark_published-IsSound now m = record {
  pending_few = λ e. cc;
  failed_many = λ e. cc;
  published_redacted = λ e. redact-IsRedacted m.payload;
  not_processing = λ e. cc;
}

retried-IsSound :
    (m : OutboxMessage) (many : Bool)
    → leb 5 (m.retry_count + 1) ≡ many
    → IsSound m
    → m.status ≢ OutboxStatus.failed
    → IsSound (record m {
      retry_count = m.retry_count + 1;
      status = if many then OutboxStatus.failed else m.status;
    })
retried-IsSound m true e s open_ = record {
  pending_few = λ q. cc;
  failed_many = λ q. leb→le 5 (m.retry_count + 1) e;
  published_redacted = λ q. cc;
  not_processing = λ q. cc;
}
retried-IsSound m false e s open_ = record {
  pending_few = λ q. ground arith;
  failed_many = λ q. elim (open_ q) [ ];
  published_redacted = λ q. s.published_redacted q;
  not_processing = s.not_processing;
}

mark_failure-IsSound :
    (m : OutboxMessage) → IsSound m → m.status ≢ OutboxStatus.failed → IsSound (mark_failure m)
unfolding mark_failure
mark_failure-IsSound m s open_ = retried-IsSound m (leb 5 (m.retry_count + 1)) refl s open_

-- Every outcome for a PENDING message is a sound state.
pub Outcome-IsSound :
    {now : ℕ} {m m' : OutboxMessage}
    → Outcome now m m'
    → IsSound m
    → m.status ≡ OutboxStatus.pending
    → IsSound m'
unfolding mark_published
Outcome-IsSound {now} {m} (published e) s p = rw e (mark_published-IsSound now m)
Outcome-IsSound {now} {m} (failed e) s p = rw e (mark_failure-IsSound m s (λ q. cc))
Outcome-IsSound {now} {m} (published_unsaved e) s p =
    rw e (mark_failure-IsSound (mark_published now m) (mark_published-IsSound now m) (λ q. cc))
