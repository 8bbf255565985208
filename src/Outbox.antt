-- ===== src/Outbox.antt =====
-- apps/users-service/src/outbox/outbox.worker.ts: one run of `processOutboxMessages`, and
-- `prunePublishedMessages`. What is published stays published when the transaction is rolled back.
pub mod Table
pub mod Message
pub mod Batch
pub mod Rows
pub mod Flag
pub mod Healthy
pub mod Prune
pub mod Failures
pub mod Retries
use skill_up.Base.{
  ℕ, suc, ◌+◌, ◌-◌, ◌*◌, Bool, true, false, ◌&&◌, Option, none, some, List, [], ◌∷◌, ◌++◌,
  if◌then◌else◌, leb, ltb,
}
use skill_up.Text.{Text, codes, text_eq, to_lower}
use skill_up.Shared.{OutboxMessage, OutboxStatus, Payload, verification_email, profile_photo}
use Table.{OutboxTable}

-- `OUTBOX_EVENTS` and `RABBITMQ_ROUTING_KEYS` of libs/shared/constants/src/system.constants.ts.
abbrev pub send_verification_email : Text
send_verification_email = codes "SEND_VERIFICATION_EMAIL"

abbrev pub process_profile_photo : Text
process_profile_photo = codes "PROCESS_PROFILE_PHOTO"

unfoldable pub resolve_routing_key : Text → Text
resolve_routing_key event_type =
    if text_eq event_type send_verification_email
    then codes "notification.email.verify"
    else if text_eq event_type process_profile_photo
    then codes "media.photo.process"
    else codes "skillhub.event." ++ to_lower event_type

abbrev pub redacted : Text
redacted = codes "[REDACTED]"

-- A payload with a `code` loses it.
unfoldable pub redact : Payload → Payload
redact (verification_email email code username) = verification_email email redacted username
redact (profile_photo user_id temp_key target_key) = profile_photo user_id temp_key target_key

-- An event on the exchange.
pub record Event : Type 0 where
  pub routing_key : Text
  pub payload : Payload
  pub message_id : Text

abbrev pub event_of : OutboxMessage → Event
event_of m = record {
  routing_key = resolve_routing_key m.event_type;
  payload = m.payload;
  message_id = m.id;
}

unfoldable pub mark_published : ℕ → OutboxMessage → OutboxMessage
mark_published now m = record m {
  payload = redact m.payload;
  status = OutboxStatus.published;
  processed_at = some now;
}

-- The `catch` clause of the loop: five failures make a message FAILED.
unfoldable pub mark_failure : OutboxMessage → OutboxMessage
mark_failure m = record m {
  retry_count = m.retry_count + 1;
  status = if leb 5 (m.retry_count + 1) then OutboxStatus.failed else m.status;
}

-- Which calls reject for one message: the publication, the save after it, the save in the `catch`.
pub record MessageFaults : Type 0 where
  pub publish : Bool
  pub save : Bool
  pub resave : Bool

pub record RunFaults : Type 0 where
  pub connect : Bool
  pub start : Bool
  pub fetch : Bool
  pub commit : Bool
  pub release : Bool
  pub message : Text → MessageFaults
  pub now : ℕ

abbrev pub batch_size : ℕ
batch_size = 50

-- `status = PUBLISHED AND processed_at < cutoff`
abbrev pub is_published : OutboxStatus → Bool
is_published OutboxStatus.published = true
is_published _ = false

abbrev pub before : ℕ → Option ℕ → Bool
before cutoff none = false
before cutoff (some t) = ltb t cutoff

unfoldable pub prunable : ℕ → OutboxMessage → Bool
prunable cutoff m = is_published m.status && before cutoff m.processed_at

module _ (T : OutboxTable) where
  -- The rows of the transaction and the events sent; `aborted` where a save in the `catch` rejects.
  pub data Progress : Type 0 where
    going : T.Rows → List Event → Progress
    aborted : List Event → Progress

  unfoldable pub save_failure : Bool → OutboxMessage → T.Rows → List Event → Progress
  save_failure down m rows sent =
      if down then aborted sent else going (T.save (mark_failure m) rows) sent

  -- The body of the loop.
  unfoldable pub deliver : MessageFaults → ℕ → OutboxMessage → T.Rows → List Event → Progress
  deliver f now m rows sent =
      if f.publish
      then save_failure f.resave m rows sent
      else if f.save
      then save_failure f.resave (mark_published now m) rows (sent ++ event_of m ∷ [])
      else going (T.save (mark_published now m) rows) (sent ++ event_of m ∷ [])

  -- The loop over the fetched messages.
  unfoldable pub deliver_all : RunFaults → List OutboxMessage → Progress → Progress
  deliver_all f [] p = p
  deliver_all f (m ∷ ms) (aborted sent) = aborted sent
  deliver_all f (m ∷ ms) (going rows sent) =
      deliver_all f ms (deliver (f.message m.id) f.now m rows sent)

  pub record Worker : Type 0 where
    pub rows : T.Rows
    pub sent : List Event
    pub is_processing : Bool

  -- The tables and the events after the `try` and its `catch`: committed, or rolled back.
  unfoldable pub settle : RunFaults → T.Rows → Progress → T.Rows × List Event
  settle f before (aborted sent) = (before, sent)
  settle f before (going rows sent) = if f.commit then (before, sent) else (rows, sent)

  -- What the `try` does with the messages of the query: for none it rolls back at once.
  unfoldable pub handle : RunFaults → T.Rows → List Event → List OutboxMessage → T.Rows × List Event
  handle f rows sent [] = (rows, sent)
  handle f rows sent (m ∷ ms) = settle f rows (deliver_all f (m ∷ ms) (going rows sent))

  unfoldable pub attempt : RunFaults → T.Rows → List Event → T.Rows × List Event
  attempt f rows sent =
      if f.fetch then (rows, sent) else handle f rows sent (T.fetch_pending batch_size rows)

  -- One run. `connect` and `startTransaction` stand before the `try`, and the flag is reset behind
  -- `release` in the `finally`.
  unfoldable pub process_outbox_messages : RunFaults → Worker → Worker
  process_outbox_messages f w =
      let done = attempt f w.rows w.sent in
      if w.is_processing
      then w
      else if f.connect
      then record w { is_processing = true }
      else if f.start
      then record w { is_processing = true }
      else record { rows = done.0; sent = done.1; is_processing = f.release }

  -- `down`: whether both spellings of the query reject; the error is logged.
  unfoldable pub prune_published_messages : Bool → ℕ → ℕ → T.Rows → T.Rows
  prune_published_messages down retention_hours now rows =
      if down then rows else T.delete_where (prunable (now - retention_hours * 60 * 60 * 1000)) rows
