-- ===== src/Tests/Outboxes.antt =====
-- The worker on a table that has place for one row, with the id m1.
pub mod Retries
use skill_up.Base.{
  ◌⊎◌, ℕ, zero, suc, ◌≡◌, ◌≤◌, ◌-◌, ◌*◌, ◌↔◌, refl, arith, Bool, true, false, Option, none, some,
  List, [], ◌∷◌, inl, inr, if◌then◌else◌, length, All, ap, ◌∙◌, both_true, subst, ◌&&◌, Bool-cases,
}
use skill_up.Text.{Text, codes, text_eq, text_eq→eq}
use skill_up.Shared.{OutboxMessage, OutboxStatus, verification_email, is_pending}
use skill_up.Outbox.{
  event_of, redact, mark_published, mark_failure, RunFaults, Worker, process_outbox_messages,
  prune_published_messages, attempt, handle, settle, deliver_all, deliver, save_failure,
  send_verification_email,
}
use skill_up.Outbox.Table.{OutboxTable, IsOutboxTable, Distinct, keep_unless}
use skill_up.Outbox.Message.{IsSound}
use skill_up.Outbox.Rows.{Step, process_outbox_messages-Step, process_outbox_messages-IsSound}
use skill_up.Outbox.Flag.{runs, connect_blocks}
use skill_up.Outbox.Healthy.{Answers, has_id, redelivery}
use skill_up.Outbox.Prune.{IsPrunable, prune_published_messages-row}

-- The row in its place, where it is PENDING.
abbrev pub waiting : Option OutboxMessage → List OutboxMessage
waiting none = []
waiting (some m) = if is_pending m.status && text_eq m.id (codes "m1") then m ∷ [] else []

abbrev pub table : OutboxTable
table = record {
  Rows = Text → Option OutboxMessage;
  fetch_pending = λ n t. elim n [ zero ↦ [] | suc _ ↦ waiting (t (codes "m1")) ];
  save = λ m t i. if text_eq m.id i then some m else t i;
  delete_where = λ p t i. keep_unless p (t i);
}

waiting-row :
    (t : Text → Option OutboxMessage) (o : Option OutboxMessage)
    → t (codes "m1") ≡ o
    → All (λ m. t m.id ≡ some m) (waiting o)
waiting-row t none e = tt
waiting-row t (some m) e = elim (Bool-cases (is_pending m.status && text_eq m.id (codes "m1"))) [
  | inl h ↦
      let here : m.id ≡ codes "m1" = text_eq→eq m.id (codes "m1") (both_true _ _ h).1 in
      rw h (ap t here ∙ e, tt)
  | inr h ↦ rw h tt
]

waiting-is_pending : (o : Option OutboxMessage) → All (λ m. is_pending m.status ≡ true) (waiting o)
waiting-is_pending none = tt
waiting-is_pending (some m) = elim (Bool-cases (is_pending m.status && text_eq m.id (codes "m1"))) [
  | inl h ↦ rw h ((both_true _ _ h).0, tt)
  | inr h ↦ rw h tt
]

waiting-length : (o : Option OutboxMessage) → length (waiting o) ≤ 1
waiting-length none = omega arith
waiting-length (some m) = ground arith

waiting-Distinct : (o : Option OutboxMessage) → Distinct (waiting o)
waiting-Distinct none = tt
waiting-Distinct (some m) = elim (Bool-cases (is_pending m.status && text_eq m.id (codes "m1"))) [
  | inl h ↦ rw h (tt, tt)
  | inr h ↦ rw h tt
]

fetched-row :
    (n : ℕ) (t : Text → Option OutboxMessage) → All (λ m. t m.id ≡ some m) (table.fetch_pending n t)
fetched-row zero t = tt
fetched-row (suc n) t = waiting-row t (t (codes "m1")) refl

fetched-is_pending :
    (n : ℕ) (t : Text → Option OutboxMessage)
    → All (λ m. is_pending m.status ≡ true) (table.fetch_pending n t)
fetched-is_pending zero t = tt
fetched-is_pending (suc n) t = waiting-is_pending (t (codes "m1"))

fetched-length : (n : ℕ) (t : Text → Option OutboxMessage) → length (table.fetch_pending n t) ≤ n
fetched-length zero t = omega arith
fetched-length (suc n) t = omega (arith, waiting-length (t (codes "m1")))

fetched-Distinct : (n : ℕ) (t : Text → Option OutboxMessage) → Distinct (table.fetch_pending n t)
fetched-Distinct zero t = tt
fetched-Distinct (suc n) t = waiting-Distinct (t (codes "m1"))

pub table_law : IsOutboxTable table
table_law = record {
  row = λ i t. t i;
  row-save = λ i m t. refl;
  row-delete_where = λ i p t. refl;
  fetch-row = fetched-row;
  fetch-is_pending = fetched-is_pending;
  fetch-length = fetched-length;
  fetch-Distinct = fetched-Distinct;
}

-- An email with a code, three times failed.
abbrev pub email : OutboxMessage
email = record {
  id = codes "m1";
  event_type = send_verification_email;
  payload = verification_email (codes "a@x.io") (codes "123456") (codes "alice");
  status = OutboxStatus.pending;
  retry_count = 3;
  created_at = 1;
  processed_at = none;
}

abbrev pub idle : Worker table
idle = record {
  rows = λ i. if text_eq (codes "m1") i then some email else none;
  sent = [];
  is_processing = false;
}

-- Calls that all answer, but for the connection, the publications and the commit as given.
abbrev pub faults : Bool → Bool → Bool → RunFaults
faults connect publish commit = record {
  connect = connect;
  start = false;
  fetch = false;
  commit = commit;
  release = false;
  message = λ i. record { publish = publish; save = false; resave = false };
  now = 50;
}

process_outbox_messages-Step_example :
    let w' = process_outbox_messages table (faults false true false) idle in
    Step 50 (some email) (table_law.row (codes "m1") w'.rows) w'.sent
unfolding table_law text_eq
process_outbox_messages-Step_example =
    process_outbox_messages-Step table_law (faults false true false) (codes "m1") idle

email-IsSound : IsSound email
email-IsSound = record {
  pending_few = λ e. omega arith;
  failed_many = λ e. cc;
  published_redacted = λ e. cc;
  not_processing = λ e. cc;
}

IsSound-before : (i : Text) (m : OutboxMessage) → table_law.row i idle.rows ≡ some m → IsSound m
unfolding table_law
IsSound-before i m e = elim (Bool-cases (text_eq (codes "m1") i)) [
  | inl h ↦ subst IsSound (some_message (rw h at e)) email-IsSound
  | inr h ↦ cc (rw h at e)
]
  where
    some_message : some email ≡ some m → email ≡ m
    some_message q = cc

failed_once :
    table_law.row (codes "m1") (process_outbox_messages table (faults false true false) idle).rows
    ≡ some (mark_failure email)
unfolding table_law text_eq process_outbox_messages attempt handle settle deliver_all deliver
    save_failure mark_failure
failed_once = refl

process_outbox_messages-IsSound_example : IsSound (mark_failure email)
process_outbox_messages-IsSound_example =
    process_outbox_messages-IsSound table_law (faults false true false) idle IsSound-before
      (codes "m1") (mark_failure email) failed_once

connect_blocks_example :
    runs (faults true false false ∷ faults false false false ∷ []) idle
    ≡ record idle { is_processing = true }
connect_blocks_example =
    connect_blocks (faults true false false) (faults false false false ∷ []) idle refl refl

answers : (commit : Bool) → Answers (faults false false commit)
answers commit = record {
  connect = refl;
  start = refl;
  fetch = refl;
  publish = λ i. refl;
  save = λ i. refl;
}

redelivery_example :
    let once = process_outbox_messages table (faults false false true) idle in
    let twice = runs (faults false false true ∷ faults false false false ∷ []) idle in
    (once.rows ≡ idle.rows)
    × (once.sent ≡ event_of email ∷ [])
    × (twice.sent ≡ event_of email ∷ event_of email ∷ [])
    × All
        (λ m.
          table_law.row m.id twice.rows
          ≡ some (record m {
            payload = redact m.payload;
            status = OutboxStatus.published;
            processed_at = some 50;
          }))
        (email ∷ [])
    × ((has_id (codes "m2") (email ∷ []) ≡ true)
        ⊎ (table_law.row (codes "m2") twice.rows ≡ table_law.row (codes "m2") idle.rows))
unfolding text_eq
redelivery_example =
    redelivery table table_law (faults false false true) (faults false false false) idle
      (codes "m2") (answers true) (answers false) refl refl refl refl

-- A row that was published at the time 50.
abbrev old_rows : Text → Option OutboxMessage
old_rows i = if text_eq (codes "m1") i then some (mark_published 50 email) else none

there : table_law.row (codes "m1") old_rows ≡ some (mark_published 50 email)
unfolding table_law text_eq
there = refl

prune_published_messages-row_example :
    (table_law.row (codes "m1") (prune_published_messages table false 1 7200000 old_rows) ≡ none)
    ↔ IsPrunable (7200000 - 1 * 60 * 60 * 1000) (mark_published 50 email)
prune_published_messages-row_example =
    prune_published_messages-row table_law (codes "m1") (mark_published 50 email) 1 7200000 old_rows
      there
