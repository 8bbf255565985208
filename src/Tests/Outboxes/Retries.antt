-- ===== src/Tests/Outboxes/Retries.antt =====
-- A row that has failed three times, and whose publication rejects in three more runs.
use skill_up.Base.{◌≡◌, refl, sym, ap, ◌∙◌, arith, true, false, Option, some, [], ◌∷◌, inl}
use skill_up.Text.{Text, codes, text_eq}
use skill_up.Shared.{OutboxMessage, OutboxStatus}
use skill_up.Outbox.{
  RunFaults, process_outbox_messages, attempt, handle, settle, deliver_all, deliver, save_failure,
  mark_failure, batch_size,
}
use skill_up.Outbox.Flag.{runs}
use skill_up.Outbox.Failures.{FailsFor, In}
use skill_up.Outbox.Retries.{Tried, failed_runs_terminate}
use skill_up.Tests.Outboxes.{table, table_law, email, idle, faults}

-- The publications reject, and every other call answers.
abbrev unsent : RunFaults
unsent = faults false true false

unsent-FailsFor : FailsFor (codes "m1") unsent
unsent-FailsFor = record {
  connect = refl;
  start = refl;
  fetch = refl;
  commit = refl;
  release = refl;
  publish = refl;
  resave = λ j. refl;
}

-- The one row that there is, is fetched.
fetched :
    (t : Text → Option OutboxMessage) (o m : OutboxMessage)
    → t (codes "m1") ≡ some o
    → o.id ≡ codes "m1"
    → table_law.row (codes "m1") t ≡ some m
    → m.status ≡ OutboxStatus.pending
    → In m (table.fetch_pending batch_size t)
unfolding table_law text_eq
fetched t o m there named row p =
    let same : o ≡ m = cc in
    let e : m.id ≡ codes "m1" = ap (λ (x : OutboxMessage). x.id) (sym same) ∙ named in
    rw (row, p, e) (inl refl)

once : (process_outbox_messages table unsent idle).rows (codes "m1") ≡ some (mark_failure email)
unfolding text_eq process_outbox_messages attempt handle settle deliver_all deliver save_failure
    mark_failure
once = refl

twice :
    (process_outbox_messages table unsent (process_outbox_messages table unsent idle)).rows
      (codes "m1")
    ≡ some (mark_failure (mark_failure email))
unfolding text_eq process_outbox_messages attempt handle settle deliver_all deliver save_failure
    mark_failure
twice = refl

tried : Tried table_law (codes "m1") (unsent ∷ unsent ∷ unsent ∷ []) idle
unfolding text_eq mark_failure
tried = (
  unsent-FailsFor,
  λ m row p. fetched idle.rows email m refl refl row p,
  (
    unsent-FailsFor,
    λ m row p. fetched _ (mark_failure email) m once refl row p,
    (
      unsent-FailsFor,
      λ m row p. fetched _ (mark_failure (mark_failure email)) m twice refl row p,
      tt,
    ),
  ),
)

here : table_law.row (codes "m1") idle.rows ≡ some email
unfolding table_law text_eq
here = refl

failed_runs_terminate_example :
    (m' : OutboxMessage) × (table_law.row
        (codes "m1")
        (runs (unsent ∷ unsent ∷ unsent ∷ []) idle).rows
      ≡ some m')
    × (m'.status ≡ OutboxStatus.failed)
    × (m'.retry_count ≡ 5)
failed_runs_terminate_example =
    failed_runs_terminate table_law (codes "m1") (unsent ∷ unsent ∷ unsent ∷ []) email idle refl
      tried refl here refl (omega arith) (omega arith)
