-- ===== src/Outbox/Retries.antt =====
-- A row whose publication always rejects: how many runs of the worker try it.
use skill_up.Base.{
  ◌+◌, ◌≤◌, ◌<◌, ◌≡◌, ap, ◌∙◌, false, some, List, [], ◌∷◌, inl, inr, if◌then◌else◌, leb, arith,
  le→leb, lt→leb_false, Bool-cases, length,
}
use skill_up.Text.{Text}
use skill_up.Shared.{OutboxMessage, OutboxStatus}
use skill_up.Outbox.{mark_failure, RunFaults, Worker, process_outbox_messages, batch_size}
use skill_up.Outbox.Table.{OutboxTable, IsOutboxTable}
use skill_up.Outbox.Flag.{runs}
use skill_up.Outbox.Failures.{FailsFor, In, run_counted, run_idle, run_kept}

mark_failure-last :
    (m : OutboxMessage) → 5 ≤ m.retry_count + 1 → (mark_failure m).status ≡ OutboxStatus.failed
unfolding mark_failure
mark_failure-last m h =
    ap (λ b. if b then OutboxStatus.failed else m.status) (le→leb 5 (m.retry_count + 1) h)

mark_failure-again :
    (m : OutboxMessage)
    → m.status ≡ OutboxStatus.pending
    → m.retry_count + 1 < 5
    → (mark_failure m).status ≡ OutboxStatus.pending
unfolding mark_failure
mark_failure-again m p h =
    ap (λ b. if b then OutboxStatus.failed else m.status) (lt→leb_false 5 (m.retry_count + 1) h) ∙ p

module _ {T : OutboxTable} (law : IsOutboxTable T) where
  -- Each run fails for `i`, and fetches its row where that is PENDING.
  abbrev pub Tried : Text → List RunFaults → Worker T → Type 0
  Tried i [] w = Unit
  Tried i (f ∷ fs) w =
      FailsFor i f
      × ((m : OutboxMessage)
          → law.row i w.rows ≡ some m
          → m.status ≡ OutboxStatus.pending
          → In m (T.fetch_pending batch_size w.rows))
      × Tried i fs (process_outbox_messages T f w)

  runs_kept :
      (i : Text) (fs : List RunFaults) (m : OutboxMessage) (w : Worker T)
      → Tried i fs w
      → law.row i w.rows ≡ some m
      → m.status ≡ OutboxStatus.failed
      → law.row i (runs fs w).rows ≡ some m
  unfolding runs
  runs_kept i [] m w _ row failed = row
  runs_kept i (f ∷ fs) m w (fails, _, rest) row failed =
      runs_kept i fs m (process_outbox_messages T f w) rest (run_kept law i f fails m w row failed)
        failed

  -- A PENDING row with fewer than five failures, whose publication rejects in every run while the runs
  -- fetch it, save its failure and commit, is FAILED with exactly five failures after as many runs as it had failures
  -- left, and after any more: no row is tried for ever.
  pub failed_runs_terminate :
      (i : Text) (fs : List RunFaults) (m : OutboxMessage) (w : Worker T)
      → w.is_processing ≡ false
      → Tried i fs w
      → m.id ≡ i
      → law.row i w.rows ≡ some m
      → m.status ≡ OutboxStatus.pending
      → m.retry_count < 5
      → 5 ≤ m.retry_count + length fs
      → (m' : OutboxMessage) × (law.row i (runs fs w).rows ≡ some m')
        × (m'.status ≡ OutboxStatus.failed)
        × (m'.retry_count ≡ 5)
  unfolding runs mark_failure
  failed_runs_terminate i [] m w idle _ e row p few enough = absurd (omega arith)
  failed_runs_terminate i (f ∷ fs) m w idle (fails, fetched, rest) e row p few enough =
      let w' = process_outbox_messages T f w in
      let row' = run_counted law i f fails m w idle e (fetched m row p) in
      elim (Bool-cases (leb 5 (m.retry_count + 1))) [
        | inl last ↦
            let full : 5 ≤ m.retry_count + 1 = ground arith in
            let failed = mark_failure-last m full in
            (
              mark_failure m,
              runs_kept i fs (mark_failure m) w' rest row' failed,
              failed,
              omega arith,
            )
        | inr more ↦
            let again : m.retry_count + 1 < 5 = ground arith in
            failed_runs_terminate i fs (mark_failure m) w' (run_idle law i f fails w idle) rest e
              row' (mark_failure-again m p again) again (omega arith)
      ]
