-- ===== src/Outbox/Failures.antt =====
-- One run of the worker in which a message is not published: what it leaves of the row.
use skill_up.Base.{
  ℕ, ◌≡◌, refl, sym, ap, ◌∙◌, subst, true, false, some, List, [], ◌∷◌, ◌++◌, ◌⊎◌, inl, inr,
  Bool-cases, All,
}
use skill_up.Text.{Text, text_eq, text_eq_refl, text_eq_comm}
use skill_up.Shared.{OutboxMessage, OutboxStatus}
use skill_up.Outbox.{
  Event, event_of, mark_published, mark_failure, MessageFaults, RunFaults, going, save_failure,
  deliver, deliver_all, Worker, settle, handle, attempt, process_outbox_messages, batch_size,
}
use skill_up.Outbox.Table.{OutboxTable, IsOutboxTable, Distinct}
use skill_up.Outbox.Rows.{Step, same, moved, process_outbox_messages-Step}
use skill_up.Outbox.Flag.{process_outbox_messages-is_processing}

-- A run that publishes nothing for the message `i` and whose transaction goes through; whatever the
-- publications and the saves of the other messages do, the saves of the `catch` answer.
pub record FailsFor (i : Text) (f : RunFaults) : Type 0 where
  pub connect : f.connect ≡ false
  pub start : f.start ≡ false
  pub fetch : f.fetch ≡ false
  pub commit : f.commit ≡ false
  pub release : f.release ≡ false
  pub publish : (f.message i).publish ≡ true
  pub resave : (j : Text) → (f.message j).resave ≡ false

-- The message is among those fetched.
abbrev pub In : OutboxMessage → List OutboxMessage → Type 0
In m [] = ⊥
In m (x ∷ xs) = (x ≡ m) ⊎ In m xs

module _ {T : OutboxTable} where
  -- A delivery whose `catch` answers saves the message, under its id.
  deliver_saves :
      (f : MessageFaults) (now : ℕ) (m : OutboxMessage) (t : T.Rows) (s : List Event)
      → f.resave ≡ false
      → (m' : OutboxMessage) × (s' : List Event) × (deliver T f now m t s ≡ going (T.save m' t) s')
        × (m'.id ≡ m.id)
  unfolding deliver save_failure mark_failure mark_published
  deliver_saves f now m t s up = elim (Bool-cases f.publish) [
    | inl e ↦ (mark_failure m, s, rw (e, up) refl, refl)
    | inr e ↦ elim (Bool-cases f.save) [
      | inl h ↦
          (mark_failure (mark_published now m), s ++ event_of m ∷ [], rw (e, h, up) refl, refl)
      | inr h ↦ (mark_published now m, s ++ event_of m ∷ [], rw (e, h) refl, refl)
    ]
  ]

  deliver_fails :
      (f : MessageFaults) (now : ℕ) (m : OutboxMessage) (t : T.Rows) (s : List Event)
      → f.publish ≡ true
      → f.resave ≡ false
      → deliver T f now m t s ≡ going (T.save (mark_failure m) t) s
  unfolding deliver save_failure
  deliver_fails f now m t s down up = rw (down, up) refl

module _ {T : OutboxTable} (law : IsOutboxTable T) where
  module _ (i : Text) (f : RunFaults) (fails : FailsFor i f) where
    -- The loop over messages of other ids leaves the row of `i`.
    others_left :
        (ms : List OutboxMessage) (t : T.Rows) (s : List Event)
        → All (λ x. text_eq x.id i ≡ false) ms
        → (t' : T.Rows) × (s' : List Event) × (deliver_all T f ms (going t s) ≡ going t' s')
          × (law.row i t' ≡ law.row i t)
    unfolding deliver_all
    others_left [] t s _ = (t, s, refl, refl)
    others_left (m ∷ ms) t s (d, ds) =
        let (m', s', e, same_id) =
          deliver_saves {T = T} (f.message m.id) f.now m t s (fails.resave m.id) in
        let (t'', s'', e', kept) = others_left ms (T.save m' t) s' ds in
        (t'', s'', rw e e', kept ∙ rw (law.row-save i m' t, same_id, d) refl)

    others_distinct :
        (m : OutboxMessage) (ms : List OutboxMessage)
        → m.id ≡ i
        → All (λ x. text_eq m.id x.id ≡ false) ms
        → All (λ x. text_eq x.id i ≡ false) ms
    others_distinct m [] e _ = tt
    others_distinct m (x ∷ ms) e (d, ds) =
        (rw (← e) (text_eq_comm x.id m.id ∙ d), others_distinct m ms e ds)

    saved : (m : OutboxMessage) (t : T.Rows) → m.id ≡ i → law.row i (T.save m t) ≡ some m
    saved m t e = law.row-save i m t ∙ rw (e, text_eq_refl i) refl

    -- The loop counts one failure for the row of `i`.
    counted :
        (m : OutboxMessage) (ms : List OutboxMessage) (t : T.Rows) (s : List Event)
        → m.id ≡ i
        → Distinct ms
        → In m ms
        → (t' : T.Rows) × (s' : List Event) × (deliver_all T f ms (going t s) ≡ going t' s')
          × (law.row i t' ≡ some (mark_failure m))
    unfolding deliver_all mark_failure
    counted m [] t s e _ h = elim h [ ]
    counted m (x ∷ ms) t s e (d, ds) (inl here) =
        let at : x.id ≡ i = ap (λ (y : OutboxMessage). y.id) here ∙ e in
        let down : (f.message x.id).publish ≡ true =
          subst (λ j. (f.message j).publish ≡ true) (sym at) fails.publish in
        let e₁ = deliver_fails {T = T} (f.message x.id) f.now x t s down (fails.resave x.id) in
        let (t', s', e₂, kept) =
          others_left ms (T.save (mark_failure x) t) s (others_distinct x ms at d) in
        (
          t',
          s',
          rw e₁ e₂,
          kept ∙ saved (mark_failure x) t at ∙ ap (λ y. some (mark_failure y)) here,
        )
    counted m (x ∷ ms) t s e (d, ds) (inr later) =
        let (m', s', e₁, same_id) =
          deliver_saves {T = T} (f.message x.id) f.now x t s (fails.resave x.id) in
        let (t'', s'', e₂, kept) = counted m ms (T.save m' t) s' e ds later in
        (t'', s'', rw e₁ e₂, kept)

    handle_counted :
        (m : OutboxMessage) (ms : List OutboxMessage) (t : T.Rows) (s : List Event)
        → m.id ≡ i
        → Distinct ms
        → In m ms
        → law.row i ((handle T f t s ms).0) ≡ some (mark_failure m)
    unfolding handle settle
    handle_counted m [] t s e _ h = elim h [ ]
    handle_counted m (x ∷ ms) t s e d h =
        let (t', s', e', row) = counted m (x ∷ ms) t s e d h in rw (e', fails.commit) row

    pub run_counted :
        (m : OutboxMessage) (w : Worker T)
        → w.is_processing ≡ false
        → m.id ≡ i
        → In m (T.fetch_pending batch_size w.rows)
        → law.row i (process_outbox_messages T f w).rows ≡ some (mark_failure m)
    unfolding process_outbox_messages attempt
    run_counted m w idle e h =
        simp (idle, fails.connect, fails.start, fails.fetch)
          (handle_counted m (T.fetch_pending batch_size w.rows) w.rows w.sent e
            (law.fetch-Distinct batch_size w.rows) h)

    pub run_idle :
        (w : Worker T)
        → w.is_processing ≡ false
        → (process_outbox_messages T f w).is_processing ≡ false
    run_idle w idle =
        process_outbox_messages-is_processing f w idle
        ∙ rw (fails.connect, fails.start, fails.release) refl

    -- A FAILED row is not written again.
    pub run_kept :
        (m : OutboxMessage) (w : Worker T)
        → law.row i w.rows ≡ some m
        → m.status ≡ OutboxStatus.failed
        → law.row i (process_outbox_messages T f w).rows ≡ some m
    run_kept m w row failed = go (process_outbox_messages-Step law f i w)
      where
        go :
            Step f.now
              (law.row i w.rows)
              (law.row i (process_outbox_messages T f w).rows)
              (process_outbox_messages T f w).sent
            → law.row i (process_outbox_messages T f w).rows ≡ some m
        go (same e) = e ∙ row
        go (moved x x' a b p c k) = cc
