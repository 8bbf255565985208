-- ===== src/Outbox/Healthy.antt =====
-- A run in which every call answers, and the same run where only the commit is lost.
use skill_up.Base.{
  ◌||◌, ◌⊎◌, Bool, arith, ℕ, ◌≡◌, refl, sym, ap, ◌∙◌, true, false, some, List, [], ◌∷◌, ◌++◌,
  if◌then◌else◌, All, map, append_assoc, append-nil, Bool-cases, inl, inr,
}
use skill_up.Text.{Text, text_eq, text_eq_refl, text_eq_comm}
use skill_up.Shared.{OutboxMessage, OutboxStatus}
use skill_up.Outbox.{
  Event, event_of, redact, mark_published, RunFaults, going, deliver, deliver_all, Worker, settle,
  handle, attempt, process_outbox_messages, batch_size,
}
use skill_up.Outbox.Table.{OutboxTable, IsOutboxTable, Distinct}
use skill_up.Outbox.Flag.{runs}

-- Every call but the commit and the release answers.
pub record Answers (f : RunFaults) : Type 0 where
  pub connect : f.connect ≡ false
  pub start : f.start ≡ false
  pub fetch : f.fetch ≡ false
  pub publish : (i : Text) → (f.message i).publish ≡ false
  pub save : (i : Text) → (f.message i).save ≡ false

abbrev pub events : List OutboxMessage → List Event
events ms = map event_of ms

-- The rows with all these messages published.
abbrev pub publish_all : (T : OutboxTable) → ℕ → List OutboxMessage → T.Rows → T.Rows
publish_all T now [] t = t
publish_all T now (m ∷ ms) t = publish_all T now ms (T.save (mark_published now m) t)

-- One of the messages has this id.
abbrev pub has_id : Text → List OutboxMessage → Bool
has_id i [] = false
has_id i (m ∷ ms) = text_eq m.id i || has_id i ms

has_id-false :
    (i : Text) (ms : List OutboxMessage)
    → has_id i ms ≡ false
    → All (λ x. text_eq x.id i ≡ false) ms
has_id-false i [] h = tt
has_id-false i (m ∷ ms) h =
    let (here, later) : (text_eq m.id i ≡ false) × (has_id i ms ≡ false) = ground arith in
    (here, has_id-false i ms later)

module _ (T : OutboxTable) where
  module _ (f : RunFaults) (up : Answers f) where
    deliver_answers :
        (m : OutboxMessage) (t : T.Rows) (s : List Event)
        → deliver T (f.message m.id) f.now m t s
          ≡ going (T.save (mark_published f.now m) t) (s ++ event_of m ∷ [])
    unfolding deliver
    deliver_answers m t s = rw (up.publish m.id, up.save m.id) refl

    deliver_all_answers :
        (ms : List OutboxMessage) (t : T.Rows) (s : List Event)
        → deliver_all T f ms (going t s) ≡ going (publish_all T f.now ms t) (s ++ events ms)
    unfolding deliver_all
    deliver_all_answers [] t s = ap (λ x. going t x) (sym (append-nil s))
    deliver_all_answers (m ∷ ms) t s = rw (deliver_answers m t s) (
        deliver_all_answers ms (T.save (mark_published f.now m) t) (s ++ event_of m ∷ [])
        ∙ ap (λ x. going (publish_all T f.now (m ∷ ms) t) x)
            (append_assoc s (event_of m ∷ []) (events ms)))

    handle_answers :
        (ms : List OutboxMessage) (t : T.Rows) (s : List Event)
        → handle T f t s ms ≡ ((if f.commit then t else publish_all T f.now ms t), s ++ events ms)
    unfolding handle settle
    handle_answers [] t s = elim (Bool-cases f.commit) [
      | inl e ↦ rw (e, append-nil s) refl
      | inr e ↦ rw (e, append-nil s) refl
    ]
    handle_answers (m ∷ ms) t s =
        rw (deliver_all_answers (m ∷ ms) t s)
          (elim (Bool-cases f.commit) [ inl e ↦ rw e refl | inr e ↦ rw e refl ])

    -- A run in which every call but the commit and the release answers sends the events of the
    -- oldest PENDING rows, in their order, behind what was sent, and marks each of those rows
    -- PUBLISHED; where the commit rejects, the events stay sent and the rows stay as they were.
    pub process_outbox_messages-answers :
        (w : Worker T)
        → w.is_processing ≡ false
        → let ms = T.fetch_pending batch_size w.rows in
          process_outbox_messages T f w ≡ record {
            rows = if f.commit then w.rows else publish_all T f.now ms w.rows;
            sent = w.sent ++ events ms;
            is_processing = f.release;
          }
    unfolding process_outbox_messages attempt
    process_outbox_messages-answers w e = simp (
      e,
      up.connect,
      up.start,
      up.fetch,
      handle_answers (T.fetch_pending batch_size w.rows) w.rows w.sent,
    )

  two_runs :
      (f g : RunFaults) (w : Worker T)
      → Answers f
      → Answers g
      → f.commit ≡ true
      → f.release ≡ false
      → g.commit ≡ false
      → w.is_processing ≡ false
      → let ms = T.fetch_pending batch_size w.rows in
        runs (f ∷ g ∷ []) w ≡ record {
          rows = publish_all T g.now ms w.rows;
          sent = (w.sent ++ events ms) ++ events ms;
          is_processing = g.release;
        }
  unfolding runs
  two_runs f g w up_f up_g cf rf cg e =
      let w₁ : Worker T = record {
        rows = w.rows;
        sent = w.sent ++ events (T.fetch_pending batch_size w.rows);
        is_processing = false;
      } in
      let first : process_outbox_messages T f w ≡ w₁ =
        process_outbox_messages-answers f up_f w e ∙ simp (cf, rf) in
      rw first (process_outbox_messages-answers g up_g w₁ refl ∙ simp cg)

  module _ (law : IsOutboxTable T) (now : ℕ) where
    publish_all_other :
        (i : Text) (ms : List OutboxMessage) (t : T.Rows)
        → All (λ x. text_eq x.id i ≡ false) ms
        → law.row i (publish_all T now ms t) ≡ law.row i t
    unfolding mark_published
    publish_all_other i [] t _ = refl
    publish_all_other i (m ∷ ms) t (d, ds) =
        publish_all_other i ms (T.save (mark_published now m) t) ds
        ∙ (law.row-save i (mark_published now m) t ∙ simp d)

    others_differ :
        (m : OutboxMessage) (ms : List OutboxMessage)
        → All (λ x. text_eq m.id x.id ≡ false) ms
        → All (λ x. text_eq x.id m.id ≡ false) ms
    others_differ m [] _ = tt
    others_differ m (x ∷ ms) (d, ds) = (text_eq_comm x.id m.id ∙ d, others_differ m ms ds)

    -- `publish_all` marks each of the messages, where their ids are distinct.
    pub publish_all-row :
        (ms : List OutboxMessage) (t : T.Rows)
        → Distinct ms
        → All (λ m. law.row m.id (publish_all T now ms t) ≡ some (mark_published now m)) ms
    unfolding mark_published
    publish_all-row [] t _ = tt
    publish_all-row (m ∷ ms) t (d, ds) = (
      publish_all_other m.id ms (T.save (mark_published now m) t) (others_differ m ms d)
          ∙ (law.row-save m.id (mark_published now m) t ∙ simp (text_eq_refl m.id)),
      publish_all-row ms (T.save (mark_published now m) t) ds,
    )

  -- At-least-once delivery: where the commit of one run rejects and every other call of it and of the
  -- next answers, its events are sent and its rows stay
  -- as they were; the next run sends every event of the batch again, under the same ids, and leaves
  -- each of its rows PUBLISHED at its time, with its payload redacted, and a row `i` of another id as
  -- it was.
  pub redelivery :
      (law : IsOutboxTable T) (f g : RunFaults) (w : Worker T) (i : Text)
      → Answers f
      → Answers g
      → f.commit ≡ true
      → f.release ≡ false
      → g.commit ≡ false
      → w.is_processing ≡ false
      → let ms = T.fetch_pending batch_size w.rows in
        let once = process_outbox_messages T f w in
        let twice = runs (f ∷ g ∷ []) w in
        (once.rows ≡ w.rows)
        × (once.sent ≡ w.sent ++ events ms)
        × (twice.sent ≡ (w.sent ++ events ms) ++ events ms)
        × All
            (λ m.
              law.row m.id twice.rows
              ≡ some (record m {
                payload = redact m.payload;
                status = OutboxStatus.published;
                processed_at = some g.now;
              }))
            ms
        × ((has_id i ms ≡ true) ⊎ (law.row i twice.rows ≡ law.row i w.rows))
  unfolding mark_published
  redelivery law f g w i up_f up_g cf rf cg e =
      let ms = T.fetch_pending batch_size w.rows in
      let first = process_outbox_messages-answers f up_f w e in
      let both = two_runs f g w up_f up_g cf rf cg e in
      let kept = ap (λ (x : Worker T). x.rows) both in
      (
        ap (λ (x : Worker T). x.rows) first ∙ rw cf refl,
        ap (λ (x : Worker T). x.sent) first,
        ap (λ (x : Worker T). x.sent) both,
        rw kept (publish_all-row law g.now ms w.rows (law.fetch-Distinct batch_size w.rows)),
        elim (Bool-cases (has_id i ms)) [
          | inl fetched ↦ inl fetched
          | inr other ↦
              inr (rw kept (publish_all_other law g.now i ms w.rows (has_id-false i ms other)))
        ],
      )
