-- ===== src/Outbox/Rows.antt =====
-- A whole run: what it makes of each row of the table, and what has then been sent.
use skill_up.Base.{
  ℕ, ◌≡◌, refl, sym, ap, ◌∙◌, subst, true, false, Option, some, List, [], ◌∷◌, inl, inr, All,
  Bool-cases,
}
use skill_up.Text.{Text, text_eq, text_eq→eq, text_eq_comm}
use skill_up.Shared.{OutboxMessage, OutboxStatus, is_pending}
use skill_up.Outbox.{
  Event, event_of, mark_published, mark_failure, RunFaults, Progress, going, aborted, deliver_all,
  Worker, settle, handle, attempt, process_outbox_messages, batch_size,
}
use skill_up.Outbox.Table.{OutboxTable, IsOutboxTable, Distinct}
use skill_up.Outbox.Message.{
  Outcome, published, failed, published_unsaved, IsSound, Outcome-IsSound,
}
use skill_up.Outbox.Batch.{Sent, stopped, wrote, deliver-Delivered}

-- A row before and after a run: the same, or PENDING before and written once; what has then the
-- status PUBLISHED is among the events sent.
pub data Step (now : ℕ) (o o' : Option OutboxMessage) (sent : List Event) : Type 0 where
  same : o' ≡ o → Step now o o' sent
  moved :
      (m m' : OutboxMessage)
      → o ≡ some m
      → o' ≡ some m'
      → m.status ≡ OutboxStatus.pending
      → Outcome now m m'
      → (m'.status ≡ OutboxStatus.published → Sent (event_of m) sent)
      → Step now o o' sent

Outcome-id : {now : ℕ} {m m' : OutboxMessage} → Outcome now m m' → m'.id ≡ m.id
unfolding mark_published mark_failure
Outcome-id (published e) = ap (λ (x : OutboxMessage). x.id) e
Outcome-id (failed e) = ap (λ (x : OutboxMessage). x.id) e
Outcome-id (published_unsaved e) = ap (λ (x : OutboxMessage). x.id) e

is_pending_eq : (x : OutboxStatus) → is_pending x ≡ true → x ≡ OutboxStatus.pending
is_pending_eq OutboxStatus.pending h = refl
is_pending_eq OutboxStatus.processing h = cc
is_pending_eq OutboxStatus.published h = cc
is_pending_eq OutboxStatus.failed h = cc

module _ {T : OutboxTable} (law : IsOutboxTable T) (f : RunFaults) where
  -- What the query promises of the messages still to be handled, on the table as it is.
  pub record Fetched (ms : List OutboxMessage) (t : T.Rows) : Type 0 where
    pub stored : All (λ x. law.row x.id t ≡ some x) ms
    pub waiting : All (λ x. is_pending x.status ≡ true) ms
    pub distinct : Distinct ms

  deliver_all_aborted :
      (ms : List OutboxMessage) (s : List Event) → deliver_all T f ms (aborted s) ≡ aborted s
  unfolding deliver_all
  deliver_all_aborted [] s = refl
  deliver_all_aborted (m ∷ ms) s = refl

  -- What the loop leaves of the row `i`, where it does not abort: `o` is the row before it.
  abbrev Untouched : Text → Option OutboxMessage → List Event → Progress T → Type 0
  Untouched i o s (aborted s') = Unit
  Untouched i o s (going t' s') = (law.row i t' ≡ o) × ((e : Event) → Sent e s → Sent e s')

  abbrev Kept : Text → Option OutboxMessage → Progress T → Type 0
  Kept i o (aborted s') = Unit
  Kept i o (going t' s') = Step f.now o (law.row i t') s'

  Untouched-trans :
      (i : Text) (o o' : Option OutboxMessage) (s s' : List Event) (p : Progress T)
      → o' ≡ o
      → ((e : Event) → Sent e s → Sent e s')
      → Untouched i o' s' p
      → Untouched i o s p
  Untouched-trans i o o' s s' (aborted _) e k h = tt
  Untouched-trans i o o' s s' (going t'' s'') e k (h, l) = (h ∙ e, λ x q. l x (k x q))

  row_saved_other :
      (i : Text) (m m' : OutboxMessage) (t : T.Rows)
      → m'.id ≡ m.id
      → text_eq m.id i ≡ false
      → law.row i (T.save m' t) ≡ law.row i t
  row_saved_other i m m' t e d = rw (law.row-save i m' t, e, d)

  row_saved :
      (i : Text) (m m' : OutboxMessage) (t : T.Rows)
      → m'.id ≡ m.id
      → text_eq m.id i ≡ true
      → law.row i (T.save m' t) ≡ some m'
  row_saved i m m' t e d = rw (law.row-save i m' t, e, d)

  deliver_all-Untouched :
      (i : Text) (ms : List OutboxMessage) (t : T.Rows) (s : List Event)
      → All (λ x. text_eq x.id i ≡ false) ms
      → All (λ x. is_pending x.status ≡ true) ms
      → Untouched i (law.row i t) s (deliver_all T f ms (going t s))
  unfolding deliver_all
  deliver_all-Untouched i [] t s _ _ = (refl, λ e k. k)
  deliver_all-Untouched i (m ∷ ms) t s (d, ds) (p, ps) =
      elim (deliver-Delivered {T = T} (f.message m.id) f.now m t s (is_pending_eq m.status p)) [
        | stopped s' e ↦ rw (e, deliver_all_aborted ms s') tt
        | wrote m' s' e o k l ↦ rw e (
            Untouched-trans i (law.row i t) (law.row i (T.save m' t)) s s'
              (deliver_all T f ms (going (T.save m' t) s'))
              (row_saved_other i m m' t (Outcome-id o) d) l
              (deliver_all-Untouched i ms (T.save m' t) s' ds ps))
      ]

  Kept-trans :
      (i : Text) (o o' : Option OutboxMessage) (p : Progress T) → o' ≡ o → Kept i o' p → Kept i o p
  Kept-trans i o o' p e h = subst (λ x. Kept i x p) e h

  Kept-moved :
      (i : Text) (m m' : OutboxMessage) (o : Option OutboxMessage) (s' : List Event)
      (p : Progress T)
      → o ≡ some m
      → m.status ≡ OutboxStatus.pending
      → Outcome f.now m m'
      → (m'.status ≡ OutboxStatus.published → Sent (event_of m) s')
      → Untouched i (some m') s' p
      → Kept i o p
  Kept-moved i m m' o s' (aborted _) e q c k h = tt
  Kept-moved i m m' o s' (going t'' s'') e q c k (h, l) =
      moved m m' e h q c (λ x. l (event_of m) (k x))

  -- Saving a row keeps what the query promised of the others.
  stored_saved :
      (m m' : OutboxMessage) (ms : List OutboxMessage) (t : T.Rows)
      → m'.id ≡ m.id
      → All (λ x. text_eq m.id x.id ≡ false) ms
      → All (λ x. law.row x.id t ≡ some x) ms
      → All (λ x. law.row x.id (T.save m' t) ≡ some x) ms
  stored_saved m m' [] t e _ _ = tt
  stored_saved m m' (x ∷ ms) t e (d, ds) (h, hs) =
      (row_saved_other x.id m m' t e d ∙ h, stored_saved m m' ms t e ds hs)

  others_distinct :
      (i : Text) (m : OutboxMessage) (ms : List OutboxMessage)
      → m.id ≡ i
      → All (λ x. text_eq m.id x.id ≡ false) ms
      → All (λ x. text_eq x.id i ≡ false) ms
  others_distinct i m [] e _ = tt
  others_distinct i m (x ∷ ms) e (d, ds) =
      (rw (← e) (text_eq_comm x.id m.id ∙ d), others_distinct i m ms e ds)

  deliver_all-Kept :
      (i : Text) (ms : List OutboxMessage) (t : T.Rows) (s : List Event)
      → Fetched ms t
      → Kept i (law.row i t) (deliver_all T f ms (going t s))
  unfolding deliver_all
  deliver_all-Kept i [] t s _ = same refl
  deliver_all-Kept i (m ∷ ms) t s q =
      elim (deliver-Delivered {T = T} (f.message m.id) f.now m t s
        (is_pending_eq m.status q.waiting.0)) [
          | stopped s' e ↦ rw (e, deliver_all_aborted ms s') tt
          | wrote m' s' e o k l ↦ rw e (elim (Bool-cases (text_eq m.id i)) [
            | inl h ↦
                Kept-moved i m m' (law.row i t) s' (deliver_all T f ms (going (T.save m' t) s'))
                  (subst (λ x. law.row x t ≡ some m) (text_eq→eq m.id i h) q.stored.0)
                  (is_pending_eq m.status q.waiting.0) o k
                  (subst (λ x. Untouched i x s' (deliver_all T f ms (going (T.save m' t) s')))
                    (row_saved i m m' t (Outcome-id o) h)
                    (deliver_all-Untouched i ms (T.save m' t) s'
                      (others_distinct i m ms (text_eq→eq m.id i h) q.distinct.0) q.waiting.1))
            | inr h ↦
                Kept-trans i (law.row i t) (law.row i (T.save m' t))
                  (deliver_all T f ms (going (T.save m' t) s'))
                  (row_saved_other i m m' t (Outcome-id o) h)
                  (deliver_all-Kept i ms (T.save m' t) s' (record {
                    stored = stored_saved m m' ms t (Outcome-id o) q.distinct.0 q.stored.1;
                    waiting = q.waiting.1;
                    distinct = q.distinct.1;
                  }))
          ])
        ]

  abbrev Done : Text → Option OutboxMessage → T.Rows × List Event → Type 0
  Done i o r = Step f.now o (law.row i (r.0)) (r.1)

  settle-Done :
      (i : Text) (t : T.Rows) (p : Progress T)
      → Kept i (law.row i t) p
      → Done i (law.row i t) (settle T f t p)
  unfolding settle
  settle-Done i t (aborted s) h = same refl
  settle-Done i t (going t' s) h = elim (Bool-cases f.commit) [
    | inl e ↦ rw e (same refl)
    | inr e ↦ rw e h
  ]

  handle-Done :
      (i : Text) (ms : List OutboxMessage) (t : T.Rows) (s : List Event)
      → Fetched ms t
      → Done i (law.row i t) (handle T f t s ms)
  unfolding handle
  handle-Done i [] t s q = same refl
  handle-Done i (m ∷ ms) t s q =
      settle-Done i t (deliver_all T f (m ∷ ms) (going t s)) (deliver_all-Kept i (m ∷ ms) t s q)

  query-Fetched : (n : ℕ) (t : T.Rows) → Fetched (T.fetch_pending n t) t
  query-Fetched n t = record {
    stored = law.fetch-row n t;
    waiting = law.fetch-is_pending n t;
    distinct = law.fetch-Distinct n t;
  }

  attempt-Done : (i : Text) (t : T.Rows) (s : List Event) → Done i (law.row i t) (attempt T f t s)
  unfolding attempt
  attempt-Done i t s = elim (Bool-cases f.fetch) [
    | inl e ↦ rw e (same refl)
    | inr e ↦ simp e (handle-Done i (T.fetch_pending batch_size t) t s (query-Fetched batch_size t))
  ]

  -- A run leaves each row as it was, or writes a PENDING row once: PUBLISHED without its code, with one
  -- failure more, or both where the first write fails. No row becomes PUBLISHED unless its event was
  -- sent, whatever calls reject.
  pub process_outbox_messages-Step :
      (i : Text) (w : Worker T)
      → let w' = process_outbox_messages T f w in
        Step f.now (law.row i w.rows) (law.row i w'.rows) w'.sent
  unfolding process_outbox_messages
  process_outbox_messages-Step i w = elim (Bool-cases w.is_processing) [
    | inl e ↦ rw e (same refl)
    | inr e ↦ elim (Bool-cases f.connect) [
      | inl c ↦ rw (e, c) (same refl)
      | inr c ↦ elim (Bool-cases f.start) [
        | inl b ↦ rw (e, c, b) (same refl)
        | inr b ↦ simp (e, c, b) (attempt-Done i w.rows w.sent)
      ]
    ]
  ]

  Step-IsSound :
      (o o' : Option OutboxMessage) (sent : List Event)
      → Step f.now o o' sent
      → ((m : OutboxMessage) → o ≡ some m → IsSound m)
      → (m' : OutboxMessage) → o' ≡ some m'
      → IsSound m'
  Step-IsSound o o' sent (same e) h m' q = h m' (sym e ∙ q)
  Step-IsSound o o' sent (moved m x a b p c _) h m' q =
      subst IsSound (some_eq (sym b ∙ q)) (Outcome-IsSound c (h m a) p)
    where
      some_eq : {x y : OutboxMessage} → some x ≡ some y → x ≡ y
      some_eq e = cc

  -- Whatever calls reject, a run keeps every row of the table sound: PENDING with fewer than five
  -- failures, FAILED with at least five, or PUBLISHED without a code that could be read.
  pub process_outbox_messages-IsSound :
      (w : Worker T)
      → ((i : Text) (m : OutboxMessage) → law.row i w.rows ≡ some m → IsSound m)
      → (i : Text) (m : OutboxMessage) → law.row i (process_outbox_messages T f w).rows ≡ some m
      → IsSound m
  process_outbox_messages-IsSound w h i m q =
      let w' = process_outbox_messages T f w in
      Step-IsSound (law.row i w.rows) (law.row i w'.rows) w'.sent (process_outbox_messages-Step i w)
        (h i) m q
