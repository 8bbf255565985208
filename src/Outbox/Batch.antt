-- ===== src/Outbox/Batch.antt =====
-- A whole run: what it makes of each row of the table, and what has then been sent.
use skill_up.Base.{
  ℕ, ◌+◌, leb, ◌≡◌, ◌≢◌, refl, Bool, true, false, List, [], ◌∷◌, ◌++◌, ◌⊎◌, inl, inr, if◌then◌else◌,
  Bool-cases,
}
use skill_up.Shared.{OutboxMessage, OutboxStatus}
use skill_up.Outbox.{
  Event, event_of, mark_published, mark_failure, MessageFaults, Progress, going, aborted,
  save_failure, deliver,
}
use skill_up.Outbox.Table.{OutboxTable}
use skill_up.Outbox.Message.{Outcome, published, failed, published_unsaved}

-- The event is among those sent.
abbrev pub Sent : Event → List Event → Type 0
Sent e [] = ⊥
Sent e (x ∷ xs) = (x ≡ e) ⊎ Sent e xs

pub Sent-append_l : (e : Event) (xs ys : List Event) → Sent e xs → Sent e (xs ++ ys)
Sent-append_l e [] ys h = elim h [ ]
Sent-append_l e (x ∷ xs) ys (inl h) = inl h
Sent-append_l e (x ∷ xs) ys (inr h) = inr (Sent-append_l e xs ys h)

pub Sent-append_last : (e : Event) (xs : List Event) → Sent e (xs ++ e ∷ [])
Sent-append_last e [] = inl refl
Sent-append_last e (x ∷ xs) = inr (Sent-append_last e xs)

retried-published :
    (many : Bool) (x : OutboxStatus)
    → x ≡ OutboxStatus.pending
    → (if many then OutboxStatus.failed else x) ≢ OutboxStatus.published
retried-published true x p e = cc
retried-published false x p e = cc

mark_failure-published :
    (m : OutboxMessage)
    → m.status ≡ OutboxStatus.pending
    → (mark_failure m).status ≢ OutboxStatus.published
unfolding mark_failure
mark_failure-published m p = retried-published (leb 5 (m.retry_count + 1)) m.status p

module _ {T : OutboxTable} where
  -- What one delivery comes to, for the event list that it leaves.
  pub data Delivered (now : ℕ) (m : OutboxMessage) (t : T.Rows) (before : List Event)
      (p : Progress T) : Type 0 where
    stopped : (s : List Event) → p ≡ aborted s → Delivered now m t before p
    wrote :
        (m' : OutboxMessage) (s : List Event)
        → p ≡ going (T.save m' t) s
        → Outcome now m m'
        → (m'.status ≡ OutboxStatus.published → Sent (event_of m) s)
        → ((e : Event) → Sent e before → Sent e s)
        → Delivered now m t before p

  save_failure-Delivered :
      (down : Bool) (now : ℕ) (m x : OutboxMessage) (t : T.Rows) (before s : List Event)
      → Outcome now m (mark_failure x)
      → ((mark_failure x).status ≡ OutboxStatus.published → Sent (event_of m) s)
      → ((e : Event) → Sent e before → Sent e s)
      → Delivered now m t before (save_failure T down x t s)
  unfolding save_failure
  save_failure-Delivered true now m x t before s o k l = stopped s refl
  save_failure-Delivered false now m x t before s o k l = wrote (mark_failure x) s refl o k l

  pub deliver-Delivered :
      (f : MessageFaults) (now : ℕ) (m : OutboxMessage) (t : T.Rows) (s : List Event)
      → m.status ≡ OutboxStatus.pending
      → Delivered now m t s (deliver T f now m t s)
  unfolding deliver
  deliver-Delivered f now m t s p = delivered (Bool-cases f.publish) (Bool-cases f.save)
    where
      delivered :
          (f.publish ≡ true) ⊎ (f.publish ≡ false)
          → (f.save ≡ true) ⊎ (f.save ≡ false)
          → Delivered now m t s (deliver T f now m t s)
      delivered (inl e) _ = rw e (
          save_failure-Delivered f.resave now m m t s s (failed refl)
            (λ e. elim (mark_failure-published m p e) [ ]) (λ e k. k))
      delivered (inr e) (inl h) =
          rw (e, h)
            (save_failure-Delivered f.resave now m (mark_published now m) t s (s ++ event_of m ∷ [])
              (published_unsaved refl) (λ e. Sent-append_last (event_of m) s)
              (λ e k. Sent-append_l e s (event_of m ∷ []) k))
      delivered (inr e) (inr h) =
          rw (e, h)
            (wrote (mark_published now m) (s ++ event_of m ∷ []) refl (published refl)
              (λ e. Sent-append_last (event_of m) s) (λ e k. Sent-append_l e s (event_of m ∷ []) k))
