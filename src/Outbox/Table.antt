-- ===== src/Outbox/Table.antt =====
-- The table `outbox_messages` behind the query builder, which is not the repository's code: its
-- operations, and what the worker relies on of them.
use skill_up.Base.{
  ℕ, ◌≤◌, ◌≡◌, Bool, true, false, Option, none, some, List, [], ◌∷◌, if◌then◌else◌, length, All,
}
use skill_up.Text.{Text, text_eq}
use skill_up.Shared.{OutboxMessage, is_pending}

pub record OutboxTable : Type 1 where
  pub Rows : Type 0
  -- SELECT … FOR UPDATE SKIP LOCKED: the oldest PENDING rows, at most so many.
  pub fetch_pending : ℕ → Rows → List OutboxMessage
  pub save : OutboxMessage → Rows → Rows
  pub delete_where : (OutboxMessage → Bool) → Rows → Rows

abbrev pub keep_unless : (OutboxMessage → Bool) → Option OutboxMessage → Option OutboxMessage
keep_unless p none = none
keep_unless p (some m) = if p m then none else some m

-- The ids of the list are distinct.
abbrev pub Distinct : List OutboxMessage → Type 0
Distinct [] = Unit
Distinct (m ∷ ms) = All (λ x. text_eq m.id x.id ≡ false) ms × Distinct ms

pub record IsOutboxTable (T : OutboxTable) : Type 0 where
  pub row : Text → T.Rows → Option OutboxMessage
  pub row-save :
      (i : Text) (m : OutboxMessage) (t : T.Rows)
      → row i (T.save m t) ≡ (if text_eq m.id i then some m else row i t)
  pub row-delete_where :
      (i : Text) (p : OutboxMessage → Bool) (t : T.Rows)
      → row i (T.delete_where p t) ≡ keep_unless p (row i t)
  pub fetch-row : (n : ℕ) (t : T.Rows) → All (λ m. row m.id t ≡ some m) (T.fetch_pending n t)
  pub fetch-is_pending :
      (n : ℕ) (t : T.Rows) → All (λ m. is_pending m.status ≡ true) (T.fetch_pending n t)
  pub fetch-length : (n : ℕ) (t : T.Rows) → length (T.fetch_pending n t) ≤ n
  pub fetch-Distinct : (n : ℕ) (t : T.Rows) → Distinct (T.fetch_pending n t)
