-- ===== src/Outbox/Prune.antt =====
-- What the hourly `prunePublishedMessages` deletes.
use skill_up.Base.{
  ℕ, ◌-◌, ◌*◌, ◌<◌, ◌≡◌, ◌↔◌, refl, sym, ◌∙◌, Bool, true, false, Option, none, some, if◌then◌else◌,
  arith, ltb, both_true,
}
use skill_up.Text.{Text}
use skill_up.Shared.{OutboxMessage, OutboxStatus}
use skill_up.Outbox.{is_published, before, prunable, prune_published_messages}
use skill_up.Outbox.Table.{OutboxTable, IsOutboxTable}

-- Published, and before the cutoff.
abbrev pub IsPrunable : ℕ → OutboxMessage → Type 0
IsPrunable cutoff m =
    (m.status ≡ OutboxStatus.published) × ((t : ℕ) × ((m.processed_at ≡ some t) × (t < cutoff)))

before_some : (t x cutoff : ℕ) → some t ≡ some x → x < cutoff → ltb t cutoff ≡ true
before_some t x cutoff e lt = let same : t ≡ x = cc in ground arith

before_iff :
    (cutoff : ℕ) (o : Option ℕ)
    → (before cutoff o ≡ true) ↔ ((t : ℕ) × ((o ≡ some t) × (t < cutoff)))
before_iff cutoff none = (λ e. cc, λ (t, (e, _)). cc)
before_iff cutoff (some t) =
    (λ e. (t, (refl, ground arith)), λ (x, (e, lt)). before_some t x cutoff e lt)

published_eq : (x : OutboxStatus) → is_published x ≡ true → x ≡ OutboxStatus.published
published_eq OutboxStatus.pending e = cc
published_eq OutboxStatus.processing e = cc
published_eq OutboxStatus.published e = refl
published_eq OutboxStatus.failed e = cc

prunable_iff : (cutoff : ℕ) (m : OutboxMessage) → (prunable cutoff m ≡ true) ↔ IsPrunable cutoff m
unfolding prunable
prunable_iff cutoff m = (
  λ e.
      let (a, b) = both_true (is_published m.status) (before cutoff m.processed_at) e in
      (published_eq m.status a, (before_iff cutoff m.processed_at).0 b),
  λ (a, b). rw (a, (before_iff cutoff m.processed_at).1 b) refl,
)

keep_unless_none :
    (b : Bool) (m : OutboxMessage) → ((if b then none else some m) ≡ none) ↔ (b ≡ true)
keep_unless_none true m = (λ _. refl, λ _. refl)
keep_unless_none false m = (λ e. cc, λ e. cc)

-- The hourly pruning, where its query answers, deletes a stored row exactly if it is PUBLISHED and
-- was processed before the cutoff, so many hours ago.
pub prune_published_messages-row :
    {T : OutboxTable} (law : IsOutboxTable T) (i : Text) (m : OutboxMessage) (hours now : ℕ)
    (t : T.Rows)
    → law.row i t ≡ some m
    → (law.row i (prune_published_messages T false hours now t) ≡ none)
      ↔ IsPrunable (now - hours * 60 * 60 * 1000) m
unfolding prune_published_messages
prune_published_messages-row {T} law i m hours now t e =
    let cutoff = now - hours * 60 * 60 * 1000 in
    let k = keep_unless_none (prunable cutoff m) m in
    let p = prunable_iff cutoff m in
    let r : law.row i (T.delete_where (prunable cutoff) t)
        ≡ (if prunable cutoff m then none else some m) =
      law.row-delete_where i (prunable cutoff) t ∙ rw e refl in
    (λ h. p.0 (k.0 (sym r ∙ h)), λ h. r ∙ k.1 (p.1 h))
