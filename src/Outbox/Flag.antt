-- ===== src/Outbox/Flag.antt =====
-- The flag `isProcessing`, which keeps two runs apart.
use skill_up.Base.{◌≡◌, refl, true, false, List, [], ◌∷◌, ◌||◌, Bool-cases, inl, inr}
use skill_up.Outbox.{RunFaults, Worker, process_outbox_messages}
use skill_up.Outbox.Table.{OutboxTable}

module _ {T : OutboxTable} where
  -- Runs one after the other, as the timer and the triggers start them.
  unfoldable pub runs : List RunFaults → Worker T → Worker T
  runs [] w = w
  runs (f ∷ fs) w = runs fs (process_outbox_messages T f w)

  -- A run that starts leaves the flag reset exactly where the connection, the start of the
  -- transaction and its release all answer; rejections between those do not matter.
  pub process_outbox_messages-is_processing :
      (f : RunFaults) (w : Worker T)
      → w.is_processing ≡ false
      → (process_outbox_messages T f w).is_processing ≡ (f.connect || f.start || f.release)
  unfolding process_outbox_messages
  process_outbox_messages-is_processing f w e = elim (Bool-cases f.connect) [
    | inl c ↦ rw (e, c) refl
    | inr c ↦ elim (Bool-cases f.start) [ inl b ↦ rw (e, c, b) refl | inr b ↦ rw (e, c, b) refl ]
  ]

  blocked_runs : (fs : List RunFaults) (w : Worker T) → w.is_processing ≡ true → runs fs w ≡ w
  unfolding runs process_outbox_messages
  blocked_runs [] w e = refl
  blocked_runs (f ∷ fs) w e = simp e (blocked_runs fs w e)

  -- One rejected connection stops the worker: no run after it changes the table, sends an event or
  -- resets the flag, even if every call answers again.
  pub connect_blocks :
      (f : RunFaults) (fs : List RunFaults) (w : Worker T)
      → w.is_processing ≡ false
      → f.connect ≡ true
      → runs (f ∷ fs) w ≡ record w { is_processing = true }
  unfolding runs process_outbox_messages
  connect_blocks f fs w e c = rw (e, c) (blocked_runs fs (record w { is_processing = true }) refl)
