-- ===== src/Users/Register/Keeps.antt =====
-- What `createUser` can do to Redis, on every path: it writes the code and the cooldown, marks the
-- photo of the request, and deletes the code.
use skill_up.Base.{ℕ, suc, ◌≡◌, refl, Bool, true, false, Option, none, some, [], ◌∷◌, if◌then◌else◌}
use skill_up.Text.{Text, codes, trim}
use skill_up.Shared.{User, GrpcStatus}
use skill_up.Services.{Services}
use skill_up.Effects.{
  Thrown, rpc, rejected, World, Run, ok, err, M, call, catch, pure, throw, branch, reads, writes,
  queries, saves, state,
}
use skill_up.Effects.Transaction.{begin, finally, roll_back}
use skill_up.Effects.Keeps.{Keeps, Keeps->>=, Keeps-call, Keeps-branch, Keeps-catch}
use skill_up.Users.Keys.{otp_key, cooldown_key, upload_key}
use skill_up.Users.Verify.{normalize_email}
use skill_up.Users.Register.{
  CreateUserRequest, RegisterFaults, Draw, temp_key_of, user_id_of, photo_of, clashes, is_consumed,
  consumed, consumed_message, email_message, new_user, refuse_duplicate, prepare, consume_upload,
  photo_event, record_events, drop_code, as_rpc, register_error, fail, complete,
  attempt_registration, create_user,
}

module _ (S : Services) (f : RegisterFaults) (r : CreateUserRequest) (draw : Draw)
    (P : S.Store → Type 0)
    (code : (s : S.Store)
      → P s
      → P (S.set_ex (otp_key (normalize_email r.email)) (S.sha256 draw.code) 600 s))
    (cooldown : (s : S.Store)
      → P s
      → P (S.set_ex (cooldown_key (normalize_email r.email)) (codes "1") 60 s))
    (mark : (c : ℕ) (k : Text) (s : S.Store)
      → temp_key_of r ≡ c ∷ k
      → P s
      → P (S.set_ex (upload_key (c ∷ k)) consumed 600 s))
    (drop : (s : S.Store) → P s → P (S.del (otp_key (normalize_email r.email)) s)) where
  refuse_duplicate-Keeps :
      (found : Option User) → Keeps P (refuse_duplicate S f (normalize_email r.email) found)
  unfolding refuse_duplicate
  refuse_duplicate-Keeps none w p = p
  refuse_duplicate-Keeps (some u) w p = p

  prepare-Keeps : Keeps P (prepare S f r draw)
  unfolding prepare
  prepare-Keeps =
      Keeps->>= P
        (call f.find (queries (S.find_user (clashes (normalize_email r.email) (trim r.username)))))
        _ (Keeps-call P f.find _ (λ w p. p))
        (λ found.
          Keeps->>= P (refuse_duplicate S f (normalize_email r.email) found) _
            (refuse_duplicate-Keeps found)
            (λ _. Keeps->>= P (call f.hash (pure tt)) _ (Keeps-call P f.hash _ (λ w p. p)) (λ _.
              Keeps->>= P (call f.save_user (saves (S.save_user (new_user S r draw)))) _
                (Keeps-call P f.save_user _ (λ w p. p))
                (λ _.
                  Keeps->>= P
                    (call f.set_otp (
                      writes
                        (S.set_ex (otp_key (normalize_email r.email)) (S.sha256 draw.code) 600)))
                    _ (Keeps-call P f.set_otp _ (λ w p. code w.store p))
                    (λ _. Keeps-call P f.set_cooldown _ (λ w p. cooldown w.store p))))))

  photo_event-Keeps :
      (k : Text) (u : User) (photo : Text)
      → temp_key_of r ≡ k
      → Keeps P (photo_event S f k u photo draw)
  unfolding photo_event consume_upload
  photo_event-Keeps [] u photo e = λ w p. p
  photo_event-Keeps (c ∷ k) u [] e = λ w p. p
  photo_event-Keeps (c ∷ k) u (d ∷ t) e =
      Keeps->>= P (call f.get_upload (reads (S.get (upload_key (c ∷ k))))) _
        (Keeps-call P f.get_upload _ (λ w p. p))
        (λ status.
          Keeps->>= P
            (branch (is_consumed status) (throw (rpc GrpcStatus.already_exists consumed_message))
              (pure tt))
            _ (Keeps-branch P (is_consumed status) _ _ (λ w p. p) (λ w p. p))
            (λ _.
              Keeps->>= P (call f.set_upload (writes (S.set_ex (upload_key (c ∷ k)) consumed 600)))
                _ (Keeps-call P f.set_upload _ (λ w p. mark c k w.store e p))
                (λ _. Keeps-call P f.save_photo _ (λ w p. p))))

  record_events-Keeps : Keeps P (record_events S f r draw)
  unfolding record_events
  record_events-Keeps =
      Keeps->>= P
        (call f.save_email (saves (S.save_outbox (email_message (new_user S r draw) draw)))) _
        (Keeps-call P f.save_email _ (λ w p. p))
        (λ _. photo_event-Keeps (temp_key_of r) (new_user S r draw) (photo_of r draw) refl)

  register_error-Keeps :
      (stored : Bool) (e : Thrown) → Keeps P (register_error S f stored (normalize_email r.email) e)
  unfolding register_error drop_code
  register_error-Keeps stored e =
      Keeps->>= P (branch stored (catch remove ignore) (pure tt)) _
        (Keeps-branch P stored (catch remove ignore) (pure tt)
          (Keeps-catch P remove ignore (Keeps-call P f.del_otp delete (λ w p. drop w.store p))
            (λ e w p. p))
          (λ w p. p))
        (λ _. thrown_on e)
    where
      delete : M S (Unit {0})
      delete = writes (S.del (otp_key (normalize_email r.email)))

      remove : M S (Unit {0})
      remove = call f.del_otp delete

      ignore : Thrown → M S (Unit {0})
      ignore e = pure tt

      thrown_on : (e : Thrown) → Keeps P (as_rpc S f e)
      thrown_on (rpc c m) w p = p
      thrown_on rejected w p = p

  finally-Keeps :
      (down : Bool) (q : Run S Text) → P (state q).store → P (state (finally down q)).store
  unfolding finally
  finally-Keeps true (ok a w) p = p
  finally-Keeps false (ok a w) p = p
  finally-Keeps true (err e w) p = p
  finally-Keeps false (err e w) p = p

  roll_back-Keeps :
      (down : Bool) (handler : Thrown → M S Text) (before : S.Rows) (e : Thrown) (w : World S)
      → Keeps P (handler e)
      → P w.store
      → P (state (roll_back down handler before e w)).store
  unfolding roll_back
  roll_back-Keeps true handler before e w h p = p
  roll_back-Keeps false handler before e w h p = h (record w { rows = before }) p

  fail-Keeps :
      (stored : Bool) (before : S.Rows) (e : Thrown) (w : World S)
      → P w.store
      → P (state (fail S f stored (normalize_email r.email) before e w)).store
  unfolding fail
  fail-Keeps stored before e w p = finally-Keeps f.tx.release _ (
      roll_back-Keeps f.tx.rollback (register_error S f stored (normalize_email r.email)) before e w
        (register_error-Keeps stored e) p)

  complete-Keeps :
      (before : S.Rows) (w : World S) → P w.store → P (state (complete S f r draw before w)).store
  unfolding complete
  complete-Keeps before w p = go (record_events S f r draw w) (record_events-Keeps w p)
    where
      committed :
          (lost : Bool) (v : World S)
          → P v.store
          → P
              (state (
                if lost
                then fail S f true (normalize_email r.email) before rejected v
                else finally f.tx.release
                    (ok (user_id_of r draw) (record v { triggers = suc v.triggers })))).store
      committed true v q = fail-Keeps true before rejected v q
      committed false v q = finally-Keeps f.tx.release _ q

      go :
          (q : Run S (Unit {0}))
          → P (state q).store
          → P
              (state (elim q as (λ _. Run S Text) [
                | err e v ↦ fail S f true (normalize_email r.email) before e v
                | ok _ v ↦
                    if f.tx.commit
                    then fail S f true (normalize_email r.email) before rejected v
                    else finally f.tx.release
                        (ok (user_id_of r draw) (record v { triggers = suc v.triggers }))
              ])).store
      go (err e v) q = fail-Keeps true before e v q
      go (ok _ v) q = committed f.tx.commit v q

  attempt-Keeps : Keeps P (attempt_registration S f r draw)
  unfolding attempt_registration
  attempt-Keeps w p = go (prepare S f r draw w) (prepare-Keeps w p)
    where
      go :
          (q : Run S (Unit {0}))
          → P (state q).store
          → P
              (state (elim q as (λ _. Run S Text) [
                | err e v ↦ fail S f false (normalize_email r.email) w.rows e v
                | ok _ v ↦ complete S f r draw w.rows v
              ])).store
      go (err e v) q = fail-Keeps false w.rows e v q
      go (ok _ v) q = complete-Keeps w.rows v q

  -- A property of Redis that these four writes keep is kept by a registration, answered or not.
  pub create_user-Keeps : Keeps P (create_user S f r draw)
  unfolding create_user begin
  create_user-Keeps w p = began f.tx.connect f.tx.start
    where
      began : (c t : Bool) → P (state (begin c t w (attempt_registration S f r draw w))).store
      began true t = p
      began false true = p
      began false false = attempt-Keeps w p
