-- ===== src/Users/Register/Rollback.antt =====
-- What a registration that failed leaves behind, in the tables and in Redis.
use skill_up.Base.{
  suc, ap, ◌∙◌, ◌≡◌, refl, Bool, true, false, [], ◌∷◌, arith, ◌⊎◌, inl, inr, if◌then◌else◌,
}
use skill_up.Text.{Text}
use skill_up.Shared.{User}
use skill_up.Services.{Services}
use skill_up.Effects.{Thrown, rpc, rejected, World, Run, ok, err, call, saves}
use skill_up.Effects.Transaction.{begin, roll_back, finally}
use skill_up.Effects.Inversion.{>>=-err}
use skill_up.Users.Keys.{otp_key}
use skill_up.Users.Verify.{normalize_email}
use skill_up.Users.Register.{
  CreateUserRequest, RegisterFaults, Draw, temp_key_of, user_id_of, photo_of, email_message,
  new_user, refuse_duplicate, prepare, consume_upload, photo_event, record_events, drop_code,
  register_error, fail, complete, attempt_registration, create_user,
}
use skill_up.Users.Register.Steps.{with_photo, registered, prepare-ok, record_events-ok}

module _ (S : Services) (f : RegisterFaults) where
  -- The tables are those from before.
  pub fail-rows :
      (stored : Bool) (email : Text) (before : S.Rows) (e : Thrown) (w v : World S) {e' : Thrown}
      → fail S f stored email before e w ≡ err e' v
      → (v.rows ≡ before) × (v.triggers ≡ w.triggers)
  unfolding fail finally roll_back register_error drop_code
  fail-rows stored email before (rpc c m) w v h = ground arith
  fail-rows stored email before rejected w v h = ground arith

  -- Where the rollback and the deletion answer, a stored code is deleted.
  pub fail-code :
      (email : Text) (before : S.Rows) (e : Thrown) (w v : World S) {e' : Thrown}
      → f.tx.rollback ≡ false
      → f.del_otp ≡ false
      → fail S f true email before e w ≡ err e' v
      → v.store ≡ S.del (otp_key email) w.store
  unfolding fail finally roll_back register_error drop_code
  fail-code email before (rpc c m) w v a b h = ground arith
  fail-code email before rejected w v a b h = ground arith

  prepare-triggers :
      (r : CreateUserRequest) (draw : Draw) (w v : World S) {e : Thrown}
      → prepare S f r draw w ≡ err e v
      → v.triggers ≡ w.triggers
  unfolding prepare refuse_duplicate
  prepare-triggers r draw w v h = ground arith

  photo_event-triggers :
      (k : Text) (u : User) (photo : Text) (draw : Draw) (w v : World S) {e : Thrown}
      → photo_event S f k u photo draw w ≡ err e v
      → v.triggers ≡ w.triggers
  unfolding photo_event consume_upload
  photo_event-triggers [] u photo draw w v h = cc
  photo_event-triggers (c ∷ k) u [] draw w v h = cc
  photo_event-triggers (c ∷ k) u (d ∷ p) draw w v h = ground arith

  record_events-triggers :
      (r : CreateUserRequest) (draw : Draw) (w v : World S) {e : Thrown}
      → record_events S f r draw w ≡ err e v
      → v.triggers ≡ w.triggers
  unfolding record_events
  record_events-triggers r draw w v h = elim (>>=-err (call f.save_email (saves save)) _ w h) [
    | inl first ↦ save-triggers f.save_email w v first
    | inr (u, x, a, b) ↦
        photo_event-triggers (temp_key_of r) (new_user S r draw) (photo_of r draw) draw x v b
        ∙ saved-triggers f.save_email w x a
  ]
    where
      save : S.Rows → S.Rows
      save = S.save_outbox (email_message (new_user S r draw) draw)

      save-triggers :
          (down : Bool) (w v : World S) {e : Thrown}
          → call down (saves save) w ≡ err e v
          → v.triggers ≡ w.triggers
      save-triggers down w v h = ground arith

      saved-triggers :
          (down : Bool) (w v : World S) {u : Unit {0}}
          → call down (saves save) w ≡ ok u v
          → v.triggers ≡ w.triggers
      saved-triggers down w v h = ground arith

  -- A failure left the tables `before` and asked for no delivery, or it followed the commit: the
  -- release of the connection rejected.
  abbrev Failed : CreateUserRequest → Draw → S.Rows → World S → World S → Type 0
  Failed r draw before w v =
      ((v.rows ≡ before) × (v.triggers ≡ w.triggers))
      ⊎ ((f.tx.release ≡ true)
          × ((x : World S) × (record_events S f r draw w ≡ ok tt x)
              × (v ≡ record x { triggers = suc x.triggers })))

  finally-late :
      (down : Bool) (i : Text) (x v : World S) {e : Thrown}
      → finally {S = S} down (ok i x) ≡ err e v
      → (down ≡ true) × (v ≡ x)
  unfolding finally
  finally-late down i x v h = (ground arith, ground arith)

  complete-err :
      (r : CreateUserRequest) (draw : Draw) (before : S.Rows) (w v : World S) {e : Thrown}
      → complete S f r draw before w ≡ err e v
      → Failed r draw before w v
  unfolding complete
  complete-err r draw before w v {e} h = go (record_events S f r draw w) refl h
    where
      late :
          (down : Bool) (x : World S)
          → record_events S f r draw w ≡ ok tt x
          → (if down
              then fail S f true (normalize_email r.email) before rejected x
              else finally f.tx.release
                  (ok (user_id_of r draw) (record x { triggers = suc x.triggers })))
            ≡ err e v
          → Failed r draw before w v
      late true x q k =
          let (a, b) = fail-rows true (normalize_email r.email) before rejected x v k in
          inl (a, b ∙ ap (λ (y : World S). y.triggers) (record_events-ok S f r draw w x q).1)
      late false x q k =
          let (a, b) =
            finally-late f.tx.release (user_id_of r draw) (record x { triggers = suc x.triggers }) v
              k in
          inr (a, (x, q, b))

      go :
          (y : Run S (Unit {0}))
          → record_events S f r draw w ≡ y
          → elim y [
            | err e x ↦ fail S f true (normalize_email r.email) before e x
            | ok _ x ↦
                if f.tx.commit
                then fail S f true (normalize_email r.email) before rejected x
                else finally f.tx.release
                    (ok (user_id_of r draw) (record x { triggers = suc x.triggers }))
          ]
            ≡ err e v
          → Failed r draw before w v
      go (err d x) q k =
          let (a, b) = fail-rows true (normalize_email r.email) before d x v k in
          inl (a, b ∙ record_events-triggers r draw w x q)
      go (ok _ x) q k = late f.tx.commit x q k

  attempt-Failed :
      (r : CreateUserRequest) (draw : Draw) (w v : World S) {e : Thrown}
      → attempt_registration S f r draw w ≡ err e v
      → ((v.rows ≡ w.rows) × (v.triggers ≡ w.triggers))
        ⊎ ((x : World S) × (prepare S f r draw w ≡ ok tt x) × Failed r draw w.rows x v)
  unfolding attempt_registration
  attempt-Failed r draw w v {e} h = go (prepare S f r draw w) refl h
    where
      go :
          (y : Run S (Unit {0}))
          → prepare S f r draw w ≡ y
          → elim y [
            | err d x ↦ fail S f false (normalize_email r.email) w.rows d x
            | ok _ x ↦ complete S f r draw w.rows x
          ]
            ≡ err e v
          → ((v.rows ≡ w.rows) × (v.triggers ≡ w.triggers))
            ⊎ ((x : World S) × (prepare S f r draw w ≡ ok tt x) × Failed r draw w.rows x v)
      go (err d x) q k =
          let (a, b) = fail-rows false (normalize_email r.email) w.rows d x v k in
          inl (a, b ∙ prepare-triggers r draw w x q)
      go (ok _ x) q k = inr (x, q, complete-err r draw w.rows x v k)

  pub begin-err :
      (c t : Bool) (w : World S) (r : Run S Text) {e : Thrown} {v : World S}
      → begin c t w r ≡ err e v
      → (v ≡ w) ⊎ (r ≡ err e v)
  unfolding begin
  begin-err true t w r h = inl cc
  begin-err false true w r h = inl cc
  begin-err false false w r h = inr h

  -- A registration that throws leaves the tables as they were and asks for no delivery, unless the
  -- release of the connection rejected behind the commit: then the user and the events are there and
  -- the worker was triggered once.
  pub create_user-rolled_back :
      (r : CreateUserRequest) (draw : Draw) (e : Thrown) (w v : World S)
      → create_user S f r draw w ≡ err e v
      → ((v.rows ≡ w.rows) × (v.triggers ≡ w.triggers))
        ⊎ ((f.tx.release ≡ true)
            × (v.rows ≡ registered S r draw w.rows)
            × (v.triggers ≡ suc w.triggers))
  unfolding create_user
  create_user-rolled_back r draw e w v h = elim (begin-err f.tx.connect f.tx.start w _ h) [
    | inl same ↦ inl (ap (λ (x : World S). x.rows) same, ap (λ (x : World S). x.triggers) same)
    | inr later ↦ elim (attempt-Failed r draw w v later) [
      | inl same ↦ inl same
      | inr (x, p, failed) ↦ late x p failed
    ]
  ]
    where
      late :
          (x : World S)
          → prepare S f r draw w ≡ ok tt x
          → Failed r draw w.rows x v
          → ((v.rows ≡ w.rows) × (v.triggers ≡ w.triggers))
            ⊎ ((f.tx.release ≡ true)
                × (v.rows ≡ registered S r draw w.rows)
                × (v.triggers ≡ suc w.triggers))
      late x p failed =
          let (_, start) = prepare-ok S f r draw w x p in
          elim failed [
            | inl (a, b) ↦ inl (a, b ∙ ap (λ (y : World S). y.triggers) start)
            | inr (a, (y, q, last)) ↦
                let (_, events) = record_events-ok S f r draw x y q in
                let put : World S → S.Rows = λ (z : World S).
                  with_photo S (temp_key_of r) (new_user S r draw) (photo_of r draw) draw
                    (S.save_outbox (email_message (new_user S r draw) draw) z.rows) in
                inr (
                  a,
                  ap (λ (z : World S). z.rows) last
                      ∙ ap (λ (z : World S). z.rows) events
                      ∙ ap put start,
                  ap (λ (z : World S). z.triggers) last
                      ∙ ap (λ (z : World S). suc z.triggers) events
                      ∙ ap (λ (z : World S). suc z.triggers) start,
                )
          ]
