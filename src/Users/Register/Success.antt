-- ===== src/Users/Register/Success.antt =====
-- A registration whose calls all answer: it succeeds.
use skill_up.Base.{suc, ◌≡◌, refl, none, [], ◌∷◌}
use skill_up.Text.{Text, trim}
use skill_up.Services.{Services}
use skill_up.Shared.{User}
use skill_up.Effects.{World, ok, ◌>>=◌, ◌>>◌}
use skill_up.Effects.Transaction.{begin, finally}
use skill_up.Users.Verify.{normalize_email}
use skill_up.Users.Verify.Success.{no_tx_faults}
use skill_up.Users.Register.{
  CreateUserRequest, RegisterFaults, Draw, temp_key_of, photo_of, user_id_of, clashes, new_user,
  email_message, refuse_duplicate, prepare, consume_upload, photo_event, record_events, complete,
  attempt_registration, create_user,
}
use skill_up.Users.Register.Steps.{with_photo, with_code, with_mark, registered, Unused}
use skill_up.Users.Register.Lost.{commit_lost}

-- Every call answers.
abbrev pub no_register_faults : RegisterFaults
no_register_faults = record (commit_lost []) { tx = no_tx_faults }

module _ (S : Services) (r : CreateUserRequest) (draw : Draw) where
  -- The state that the registration leaves.
  abbrev pub settled : World S → World S
  settled w = record {
    rows = registered S r draw w.rows;
    store =
        with_mark S (temp_key_of r) (photo_of r draw)
          (with_code S (normalize_email r.email) draw.code w.store);
    triggers = suc w.triggers;
  }

  photo_event_lem :
      (tk photo : Text) (u : User) (w : World S)
      → Unused S tk photo w.store
      → photo_event S no_register_faults tk u photo draw w
        ≡ ok tt (record w {
          rows = with_photo S tk u photo draw w.rows;
          store = with_mark S tk photo w.store;
        })
  unfolding photo_event consume_upload
  photo_event_lem [] photo u w h = refl
  photo_event_lem (c ∷ t) [] u w h = refl
  photo_event_lem (c ∷ t) (d ∷ p) u w h = rw h refl

  -- Where every call answers, a registration whose email and username are free, and whose upload is
  -- not consumed if it has one, is answered with the id of the new user.
  pub create_user_complete :
      (w : World S)
      → S.find_user (clashes (normalize_email r.email) (trim r.username)) w.rows ≡ none
      → Unused S
          (temp_key_of r)
          (photo_of r draw)
          (with_code S (normalize_email r.email) draw.code w.store)
      → create_user S no_register_faults r draw w ≡ ok (user_id_of r draw) (settled w)
  unfolding create_user begin attempt_registration prepare refuse_duplicate complete record_events
      finally
  create_user_complete w free unused =
      let u = new_user S r draw in
      let x : World S = record w {
        rows = S.save_outbox (email_message u draw) (S.save_user u w.rows);
        store = with_code S (normalize_email r.email) draw.code w.store;
      } in
      rw
        (
          free,
          create_user,
          begin,
          attempt_registration,
          prepare,
          refuse_duplicate,
          photo_event_lem (temp_key_of r) (photo_of r draw) u x unused,
          complete,
          record_events,
          ◌>>◌,
          ◌>>=◌,
        )
        refl
