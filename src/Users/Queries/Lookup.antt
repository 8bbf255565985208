-- ===== src/Users/Queries/Lookup.antt =====
-- What the queries answer: a new user is found, and the password of a validation is not read.
use skill_up.Base.{ap, ◌≡◌, refl, ◌∙◌, false, some}
use skill_up.Text.{Text, text_eq, text_eq_refl, trim}
use skill_up.Shared.{UserRole, UserStatus}
use skill_up.Services.{Services, IsDatabase, same_id}
use skill_up.Effects.{World, ok, ◌>>=◌}
use skill_up.Users.Verify.{normalize_email}
use skill_up.Users.Register.{
  CreateUserRequest, RegisterFaults, Draw, temp_key_of, photo_of, user_id_of, new_user, create_user,
}
use skill_up.Users.Register.Stored.{find-with_photo, new_user_found}
use skill_up.Users.Register.Outcome.{create_user-Created}
use skill_up.Users.Queries.{user_response, find_user_by_id, validate_user}

module _ (S : Services) (db : IsDatabase S) where
  registered_found :
      (f : RegisterFaults) (r : CreateUserRequest) (draw : Draw) (i : Text) (w w' : World S)
      → create_user S f r draw w ≡ ok i w'
      → S.find_user (same_id i) w'.rows ≡ some (new_user S r draw)
  unfolding new_user
  registered_found f r draw i w w' created =
      let h = create_user-Created S f r draw i w w' created in
      let rows = ap (λ (x : World S). x.rows) h.state in
      let id = user_id_of r draw in
      rw (rows, h.reply)
        (find-with_photo S db (same_id id) (temp_key_of r) (new_user S r draw) (photo_of r draw)
            draw _
          ∙ db.find-save_outbox (same_id id) _ _
          ∙ db.find-save_user id (new_user S r draw) w.rows
          ∙ rw (text_eq_refl id) refl)

  -- The id that a registration answers is that of a user: `findUserById` answers with the trimmed name
  -- and the normalised address of the request, a PENDING student, and changes nothing.
  pub find_user_by_id-create_user :
      (f : RegisterFaults) (r : CreateUserRequest) (draw : Draw) (i : Text) (w w' : World S)
      → create_user S f r draw w ≡ ok i w'
      → find_user_by_id S false i w'
        ≡ ok
            (record {
              id = i;
              email = normalize_email r.email;
              username = trim r.username;
              role = UserRole.student;
              status = UserStatus.pending;
              created_at = draw.now;
              updated_at = draw.now;
            })
            w'
  unfolding find_user_by_id user_response new_user
  find_user_by_id-create_user f r draw i w w' created =
      let h = create_user-Created S f r draw i w w' created in
      rw (registered_found f r draw i w w' created, find_user_by_id, ◌>>=◌, h.reply) refl

  -- After a registration that was answered, `validateUser` answers with the new user for the normalised
  -- address of the registration and whatever password, and changes nothing.
  pub validate_user_any_password :
      (f : RegisterFaults) (r : CreateUserRequest) (draw : Draw) (i password : Text)
      (w w' : World S)
      → create_user S f r draw w ≡ ok i w'
      → validate_user S false (record { email = normalize_email r.email; password = password }) w'
        ≡ ok
            (record {
              id = i;
              email = normalize_email r.email;
              username = trim r.username;
              role = UserRole.student;
              status = UserStatus.pending;
              created_at = draw.now;
              updated_at = draw.now;
            })
            w'
  unfolding validate_user user_response new_user
  validate_user_any_password f r draw i password w w' created =
      let h = create_user-Created S f r draw i w w' created in
      let rows = ap (λ (x : World S). x.rows) h.state in
      let found : S.find_user (λ u. text_eq u.email (normalize_email r.email)) w'.rows
          ≡ some (new_user S r draw) =
        rw rows (new_user_found S db r draw w.rows h.free) in
      rw (found, validate_user, ◌>>=◌, h.reply) refl
