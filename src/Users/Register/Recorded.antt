-- ===== src/Users/Register/Recorded.antt =====
-- What is read of a registration that was answered: the row of the user, the code, the cooldown, the
-- mark on the upload, and the messages of the outbox.
use skill_up.Base.{ap, ◌∙◌, suc, ◌≡◌, refl, false, none, some, [], ◌∷◌, arith}
use skill_up.Text.{Text, codes, text_eq, text_eq_refl, trim, or_else}
use skill_up.Shared.{
  User, UserRole, UserStatus, OutboxMessage, OutboxStatus, verification_email, profile_photo,
}
use skill_up.Services.{Services, IsRedis, IsDatabase, same_id, seconds}
use skill_up.Effects.{World, ok}
use skill_up.Users.Keys.{
  otp_key, cooldown_key, upload_key, upload_otp_apart, upload_cooldown_apart, cooldown_otp_apart,
}
use skill_up.Users.Verify.{normalize_email}
use skill_up.Users.Register.{
  CreateUserRequest, RegisterFaults, Draw, or_null, temp_key_of, user_id_of, photo_of, clashes,
  consumed, new_user, create_user,
}
use skill_up.Users.Register.Steps.{with_photo, with_code, with_mark, Unused}
use skill_up.Users.Register.Stored.{find-with_photo, code_stored, get-with_mark}
use skill_up.Users.Register.Outcome.{create_user-Created}

-- The row of the new user, from the request.
abbrev pub pending_user : (S : Services) → CreateUserRequest → Draw → User
pending_user S r draw = record {
  id = or_else r.id draw.uuid;
  username = trim r.username;
  email = normalize_email r.email;
  password = S.bcrypt_hash r.password draw.salt;
  role = UserRole.student;
  status = UserStatus.pending;
  profile_photo = or_null (photo_of r draw);
  birth_date = or_null (or_else r.birth_date r.birth_date_alias);
  created_at = draw.now;
  updated_at = draw.now;
}

-- The message with the code.
abbrev pub code_message : CreateUserRequest → Draw → OutboxMessage
code_message r draw = record {
  id = draw.email_message_id;
  event_type = codes "SEND_VERIFICATION_EMAIL";
  payload = verification_email (normalize_email r.email) draw.code (trim r.username);
  status = OutboxStatus.pending;
  retry_count = 0;
  created_at = draw.now;
  processed_at = none;
}

-- The message with the photo, where the request has an upload and a photo.
abbrev pub with_photo_message : (S : Services) → Text → Text → Text → Draw → S.Rows → S.Rows
with_photo_message S [] user_id photo draw t = t
with_photo_message S (c ∷ k) user_id [] draw t = t
with_photo_message S (c ∷ k) user_id (d ∷ p) draw t =
    S.save_outbox
      (record {
        id = draw.photo_message_id;
        event_type = codes "PROCESS_PROFILE_PHOTO";
        payload = profile_photo user_id (c ∷ k) (d ∷ p);
        status = OutboxStatus.pending;
        retry_count = 0;
        created_at = draw.now;
        processed_at = none;
      })
      t

-- The upload is CONSUMED for ten minutes, where the request has an upload and a photo.
abbrev pub Marked : (S : Services) → Text → Text → S.Store → Type 0
Marked S [] photo s = Unit
Marked S (c ∷ t) [] s = Unit
Marked S (c ∷ t) (d ∷ p) s =
    (S.get (upload_key (c ∷ t)) s ≡ some (codes "CONSUMED"))
    × (S.ttl (upload_key (c ∷ t)) s ≡ seconds 600)

module _ (S : Services) (redis : IsRedis S) where
  mark_read : (tk photo : Text) (s : S.Store) → Marked S tk photo (with_mark S tk photo s)
  mark_read [] photo s = tt
  mark_read (c ∷ t) [] s = tt
  mark_read (c ∷ t) (d ∷ p) s =
      let k = upload_key (c ∷ t) in
      (
        redis.get-set_ex k k consumed 600 s (omega arith) ∙ rw (text_eq_refl k) refl,
        redis.ttl-set_ex k k consumed 600 s (omega arith) ∙ rw (text_eq_refl k) refl,
      )

  ttl-with_mark :
      (k tk photo : Text) (s : S.Store)
      → ((a : Text) → text_eq (upload_key a) k ≡ false)
      → S.ttl k (with_mark S tk photo s) ≡ S.ttl k s
  ttl-with_mark k [] photo s apart = refl
  ttl-with_mark k (c ∷ t) [] s apart = refl
  ttl-with_mark k (c ∷ t) (d ∷ p) s apart =
      redis.ttl-set_ex k (upload_key (c ∷ t)) consumed 600 s (omega arith) ∙ rw (apart (c ∷ t)) refl

  code_ttl :
      (tk photo email code : Text) (s : S.Store)
      → S.ttl (otp_key email) (with_mark S tk photo (with_code S email code s)) ≡ seconds 600
  code_ttl tk photo email code s =
      let k = otp_key email in
      ttl-with_mark k tk photo (with_code S email code s) (λ a. upload_otp_apart a email)
      ∙ redis.ttl-set_ex k (cooldown_key email) (codes "1") 60 _ (omega arith)
      ∙ rw (cooldown_otp_apart email email)
          (redis.ttl-set_ex k k (S.sha256 code) 600 s (omega arith) ∙ rw (text_eq_refl k) refl)

  cooldown_read :
      (tk photo email code : Text) (s : S.Store)
      → let s' = with_mark S tk photo (with_code S email code s) in
        (S.get (cooldown_key email) s' ≡ some (codes "1"))
        × (S.ttl (cooldown_key email) s' ≡ seconds 60)
  cooldown_read tk photo email code s =
      let k = cooldown_key email in
      (
        get-with_mark S redis k tk photo (with_code S email code s)
              (λ a. upload_cooldown_apart a email)
            ∙ redis.get-set_ex k k (codes "1") 60 _ (omega arith)
            ∙ rw (text_eq_refl k) refl,
        ttl-with_mark k tk photo (with_code S email code s) (λ a. upload_cooldown_apart a email)
            ∙ redis.ttl-set_ex k k (codes "1") 60 _ (omega arith)
            ∙ rw (text_eq_refl k) refl,
      )

photo_message_lem :
    (S : Services) (tk photo : Text) (u : User) (draw : Draw) (t : S.Rows)
    → with_photo S tk u photo draw t ≡ with_photo_message S tk u.id photo draw t
photo_message_lem S [] photo u draw t = refl
photo_message_lem S (c ∷ k) [] u draw t = refl
photo_message_lem S (c ∷ k) (d ∷ p) u draw t = refl

module _ (S : Services) where
  -- What a registration that is answered has checked, and what is read after it.
  pub record Recorded (r : CreateUserRequest) (draw : Draw) (i : Text) (w w' : World S)
      : Type 0 where
    pub free : S.find_user (clashes (normalize_email r.email) (trim r.username)) w.rows ≡ none
    pub unused :
        Unused S
          (temp_key_of r)
          (photo_of r draw)
          (with_code S (normalize_email r.email) draw.code w.store)
    pub reply : i ≡ or_else r.id draw.uuid
    pub user : S.find_user (same_id i) w'.rows ≡ some (pending_user S r draw)
    pub rows :
        w'.rows
        ≡ with_photo_message S
            (temp_key_of r)
            i
            (photo_of r draw)
            draw
            (S.save_outbox (code_message r draw) (S.save_user (pending_user S r draw) w.rows))
    pub code : S.get (otp_key (normalize_email r.email)) w'.store ≡ some (S.sha256 draw.code)
    pub code_ttl : S.ttl (otp_key (normalize_email r.email)) w'.store ≡ seconds 600
    pub cooldown : S.get (cooldown_key (normalize_email r.email)) w'.store ≡ some (codes "1")
    pub cooldown_ttl : S.ttl (cooldown_key (normalize_email r.email)) w'.store ≡ seconds 60
    pub mark : Marked S (temp_key_of r) (photo_of r draw) w'.store
    pub triggers : w'.triggers ≡ suc w.triggers

  -- A registration that is answered found no user of that email or username and no consumed upload.
  -- After it the id of the answer is that of a PENDING student with the trimmed name, the normalised
  -- address and the hashed password of the request; Redis has the hash of the code for ten minutes,
  -- the cooldown for one, and the upload, if there is one with a photo, as CONSUMED for ten minutes;
  -- what was written to the tables is that user, a PENDING message with the code for its address, and
  -- for an upload with a photo a PENDING message with both keys; and the worker was triggered once.
  pub create_user-Recorded :
      (redis : IsRedis S) (db : IsDatabase S) (f : RegisterFaults) (r : CreateUserRequest)
      (draw : Draw) (i : Text) (w w' : World S)
      → create_user S f r draw w ≡ ok i w'
      → Recorded r draw i w w'
  unfolding new_user
  create_user-Recorded redis db f r draw i w w' created =
      let h = create_user-Created S f r draw i w w' created in
      let rows = ap (λ (x : World S). x.rows) h.state in
      let store = ap (λ (x : World S). x.store) h.state in
      let email = normalize_email r.email in
      let tk = temp_key_of r in
      let photo = photo_of r draw in
      let id = user_id_of r draw in
      record {
        free = h.free;
        unused = h.unused;
        reply = h.reply;
        user =
            rw (rows, h.reply)
              (find-with_photo S db (same_id id) tk (new_user S r draw) photo draw _
                ∙ db.find-save_outbox (same_id id) _ _
                ∙ db.find-save_user id (new_user S r draw) w.rows
                ∙ rw (text_eq_refl id) refl);
        rows = rw (rows, h.reply) (photo_message_lem S tk photo (new_user S r draw) draw _);
        code = rw store (code_stored S redis tk photo email draw.code w.store);
        code_ttl = rw store (code_ttl S redis tk photo email draw.code w.store);
        cooldown = rw store ((cooldown_read S redis tk photo email draw.code w.store).0);
        cooldown_ttl = rw store ((cooldown_read S redis tk photo email draw.code w.store).1);
        mark = rw store (mark_read S redis tk photo (with_code S email draw.code w.store));
        triggers = ap (λ (x : World S). x.triggers) h.state;
      }
