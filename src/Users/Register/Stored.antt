-- ===== src/Users/Register/Stored.antt =====
-- What is read after a registration that was answered: the code, the failures counted, the user.
use skill_up.Base.{
  ◌≡◌, refl, ◌∙◌, Bool, true, false, none, some, [], ◌∷◌, arith, Option-cases, inl, inr,
}
use skill_up.Text.{Text, codes, text_eq, text_eq_refl, trim}
use skill_up.Shared.{User}
use skill_up.Services.{Services, IsRedis, IsDatabase}
use skill_up.Users.Keys.{
  otp_key, verify_rate_key, cooldown_key, upload_key, otp_rate_apart, upload_otp_apart,
  cooldown_otp_apart, cooldown_rate_apart, upload_rate_apart,
}
use skill_up.Users.Verify.{normalize_email}
use skill_up.Users.Register.{
  CreateUserRequest, Draw, temp_key_of, photo_of, clashes, consumed, new_user,
}
use skill_up.Users.Register.Steps.{with_photo, with_code, with_mark, registered}

module _ (S : Services) (redis : IsRedis S) where
  pub get-with_mark :
      (k tk photo : Text) (s : S.Store)
      → ((a : Text) → text_eq (upload_key a) k ≡ false)
      → S.get k (with_mark S tk photo s) ≡ S.get k s
  get-with_mark k [] photo s apart = refl
  get-with_mark k (c ∷ t) [] s apart = refl
  get-with_mark k (c ∷ t) (d ∷ p) s apart =
      redis.get-set_ex k (upload_key (c ∷ t)) consumed 600 s (omega arith) ∙ rw (apart (c ∷ t))

  pub code_stored :
      (tk photo email code : Text) (s : S.Store)
      → S.get (otp_key email) (with_mark S tk photo (with_code S email code s))
        ≡ some (S.sha256 code)
  code_stored tk photo email code s =
      let k = otp_key email in
      rw
        (
          get-with_mark k tk photo (with_code S email code s) (λ a. upload_otp_apart a email),
          redis.get-set_ex k (cooldown_key email) (codes "1") 60 (S.set_ex k (S.sha256 code) 600 s)
              (omega arith),
          cooldown_otp_apart email email,
          redis.get-set_ex k k (S.sha256 code) 600 s (omega arith),
          text_eq_refl k,
        )
        refl

  pub rate_kept :
      (tk photo email code : Text) (s : S.Store)
      → S.get (verify_rate_key email) (with_mark S tk photo (with_code S email code s))
        ≡ S.get (verify_rate_key email) s
  rate_kept tk photo email code s =
      let k = verify_rate_key email in
      rw
        (
          get-with_mark k tk photo (with_code S email code s) (λ a. upload_rate_apart a email),
          redis.get-set_ex k (cooldown_key email) (codes "1") 60
              (S.set_ex (otp_key email) (S.sha256 code) 600 s) (omega arith),
          cooldown_rate_apart email email,
          redis.get-set_ex k (otp_key email) (S.sha256 code) 600 s (omega arith),
          otp_rate_apart email email,
        )
        refl

module _ (S : Services) (db : IsDatabase S) where
  pub find-with_photo :
      (p : User → Bool) (tk : Text) (u : User) (photo : Text) (draw : Draw) (t : S.Rows)
      → S.find_user p (with_photo S tk u photo draw t) ≡ S.find_user p t
  find-with_photo p [] u photo draw t = refl
  find-with_photo p (c ∷ k) u [] draw t = refl
  find-with_photo p (c ∷ k) u (d ∷ q) draw t = db.find-save_outbox p _ t

  email_free :
      (email username : Text) (t : S.Rows)
      → S.find_user (clashes email username) t ≡ none
      → S.find_user (λ x. text_eq x.email email) t ≡ none
  unfolding clashes
  email_free email username t free =
      elim (Option-cases (S.find_user (λ x. text_eq x.email email) t)) [
        | inl missing ↦ missing
        | inr (u, found) ↦
            let here : text_eq u.email email ≡ true =
              db.find-sound (λ x. text_eq x.email email) u t found in
            let clash : clashes email username u ≡ false =
              db.find-none (clashes email username) u t free
                (db.find-row (λ x. text_eq x.email email) u t found) in
            absurd (ground arith)
      ]

  pub new_user_found :
      (r : CreateUserRequest) (draw : Draw) (t : S.Rows)
      → S.find_user (clashes (normalize_email r.email) (trim r.username)) t ≡ none
      → S.find_user (λ x. text_eq x.email (normalize_email r.email)) (registered S r draw t)
        ≡ some (new_user S r draw)
  unfolding new_user
  new_user_found r draw t free =
      let p : User → Bool = λ x. text_eq x.email (normalize_email r.email) in
      find-with_photo p (temp_key_of r) (new_user S r draw) (photo_of r draw) draw _
      ∙ db.find-save_outbox p _ _
      ∙ db.find-save_user_new p (new_user S r draw) t (text_eq_refl (normalize_email r.email))
          (email_free (normalize_email r.email) (trim r.username) t free)
