-- ===== src/Users/Register/Upload.antt =====
-- The single use of an uploaded photo: the mark `CONSUMED` that `createUser` leaves and looks for.
use skill_up.Base.{ℕ, ap, sym, ◌∙◌, ◌≡◌, refl, true, false, some, [], ◌∷◌, arith, ◌++◌}
use mathlib.Core.Bool.{false≢true}
use skill_up.Text.{Text, codes, text_eq_refl, or_else}
use skill_up.Services.{Services, IsRedis}
use skill_up.Effects.{World, ok}
use skill_up.Users.Keys.{upload_key, otp_key, cooldown_key, otp_upload_apart, cooldown_upload_apart}
use skill_up.Users.Verify.{normalize_email}
use skill_up.Users.Register.{
  CreateUserRequest, RegisterFaults, Draw, temp_key_of, user_id_of, photo_of, avatar_key,
  is_consumed, consumed, create_user,
}
use skill_up.Users.Register.Steps.{with_code, with_mark, Unused}
use skill_up.Users.Register.Outcome.{create_user-Created}

-- A photo's place is chosen whenever one was uploaded.
or_else_cons :
    (a b : Text) {c : ℕ} {t : Text} → b ≡ c ∷ t → (d : ℕ) × (p : Text) × (or_else a b ≡ d ∷ p)
or_else_cons [] b {c} {t} e = (c, t, e)
or_else_cons (d ∷ p) b e = (d, p, refl)

pub photo_of_cons :
    (r : CreateUserRequest) (draw : Draw) (c : ℕ) (t : Text)
    → temp_key_of r ≡ c ∷ t
    → (d : ℕ) × (p : Text) × (photo_of r draw ≡ d ∷ p)
unfolding photo_of
photo_of_cons r draw c t e =
    let (_, _, k) =
      or_else_cons r.profile_photo_alias (avatar_key (temp_key_of r) (user_id_of r draw))
        (avatar e) in
    or_else_cons r.profile_photo _ k
  where
    avatar :
        {k : Text}
        → k ≡ c ∷ t
        → avatar_key k (user_id_of r draw)
          ≡ codes "avatars/" ++ user_id_of r draw ++ codes "/avatar.webp"
    avatar e = rw e refl

module _ (S : Services) (redis : IsRedis S) where
  pub is_consumed_eq :
      {s : S.Store} {k : Text} → S.get k s ≡ some consumed → is_consumed (S.get k s) ≡ true
  unfolding is_consumed
  is_consumed_eq h = rw h (text_eq_refl consumed)

  -- The registration's code and cooldown leave the mark of an upload as it is.
  pub get-with_code :
      (t email code : Text) (s : S.Store)
      → S.get (upload_key t) (with_code S email code s) ≡ S.get (upload_key t) s
  get-with_code t email code s =
      let k = upload_key t in
      let coded = S.set_ex (otp_key email) (S.sha256 code) 600 s in
      rw
        (
          redis.get-set_ex k (cooldown_key email) (codes "1") 60 coded (omega arith),
          redis.get-set_ex k (otp_key email) (S.sha256 code) 600 s (omega arith),
          cooldown_upload_apart email t,
          otp_upload_apart email t,
        )
        refl

  Unused-is_consumed :
      {k photo : Text} (s : S.Store) {c d : ℕ} {t p : Text}
      → k ≡ c ∷ t
      → photo ≡ d ∷ p
      → Unused S k photo s
      → is_consumed (S.get (upload_key (c ∷ t)) s) ≡ false
  Unused-is_consumed s e q h = rw (e, q) at h

  -- A registration whose photo is marked as consumed is not answered.
  pub consumed_upload_refused :
      (f : RegisterFaults) (r : CreateUserRequest) (draw : Draw) (c : ℕ) (t i : Text)
      (w v : World S)
      → temp_key_of r ≡ c ∷ t
      → is_consumed (S.get (upload_key (c ∷ t)) w.store) ≡ true
      → ¬ (create_user S f r draw w ≡ ok i v)
  consumed_upload_refused f r draw c t i w v e h a =
      let (d, p, q) = photo_of_cons r draw c t e in
      let email = normalize_email r.email in
      let fresh =
        Unused-is_consumed (with_code S email draw.code w.store) e q
          (create_user-Created S f r draw i w v a).unused in
      false≢true (sym fresh ∙ ap is_consumed (get-with_code (c ∷ t) email draw.code w.store) ∙ h)

  pub marked_with_mark :
      {k photo : Text} {c d : ℕ} {t p : Text}
      → k ≡ c ∷ t
      → photo ≡ d ∷ p
      → (s : S.Store) → S.get (upload_key (c ∷ t)) (with_mark S k photo s) ≡ some consumed
  marked_with_mark {c = c} {t = t} e q s =
      rw
        (
          e,
          q,
          redis.get-set_ex (upload_key (c ∷ t)) (upload_key (c ∷ t)) consumed 600 s (omega arith),
          text_eq_refl,
        )
        refl
