-- ===== src/Gateway/Registration/Success.antt =====
-- A registration through the gateway whose calls all answer: it succeeds.
use skill_up.Base.{ℕ, ◌≤◌, ◌≡◌, refl, ap, ◌∙◌, true, false, Option, none, some, [], ◌∷◌, arith}
use skill_up.Text.{Text, codes, or_else, or_else_same, text_eq, trim}
use skill_up.Services.{Services, IsRedis}
use skill_up.Effects.{ok}
use skill_up.Media.{Minio}
use skill_up.Media.Files.{pending}
use skill_up.Users.Keys.{upload_key, otp_key, cooldown_key, otp_upload_apart, cooldown_upload_apart}
use skill_up.Users.Verify.{normalize_email}
use skill_up.Users.Register.{Draw, clashes, is_consumed, photo_of, create_user}
use skill_up.Users.Register.Steps.{with_code, Unused}
use skill_up.Users.Register.Success.{no_register_faults, settled, create_user_complete}
use skill_up.Gateway.{HttpError}
use skill_up.Gateway.Files.{returned, FileData, check_file_exists}
use skill_up.Gateway.Registration.{
  RegisterRequestDto, Site, GatewayFaults, temp_key_of, payload_of, token_error, token_text_error,
  bad_avatar_size, check_file, mark_consumed, answer_of, create, check_token, check_upload,
  reads_token, register,
}

good_size : (n : ℕ) → 1024 ≤ n → n ≤ 5242880 → bad_avatar_size n ≡ false
unfolding bad_avatar_size
good_size n h k = ground arith

-- The calls on the way of a registration all answer.
pub record Answers (g : GatewayFaults) : Type 0 where
  pub get_token : g.get_token ≡ false
  pub transport : g.transport ≡ none
  pub set_token : g.set_token ≡ false

module _ (S : Services) (redis : IsRedis S) where
  get-with_code :
      (t email code : Text) (s : S.Store)
      → S.get (upload_key t) (with_code S email code s) ≡ S.get (upload_key t) s
  get-with_code t email code s =
      rw
        (
          redis.get-set_ex (upload_key t) (cooldown_key email) (codes "1") 60
              (S.set_ex (otp_key email) (S.sha256 code) 600 s) (omega arith),
          cooldown_upload_apart email t,
          redis.get-set_ex (upload_key t) (otp_key email) (S.sha256 code) 600 s (omega arith),
          otp_upload_apart email t,
        )
        refl

  Unused-pending :
      (tk photo : Text) (s : S.Store) → S.get (upload_key tk) s ≡ some pending → Unused S tk photo s
  unfolding is_consumed text_eq
  Unused-pending [] photo s h = tt
  Unused-pending (c ∷ t) [] s h = tt
  Unused-pending (c ∷ t) (d ∷ p) s h = rw h refl

module _ (S : Services) (redis : IsRedis S) (C : Minio) (bucket : Text) (g : GatewayFaults)
    (up : Answers g) where
  check_file_lem :
      (key : Text) (file : FileData) (w : Site S C)
      → check_file_exists C bucket g.media g.stat key w.objects ≡ returned file
      → file.exists ≡ true
      → 1024 ≤ file.file_size
      → file.file_size ≤ 5242880
      → check_file S C bucket g no_register_faults key w ≡ (none, w)
  unfolding check_file
  check_file_lem key file w found there large small =
      rw (found, there, good_size file.file_size large small, check_file) refl

  token_pending : token_error (some pending) ≡ none
  unfolding token_error token_text_error text_eq
  token_pending = refl

  created :
      (d : RegisterRequestDto) (c : ℕ) (i : Text) (draw : Draw) (w : Site S C)
      → S.get (upload_key (temp_key_of d)) w.users.store ≡ some pending
      → S.find_user (clashes (normalize_email d.email) (trim d.username)) w.users.rows ≡ none
      → create_user S no_register_faults (payload_of d (c ∷ i)) draw w.users
        ≡ ok (c ∷ i) (settled S (payload_of d (c ∷ i)) draw w.users)
  created d c i draw w stored free =
      let r = payload_of d (c ∷ i) in
      let tk = temp_key_of d in
      let kept : S.get (upload_key (or_else tk tk))
            (with_code S (normalize_email d.email) draw.code w.users.store)
          ≡ some pending =
        get-with_code S redis (or_else tk tk) (normalize_email d.email) draw.code w.users.store
        ∙ ap (λ k. S.get (upload_key k) w.users.store) (or_else_same tk)
        ∙ stored in
      create_user_complete S r draw w.users free (
        Unused-pending S redis (or_else tk tk) (photo_of r draw)
          (with_code S (normalize_email d.email) draw.code w.users.store) kept)

  mark_consumed-returned :
      (key i : Text) (w : Site S C)
      → (mark_consumed S C bucket g no_register_faults key i w).0 ≡ returned i
  unfolding mark_consumed
  mark_consumed-returned [] i w = refl
  mark_consumed-returned (c ∷ k) i w = rw (up.set_token, mark_consumed) refl

  reads_token_lem : (key : Text) → reads_token S C bucket g no_register_faults key ≡ false
  reads_token_lem [] = refl
  reads_token_lem (c ∷ k) = up.get_token

  check_upload_lem :
      (key : Text) (file : FileData) (w : Site S C)
      → S.get (upload_key key) w.users.store ≡ some pending
      → check_file_exists C bucket g.media g.stat key w.objects ≡ returned file
      → file.exists ≡ true
      → 1024 ≤ file.file_size
      → file.file_size ≤ 5242880
      → check_upload S C bucket g no_register_faults key w ≡ (none, w)
  unfolding check_upload check_token
  check_upload_lem [] file w stored found there large small = refl
  check_upload_lem (c ∷ k) file w stored found there large small =
      rw (stored, token_pending, check_token, check_file_lem (c ∷ k) file w found there large small)
        refl

  create_lem :
      (d : RegisterRequestDto) (c : ℕ) (i : Text) (draw : Draw) (w : Site S C)
      → S.get (upload_key (temp_key_of d)) w.users.store ≡ some pending
      → S.find_user (clashes (normalize_email d.email) (trim d.username)) w.users.rows ≡ none
      → (create S C bucket g no_register_faults d (c ∷ i) draw w).0 ≡ returned (c ∷ i)
  unfolding create answer_of
  create_lem d c i draw w stored free =
      rw (up.transport, create, created d c i draw w stored free, answer_of)
        (mark_consumed-returned (temp_key_of d) (c ∷ i)
          (record w { users = settled S (payload_of d (c ∷ i)) draw w.users }))

  -- Where every call answers, a registration with an upload that is PENDING and whose file is there, of
  -- 1 KB to 5 MB, and whose email and username are free, is answered with its id.
  pub register_complete :
      (d : RegisterRequestDto) (c : ℕ) (i : Text) (draw : Draw) (file : FileData) (w : Site S C)
      → S.get (upload_key (temp_key_of d)) w.users.store ≡ some pending
      → check_file_exists C bucket g.media g.stat (temp_key_of d) w.objects ≡ returned file
      → file.exists ≡ true
      → 1024 ≤ file.file_size
      → file.file_size ≤ 5242880
      → S.find_user (clashes (normalize_email d.email) (trim d.username)) w.users.rows ≡ none
      → (register S C bucket g no_register_faults d (c ∷ i) draw w).0 ≡ returned (c ∷ i)
  unfolding register
  register_complete d c i draw file w stored found there large small free =
      let passed = check_upload_lem (temp_key_of d) file w stored found there large small in
      rw
        (
          reads_token_lem (temp_key_of d),
          ap (λ (p : Option HttpError × Site S C). p.0) passed,
          ap (λ (p : Option HttpError × Site S C). p.1) passed,
          register,
        )
        (create_lem d c i draw w stored free)
