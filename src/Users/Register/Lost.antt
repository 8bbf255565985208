-- ===== src/Users/Register/Lost.antt =====
-- A registration whose commit fails, and the photo that it has marked.
use skill_up.Base.{ℕ, ◌≡◌, refl, true, false, none, ◌∷◌, ◌⊎◌, inl, inr, Bool-cases}
use skill_up.Text.{Text, trim}
use skill_up.Services.{Services, IsRedis}
use skill_up.Shared.{GrpcStatus, User}
use skill_up.Effects.{Thrown, rpc, rejected, World, ok, err, ◌>>=◌, ◌>>◌}
use skill_up.Effects.Transaction.{begin}
use skill_up.Users.Keys.{upload_key, otp_key, otp_upload_apart}
use skill_up.Users.Verify.{normalize_email}
use skill_up.Users.Verify.Success.{no_tx_faults}
use skill_up.Users.Register.{
  CreateUserRequest, RegisterFaults, Draw, temp_key_of, photo_of, clashes, is_consumed, consumed,
  consumed_message, new_user, email_message, photo_message, refuse_duplicate, prepare,
  consume_upload, photo_event, record_events, fail, complete, attempt_registration, create_user,
}
use skill_up.Users.Register.Steps.{with_code}
use skill_up.Users.Register.Upload.{
  photo_of_cons, is_consumed_eq, marked_with_mark, consumed_upload_refused,
}
use skill_up.Users.Register.Rollback.{fail-rows, fail-code}

-- Every call answers but the commit.
abbrev pub commit_lost : Text → RegisterFaults
commit_lost text = record {
  tx = record no_tx_faults { commit = true };
  find = false;
  hash = false;
  save_user = false;
  set_otp = false;
  set_cooldown = false;
  save_email = false;
  get_upload = false;
  set_upload = false;
  save_photo = false;
  del_otp = false;
  error_text = text;
}

module _ (S : Services) (redis : IsRedis S) (text : Text) (r : CreateUserRequest) (draw : Draw)
    (c : ℕ) (t : Text) (key : temp_key_of r ≡ c ∷ t) where
  -- The state behind the first four steps.
  abbrev begun : World S → World S
  begun w = record w {
    rows = S.save_user (new_user S r draw) w.rows;
    store = with_code S (normalize_email r.email) draw.code w.store;
  }

  prepare_lem :
      (w : World S)
      → S.find_user (clashes (normalize_email r.email) (trim r.username)) w.rows ≡ none
      → prepare S (commit_lost text) r draw w ≡ ok tt (begun w)
  unfolding prepare refuse_duplicate
  prepare_lem w free = rw free refl

  abbrev Marked : World S → Type 0
  Marked x = is_consumed (S.get (upload_key (c ∷ t)) x.store) ≡ true

  consume_upload-marks :
      (u : User) (photo : Text) (w : World S)
      → ((e : Thrown) × (x : World S) × (consume_upload S (commit_lost text) (c ∷ t) u photo draw w
            ≡ err e x)
          × Marked x)
        ⊎ ((x : World S) × (consume_upload S (commit_lost text) (c ∷ t) u photo draw w ≡ ok tt x)
            × Marked x)
  unfolding consume_upload
  consume_upload-marks u photo w =
      elim (Bool-cases (is_consumed (S.get (upload_key (c ∷ t)) w.store))) [
        | inl used ↦ inl (rpc GrpcStatus.already_exists consumed_message, w, rw used refl, used)
        | inr unused ↦ inr (
          record w {
            rows = S.save_outbox (photo_message u (c ∷ t) photo draw) w.rows;
            store = S.set_ex (upload_key (c ∷ t)) consumed 600 w.store;
          },
          rw unused refl,
          is_consumed_eq S redis (marked_with_mark S redis {d = 0} {p = photo} refl refl w.store),
        )
      ]

  photo_event-marks :
      (k photo : Text) (u : User) (w : World S) {d : ℕ} {p : Text}
      → k ≡ c ∷ t
      → photo ≡ d ∷ p
      → ((e : Thrown) × (x : World S) × (photo_event S (commit_lost text) k u photo draw w
            ≡ err e x)
          × Marked x)
        ⊎ ((x : World S) × (photo_event S (commit_lost text) k u photo draw w ≡ ok tt x) × Marked x)
  unfolding photo_event
  photo_event-marks k photo u w {d} {p} e q = rw (e, q) (consume_upload-marks u (d ∷ p) w)

  complete-marks :
      (w v : World S) {e : Thrown}
      → complete S (commit_lost text) r draw w.rows (begun w) ≡ err e v
      → (d : Thrown) × (x : World S) × (fail S
            (commit_lost text)
            true
            (normalize_email r.email)
            w.rows
            d
            x
          ≡ err e v)
        × Marked x
  unfolding complete record_events
  complete-marks w v {e} h =
      let (d, p, q) = photo_of_cons r draw c t key in
      elim (photo_event-marks (temp_key_of r) (photo_of r draw) (new_user S r draw)
        (record (begun w) {
          rows = S.save_outbox (email_message (new_user S r draw) draw) (begun w).rows;
        })
        key q) [
          | inl (y, x, answer, marked) ↦
              (y, x, rw (complete, record_events, ◌>>◌, ◌>>=◌, answer) at h, marked)
          | inr (x, answer, marked) ↦
              (rejected, x, rw (complete, record_events, ◌>>◌, ◌>>=◌, answer) at h, marked)
        ]

  -- Where every call of a registration with a photo answers but the commit, the tables are as they
  -- were, but a retry with the same photo is not answered while its mark is stored.
  pub upload_lost :
      (g : RegisterFaults) (q : CreateUserRequest) (draw' : Draw) (w v v' : World S) (e : Thrown)
      (j : Text)
      → temp_key_of q ≡ c ∷ t
      → S.find_user (clashes (normalize_email r.email) (trim r.username)) w.rows ≡ none
      → create_user S (commit_lost text) r draw w ≡ err e v
      → (v.rows ≡ w.rows) × ¬ (create_user S g q draw' v ≡ ok j v')
  unfolding create_user attempt_registration begin
  upload_lost g q draw' w v v' e j key' free h =
      let (d, x, failed, marked) =
        complete-marks w v
          (rw (create_user, begin, attempt_registration, prepare_lem w free) at h) in
      let gone =
        fail-code S (commit_lost text) (normalize_email r.email) w.rows d x v refl refl failed in
      (
        (fail-rows S (commit_lost text) true (normalize_email r.email) w.rows d x v failed).0,
        consumed_upload_refused S redis g q draw' c t j v v' key' (
            rw
              (
                gone,
                redis.get-del (upload_key (c ∷ t)) (otp_key (normalize_email r.email)) x.store,
                otp_upload_apart (normalize_email r.email) (c ∷ t),
              )
              marked),
      )
