-- ===== src/Gateway/Registration/Accepted.antt =====
-- What a registration through the gateway has checked when it is answered.
use skill_up.Base.{
  ℕ, ◌≤◌, ◌≡◌, refl, sym, ap, ◌∙◌, Bool, true, false, not, Option, none, some, [], ◌∷◌,
  if◌then◌else◌, arith, Bool-cases, inl, inr,
}
use skill_up.Text.{Text, codes, text_eq, text_eq→eq}
use skill_up.Services.{Services}
use skill_up.Effects.{World, Run, ok, err}
use skill_up.Media.{Minio}
use skill_up.Media.Files.{pending}
use skill_up.Users.Keys.{upload_key}
use skill_up.Users.Register.{RegisterFaults, Draw, consumed, create_user}
use skill_up.Gateway.{HttpError, bad_request, GrpcError}
use skill_up.Gateway.Files.{Reply, returned, thrown, failed, FileData, check_file_exists}
use skill_up.Gateway.Registration.{
  RegisterRequestDto, Site, GatewayFaults, temp_key_of, payload_of, consumed_error,
  token_text_error, token_error, missing_error, size_error, bad_avatar_size, create_error, purge,
  check_file, mark_consumed, answer_of, create, check_token, check_upload, reads_token, register,
}

pub token_passes : (t : Option Text) → token_error t ≡ none → t ≡ some pending
unfolding token_error token_text_error
token_passes none h = cc
token_passes (some []) h = cc
token_passes (some (c ∷ t)) h = decided (text_eq (c ∷ t) consumed) h
  where
    decided :
        (used : Bool)
        → (if used
            then some consumed_error
            else if text_eq (c ∷ t) pending
            then none
            else some (bad_request (codes "Invalid upload status for avatar photo.")))
          ≡ none
        → some (c ∷ t) ≡ some pending
    decided true h = cc
    decided false h = elim (Bool-cases (text_eq (c ∷ t) pending)) [
      | inl same ↦ ap some (text_eq→eq (c ∷ t) pending same)
      | inr other ↦ cc (rw other at h)
    ]

size_passes : (n : ℕ) → bad_avatar_size n ≡ false → (1024 ≤ n) × (n ≤ 5242880)
unfolding bad_avatar_size
size_passes n h = (ground arith, ground arith)

module _ (S : Services) (C : Minio) (bucket : Text) (g : GatewayFaults) (f : RegisterFaults) where
  -- The file of the upload is there, of 1 KB to 5 MB.
  pub record Fits (key : Text) (o : C.Objects) : Type 0 where
    pub data_ : FileData
    pub found : check_file_exists C bucket g.media g.stat key o ≡ returned data_
    pub large : 1024 ≤ data_.file_size
    pub small : data_.file_size ≤ 5242880

  check_file-passes :
      (key : Text) (w w' : Site S C)
      → check_file S C bucket g f key w ≡ (none, w')
      → (w' ≡ w) × Fits key w.objects
  unfolding check_file
  check_file-passes key w w' h = go (check_file_exists C bucket g.media g.stat key w.objects) refl h
    where
      sized :
          (d : FileData) (absent bad : Bool)
          → bad_avatar_size d.file_size ≡ bad
          → check_file_exists C bucket g.media g.stat key w.objects ≡ returned d
          → ◌≡◌ {A = Option HttpError × Site S C}
              (if absent
                then (some (missing_error key), w)
                else if bad
                then (some (size_error d.file_size), purge S C bucket g f key w)
                else (none, w))
              (none, w')
          → (w' ≡ w) × Fits key w.objects
      sized d true bad b q k = cc
      sized d false true b q k = cc
      sized d false false b q k =
          let (l, s) = size_passes d.file_size b in
          (cc, record { data_ = d; found = q; large = l; small = s })

      go :
          (r : Reply FileData)
          → check_file_exists C bucket g.media g.stat key w.objects ≡ r
          → ◌≡◌ {A = Option HttpError × Site S C}
              (elim r [
                | thrown e ↦ (some e, w)
                | failed e ↦
                    (some (bad_request (codes "Failed to verify avatar file in storage.")), w)
                | returned d ↦
                    if not d.exists
                    then (some (missing_error key), w)
                    else if bad_avatar_size d.file_size
                    then (some (size_error d.file_size), purge S C bucket g f key w)
                    else (none, w)
              ])
              (none, w')
          → (w' ≡ w) × Fits key w.objects
      go (thrown e) q k = cc
      go (failed e) q k = cc
      go (returned d) q k = sized d (not d.exists) (bad_avatar_size d.file_size) refl q k

  pub check_token-passes :
      (key : Text) (w w' : Site S C)
      → check_token S C bucket g f key w ≡ (none, w')
      → (S.get (upload_key key) w.users.store ≡ some pending) × (w' ≡ w) × Fits key w.objects
  unfolding check_token
  check_token-passes key w w' h = go (token_error (S.get (upload_key key) w.users.store)) refl h
    where
      go :
          (r : Option HttpError)
          → token_error (S.get (upload_key key) w.users.store) ≡ r
          → ◌≡◌ {A = Option HttpError × Site S C}
              (elim r [ some e ↦ (some e, w) | none ↦ check_file S C bucket g f key w ])
              (none, w')
          → (S.get (upload_key key) w.users.store ≡ some pending) × (w' ≡ w) × Fits key w.objects
      go (some e) q k = cc
      go none q k =
          let (same, fits) = check_file-passes key w w' k in
          (token_passes (S.get (upload_key key) w.users.store) q, same, fits)

  marked :
      (down : Bool) (c : ℕ) (k i j : Text) (v w' : Site S C)
      → ◌≡◌ {A = Reply Text × Site S C}
          (if down then (thrown (create_error g.redis_error), v) else (
            returned j,
            record v {
              users = record (v.users) {
                store = S.set_ex (upload_key (c ∷ k)) consumed 600 v.users.store;
              };
            },
          ))
          (returned i, w')
      → (j ≡ i)
        × (w' ≡ record v {
          users = record (v.users) {
            store = S.set_ex (upload_key (c ∷ k)) consumed 600 v.users.store;
          };
        })
  marked true c k i j v w' h = cc
  marked false c k i j v w' h = (
    ap (λ (x : Reply Text × Site S C). elim (x.0) [ returned l ↦ l | _ ↦ j ]) h,
    sym (ap (λ (x : Reply Text × Site S C). x.1) h),
  )

  answer-returns :
      (r : Run S Text) (key : Text) (c : ℕ) (k i : Text) (w w' : Site S C)
      → key ≡ c ∷ k
      → answer_of S C bucket g f key w r ≡ (returned i, w')
      → (v : World S) × (r ≡ ok i v)
        × (w' ≡ record w {
          users = record v { store = S.set_ex (upload_key (c ∷ k)) consumed 600 v.store };
        })
  unfolding answer_of mark_consumed
  answer-returns (err e v) key c k i w w' q h = cc
  answer-returns (ok j v) key c k i w w' q h =
      let (a, b) =
        marked g.set_token c k i j (record w { users = v }) w'
          (ap (λ t. mark_consumed S C bucket g f t j (record w { users = v })) (sym q) ∙ h) in
      (v, ap (λ l. ok l v) a, b)

  create-returns :
      (d : RegisterRequestDto) (c : ℕ) (k user_id i : Text) (draw : Draw) (w w' : Site S C)
      → temp_key_of d ≡ c ∷ k
      → create S C bucket g f d user_id draw w ≡ (returned i, w')
      → (v : World S) × (create_user S f (payload_of d user_id) draw w.users ≡ ok i v)
        × (w' ≡ record w {
          users = record v { store = S.set_ex (upload_key (c ∷ k)) consumed 600 v.store };
        })
  unfolding create
  create-returns d c k user_id i draw w w' key h = go g.transport h
    where
      go :
          (t : Option GrpcError)
          → ◌≡◌ {A = Reply Text × Site S C}
              (elim t [
                | some e ↦ (thrown (create_error e), w)
                | none ↦
                    answer_of S C bucket g f
                      (temp_key_of d)
                      w
                      (create_user S f (payload_of d user_id) draw w.users)
              ])
              (returned i, w')
          → (v : World S) × (create_user S f (payload_of d user_id) draw w.users ≡ ok i v)
            × (w' ≡ record w {
              users = record v { store = S.set_ex (upload_key (c ∷ k)) consumed 600 v.store };
            })
      go (some e) q = cc
      go none q =
          answer-returns (create_user S f (payload_of d user_id) draw w.users) (temp_key_of d) c k i
            w w' key q

  -- A registration with a photo that is answered found its upload PENDING and a file of 1 KB to 5 MB, is
  -- the answer of the users service, and leaves the upload CONSUMED and the objects as they were.
  pub register-Accepted :
      (d : RegisterRequestDto) (c : ℕ) (k user_id i : Text) (draw : Draw) (w w' : Site S C)
      → temp_key_of d ≡ c ∷ k
      → register S C bucket g f d user_id draw w ≡ (returned i, w')
      → (S.get (upload_key (c ∷ k)) w.users.store ≡ some pending)
        × Fits (c ∷ k) w.objects
        × ((v : World S) × (create_user S f (payload_of d user_id) draw w.users ≡ ok i v)
            × (w' ≡ record w {
              users = record v { store = S.set_ex (upload_key (c ∷ k)) consumed 600 v.store };
            }))
  unfolding register check_upload
  register-Accepted d c k user_id i draw w w' key h =
      read (reads_token S C bucket g f (temp_key_of d)) h
    where
      Answer : Type 0
      Answer =
          (S.get (upload_key (c ∷ k)) w.users.store ≡ some pending)
          × Fits (c ∷ k) w.objects
          × ((v : World S) × (create_user S f (payload_of d user_id) draw w.users ≡ ok i v)
              × (w' ≡ record w {
                users = record v { store = S.set_ex (upload_key (c ∷ k)) consumed 600 v.store };
              }))

      checked :
          (r : Option HttpError × Site S C)
          → check_upload S C bucket g f (temp_key_of d) w ≡ r
          → ◌≡◌ {A = Reply Text × Site S C}
              (elim (r.0) [
                | some e ↦ (thrown e, r.1)
                | none ↦ create S C bucket g f d user_id draw (r.1)
              ])
              (returned i, w')
          → Answer
      checked (some e, x) q h = cc
      checked (none, x) q h =
          let (token, same, fits) =
            check_token-passes (c ∷ k) w x
              (ap (λ t. check_upload S C bucket g f t w) (sym key) ∙ q) in
          (
            token,
            fits,
            create-returns d c k user_id i draw w w' key
                (ap (create S C bucket g f d user_id draw) (sym same) ∙ h),
          )

      read :
          (down : Bool)
          → ◌≡◌ {A = Reply Text × Site S C}
              (if down
                then (failed g.redis_error, w)
                else let (refusal, x) = check_upload S C bucket g f (temp_key_of d) w in
                  elim refusal [
                    | some e ↦ (thrown e, x)
                    | none ↦ create S C bucket g f d user_id draw x
                  ])
              (returned i, w')
          → Answer
      read true h = cc
      read false h = checked (check_upload S C bucket g f (temp_key_of d) w) refl h
