-- ===== src/Uploads/Refined.antt =====
-- The registration through the gateway keeps to the life of an upload, for every upload, whatever calls
-- reject.
use skill_up.Base.{
  ℕ, ◌≡◌, ◌≢◌, refl, sym, ap, subst, ◌∙◌, ◌⊎◌, Bool, true, false, not, Option, none, some, [], ◌∷◌,
  if◌then◌else◌, Bool-cases, inl, inr,
}
use skill_up.Text.{Text, codes, text_eq, text_eq→eq}
use skill_up.Services.{Services, IsRedis}
use skill_up.Effects.{World, Run, ok, err, state}
use skill_up.Media.{Minio}
use skill_up.Media.Files.{pending}
use skill_up.Users.Keys.{upload_key}
use skill_up.Users.Register.{RegisterFaults, Draw, consumed, create_user}
use skill_up.Users.Register.Keeps.{create_user-Keeps}
use skill_up.Gateway.{HttpError, bad_request, GrpcError}
use skill_up.Gateway.Files.{Reply, returned, thrown, failed, FileData, check_file_exists}
use skill_up.Gateway.Registration.{
  RegisterRequestDto, Site, GatewayFaults, temp_key_of, payload_of, token_error, missing_error,
  size_error, bad_avatar_size, create_error, purge, check_file, mark_consumed, answer_of, create,
  check_token, check_upload, reads_token, register,
}
use skill_up.Gateway.Registration.Accepted.{token_passes, check_token-passes}
use skill_up.Uploads.{Token, missing, unused, token_of, Move, stays, removed}
use skill_up.Uploads.Writes.{
  token_pending, token_in, dropped, Reached, code-Reached, cooldown-Reached, drop-Reached,
  mark-Reached, or_same,
}

module _ (S : Services) (redis : IsRedis S) (j : Text) (C : Minio) (bucket : Text)
    (g : GatewayFaults) (f : RegisterFaults) where
  abbrev Steps : Site S C → Site S C → Type 0
  Steps w w' = Move (token_in S redis j w.users.store) (token_in S redis j w'.users.store)

  -- The upload of a registration that goes on is unused, or it has none.
  abbrev Passed : Text → Site S C → Type 0
  Passed k w = k ≡ j → k ≢ [] → token_in S redis j w.users.store ≡ unused

  created :
      (d : RegisterRequestDto) (user_id : Text) (draw : Draw) (w : Site S C)
      → Passed (temp_key_of d) w
      → Move
          (token_in S redis j w.users.store)
          (token_in S redis j (state (create_user S f (payload_of d user_id) draw w.users)).store)
  created d user_id draw w passed =
      let t = token_in S redis j w.users.store in
      create_user-Keeps S f (payload_of d user_id) draw (Reached S redis j t)
        (code-Reached S redis j t _ _) (cooldown-Reached S redis j t _)
        (λ c k s e m.
          mark-Reached S redis j t (c ∷ k) s
            (λ here.
              passed (sym (or_same (temp_key_of d)) ∙ e ∙ here)
                (λ z. nonempty c k (sym e ∙ or_same (temp_key_of d) ∙ z)))
            m)
        (drop-Reached S redis j t _) w.users (stays t)
    where
      nonempty : (c : ℕ) (k : Text) → ¬ (c ∷ k ≡ [])
      nonempty c k e = cc

  marks :
      (k i : Text) (t : Token) (w : Site S C)
      → (k ≡ j → k ≢ [] → t ≡ unused)
      → Move t (token_in S redis j w.users.store)
      → Move t (token_in S redis j (mark_consumed S C bucket g f k i w).1.users.store)
  unfolding mark_consumed
  marks [] i t w h m = m
  marks (c ∷ k) i t w h m = go g.set_token
    where
      answer : Bool → Reply Text × Site S C
      answer down = if down then (thrown (create_error g.redis_error), w) else (
        returned i,
        record w {
          users = record (w.users) {
            store = S.set_ex (upload_key (c ∷ k)) consumed 600 w.users.store;
          };
        },
      )

      nonempty : ¬ (c ∷ k ≡ [])
      nonempty e = cc

      go : (down : Bool) → Move t (token_in S redis j (answer down).1.users.store)
      go true = m
      go false = mark-Reached S redis j t (c ∷ k) w.users.store (λ e. h e nonempty) m

  answered :
      (k : Text) (t : Token) (w : Site S C) (r : Run S Text)
      → (k ≡ j → k ≢ [] → t ≡ unused)
      → Move t (token_in S redis j (state r).store)
      → Move t (token_in S redis j (answer_of S C bucket g f k w r).1.users.store)
  unfolding answer_of
  answered k t w (ok i v) h m = marks k i t (record w { users = v }) h m
  answered k t w (err e v) h m = m

  create-Move :
      (d : RegisterRequestDto) (user_id : Text) (draw : Draw) (w : Site S C)
      → Passed (temp_key_of d) w
      → Steps w (create S C bucket g f d user_id draw w).1
  unfolding create
  create-Move d user_id draw w passed = go g.transport
    where
      answer : Option GrpcError → Reply Text × Site S C
      answer o = elim o [
        | some e ↦ (thrown (create_error e), w)
        | none ↦
            answer_of S C bucket g f (temp_key_of d) w
              (create_user S f (payload_of d user_id) draw w.users)
      ]

      go : (o : Option GrpcError) → Steps w (answer o).1
      go (some e) = stays (token_in S redis j w.users.store)
      go none =
          answered (temp_key_of d) (token_in S redis j w.users.store) w
            (create_user S f (payload_of d user_id) draw w.users) passed
            (created d user_id draw w passed)

  -- The purge of an upload that is unused.
  purge-Move :
      (k : Text) (w : Site S C)
      → (k ≡ j → token_in S redis j w.users.store ≡ unused)
      → Steps w (purge S C bucket g f k w)
  unfolding purge
  purge-Move k w h = go g.del_token
    where
      left : Bool → World S
      left down =
          if down then w.users else record (w.users) { store = S.del (upload_key k) w.users.store }

      removing :
          (text_eq k j ≡ true) ⊎ (text_eq k j ≡ false)
          → Move
              (token_in S redis j w.users.store)
              (if text_eq k j then missing else token_in S redis j w.users.store)
      removing (inl same) = rw (same, h (text_eq→eq k j same)) removed
      removing (inr other) = rw other (stays (token_in S redis j w.users.store))

      go :
          (down : Bool)
          → Move (token_in S redis j w.users.store) (token_in S redis j (left down).store)
      go true = stays (token_in S redis j w.users.store)
      go false =
          subst (Move (token_in S redis j w.users.store)) (sym (dropped S redis j k w.users.store))
            (removing (Bool-cases (text_eq k j)))

  check_file-Move :
      (k : Text) (w : Site S C)
      → (k ≡ j → token_in S redis j w.users.store ≡ unused)
      → Steps w (check_file S C bucket g f k w).1
  unfolding check_file
  check_file-Move k w h = go (check_file_exists C bucket g.media g.stat k w.objects)
    where
      found : FileData → Bool → Bool → Option HttpError × Site S C
      found d missing_ bad =
          if missing_
          then (some (missing_error k), w)
          else if bad
          then (some (size_error d.file_size), purge S C bucket g f k w)
          else (none, w)

      answer : Reply FileData → Option HttpError × Site S C
      answer r = elim r [
        | thrown e ↦ (some e, w)
        | failed e ↦ (some (bad_request (codes "Failed to verify avatar file in storage.")), w)
        | returned d ↦ found d (not d.exists) (bad_avatar_size d.file_size)
      ]

      sized : (d : FileData) (missing_ bad : Bool) → Steps w (found d missing_ bad).1
      sized d true bad = stays (token_in S redis j w.users.store)
      sized d false true = purge-Move k w h
      sized d false false = stays (token_in S redis j w.users.store)

      go : (r : Reply FileData) → Steps w (answer r).1
      go (thrown e) = stays (token_in S redis j w.users.store)
      go (failed e) = stays (token_in S redis j w.users.store)
      go (returned d) = sized d (not d.exists) (bad_avatar_size d.file_size)

  is_unused :
      (k : Text) (w : Site S C)
      → S.get (upload_key k) w.users.store ≡ some pending
      → k ≡ j
      → token_in S redis j w.users.store ≡ unused
  is_unused k w h e =
      ap token_of (ap (λ i. S.get (upload_key i) w.users.store) (sym e) ∙ h) ∙ token_pending

  -- A registration goes on without a photo or with an upload that is PENDING, and nothing has changed.
  goes_on :
      (k : Text) (w x : Site S C)
      → check_upload S C bucket g f k w ≡ (none, x)
      → (x ≡ w) × (k ≡ j → k ≢ [] → token_in S redis j w.users.store ≡ unused)
  unfolding check_upload
  goes_on [] w x h = (sym (ap (λ (r : Option HttpError × Site S C). r.1) h), λ e z. absurd (z refl))
  goes_on (c ∷ k) w x h =
      let (token, same, _) = check_token-passes S C bucket g f (c ∷ k) w x h in
      (same, λ e z. is_unused (c ∷ k) w token e)

  check_upload-Move : (k : Text) (w : Site S C) → Steps w (check_upload S C bucket g f k w).1
  unfolding check_upload check_token
  check_upload-Move [] w = stays (token_in S redis j w.users.store)
  check_upload-Move (c ∷ k) w = go (token_error (S.get (upload_key (c ∷ k)) w.users.store)) refl
    where
      answer : Option HttpError → Option HttpError × Site S C
      answer o = elim o [ some e ↦ (some e, w) | none ↦ check_file S C bucket g f (c ∷ k) w ]

      go :
          (o : Option HttpError)
          → token_error (S.get (upload_key (c ∷ k)) w.users.store) ≡ o
          → Steps w (answer o).1
      go (some e) q = stays (token_in S redis j w.users.store)
      go none q = check_file-Move (c ∷ k) w (is_unused (c ∷ k) w (token_passes _ q))

  -- A registration moves every upload as the life of an upload allows, whether it is answered or refused
  -- and whatever calls reject.
  pub register-Move :
      (d : RegisterRequestDto) (user_id : Text) (draw : Draw) (w : Site S C)
      → Move
          (token_in S redis j w.users.store)
          (token_in S redis j (register S C bucket g f d user_id draw w).1.users.store)
  unfolding register
  register-Move d user_id draw w = read (reads_token S C bucket g f (temp_key_of d))
    where
      answer : Option HttpError × Site S C → Reply Text × Site S C
      answer r =
          let (refusal, x) = r in
          elim refusal [ some e ↦ (thrown e, x) | none ↦ create S C bucket g f d user_id draw x ]

      checked :
          (r : Option HttpError × Site S C)
          → check_upload S C bucket g f (temp_key_of d) w ≡ r
          → Steps w r.1
          → Steps w (answer r).1
      checked (some e, x) q m = m
      checked (none, x) q m =
          let (same, passed) = goes_on (temp_key_of d) w x q in
          subst (λ (y : Site S C). Steps w (create S C bucket g f d user_id draw y).1) (sym same)
            (create-Move d user_id draw w passed)

      read :
          (down : Bool)
          → Steps w
              (if down
                then (failed g.redis_error, w)
                else answer (check_upload S C bucket g f (temp_key_of d) w)).1
      read true = stays (token_in S redis j w.users.store)
      read false =
          checked (check_upload S C bucket g f (temp_key_of d) w) refl
            (check_upload-Move (temp_key_of d) w)
