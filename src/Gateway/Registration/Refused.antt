-- ===== src/Gateway/Registration/Refused.antt =====
-- Registrations whose uploaded photo is missing or has a size that is not permitted.
use skill_up.Base.{
  ℕ, ◌≡◌, refl, sym, ap, ◌∙◌, Bool, true, false, Option, none, some, [], ◌∷◌, ◌++◌, if◌then◌else◌,
}
use skill_up.Text.{Text, codes, text_eq, text_eq_refl}
use skill_up.Services.{Services, IsRedis}
use skill_up.Media.{Minio, Stat, IsObjectStore, same_place, FileCheck, absent, present, checked}
use skill_up.Media
use skill_up.Media.Files.{pending, file_reply}
use skill_up.Media.Files
use skill_up.Users.Keys.{upload_key}
use skill_up.Users.Register.{RegisterFaults, Draw}
use skill_up.Gateway.{HttpError, not_found, GrpcError}
use skill_up.Gateway.Files.{Reply, thrown, failed, found_reply, check_file_exists, delete_file}
use skill_up.Gateway.Registration.{
  RegisterRequestDto, Site, GatewayFaults, temp_key_of, token_text_error, token_error, size_error,
  bad_avatar_size, purge, check_file, create, check_token, check_upload, reads_token, register,
}

-- A PENDING upload passes the first check.
token_pending : token_error (some pending) ≡ none
unfolding token_error token_text_error text_eq
token_pending = refl

abbrev pub not_found_error : Text → HttpError
not_found_error key = not_found (codes "File \"" ++ key ++ codes "\" not found")

module _ (S : Services) (C : Minio) (bucket : Text) (g : GatewayFaults) (f : RegisterFaults) where
  stat_none :
      (down : Bool) (c : ℕ) (k : Text) (o : C.Objects)
      → C.stat_object bucket (c ∷ k) o ≡ none
      → Files.check_file_exists C bucket down (c ∷ k) [] o ≡ file_reply absent
  unfolding Files.check_file_exists Media.check_file_exists
  stat_none true c k o h = refl
  stat_none false c k o h = ap (λ x. file_reply (checked x)) h

  stat_some :
      (c : ℕ) (k : Text) (s : Stat) (o : C.Objects)
      → C.stat_object bucket (c ∷ k) o ≡ some s
      → Files.check_file_exists C bucket false (c ∷ k) [] o ≡ file_reply (checked (some s))
  unfolding Files.check_file_exists Media.check_file_exists
  stat_some c k s o h = ap (λ x. file_reply (checked x)) h

  query_lem :
      (c : ℕ) (k : Text) (o : C.Objects)
      → g.media ≡ none
      → check_file_exists C bucket g.media g.stat (c ∷ k) o
        ≡ found_reply (c ∷ k) (Files.check_file_exists C bucket g.stat (c ∷ k) [] o)
  unfolding check_file_exists
  query_lem c k o h = go g.media h
    where
      go :
          (m : Option GrpcError)
          → m ≡ none
          → check_file_exists C bucket m g.stat (c ∷ k) o
            ≡ found_reply (c ∷ k) (Files.check_file_exists C bucket g.stat (c ∷ k) [] o)
      go none e = refl
      go (some x) e = cc

  check_file-missing :
      (c : ℕ) (k : Text) (w : Site S C)
      → g.media ≡ none
      → C.stat_object bucket (c ∷ k) w.objects ≡ none
      → check_file S C bucket g f (c ∷ k) w ≡ (some (not_found_error (c ∷ k)), w)
  unfolding check_file found_reply
  check_file-missing c k w h e =
      rw (check_file, query_lem c k w.objects h, stat_none g.stat c k w.objects e) refl

  check_upload_lem :
      (key : Text) (c : ℕ) (k : Text) (e : HttpError) (w w' : Site S C)
      → key ≡ c ∷ k
      → S.get (upload_key (c ∷ k)) w.users.store ≡ some pending
      → check_file S C bucket g f (c ∷ k) w ≡ (some e, w')
      → check_upload S C bucket g f key w ≡ (some e, w')
  unfolding check_upload check_token
  check_upload_lem key c k e w w' q t h =
      ap (λ x. check_upload S C bucket g f x w) q
      ∙ rw (check_upload, check_token, t, token_pending) h

  register-refused :
      (d : RegisterRequestDto) (c : ℕ) (k user_id : Text) (draw : Draw) (e : HttpError)
      (w w' : Site S C)
      → temp_key_of d ≡ c ∷ k
      → g.get_token ≡ false
      → S.get (upload_key (c ∷ k)) w.users.store ≡ some pending
      → check_file S C bucket g f (c ∷ k) w ≡ (some e, w')
      → register S C bucket g f d user_id draw w ≡ (thrown e, w')
  unfolding register
  register-refused d c k user_id draw e w w' q up t h =
      read (reads_token S C bucket g f (temp_key_of d)) (ap (reads_token S C bucket g f) q ∙ up)
    where
      read :
          (down : Bool)
          → down ≡ false
          → ◌≡◌ {A = Reply Text × Site S C}
              (if down
                then (failed g.redis_error, w)
                else let (refusal, x) = check_upload S C bucket g f (temp_key_of d) w in
                  elim refusal [
                    | some e ↦ (thrown e, x)
                    | none ↦ create S C bucket g f d user_id draw x
                  ])
              (thrown e, w')
      read true e = cc
      read false x =
          ap
            (λ (r : Option HttpError × Site S C).
              let (refusal, y) = r in
              elim refusal [
                | some e ↦ (thrown e, y)
                | none ↦ create S C bucket g f d user_id draw y
              ])
            (check_upload_lem (temp_key_of d) c k e w w' q t h)

  -- A registration whose upload is PENDING but has no file is told 404 and changes nothing, where Redis
  -- answers and gRPC reaches the media service, also if MinIO rejects there.
  pub register-missing :
      (d : RegisterRequestDto) (c : ℕ) (k user_id : Text) (draw : Draw) (w : Site S C)
      → temp_key_of d ≡ c ∷ k
      → g.get_token ≡ false
      → g.media ≡ none
      → S.get (upload_key (c ∷ k)) w.users.store ≡ some pending
      → C.stat_object bucket (c ∷ k) w.objects ≡ none
      → register S C bucket g f d user_id draw w ≡ (thrown (not_found_error (c ∷ k)), w)
  register-missing d c k user_id draw w q up m t none_ =
      register-refused d c k user_id draw (not_found_error (c ∷ k)) w w q up t
        (check_file-missing c k w m none_)

  check_file-bad :
      (c : ℕ) (k : Text) (s : Stat) (w : Site S C)
      → g.media ≡ none
      → g.stat ≡ false
      → C.stat_object bucket (c ∷ k) w.objects ≡ some s
      → bad_avatar_size s.size ≡ true
      → check_file S C bucket g f (c ∷ k) w
        ≡ (some (size_error s.size), purge S C bucket g f (c ∷ k) w)
  unfolding check_file found_reply
  check_file-bad c k s w m up e bad = rw (check_file, answer) (rw bad refl)
    where
      answer :
          check_file_exists C bucket g.media g.stat (c ∷ k) w.objects
          ≡ found_reply (c ∷ k) (file_reply (checked (some s)))
      answer =
          query_lem c k w.objects m
          ∙ ap (λ x. found_reply (c ∷ k) (Files.check_file_exists C bucket x (c ∷ k) [] w.objects))
              up
          ∙ ap (found_reply (c ∷ k)) (stat_some c k s w.objects e)

  purge_lem :
      (c : ℕ) (k : Text) (w : Site S C)
      → g.media ≡ none
      → g.remove ≡ false
      → g.del_token ≡ false
      → purge S C bucket g f (c ∷ k) w ≡ record {
        users = record (w.users) { store = S.del (upload_key (c ∷ k)) w.users.store };
        objects = C.remove_object bucket (c ∷ k) w.objects;
      }
  unfolding purge delete_file Files.delete_file Media.delete_object
  purge_lem c k w m r d = go g.media g.remove g.del_token m r d
    where
      go :
          (media : Option GrpcError) (remove del : Bool)
          → media ≡ none
          → remove ≡ false
          → del ≡ false
          → ◌≡◌ {A = Site S C}
              (record {
                users =
                    if del
                    then w.users
                    else record (w.users) { store = S.del (upload_key (c ∷ k)) w.users.store };
                objects = (delete_file C bucket media remove (c ∷ k) w.objects).1;
              })
              (record {
                users = record (w.users) { store = S.del (upload_key (c ∷ k)) w.users.store };
                objects = C.remove_object bucket (c ∷ k) w.objects;
              })
      go none false false m r d = refl
      go none false true m r d = cc
      go none true del m r d = cc
      go (some e) remove del m r d = cc

  -- Where every call answers, a registration whose upload is PENDING with a file smaller than 1 KB or
  -- larger than 5 MB is told 400, the file and its status are gone, and the tables are as they were.
  pub register-purged :
      (redis : IsRedis S) (store : IsObjectStore C) (d : RegisterRequestDto) (c : ℕ)
      (k user_id : Text) (draw : Draw) (s : Stat) (w w' : Site S C) (reply : Reply Text)
      → temp_key_of d ≡ c ∷ k
      → g.get_token ≡ false
      → g.media ≡ none
      → g.stat ≡ false
      → g.remove ≡ false
      → g.del_token ≡ false
      → S.get (upload_key (c ∷ k)) w.users.store ≡ some pending
      → C.stat_object bucket (c ∷ k) w.objects ≡ some s
      → bad_avatar_size s.size ≡ true
      → register S C bucket g f d user_id draw w ≡ (reply, w')
      → (reply ≡ thrown (size_error s.size))
        × (S.get (upload_key (c ∷ k)) w'.users.store ≡ none)
        × (C.stat_object bucket (c ∷ k) w'.objects ≡ none)
        × (w'.users.rows ≡ w.users.rows)
  register-purged redis store d c k user_id draw s w w' reply q up m st rm dt t there bad h =
      let e =
        sym h
        ∙ register-refused d c k user_id draw (size_error s.size) w (purge S C bucket g f (c ∷ k) w)
            q up t (check_file-bad c k s w m st there bad) in
      let after : w' ≡ record {
        users = record (w.users) { store = S.del (upload_key (c ∷ k)) w.users.store };
        objects = C.remove_object bucket (c ∷ k) w.objects;
      } =
        ap (λ (r : Reply Text × Site S C). r.1) e ∙ purge_lem c k w m rm dt in
      let key = upload_key (c ∷ k) in
      (
        ap (λ (r : Reply Text × Site S C). r.0) e,
        ap (λ (x : Site S C). S.get key x.users.store) after
            ∙ rw (redis.get-del key key w.users.store, text_eq_refl key) refl,
        ap (λ (x : Site S C). C.stat_object bucket (c ∷ k) x.objects) after
            ∙ rw
                (
                  store.stat-remove_object bucket (c ∷ k) bucket (c ∷ k) w.objects,
                  text_eq_refl bucket,
                  text_eq_refl (c ∷ k),
                )
                refl,
        ap (λ (x : Site S C). x.users.rows) after,
      )
