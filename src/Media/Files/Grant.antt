-- ===== src/Media/Files/Grant.antt =====
-- When an upload is granted, and what a grant and a refusal leave in Redis.
use skill_up.Base.{
  ◌≡◌, refl, ap, sym, ◌↔◌, ◌∙◌, Bool, true, false, some, [], arith, all, if◌then◌else◌,
}
use mathlib.Core.Bool.{false≢true}
use skill_up.Text.{Text, text_eq_refl}
use skill_up.Services.{Services, IsRedis, Ttl}
use skill_up.Users.Keys.{upload_key}
use skill_up.Media.{Minio}
use skill_up.Media
use skill_up.Media.Files.{
  UploadUrlRequest, UploadUrlReply, UploadFaults, bad_mime, bad_size, mime_of, category_of, size_of,
  file_key_of, refused, mime_message, size_message, pending, avatar, register_key,
  get_presigned_upload_url,
}
use skill_up.Media.Files.Sanitize.{key_char, is_avatar_key, file_key-IsAvatar}

module _ (S : Services) (C : Minio) (bucket : Text) where
  -- The calls answer.
  abbrev Answering : UploadFaults → Type 0
  Answering f = (f.presign ≡ false) × (f.set ≡ false)

  register_key-granted :
      (f : UploadFaults) (key : Text) (s : S.Store)
      → ((register_key S C bucket f key s).0.success ≡ true) ↔ Answering f
  unfolding register_key Media.get_presigned_upload_url
  register_key-granted f key s = (ground arith, ground arith)

  -- An upload is granted exactly where the content type is none or one of the four images, the size of an
  -- avatar, if it is given, lies between 1 KB and 5 MB, and MinIO and Redis answer.
  pub granted_iff :
      (f : UploadFaults) (r : UploadUrlRequest) (uuid : Text) (s : S.Store)
      → ((get_presigned_upload_url S C bucket f r uuid s).0.success ≡ true) ↔ (
          (bad_mime (mime_of r) ≡ false)
          × (bad_size (category_of r) (size_of r) ≡ false)
          × (f.presign ≡ false)
          × (f.set ≡ false))
  unfolding get_presigned_upload_url
  granted_iff f r uuid s = decided (bad_mime (mime_of r)) (bad_size (category_of r) (size_of r))
    where
      decided :
          (m b : Bool)
          → ((if m
                then (refused (mime_message (mime_of r)), s)
                else if b
                then (refused size_message, s)
                else register_key S C bucket f (file_key_of r uuid) s).0.success
              ≡ true)
            ↔ ((m ≡ false) × (b ≡ false) × (f.presign ≡ false) × (f.set ≡ false))
      decided true b = (λ h. cc, λ h. cc)
      decided false true = (λ h. cc, λ h. cc)
      decided false false =
          let (a, b) = register_key-granted f (file_key_of r uuid) s in
          (λ h. (refl, refl, (a h).0, (a h).1), λ h. b (h.2, h.3))

  register_key-unchanged :
      (f : UploadFaults) (key : Text) (s : S.Store)
      → (register_key S C bucket f key s).0.success ≡ false
      → ((register_key S C bucket f key s).1 ≡ s)
        × ((register_key S C bucket f key s).0.file_key ≡ [])
  unfolding register_key Media.get_presigned_upload_url
  register_key-unchanged f key s h = ground arith

  -- An upload that is refused leaves Redis as it was and names no key.
  pub refused_unchanged :
      (f : UploadFaults) (r : UploadUrlRequest) (uuid : Text) (s : S.Store)
      → (get_presigned_upload_url S C bucket f r uuid s).0.success ≡ false
      → ((get_presigned_upload_url S C bucket f r uuid s).1 ≡ s)
        × ((get_presigned_upload_url S C bucket f r uuid s).0.file_key ≡ [])
  unfolding get_presigned_upload_url
  refused_unchanged f r uuid s h = ground (arith, register_key-unchanged f (file_key_of r uuid) s)

  register_key-token :
      (redis : IsRedis S) (f : UploadFaults) (key : Text) (s : S.Store)
      → (register_key S C bucket f key s).0.success ≡ true
      → ((register_key S C bucket f key s).0.file_key ≡ key)
        × ((register_key S C bucket f key s).1 ≡ S.set_ex (upload_key key) pending 120 s)
  unfolding register_key Media.get_presigned_upload_url
  register_key-token redis f key s h = ground arith

  -- A granted upload of an avatar names a key that the registration takes, where the drawn id has only
  -- characters of a UUID, and the key is PENDING in Redis for 120 seconds.
  pub avatar_upload-Pending :
      (redis : IsRedis S) (f : UploadFaults) (r : UploadUrlRequest) (uuid : Text) (s s' : S.Store)
      (reply : UploadUrlReply)
      → category_of r ≡ avatar
      → all key_char uuid ≡ true
      → get_presigned_upload_url S C bucket f r uuid s ≡ (reply, s')
      → reply.success ≡ true
      → (is_avatar_key reply.file_key ≡ true)
        × (S.get (upload_key reply.file_key) s' ≡ some pending)
        × (S.ttl (upload_key reply.file_key) s' ≡ Ttl.seconds 120)
  unfolding get_presigned_upload_url
  avatar_upload-Pending redis f r uuid s s' reply h u e g =
      decided (bad_mime (mime_of r)) (bad_size (category_of r) (size_of r)) e
    where
      stored :
          (reply.file_key ≡ file_key_of r uuid)
          → s' ≡ S.set_ex (upload_key (file_key_of r uuid)) pending 120 s
          → (is_avatar_key reply.file_key ≡ true)
            × (S.get (upload_key reply.file_key) s' ≡ some pending)
            × (S.ttl (upload_key reply.file_key) s' ≡ Ttl.seconds 120)
      stored named put =
          let k = upload_key (file_key_of r uuid) in
          (
            rw named (file_key-IsAvatar r uuid h u),
            rw (named, put, redis.get-set_ex k k pending 120 s (omega arith), text_eq_refl k) refl,
            rw (named, put, redis.ttl-set_ex k k pending 120 s (omega arith), text_eq_refl k) refl,
          )

      decided :
          (m b : Bool)
          → (if m
              then (refused (mime_message (mime_of r)), s)
              else if b
              then (refused size_message, s)
              else register_key S C bucket f (file_key_of r uuid) s)
            ≡ (reply, s')
          → (is_avatar_key reply.file_key ≡ true)
            × (S.get (upload_key reply.file_key) s' ≡ some pending)
            × (S.ttl (upload_key reply.file_key) s' ≡ Ttl.seconds 120)
      decided true b e = absurd (false≢true (ap (λ p. p.0.success) e ∙ g))
      decided false true e = absurd (false≢true (ap (λ p. p.0.success) e ∙ g))
      decided false false e =
          let (named, put) =
            register_key-token redis f (file_key_of r uuid) s (ap (λ p. p.0.success) e ∙ g) in
          stored (sym (ap (λ p. p.0.file_key) e) ∙ named) (sym (ap (λ p. p.1) e) ∙ put)
