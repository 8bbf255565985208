-- ===== src/Media/Files.antt =====
-- apps/media-service/src/media.service.ts: `MediaService`. The sizes of a request are natural
-- numbers, and a text or number that is missing is empty or 0, as `||` treats it.
pub mod Sanitize
pub mod Grant
pub mod Objects
use skill_up.Base.{
  ℕ, ◌*◌, Bool, true, false, not, ◌&&◌, ◌||◌, ◌==◌, Option, none, some, List, [], ◌∷◌, ◌++◌, map,
  if◌then◌else◌, ltb, leb,
}
use skill_up.Text.{Text, codes, text_eq, to_lower, to_upper, or_else, is_digit}
use skill_up.Services.{Services}
use skill_up.Users.Keys.{upload_key}
use skill_up.Media.{Minio, FileCheck, absent, present}
use skill_up.Media

pub record UploadUrlRequest : Type 0 where
  pub filename : Text
  pub content_type : Text
  pub content_type_alias : Text
  pub file_size : ℕ
  pub file_size_alias : ℕ
  pub category : Text

pub record UploadUrlReply : Type 0 where
  pub success : Bool
  pub message : Text
  pub upload_url : Text
  pub file_key : Text
  pub expires_in : ℕ

-- `/[a-zA-Z0-9.-]/`
abbrev pub legal : ℕ → Bool
legal c =
    (leb b'a' c && leb c b'z') || (leb b'A' c && leb c b'Z') || is_digit c || c == 46 || c == 45

abbrev pub legal_or_underscore : ℕ → ℕ
legal_or_underscore c = if legal c then c else 95

unfoldable pub sanitize : Text → Text
sanitize name = to_lower (map legal_or_underscore name)

abbrev pub min_avatar_size : ℕ
min_avatar_size = 1024

abbrev pub max_avatar_size : ℕ
max_avatar_size = 5 * 1024 * 1024

abbrev pub allowed_image_mimes : List Text
allowed_image_mimes =
    codes "image/jpeg" ∷ codes "image/jpg" ∷ codes "image/png" ∷ codes "image/webp" ∷ []

unfoldable pub one_of : Text → List Text → Bool
one_of t [] = false
one_of t (m ∷ ms) = text_eq t m || one_of t ms

abbrev pub avatar : Text
avatar = codes "AVATAR"

-- `contentType && !ALLOWED_IMAGE_MIMES.includes(contentType)`
unfoldable pub bad_mime : Text → Bool
bad_mime [] = false
bad_mime (c ∷ t) = not (one_of (c ∷ t) allowed_image_mimes)

unfoldable pub bad_size : Text → ℕ → Bool
bad_size category size =
    text_eq category avatar
    && (ltb 0 size && (ltb size min_avatar_size || ltb max_avatar_size size))

unfoldable pub folder_of : Text → Text
folder_of category =
    if text_eq category avatar
    then codes "temp_uploads/avatars"
    else if text_eq category (codes "COVER")
    then codes "temp_uploads/covers"
    else if text_eq category (codes "DOCUMENT")
    then codes "temp_uploads/documents"
    else codes "temp_uploads/general"

abbrev pub or_number : ℕ → ℕ → ℕ
or_number a b = if a == 0 then b else a

abbrev pub mime_of : UploadUrlRequest → Text
mime_of r = to_lower (or_else r.content_type r.content_type_alias)

abbrev pub category_of : UploadUrlRequest → Text
category_of r = to_upper (or_else r.category avatar)

abbrev pub size_of : UploadUrlRequest → ℕ
size_of r = or_number r.file_size r.file_size_alias

unfoldable pub file_key_of : UploadUrlRequest → Text → Text
file_key_of r uuid =
    folder_of (category_of r)
    ++ codes "/"
    ++ uuid
    ++ codes "_"
    ++ sanitize (or_else r.filename (codes "upload.jpg"))

abbrev pub refused : Text → UploadUrlReply
refused message = record {
  success = false;
  message = message;
  upload_url = [];
  file_key = [];
  expires_in = 0;
}

abbrev pub granted : Text → Text → UploadUrlReply
granted url key = record {
  success = true;
  message = codes "Presigned upload URL generated successfully.";
  upload_url = url;
  file_key = key;
  expires_in = 120;
}

abbrev pub mime_message : Text → Text
mime_message mime =
    codes "Unsupported content type \"" ++ mime ++ codes "\". Allowed types: JPEG, PNG, WebP."

abbrev pub size_message : Text
size_message = codes "File size must be between 1KB and 5MB."

abbrev pub pending : Text
pending = codes "PENDING"

-- `presign` and `set` say which calls reject, with the message `error_text`.
pub record UploadFaults : Type 0 where
  pub presign : Bool
  pub set : Bool
  pub error_text : Text

module _ (S : Services) (C : Minio) (bucket : Text) where
  -- The `try`.
  unfoldable pub register_key : UploadFaults → Text → S.Store → UploadUrlReply × S.Store
  register_key f key s = elim (Media.get_presigned_upload_url C bucket f.presign key 120 []) [
    | none ↦ (refused f.error_text, s)
    | some url ↦
        if f.set
        then (refused f.error_text, s)
        else (granted url key, S.set_ex (upload_key key) pending 120 s)
  ]

  unfoldable pub get_presigned_upload_url :
      UploadFaults → UploadUrlRequest → Text → S.Store → UploadUrlReply × S.Store
  get_presigned_upload_url f r uuid s =
      if bad_mime (mime_of r)
      then (refused (mime_message (mime_of r)), s)
      else if bad_size (category_of r) (size_of r)
      then (refused size_message, s)
      else register_key f (file_key_of r uuid) s

-- What `checkFileExists` replies; a file that does not exist has size 0 and no type.
pub record FileReply : Type 0 where
  pub exists : Bool
  pub file_size : ℕ
  pub content_type : Text

pub record UrlReply : Type 0 where
  pub url : Text
  pub expires_in : ℕ

pub record DeleteReply : Type 0 where
  pub success : Bool
  pub message : Text

abbrev pub file_reply : FileCheck → FileReply
file_reply absent = record { exists = false; file_size = 0; content_type = [] }
file_reply (present n type) = record { exists = true; file_size = n; content_type = type }

abbrev deleted : {A : Type 0} → A → Option A → DeleteReply × A
deleted o none = (record { success = false; message = codes "Failed to delete file." }, o)
deleted o (some o') = (record { success = true; message = codes "File deleted successfully." }, o')

-- The file key is that of the request or of its alias, already chosen by `||`.
module _ (C : Minio) (default_bucket : Text) where
  unfoldable pub check_file_exists : Bool → Text → Text → C.Objects → FileReply
  check_file_exists down [] bucket o = file_reply absent
  check_file_exists down (c ∷ k) bucket o =
      file_reply (Media.check_file_exists C default_bucket down (c ∷ k) bucket o)

  -- `none`: the signing rejects.
  unfoldable pub get_file_url : Bool → Text → Option UrlReply
  get_file_url down [] = some (record { url = []; expires_in = 0 })
  get_file_url down (c ∷ k) =
      elim (Media.get_presigned_get_url C default_bucket down (c ∷ k) 3600 []) [
        | none ↦ none
        | some u ↦ some (record { url = u; expires_in = 3600 })
      ]

  unfoldable pub delete_file : Bool → Text → Text → C.Objects → DeleteReply × C.Objects
  delete_file down [] bucket o =
      (record { success = false; message = codes "File key is required." }, o)
  delete_file down (c ∷ k) bucket o =
      deleted o (Media.delete_object C default_bucket down (c ∷ k) bucket o)
