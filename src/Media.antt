-- ===== src/Media.antt =====
-- apps/media-service/src/storage/minio.service.ts: `MinioService`, on the client of MinIO, which is a
-- parameter with the documented behaviour that the code relies on in `IsObjectStore`. An object's
-- content is the list of its bytes; Media.Startup is the start-up.
pub mod Files
pub mod Consumer
pub mod Cleanup
pub mod Image
pub mod Startup
pub mod Memory
use skill_up.Base.{ℕ, ◌≡◌, Bool, true, false, ◌&&◌, Option, none, some, if◌then◌else◌, length}
use skill_up.Text.{Text, codes, text_eq, or_else}

-- What `statObject` answers; a content type that is missing is empty.
pub record Stat : Type 0 where
  pub size : ℕ
  pub content_type : Text

-- The client. `none` is the error of a key that has no object.
pub record Minio : Type 1 where
  pub Objects : Type 0
  pub presigned_put_object : Text → Text → ℕ → Text
  pub presigned_get_object : Text → Text → ℕ → Text
  pub stat_object : Text → Text → Objects → Option Stat
  pub get_object : Text → Text → Objects → Option Text
  pub put_object : Text → Text → Text → Text → Objects → Objects
  pub remove_object : Text → Text → Objects → Objects

-- Objects are told apart by bucket and key.
abbrev pub same_place : Text → Text → Text → Text → Bool
same_place b k b' k' = text_eq b b' && text_eq k k'

pub record IsObjectStore (C : Minio) : Type 0 where
  pub stat-put_object :
      (b k b' k' data_ type : Text) (o : C.Objects)
      → C.stat_object b k (C.put_object b' k' data_ type o) ≡ (
          if same_place b' k' b k
          then some (record { size = length data_; content_type = type })
          else C.stat_object b k o)
  pub stat-remove_object :
      (b k b' k' : Text) (o : C.Objects)
      → C.stat_object b k (C.remove_object b' k' o)
        ≡ (if same_place b' k' b k then none else C.stat_object b k o)
  pub get-put_object :
      (b k b' k' data_ type : Text) (o : C.Objects)
      → C.get_object b k (C.put_object b' k' data_ type o)
        ≡ (if same_place b' k' b k then some data_ else C.get_object b k o)
  pub get-remove_object :
      (b k b' k' : Text) (o : C.Objects)
      → C.get_object b k (C.remove_object b' k' o)
        ≡ (if same_place b' k' b k then none else C.get_object b k o)

-- What `checkFileExists` answers.
pub data FileCheck : Type 0 where
  absent : FileCheck
  present : ℕ → Text → FileCheck

abbrev pub checked : Option Stat → FileCheck
checked none = absent
checked (some s) = present s.size (or_else s.content_type (codes "application/octet-stream"))

-- A method that may reject answers `none` where it does; `down` says that the call rejects.
module _ (C : Minio) (default_bucket : Text) where
  abbrev pub target_bucket : Text → Text
  target_bucket bucket = or_else bucket default_bucket

  unfoldable pub get_presigned_upload_url : Bool → Text → ℕ → Text → Option Text
  get_presigned_upload_url down key expiry bucket =
      if down then none else some (C.presigned_put_object (target_bucket bucket) key expiry)

  unfoldable pub get_presigned_get_url : Bool → Text → ℕ → Text → Option Text
  get_presigned_get_url down key expiry bucket =
      if down then none else some (C.presigned_get_object (target_bucket bucket) key expiry)

  -- Every error counts as a file that does not exist.
  unfoldable pub check_file_exists : Bool → Text → Text → C.Objects → FileCheck
  check_file_exists down key bucket o =
      if down then absent else checked (C.stat_object (target_bucket bucket) key o)

  unfoldable pub get_object : Bool → Text → Text → C.Objects → Option Text
  get_object down key bucket o = if down then none else C.get_object (target_bucket bucket) key o

  unfoldable pub put_object : Bool → Text → Text → Text → Text → C.Objects → Option C.Objects
  put_object down key buffer type bucket o =
      if down then none else some (C.put_object (target_bucket bucket) key buffer type o)

  unfoldable pub delete_object : Bool → Text → Text → C.Objects → Option C.Objects
  delete_object down key bucket o =
      if down then none else some (C.remove_object (target_bucket bucket) key o)
