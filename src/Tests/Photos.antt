-- ===== src/Tests/Photos.antt =====
-- Uploads, crops, processed photos and a sweep, with a MinIO and a sharp in memory.
use skill_up.Base.{
  ◌&&◌, ℕ, zero, suc, ap, ◌≡◌, refl, true, false, Option, none, some, List, [], ◌∷◌, ◌++◌, arith,
  length, if◌then◌else◌,
}
use skill_up.Text.{Text, codes, text_eq, to_lower, to_upper}
use skill_up.Services.{Ttl}
use skill_up.Services.Memory.{memory, memory_redis, Cells}
use skill_up.Users.Keys.{upload_key}
use skill_up.Media.{target_bucket}
use skill_up.Media
use skill_up.Media.Memory.{Bin, minio, minio-IsObjectStore, Picture, sharp, sharp-IsSharp}
use skill_up.Media.Files.{
  UploadUrlRequest, UploadFaults, bad_mime, bad_size, one_of, file_key_of, granted, pending,
  register_key, get_presigned_upload_url,
}
use skill_up.Media.Files.Grant.{avatar_upload-Pending}
use skill_up.Media.Files.Sanitize.{is_avatar_key}
use skill_up.Media.Image.{Transformations, process_profile_avatar}
use skill_up.Media.Image.Total.{process-some, sideways_rejected}
use skill_up.Media.Consumer.{
  PhotoPayload, PhotoFaults, nack, consume, handle_photo_process, handle_key,
}
use skill_up.Media.Cleanup.{Item, Cleaner, clean_expired_temp_uploads}
use skill_up.Media.Cleanup.Sweep.{due, Under, IsListing, clean-due}
use skill_up.Text.{starts_with}
use skill_up.Tests.Fixtures.{cells, no_strings}

abbrev bucket : Text
bucket = codes "skillup"

abbrev wanted : UploadUrlRequest
wanted = record {
  filename = codes "Me.png";
  content_type = codes "image/png";
  content_type_alias = [];
  file_size = 4096;
  file_size_alias = 0;
  category = [];
}

abbrev answering : UploadFaults
answering = record { presign = false; set = false; error_text = [] }

abbrev empty : Cells
empty = cells no_strings

abbrev stored : Cells
stored = memory.set_ex (upload_key (file_key_of wanted (codes "u-1"))) pending 120 empty

mime_ok : bad_mime (to_lower (codes "image/png")) ≡ false
unfolding bad_mime one_of to_lower text_eq
mime_ok = refl

size_ok : bad_size (to_upper (codes "AVATAR")) 4096 ≡ false
unfolding bad_size to_upper text_eq
size_ok = refl

avatar_ok : to_upper (codes "AVATAR") ≡ codes "AVATAR"
unfolding to_upper
avatar_ok = refl

minted :
    get_presigned_upload_url memory minio bucket answering wanted (codes "u-1") empty
    ≡ (granted (file_key_of wanted (codes "u-1")) (file_key_of wanted (codes "u-1")), stored)
unfolding get_presigned_upload_url register_key Media.get_presigned_upload_url
minted = rw (mime_ok, size_ok) refl

avatar_upload-Pending_example :
    (is_avatar_key (file_key_of wanted (codes "u-1")) ≡ true)
    × (memory.get (upload_key (file_key_of wanted (codes "u-1"))) stored ≡ some pending)
    × (memory.ttl (upload_key (file_key_of wanted (codes "u-1"))) stored ≡ Ttl.seconds 120)
avatar_upload-Pending_example =
    avatar_upload-Pending memory minio bucket memory_redis answering wanted (codes "u-1") empty
      stored (granted (file_key_of wanted (codes "u-1")) (file_key_of wanted (codes "u-1")))
      avatar_ok refl minted refl

-- The whole of an image of 40 by 20.
abbrev whole : Transformations
whole = record {
  crop_x = some 0;
  crop_x_alias = none;
  crop_y = some 0;
  crop_y_alias = none;
  crop_width = some 40;
  crop_width_alias = none;
  crop_height = some 20;
  crop_height_alias = none;
  rotate = none;
}

abbrev shot : ℕ → Picture
shot tag = record { width = 40; height = 20; orientation = tag }

process-some_example : (out : Text) × (process_profile_avatar sharp (1 ∷ []) whole ≡ some out)
process-some_example = process-some sharp sharp-IsSharp (1 ∷ []) whole (shot 1) refl (omega arith)

sideways_rejected_example : process_profile_avatar sharp (6 ∷ []) whole ≡ none
sideways_rejected_example =
    sideways_rejected sharp sharp-IsSharp (6 ∷ []) whole (shot 6) 0 0 40 20 refl refl (omega arith)
      refl refl refl refl (omega arith) (omega arith) (omega arith) (omega arith) (omega arith)

-- A file of zeros.
abbrev pub zeros : ℕ → Text
zeros zero = []
zeros (suc n) = 0 ∷ zeros n

pub length-zeros : (n : ℕ) → length (zeros n) ≡ n
length-zeros zero = refl
length-zeros (suc n) = ap suc (length-zeros n)

abbrev raw_bin : Bin
raw_bin = minio.put_object bucket (codes "t") (zeros 2048) (codes "image/png") (λ b k. none)

abbrev no_photo_faults : PhotoFaults
no_photo_faults = record { get = false; put = false; delete = false }

abbrev photo : PhotoPayload
photo = record {
  user_id = codes "u1";
  temp_key = codes "t";
  target_key = codes "a";
  transformations = whole;
}

abbrev to_one : Text → Transformations → Option Text
to_one raw t = some (1 ∷ [])

-- A processing that rejects.
abbrev to_none : Text → Transformations → Option Text
to_none raw t = none

abbrev bare : PhotoPayload
bare = record photo { temp_key = codes "x" }

unread : consume minio bucket to_none no_photo_faults (some bare) raw_bin ≡ (nack, raw_bin)
unfolding consume handle_photo_process handle_key Media.get_object text_eq
unread = refl

-- One old object and one that has just come.
abbrev listing : Text → List Item
listing p =
    record { name = p ++ codes "t"; last_modified = some 0 }
    ∷ record { name = p ++ codes "n"; last_modified = none }
    ∷ []

starts_with-append : (p q : Text) → starts_with p (p ++ q) ≡ true
unfolding starts_with
starts_with-append [] q = refl
starts_with-append (c ∷ p) q = ground (arith, starts_with-append p q)

under : (p : Text) (d : ℕ) → Under p (p ++ d ∷ [])
under [] d = starts_with-append [] (d ∷ [])
under (c ∷ p) d = starts_with-append (c ∷ p) (d ∷ [])

listing-IsListing : IsListing minio (λ b p o. listing p)
listing-IsListing = record { prefixed = λ b p o. (under p b't', (under p b'n', tt)) }

abbrev old_bin : Bin
old_bin =
    minio.put_object bucket (codes "temp_uploads/t") (zeros 2048) (codes "image/png") (λ b k. none)

abbrev idle : Cleaner minio
idle = record { is_cleaning = false; objects = old_bin }

clean-due_example :
    let swept =
      clean_expired_temp_uploads minio bucket (λ k. false) 7200000 (λ b p o. listing p) idle in
    (swept.is_cleaning ≡ false)
    × (minio.get_object bucket (codes "temp_uploads/t") swept.objects ≡ (
        if starts_with (codes "temp_uploads/") (codes "temp_uploads/t")
          && due minio minio-IsObjectStore b's'
              (codes "killup")
              (λ k. false)
              7200000
              (codes "temp_uploads/t")
              (listing (codes "temp_uploads/"))
        then none
        else minio.get_object bucket (codes "temp_uploads/t") old_bin))
clean-due_example =
    clean-due minio minio-IsObjectStore b's' (codes "killup") (λ k. false) 7200000
      (λ b p o. listing p) listing-IsListing idle (codes "temp_uploads/t") refl
