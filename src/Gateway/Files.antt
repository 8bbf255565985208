-- ===== src/Gateway/Files.antt =====
-- apps/api-gateway/src/media/providers: file-query.provider.ts and upload-url.provider.ts, with the
-- calls of the media service. Where gRPC itself fails, a fault holds the error.
use skill_up.Base.{ℕ, ◌*◌, Bool, true, false, Option, none, some, [], ◌∷◌, ◌++◌, if◌then◌else◌}
use skill_up.Text.{Text, codes, or_else}
use skill_up.Services.{Services}
use skill_up.Media.{Minio}
use skill_up.Media.Files.{
  FileReply, UrlReply, DeleteReply, UploadUrlRequest, UploadUrlReply, UploadFaults, avatar,
}
use skill_up.Media.Files
use skill_up.Gateway.{HttpError, bad_request, not_found, internal_error, GrpcError, raw_message}

-- What a method of the gateway comes to: a value, an `HttpException`, or another error.
pub data Reply (A : Type 0) : Type 0 where
  returned : A → Reply A
  thrown : HttpError → Reply A
  failed : GrpcError → Reply A

-- What `fileKey`, `fileSize` and `contentType` make the data of a reply.
pub record FileData : Type 0 where
  pub exists : Bool
  pub file_size : ℕ
  pub content_type : Text

pub record UploadData : Type 0 where
  pub message : Text
  pub upload_url : Text
  pub file_key : Text
  pub expires_in : ℕ
  pub min_file_size : ℕ
  pub max_file_size : ℕ

abbrev pub key_required : HttpError
key_required = bad_request (codes "Query parameter \"key\" is required")

unfoldable pub found_reply : Text → FileReply → Reply FileData
found_reply key r =
    if r.exists
    then returned (record { exists = true; file_size = r.file_size; content_type = r.content_type })
    else thrown (not_found (codes "File \"" ++ key ++ codes "\" not found"))

abbrev pub as_upload : UploadUrlReply → Reply UploadData
as_upload r =
    if r.success
    then returned (record {
      message = or_else r.message (codes "Presigned upload URL generated successfully");
      upload_url = r.upload_url;
      file_key = r.file_key;
      expires_in = r.expires_in;
      min_file_size = 1024;
      max_file_size = 5 * 1024 * 1024;
    })
    else thrown (bad_request (or_else r.message (codes "Failed to generate presigned upload URL")))

-- The request that is sent has no aliases.
abbrev pub sent_request : UploadUrlRequest → Text → UploadUrlRequest
sent_request r category = record r {
  content_type_alias = [];
  file_size_alias = 0;
  category = category;
}

-- `stat`, `remove` and `sign` say that MinIO rejects in the media service.
module _ (C : Minio) (bucket : Text) (grpc : Option GrpcError) where
  unfoldable pub check_file_exists : Bool → Text → C.Objects → Reply FileData
  check_file_exists stat [] o = thrown key_required
  check_file_exists stat (c ∷ k) o = elim grpc [
    | some e ↦ thrown (internal_error (raw_message e (codes "Failed to verify file existence")))
    | none ↦ found_reply (c ∷ k) (Files.check_file_exists C bucket stat (c ∷ k) [] o)
  ]

  -- `unhandled` is what a rejection inside the media service becomes on its way.
  unfoldable pub get_file_url : Bool → GrpcError → Text → Reply UrlReply
  get_file_url sign unhandled [] = thrown key_required
  get_file_url sign unhandled (c ∷ k) = elim grpc [
    | some e ↦ thrown (internal_error (raw_message e (codes "Failed to retrieve file URL")))
    | none ↦ elim (Files.get_file_url C bucket sign (c ∷ k)) [
      | none ↦ thrown (internal_error (raw_message unhandled (codes "Failed to retrieve file URL")))
      | some u ↦ returned u
    ]
  ]

  unfoldable pub delete_file : Bool → Text → C.Objects → Reply DeleteReply × C.Objects
  delete_file remove [] o = (thrown (bad_request (codes "File key is required for deletion")), o)
  delete_file remove (c ∷ k) o = elim grpc [
    | some e ↦ (returned (record { success = false; message = codes "Failed to delete file" }), o)
    | none ↦ let (r, o') = Files.delete_file C bucket remove (c ∷ k) [] o in (returned r, o')
  ]

module _ (S : Services) (C : Minio) (bucket : Text) (grpc : Option GrpcError)
    (f : UploadFaults) where
  unfoldable pub generate_upload_url :
      UploadUrlRequest → Text → Text → S.Store → Reply UploadData × S.Store
  generate_upload_url r category uuid s = elim grpc [
    | some e ↦
        (thrown (internal_error (raw_message e (codes "Media service communication error"))), s)
    | none ↦
        let (reply, s') =
          Files.get_presigned_upload_url S C bucket f (sent_request r category) uuid s in
        (as_upload reply, s')
  ]

  unfoldable pub get_avatar_upload_url :
      UploadUrlRequest → Text → S.Store → Reply UploadData × S.Store
  get_avatar_upload_url r uuid s = generate_upload_url r avatar uuid s

  unfoldable pub get_general_upload_url :
      UploadUrlRequest → Text → S.Store → Reply UploadData × S.Store
  get_general_upload_url r uuid s = generate_upload_url r (or_else r.category avatar) uuid s
