-- ===== src/Media/Consumer.antt =====
-- apps/media-service/src/consumers/media-consumer.service.ts: `handlePhotoProcess` and the callback
-- of `channel.consume`. The decoding of a message is a parameter; the set-up of the queue is left out.
pub mod Processed
use skill_up.Base.{
  ℕ, ◌*◌, Bool, true, false, ◌||◌, Option, none, some, [], ◌∷◌, ◌++◌, if◌then◌else◌, ltb, length,
}
use skill_up.Text.{Text, codes, or_else}
use skill_up.Media.{Minio}
use skill_up.Media
use skill_up.Media.Image.{Transformations}

pub record PhotoPayload : Type 0 where
  pub user_id : Text
  pub temp_key : Text
  pub target_key : Text
  pub transformations : Transformations

-- Which calls of MinIO reject.
pub record PhotoFaults : Type 0 where
  pub get : Bool
  pub put : Bool
  pub delete : Bool

-- What a promise comes to.
pub data Settled : Type 0 where
  resolved rejected : Settled

-- What the channel is told: `ack(msg)` or `nack(msg, false, false)`, which does not requeue.
pub data Verdict : Type 0 where
  ack nack : Verdict

unfoldable pub final_target_key : PhotoPayload → Text
final_target_key p = or_else p.target_key (codes "avatars/" ++ p.user_id ++ codes "/avatar.webp")

abbrev pub webp : Text
webp = codes "image/webp"

-- Outside 1 KB to 5 MB.
unfoldable pub bad_length : ℕ → Bool
bad_length n = ltb n 1024 || ltb (5 * 1024 * 1024) n

-- The objects once a deletion whose rejection is ignored has been tried.
abbrev pub or_kept {ℓ} : {A : Type ℓ} → A → Option A → A
or_kept o none = o
or_kept o (some o') = o'

module _ (C : Minio) (bucket : Text) (process : Text → Transformations → Option Text)
    (f : PhotoFaults) where
  unfoldable pub purge : Text → C.Objects → C.Objects
  purge temp_key o = or_kept o (Media.delete_object C bucket f.delete temp_key [] o)

  -- 3 and 4: the upload and the deletion of the raw file.
  unfoldable pub store_avatar : PhotoPayload → Text → Text → C.Objects → Settled × C.Objects
  store_avatar p temp_key processed o =
      elim (Media.put_object C bucket f.put (final_target_key p) processed webp [] o) [
        | none ↦ (rejected, o)
        | some o' ↦ (resolved, purge temp_key o')
      ]

  -- The check of the size, and 2.
  unfoldable pub process_raw : PhotoPayload → Text → Text → C.Objects → Settled × C.Objects
  process_raw p temp_key raw o =
      if bad_length (length raw)
      then (resolved, purge temp_key o)
      else elim (process raw p.transformations) [
        | none ↦ (rejected, o)
        | some out ↦ store_avatar p temp_key out o
      ]

  -- 1, for a temporary key; without one the message is passed over.
  unfoldable pub handle_key : PhotoPayload → Text → C.Objects → Settled × C.Objects
  handle_key p [] o = (resolved, o)
  handle_key p (c ∷ k) o = elim (Media.get_object C bucket f.get (c ∷ k) [] o) [
    | none ↦ (rejected, o)
    | some raw ↦ process_raw p (c ∷ k) raw o
  ]

  unfoldable pub handle_photo_process : PhotoPayload → C.Objects → Settled × C.Objects
  handle_photo_process p o = handle_key p p.temp_key o

  abbrev pub settle : Settled × C.Objects → Verdict × C.Objects
  settle (resolved, o) = (ack, o)
  settle (rejected, o) = (nack, o)

  -- The callback, on what `JSON.parse` makes of a message; `none` is its exception.
  unfoldable pub consume : Option PhotoPayload → C.Objects → Verdict × C.Objects
  consume none o = (nack, o)
  consume (some p) o = settle (handle_photo_process p o)
