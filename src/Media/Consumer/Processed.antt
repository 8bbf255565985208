-- ===== src/Media/Consumer/Processed.antt =====
-- What the processing of a photo leaves in MinIO.
use skill_up.Base.{
  ℕ, ◌≡◌, refl, ap, ◌∙◌, Bool, true, false, Option, none, some, [], ◌∷◌, if◌then◌else◌, arith,
  length,
}
use skill_up.Text.{Text, text_eq, text_eq_refl}
use skill_up.Media.{Minio, IsObjectStore, same_place}
use skill_up.Media
use skill_up.Media.Image.{Transformations}
use skill_up.Media.Consumer.{
  PhotoPayload, PhotoFaults, Settled, resolved, rejected, Verdict, ack, nack, bad_length, purge,
  store_avatar, process_raw, handle_key, handle_photo_process, settle, consume,
}

module _ (C : Minio) (bucket : Text) (process : Text → Transformations → Option Text)
    (f : PhotoFaults) where
  store_avatar-rejected :
      (p : PhotoPayload) (k out : Text) (o o' : C.Objects)
      → store_avatar C bucket process f p k out o ≡ (rejected, o')
      → o' ≡ o
  unfolding store_avatar Media.put_object
  store_avatar-rejected p k out o o' h = ground arith

  processed-rejected :
      (p : PhotoPayload) (k : Text) (r : Option Text) (o o' : C.Objects)
      → ◌≡◌ {A = Settled × C.Objects}
          (elim r [ none ↦ (rejected, o) | some out ↦ store_avatar C bucket process f p k out o ])
          (rejected, o')
      → o' ≡ o
  processed-rejected p k none o o' h = cc
  processed-rejected p k (some out) o o' h = store_avatar-rejected p k out o o' h

  process_raw-rejected :
      (p : PhotoPayload) (k raw : Text) (bad : Bool) (o o' : C.Objects)
      → ◌≡◌ {A = Settled × C.Objects}
          (if bad
            then (resolved, purge C bucket process f k o)
            else elim (process raw p.transformations) [
              | none ↦ (rejected, o)
              | some out ↦ store_avatar C bucket process f p k out o
            ])
          (rejected, o')
      → o' ≡ o
  process_raw-rejected p k raw true o o' h = cc
  process_raw-rejected p k raw false o o' h =
      processed-rejected p k (process raw p.transformations) o o' h

  raw-rejected :
      (p : PhotoPayload) (k : Text) (r : Option Text) (o o' : C.Objects)
      → ◌≡◌ {A = Settled × C.Objects}
          (elim r [ none ↦ (rejected, o) | some raw ↦ process_raw C bucket process f p k raw o ])
          (rejected, o')
      → o' ≡ o
  unfolding process_raw
  raw-rejected p k none o o' h = cc
  raw-rejected p k (some raw) o o' h = process_raw-rejected p k raw (bad_length (length raw)) o o' h

  handle_key-rejected :
      (p : PhotoPayload) (k : Text) (o o' : C.Objects)
      → handle_key C bucket process f p k o ≡ (rejected, o')
      → o' ≡ o
  unfolding handle_key
  handle_key-rejected p [] o o' h = cc
  handle_key-rejected p (c ∷ k) o o' h =
      raw-rejected p (c ∷ k) (Media.get_object C bucket f.get (c ∷ k) [] o) o o' h

  settle-nack :
      (r : Settled × C.Objects) (o' : C.Objects)
      → settle C bucket process f r ≡ (nack, o')
      → r ≡ (rejected, o')
  settle-nack (resolved, o) o' h = cc
  settle-nack (rejected, o) o' h = ap (λ (x : Verdict × C.Objects). (rejected, x.1)) h

  -- A message that is rejected has changed no object.
  pub consume-unchanged :
      (m : Option PhotoPayload) (o o' : C.Objects)
      → consume C bucket process f m o ≡ (nack, o')
      → o' ≡ o
  unfolding consume handle_photo_process
  consume-unchanged none o o' h = cc
  consume-unchanged (some p) o o' h = handle_key-rejected p p.temp_key o o' (settle-nack _ o' h)

  -- The object of a key once the raw file is gone.
  removed :
      (store : IsObjectStore C) (k j : Text) (o : C.Objects)
      → C.get_object bucket j (C.remove_object bucket k o)
        ≡ (if text_eq k j then none else C.get_object bucket j o)
  removed store k j o = rw (store.get-remove_object bucket j bucket k o, text_eq_refl bucket) refl

  purge_lem :
      (k : Text) (o : C.Objects)
      → f.delete ≡ false
      → purge C bucket process f k o ≡ C.remove_object bucket k o
  unfolding purge Media.delete_object
  purge_lem k o h = rw h refl

  handle_key_lem :
      (p : PhotoPayload) (c : ℕ) (k raw : Text) (o : C.Objects)
      → f.get ≡ false
      → C.get_object bucket (c ∷ k) o ≡ some raw
      → handle_key C bucket process f p (c ∷ k) o ≡ process_raw C bucket process f p (c ∷ k) raw o
  unfolding handle_key Media.get_object process_raw purge
  handle_key_lem p c k raw o h r = rw (handle_key, Media.get_object, h, r) refl

  refuse_lem :
      (p : PhotoPayload) (k raw : Text) (o : C.Objects)
      → f.delete ≡ false
      → bad_length (length raw) ≡ true
      → process_raw C bucket process f p k raw o ≡ (resolved, C.remove_object bucket k o)
  unfolding process_raw
  refuse_lem p k raw o d unfit =
      rw (process_raw, unfit) (ap (λ (x : C.Objects). (resolved, x)) (purge_lem k o d))

  -- A photo outside the permitted sizes is acknowledged and only deleted, where MinIO answers.
  pub consume_refused :
      (store : IsObjectStore C) (p : PhotoPayload) (c : ℕ) (k raw j : Text) (o : C.Objects)
      → f.get ≡ false
      → f.delete ≡ false
      → p.temp_key ≡ c ∷ k
      → C.get_object bucket (c ∷ k) o ≡ some raw
      → bad_length (length raw) ≡ true
      → ((consume C bucket process f (some p) o).0 ≡ ack)
        × (C.get_object bucket j (consume C bucket process f (some p) o).1
            ≡ (if text_eq (c ∷ k) j then none else C.get_object bucket j o))
  unfolding consume handle_photo_process process_raw
  consume_refused store p c k raw j o g d key there unfit =
      let e =
        ap (λ t. handle_key C bucket process f p t o) key
        ∙ handle_key_lem p c k raw o g there
        ∙ refuse_lem p (c ∷ k) raw o d unfit in
      (
        ap (λ r. (settle C bucket process f r).0) e,
        ap (λ r. C.get_object bucket j (settle C bucket process f r).1) e
            ∙ removed store (c ∷ k) j o,
      )
