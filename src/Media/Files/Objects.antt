-- ===== src/Media/Files/Objects.antt =====
-- The files that exist after an upload and after a deletion.
use skill_up.Base.{
  ℕ, ◌≡◌, refl, ap, sym, Option, ◌∙◌, Bool, true, false, some, none, [], ◌∷◌, if◌then◌else◌, length,
}
use skill_up.Text.{Text, codes, text_eq_refl, or_else}
use skill_up.Media.{Minio, IsObjectStore, Stat, absent, checked, same_place, target_bucket}
use skill_up.Media
use skill_up.Media.Files.{file_reply, check_file_exists, delete_file}

module _ (C : Minio) (store : IsObjectStore C) (default_bucket : Text) where
  -- A file that was put is reported with its size and its type, where MinIO answers.
  pub put-check :
      (c : ℕ) (k buffer type bucket : Text) (o o' : C.Objects)
      → Media.put_object C default_bucket false (c ∷ k) buffer type bucket o ≡ some o'
      → check_file_exists C default_bucket false (c ∷ k) bucket o' ≡ record {
        exists = true;
        file_size = length buffer;
        content_type = or_else type (codes "application/octet-stream");
      }
  unfolding check_file_exists Media.check_file_exists Media.put_object
  put-check c k buffer type bucket o o' h =
      let b = target_bucket C default_bucket bucket in
      ap (λ x. file_reply (checked (C.stat_object b (c ∷ k) x))) (sym (some_eq h))
      ∙ rw
          (
            store.stat-put_object b (c ∷ k) b (c ∷ k) buffer type o,
            text_eq_refl b,
            text_eq_refl (c ∷ k),
          )
          refl
    where
      some_eq : {x y : C.Objects} → some x ≡ some y → x ≡ y
      some_eq e = cc

  -- A deletion that is reported removes its file and no other.
  pub delete-check :
      (down : Bool) (c c' : ℕ) (k k' bucket bucket' : Text) (o : C.Objects)
      → (delete_file C default_bucket down (c ∷ k) bucket o).0.success ≡ true
      → check_file_exists C default_bucket false
          (c' ∷ k')
          bucket'
          (delete_file C default_bucket down (c ∷ k) bucket o).1
        ≡ (if same_place
              (target_bucket C default_bucket bucket)
              (c ∷ k)
              (target_bucket C default_bucket bucket')
              (c' ∷ k')
            then record { exists = false; file_size = 0; content_type = [] }
            else check_file_exists C default_bucket false (c' ∷ k') bucket' o)
  unfolding check_file_exists Media.check_file_exists delete_file Media.delete_object
  delete-check true c c' k k' bucket bucket' o h = cc
  delete-check false c c' k k' bucket bucket' o h =
      let b = target_bucket C default_bucket bucket in
      let b' = target_bucket C default_bucket bucket' in
      ap (λ x. file_reply (checked x)) (store.stat-remove_object b' (c' ∷ k') b (c ∷ k) o)
      ∙ chosen (C.stat_object b' (c' ∷ k') o) (same_place b (c ∷ k) b' (c' ∷ k'))
    where
      chosen :
          (x : Option Stat) (here : Bool)
          → file_reply (checked (if here then none else x))
            ≡ (if here then file_reply absent else file_reply (checked x))
      chosen x true = refl
      chosen x false = refl
