-- ===== src/Media/Cleanup.antt =====
-- apps/media-service/src/storage/temp-cleanup.service.ts: `cleanExpiredTempUploads`.
-- `listObjectsV2` is a parameter: what its stream gives before it ends or fails. The timers that call it are left out.
pub mod Sweep
use skill_up.Base.{
  ℕ, ◌-◌, ◌*◌, Bool, true, false, Option, none, some, List, [], ◌∷◌, if◌then◌else◌, leb,
}
use skill_up.Text.{Text, codes}
use skill_up.Media.{Minio}
use skill_up.Media
use skill_up.Media.Consumer.{or_kept}

-- An item of the listing; a name that is missing is empty. Times are in milliseconds.
pub record Item : Type 0 where
  pub name : Text
  pub last_modified : Option ℕ

-- The prefix of the listing.
abbrev pub temp_prefix : Text
temp_prefix = codes "temp_uploads/"

-- Two hours.
abbrev pub max_temp_age_ms : ℕ
max_temp_age_ms = 2 * 60 * 60 * 1000

abbrev pub modified : ℕ → Option ℕ → ℕ
modified now none = now
modified now (some t) = t

-- `ageMs >= MAX_TEMP_AGE_MS`; an item from the future is not expired.
unfoldable pub is_expired : ℕ → Item → Bool
is_expired now i = leb max_temp_age_ms (now - modified now i.last_modified)

pub record Cleaner (C : Minio) : Type 0 where
  pub is_cleaning : Bool
  pub objects : C.Objects

module _ (C : Minio) (bucket : Text) (down : Text → Bool) (now : ℕ) where
  -- The deletion of one expired object, whose rejection is only logged.
  unfoldable pub visit_named : Text → Item → C.Objects → C.Objects
  visit_named [] i o = o
  visit_named (c ∷ n) i o =
      if is_expired now i
      then or_kept o (Media.delete_object C bucket (down (c ∷ n)) (c ∷ n) bucket o)
      else o

  -- The `for await`, over what the stream gave before it ended or failed.
  unfoldable pub sweep : List Item → C.Objects → C.Objects
  sweep [] o = o
  sweep (i ∷ is) o = sweep is (visit_named i.name i o)

  -- The flag guards the sweep, and `finally` resets it.
  unfoldable pub clean_expired_temp_uploads :
      (Text → Text → C.Objects → List Item) → Cleaner C → Cleaner C
  clean_expired_temp_uploads list_objects_v2 s = if s.is_cleaning then s else record {
    is_cleaning = false;
    objects = sweep (list_objects_v2 bucket temp_prefix s.objects) s.objects;
  }
