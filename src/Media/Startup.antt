-- ===== src/Media/Startup.antt =====
-- apps/media-service/src/storage/minio.service.ts: `onModuleInit`, with the policy of the bucket and
-- the rule that expires temporary uploads. The state is what MinIO keeps of the bucket.
pub mod Access
use skill_up.Base.{
  ℕ, Bool, true, false, ◌||◌, Option, none, some, List, [], ◌∷◌, ◌++◌, if◌then◌else◌,
}
use skill_up.Text.{Text, codes, starts_with}

-- A statement that allows everyone its actions; `prefixes` is its condition on `s3:prefix`.
pub record Statement : Type 0 where
  pub action : Text
  pub resources : List Text
  pub prefixes : List Text

-- A rule of the life cycle that is enabled.
pub record Rule : Type 0 where
  pub prefix : Text
  pub days : ℕ

pub record Bucket : Type 0 where
  pub exists : Bool
  pub policy : List Statement
  pub rules : List Rule

-- Which calls of MinIO reject.
pub record StartupFaults : Type 0 where
  pub bucket_exists : Bool
  pub make_bucket : Bool
  pub set_policy : Bool
  pub set_lifecycle : Bool

abbrev pub arn : Text → Text
arn bucket = codes "arn:aws:s3:::" ++ bucket

unfoldable pub public_read_policy : Text → List Statement
public_read_policy bucket =
    record { action = codes "s3:GetBucketLocation"; resources = arn bucket ∷ []; prefixes = [] }
    ∷ record {
      action = codes "s3:ListBucket";
      resources = arn bucket ∷ [];
      prefixes = codes "profile_photos" ∷ codes "avatars" ∷ [];
    }
    ∷ record {
      action = codes "s3:GetObject";
      resources = (arn bucket ++ codes "/profile_photos*") ∷ (arn bucket ++ codes "/avatars*") ∷ [];
      prefixes = [];
    }
    ∷ []

unfoldable pub lifecycle_config : List Rule
lifecycle_config = record { prefix = codes "temp_uploads/"; days = 1 } ∷ []

module _ (f : StartupFaults) where
  -- A rejection is only logged.
  unfoldable pub ensure_public_read_policy : Text → Bucket → Bucket
  ensure_public_read_policy bucket b =
      if f.set_policy then b else record b { policy = public_read_policy bucket }

  unfoldable pub ensure_lifecycle_policy : Bucket → Bucket
  ensure_lifecycle_policy b = if f.set_lifecycle then b else record b { rules = lifecycle_config }

  -- `makeBucket`, for a bucket that does not exist; `none` is a rejection.
  unfoldable pub ensure_bucket : Bucket → Option Bucket
  ensure_bucket b =
      if b.exists then some b else if f.make_bucket then none else some (record b { exists = true })

  abbrev pub policies : Text → Bucket → Option Bucket → Bucket
  policies bucket b none = b
  policies bucket b (some b') = ensure_lifecycle_policy (ensure_public_read_policy bucket b')

  unfoldable pub on_module_init : Text → Bucket → Bucket
  on_module_init bucket b = if f.bucket_exists then b else policies bucket b (ensure_bucket b)
