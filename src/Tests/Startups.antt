-- ===== src/Tests/Startups.antt =====
-- The start of the media service on a bucket that is missing.
use skill_up.Base.{refl, Bool, false, []}
use skill_up.Text.{Text, codes, starts_with}
use skill_up.Broker.Topics.{without_last, without_last-append}
use skill_up.Media.Startup.{Bucket, StartupFaults, on_module_init}
use skill_up.Media.Startup.Access.{IsGlob, Access, on_module_init-Access}

abbrev glob : Text → Text → Bool
glob p x = starts_with (without_last p) x

glob_law : IsGlob glob
glob_law = record { tail = λ p x h. rw (without_last-append p b'*') refl }

abbrev answering : StartupFaults
answering = record {
  bucket_exists = false;
  make_bucket = false;
  set_policy = false;
  set_lifecycle = false;
}

abbrev missing : Bucket
missing = record { exists = false; policy = []; rules = [] }

on_module_init-Access_example :
    Access glob_law (codes "media") refl (on_module_init answering (codes "media") missing)
on_module_init-Access_example =
    on_module_init-Access glob_law (codes "media") refl answering missing refl refl refl refl
