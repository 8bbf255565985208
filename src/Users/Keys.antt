-- ===== src/Users/Keys.antt =====
-- The Redis keys of the users service, and that its families of keys are apart.
use skill_up.Base.{◌≡◌, refl, false, ◌++◌}
use skill_up.Session.{session_key}
use skill_up.Text.{Text, codes, text_eq}

unfoldable pub login_rate_key : Text → Text
login_rate_key identifier = codes "rate:login:account:" ++ identifier

unfoldable pub otp_key : Text → Text
otp_key email = codes "otp:verify:" ++ email

unfoldable pub verify_rate_key : Text → Text
verify_rate_key email = codes "rate:verify:" ++ email

unfoldable pub cooldown_key : Text → Text
cooldown_key email = codes "cooldown:verify:" ++ email

unfoldable pub legacy_attempts_key : Text → Text
legacy_attempts_key email = codes "otp:attempts:" ++ email

unfoldable pub upload_key : Text → Text
upload_key temp_key = codes "upload:temp:" ++ temp_key

-- Two keys of one family are the same exactly where their subjects are.
pub login_rate_key_eq : (a b : Text) → text_eq (login_rate_key a) (login_rate_key b) ≡ text_eq a b
unfolding login_rate_key text_eq
login_rate_key_eq a b = refl

pub otp_rate_apart : (a b : Text) → text_eq (otp_key a) (verify_rate_key b) ≡ false
unfolding otp_key verify_rate_key text_eq
otp_rate_apart a b = refl

pub rate_otp_apart : (a b : Text) → text_eq (verify_rate_key a) (otp_key b) ≡ false
unfolding otp_key verify_rate_key text_eq
rate_otp_apart a b = refl

pub otp_cooldown_apart : (a b : Text) → text_eq (otp_key a) (cooldown_key b) ≡ false
unfolding otp_key cooldown_key text_eq
otp_cooldown_apart a b = refl

pub cooldown_otp_apart : (a b : Text) → text_eq (cooldown_key a) (otp_key b) ≡ false
unfolding otp_key cooldown_key text_eq
cooldown_otp_apart a b = refl

pub cooldown_rate_apart : (a b : Text) → text_eq (cooldown_key a) (verify_rate_key b) ≡ false
unfolding verify_rate_key cooldown_key text_eq
cooldown_rate_apart a b = refl

pub rate_cooldown_apart : (a b : Text) → text_eq (verify_rate_key a) (cooldown_key b) ≡ false
unfolding verify_rate_key cooldown_key text_eq
rate_cooldown_apart a b = refl

pub legacy_otp_apart : (a b : Text) → text_eq (legacy_attempts_key a) (otp_key b) ≡ false
unfolding legacy_attempts_key otp_key text_eq
legacy_otp_apart a b = refl

pub legacy_cooldown_apart : (a b : Text) → text_eq (legacy_attempts_key a) (cooldown_key b) ≡ false
unfolding legacy_attempts_key cooldown_key text_eq
legacy_cooldown_apart a b = refl

pub legacy_rate_apart : (a b : Text) → text_eq (legacy_attempts_key a) (verify_rate_key b) ≡ false
unfolding legacy_attempts_key verify_rate_key text_eq
legacy_rate_apart a b = refl

pub upload_otp_apart : (a b : Text) → text_eq (upload_key a) (otp_key b) ≡ false
unfolding upload_key otp_key text_eq
upload_otp_apart a b = refl

pub otp_upload_apart : (a b : Text) → text_eq (otp_key a) (upload_key b) ≡ false
unfolding upload_key otp_key text_eq
otp_upload_apart a b = refl

pub upload_cooldown_apart : (a b : Text) → text_eq (upload_key a) (cooldown_key b) ≡ false
unfolding upload_key cooldown_key text_eq
upload_cooldown_apart a b = refl

pub upload_rate_apart : (a b : Text) → text_eq (upload_key a) (verify_rate_key b) ≡ false
unfolding upload_key verify_rate_key text_eq
upload_rate_apart a b = refl

pub session_otp_apart : (sid a : Text) → text_eq (session_key sid) (otp_key a) ≡ false
unfolding session_key otp_key text_eq
session_otp_apart sid a = refl

pub session_rate_apart : (sid a : Text) → text_eq (session_key sid) (verify_rate_key a) ≡ false
unfolding session_key verify_rate_key text_eq
session_rate_apart sid a = refl

pub cooldown_upload_apart : (a b : Text) → text_eq (cooldown_key a) (upload_key b) ≡ false
unfolding upload_key cooldown_key text_eq
cooldown_upload_apart a b = refl

pub upload_key_eq : (a b : Text) → text_eq (upload_key a) (upload_key b) ≡ text_eq a b
unfolding upload_key text_eq
upload_key_eq a b = refl
