-- ===== src/Uploads.antt =====
-- The life of an upload, as Redis keeps it under `upload:temp:`: what the media service, the gateway
-- and the users service promise together. Its three services are modelled in Media/Files,
-- Gateway/Registration and Users/Register.
pub mod Writes
pub mod Refined
pub mod Once
use skill_up.Base.{◌≡◌, refl, true, false, Option, none, some, [], ◌∷◌, if◌then◌else◌}
use skill_up.Text.{Text, text_eq}
use skill_up.Users.Register.{consumed}
use skill_up.Media.Files.{pending}

pub data Token : Type 0 where
  missing unused used_up unknown : Token

-- An empty status counts as none.
unfoldable pub token_of_text : Text → Token
token_of_text [] = missing
token_of_text (c ∷ t) =
    if text_eq (c ∷ t) consumed
    then used_up
    else if text_eq (c ∷ t) pending
    then unused
    else unknown

unfoldable pub token_of : Option Text → Token
token_of none = missing
token_of (some t) = token_of_text t

-- What a registration may do to an upload: nothing, use it up, or remove it with its file.
pub data Move : Token → Token → Type 0 where
  stays : (t : Token) → Move t t
  used : Move unused used_up
  removed : Move unused missing

-- An upload that is used up stays so.
pub Move-used_up : {t u : Token} → Move t u → t ≡ used_up → u ≡ used_up
Move-used_up (stays t) e = e
Move-used_up used e = cc
Move-used_up removed e = cc
