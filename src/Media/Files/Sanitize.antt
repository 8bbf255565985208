-- ===== src/Media/Files/Sanitize.antt =====
-- Sanitized file names and the keys of avatars, which the registration takes only in the form that
-- apps/api-gateway/src/users/dto/register-request.dto.ts checks.
use skill_up.Base.{
  ℕ, suc, ◌↔◌, ◌≡◌, refl, sym, ap, ◌∙◌, Bool, true, false, ◌&&◌, ◌||◌, ◌==◌, [], ◌∷◌, ◌++◌, arith,
  all, drop, length, leb, both_true,
}
use skill_up.Text.{Text, codes, text_eq, starts_with, or_else, to_lower, lower, is_digit}
use skill_up.Media.Files.{
  UploadUrlRequest, legal, legal_or_underscore, sanitize, avatar, folder_of, file_key_of,
  category_of,
}

-- `[a-zA-Z0-9._-]`
abbrev pub key_char : ℕ → Bool
key_char c = legal c || c == 95

-- `^temp_uploads\/avatars\/[a-zA-Z0-9._-]+$`
abbrev pub some_key_chars : Text → Bool
some_key_chars [] = false
some_key_chars (c ∷ s) = all key_char (c ∷ s)

unfoldable pub is_avatar_key : Text → Bool
is_avatar_key key = starts_with (codes "temp_uploads/avatars/") key && some_key_chars (drop 21 key)

-- A character of a sanitized name: a small letter, a digit, or one of `.`, `-` and `_`.
abbrev pub clean_char : ℕ → Bool
clean_char c = (leb b'a' c && leb c b'z') || is_digit c || c == 45 || c == 46 || c == 95

clean_one : (c : ℕ) → clean_char (lower (legal_or_underscore c)) ≡ true
clean_one c = ground arith

clean_fixed : (c : ℕ) → clean_char c ≡ true → lower (legal_or_underscore c) ≡ c
clean_fixed c h = ground arith

clean_key : (c : ℕ) → clean_char c ≡ true → key_char c ≡ true
clean_key c h = ground arith

sanitize_clean : (name : Text) → all clean_char (sanitize name) ≡ true
unfolding sanitize to_lower
sanitize_clean [] = refl
sanitize_clean (c ∷ s) = rw (clean_one c) (sanitize_clean s)

sanitize_fixed : (name : Text) → all clean_char name ≡ true → sanitize name ≡ name
unfolding sanitize to_lower
sanitize_fixed [] h = refl
sanitize_fixed (c ∷ s) h =
    let (a, b) = both_true (clean_char c) (all clean_char s) h in
    rw (clean_fixed c a, sanitize_fixed s b) refl

length-sanitize : (name : Text) → length (sanitize name) ≡ length name
unfolding sanitize to_lower
length-sanitize [] = refl
length-sanitize (c ∷ s) = ap suc (length-sanitize s)

-- Sanitizing a file name keeps its length and leaves small letters, digits, dots, dashes and
-- underscores only; exactly the names of that form are left as they are.
pub sanitize_lem :
    (name : Text)
    → (length (sanitize name) ≡ length name)
      × (all clean_char (sanitize name) ≡ true)
      × (sanitize (sanitize name) ≡ sanitize name)
      × ((all clean_char name ≡ true) ↔ (sanitize name ≡ name))
sanitize_lem name = (
  length-sanitize name,
  sanitize_clean name,
  sanitize_fixed (sanitize name) (sanitize_clean name),
  (sanitize_fixed name, λ e. ap (all clean_char) (sym e) ∙ sanitize_clean name),
)

all-clean_key : (s : Text) → all clean_char s ≡ true → all key_char s ≡ true
all-clean_key [] h = refl
all-clean_key (c ∷ s) h =
    let (a, b) = both_true (clean_char c) (all clean_char s) h in
    rw (clean_key c a) (all-clean_key s b)

all-append : (p : ℕ → Bool) (s t : Text) → all p s ≡ true → all p t ≡ true → all p (s ++ t) ≡ true
all-append p [] t h k = k
all-append p (c ∷ s) t h k = let (a, b) = both_true (p c) (all p s) h in rw a (all-append p s t b k)

some_key_chars_joined :
    (s t : Text)
    → all key_char s ≡ true
    → all key_char t ≡ true
    → some_key_chars (s ++ codes "_" ++ t) ≡ true
some_key_chars_joined [] t h k = k
some_key_chars_joined (d ∷ s) t h k =
    all-append key_char (d ∷ s ++ codes "_") t (all-append key_char (d ∷ s) (codes "_") h refl) k

-- The key of an avatar passes the check of the registration, where the drawn id has only characters
-- of a UUID.
pub file_key-IsAvatar :
    (r : UploadUrlRequest) (uuid : Text)
    → category_of r ≡ avatar
    → all key_char uuid ≡ true
    → is_avatar_key (file_key_of r uuid) ≡ true
unfolding file_key_of folder_of is_avatar_key starts_with text_eq
file_key-IsAvatar r uuid h u =
    let name = sanitize (or_else r.filename (codes "upload.jpg")) in
    rw h (
      some_key_chars_joined uuid name u
        (all-clean_key name (sanitize_clean (or_else r.filename (codes "upload.jpg")))))
