-- ===== src/Uploads/Writes.antt =====
-- The writes of Redis that a registration makes, as moves of an upload.
use skill_up.Base.{
  ◌≡◌, refl, sym, ap, subst, ◌∙◌, ◌⊎◌, Bool, true, false, none, some, [], ◌∷◌, if◌then◌else◌, arith,
  Bool-cases, inl, inr,
}
use skill_up.Text.{Text, codes, text_eq, text_eq→eq, or_else}
use skill_up.Services.{Services, IsRedis}
use skill_up.Media.Files.{pending}
use skill_up.Users.Keys.{
  otp_key, cooldown_key, upload_key, upload_key_eq, otp_upload_apart, cooldown_upload_apart,
}
use skill_up.Users.Register.{consumed}
use skill_up.Uploads.{Token, missing, unused, used_up, token_of_text, token_of, Move, used}

pub token_pending : token_of (some pending) ≡ unused
unfolding token_of token_of_text text_eq
token_pending = refl

token_consumed : token_of (some consumed) ≡ used_up
unfolding token_of token_of_text text_eq
token_consumed = refl

token_none : token_of none ≡ missing
unfolding token_of
token_none = refl

pub or_same : (a : Text) → or_else a a ≡ a
or_same [] = refl
or_same (x ∷ a) = refl

module _ (S : Services) (redis : IsRedis S) (j : Text) where
  abbrev pub token_in : S.Store → Token
  token_in s = token_of (S.get (upload_key j) s)

  -- What the writes of Redis do to the upload `j`.
  pub marked :
      (k : Text) (s : S.Store)
      → token_in (S.set_ex (upload_key k) consumed 600 s)
        ≡ (if text_eq k j then used_up else token_in s)
  marked k s = chosen (text_eq k j) (
      redis.get-set_ex (upload_key j) (upload_key k) consumed 600 s (omega arith)
      ∙ ap (λ b. if b then some consumed else S.get (upload_key j) s) (upload_key_eq k j))
    where
      chosen :
          (here : Bool)
          → S.get (upload_key j) (S.set_ex (upload_key k) consumed 600 s)
            ≡ (if here then some consumed else S.get (upload_key j) s)
          → token_in (S.set_ex (upload_key k) consumed 600 s)
            ≡ (if here then used_up else token_in s)
      chosen true e = ap token_of e ∙ token_consumed
      chosen false e = ap token_of e

  pub dropped :
      (k : Text) (s : S.Store)
      → token_in (S.del (upload_key k) s) ≡ (if text_eq k j then missing else token_in s)
  dropped k s = chosen (text_eq k j) (
      redis.get-del (upload_key j) (upload_key k) s
      ∙ ap (λ b. if b then none else S.get (upload_key j) s) (upload_key_eq k j))
    where
      chosen :
          (here : Bool)
          → S.get (upload_key j) (S.del (upload_key k) s)
            ≡ (if here then none else S.get (upload_key j) s)
          → token_in (S.del (upload_key k) s) ≡ (if here then missing else token_in s)
      chosen true e = ap token_of e ∙ token_none
      chosen false e = ap token_of e

  module _ (t : Token) where
    abbrev pub Reached : S.Store → Type 0
    Reached s = Move t (token_in s)

    pub keep :
        (s s' : S.Store) → S.get (upload_key j) s' ≡ S.get (upload_key j) s → Reached s → Reached s'
    keep s s' e m = subst (Move t) (ap token_of (sym e)) m

    pub code-Reached :
        (email h : Text) (s : S.Store) → Reached s → Reached (S.set_ex (otp_key email) h 600 s)
    code-Reached email h s = keep s _ (
        redis.get-set_ex (upload_key j) (otp_key email) h 600 s (omega arith)
        ∙ rw (otp_upload_apart email j) refl)

    pub cooldown-Reached :
        (email : Text) (s : S.Store)
        → Reached s
        → Reached (S.set_ex (cooldown_key email) (codes "1") 60 s)
    cooldown-Reached email s = keep s _ (
        redis.get-set_ex (upload_key j) (cooldown_key email) (codes "1") 60 s (omega arith)
        ∙ rw (cooldown_upload_apart email j) refl)

    pub drop-Reached : (email : Text) (s : S.Store) → Reached s → Reached (S.del (otp_key email) s)
    drop-Reached email s =
        keep s _
          (redis.get-del (upload_key j) (otp_key email) s ∙ rw (otp_upload_apart email j) refl)

    -- A mark on an unused upload.
    pub mark-Reached :
        (k : Text) (s : S.Store)
        → (k ≡ j → t ≡ unused)
        → Reached s
        → Reached (S.set_ex (upload_key k) consumed 600 s)
    mark-Reached k s h m = subst (Move t) (sym (marked k s)) (chosen (Bool-cases (text_eq k j)))
      where
        chosen :
            (text_eq k j ≡ true) ⊎ (text_eq k j ≡ false)
            → Move t (if text_eq k j then used_up else token_in s)
        chosen (inl same) = rw (same, h (text_eq→eq k j same)) used
        chosen (inr other) = rw other m
