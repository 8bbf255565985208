-- ===== src/Redis/Tokens.antt =====
-- What is read back: revoked tokens and values stored as JSON.
use skill_up.Base.{
  ℕ, zero, suc, ◌<◌, ◌≡◌, ◌≢◌, refl, ◌∙◌, ◌||◌, Option, none, some, [], ◌∷◌, arith, Bool-cases, inl,
  inr,
}
use skill_up.Text.{Text, codes, text_eq, text_eq_refl}
use skill_up.Values.{Value}
use skill_up.Services.{Services, IsRedis}
use skill_up.Redis.{
  blacklist_key, blacklist_token, is_token_blacklisted, set_json, get_json, parsed,
}

blacklist_key_eq : (a b : Text) → text_eq (blacklist_key a) (blacklist_key b) ≡ text_eq a b
unfolding blacklist_key text_eq
blacklist_key_eq a b = refl

module _ (S : Services) (redis : IsRedis S) where
  -- Once a token is revoked for a positive time, it is found revoked, and every other token is found
  -- as before.
  pub is_token_blacklisted-blacklist_token :
      (jti other : Text) (t : ℕ) (s : S.Store)
      → 0 < t
      → is_token_blacklisted S other (blacklist_token S jti t s)
        ≡ (text_eq jti other || is_token_blacklisted S other s)
  unfolding is_token_blacklisted blacklist_token
  is_token_blacklisted-blacklist_token jti other t s h =
      let a =
        redis.exists-set_ex (blacklist_key other) (blacklist_key jti) (codes "revoked") t s h in
      elim (Bool-cases (text_eq jti other)) [
        | inl same ↦ rw (a, blacklist_key_eq jti other, same, blacklist_token) refl
        | inr apart ↦ rw (a, blacklist_key_eq jti other, apart, blacklist_token) refl
      ]

  module _ (stringify : Value → Text) (parse : Text → Option Value) where
    parsed-some : (t : Text) → t ≢ [] → parsed S stringify parse (some t) ≡ parse t
    parsed-some [] h = absurd (h refl)
    parsed-some (c ∷ t) h = refl

    -- A value that the serialiser writes as a text that is not empty and parses back is read back from
    -- its key, whether it is stored with a time to live or without.
    pub get_json-set_json :
        (key : Text) (value : Value) (ttl : Option ℕ) (s : S.Store)
        → stringify value ≢ []
        → parse (stringify value) ≡ some value
        → get_json S stringify parse key (set_json S stringify parse key value ttl s) ≡ some value
    unfolding get_json set_json
    get_json-set_json key value none s filled back =
        rw (redis.get-set key key (stringify value) s, text_eq_refl key)
          (parsed-some (stringify value) filled ∙ back)
    get_json-set_json key value (some zero) s filled back =
        rw (redis.get-set key key (stringify value) s, text_eq_refl key)
          (parsed-some (stringify value) filled ∙ back)
    get_json-set_json key value (some (suc t)) s filled back =
        rw (redis.get-set_ex key key (stringify value) (suc t) s (omega arith), text_eq_refl key)
          (parsed-some (stringify value) filled ∙ back)
