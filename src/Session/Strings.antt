-- ===== src/Session/Strings.antt =====
-- The script leaves the string keys of the other components alone.
use skill_up.Base.{ℕ, ◌<◌, ◌≡◌, refl, ◌∙◌, false, List, [], ◌∷◌, Bool-cases, inl, inr, ltb}
use skill_up.Text.{Text, text_eq}
use skill_up.Services.{Services, IsRedis}
use skill_up.Session.{
  SessionParams, session_key, user_sessions_key, delete_sessions, evict, list_session, save_session,
}

module _ {S : Services} (law : IsRedis S) (j : Text)
    (apart : (sid : Text) → text_eq (session_key sid) j ≡ false) where
  get-delete_sessions :
      (sids : List Text) (s : S.Store) → S.get j (delete_sessions S sids s) ≡ S.get j s
  unfolding delete_sessions
  get-delete_sessions [] s = refl
  get-delete_sessions (sid ∷ sids) s =
      get-delete_sessions sids (S.del (session_key sid) s)
      ∙ law.get-del j (session_key sid) s
      ∙ rw (apart sid)

  get-evict :
      (key : Text) (max_allowed : ℕ) (s : S.Store) → S.get j (evict S key max_allowed s) ≡ S.get j s
  unfolding evict
  get-evict key max_allowed s = elim (Bool-cases (ltb max_allowed (S.zcard key s))) [
    | inl more ↦
        rw more (law.get-zremrangebyrank j key _ _ _ ∙ get-delete_sessions (S.zrange key 0 _ s) s)
    | inr few ↦ rw few
  ]

  pub get-save_session :
      (p : SessionParams) (score : ℕ) (s : S.Store)
      → 0 < p.ttl_seconds
      → S.get j (save_session S p score s) ≡ S.get j s
  unfolding save_session list_session
  get-save_session p score s h =
      get-evict (user_sessions_key p.user_id) p.max_devices (list_session S p score s)
      ∙ law.get-expire j _ _ _ h
      ∙ law.get-zadd j _ _ _ _
      ∙ law.get-expire j _ _ _ h
      ∙ law.get-hset j _ _ _
