-- ===== src/Session/Hashes.antt =====
-- The session hashes after the script: which are written, which are deleted, which stay.
use skill_up.Base.{
  ℕ, suc, ◌-◌, ◌<◌, ◌≡◌, refl, ◌∙◌, Bool, false, ◌||◌, List, [], ◌∷◌, map, if◌then◌else◌, ltb, take,
  length, arith, Bool-cases, inl, inr,
}
use skill_up.Text.{Text, text_eq}
use skill_up.Services.{Services}
use skill_up.Session.{
  SessionParams, session_key, user_sessions_key, session_fields, delete_sessions, evict,
  list_session, save_session,
}
use skill_up.Session.Sets.{Entries, IsSortedSets, zinsert}
use skill_up.Session.Eviction.{entries-list_session}

abbrev pub listed : Text → List Text → Bool
listed sid [] = false
listed sid (x ∷ xs) = text_eq x sid || listed sid xs

session_key_eq : (a b : Text) → text_eq (session_key a) (session_key b) ≡ text_eq a b
unfolding text_eq session_key
session_key_eq a b = refl

key_differs : (uid sid : Text) → text_eq (user_sessions_key uid) (session_key sid) ≡ false
unfolding text_eq session_key user_sessions_key
key_differs uid sid = refl

-- The session ids of the excess entries, those of lowest rank.
abbrev pub excess_ids : ℕ → Entries → List Text
excess_ids max_allowed es = map (λ e. e.1) (take (length es - max_allowed) es)

module _ {S : Services} (law : IsSortedSets S) where
  open law use {entries}

  hgetall-delete_sessions :
      (sid : Text) (sids : List Text) (s : S.Store)
      → S.hgetall (session_key sid) (delete_sessions S sids s)
        ≡ (if listed sid sids then [] else S.hgetall (session_key sid) s)
  unfolding delete_sessions
  hgetall-delete_sessions sid [] s = refl
  hgetall-delete_sessions sid (x ∷ sids) s = ground (
    arith,
    hgetall-delete_sessions sid sids (S.del (session_key x) s),
    law.hgetall-del (session_key sid) (session_key x) s,
    session_key_eq x sid,
  )

  hgetall-evict :
      (uid sid : Text) (max_allowed : ℕ) (s : S.Store)
      → let gone = excess_ids max_allowed (entries (user_sessions_key uid) s) in
        S.hgetall (session_key sid) (evict S (user_sessions_key uid) max_allowed s)
        ≡ (if listed sid gone then [] else S.hgetall (session_key sid) s)
  unfolding evict
  hgetall-evict uid sid max_allowed s =
      let key = user_sessions_key uid in
      elim (Bool-cases (ltb max_allowed (S.zcard key s))) [
        | inl more ↦
            let step : suc (S.zcard key s - max_allowed - 1)
                ≡ length (entries key s) - max_allowed =
              ground (arith, law.zcard_lem key s) in
            rw more (
              law.hgetall-zremrangebyrank _ key _ _ _
              ∙ hgetall-delete_sessions sid _ s
              ∙ rw (law.zrange_lem key _ s, step) refl)
        | inr few ↦
            let none_over : length (entries key s) - max_allowed ≡ 0 =
              ground (arith, law.zcard_lem key s) in
            rw (few, none_over)
      ]

  hgetall-list_session :
      (sid : Text) (p : SessionParams) (score : ℕ) (s : S.Store)
      → 0 < p.ttl_seconds
      → S.hgetall (session_key p.session_id) s ≡ []
      → S.hgetall (session_key sid) (list_session S p score s)
        ≡ (if text_eq p.session_id sid then session_fields p else S.hgetall (session_key sid) s)
  unfolding list_session
  hgetall-list_session sid p score s h fresh =
      law.hgetall-expire _ _ _ _ h
      ∙ law.hgetall-zadd _ _ _ _ _
      ∙ law.hgetall-expire _ _ _ _ h
      ∙ rw (← session_key_eq p.session_id sid) (law.hgetall-hset _ _ _ _ fresh)

  -- The script, on a session id without a hash yet, leaves each session's hash so: deleted if the
  -- session is among the excess of lowest rank, else written if it is the new one, else as it was.
  pub save_session_hashes :
      (sid : Text) (p : SessionParams) (score : ℕ) (s : S.Store)
      → 0 < p.ttl_seconds
      → S.hgetall (session_key p.session_id) s ≡ []
      → let ranked = zinsert score p.session_id (entries (user_sessions_key p.user_id) s) in
        S.hgetall (session_key sid) (save_session S p score s) ≡ (
          if listed sid (excess_ids p.max_devices ranked)
          then []
          else if text_eq p.session_id sid
          then session_fields p
          else S.hgetall (session_key sid) s)
  unfolding save_session
  save_session_hashes sid p score s h fresh =
      hgetall-evict p.user_id sid p.max_devices (list_session S p score s)
      ∙ rw (entries-list_session law p score s h, hgetall-list_session sid p score s h fresh) refl
