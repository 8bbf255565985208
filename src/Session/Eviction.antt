-- ===== src/Session/Eviction.antt =====
-- The sessions of a user after a login: what stays, what goes, and the bound on their number.
use skill_up.Base.{
  ℕ, zero, suc, ◌+◌, ◌-◌, ◌<◌, ◌≤◌, ◌≡◌, refl, sym, ap, ◌∙◌, false, List, [], ◌∷◌, ◌++◌, ltb, drop,
  length, length-drop, arith, Bool-cases, inl, inr, All,
}
use skill_up.Text.{Text, text_eq}
use skill_up.Services.{Services}
use skill_up.Session.{
  SessionParams, session_key, user_sessions_key, delete_sessions, evict, list_session, save_session,
}
use skill_up.Session.Sets.{Entries, IsSortedSets, zinsert, without, insert_ranked}

-- The two families of keys are apart.
pub keys_apart : (sid uid : Text) → text_eq (session_key sid) (user_sessions_key uid) ≡ false
unfolding session_key user_sessions_key text_eq
keys_apart sid uid = refl

drop_all_but : {A : Type 0} (m : ℕ) (xs : List A) → length xs ≤ m → drop (length xs - m) xs ≡ xs
drop_all_but m xs h = let e : length xs - m ≡ 0 = omega arith in rw e

module _ {S : Services} (law : IsSortedSets S) where
  open law use {entries}

  entries-delete_sessions :
      (uid : Text) (sids : List Text) (s : S.Store)
      → entries (user_sessions_key uid) (delete_sessions S sids s)
        ≡ entries (user_sessions_key uid) s
  unfolding delete_sessions
  entries-delete_sessions uid [] s = refl
  entries-delete_sessions uid (sid ∷ sids) s =
      entries-delete_sessions uid sids (S.del (session_key sid) s)
      ∙ law.entries-del _ _ s (keys_apart sid uid)

  -- What eviction keeps: the entries of highest rank, `max_allowed` of them at most.
  entries-evict :
      (uid : Text) (max_allowed : ℕ) (s : S.Store)
      → entries (user_sessions_key uid) (evict S (user_sessions_key uid) max_allowed s)
        ≡ drop
            (length (entries (user_sessions_key uid) s) - max_allowed)
            (entries (user_sessions_key uid) s)
  unfolding evict
  entries-evict uid max_allowed s =
      let key = user_sessions_key uid in
      elim (Bool-cases (ltb max_allowed (S.zcard key s))) [
        | inl more ↦
            let step : suc (S.zcard key s - max_allowed - 1)
                ≡ length (entries key s) - max_allowed =
              ground (arith, law.zcard_lem key s) in
            rw more (
              law.entries-zremrangebyrank key _ _
              ∙ rw step (ap (drop _) (entries-delete_sessions uid _ s)))
        | inr few ↦ rw few (sym (drop_all_but max_allowed _ (ground (arith, law.zcard_lem key s))))
      ]

  pub entries-list_session :
      (p : SessionParams) (score : ℕ) (s : S.Store)
      → 0 < p.ttl_seconds
      → entries (user_sessions_key p.user_id) (list_session S p score s)
        ≡ zinsert score p.session_id (entries (user_sessions_key p.user_id) s)
  unfolding list_session
  entries-list_session p score s h =
      law.entries-expire _ _ _ _ h
      ∙ law.entries-zadd _ _ _ _
      ∙ ap (zinsert score p.session_id) (law.entries-expire _ _ _ _ h ∙ law.entries-hset _ _ _ _)

  -- The entries after the script: the new one ranked among the old, less the excess of lowest rank.
  pub entries-save_session :
      (p : SessionParams) (score : ℕ) (s : S.Store)
      → 0 < p.ttl_seconds
      → let ranked = zinsert score p.session_id (entries (user_sessions_key p.user_id) s) in
        entries (user_sessions_key p.user_id) (save_session S p score s)
        ≡ drop (length ranked - p.max_devices) ranked
  unfolding save_session
  entries-save_session p score s h =
      entries-evict p.user_id p.max_devices _
      ∙ ap (λ es. drop (length es - p.max_devices) es) (entries-list_session p score s h)

  -- Whatever the user's sessions were before, after the script with a positive time to live no more
  -- than `max_devices` are listed.
  pub save_session_bound :
      (p : SessionParams) (score : ℕ) (s : S.Store)
      → 0 < p.ttl_seconds
      → S.zcard (user_sessions_key p.user_id) (save_session S p score s) ≤ p.max_devices
  save_session_bound p score s h =
      let ranked = zinsert score p.session_id (entries (user_sessions_key p.user_id) s) in
      omega (
        arith,
        law.zcard_lem (user_sessions_key p.user_id) (save_session S p score s),
        ap length (entries-save_session p score s h),
        length-drop (length ranked - p.max_devices) ranked,
      )

-- `sc` is above every score of the set.
abbrev pub Above : ℕ → Entries → Type 0
Above sc = All (λ e. e.0 < sc)

pub without-Above : (sc : ℕ) (m : Text) (es : Entries) → Above sc es → Above sc (without m es)
unfolding without
without-Above sc m [] h = tt
without-Above sc m (e ∷ es) (a, h) = ground (arith, without-Above sc m es h)

pub insert_ranked_last :
    (sc : ℕ) (m : Text) (es : Entries) → Above sc es → insert_ranked sc m es ≡ es ++ (sc, m) ∷ []
unfolding insert_ranked
insert_ranked_last sc m [] h = refl
insert_ranked_last sc m (e ∷ es) (a, h) = ground (arith, insert_ranked_last sc m es h)

pub drop_snoc :
    {A : Type 0} (n : ℕ) (xs : List A) (x : A)
    → n ≤ length xs
    → drop n (xs ++ x ∷ []) ≡ drop n xs ++ x ∷ []
drop_snoc zero xs x h = refl
drop_snoc (suc n) [] x h = absurd (omega arith)
drop_snoc (suc n) (y ∷ xs) x h = drop_snoc n xs x (omega arith)

pub suc_eq : (n : ℕ) → n + 1 ≡ suc n
suc_eq n = omega arith
