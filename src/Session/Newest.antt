-- ===== src/Session/Newest.antt =====
-- A login later than the user's other sessions: the list of sessions and the hashes behind it.
use skill_up.Base.{
  ℕ, zero, suc, ◌-◌, ◌<◌, ◌≤◌, ◌≡◌, refl, ap, ◌∙◌, false, List, [], ◌∷◌, ◌++◌, if◌then◌else◌, drop,
  take, map, length, length-append, arith, Bool-cases, inl, inr,
}
use skill_up.Text.{Text, codes, text_eq, text_eq_refl}
use skill_up.Services.{Services}
use skill_up.Session.{SessionParams, session_key, user_sessions_key, session_fields, save_session}
use skill_up.Session.Sets.{Entries, IsSortedSets, zinsert, without}
use skill_up.Session.Eviction.{
  Above, without-Above, insert_ranked_last, drop_snoc, suc_eq, entries-save_session,
}
use skill_up.Session.Hashes.{listed, save_session_hashes}

take_snoc :
    {A : Type 0} (n : ℕ) (xs : List A) (x : A) → n ≤ length xs → take n (xs ++ x ∷ []) ≡ take n xs
take_snoc zero xs x h = refl
take_snoc (suc n) [] x h = absurd (omega arith)
take_snoc (suc n) (y ∷ xs) x h = ap (λ ys. y ∷ ys) (take_snoc n xs x (omega arith))

-- The members of the entries of lowest rank.
abbrev pub first_ids : ℕ → Entries → List Text
first_ids n es = map (λ e. e.1) (take n es)

-- A member that was taken out of a set is not among them.
first_ids-without :
    (m : Text) (n : ℕ) (es : Entries) → listed m (first_ids n (without m es)) ≡ false
unfolding without
first_ids-without m zero es = refl
first_ids-without m (suc n) [] = refl
first_ids-without m (suc n) (e ∷ es) = elim (Bool-cases (text_eq e.1 m)) [
  | inl h ↦ rw h (first_ids-without m (suc n) es)
  | inr h ↦ rw (h, h) (first_ids-without m n es)
]

module _ {S : Services} (law : IsSortedSets S) where
  open law use {entries}

  -- Where one device at least is allowed and the time to live is positive, a login under a session id
  -- without a hash that is later than all the user's sessions keeps its own session,
  -- with the five fields of its hash, and evicts the oldest others down to the limit. Any session `sid`
  -- has no hash left if it is among those evicted, and is otherwise the new one or as it was.
  pub newest_session_kept :
      (p : SessionParams) (score : ℕ) (s : S.Store) (sid : Text)
      → 0 < p.ttl_seconds
      → 0 < p.max_devices
      → Above score (entries (user_sessions_key p.user_id) s)
      → S.hgetall (session_key p.session_id) s ≡ []
      → let others = without p.session_id (entries (user_sessions_key p.user_id) s) in
        let excess = suc (length others) - p.max_devices in
        let s' = save_session S p score s in
        let hash : List (Text × Text) =
          (codes "userId", p.user_id)
          ∷ (codes "hashedRefreshToken", p.hashed_refresh_token)
          ∷ (codes "ipAddress", p.ip_address)
          ∷ (codes "userAgent", p.user_agent)
          ∷ (codes "createdAt", p.created_at)
          ∷ [] in
        (entries (user_sessions_key p.user_id) s'
          ≡ drop excess others ++ (score, p.session_id) ∷ [])
        × (S.hgetall (session_key p.session_id) s' ≡ hash)
        × (S.hgetall (session_key sid) s' ≡ (
            if listed sid (first_ids excess others)
            then []
            else if text_eq p.session_id sid
            then hash
            else S.hgetall (session_key sid) s))
  unfolding zinsert
  newest_session_kept p score s sid ttl some_device late new =
      let others = without p.session_id (entries (user_sessions_key p.user_id) s) in
      let excess = suc (length others) - p.max_devices in
      let last = insert_ranked_last score p.session_id others (without-Above score _ _ late) in
      let few : excess ≤ length others = omega arith in
      let hashes : (sid : Text)
          → S.hgetall (session_key sid) (save_session S p score s) ≡ (
              if listed sid (first_ids excess others)
              then []
              else if text_eq p.session_id sid
              then session_fields p
              else S.hgetall (session_key sid) s) =
        λ sid.
          save_session_hashes law sid p score s ttl new
          ∙ rw last (
              rw (length-append others ((score, p.session_id) ∷ [])) (
                rw (suc_eq (length others))
                  (rw (take_snoc excess others (score, p.session_id) few) refl))) in
      (
        entries-save_session law p score s ttl
            ∙ rw last (
                rw (length-append others ((score, p.session_id) ∷ []))
                  (rw (suc_eq (length others)) (drop_snoc _ others _ few))),
        hashes p.session_id
            ∙ rw
                (
                  first_ids-without p.session_id excess (entries (user_sessions_key p.user_id) s),
                  text_eq_refl p.session_id,
                )
                refl,
        hashes sid,
      )
