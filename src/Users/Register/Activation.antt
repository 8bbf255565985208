-- ===== src/Users/Register/Activation.antt =====
-- A registration that was answered, followed by the verification of its address.
use skill_up.Base.{ℕ, ◌<◌, ◌≡◌, ◌≢◌, refl, ap, some, []}
use skill_up.Text.{Text, trim}
use skill_up.Shared.{UserStatus}
use skill_up.Services.{Services, IsRedis, IsDatabase, same_id}
use skill_up.Effects.{World, ok}
use skill_up.Users.Keys.{verify_rate_key}
use skill_up.Users.Counter.{read_count}
use skill_up.Users.Tokens.{Fresh, auth_data}
use skill_up.Users.Verify.{VerifyRequest, normalize_email, activate, verify_account}
use skill_up.Users.Verify.Success.{no_faults, verified, verify_complete}
use skill_up.Users.Register.{
  CreateUserRequest, RegisterFaults, Draw, temp_key_of, photo_of, new_user, create_user,
}
use skill_up.Users.Register.Outcome.{create_user-Created}
use skill_up.Users.Register.Stored.{code_stored, rate_kept, new_user_found}

new_user_pending :
    (S : Services) (r : CreateUserRequest) (draw : Draw)
    → (new_user S r draw).status ≢ UserStatus.active
unfolding new_user
new_user_pending S r draw h = cc

module _ (S : Services) (redis : IsRedis S) (db : IsDatabase S) where
  -- With the code of the registration the new user is made ACTIVE.
  pub verified_later :
      (f : RegisterFaults) (r : CreateUserRequest) (draw : Draw) (request : VerifyRequest)
      (fresh : Fresh) (uid : Text) (old w : World S) (n : ℕ)
      → create_user S f r draw old ≡ ok uid w
      → request.email ≡ r.email
      → trim request.code ≡ draw.code
      → S.sha256 draw.code ≢ []
      → read_count (S.get (verify_rate_key (normalize_email r.email)) old.store) ≡ some n
      → n < 7
      → (verify_account S no_faults request fresh w
          ≡ ok
              (auth_data S (activate fresh.now (new_user S r draw)) fresh)
              (verified S request fresh (new_user S r draw) w))
        × (S.find_user
              (same_id (new_user S r draw).id)
              (verified S request fresh (new_user S r draw) w).rows
            ≡ some (activate fresh.now (new_user S r draw)))
  verified_later f r draw request fresh uid old w n created same typed hash few lt =
      let h = create_user-Created S f r draw uid old w created in
      let e = normalize_email r.email in
      let store = ap (λ (x : World S). x.store) h.state in
      let rows = ap (λ (x : World S). x.rows) h.state in
      let tk = temp_key_of r in
      let photo = photo_of r draw in
      verify_complete S request fresh (new_user S r draw) db w n (S.sha256 draw.code)
        (rw (same, store, rate_kept S redis tk photo e draw.code old.store) few) lt
        (rw (same, store) (code_stored S redis tk photo e draw.code old.store)) hash (rw typed refl)
        (rw (same, rows) (new_user_found S db r draw old.rows h.free)) (new_user_pending S r draw)
