-- ===== src/Uploads/Once.antt =====
-- An upload serves one registration, whatever registrations come in between.
use skill_up.Base.{ℕ, ◌≡◌, refl, sym, ap, ◌∙◌, List, [], ◌∷◌}
use skill_up.Text.{Text, text_eq_refl}
use skill_up.Services.{Services, IsRedis}
use skill_up.Media.{Minio}
use skill_up.Users.Register.{RegisterFaults, Draw}
use skill_up.Gateway.Files.{returned}
use skill_up.Gateway.Registration.{RegisterRequestDto, Site, GatewayFaults, temp_key_of, register}
use skill_up.Gateway.Registration.Accepted.{register-Accepted}
use skill_up.Uploads.{unused, used_up, token_of, Move-used_up}
use skill_up.Uploads.Writes.{token_pending, token_in, marked}
use skill_up.Uploads.Refined.{register-Move}

-- A request with what it draws and which calls reject for it.
pub record Call : Type 0 where
  pub dto : RegisterRequestDto
  pub user_id : Text
  pub draw : Draw
  pub gateway : GatewayFaults
  pub users : RegisterFaults

module _ (S : Services) (redis : IsRedis S) (C : Minio) (bucket : Text) where
  abbrev pub register_all : List Call → Site S C → Site S C
  register_all [] w = w
  register_all (x ∷ xs) w =
      register_all xs (register S C bucket x.gateway x.users x.dto x.user_id x.draw w).1

  stays_used_up :
      (j : Text) (xs : List Call) (w : Site S C)
      → token_in S redis j w.users.store ≡ used_up
      → token_in S redis j (register_all xs w).users.store ≡ used_up
  stays_used_up j [] w h = h
  stays_used_up j (x ∷ xs) w h =
      stays_used_up j xs (register S C bucket x.gateway x.users x.dto x.user_id x.draw w).1 (
        Move-used_up (register-Move S redis j C bucket x.gateway x.users x.dto x.user_id x.draw w)
          h)

  -- Once a registration with a photo is answered, no registration with the same photo is answered after
  -- any further registrations, whatever calls reject, while the status of the upload is stored.
  pub upload_once :
      (x y : Call) (xs : List Call) (c : ℕ) (k i i' : Text) (w v w' : Site S C)
      → temp_key_of x.dto ≡ c ∷ k
      → temp_key_of y.dto ≡ c ∷ k
      → register S C bucket x.gateway x.users x.dto x.user_id x.draw w ≡ (returned i, v)
      → ¬ (
          register S C bucket y.gateway y.users y.dto y.user_id y.draw (register_all xs v)
          ≡ (returned i', w'))
  upload_once x y xs c k i i' w v w' kx ky h h' =
      let (_, _, (u, _, last)) =
        register-Accepted S C bucket x.gateway x.users x.dto c k x.user_id i x.draw w v kx h in
      let (waits, _, _) =
        register-Accepted S C bucket y.gateway y.users y.dto c k y.user_id i' y.draw
          (register_all xs v) w' ky h' in
      let first : token_in S redis (c ∷ k) v.users.store ≡ used_up =
        ap (λ (z : Site S C). token_in S redis (c ∷ k) z.users.store) last
        ∙ marked S redis (c ∷ k) (c ∷ k) u.store
        ∙ rw (text_eq_refl (c ∷ k)) refl in
      apart (sym (ap token_of waits ∙ token_pending) ∙ stays_used_up (c ∷ k) xs v first)
    where
      apart : ¬ (unused ≡ used_up)
      apart e = cc
