-- ===== src/Users/Register/Steps.antt =====
-- The steps of `createUser` that answered.
use skill_up.Base.{ap, sym, ◌∙◌, subst, ◌≡◌, refl, false, Option, none, some, [], ◌∷◌, arith}
use skill_up.Text.{Text, codes, trim}
use skill_up.Shared.{User, OutboxMessage}
use skill_up.Services.{Services}
use skill_up.Effects.{World, ok, M, ◌>>◌, call, writes, queries, saves, pure}
use skill_up.Effects.Inversion.{>>=-ok, queries-ok}
use skill_up.Users.Keys.{otp_key, cooldown_key, upload_key}
use skill_up.Users.Verify.{normalize_email}
use skill_up.Users.Register.{
  CreateUserRequest, RegisterFaults, Draw, temp_key_of, photo_of, clashes, is_consumed, consumed,
  email_message, photo_message, new_user, refuse_duplicate, prepare, consume_upload, photo_event,
  record_events,
}

-- The tables with the new user and the events of the registration.
abbrev pub with_photo : (S : Services) → Text → User → Text → Draw → S.Rows → S.Rows
with_photo S [] u photo draw t = t
with_photo S (c ∷ s) u [] draw t = t
with_photo S (c ∷ s) u (d ∷ p) draw t = S.save_outbox (photo_message u (c ∷ s) (d ∷ p) draw) t

abbrev pub registered : (S : Services) → CreateUserRequest → Draw → S.Rows → S.Rows
registered S r draw t =
    let u = new_user S r draw in
    with_photo S (temp_key_of r) u (photo_of r draw) draw
      (S.save_outbox (email_message u draw) (S.save_user u t))

-- The store with the code, the cooldown, and the mark on the upload.
abbrev pub with_code : (S : Services) → Text → Text → S.Store → S.Store
with_code S email code s =
    S.set_ex (cooldown_key email) (codes "1") 60 (S.set_ex (otp_key email) (S.sha256 code) 600 s)

abbrev pub with_mark : (S : Services) → Text → Text → S.Store → S.Store
with_mark S [] photo s = s
with_mark S (c ∷ t) [] s = s
with_mark S (c ∷ t) (d ∷ p) s = S.set_ex (upload_key (c ∷ t)) consumed 600 s

-- The upload has not been consumed, where the registration uses one.
abbrev pub Unused : (S : Services) → Text → Text → S.Store → Type 0
Unused S [] photo s = Unit
Unused S (c ∷ t) [] s = Unit
Unused S (c ∷ t) (d ∷ p) s = is_consumed (S.get (upload_key (c ∷ t)) s) ≡ false

module _ (S : Services) (f : RegisterFaults) where
  refuse_duplicate-ok :
      (email : Text) (o : Option User) (w v : World S) {u : Unit {0}}
      → refuse_duplicate S f email o w ≡ ok u v
      → (v ≡ w) × (o ≡ none)
  unfolding refuse_duplicate
  refuse_duplicate-ok email none w v h = (cc, refl)
  refuse_duplicate-ok email (some x) w v h = cc

  writing : CreateUserRequest → Draw → M S (Unit {0})
  writing r draw = do
    call f.hash (pure tt)
    call f.save_user (saves (S.save_user (new_user S r draw)))
    call f.set_otp (writes (S.set_ex (otp_key (normalize_email r.email)) (S.sha256 draw.code) 600))
    call f.set_cooldown (writes (S.set_ex (cooldown_key (normalize_email r.email)) (codes "1") 60))

  writing-ok :
      (r : CreateUserRequest) (draw : Draw) (w v : World S) {u : Unit {0}}
      → writing r draw w ≡ ok u v
      → v ≡ record w {
        rows = S.save_user (new_user S r draw) w.rows;
        store = with_code S (normalize_email r.email) draw.code w.store;
      }
  unfolding writing
  writing-ok r draw w v h = ground arith

  pub prepare-ok :
      (r : CreateUserRequest) (draw : Draw) (w v : World S) {u : Unit {0}}
      → prepare S f r draw w ≡ ok u v
      → (S.find_user (clashes (normalize_email r.email) (trim r.username)) w.rows ≡ none)
        × (v ≡ record w {
          rows = S.save_user (new_user S r draw) w.rows;
          store = with_code S (normalize_email r.email) draw.code w.store;
        })
  unfolding prepare writing
  prepare-ok r draw w v h =
      let (o, w1, e1, h1) =
        >>=-ok
          (call f.find
            (queries (S.find_user (clashes (normalize_email r.email) (trim r.username)))))
          _ w h in
      let (_, w2, e2, h2) = >>=-ok (refuse_duplicate S f (normalize_email r.email) o) _ w1 h1 in
      let (same1, q) =
        queries-ok f.find (S.find_user (clashes (normalize_email r.email) (trim r.username))) w w1
          e1 in
      let (same2, free) = refuse_duplicate-ok (normalize_email r.email) o w1 w2 e2 in
      (
        sym q ∙ free,
        writing-ok r draw w v
            (subst (λ (x : World S). writing r draw x ≡ ok _ v) (same2 ∙ same1) h2),
      )

  pub consume_upload-ok :
      (temp_key : Text) (u : User) (photo : Text) (draw : Draw) (w v : World S) {x : Unit {0}}
      → consume_upload S f temp_key u photo draw w ≡ ok x v
      → (is_consumed (S.get (upload_key temp_key) w.store) ≡ false)
        × (v ≡ record w {
          rows = S.save_outbox (photo_message u temp_key photo draw) w.rows;
          store = S.set_ex (upload_key temp_key) consumed 600 w.store;
        })
  unfolding consume_upload
  consume_upload-ok temp_key u photo draw w v h = ground arith

  pub photo_event-ok :
      (temp_key : Text) (u : User) (photo : Text) (draw : Draw) (w v : World S) {x : Unit {0}}
      → photo_event S f temp_key u photo draw w ≡ ok x v
      → Unused S temp_key photo w.store
        × (v ≡ record w {
          rows = with_photo S temp_key u photo draw w.rows;
          store = with_mark S temp_key photo w.store;
        })
  unfolding photo_event
  photo_event-ok [] u photo draw w v h = (tt, cc)
  photo_event-ok (c ∷ t) u [] draw w v h = (tt, cc)
  photo_event-ok (c ∷ t) u (d ∷ p) draw w v h = consume_upload-ok (c ∷ t) u (d ∷ p) draw w v h

  saved_email :
      (m : OutboxMessage) (w v : World S) {x : Unit {0}}
      → call f.save_email (saves (S.save_outbox m)) w ≡ ok x v
      → v ≡ record w { rows = S.save_outbox m w.rows }
  saved_email m w v h = ground arith

  pub record_events-ok :
      (r : CreateUserRequest) (draw : Draw) (w v : World S) {x : Unit {0}}
      → record_events S f r draw w ≡ ok x v
      → Unused S (temp_key_of r) (photo_of r draw) w.store
        × (v ≡ record w {
          rows =
              with_photo S
                (temp_key_of r)
                (new_user S r draw)
                (photo_of r draw)
                draw
                (S.save_outbox (email_message (new_user S r draw) draw) w.rows);
          store = with_mark S (temp_key_of r) (photo_of r draw) w.store;
        })
  unfolding record_events
  record_events-ok r draw w v h =
      let u = new_user S r draw in
      let (_, w1, e1, h1) =
        >>=-ok (call f.save_email (saves (S.save_outbox (email_message u draw)))) _ w h in
      let v1 = saved_email (email_message u draw) w w1 e1 in
      let (unused, v2) = photo_event-ok (temp_key_of r) u (photo_of r draw) draw w1 v h1 in
      (
        subst (λ (x : World S). Unused S (temp_key_of r) (photo_of r draw) x.store) v1 unused,
        v2
            ∙ ap
                (λ (x : World S). record x {
                  rows = with_photo S (temp_key_of r) u (photo_of r draw) draw x.rows;
                  store = with_mark S (temp_key_of r) (photo_of r draw) x.store;
                })
                v1,
      )
