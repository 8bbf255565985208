-- ===== src/Users/Register/Code.antt =====
-- The code that a registration stores in Redis, once the registration has failed.
use skill_up.Base.{
  suc, ap, ◌∙◌, ◌≡◌, refl, Bool, true, false, none, some, arith, inl, inr, if◌then◌else◌,
}
use skill_up.Text.{Text, trim, text_eq_refl}
use skill_up.Services.{Services, IsRedis}
use skill_up.Shared.{GrpcStatus}
use skill_up.Effects.{Thrown, rpc, rejected, World, Run, ok, err}
use skill_up.Effects.Transaction.{begin, finally, roll_back}
use skill_up.Users.Keys.{otp_key}
use skill_up.Users.Verify.{normalize_email}
use skill_up.Users.Register.{
  CreateUserRequest, RegisterFaults, Draw, user_id_of, new_user, clashes, refuse_duplicate, prepare,
  record_events, fail, register_error, drop_code, complete, attempt_registration, create_user,
}
use skill_up.Users.Register.Rollback.{fail-code, begin-err}
use skill_up.Users.Register.Lost.{commit_lost}

module _ (S : Services) (f : RegisterFaults) where
  prepare-store :
      (r : CreateUserRequest) (draw : Draw) (w v : World S) {e : Thrown}
      → f.set_cooldown ≡ false
      → prepare S f r draw w ≡ err e v
      → v.store ≡ w.store
  unfolding prepare refuse_duplicate
  prepare-store r draw w v up h = ground arith

  fail-store :
      (email : Text) (before : S.Rows) (e : Thrown) (w v : World S) {e' : Thrown}
      → fail S f false email before e w ≡ err e' v
      → v.store ≡ w.store
  unfolding fail finally roll_back register_error drop_code
  fail-store email before (rpc c m) w v h = ground arith
  fail-store email before rejected w v h = ground arith

  late_code :
      (email i : Text) (before : S.Rows) (lost : Bool) (x v : World S) {e : Thrown}
      → f.tx.rollback ≡ false
      → f.del_otp ≡ false
      → f.tx.release ≡ false
      → (if lost
          then fail S f true email before rejected x
          else finally f.tx.release (ok i (record x { triggers = suc x.triggers })))
        ≡ err e v
      → v.store ≡ S.del (otp_key email) x.store
  unfolding finally
  late_code email i before true x v a b c h = fail-code S f email before rejected x v a b h
  late_code email i before false x v a b c h = cc (rw c at h)

  -- A failure behind the code has deleted it.
  complete-code :
      (r : CreateUserRequest) (draw : Draw) (before : S.Rows) (w v : World S) {e : Thrown}
      → f.tx.rollback ≡ false
      → f.del_otp ≡ false
      → f.tx.release ≡ false
      → complete S f r draw before w ≡ err e v
      → (x : World S) × (v.store ≡ S.del (otp_key (normalize_email r.email)) x.store)
  unfolding complete
  complete-code r draw before w v {e} a b c h = go (record_events S f r draw w) h
    where
      go :
          (y : Run S (Unit {0}))
          → elim y [
            | err e x ↦ fail S f true (normalize_email r.email) before e x
            | ok _ x ↦
                if f.tx.commit
                then fail S f true (normalize_email r.email) before rejected x
                else finally f.tx.release
                    (ok (user_id_of r draw) (record x { triggers = suc x.triggers }))
          ]
            ≡ err e v
          → (x : World S) × (v.store ≡ S.del (otp_key (normalize_email r.email)) x.store)
      go (err d x) k = (x, fail-code S f (normalize_email r.email) before d x v a b k)
      go (ok _ x) k = (
        x,
        late_code (normalize_email r.email) (user_id_of r draw) before f.tx.commit x v a b c k,
      )

  attempt-code :
      (redis : IsRedis S) (r : CreateUserRequest) (draw : Draw) (w v : World S) {e : Thrown}
      → f.tx.rollback ≡ false
      → f.del_otp ≡ false
      → f.tx.release ≡ false
      → f.set_cooldown ≡ false
      → S.get (otp_key (normalize_email r.email)) w.store ≡ none
      → attempt_registration S f r draw w ≡ err e v
      → S.get (otp_key (normalize_email r.email)) v.store ≡ none
  unfolding attempt_registration
  attempt-code redis r draw w v {e} a b c d fresh h = go (prepare S f r draw w) refl h
    where
      go :
          (y : Run S (Unit {0}))
          → prepare S f r draw w ≡ y
          → elim y [
            | err d x ↦ fail S f false (normalize_email r.email) w.rows d x
            | ok _ x ↦ complete S f r draw w.rows x
          ]
            ≡ err e v
          → S.get (otp_key (normalize_email r.email)) v.store ≡ none
      go (err y x) q k =
          ap (S.get (otp_key (normalize_email r.email)))
            (fail-store (normalize_email r.email) w.rows y x v k ∙ prepare-store r draw w x d q)
          ∙ fresh
      go (ok _ x) q k =
          let (y, gone) = complete-code r draw w.rows x v a b c k in
          let k = otp_key (normalize_email r.email) in
          rw (gone, redis.get-del k k y.store, text_eq_refl k) refl

  -- A registration that throws leaves no code for an address that had none, where the rollback, the
  -- deletion, the release and the writing of the cooldown answer.
  pub create_user-no_code :
      (redis : IsRedis S) (r : CreateUserRequest) (draw : Draw) (e : Thrown) (w v : World S)
      → f.tx.rollback ≡ false
      → f.del_otp ≡ false
      → f.tx.release ≡ false
      → f.set_cooldown ≡ false
      → S.get (otp_key (normalize_email r.email)) w.store ≡ none
      → create_user S f r draw w ≡ err e v
      → S.get (otp_key (normalize_email r.email)) v.store ≡ none
  unfolding create_user
  create_user-no_code redis r draw e w v a b c d fresh h =
      elim (begin-err S f f.tx.connect f.tx.start w _ h) [
        | inl same ↦
            ap (λ (x : World S). S.get (otp_key (normalize_email r.email)) x.store) same ∙ fresh
        | inr later ↦ attempt-code redis r draw w v a b c d fresh later
      ]

-- Every call answers but the writing of the cooldown.
abbrev pub cooldown_lost : Text → RegisterFaults
cooldown_lost text = record (commit_lost text) {
  tx = record (commit_lost text).tx { commit = false };
  set_cooldown = true;
}

prepare_cut :
    (S : Services) (text : Text) (r : CreateUserRequest) (draw : Draw) (w : World S)
    → S.find_user (clashes (normalize_email r.email) (trim r.username)) w.rows ≡ none
    → prepare S (cooldown_lost text) r draw w
      ≡ err rejected (record w {
        rows = S.save_user (new_user S r draw) w.rows;
        store = S.set_ex (otp_key (normalize_email r.email)) (S.sha256 draw.code) 600 w.store;
      })
unfolding prepare refuse_duplicate
prepare_cut S text r draw w free = rw free refl

-- Where only the writing of the cooldown rejects, the registration fails and leaves the tables as
-- they were, but the code stays stored.
pub code_left :
    (S : Services) (redis : IsRedis S) (text : Text) (r : CreateUserRequest) (draw : Draw)
    (w : World S)
    → S.find_user (clashes (normalize_email r.email) (trim r.username)) w.rows ≡ none
    → (v : World S) × (e : Thrown) × (create_user S (cooldown_lost text) r draw w ≡ err e v)
      × (v.rows ≡ w.rows)
      × (S.get (otp_key (normalize_email r.email)) v.store ≡ some (S.sha256 draw.code))
unfolding create_user begin attempt_registration fail finally roll_back register_error drop_code
code_left S redis text r draw w free =
    let k = otp_key (normalize_email r.email) in
    (
      record w { store = S.set_ex k (S.sha256 draw.code) 600 w.store },
      rpc GrpcStatus.internal text,
      rw (create_user, begin, attempt_registration, prepare_cut S text r draw w free) refl,
      refl,
      rw (redis.get-set_ex k k (S.sha256 draw.code) 600 w.store (omega arith), text_eq_refl k) refl,
    )
