-- ===== src/Users/Resend/Outcome.antt =====
-- What `sendVerificationCode` has checked when it answers, and the state that it leaves.
use skill_up.Base.{
  ap, ◌∙◌, subst, sym, suc, ◌≡◌, refl, Bool, true, false, Option, none, some, arith,
}
use skill_up.Text.{Text, codes, text_eq}
use skill_up.Text.Decimal.{at_least}
use skill_up.Shared.{User, UserStatus, GrpcStatus}
use skill_up.Services.{Services}
use skill_up.Effects.{World, ok, err, rpc, M, call, saves, queries, throw, pure, ◌>>=◌, ◌>>◌}
use skill_up.Effects.Inversion.{>>=-ok, transaction-ok, queries-ok}
use skill_up.Users.Keys.{otp_key, verify_rate_key, cooldown_key, legacy_attempts_key}
use skill_up.Users.Counter.{read_count}
use skill_up.Users.Verify.{normalize_email}
use skill_up.Users.Resend.{
  ResendFaults, Draw, is_set, email_message, check_lock, check_cooldown, require_pending,
  find_pending, store_code, queue_email, queue_error, no_account, trigger, send_verification_code,
}

-- The store with the new code: its hash for ten minutes, the cooldown for one, no failures.
abbrev pub with_code : (S : Services) → Text → Text → S.Store → S.Store
with_code S email code s = S.del (legacy_attempts_key email) (
    S.del (verify_rate_key email) (
      S.set_ex (cooldown_key email) (codes "1") 60
        (S.set_ex (otp_key email) (S.sha256 code) 600 s)))

module _ (S : Services) (f : ResendFaults) where
  -- What a request that is answered has checked, and the state that it leaves.
  pub record Resent (address : Text) (draw : Draw) (w w' : World S) : Type 0 where
    pub user : User
    pub unlocked :
        at_least (read_count (S.get (verify_rate_key (normalize_email address)) w.store)) 7 ≡ false
    pub cool : is_set (S.get (cooldown_key (normalize_email address)) w.store) ≡ false
    pub found : S.find_user (λ u. text_eq u.email (normalize_email address)) w.rows ≡ some user
    pub is_pending : user.status ≡ UserStatus.pending
    pub state : w' ≡ record {
      store = with_code S (normalize_email address) draw.code w.store;
      rows = S.save_outbox (email_message user draw) w.rows;
      triggers = suc w.triggers;
    }

  check_lock-ok :
      (email : Text) (w v : World S) {u : Unit {0}}
      → check_lock S f email w ≡ ok u v
      → (v ≡ w) × (at_least (read_count (S.get (verify_rate_key email) w.store)) 7 ≡ false)
  unfolding check_lock
  check_lock-ok email w v h = ground arith

  check_cooldown-ok :
      (email : Text) (w v : World S) {u : Unit {0}}
      → check_cooldown S f email w ≡ ok u v
      → (v ≡ w) × (is_set (S.get (cooldown_key email) w.store) ≡ false)
  unfolding check_cooldown
  check_cooldown-ok email w v h = ground arith

  found_pending :
      (x : User) (status : UserStatus) (w v : World S) {u : User}
      → elim (require_pending S f status w) [ ok a v' ↦ ok x v' | err e v' ↦ err e v' ] ≡ ok u v
      → (v ≡ w) × (x ≡ u) × (status ≡ UserStatus.pending)
  unfolding require_pending
  found_pending x UserStatus.pending w v h = (cc, cc, refl)
  found_pending x UserStatus.active w v h = cc
  found_pending x UserStatus.blocked w v h = cc

  abbrev resolve : Option User → M S User
  resolve found = elim found [
    | some x ↦ require_pending S f x.status >>= λ _. pure x
    | none ↦ throw (rpc GrpcStatus.not_found no_account)
  ]

  resolve-ok :
      (o : Option User) (w v : World S) {u : User}
      → resolve o w ≡ ok u v
      → (v ≡ w) × (o ≡ some u) × (u.status ≡ UserStatus.pending)
  resolve-ok none w v h = cc
  resolve-ok (some x) w v h =
      let (same, e, p) = found_pending x x.status w v h in
      (same, ap some e, subst (λ (y : User). y.status ≡ UserStatus.pending) e p)

  find_pending-ok :
      (email : Text) (w v : World S) {u : User}
      → find_pending S f email w ≡ ok u v
      → (v ≡ w)
        × (S.find_user (λ x. text_eq x.email email) w.rows ≡ some u)
        × (u.status ≡ UserStatus.pending)
  unfolding find_pending
  find_pending-ok email w v {u} h =
      let (o, w1, e1, h1) =
        >>=-ok (call f.find (queries (S.find_user (λ x. text_eq x.email email)))) resolve w h in
      let (same, q) = queries-ok f.find (S.find_user (λ x. text_eq x.email email)) w w1 e1 in
      let (v1, found, p) = resolve-ok o w1 v h1 in (v1 ∙ same, sym q ∙ found, p)

  store_code-ok :
      (email code : Text) (w v : World S) {u : Unit {0}}
      → store_code S f email code w ≡ ok u v
      → v ≡ record w { store = with_code S email code w.store }
  unfolding store_code
  store_code-ok email code w v h = ground arith

  queue_email-ok :
      (u : User) (draw : Draw) (w v : World S) {r : Unit {0}}
      → queue_email S f u draw w ≡ ok r v
      → v ≡ record w { rows = S.save_outbox (email_message u draw) w.rows }
  unfolding queue_email
  queue_email-ok u draw w v h =
      saved f.save (transaction-ok f.tx _ (queue_error S f) (λ e x. (_, x, refl, refl)) w v h)
    where
      saved :
          (down : Bool) {r : Unit {0}}
          → call down (saves (S.save_outbox (email_message u draw))) w ≡ ok r v
          → v ≡ record w { rows = S.save_outbox (email_message u draw) w.rows }
      saved true e = cc
      saved false e = cc

  trigger-ok :
      (w v : World S) {u : Unit {0}}
      → trigger S f w ≡ ok u v
      → v ≡ record w { triggers = suc w.triggers }
  unfolding trigger
  trigger-ok w v h = cc

  after_find :
      (address : Text) (draw : Draw) (u : User) (w w' : World S) {r : Unit {0}}
      → (store_code S f (normalize_email address) draw.code
            >> (queue_email S f u draw >> trigger S f))
          w
        ≡ ok r w'
      → w' ≡ record {
        store = with_code S (normalize_email address) draw.code w.store;
        rows = S.save_outbox (email_message u draw) w.rows;
        triggers = suc w.triggers;
      }
  after_find address draw u w w' h =
      let (_, w1, e1, h1) = >>=-ok (store_code S f (normalize_email address) draw.code) _ w h in
      let (_, w2, e2, h2) = >>=-ok (queue_email S f u draw) _ w1 h1 in
      let v1 = store_code-ok (normalize_email address) draw.code w w1 e1 in
      let v2 = queue_email-ok u draw w1 w2 e2 in
      trigger-ok w2 w' h2
      ∙ ap (λ (x : World S). record x { triggers = suc x.triggers }) v2
      ∙ ap
          (λ (x : World S). record x {
            rows = S.save_outbox (email_message u draw) x.rows;
            triggers = suc x.triggers;
          })
          v1

  -- A request for a new code that is answered had neither a lockout nor a cooldown, for a PENDING
  -- account; it leaves the hash of the new code, a cooldown and no failures stored, adds exactly one
  -- message with the code to the outbox, and triggers the worker once.
  pub send_verification_code-Resent :
      (address : Text) (draw : Draw) (w w' : World S)
      → send_verification_code S f address draw w ≡ ok tt w'
      → Resent address draw w w'
  unfolding send_verification_code
  send_verification_code-Resent address draw w w' h =
      let email = normalize_email address in
      let (_, w1, e1, h1) = >>=-ok (check_lock S f email) _ w h in
      let (_, w2, e2, h2) = >>=-ok (check_cooldown S f email) _ w1 h1 in
      let (u, w3, e3, h3) = >>=-ok (find_pending S f email) _ w2 h2 in
      let (v1, unlocked) = check_lock-ok email w w1 e1 in
      let (v2, cool) = check_cooldown-ok email w1 w2 e2 in
      let (v3, found, p) = find_pending-ok email w2 w3 e3 in
      let same : w2 ≡ w = v2 ∙ v1 in
      record {
        user = u;
        unlocked = unlocked;
        cool = subst (λ (x : World S). is_set (S.get (cooldown_key email) x.store) ≡ false) v1 cool;
        found =
            subst (λ (x : World S). S.find_user (λ y. text_eq y.email email) x.rows ≡ some u) same
              found;
        is_pending = p;
        state = after_find address draw u w w' (
            subst
              (λ (x : World S).
                (store_code S f email draw.code >> (queue_email S f u draw >> trigger S f)) x
                ≡ ok tt w')
              (v3 ∙ same) h3);
      }
