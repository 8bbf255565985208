-- ===== src/Users/Login/Lockout.antt =====
-- The brute-force lockout of `login`: what one wrong password costs, and what a locked identifier gets.
use skill_up.Base.{
  ℕ, suc, ◌-◌, ◌<◌, ◌≤◌, ◌≡◌, refl, sym, ◌∙◌, subst, false, none, some, ◌||◌, if◌then◌else◌, arith,
  ◌⊎◌, leb, le→leb, lt→leb_false, ◌==◌,
}
use skill_up.Text.{Text, text_eq}
use skill_up.Text.Decimal.{print}
use skill_up.Shared.{User, UserStatus, GrpcStatus}
use skill_up.Services.{Services, IsRedis}
use skill_up.Effects.{Thrown, rpc, World, ok, err, ◌>>=◌, ◌>>◌}
use skill_up.Users.Keys.{login_rate_key, login_rate_key_eq}
use skill_up.Users.Counter.{
  read_count, effective_ttl, Counts, read_count-Counts, incr-Counts, Counts-incr,
}
use skill_up.Users.Tokens.{Fresh}
use skill_up.Users.Login.{
  LoginRequest, LoginFaults, normalize_identifier, names_user, locked_message, remaining_message,
  check_lockout, find_account, check_status, check_password, login,
}

-- The reply to the `n`-th wrong password in a row.
abbrev pub refusal : ℕ → Thrown
refusal n =
    if leb 5 n
    then rpc GrpcStatus.resource_exhausted (locked_message 900)
    else rpc GrpcStatus.unauthenticated (remaining_message (5 - n))

-- The calls on the way of a wrong password all answer.
pub record Reaches (f : LoginFaults) : Type 0 where
  pub get : f.get ≡ false
  pub ttl : f.ttl ≡ false
  pub find : f.find ≡ false
  pub compare : f.compare ≡ false
  pub incr : f.incr ≡ false
  pub expire : f.expire ≡ false

module _ {S : Services} (law : IsRedis S) (f : LoginFaults) (up : Reaches f) where
  check_lockout_locked :
      (key : Text) (n : ℕ) (w : World S)
      → read_count (S.get key w.store) ≡ some n
      → 5 ≤ n
      → check_lockout S f key w
        ≡ err
            (rpc GrpcStatus.resource_exhausted
              (locked_message (effective_ttl (S.ttl key w.store) 900)))
            w
  unfolding check_lockout
  check_lockout_locked key n w h le = rw (up.get, h, le→leb 5 n le, up.ttl)

  check_lockout_open :
      (key : Text) (n : ℕ) (w : World S)
      → read_count (S.get key w.store) ≡ some n
      → n < 5
      → check_lockout S f key w ≡ ok tt w
  unfolding check_lockout
  check_lockout_open key n w h lt = rw (up.get, h, lt→leb_false 5 n lt)

  -- While the calls answer, an identifier with five failures or more is refused before the password
  -- is looked at, right or wrong, with the seconds that Redis still holds the counter; nothing changes.
  pub login_locked :
      (request : LoginRequest) (fresh : Fresh) (n : ℕ) (w : World S)
      → let key = login_rate_key (normalize_identifier request.identifier) in
        read_count (S.get key w.store) ≡ some n
        → 5 ≤ n
        → login S f request fresh w
          ≡ err
              (rpc GrpcStatus.resource_exhausted
                (locked_message (effective_ttl (S.ttl key w.store) 900)))
              w
  unfolding login
  login_locked request fresh n w h le = rw (check_lockout_locked _ n w h le, login, ◌>>◌, ◌>>=◌)

  -- What a wrong password leaves: the tables as they were, the counter one higher, and the
  -- counters of other identifiers as they were.
  pub record Counted (identifier : Text) (n : ℕ) (w w' : World S) : Type 0 where
    pub same_rows : w'.rows ≡ w.rows
    pub counted : Counts law (login_rate_key identifier) n w'.store
    pub others :
        (j : Text)
        → text_eq identifier j ≡ false
        → S.get (login_rate_key j) w'.store ≡ S.get (login_rate_key j) w.store

  -- The store after a wrong password.
  abbrev count_up : Text → ℕ → S.Store → S.Store
  count_up key n s =
      if n == 1 || leb 5 n then S.expire key 900 ((S.incr key s).1) else (S.incr key s).1

  check_password_wrong :
      (key password hash : Text) (n : ℕ) (w : World S)
      → Counts law key n w.store
      → S.bcrypt_compare password hash ≡ false
      → check_password S f key password hash w
        ≡ err (refusal (suc n)) (record w { store = count_up key (suc n) w.store })
  unfolding check_password
  check_password_wrong key password hash n w c wrong =
      ground (arith, up.compare, up.incr, up.expire, incr-Counts law key n w.store c)

  get-count_up :
      (key j : Text) (n : ℕ) (s : S.Store) → S.get j (count_up key n s) ≡ S.get j ((S.incr key s).1)
  get-count_up key j n s = ground (arith, law.get-expire j key 900 ((S.incr key s).1) (omega arith))

  Counted-count_up :
      (identifier : Text) (n : ℕ) (w : World S)
      → Counts law (login_rate_key identifier) n w.store
      → Counted identifier
          (suc n)
          w
          (record w { store = count_up (login_rate_key identifier) (suc n) w.store })
  Counted-count_up identifier n w c = record {
    same_rows = refl;
    counted =
        subst (λ o. ((suc n ≡ 0) × (o ≡ none)) ⊎ (o ≡ some (print (suc n))))
          (sym (get-count_up _ _ (suc n) w.store)) (Counts-incr law _ n w.store c);
    others = λ j h.
        get-count_up _ _ (suc n) w.store
        ∙ law.get-incr _ _ w.store
        ∙ rw (login_rate_key_eq identifier j, h) refl;
  }

  -- While the calls answer, a wrong password for an ACTIVE account with fewer than five failures is
  -- refused with the attempts that remain, or with the lockout if it is the fifth; it counts as one
  -- more, and the tables and the counters of other identifiers stay.
  pub login_wrong_password :
      (request : LoginRequest) (fresh : Fresh) (n : ℕ) (u : User) (w : World S)
      → let identifier = normalize_identifier request.identifier in
        Counts law (login_rate_key identifier) n w.store
        → n < 5
        → S.find_user (names_user identifier) w.rows ≡ some u
        → u.status ≡ UserStatus.active
        → S.bcrypt_compare request.password u.password ≡ false
        → (w' : World S) × (login S f request fresh w ≡ err (refusal (suc n)) w')
          × Counted identifier (suc n) w w'
  unfolding login check_status find_account
  login_wrong_password request fresh n u w c lt found is_active wrong =
      let identifier = normalize_identifier request.identifier in
      let key = login_rate_key identifier in
      (
        record w { store = count_up key (suc n) w.store },
        rw (
          check_lockout_open key n w (read_count-Counts law key n w.store c) lt,
          up.find,
          found,
          is_active,
          check_password_wrong key request.password u.password n w c wrong,
          login,
          ◌>>◌,
          ◌>>=◌,
        ),
        Counted-count_up identifier n w c,
      )
