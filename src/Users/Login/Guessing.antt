-- ===== src/Users/Login/Guessing.antt =====
-- Password guessing against `login`: any number of wrong passwords under one identifier.
use skill_up.Base.{
  ℕ, suc, ◌+◌, ◌<◌, ◌≤◌, ◌≡◌, sym, subst, false, some, List, [], ◌∷◌, arith, min, length, All,
}
use native.Mathlib.Decide.{dec_lt}
use skill_up.Text.{Text}
use skill_up.Shared.{User, UserStatus, GrpcStatus}
use skill_up.Services.{Services, IsRedis}
use skill_up.Effects.{rpc, World, err, state}
use skill_up.Users.Keys.{login_rate_key}
use skill_up.Users.Counter.{read_count, effective_ttl, Counts, read_count-Counts}
use skill_up.Users.Tokens.{Fresh}
use skill_up.Users.Login.{
  LoginRequest, LoginFaults, normalize_identifier, names_user, locked_message, login,
}
use skill_up.Users.Login.Lockout.{Reaches, login_locked, login_wrong_password}

-- Requests one after the other, whatever each is answered.
unfoldable pub after_logins :
    (S : Services) (f : LoginFaults) → List (LoginRequest × Fresh) → World S → World S
after_logins S f [] w = w
after_logins S f ((request, fresh) ∷ more) w =
    after_logins S f more (state (login S f request fresh w))

module _ {S : Services} (law : IsRedis S) (f : LoginFaults) (up : Reaches f) (identifier : Text)
    (u : User) where
  -- A request for the account under this identifier, with a password that is not its own.
  pub record IsGuess (request : LoginRequest × Fresh) : Type 0 where
    pub same_identifier : normalize_identifier request.0.identifier ≡ identifier
    pub wrong : S.bcrypt_compare request.0.password u.password ≡ false

  -- The account as the queries under `i` see it, and its counter at `n`.
  abbrev Standing : Text → ℕ → World S → Type 0
  Standing i n w =
      Counts law (login_rate_key i) n w.store × (S.find_user (names_user i) w.rows ≡ some u)

  guess_below :
      (request : LoginRequest) (fresh : Fresh) (n : ℕ) (w : World S)
      → S.bcrypt_compare request.password u.password ≡ false
      → u.status ≡ UserStatus.active
      → n < 5
      → let i = normalize_identifier request.identifier in
        Standing i n w → Standing i (min 5 (suc n)) (state (login S f request fresh w))
  guess_below request fresh n w wrong is_active lt (c, found) =
      let (w', e, counted) =
        login_wrong_password law f up request fresh n u w c lt found is_active wrong in
      let same : min 5 (suc n) ≡ suc n = omega arith in
      rw (e, same) (counted.counted, rw (counted.same_rows) found)

  guess_locked :
      (request : LoginRequest) (fresh : Fresh) (w : World S)
      → let i = normalize_identifier request.identifier in
        Standing i 5 w → Standing i 5 (state (login S f request fresh w))
  guess_locked request fresh w (c, found) =
      rw
        (login_locked law f up request fresh 5 w (read_count-Counts law _ 5 w.store c)
          (omega arith))
        (c, found)

  one_guess :
      (request : LoginRequest) (fresh : Fresh) (n : ℕ) (w : World S)
      → IsGuess (request, fresh)
      → u.status ≡ UserStatus.active
      → n ≤ 5
      → Standing identifier n w
      → Standing identifier (min 5 (suc n)) (state (login S f request fresh w))
  one_guess request fresh n w g is_active le =
      subst (λ i. Standing i n w → Standing i (min 5 (suc n)) (state (login S f request fresh w)))
        g.same_identifier
        (elim (dec_lt n 5) [
          | yes lt ↦ guess_below request fresh n w g.wrong is_active lt
          | no not_lt ↦
              let at_five : n ≡ 5 = omega arith in rw at_five (guess_locked request fresh w)
        ])

  many_guesses :
      (guesses : List (LoginRequest × Fresh)) (n : ℕ) (w : World S)
      → All IsGuess guesses
      → u.status ≡ UserStatus.active
      → n ≤ 5
      → Standing identifier n w
      → Standing identifier (min 5 (n + length guesses)) (after_logins S f guesses w)
  unfolding after_logins
  many_guesses [] n w g is_active le st = let same : min 5 (n + 0) ≡ n = omega arith in rw same st
  many_guesses ((request, fresh) ∷ more) n w (g, gs) is_active le st =
      let same : min 5 (n + suc (length more)) ≡ min 5 (min 5 (suc n) + length more) =
        omega arith in
      rw same (
        many_guesses more (min 5 (suc n)) _ gs is_active (omega arith)
          (one_guess request fresh n w g is_active le st))

  -- While the calls of Redis and of the table answer: after five wrong passwords or more for an ACTIVE
  -- account under one identifier, with no failures before, the next login under that identifier is
  -- refused, also with the right password, and changes nothing.
  pub five_guesses_lock :
      (guesses : List (LoginRequest × Fresh)) (request : LoginRequest) (fresh : Fresh) (w : World S)
      → All IsGuess guesses
      → 5 ≤ length guesses
      → normalize_identifier request.identifier ≡ identifier
      → Counts law (login_rate_key identifier) 0 w.store
      → S.find_user (names_user identifier) w.rows ≡ some u
      → u.status ≡ UserStatus.active
      → let w' = after_logins S f guesses w in
        login S f request fresh w'
        ≡ err
            (rpc GrpcStatus.resource_exhausted
              (locked_message (effective_ttl (S.ttl (login_rate_key identifier) w'.store) 900)))
            w'
  five_guesses_lock guesses request fresh w all_wrong many same c found is_active =
      let st = many_guesses guesses 0 w all_wrong is_active (omega arith) (c, found) in
      let five : min 5 (0 + length guesses) ≡ 5 = omega arith in
      let at_five =
        subst (λ n. Counts law (login_rate_key identifier) n (after_logins S f guesses w).store)
          five st.0 in
      locked_as same (read_count-Counts law _ 5 _ at_five)
    where
      locked_as :
          {v : World S}
          → normalize_identifier request.identifier ≡ identifier
          → read_count (S.get (login_rate_key identifier) v.store) ≡ some 5
          → login S f request fresh v
            ≡ err
                (rpc GrpcStatus.resource_exhausted
                  (locked_message (effective_ttl (S.ttl (login_rate_key identifier) v.store) 900)))
                v
      locked_as {v} e h = rw (← e) (
          login_locked law f up request fresh 5 v
            (subst (λ i. read_count (S.get (login_rate_key i) v.store) ≡ some 5) (sym e) h)
            (omega arith))
