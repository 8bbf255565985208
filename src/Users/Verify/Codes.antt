-- ===== src/Users/Verify/Codes.antt =====
-- One-time codes: a wrong one is counted, the seventh destroys the stored one, a right one is spent.
use skill_up.Base.{
  ℕ, suc, ◌-◌, ◌<◌, ◌≤◌, ◌≡◌, ◌≢◌, refl, sym, subst, false, none, some, [], ◌∷◌, ◌||◌, ◌&&◌,
  if◌then◌else◌, arith, ◌⊎◌, leb, le→leb, ◌==◌,
}
use skill_up.Text.{Text, text_eq, text_eq_refl, text_eq_iff, trim}
use skill_up.Text.Decimal.{print}
use skill_up.Shared.{GrpcStatus}
use skill_up.Services.{Services, IsRedis}
use skill_up.Effects.{Thrown, rpc, World, ok, err, ◌>>=◌, ◌>>◌}
use skill_up.Users.Keys.{otp_key, verify_rate_key, otp_rate_apart, rate_otp_apart}
use skill_up.Users.Counter.{
  read_count, effective_ttl, Counts, read_count-Counts, incr-Counts, Counts-incr,
}
use skill_up.Users.Tokens.{Fresh}
use skill_up.Users.Verify.{
  VerifyRequest, VerifyFaults, normalize_email, locked_message, remaining_message, check_rate,
  check_code, require_code, refuse_code, verify_account,
}

-- The reply to the `n`-th wrong code in a row.
abbrev pub refusal : ℕ → Thrown
refusal n =
    if leb 7 n
    then rpc GrpcStatus.resource_exhausted (locked_message 900)
    else rpc GrpcStatus.invalid_argument (remaining_message (7 - n))

-- The calls on the way of a wrong code all answer.
pub record Reaches (f : VerifyFaults) : Type 0 where
  pub get_rate : f.get_rate ≡ false
  pub ttl : f.ttl ≡ false
  pub get_otp : f.get_otp ≡ false
  pub incr : f.incr ≡ false
  pub expire : f.expire ≡ false
  pub del_spent : f.del_spent ≡ false

module _ {S : Services} (law : IsRedis S) (f : VerifyFaults) where
  -- While the calls answer, with seven failures counted every further request for the address is
  -- refused before its code is looked at, with the seconds that Redis still holds the counter; nothing
  -- changes.
  pub verify_locked :
      (request : VerifyRequest) (fresh : Fresh) (n : ℕ) (w : World S)
      → Reaches f
      → let key = verify_rate_key (normalize_email request.email) in
        read_count (S.get key w.store) ≡ some n
        → 7 ≤ n
        → verify_account S f request fresh w
          ≡ err
              (rpc GrpcStatus.resource_exhausted
                (locked_message (effective_ttl (S.ttl key w.store) 900)))
              w
  unfolding verify_account check_rate
  verify_locked request fresh n w up h le =
      rw (up.get_rate, h, le→leb 7 n le, up.ttl, verify_account, ◌>>◌, ◌>>=◌)

  check_rate_open :
      (key : Text) (n : ℕ) (w : World S)
      → read_count (S.get key w.store) ≡ some n
      → n < 7
      → check_rate S f key w ≡ ok tt w
  unfolding check_rate
  check_rate_open key n w h lt = ground arith

  -- The store after a wrong code, which is now the `n`-th.
  abbrev count_up : Text → ℕ → S.Store → S.Store
  count_up key n s =
      if n == 1 || leb 7 n then S.expire key 900 ((S.incr key s).1) else (S.incr key s).1

  abbrev after_wrong : Text → ℕ → S.Store → S.Store
  after_wrong email n s =
      let counted = count_up (verify_rate_key email) n s in
      if leb 7 n then S.del (otp_key email) counted else counted

  refuse_code_lem :
      (email : Text) (n : ℕ) (w : World S)
      → Reaches f
      → Counts law (verify_rate_key email) n w.store
      → refuse_code S f email w
        ≡ err (refusal (suc n)) (record w { store = after_wrong email (suc n) w.store })
  unfolding refuse_code
  refuse_code_lem email n w up c =
      ground (
        arith,
        up.incr,
        up.expire,
        up.del_spent,
        incr-Counts law (verify_rate_key email) n w.store c,
      )

  get-count_up :
      (key j : Text) (n : ℕ) (s : S.Store) → S.get j (count_up key n s) ≡ S.get j ((S.incr key s).1)
  get-count_up key j n s = ground (arith, law.get-expire j key 900 ((S.incr key s).1) (omega arith))

  get-after_wrong :
      (email j : Text) (n : ℕ) (s : S.Store)
      → S.get j (after_wrong email n s) ≡ (
          if leb 7 n && text_eq (otp_key email) j
          then none
          else S.get j ((S.incr (verify_rate_key email) s).1))
  get-after_wrong email j n s = ground (
    arith,
    law.get-del j (otp_key email) (count_up (verify_rate_key email) n s),
    get-count_up (verify_rate_key email) j n s,
  )

  -- What the `n`-th wrong code leaves: the tables as they were, the counter one higher, and the
  -- stored code as it was, or deleted by the seventh.
  pub record Counted (email : Text) (n : ℕ) (w w' : World S) : Type 0 where
    pub same_rows : w'.rows ≡ w.rows
    pub counted : Counts law (verify_rate_key email) n w'.store
    pub code :
        S.get (otp_key email) w'.store ≡ (if leb 7 n then none else S.get (otp_key email) w.store)

  Counted-after_wrong :
      (email : Text) (n : ℕ) (w : World S)
      → Counts law (verify_rate_key email) n w.store
      → Counted email (suc n) w (record w { store = after_wrong email (suc n) w.store })
  Counted-after_wrong email n w c = record {
    same_rows = refl;
    counted =
        subst (λ o. ((suc n ≡ 0) × (o ≡ none)) ⊎ (o ≡ some (print (suc n)))) (sym counter)
          (Counts-incr law _ n w.store c);
    code = code_after;
  }
    where
      counter :
          S.get (verify_rate_key email) (after_wrong email (suc n) w.store)
          ≡ S.get (verify_rate_key email) ((S.incr (verify_rate_key email) w.store).1)
      counter = ground (
        arith,
        get-after_wrong email (verify_rate_key email) (suc n) w.store,
        otp_rate_apart email email,
      )

      code_after :
          S.get (otp_key email) (after_wrong email (suc n) w.store)
          ≡ (if leb 7 (suc n) then none else S.get (otp_key email) w.store)
      code_after = ground (
        arith,
        get-after_wrong email (otp_key email) (suc n) w.store,
        text_eq_refl (otp_key email),
        law.get-incr (otp_key email) (verify_rate_key email) w.store,
        rate_otp_apart email email,
      )

  check_code_wrong :
      (email code t : Text) (n : ℕ) (w : World S)
      → Reaches f
      → Counts law (verify_rate_key email) n w.store
      → S.get (otp_key email) w.store ≡ some t
      → t ≢ []
      → S.sha256 code ≢ t
      → check_code S f email code w
        ≡ err (refusal (suc n)) (record w { store = after_wrong email (suc n) w.store })
  unfolding check_code require_code
  check_code_wrong email code [] n w up c stored some_code wrong = absurd (some_code refl)
  check_code_wrong email code (x ∷ t) n w up c stored some_code wrong =
      ground
        (arith, up.get_otp, text_eq_iff (S.sha256 code) (x ∷ t), refuse_code_lem email n w up c)

  -- While the calls answer, a wrong code for an address with a stored one and fewer than seven failures
  -- is refused with the attempts that remain, or with the lockout if it is the seventh; it counts as one
  -- more, the tables stay, and the seventh deletes the stored code.
  pub verify_wrong_code :
      (request : VerifyRequest) (fresh : Fresh) (n : ℕ) (t : Text) (w : World S)
      → Reaches f
      → let email = normalize_email request.email in
        Counts law (verify_rate_key email) n w.store
        → n < 7
        → S.get (otp_key email) w.store ≡ some t
        → t ≢ []
        → S.sha256 (trim request.code) ≢ t
        → (w' : World S) × (verify_account S f request fresh w ≡ err (refusal (suc n)) w')
          × Counted email (suc n) w w'
  unfolding verify_account
  verify_wrong_code request fresh n t w up c lt stored some_code wrong =
      let email = normalize_email request.email in
      (
        record w { store = after_wrong email (suc n) w.store },
        rw (
          check_rate_open (verify_rate_key email) n w (read_count-Counts law _ n w.store c) lt,
          check_code_wrong email (trim request.code) t n w up c stored some_code wrong,
          verify_account,
          ◌>>◌,
          ◌>>=◌,
        ),
        Counted-after_wrong email n w c,
      )
