-- ===== src/RateLimit/Layers.antt =====
-- The two layers of counters: what they say of a request, and what the request leaves.
use skill_up.Base.{
  ℕ, suc, ◌<◌, ◌≡◌, refl, sym, ap, ◌∙◌, subst, Bool, true, false, none, some, [], ◌∷◌, ◌++◌, ◌⊎◌,
  ◌↔◌, if◌then◌else◌, ltb, arith, take,
}
use skill_up.Text.{Text, codes, text_eq, trim, to_lower}
use skill_up.Text.Decimal.{print}
use skill_up.Services.{Services, IsRedis}
use skill_up.Effects.{World, ok, err, catch, Thrown, ◌>>=◌, M}
use skill_up.Users.Counter.{Counts, incr-Counts, Counts-incr, effective_ttl}
use skill_up.RateLimit.{
  RateLimitOptions, GuardRequest, GuardFaults, allowed, too_many_from_ip, too_many_for_account,
  Reply, Layer, extract_client_ip, raw_target, prefix_of, ip_key, email_key, judge_ip,
  judge_account, bump, layer, account_key, account_layer, judge_request, count_request,
  can_activate, headers_of,
}

text_eq-append : (p a b : Text) → text_eq (p ++ a) (p ++ b) ≡ text_eq a b
unfolding text_eq
text_eq-append [] a b = refl
text_eq-append (c ∷ p) a b = ground (arith, text_eq-append p a b)

ip_email_apart :
    (prefix ip hash : Text) → text_eq (ip_key prefix ip) (email_key prefix hash) ≡ false
unfolding ip_key email_key text_eq
ip_email_apart prefix ip hash = text_eq-append prefix (codes ":ip:" ++ ip) (codes ":email:" ++ hash)

email_ip_apart :
    (prefix ip hash : Text) → text_eq (email_key prefix hash) (ip_key prefix ip) ≡ false
unfolding ip_key email_key text_eq
email_ip_apart prefix ip hash = text_eq-append prefix (codes ":email:" ++ hash) (codes ":ip:" ++ ip)

-- The rest of a sequence after a step that returned.
next :
    {S : Services} {A B : Type 0} (m : M S A) (g : A → M S B) (w : World S) {a : A} {v : World S}
    → m w ≡ ok a v
    → (m >>= g) w ≡ g a v
next m g w e = ap (λ r. elim r [ ok a v ↦ g a v | err x v ↦ err x v ]) e

caught :
    {S : Services} {A : Type 0} (m : M S A) (h : Thrown → M S A) (w : World S) {a : A} {v : World S}
    → m w ≡ ok a v
    → catch m h w ≡ ok a v
caught m h w e = ap (λ r. elim r [ ok a v ↦ ok a v | err x v ↦ h x v ]) e

module _ {S : Services} (law : IsRedis S) (f : GuardFaults) (o : RateLimitOptions)
    (window : 0 < o.ttl) where
  get-bump :
      (j key : Text) (s : S.Store) → S.get j ((bump S f o key s).1) ≡ S.get j ((S.incr key s).1)
  unfolding bump
  get-bump j key s = ground (arith, law.get-expire j key o.ttl ((S.incr key s).1) window)

  bump_count :
      (key : Text) (n : ℕ) (s : S.Store) → Counts law key n s → (bump S f o key s).0 ≡ suc n
  unfolding bump
  bump_count key n s c = incr-Counts law key n s c

  Counts-bump :
      (key : Text) (n : ℕ) (s : S.Store)
      → Counts law key n s
      → Counts law key (suc n) ((bump S f o key s).1)
  Counts-bump key n s c =
      subst (λ x. ((suc n ≡ 0) × (x ≡ none)) ⊎ (x ≡ some (print (suc n))))
        (sym (get-bump key key s)) (Counts-incr law key n s c)

  Counts-bump_other :
      (key j : Text) (n : ℕ) (s : S.Store)
      → text_eq key j ≡ false
      → Counts law j n s
      → Counts law j n ((bump S f o key s).1)
  Counts-bump_other key j n s d c =
      subst (λ x. ((n ≡ 0) × (x ≡ none)) ⊎ (x ≡ some (print n)))
        (sym (get-bump j key s ∙ law.get-incr j key s ∙ rw d refl)) c

-- All calls of Redis answer.
pub record Answering (f : GuardFaults) : Type 0 where
  pub eval_ip : f.eval_ip ≡ false
  pub ttl_ip : f.ttl_ip ≡ false
  pub eval_email : f.eval_email ≡ false
  pub ttl_email : f.ttl_email ≡ false

verdict_eq :
    (limit n m s a : ℕ) (over_ip over_account : Bool)
    → ltb limit (suc n) ≡ over_ip
    → ltb limit (suc m) ≡ over_account
    → ((if over_ip
          then too_many_from_ip s
          else if over_account
          then too_many_for_account a
          else allowed)
        ≡ allowed)
      ↔ ((n < limit) × (m < limit))
verdict_eq limit n m s a true y e d = (λ q. cc, λ (p, q). absurd (ground arith))
verdict_eq limit n m s a false true e d = (λ q. cc, λ (p, q). absurd (ground arith))
verdict_eq limit n m s a false false e d = (λ q. (ground arith, ground arith), λ _. refl)

module _ {S : Services} (law : IsRedis S) (f : GuardFaults) (o : RateLimitOptions)
    (window : 0 < o.ttl) where
  abbrev bumped : Text → World S → World S
  bumped key w = record w { store = (bump S f o key w.store).1 }

  abbrev layer_of : ℕ → Text → World S → Layer
  layer_of n key w = record {
    count = n;
    seconds = effective_ttl (S.ttl key (bumped key w).store) o.ttl;
  }

  layer_lem :
      (eval_down ttl_down : Bool) (key : Text) (n : ℕ) (w : World S)
      → eval_down ≡ false
      → ttl_down ≡ false
      → Counts law key n w.store
      → layer S f o eval_down ttl_down key w ≡ ok (layer_of (suc n) key w) (bumped key w)
  unfolding layer
  layer_lem true y key n w a b c = cc
  layer_lem false true key n w a b c = cc
  layer_lem false false key n w a b c = rw (bump_count law f o window key n w.store c) refl

  -- The keys of the two layers of a request.
  abbrev pub ip_layer_key : GuardRequest → Text
  ip_layer_key r = ip_key (prefix_of o) (extract_client_ip r)

  account_layer_lem :
      (up : Answering f) (r : GuardRequest) (target : Text) (m : ℕ) (w : World S)
      → Counts law (account_key S f o target) m w.store
      → account_layer S f o (some target) w
        ≡ ok
            (some (layer_of (suc m) (account_key S f o target) w))
            (bumped (account_key S f o target) w)
  unfolding account_layer
  account_layer_lem up r target m w c = rw (
    layer_lem f.eval_email f.ttl_email (account_key S f o target) m w up.eval_email up.ttl_email c,
    account_layer,
    ◌>>=◌,
  )

  reply_lem :
      (up : Answering f) (r : GuardRequest) (target : Text) (now n m : ℕ) (w : World S)
      → let ip = ip_layer_key r in
        let account = account_key S f o target in
        raw_target r ≡ some target
        → Counts law ip n w.store
        → Counts law account m (bumped ip w).store
        → let one = layer_of (suc n) ip w in
          let two = layer_of (suc m) account (bumped ip w) in
          judge_request S f o r now w
          ≡ ok
              (record {
                verdict = judge_ip o one (judge_account o (some two));
                headers = some (headers_of o now one (some two));
              })
              (bumped account (bumped ip w))
  unfolding judge_request
  reply_lem up r target now n m w named c d =
      let first = layer_lem f.eval_ip f.ttl_ip (ip_layer_key r) n w up.eval_ip up.ttl_ip c in
      let v = bumped (ip_layer_key r) w in
      let second =
        subst
          (λ t.
            account_layer S f o t v
            ≡ ok (some (layer_of (suc m) (account_key S f o target) v))
                (bumped (account_key S f o target) v))
          (sym named) (account_layer_lem up r target m v d) in
      next (layer S f o f.eval_ip f.ttl_ip (ip_layer_key r)) _ w first
      ∙ next (account_layer S f o (raw_target r)) _ v second

  -- A request that names an account, where Redis answers and the window is positive, passes exactly if
  -- both its address and the account have had fewer requests than the limit in their windows; it counts
  -- as one more for both.
  pub can_activate-layers :
      (up : Answering f) (r : GuardRequest) (target : Text) (now n m : ℕ) (w : World S)
      → raw_target r ≡ some target
      → Counts law (ip_layer_key r) n w.store
      → Counts law (account_key S f o target) m w.store
      → (reply : Reply) × (w' : World S) × (can_activate S f (some o) r now w ≡ ok reply w')
        × ((reply.verdict ≡ allowed) ↔ ((n < o.limit) × (m < o.limit)))
        × Counts law (ip_layer_key r) (suc n) w'.store
        × Counts law (account_key S f o target) (suc m) w'.store
  unfolding can_activate count_request judge_ip judge_account account_key
  can_activate-layers up r target now n m w named c d =
      let ip = ip_layer_key r in
      let account = account_key S f o target in
      let hash = take 16 (S.sha256 (to_lower (trim target))) in
      let counted =
        Counts-bump_other law f o window ip account m w.store
          (ip_email_apart (prefix_of o) (extract_client_ip r) hash) d in
      let one = layer_of (suc n) ip w in
      let two = layer_of (suc m) account (bumped ip w) in
      (
        record {
          verdict = judge_ip o one (judge_account o (some two));
          headers = some (headers_of o now one (some two));
        },
        bumped account (bumped ip w),
        caught (judge_request S f o r now) _ w (reply_lem up r target now n m w named c counted),
        verdict_eq o.limit n m one.seconds two.seconds (ltb o.limit (suc n)) (ltb o.limit (suc m))
            refl refl,
        Counts-bump_other law f o window account ip (suc n) (bumped ip w).store
            (email_ip_apart (prefix_of o) (extract_client_ip r) hash)
            (Counts-bump law f o window ip n w.store c),
        Counts-bump law f o window account m (bumped ip w).store counted,
      )
